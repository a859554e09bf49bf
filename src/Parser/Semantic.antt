-- ===== src/Parser/Semantic.antt =====
-- engine/parser/semantic.py: `_fail`, and the checks on the names and the types of columns.
pub mod Tables
pub mod Values
pub mod Checks
pub mod Records
pub mod Scopes
mod Tests
use quipudb.Prelude.{
  ℕ, zero, suc, String, Bool, true, false, ◌&&◌, ◌||◌, Option, none, some, [], ◌∷◌, all, length,
  ltb, ◌==◌, if◌then◌else◌,
}
use quipudb.Prelude.Int.{ℤ, pos, negsuc}
use quipudb.Parser.Chars.{Text, between, is_digit}
use quipudb.Parser.Chars.Encoded.{encode}
use quipudb.Parser.Span.{Span}
use quipudb.Parser.Errors.{
  SqlError, semantic_error, Message, said, name_too_long, invalid_name, length_not_admitted,
}
use quipudb.Parser.Ast.{SqlTypeName}

-- `rejected` is a SQLError and `raised` any other exception.
pub data Checked {ℓ} (A : Type ℓ) : Type ℓ where
  accepted : A → Checked A
  rejected : SqlError → Checked A
  raised : Checked A

module _ {ℓ κ} {A : Type ℓ} {B : Type κ} where
  infixl 1 ◌>>=◌ ◌>>◌
  abbrev pub ◌>>=◌ : Checked A → (A → Checked B) → Checked B
  accepted a >>= k = k a
  rejected e >>= k = rejected e
  raised >>= k = raised

  abbrev pub ◌>>◌ : Checked A → Checked B → Checked B
  accepted a >> r = r
  rejected e >> r = rejected e
  raised >> r = raised

abbrev pub pure {ℓ} : {A : Type ℓ} → A → Checked A
pure = accepted

-- A letter or a digit as `_IDENTIFIER` takes them.
abbrev pub is_word_start : ℕ → Bool
is_word_start c = between 65 90 c || between 97 122 c || c == 95

abbrev pub is_word_part : ℕ → Bool
is_word_part c = is_word_start c || is_digit c

-- `_IDENTIFIER.fullmatch(name)`
unfoldable pub is_identifier : Text → Bool
is_identifier [] = false
is_identifier (c ∷ t) = is_word_start c && all is_word_part t

module _ (source : Option Text) where
  -- `_fail`
  abbrev pub fail {ℓ} : {A : Type ℓ} → Message → Span → Checked A
  fail message span =
      rejected (record { class = semantic_error; message = message; span = span; source = source })

  -- `_validate_identifier`
  unfoldable pub validate_identifier : Text → String → Span → Checked {0} Unit
  unfolding is_identifier
  validate_identifier name role span =
      if ltb 64 (length name)
      then fail (name_too_long role) span
      else if is_identifier name
      then pure tt
      else fail (invalid_name name role) span

  abbrev positive_length : String → Option ℤ → Span → Checked (Option ℕ)
  positive_length message (some (pos (suc n))) span = pure (some (suc n))
  positive_length message other span = fail (said message) span

  -- `_validate_type`
  unfoldable pub validate_type : SqlTypeName → Option ℤ → Span → Checked (Option ℕ)
  validate_type SqlTypeName.varchar length span =
      positive_length "VARCHAR necesita una longitud mayor que 0" length span
  validate_type SqlTypeName.vector length span =
      positive_length "VECTOR necesita una dimension mayor que 0" length span
  validate_type other none span = pure none
  validate_type other (some n) span = fail (length_not_admitted other) span

-- A name as a schema keeps it.
abbrev pub name_of : Text → Checked String
name_of name = elim (encode name) [ none ↦ raised | some s ↦ accepted s ]

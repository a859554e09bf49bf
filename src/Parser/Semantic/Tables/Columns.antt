-- ===== src/Parser/Semantic/Tables/Columns.antt =====
-- engine/parser/semantic.py: the columns and the key of a table.
use mathlib.Core.Path.{subst}
use quipudb.Prelude.{
  ℕ, suc, ◌+◌, String, ◌≡◌, refl, Bool, true, false, Option, none, some, List, [], ◌∷◌, all, length,
  ltb, ◌<◌, if◌then◌else◌, arith,
}
use quipudb.Prelude.Int.{ℤ, pos}
use quipudb.Parser.Chars.{Text, codes}
use quipudb.Parser.Chars.Encoded.{AllAscii, encode-ascii, codes-encode}
use quipudb.Parser.Span.{Span}
use quipudb.Parser.Ast.{SqlTypeName, ColumnDefinition}
use quipudb.Parser.Semantic.{
  is_word_start, is_word_part, is_identifier, validate_identifier, validate_type, name_of,
}
use quipudb.Parser.Semantic.Checks.{
  and_true, Answers, accepts, rejects, Answers-if, Answers-bind, Answers-then,
}
use quipudb.Parser.Semantic.Values.Stored.{HasLength}
use quipudb.Parser.Semantic.Tables.{is_seen, primary_keys, bind_column, bind_columns, only_key}
use quipudb.Parser.Semantic.Tables.Shape.{
  IsName, SameLength, IsColumn, AllBound, none_left, one_more, NoKey, IsOnlyKey, here, there,
}

is_word_part-ascii : (c : ℕ) → is_word_part c ≡ true → c < 128
is_word_part-ascii c h = ground arith

all-ascii : (t : Text) → all is_word_part t ≡ true → AllAscii t
all-ascii [] h = tt
all-ascii (c ∷ t) h =
    let parts = and_true (is_word_part c) (all is_word_part t) h in
    (is_word_part-ascii c parts.0, all-ascii t parts.1)

is_identifier-ascii : (t : Text) → is_identifier t ≡ true → AllAscii t
unfolding is_identifier
is_identifier-ascii [] h = tt
is_identifier-ascii (c ∷ t) h =
    let parts = and_true (is_word_start c) (all is_word_part t) h in
    (ground arith, all-ascii t parts.1)

pub name_of-Answers :
    {source : Option Text} (name : Text)
    → is_identifier name ≡ true
    → Answers source (λ s. codes s ≡ name) (name_of name)
name_of-Answers name h =
    let e = encode-ascii name (is_identifier-ascii name h) in
    rw (e.1, name_of) (accepts e.0 (codes-encode name e.0 e.1))

module _ (source : Option Text) where
  pub validate_identifier-Answers :
      (name : Text) (role : String) (span : Span)
      → Answers source (λ _. IsName name) (validate_identifier source name role span)
  unfolding validate_identifier
  validate_identifier-Answers name role span =
      Answers-if (ltb 64 (length name)) (λ _. rejects _ refl refl)
        (λ n.
          Answers-if (is_identifier name) (λ h. accepts tt (ground arith, h))
            (λ _. rejects _ refl refl))

  validate_type-Answers :
      (t : SqlTypeName) (l : Option ℤ) (span : Span)
      → Answers source (λ n. HasLength t n × SameLength l n) (validate_type source t l span)
  unfolding validate_type
  validate_type-Answers SqlTypeName.varchar (some (pos (suc n))) span = accepts _ ((n, refl), refl)
  validate_type-Answers SqlTypeName.varchar l span = rejects _ refl refl
  validate_type-Answers SqlTypeName.vector (some (pos (suc n))) span = accepts _ ((n, refl), refl)
  validate_type-Answers SqlTypeName.vector l span = rejects _ refl refl
  validate_type-Answers t none span = accepts _ (refl, tt)
  validate_type-Answers t (some n) span = rejects _ refl refl

  -- What the list of the primary keys says of the columns, of which the first is the one at `i`.
  abbrev Keyed : ℕ → List ColumnDefinition → List (ℕ × Span) → Type 0
  Keyed i ds [] = NoKey ds
  Keyed i ds ((k, s) ∷ []) = (n : ℕ) × (k ≡ i + n) × IsOnlyKey n ds
  Keyed i ds (first ∷ second ∷ more) = Unit

  primary_keys-Keyed : (i : ℕ) (ds : List ColumnDefinition) → Keyed i ds (primary_keys i ds)
  unfolding primary_keys
  primary_keys-Keyed i [] = tt
  primary_keys-Keyed i (d ∷ ds) =
      next d.primary_key (primary_keys (i + 1) ds) refl (primary_keys-Keyed (i + 1) ds)
    where
      next :
          (b : Bool) (ks : List (ℕ × Span))
          → d.primary_key ≡ b
          → Keyed (i + 1) ds ks
          → Keyed i (d ∷ ds) (if b then (i, d.span) ∷ ks else ks)
      next false [] e h = (e, h)
      next false ((k, s) ∷ []) e (n, p, h) = (suc n, omega (arith, p), there n d ds e h)
      next false (a ∷ b ∷ more) e h = tt
      next true [] e h = (0, omega arith, here d ds e h)
      next true (a ∷ more) e h = tt

  pub only_key-Answers :
      (span : Span) (ds : List ColumnDefinition)
      → Answers source (λ k. IsOnlyKey k ds) (only_key source span (primary_keys 0 ds))
  unfolding only_key
  only_key-Answers span ds = by_keys (primary_keys 0 ds) (primary_keys-Keyed 0 ds)
    where
      by_keys :
          (ks : List (ℕ × Span))
          → Keyed 0 ds ks
          → Answers source (λ k. IsOnlyKey k ds) (only_key source span ks)
      by_keys [] h = rejects _ refl refl
      by_keys ((k, s) ∷ []) (n, p, h) = accepts k (subst (λ m. IsOnlyKey m ds) (omega (arith, p)) h)
      by_keys (a ∷ (k, s) ∷ more) h = rejects _ refl refl

  bind_column-Answers :
      (table : Text) (seen : List Text) (d : ColumnDefinition)
      → Answers source
          (λ c. IsColumn d c × (is_seen d.name.name seen ≡ false))
          (bind_column source table seen d)
  unfolding bind_column
  bind_column-Answers table seen d =
      Answers-then (validate_identifier source d.name.name "columna" d.name.span) _
        (validate_identifier-Answers d.name.name "columna" d.name.span)
        (λ _ named.
          Answers-if (is_seen d.name.name seen) (λ _. rejects _ refl refl)
            (λ fresh.
              Answers-bind
                (validate_type source d.data_type.name d.data_type.length d.data_type.span) _
                (validate_type-Answers d.data_type.name d.data_type.length d.data_type.span)
                (λ n sized.
                  Answers-bind (name_of d.name.name) _ (name_of-Answers d.name.name named.1)
                    (λ s same. accepts _ (
                      record {
                        named = named;
                        same_name = same;
                        same_type = refl;
                        same_length = sized.1;
                        sized = sized.0;
                      },
                      fresh,
                    )))))

  pub bind_columns-Answers :
      (table : Text) (seen : List Text) (ds : List ColumnDefinition)
      → Answers source (AllBound seen ds) (bind_columns source table seen ds)
  unfolding bind_columns
  bind_columns-Answers table seen [] = accepts _ (none_left seen)
  bind_columns-Answers table seen (d ∷ ds) =
      Answers-bind (bind_column source table seen d) _ (bind_column-Answers table seen d) (λ c h.
        Answers-bind (bind_columns source table (d.name.name ∷ seen) ds) _
          (bind_columns-Answers table (d.name.name ∷ seen) ds)
          (λ cs hs. accepts _ (one_more seen d c ds cs h.0 h.1 hs)))

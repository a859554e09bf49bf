-- ===== src/Parser/Stream.antt =====
-- engine/parser/parser.py: the state of `_Parser`, its exceptions and its primitive methods. The
-- tokens that are left stand for `_current`, and the token before them for `_tokens[_current - 1]`.
use quipudb.Prelude.{
  ℕ, ◌+◌, String, Bool, true, false, Option, none, some, List, [], ◌∷◌, map, all, any, length,
  if◌then◌else◌,
}
use quipudb.Prelude.Int.{ℤ}
use quipudb.Parser.Span.{through}
use quipudb.Parser.Chars.{Text, codes, text_eq, upper, all_ascii, between}
use quipudb.Parser.Errors.{
  ErrorClass, parse_error, unsupported_error, Message, said, not_supported, SqlError,
}
use quipudb.Parser.Tokens.{TokenKind, text, integer, double, Token}
use quipudb.Parser.Kinds.{kind_eq}
use quipudb.Parser.Ast.{Identifier, ColumnReference}

-- Python's letters: `str.isalpha` of a character, and `str.upper` and `str.lower` of a text that is
-- not ASCII.
pub record Letters : Type 0 where
  pub is_alpha : ℕ → Bool
  pub other_upper : Text → Text
  pub other_lower : Text → Text

abbrev pub upper_text : Letters → Text → Text
upper_text letters w = if all_ascii w then map upper w else letters.other_upper w

abbrev to_lower : ℕ → ℕ
to_lower c = if between 65 90 c then c + 32 else c

abbrev pub lower_text : Letters → Text → Text
lower_text letters w = if all_ascii w then map to_lower w else letters.other_lower w

-- `str.isalpha`
abbrev is_alpha_text : Letters → Text → Bool
is_alpha_text letters [] = false
is_alpha_text letters (c ∷ w) = all letters.is_alpha (c ∷ w)

-- What the parser takes from Python, and the query. `of_integer` is `float` of an `int`, which
-- raises OverflowError (`none`); `is_within low high x` is `low <= x <= high`.
pub record Env (F : Type 0) : Type 0 where
  pub of_integer : ℤ → Option F
  pub is_within : ℤ → ℤ → F → Bool
  pub letters : Letters
  pub source : Text

-- The token before, and the tokens from `_current` on.
pub data Stream (F : Type 0) : Type 0 where
  at : Token F → List (Token F) → Stream F

-- `error` is a SQLError and `overflow` the OverflowError of `float`. `crashed` stands for an
-- IndexError or for a value of another type than the token's kind has; the program has no
-- counterpart of `out_of_fuel`.
pub data Outcome {ℓ} (F : Type 0) (A : Type ℓ) : Type ℓ where
  done : A → Stream F → Outcome F A
  error : SqlError → Outcome F A
  overflow : ℤ → Outcome F A
  crashed out_of_fuel : Outcome F A

abbrev pub bind {ℓ κ} :
    {F : Type 0} {A : Type ℓ} {B : Type κ}
    → Outcome F A
    → (A → Stream F → Outcome F B)
    → Outcome F B
bind (done a s) k = k a s
bind (error e) k = error e
bind (overflow n) k = overflow n
bind crashed k = crashed
bind out_of_fuel k = out_of_fuel

abbrev pub Parser {ℓ} : Type 0 → Type ℓ → Type ℓ
Parser F A = Stream F → Outcome F A

abbrev pub pure {ℓ} : {F : Type 0} {A : Type ℓ} → A → Parser F A
pure a s = done a s

infixl 1 ◌>>=◌ ◌>>◌
abbrev pub ◌>>=◌ {ℓ κ} :
    {F : Type 0} {A : Type ℓ} {B : Type κ} → Parser F A → (A → Parser F B) → Parser F B
p >>= f = λ s. bind (p s) f

abbrev pub ◌>>◌ {ℓ κ} :
    {F : Type 0} {A : Type ℓ} {B : Type κ} → Parser F A → Parser F B → Parser F B
p >> q = λ s. bind (p s) (λ _. q)

-- `_UNSUPPORTED_WORDS`
abbrev pub unsupported_words : List String
unsupported_words =
    "ALTER" ∷ "AS" ∷ "COMMIT" ∷ "DISTINCT" ∷ "EXCEPT" ∷ "HAVING" ∷ "IN" ∷ "INTERSECT" ∷ "IS"
    ∷ "LIKE" ∷ "NOT" ∷ "NULL" ∷ "OFFSET" ∷ "OR" ∷ "ROLLBACK" ∷ "UNION" ∷ "UPDATE" ∷ "VIEW" ∷ []

module _ {F : Type 0} where
  -- `_peek`
  unfoldable pub peek_token : Parser F (Token F)
  peek_token (at p []) = crashed
  peek_token (at p (t ∷ ts)) = done t (at p (t ∷ ts))

  -- `_advance`
  unfoldable pub advance_token : Parser F (Token F)
  advance_token (at p []) = crashed
  advance_token (at p (t ∷ ts)) =
      if kind_eq t.kind TokenKind.eof then done t (at p (t ∷ ts)) else done t (at t ts)

  -- `_previous`
  abbrev pub previous_token : Parser F (Token F)
  previous_token (at p ts) = done p (at p ts)

  abbrev pub is_one_of : List TokenKind → Token F → Bool
  is_one_of kinds t = any (λ k. kind_eq t.kind k) kinds

  -- `_check`
  unfoldable pub check_kind : TokenKind → Parser F Bool
  unfolding peek_token
  check_kind kind = do t ← peek_token; pure (kind_eq t.kind kind)

  -- `_match`, also of several kinds
  unfoldable pub match_kinds : List TokenKind → Parser F Bool
  unfolding peek_token advance_token
  match_kinds kinds = do
    t ← peek_token
    if is_one_of kinds t then (do advance_token; pure true) else pure false

  -- `if self._match(kinds): hit else: miss`
  unfoldable pub on_match {ℓ} :
      {A : Type ℓ} → List TokenKind → (Token F → Parser F A) → Parser F A → Parser F A
  unfolding match_kinds
  on_match kinds hit miss = do
    b ← match_kinds kinds
    if b then (do t ← previous_token; hit t) else miss

  -- A chain of `if self._match(kinds): hit`, with what follows it.
  unfoldable pub on_cases {ℓ} :
      {A : Type ℓ} → List (List TokenKind × (Token F → Parser F A)) → Parser F A → Parser F A
  unfolding on_match
  on_cases [] other = other
  on_cases ((kinds, hit) ∷ cases) other = on_match kinds hit (on_cases cases other)

  -- An `int`, a `float` or a `str` of the token's value.
  abbrev pub int_value : Token F → Parser F ℤ
  int_value t = elim t.value [ integer n ↦ pure n | _ ↦ λ s. crashed ]

  abbrev pub text_value : Token F → Parser F Text
  text_value t = elim t.value [ text w ↦ pure w | _ ↦ λ s. crashed ]

  -- The tokens that are left, as fuel for a loop that reads one or more in each round.
  abbrev pub with_fuel {ℓ} : {A : Type ℓ} → (ℕ → Parser F A) → Parser F A
  with_fuel p (at t ts) = p (length ts) (at t ts)

module _ {F : Type 0} ⦃env : Env F⦄ where
  abbrev pub float_value : Token F → Parser F F
  float_value t = elim t.value [
    | integer n ↦ λ s. elim (env.of_integer n) [ none ↦ overflow n | some x ↦ done x s ]
    | double x ↦ pure x
    | _ ↦ λ s. crashed
  ]

  -- `_word`
  unfoldable pub word_of : Token F → Text
  word_of t =
      if kind_eq t.kind TokenKind.identifier
      then elim t.value [ text w ↦ if all_ascii w then map upper w else [] | _ ↦ [] ]
      else if is_alpha_text env.letters t.lexeme
      then upper_text env.letters t.lexeme
      else []

  unfoldable pub is_unsupported : Token F → Bool
  unfolding word_of text_eq
  is_unsupported t = any (λ w. text_eq (word_of t) (codes w)) unsupported_words

  abbrev pub raise {ℓ} : {A : Type ℓ} → ErrorClass → Token F → Message → Parser F A
  raise class t message s =
      error (record { class = class; message = message; span = t.span; source = some env.source })

  -- `raise self._error(token, message)`
  abbrev pub fail_with {ℓ} : {A : Type ℓ} → Token F → Message → Parser F A
  fail_with t message = raise parse_error t message

  abbrev pub fail_at {ℓ} : {A : Type ℓ} → Token F → String → Parser F A
  fail_at t message = fail_with t (said message)

  -- `raise self._error(self._peek(), message)`
  unfoldable pub fail_here {ℓ} : {A : Type ℓ} → String → Parser F A
  unfolding peek_token
  fail_here message = do t ← peek_token; fail_at t message

  -- `_raise_unsupported`
  unfoldable pub raise_unsupported {ℓ} : {A : Type ℓ} → Token F → Parser F A
  unfolding word_of
  raise_unsupported t =
      raise unsupported_error t (not_supported (elim (word_of t) [ [] ↦ t.lexeme | c ∷ w ↦ c ∷ w ]))

  -- `_expect`
  unfoldable pub expect : TokenKind → Message → Parser F (Token F)
  unfolding check_kind advance_token peek_token is_unsupported raise_unsupported
  expect kind message = do
    b ← check_kind kind
    if b then advance_token else do
      t ← peek_token
      if is_unsupported t then raise_unsupported t else fail_with t message

  -- `_identifier`
  unfoldable pub identifier : String → Parser F Identifier
  unfolding peek_token is_unsupported raise_unsupported expect
  identifier message = do
    t ← peek_token
    if is_unsupported t then raise_unsupported t else do
      t ← expect TokenKind.identifier (said message)
      name ← text_value t
      pure (record { name = name; span = t.span })

  -- `_column_reference`
  unfoldable pub column_reference : String → Parser F ColumnReference
  unfolding identifier on_match through
  column_reference message = do
    first ← identifier message
    on_match (TokenKind.dot ∷ [])
        (λ _. do
          name ← identifier "se esperaba el nombre de la columna despues de '.'"
          pure
              (record { name = name; span = through first.span name.span; qualifier = some first }))
        (pure (record { name = first; span = first.span; qualifier = none }))

-- ===== src/Parser/Scanner.antt =====
-- engine/parser/lexer.py: the methods `_scan_...` and `_skip_...`, each with the cursor where it
-- starts. `F` and `Doubles` are the floating-point numbers; `is_alpha` is `str.isalpha`.
pub mod Progress
use quipudb.Prelude.{
  ℕ, zero, suc, ◌+◌, ◌-◌, ◌*◌, Bool, true, false, not, ◌&&◌, ◌||◌, Option, none, some, List, [],
  ◌∷◌, ◌++◌, any, length, ltb, ◌==◌, if◌then◌else◌,
}
use quipudb.Prelude.Int.{ℤ, pos, negsuc}
use quipudb.Parser.Span.{Span}
use quipudb.Parser.Chars.{Text, slice, is_digit}
use quipudb.Parser.Errors.{
  ErrorClass, lex_error, unsupported_error, Message, incomplete_number, integer_out_of_range,
  double_out_of_range, unclosed_string, unclosed_comment, unsupported_operator,
  unexpected_character, SqlError,
}
use quipudb.Parser.Tokens.{TokenKind, TokenValue, nothing, text, integer, double, boolean, Token}
use quipudb.Parser.Keywords.{word_kind}
use quipudb.Parser.Cursor.{
  Cursor, start_of, advance_past, advance, peek, peek_next, is_some_of, skip_while, advance_while,
  span_from,
}

-- Python's floating-point numbers, as far as the lexer uses them.
pub record Doubles (F : Type 0) : Type 0 where
  pub of_text : Text → F
  pub is_finite : F → Bool
  pub is_zero : F → Bool

-- One round of the loop of `tokenize`: a skipped stretch, a token, or an exception.
pub data Round (F : Type 0) : Type 0 where
  skipped : Cursor → Round F
  found : Token F → Cursor → Round F
  failed : SqlError → Round F

abbrev digits_value : Text → ℕ → ℕ
digits_value [] n = n
digits_value (c ∷ t) n = digits_value t (n * 10 + (c - 48))

abbrev negate : ℕ → ℤ
negate zero = pos 0
negate (suc n) = negsuc n

-- `int(lexeme)`, which raises ValueError on more than 4300 digits.
unfoldable pub int_of_text : Text → Option ℤ
int_of_text [] = none
int_of_text (c ∷ t) =
    if c == 45
    then if ltb 4300 (length t) then none else some (negate (digits_value t 0))
    else if ltb 4300 (suc (length t))
    then none
    else some (pos (digits_value (c ∷ t) 0))

-- Some digit of the lexeme is not zero.
abbrev has_nonzero : Text → Bool
has_nonzero t = any (λ c. not (c == 45 || c == 46) && not (c == 48)) t

unfoldable pub single_kind : ℕ → Option TokenKind
single_kind c =
    if c == 40
    then some TokenKind.lparen
    else if c == 41
    then some TokenKind.rparen
    else if c == 44
    then some TokenKind.comma
    else if c == 59
    then some TokenKind.semicolon
    else if c == 42
    then some TokenKind.star
    else if c == 46
    then some TokenKind.dot
    else if c == 61
    then some TokenKind.equal
    else none

abbrev pub is_space : ℕ → Bool
is_space c = c == 32 || c == 9 || c == 13 || c == 10

abbrev pub is_line_end : ℕ → Bool
is_line_end c = c == 13 || c == 10

module _ {F : Type 0} (doubles : Doubles F) (is_alpha : ℕ → Bool) (source : Text) where
  abbrev pub fail : ErrorClass → Message → Cursor → Cursor → Round F
  fail class message mark k =
      failed
        (record { class = class; message = message; span = span_from mark k; source = some source })

  abbrev pub token_from : TokenKind → Cursor → Cursor → TokenValue F → Token F
  token_from kind mark k value = record {
    kind = kind;
    lexeme = slice mark.index k.index source;
    value = value;
    span = span_from mark k;
  }

  abbrev pub is_identifier_start : ℕ → Bool
  is_identifier_start c = c == 95 || is_alpha c

  abbrev pub is_identifier_part : ℕ → Bool
  is_identifier_part c = c == 95 || is_alpha c || is_digit c

  -- The value that the token of a word has.
  abbrev pub word_value : TokenKind → Text → TokenValue F
  word_value TokenKind.identifier lexeme = text lexeme
  word_value TokenKind.true lexeme = boolean true
  word_value TokenKind.false lexeme = boolean false
  word_value _ lexeme = nothing

  unfoldable pub scan_word : Cursor → Round F
  unfolding word_kind
  scan_word mark =
      let k = advance_while is_identifier_part (advance mark) in
      let lexeme = slice mark.index k.index source in
      found (token_from (word_kind lexeme) mark k (word_value (word_kind lexeme) lexeme)) k

  unfoldable pub finish_integer : Cursor → Cursor → Round F
  finish_integer mark k = elim (int_of_text (slice mark.index k.index source)) [
    | none ↦ fail lex_error integer_out_of_range mark k
    | some n ↦ found (token_from TokenKind.integer mark k (integer n)) k
  ]

  unfoldable pub finish_double : Cursor → Cursor → Round F
  finish_double mark k =
      let lexeme = slice mark.index k.index source in
      let value = doubles.of_text lexeme in
      if not (doubles.is_finite value) || doubles.is_zero value && has_nonzero lexeme
      then fail lex_error double_out_of_range mark k
      else found (token_from TokenKind.double_literal mark k (double value)) k

  -- The integer part has been read.
  unfoldable pub finish_number : Cursor → Cursor → Round F
  unfolding finish_integer finish_double
  finish_number mark k =
      if is_some_of (λ c. c == 46) (peek k)
      then if is_some_of is_digit (peek_next k)
        then finish_double mark (advance_while is_digit (advance k))
        else fail lex_error incomplete_number mark (advance k)
      else finish_integer mark k

  unfoldable pub scan_number : Cursor → Round F
  unfolding finish_number
  scan_number mark = finish_number mark (
      advance_while is_digit (if is_some_of (λ c. c == 45) (peek mark) then advance mark else mark))

  -- The loop of `_scan_string`, after the quote that opens.
  unfoldable pub scan_characters : Cursor → Text → Cursor → Text → Round F
  scan_characters mark [] k value = fail lex_error unclosed_string mark k
  scan_characters mark (c ∷ []) k value =
      if c == 39
      then found (token_from TokenKind.string mark (advance k) (text value)) (advance k)
      else fail lex_error unclosed_string mark (advance k)
  scan_characters mark (c ∷ d ∷ more) k value = elim (c == 39) [
    | false ↦ scan_characters mark (d ∷ more) (advance k) (value ++ c ∷ [])
    | true ↦ elim (d == 39) [
      | true ↦ scan_characters mark more (advance (advance k)) (value ++ 39 ∷ [])
      | false ↦ found (token_from TokenKind.string mark (advance k) (text value)) (advance k)
    ]
  ]

  unfoldable pub scan_string : Cursor → Round F
  unfolding scan_characters
  scan_string mark = scan_characters mark (advance mark).rest (advance mark) []

  -- The loop of `_skip_block_comment`, after the characters that open.
  unfoldable pub skip_comment : Cursor → Text → Cursor → Round F
  skip_comment mark [] k = fail lex_error unclosed_comment mark k
  skip_comment mark (c ∷ []) k = fail lex_error unclosed_comment mark (advance k)
  skip_comment mark (c ∷ d ∷ more) k = elim (c == 42 && d == 47) [
    | true ↦ skipped (advance (advance k))
    | false ↦ skip_comment mark (d ∷ more) (advance k)
  ]

  unfoldable pub skip_block_comment : Cursor → Round F
  unfolding skip_comment
  skip_block_comment mark = skip_comment mark (advance (advance mark)).rest (advance (advance mark))

  unfoldable pub skip_line_comment : Cursor → Round F
  skip_line_comment mark =
      skipped (advance_while (λ c. not (is_line_end c)) (advance (advance mark)))

  abbrev pub comparison_kind : ℕ → Bool → TokenKind
  comparison_kind c has_equal =
      if c == 60
      then if has_equal then TokenKind.less_than_or_equal else TokenKind.less_than
      else if has_equal
      then TokenKind.greater_than_or_equal
      else TokenKind.greater_than

  unfoldable pub scan_comparison_operator : ℕ → Cursor → Round F
  scan_comparison_operator c mark =
      let k = advance mark in
      let has_equal = is_some_of (λ d. d == 61) (peek k) in
      let after = if has_equal then advance k else k in
      if c == 60 && is_some_of (λ d. d == 62) (peek k)
      then fail unsupported_error unsupported_operator mark (advance k)
      else found (token_from (comparison_kind c has_equal) mark after nothing) after

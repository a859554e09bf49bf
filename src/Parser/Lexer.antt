-- ===== src/Parser/Lexer.antt =====
-- engine/parser/lexer.py: the loop of `tokenize` and the choice that each of its rounds makes.
pub mod Rounds
pub mod Places
pub mod Cuts
pub mod Fragments
pub mod Strings
use quipudb.Prelude.{
  ℕ, zero, suc, ◌+◌, ◌-◌, ◌*◌, Bool, true, false, not, ◌&&◌, ◌||◌, Option, none, some, List, [],
  ◌∷◌, ◌++◌, any, length, ltb, ◌==◌, if◌then◌else◌,
}
use quipudb.Prelude.Int.{ℤ, pos, negsuc}
use quipudb.Parser.Span.{Span}
use quipudb.Parser.Chars.{Text, slice, is_digit}
use quipudb.Parser.Errors.{
  ErrorClass, lex_error, unsupported_error, Message, incomplete_number, integer_out_of_range,
  double_out_of_range, unclosed_string, unclosed_comment, unsupported_operator,
  unexpected_character, SqlError,
}
use quipudb.Parser.Tokens.{TokenKind, TokenValue, nothing, text, integer, double, boolean, Token}
use quipudb.Parser.Keywords.{word_kind}
use quipudb.Parser.Cursor.{
  Cursor, start_of, advance_past, advance, peek, peek_next, is_some_of, skip_while, advance_while,
  span_from,
}
use quipudb.Parser.Scanner.{
  Doubles, Round, skipped, found, failed, is_space, is_line_end, single_kind, fail, token_from,
  is_identifier_start, scan_word, scan_number, scan_string, skip_block_comment, skip_line_comment,
  scan_comparison_operator,
}

pub data Lexed (F : Type 0) : Type 0 where
  tokens : List (Token F) → Lexed F
  rejected : SqlError → Lexed F
  out_of_fuel : Lexed F

module _ {F : Type 0} (doubles : Doubles F) (is_alpha : ℕ → Bool) (source : Text) where
  -- After `-`: a comment, a number or an error.
  unfoldable pub scan_minus : Cursor → Round F
  unfolding skip_line_comment scan_number
  scan_minus k =
      if is_some_of (λ c. c == 45) (peek_next k)
      then skip_line_comment doubles is_alpha source k
      else if is_some_of is_digit (peek_next k)
      then scan_number doubles is_alpha source k
      else fail doubles is_alpha source lex_error (unexpected_character 45) k (advance k)

  -- The last cases of the loop.
  unfoldable pub scan_symbol : ℕ → Cursor → Round F
  unfolding scan_comparison_operator single_kind
  scan_symbol c k = elim (single_kind c) [
    | some kind ↦ found (token_from doubles is_alpha source kind k (advance k) nothing) (advance k)
    | none ↦
        if c == 60 || c == 62
        then scan_comparison_operator doubles is_alpha source c k
        else if c == 33 && is_some_of (λ d. d == 61) (peek_next k)
        then fail doubles is_alpha source unsupported_error unsupported_operator k
            (advance (advance k))
        else fail doubles is_alpha source lex_error (unexpected_character c) k (advance k)
  ]

  -- The body of the loop of `tokenize` at the character `c`.
  unfoldable pub scan_round : ℕ → Cursor → Round F
  unfolding scan_word scan_number scan_minus skip_block_comment scan_string scan_symbol
  scan_round c k =
      if is_space c
      then skipped (advance k)
      else if is_identifier_start doubles is_alpha source c
      then scan_word doubles is_alpha source k
      else if is_digit c
      then scan_number doubles is_alpha source k
      else if c == 45
      then scan_minus k
      else if c == 47 && is_some_of (λ d. d == 42) (peek_next k)
      then skip_block_comment doubles is_alpha source k
      else if c == 39
      then scan_string doubles is_alpha source k
      else scan_symbol c k

  abbrev pub end_token : Cursor → Token F
  end_token k = record { kind = TokenKind.eof; lexeme = []; value = nothing; span = span_from k k }

  abbrev pub prepend : Token F → Lexed F → Lexed F
  prepend t (tokens ts) = tokens (t ∷ ts)
  prepend t other = other

  -- What the loop makes of a round.
  abbrev pub continued : (Cursor → Lexed F) → Round F → Lexed F
  continued loop (skipped next) = loop next
  continued loop (found t next) = prepend t (loop next)
  continued loop (failed e) = rejected e

  unfoldable pub tokenize_from : ℕ → Cursor → Lexed F
  unfolding scan_round
  tokenize_from zero k = out_of_fuel
  tokenize_from (suc fuel) k = elim k.rest [
    | [] ↦ tokens (end_token k ∷ [])
    | c ∷ more ↦ continued (tokenize_from fuel) (scan_round c k)
  ]

  -- `tokenize`: the loop, which reads one character or more in each round.
  unfoldable pub tokenize : Lexed F
  unfolding tokenize_from
  tokenize = tokenize_from (suc (length source)) (start_of source)

-- ===== src/Parser/Tests.antt =====
-- Tokens and errors of short queries.
use quipudb.Prelude.{ℕ, ◌≡◌, refl, Bool, true, false, ◌||◌, some, List, [], ◌∷◌, map}
use quipudb.Parser.Chars.{Text, codes, between, text_eq}
use quipudb.Parser.Errors.{lex_error, unclosed_string, SqlError, source_fragment, split_from}
use quipudb.Parser.Tokens.{TokenKind, TokenValue}
use quipudb.Parser.Keywords.{word_kind}
use quipudb.Parser.Keywords.Case.{word_kind-upper}
use quipudb.Parser.Cursor.{skip_while, start_of, Cursor}
use quipudb.Parser.Scanner.{Doubles, scan_characters, token_from}
use quipudb.Parser.Lexer.{Lexed, tokens, tokenize, end_token}
use quipudb.Parser.Lexer.Cuts.{IsTokenized, tokenize-IsTokenized}
use quipudb.Parser.Lexer.Fragments.{IsPointed, tokenize-IsPointed}
use quipudb.Parser.Lexer.Strings.{literal, tokenize-literal}

-- Texts in place of floating-point numbers, and the letters of ASCII.
abbrev texts : Doubles Text
texts = record { of_text = λ t. t; is_finite = λ t. true; is_zero = λ t. false }

abbrev is_letter : ℕ → Bool
is_letter c = between 65 90 c || between 97 122 c

abbrev kinds : Lexed Text → List TokenKind
kinds (tokens ts) = map (λ t. t.kind) ts
kinds other = []

abbrev query : Text
query = codes "select a -- all\nfrom t where a <= -12.5;"

query_kinds :
    kinds (tokenize texts is_letter query)
    ≡ TokenKind.select ∷ TokenKind.identifier ∷ TokenKind.from ∷ TokenKind.identifier
      ∷ TokenKind.where_word ∷ TokenKind.identifier ∷ TokenKind.less_than_or_equal
      ∷ TokenKind.double_literal ∷ TokenKind.semicolon ∷ TokenKind.eof ∷ []
unfolding tokenize skip_while text_eq
query_kinds = refl

tokenize-IsTokenized_example : IsTokenized query 0 (tokenize texts is_letter query)
tokenize-IsTokenized_example = tokenize-IsTokenized texts is_letter query

abbrev unclosed : Text
unclosed = codes "select\r\n  'abc"

abbrev unclosed_error : SqlError
unclosed_error = record {
  class = lex_error;
  message = unclosed_string;
  span = record { start = 10; end = 14; line = 2; column = 3; end_line = 2; end_column = 7 };
  source = some unclosed;
}

-- The line in full, and four marks below the string that has no end.
unclosed_fragment : source_fragment unclosed_error ≡ some (codes "  'abc", codes "  ^^^^")
unfolding source_fragment split_from
unclosed_fragment = refl

tokenize-IsPointed_example : IsPointed unclosed_error unclosed
unfolding tokenize scan_characters skip_while text_eq
tokenize-IsPointed_example = tokenize-IsPointed texts is_letter unclosed unclosed_error refl

abbrev saying : Text
saying = codes "it's"

tokenize-literal_example :
    (stop : Cursor) × (tokenize texts is_letter (literal saying)
      ≡ tokens (
          token_from texts is_letter
            (literal saying)
            TokenKind.string
            (start_of (literal saying))
            stop
            (TokenValue.text saying)
          ∷ end_token texts is_letter (literal saying) stop
          ∷ []))
    × (stop.rest ≡ [])
tokenize-literal_example = tokenize-literal texts is_letter (literal saying) refl saying refl

word_kind-upper_example : word_kind (codes "Select") ≡ word_kind (codes "sELECT")
word_kind-upper_example = word_kind-upper (codes "Select") (codes "sELECT") refl

-- ===== src/Parser/Reading/Values.antt =====
-- engine/parser/lexer.py: the value of each token is of the type that its kind calls for, and the
-- words of the scores are read back from their lexemes.
use quipudb.Prelude.{
  ℕ, ◌≡◌, refl, ap, Bool, true, false, ◌&&◌, ◌||◌, some, List, [], ◌∷◌, ◌++◌, map, all, String,
  ◌==◌, Bool-cases, Option-cases, inl, inr, if◌then◌else◌, arith,
}
use quipudb.Parser.Chars.{Text, codes, text_eq, upper, all_ascii, slice, is_digit}
use quipudb.Parser.Errors.{SqlError}
use quipudb.Parser.Tokens.{TokenKind, text, Token}
use quipudb.Parser.Kinds.{kind_eq}
use quipudb.Parser.Ast.{ScoreKind}
use quipudb.Parser.Keywords.{word_kind, find_keyword, keywords}
use quipudb.Parser.Cursor.{Cursor, advance, peek, peek_next, is_some_of, advance_while}
use quipudb.Parser.Scanner.{
  Doubles, Round, skipped, found, failed, int_of_text, is_space, single_kind, is_identifier_start,
  scan_word, finish_integer, finish_double, finish_number, scan_number, scan_characters,
  scan_string, skip_comment, skip_block_comment, skip_line_comment, scan_comparison_operator,
  token_from, comparison_kind, word_value, is_identifier_part,
}
use quipudb.Parser.Lexer.{scan_minus, scan_symbol, scan_round}
use quipudb.Parser.Stream.{Letters, upper_text}
use quipudb.Parser.Grammar.Queries.{score_kind}
use quipudb.Parser.Reading.Good.{HasValue}

text_eq→eq : (w v : Text) → text_eq w v ≡ true → w ≡ v
unfolding text_eq
text_eq→eq [] [] h = refl
text_eq→eq [] (y ∷ v) h = absurd (cc)
text_eq→eq (x ∷ w) [] h = absurd (cc)
text_eq→eq (x ∷ w) (y ∷ v) h = ground (arith, text_eq→eq w v)

-- The kinds that a reserved word may have, with the words of the scores.
word_fits : TokenKind → Text → Bool
word_fits TokenKind.eof w = false
word_fits TokenKind.string w = false
word_fits TokenKind.integer w = false
word_fits TokenKind.double_literal w = false
word_fits TokenKind.score w = text_eq w (codes "SCORE")
word_fits TokenKind.similarity_score w = text_eq w (codes "SIMILARITY_SCORE")
word_fits other w = true

keywords_fit : all (λ (name, kind). word_fits kind (codes name)) keywords ≡ true
unfolding word_fits keywords text_eq
keywords_fit = refl

find_keyword-fits :
    (w : Text) (ks : List (String × TokenKind))
    → all (λ (name, kind). word_fits kind (codes name)) ks ≡ true
    → word_fits (find_keyword w ks) w ≡ true
unfolding find_keyword
find_keyword-fits w [] h = unfold word_fits in refl
find_keyword-fits w ((name, kind) ∷ ks) h = elim (Bool-cases (text_eq w (codes name))) [
  | inl e ↦ rw (e, find_keyword) (rw (text_eq→eq w (codes name) e) (ground arith))
  | inr e ↦ rw (e, find_keyword) (find_keyword-fits w ks (ground arith))
]

word_kind-fits : (w : Text) → all_ascii w ≡ true → word_fits (word_kind w) (map upper w) ≡ true
unfolding word_kind
word_kind-fits w a = rw (a, word_kind) (find_keyword-fits (map upper w) keywords keywords_fit)

upper_text-fits :
    (letters : Letters) (name w : Text)
    → all_ascii w ≡ true
    → text_eq (map upper w) name ≡ true
    → upper_text letters w ≡ name
upper_text-fits letters name w a h = rw a (text_eq→eq (map upper w) name h)

-- The parser can read what a token has.
abbrev pub Readable : {F : Type 0} → Letters → Token F → Type 0
Readable letters t = (kind_eq t.kind TokenKind.eof ≡ false) × HasValue letters t.kind t

word-HasValue :
    {F : Type 0} (letters : Letters) (kind : TokenKind) (t : Token F)
    → all_ascii t.lexeme ≡ true
    → word_fits kind (map upper t.lexeme) ≡ true
    → (kind ≡ TokenKind.identifier → t.value ≡ text t.lexeme)
    → (kind_eq kind TokenKind.eof ≡ false) × HasValue letters kind t
unfolding word_fits kind_eq score_kind
word-HasValue letters TokenKind.identifier t a h v = (refl, (t.lexeme, v refl))
word-HasValue letters TokenKind.eof t a h v = absurd (cc)
word-HasValue letters TokenKind.string t a h v = absurd (cc)
word-HasValue letters TokenKind.integer t a h v = absurd (cc)
word-HasValue letters TokenKind.double_literal t a h v = absurd (cc)
word-HasValue letters TokenKind.score t a h v =
    (refl, (ScoreKind.text, ap score_kind (upper_text-fits letters (codes "SCORE") t.lexeme a h)))
word-HasValue letters TokenKind.similarity_score t a h v = (
  refl,
  (
    ScoreKind.similarity,
    ap score_kind (upper_text-fits letters (codes "SIMILARITY_SCORE") t.lexeme a h),
  ),
)
word-HasValue letters kind t a h v = (refl, tt)

other_word : (w : Text) → all_ascii w ≡ false → word_kind w ≡ TokenKind.identifier
unfolding word_kind
other_word w a = rw a refl

-- The kinds of punctuation and of the comparisons, whose tokens have no value.
abbrev is_plain : TokenKind → Bool
is_plain TokenKind.lparen = true
is_plain TokenKind.rparen = true
is_plain TokenKind.comma = true
is_plain TokenKind.semicolon = true
is_plain TokenKind.star = true
is_plain TokenKind.dot = true
is_plain TokenKind.equal = true
is_plain TokenKind.less_than = true
is_plain TokenKind.less_than_or_equal = true
is_plain TokenKind.greater_than = true
is_plain TokenKind.greater_than_or_equal = true
is_plain other = false

plain-HasValue :
    {F : Type 0} (letters : Letters) (kind : TokenKind) (t : Token F)
    → is_plain kind ≡ true
    → (kind_eq kind TokenKind.eof ≡ false) × HasValue letters kind t
unfolding kind_eq
plain-HasValue letters TokenKind.lparen t h = (refl, tt)
plain-HasValue letters TokenKind.rparen t h = (refl, tt)
plain-HasValue letters TokenKind.comma t h = (refl, tt)
plain-HasValue letters TokenKind.semicolon t h = (refl, tt)
plain-HasValue letters TokenKind.star t h = (refl, tt)
plain-HasValue letters TokenKind.dot t h = (refl, tt)
plain-HasValue letters TokenKind.equal t h = (refl, tt)
plain-HasValue letters TokenKind.less_than t h = (refl, tt)
plain-HasValue letters TokenKind.less_than_or_equal t h = (refl, tt)
plain-HasValue letters TokenKind.greater_than t h = (refl, tt)
plain-HasValue letters TokenKind.greater_than_or_equal t h = (refl, tt)
plain-HasValue letters kind t h = absurd (cc)

single_kind-plain : (c : ℕ) (kind : TokenKind) → single_kind c ≡ some kind → is_plain kind ≡ true
unfolding single_kind
single_kind-plain c kind e = ground arith

-- What a round of the lexer gives, if it gives a token, the parser can read.
pub data Valued {F : Type 0} (letters : Letters) : Round F → Type 0 where
  no_token : {m : Cursor} → Valued letters (skipped m)
  no_round : {e : SqlError} → Valued letters (failed e)
  token : {t : Token F} {m : Cursor} → Readable letters t → Valued letters (found t m)

module _ {F : Type 0} {letters : Letters} where
  Valued-if :
      (b : Bool) (x y : Round F)
      → Valued letters x
      → Valued letters y
      → Valued letters (if b then x else y)
  Valued-if true x y hx hy = hx
  Valued-if false x y hx hy = hy

module _ {F : Type 0} (letters : Letters) (doubles : Doubles F) (is_alpha : ℕ → Bool)
    (source : Text) where
  scan_word-Valued : (k : Cursor) → Valued letters (scan_word doubles is_alpha source k)
  unfolding scan_word kind_eq
  scan_word-Valued k =
      let m = advance_while (is_identifier_part doubles is_alpha source) (advance k) in
      let w = slice k.index m.index source in
      let t =
        token_from doubles is_alpha source (word_kind w) k m
          (word_value doubles is_alpha source (word_kind w) w) in
      elim (Bool-cases (all_ascii w)) [
        | inl a ↦ token (
            word-HasValue letters (word_kind w) t a (word_kind-fits w a)
              (ap (λ kind. word_value doubles is_alpha source kind w)))
        | inr a ↦ token (rw (other_word w a) (refl, (w, refl)))
      ]

  finish_integer-Valued :
      (k m : Cursor) → Valued letters (finish_integer doubles is_alpha source k m)
  unfolding finish_integer kind_eq
  finish_integer-Valued k m = elim (Option-cases (int_of_text (slice k.index m.index source))) [
    | inl e ↦ rw (e, finish_integer) no_round
    | inr (n, e) ↦ rw (e, finish_integer) (token (refl, (n, refl)))
  ]

  finish_double-Valued : (k m : Cursor) → Valued letters (finish_double doubles is_alpha source k m)
  unfolding finish_double kind_eq
  finish_double-Valued k m =
      Valued-if _ _ _ no_round
        (token (refl, (doubles.of_text (slice k.index m.index source), refl)))

  finish_number-Valued : (k m : Cursor) → Valued letters (finish_number doubles is_alpha source k m)
  unfolding finish_number
  finish_number-Valued k m =
      Valued-if (is_some_of (λ c. c == 46) (peek m)) _ _
        (Valued-if (is_some_of is_digit (peek_next m)) _ _ (finish_double-Valued k _) no_round)
        (finish_integer-Valued k m)

  scan_number-Valued : (k : Cursor) → Valued letters (scan_number doubles is_alpha source k)
  unfolding scan_number
  scan_number-Valued k =
      finish_number-Valued k
        (advance_while is_digit (if is_some_of (λ c. c == 45) (peek k) then advance k else k))

  scan_characters-Valued :
      (k : Cursor) (t : Text) (m : Cursor) (value : Text)
      → Valued letters (scan_characters doubles is_alpha source k t m value)
  unfolding scan_characters kind_eq
  scan_characters-Valued k [] m value = no_round
  scan_characters-Valued k (c ∷ []) m value =
      Valued-if (c == 39) _ _ (token (refl, (value, refl))) no_round
  scan_characters-Valued k (c ∷ d ∷ more) m value = elim (Bool-cases (c == 39)) [
    | inl h ↦ elim (Bool-cases (d == 39)) [
      | inl e ↦
          rw (h, e, scan_characters)
            (scan_characters-Valued k more (advance (advance m)) (value ++ 39 ∷ []))
      | inr e ↦ rw (h, e, scan_characters) (token (refl, (value, refl)))
    ]
    | inr h ↦
        rw (h, scan_characters) (scan_characters-Valued k (d ∷ more) (advance m) (value ++ c ∷ []))
  ]

  skip_comment-Valued :
      (k : Cursor) (t : Text) (m : Cursor)
      → Valued letters (skip_comment doubles is_alpha source k t m)
  unfolding skip_comment
  skip_comment-Valued k [] m = no_round
  skip_comment-Valued k (c ∷ []) m = no_round
  skip_comment-Valued k (c ∷ d ∷ more) m = elim (Bool-cases (c == 42 && d == 47)) [
    | inl h ↦ rw (h, skip_comment) no_token
    | inr h ↦ rw (h, skip_comment) (skip_comment-Valued k (d ∷ more) (advance m))
  ]

  scan_minus-Valued : (k : Cursor) → Valued letters (scan_minus doubles is_alpha source k)
  unfolding scan_minus skip_line_comment
  scan_minus-Valued k =
      Valued-if (is_some_of (λ c. c == 45) (peek_next k)) _ _ no_token
        (Valued-if (is_some_of is_digit (peek_next k)) _ _ (scan_number-Valued k) no_round)

  comparison_kind-plain :
      (c : ℕ) (equal : Bool) → is_plain (comparison_kind doubles is_alpha source c equal) ≡ true
  comparison_kind-plain c equal = ground arith

  comparison-Valued :
      (c : ℕ) (k : Cursor) → Valued letters (scan_comparison_operator doubles is_alpha source c k)
  unfolding scan_comparison_operator
  comparison-Valued c k = Valued-if _ _ _ no_round (
      token (
        plain-HasValue letters _ _
          (comparison_kind-plain c (is_some_of (λ d. d == 61) (peek (advance k))))))

  scan_symbol-Valued :
      (c : ℕ) (k : Cursor) → Valued letters (scan_symbol doubles is_alpha source c k)
  unfolding scan_symbol
  scan_symbol-Valued c k = elim (Option-cases (single_kind c)) [
    | inl e ↦
        rw (e, scan_symbol)
          (Valued-if (c == 60 || c == 62) _ _ (comparison-Valued c k)
            (Valued-if (c == 33 && is_some_of (λ d. d == 61) (peek_next k)) _ _ no_round no_round))
    | inr (kind, e) ↦
        rw (e, scan_symbol) (token (plain-HasValue letters kind _ (single_kind-plain c kind e)))
  ]

  scan_string-Valued : (k : Cursor) → Valued letters (scan_string doubles is_alpha source k)
  unfolding scan_string
  scan_string-Valued k = scan_characters-Valued k (advance k).rest (advance k) []

  skip_block_comment-Valued :
      (k : Cursor) → Valued letters (skip_block_comment doubles is_alpha source k)
  unfolding skip_block_comment
  skip_block_comment-Valued k =
      skip_comment-Valued k (advance (advance k)).rest (advance (advance k))

  pub scan_round-Valued :
      (c : ℕ) (k : Cursor) → Valued letters (scan_round doubles is_alpha source c k)
  unfolding scan_round
  scan_round-Valued c k = Valued-if (is_space c) _ _ no_token (
      Valued-if (is_identifier_start doubles is_alpha source c) _ _ (scan_word-Valued k) (
        Valued-if (is_digit c) _ _ (scan_number-Valued k) (
          Valued-if (c == 45) _ _ (scan_minus-Valued k) (
            Valued-if (c == 47 && is_some_of (λ d. d == 42) (peek_next k)) _ _
              (skip_block_comment-Valued k)
              (Valued-if (c == 39) _ _ (scan_string-Valued k) (scan_symbol-Valued c k))))))

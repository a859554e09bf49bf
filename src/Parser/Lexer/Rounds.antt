-- ===== src/Parser/Lexer/Rounds.antt =====
-- Each round of the loop of `tokenize` reads at least one character.
use mathlib.Core.Path.{subst}
use quipudb.Prelude.{
  ℕ, ◌≡◌, refl, sym, ap, ◌∙◌, Bool, true, false, Option, none, some, ◌∷◌, ◌==◌, ◌&&◌, ◌||◌, arith,
  Bool-cases, inl, inr,
}
use quipudb.Parser.Chars.{Text, is_digit}
use quipudb.Parser.Tokens.{TokenKind}
use quipudb.Parser.Cursor.{Cursor, advance, peek, peek_next, is_some_of, skip_while, advance_while}
use quipudb.Parser.Cursor.Reading.{rest-advance, skip_while-Reads}
use quipudb.Parser.Scanner.{Doubles, is_space, is_identifier_start, single_kind, scan_number}
use quipudb.Parser.Scanner.Progress.{
  Progress, Progress-Onward, advance-Progress, advance_while-Progress, peeked-Progress, Spans,
  scan_word-Spans, finish_number-Spans, scan_string-Spans, skip_block_comment-Spans,
  skip_line_comment-Spans, scan_comparison_operator-Spans,
}
use quipudb.Parser.Lexer.{scan_minus, scan_symbol, scan_round}

skip_while-accepted :
    (p : ℕ → Bool) (k : Cursor) (c : ℕ) (more : Text)
    → k.rest ≡ c ∷ more
    → p c ≡ true
    → advance_while p k ≡ skip_while p more (advance k)
unfolding skip_while
skip_while-accepted p k c more e h = rw (e, h, skip_while) refl

-- A loop whose test the first character passes.
accepted-Progress :
    (p : ℕ → Bool) (k : Cursor) (c : ℕ) (more : Text)
    → k.rest ≡ c ∷ more
    → p c ≡ true
    → Progress k (advance_while p k)
accepted-Progress p k c more e h = subst (Progress k) (sym (skip_while-accepted p k c more e h)) (
    Progress-Onward k (advance k) (skip_while p more (advance k)) (peeked-Progress k c more e)
      (skip_while-Reads p more (advance k) (rest-advance k c more e)))

starts_minus :
    (k : Cursor) (c : ℕ) (more : Text)
    → k.rest ≡ c ∷ more
    → is_some_of (λ d. d == 45) (peek k) ≡ c == 45
starts_minus k c more e = rw e refl

module _ {F : Type 0} (doubles : Doubles F) (is_alpha : ℕ → Bool) (source : Text) where
  scan_number-Spans :
      (k : Cursor) (c : ℕ) (more : Text)
      → k.rest ≡ c ∷ more
      → is_digit c ≡ true
      → Spans doubles is_alpha source k (scan_number doubles is_alpha source k)
  unfolding scan_number
  scan_number-Spans k c more e h = rw (starts_minus k c more e ∙ not_minus) (
      finish_number-Spans doubles is_alpha source k (advance_while is_digit k)
        (accepted-Progress is_digit k c more e h))
    where
      not_minus : c == 45 ≡ false
      not_minus = ground arith

  negative-Spans :
      (k : Cursor) (more : Text)
      → k.rest ≡ 45 ∷ more
      → Spans doubles is_alpha source k (scan_number doubles is_alpha source k)
  unfolding scan_number
  negative-Spans k more e = rw (starts_minus k 45 more e) (
      finish_number-Spans doubles is_alpha source k (advance_while is_digit (advance k))
        (advance_while-Progress k (advance k) is_digit (peeked-Progress k 45 more e)))

  scan_minus-Spans :
      (k : Cursor) (more : Text)
      → k.rest ≡ 45 ∷ more
      → Spans doubles is_alpha source k (scan_minus doubles is_alpha source k)
  unfolding scan_minus
  scan_minus-Spans k more e = elim (Bool-cases (is_some_of (λ c. c == 45) (peek_next k))) [
    | inl h ↦ rw h (skip_line_comment-Spans doubles is_alpha source k (peeked-Progress k 45 more e))
    | inr h ↦ elim (Bool-cases (is_some_of is_digit (peek_next k))) [
      | inl g ↦ rw (h, g) (negative-Spans k more e)
      | inr g ↦ rw (h, g) (advance k, peeked-Progress k 45 more e, refl, refl)
    ]
  ]

  scan_symbol-Spans :
      (c : ℕ) (k : Cursor)
      → Progress k (advance k)
      → Spans doubles is_alpha source k (scan_symbol doubles is_alpha source c k)
  unfolding scan_symbol
  scan_symbol-Spans c k p = go (single_kind c) refl
    where
      go :
          (r : Option TokenKind)
          → single_kind c ≡ r
          → Spans doubles is_alpha source k (scan_symbol doubles is_alpha source c k)
      go (some kind) e = rw (e, scan_symbol) (p, refl, refl)
      go none e = elim (Bool-cases (c == 60 || c == 62)) [
        | inl h ↦
            rw (e, h, scan_symbol) (scan_comparison_operator-Spans doubles is_alpha source c k p)
        | inr h ↦ elim (Bool-cases (c == 33 && is_some_of (λ d. d == 61) (peek_next k))) [
          | inl g ↦
              rw (e, h, g, scan_symbol)
                (advance (advance k), advance-Progress k (advance k) p, refl, refl)
          | inr g ↦ rw (e, h, g, scan_symbol) (advance k, p, refl, refl)
        ]
      ]

  pub scan_round-Spans :
      (c : ℕ) (k : Cursor) (more : Text)
      → k.rest ≡ c ∷ more
      → Spans doubles is_alpha source k (scan_round doubles is_alpha source c k)
  unfolding scan_round
  scan_round-Spans c k more e = elim (Bool-cases (is_space c)) [
    | inl h ↦ rw h first
    | inr h1 ↦ elim (Bool-cases (is_identifier_start doubles is_alpha source c)) [
      | inl h ↦ rw (h1, h) (scan_word-Spans doubles is_alpha source k first)
      | inr h2 ↦ elim (Bool-cases (is_digit c)) [
        | inl h ↦ rw (h1, h2, h) (scan_number-Spans k c more e h)
        | inr h3 ↦ elim (Bool-cases (c == 45)) [
          | inl h ↦
              rw (h1, h2, h3, h)
                (scan_minus-Spans k more (e ∙ ap (λ d. d ∷ more) (ground (arith, h))))
          | inr h4 ↦ elim (Bool-cases (c == 47 && is_some_of (λ d. d == 42) (peek_next k))) [
            | inl h ↦
                rw (h1, h2, h3, h4, h) (skip_block_comment-Spans doubles is_alpha source k first)
            | inr h5 ↦ elim (Bool-cases (c == 39)) [
              | inl h ↦
                  rw (h1, h2, h3, h4, h5, h) (scan_string-Spans doubles is_alpha source k first)
              | inr h6 ↦ rw (h1, h2, h3, h4, h5, h6) (scan_symbol-Spans c k first)
            ]
          ]
        ]
      ]
    ]
  ]
    where
      first : Progress k (advance k)
      first = peeked-Progress k c more e

-- ===== src/Parser/Scanner/Progress.antt =====
-- Every scanner reads at least one character, and the token or the error that it gives spans what
-- it has read.
use mathlib.Core.Path.{subst}
use quipudb.Prelude.{
  ℕ, ◌≡◌, sym, refl, Bool, true, false, not, Option, none, some, [], ◌∷◌, ◌++◌, ◌==◌, ◌&&◌, ◌||◌,
  Bool-cases, inl, inr, if◌then◌else◌,
}
use quipudb.Prelude.Int.{ℤ}
use quipudb.Parser.Chars.{Text, slice, is_digit}
use quipudb.Parser.Cursor.{Cursor, advance, peek, peek_next, is_some_of, advance_while, span_from}
use quipudb.Parser.Cursor.Reading.{Reads, stays, Reads-trans, advance-Reads, skip_while-Reads}
use quipudb.Parser.Scanner.{
  Doubles, Round, skipped, found, failed, int_of_text, has_nonzero, is_line_end, is_identifier_part,
  scan_word, finish_integer, finish_double, finish_number, scan_characters, scan_string,
  skip_comment, skip_block_comment, skip_line_comment, scan_comparison_operator,
}

-- From the first cursor to the second some text is read, or some that is not empty.
abbrev pub Onward : Cursor → Cursor → Type 0
Onward k m = (t : Text) × Reads t k m

abbrev pub Progress : Cursor → Cursor → Type 0
Progress k m = (c : ℕ) × (t : Text) × Reads (c ∷ t) k m

pub Progress-Onward : (j k m : Cursor) → Progress j k → Onward k m → Progress j m
Progress-Onward j k m (c, t, p) (u, q) = (c, t ++ u, Reads-trans (c ∷ t) u j k m p q)

advance_end : (k : Cursor) → k.rest ≡ [] → advance k ≡ k
unfolding advance
advance_end k e = rw e refl

advance-Onward : (k : Cursor) (t : Text) → k.rest ≡ t → Onward k (advance k)
advance-Onward k [] e = ([], subst (λ m. Reads [] k m) (sym (advance_end k e)) (stays k))
advance-Onward k (c ∷ more) e = (c ∷ [], advance-Reads k c more e)

pub advance-Progress : (j k : Cursor) → Progress j k → Progress j (advance k)
advance-Progress j k p = Progress-Onward j k (advance k) p (advance-Onward k k.rest refl)

pub advance_while-Progress :
    (j k : Cursor) (p : ℕ → Bool) → Progress j k → Progress j (advance_while p k)
advance_while-Progress j k p h = Progress-Onward j k _ h (skip_while-Reads p k.rest k refl)

pub peeked-Progress :
    (k : Cursor) (c : ℕ) (more : Text) → k.rest ≡ c ∷ more → Progress k (advance k)
peeked-Progress k c more e = (c, [], advance-Reads k c more e)

module _ {F : Type 0} (doubles : Doubles F) (is_alpha : ℕ → Bool) (source : Text) where
  -- A round at a cursor: what it gives spans what is read.
  abbrev pub Spans : Cursor → Round F → Type 0
  Spans k (skipped m) = Progress k m
  Spans k (found t m) =
      Progress k m × (t.span ≡ span_from k m) × (t.lexeme ≡ slice k.index m.index source)
  Spans k (failed e) =
      (m : Cursor) × Progress k m × (e.span ≡ span_from k m) × (e.source ≡ some source)

  pub scan_word-Spans :
      (k : Cursor) → Progress k (advance k) → Spans k (scan_word doubles is_alpha source k)
  unfolding scan_word
  scan_word-Spans k p = (
    advance_while-Progress k (advance k) (is_identifier_part doubles is_alpha source) p,
    refl,
    refl,
  )

  finish_integer-Spans :
      (k m : Cursor) → Progress k m → Spans k (finish_integer doubles is_alpha source k m)
  unfolding finish_integer
  finish_integer-Spans k m p = go (int_of_text (slice k.index m.index source)) refl
    where
      go :
          (n : Option ℤ)
          → int_of_text (slice k.index m.index source) ≡ n
          → Spans k (finish_integer doubles is_alpha source k m)
      go none e = rw (e, finish_integer) (m, p, refl, refl)
      go (some n) e = rw (e, finish_integer) (p, refl, refl)

  finish_double-Spans :
      (k m : Cursor) → Progress k m → Spans k (finish_double doubles is_alpha source k m)
  unfolding finish_double
  finish_double-Spans k m p =
      let lexeme = slice k.index m.index source in
      elim (Bool-cases (
        not (doubles.is_finite (doubles.of_text lexeme))
        || doubles.is_zero (doubles.of_text lexeme) && has_nonzero lexeme)) [
          | inl h ↦ rw h (m, p, refl, refl)
          | inr h ↦ rw h (p, refl, refl)
        ]

  pub finish_number-Spans :
      (k m : Cursor) → Progress k m → Spans k (finish_number doubles is_alpha source k m)
  unfolding finish_number
  finish_number-Spans k m p = elim (Bool-cases (is_some_of (λ c. c == 46) (peek m))) [
    | inl h ↦ elim (Bool-cases (is_some_of is_digit (peek_next m))) [
      | inl e ↦
          rw (h, e)
            (finish_double-Spans k _
              (advance_while-Progress k (advance m) is_digit (advance-Progress k m p)))
      | inr e ↦ rw (h, e) (advance m, advance-Progress k m p, refl, refl)
    ]
    | inr h ↦ rw h (finish_integer-Spans k m p)
  ]

  scan_characters-Spans :
      (k : Cursor) (t : Text) (m : Cursor) (value : Text)
      → Progress k m
      → Spans k (scan_characters doubles is_alpha source k t m value)
  unfolding scan_characters
  scan_characters-Spans k [] m value p = (m, p, refl, refl)
  scan_characters-Spans k (c ∷ []) m value p = elim (Bool-cases (c == 39)) [
    | inl h ↦ rw h (advance-Progress k m p, refl, refl)
    | inr h ↦ rw h (advance m, advance-Progress k m p, refl, refl)
  ]
  scan_characters-Spans k (c ∷ d ∷ more) m value p = elim (Bool-cases (c == 39)) [
    | inl h ↦ elim (Bool-cases (d == 39)) [
      | inl e ↦
          rw (h, e, scan_characters)
            (scan_characters-Spans k more (advance (advance m)) (value ++ 39 ∷ [])
              (advance-Progress k (advance m) (advance-Progress k m p)))
      | inr e ↦ rw (h, e, scan_characters) (advance-Progress k m p, refl, refl)
    ]
    | inr h ↦
        rw (h, scan_characters)
          (scan_characters-Spans k (d ∷ more) (advance m) (value ++ c ∷ [])
            (advance-Progress k m p))
  ]

  skip_comment-Spans :
      (k : Cursor) (t : Text) (m : Cursor)
      → Progress k m
      → Spans k (skip_comment doubles is_alpha source k t m)
  unfolding skip_comment
  skip_comment-Spans k [] m p = (m, p, refl, refl)
  skip_comment-Spans k (c ∷ []) m p = (advance m, advance-Progress k m p, refl, refl)
  skip_comment-Spans k (c ∷ d ∷ more) m p = elim (Bool-cases (c == 42 && d == 47)) [
    | inl h ↦ rw (h, skip_comment) (advance-Progress k (advance m) (advance-Progress k m p))
    | inr h ↦
        rw (h, skip_comment) (skip_comment-Spans k (d ∷ more) (advance m) (advance-Progress k m p))
  ]

  pub scan_string-Spans :
      (k : Cursor) → Progress k (advance k) → Spans k (scan_string doubles is_alpha source k)
  unfolding scan_string
  scan_string-Spans k p = scan_characters-Spans k (advance k).rest (advance k) [] p

  pub skip_block_comment-Spans :
      (k : Cursor) → Progress k (advance k) → Spans k (skip_block_comment doubles is_alpha source k)
  unfolding skip_block_comment
  skip_block_comment-Spans k p =
      skip_comment-Spans k (advance (advance k)).rest (advance (advance k)) (advance-Progress k _ p)

  pub skip_line_comment-Spans :
      (k : Cursor) → Progress k (advance k) → Spans k (skip_line_comment doubles is_alpha source k)
  unfolding skip_line_comment
  skip_line_comment-Spans k p =
      advance_while-Progress k (advance (advance k)) (λ c. not (is_line_end c))
        (advance-Progress k _ p)

  pub scan_comparison_operator-Spans :
      (c : ℕ) (k : Cursor)
      → Progress k (advance k)
      → Spans k (scan_comparison_operator doubles is_alpha source c k)
  unfolding scan_comparison_operator
  scan_comparison_operator-Spans c k p =
      elim (Bool-cases (c == 60 && is_some_of (λ d. d == 62) (peek (advance k)))) [
        | inl h ↦ rw h (advance (advance k), advance-Progress k (advance k) p, refl, refl)
        | inr h ↦ rw h (after (is_some_of (λ d. d == 61) (peek (advance k))), refl, refl)
      ]
    where
      after : (b : Bool) → Progress k (if b then advance (advance k) else advance k)
      after true = advance-Progress k (advance k) p
      after false = p

-- ===== src/Parser/Lexer/Places.antt =====
-- The places of the source, and the spans between two of them.
use mathlib.Core.Path.{subst}
use quipudb.Prelude.{
  ℕ, zero, suc, ◌≤◌, ◌<◌, ◌≡◌, refl, sym, ap, ◌∙◌, Bool, true, false, some, List, [], ◌∷◌, ◌++◌,
  length, length-append, get_elem?, ◌==◌, arith, Bool-cases, inl, inr,
}
use quipudb.Parser.Span.{Span, is_span}
use quipudb.Parser.Chars.{Text}
use quipudb.Parser.Errors.{split_from, split_lines}
use quipudb.Parser.Cursor.Reading.{last, column_after}

abbrev pieces : Text × List Text → List Text
pieces (p, ps) = p ∷ ps

abbrev pub last_piece : Text × List Text → Text
last_piece (p, ps) = last p ps

-- The last piece of a prefix begins the piece of the whole text that stands at its number.
abbrev Begins : Text × List Text → Text × List Text → Type 0
Begins s whole = (w : Text) × (get_elem? (pieces whole) (length s.1) ≡ some (last_piece s ++ w))

cons-Begins :
    (c : ℕ) (s whole : Text × List Text)
    → Begins s whole
    → Begins (c ∷ s.0, s.1) (c ∷ whole.0, whole.1)
cons-Begins c (p, []) whole (w, e) = (w, ap (λ o. some (c ∷ o)) (cc))
cons-Begins c (p, q ∷ qs) whole (w, e) = (w, e)

pub split_from-Begins :
    (after_cr : Bool) (t u : Text) → Begins (split_from after_cr t) (split_from after_cr (t ++ u))
unfolding split_from
split_from-Begins b [] u = ((split_from b u).0, refl)
split_from-Begins b (c ∷ t) u = elim (Bool-cases (c == 13)) [
  | inl h ↦ rw h (split_from-Begins true t u)
  | inr h ↦ elim (Bool-cases (c == 10)) [
    | inl g ↦ elim (Bool-cases b) [
      | inl f ↦ rw (h, g, f) (split_from-Begins false t u)
      | inr f ↦ rw (h, g, f) (split_from-Begins false t u)
    ]
    | inr g ↦
        rw (h, g)
          (cons-Begins c (split_from false t) (split_from false (t ++ u))
            (split_from-Begins false t u))
  ]
]

pub get_elem?-bound :
    (i : ℕ) (ls : List Text) (line : Text) → get_elem? ls i ≡ some line → i < length ls
get_elem?-bound i [] line e = absurd (cc)
get_elem?-bound zero (l ∷ ls) line e = omega arith
get_elem?-bound (suc i) (l ∷ ls) line e = omega (arith, get_elem?-bound i ls line e)

pub column_after-last_piece :
    (s : Text × List Text) → column_after 1 s ≡ suc (length (last_piece s))
column_after-last_piece (p, []) = omega arith
column_after-last_piece (p, q ∷ qs) = refl

-- The offset, the line and the column of one place of the source, by the lines that `errors.py`
-- splits off: the last of the lines up to the place ends there.
pub record IsPlace (source : Text) (offset line column : ℕ) : Type 0 where
  pub before : Text
  pub after : Text
  pub splits : source ≡ before ++ after
  pub offset_is : offset ≡ length before
  pub line_is : line ≡ length (split_lines before)
  pub column_is : column ≡ column_after 1 (split_from false before)

-- A span of the source, with the checks of its `__post_init__`.
pub record IsSpanOf (source : Text) (s : Span) : Type 0 where
  pub from : IsPlace source s.start s.line s.column
  pub upto : IsPlace source s.end s.end_line s.end_column
  pub ordered : s.start ≤ s.end
  pub checked : is_span s ≡ true

-- Of two beginnings of one text the shorter begins the longer.
beginning : (a b v w : Text) → a ++ v ≡ b ++ w → length a ≤ length b → (u : Text) × (b ≡ a ++ u)
beginning [] b v w e le = (b, refl)
beginning (x ∷ a) [] v w e le = absurd (omega (arith, le))
beginning (x ∷ a) (y ∷ b) v w e le =
    let (u, h) = beginning a b v w (cc) (omega (arith, le)) in (u, cc)

-- A piece of the whole text stands at the number of the prefix's last piece, so it has no more
-- lines; with as many lines, its last piece is no longer.
last_of-Begins :
    (p : Text) (ps : List Text) (s : Text) → get_elem? (p ∷ ps) (length ps) ≡ some s → last p ps ≡ s
last_of-Begins p [] s e = cc
last_of-Begins p (q ∷ qs) s e = last_of-Begins q qs s e

Begins-order :
    (s whole : Text × List Text)
    → Begins s whole
    → (length s.1 ≤ length whole.1)
      × (length s.1 ≡ length whole.1 → column_after 1 s ≤ column_after 1 whole)
Begins-order s whole (w, e) = (
  omega (arith, get_elem?-bound (length s.1) (pieces whole) (last_piece s ++ w) e),
  λ same. omega (
    arith,
    column_after-last_piece s,
    column_after-last_piece whole,
    ap length (
        last_of-Begins whole.0 whole.1 (last_piece s ++ w)
          (subst (λ n. get_elem? (pieces whole) n ≡ some (last_piece s ++ w)) same e)),
    length-append (last_piece s) w,
  ),
)

ordered-is_span :
    (s : Span)
    → s.start ≤ s.end
    → 0 < s.line
    → 0 < s.column
    → 0 < s.end_column
    → s.line ≤ s.end_line
    → (s.line ≡ s.end_line → s.column ≤ s.end_column)
    → is_span s ≡ true
unfolding is_span
ordered-is_span s ends line column end_column lines columns = ground arith

-- Two places in order make a span that passes the checks.
pub places-IsSpanOf :
    (source : Text) (s : Span)
    → IsPlace source s.start s.line s.column
    → IsPlace source s.end s.end_line s.end_column
    → s.start ≤ s.end
    → IsSpanOf source s
unfolding split_lines
places-IsSpanOf source s p q le =
    let (u, e) =
      beginning p.before q.before p.after q.after (sym p.splits ∙ q.splits)
        (omega (arith, p.offset_is, q.offset_is)) in
    let (lines, columns) =
      Begins-order (split_from false p.before) (split_from false (p.before ++ u))
        (split_from-Begins false p.before u) in
    let ends = ap (λ t. length (split_from false t).1) e in
    record {
      from = p;
      upto = q;
      ordered = le;
      checked =
          ordered-is_span s le (omega (arith, p.line_is))
            (omega (arith, p.column_is, column_after-last_piece (split_from false p.before)))
            (omega (arith, q.column_is, column_after-last_piece (split_from false q.before)))
            (omega (arith, p.line_is, q.line_is, lines, ends))
            (λ h. omega (
              arith,
              p.column_is,
              q.column_is,
              ap (λ t. column_after 1 (split_from false t)) e,
              columns (omega (arith, h, p.line_is, q.line_is, ends)),
            ));
    }

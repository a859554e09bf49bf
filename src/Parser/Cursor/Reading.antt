-- ===== src/Parser/Cursor/Reading.antt =====
-- What a cursor has read: the text between two cursors, and the lines and columns it counts.
use mathlib.Core.Path.{subst, ap₂}
use quipudb.Prelude.{
  ℕ, suc, ◌+◌, ◌≡◌, refl, sym, ap, ◌∙◌, Bool, true, false, List, [], ◌∷◌, ◌++◌, length, ◌==◌, arith,
  if◌then◌else◌, Bool-cases, inl, inr,
}
use quipudb.Parser.Chars.{Text}
use quipudb.Parser.Errors.{split_from}
use quipudb.Parser.Cursor.{Cursor, is_return, advance_past, advance, skip_while}

-- The text that stands between two cursors.
pub data Reads : Text → Cursor → Cursor → Type 0 where
  stays : (k : Cursor) → Reads [] k k
  reads :
      (c : ℕ) (more t : Text) (k next : Cursor)
      → k.rest ≡ c ∷ more
      → Reads t (advance k) next
      → Reads (c ∷ t) k next

rest-advance_past : (k : Cursor) (c : ℕ) (more : Text) → (advance_past k c more).rest ≡ more
unfolding advance_past
rest-advance_past k c more = ground arith

index-advance_past :
    (k : Cursor) (c : ℕ) (more : Text) → (advance_past k c more).index ≡ suc k.index
unfolding advance_past
index-advance_past k c more = ground arith

pub advance-advance_past :
    (k : Cursor) (c : ℕ) (more : Text) → k.rest ≡ c ∷ more → advance k ≡ advance_past k c more
unfolding advance
advance-advance_past k c more e = rw e refl

pub rest-advance : (k : Cursor) (c : ℕ) (more : Text) → k.rest ≡ c ∷ more → (advance k).rest ≡ more
rest-advance k c more e =
    ap (λ m. m.rest) (advance-advance_past k c more e) ∙ rest-advance_past k c more

pub index-advance :
    (k : Cursor) (c : ℕ) (more : Text) → k.rest ≡ c ∷ more → (advance k).index ≡ suc k.index
index-advance k c more e =
    ap (λ m. m.index) (advance-advance_past k c more e) ∙ index-advance_past k c more

pub Reads-trans : (t u : Text) (j k m : Cursor) → Reads t j k → Reads u k m → Reads (t ++ u) j m
Reads-trans _ u _ k m (stays _) q = q
Reads-trans _ u _ k m (reads c more t j _ e p) q =
    reads c more (t ++ u) j m e (Reads-trans t u (advance j) k m p q)

pub advance-Reads :
    (k : Cursor) (c : ℕ) (more : Text) → k.rest ≡ c ∷ more → Reads (c ∷ []) k (advance k)
advance-Reads k c more e = reads c more [] k (advance k) e (stays (advance k))

-- What was left at the first cursor is the text read and what is left at the second.
pub rest-Reads : (t : Text) (k m : Cursor) → Reads t k m → k.rest ≡ t ++ m.rest
rest-Reads _ _ m (stays _) = refl
rest-Reads _ _ m (reads c more t k _ e p) =
    e ∙ ap (λ r. c ∷ r) (sym (rest-advance k c more e) ∙ rest-Reads t (advance k) m p)

pub index-Reads : (t : Text) (k m : Cursor) → Reads t k m → m.index ≡ k.index + length t
index-Reads _ _ m (stays _) = omega arith
index-Reads _ _ m (reads c more t k _ e p) =
    omega (arith, index-Reads t (advance k) m p, index-advance k c more e)

pub skip_while-Reads :
    (p : ℕ → Bool) (t : Text) (k : Cursor) → k.rest ≡ t → (u : Text) × Reads u k (skip_while p t k)
unfolding skip_while
skip_while-Reads p [] k e = ([], stays k)
skip_while-Reads p (c ∷ more) k e = elim (Bool-cases (p c)) [
  | inl h ↦
      let (u, r) = skip_while-Reads p more (advance k) (rest-advance k c more e) in
      (c ∷ u, rw (h, skip_while) (reads c more u k _ e r))
  | inr h ↦ ([], rw (h, skip_while) (stays k))
]

-- Lines and columns: the pieces between line breaks in what was read.
abbrev pub last : Text → List Text → Text
last piece [] = piece
last piece (p ∷ ps) = last p ps

abbrev pub column_after : ℕ → Text × List Text → ℕ
column_after column (piece, []) = column + length piece
column_after column (piece, p ∷ ps) = suc (length (last p ps))

-- The line and the column of a cursor, after a text.
abbrev pub Counts : Cursor → Text → Cursor → Type 0
Counts k t m =
    (m.line ≡ k.line + length (split_from (is_return k.previous) t).1)
    × (m.column ≡ column_after k.column (split_from (is_return k.previous) t))

column_after-last :
    (column : ℕ) (c : ℕ) (s : Text × List Text)
    → column_after (suc column) s ≡ column_after column (c ∷ s.0, s.1)
column_after-last column c (piece, []) = omega arith
column_after-last column c (piece, p ∷ ps) = refl

column_after-break :
    (column : ℕ) (s : Text × List Text) → column_after 1 s ≡ column_after column ([], s.0 ∷ s.1)
column_after-break column (piece, []) = omega arith
column_after-break column (piece, p ∷ ps) = refl

-- One character: the tests of `_advance` on it against those of the split.
counted :
    (is_cr is_lf after_cr : Bool) (line column : ℕ) (m : Cursor) (c : ℕ)
    (cut uncut : Text × List Text)
    → (m.line
        ≡ (if is_cr then suc line else if is_lf then if after_cr then line else suc line else line)
          + length (if is_cr then cut else uncut).1)
      × (m.column
          ≡ column_after
              (if is_cr then 1 else if is_lf then if after_cr then column else 1 else suc column)
              (if is_cr then cut else uncut))
    → (m.line
        ≡ line
          + length
              (if is_cr
                then ([], cut.0 ∷ cut.1)
                else if is_lf
                then if after_cr then uncut else ([], uncut.0 ∷ uncut.1)
                else (c ∷ uncut.0, uncut.1)).1)
      × (m.column
          ≡ column_after column (
              if is_cr
              then ([], cut.0 ∷ cut.1)
              else if is_lf
              then if after_cr then uncut else ([], uncut.0 ∷ uncut.1)
              else (c ∷ uncut.0, uncut.1)))
counted true f r line column m c cut uncut (p, q) = (omega arith, q ∙ column_after-break column cut)
counted false true true line column m c cut uncut h = h
counted false true false line column m c cut uncut (p, q) =
    (omega arith, q ∙ column_after-break column uncut)
counted false false r line column m c cut uncut (p, q) = (p, q ∙ column_after-last column c uncut)

line-advance_past :
    (k : Cursor) (c : ℕ) (more : Text)
    → (advance_past k c more).line ≡ (
        if c == 13
        then suc k.line
        else if c == 10
        then if is_return k.previous then k.line else suc k.line
        else k.line)
unfolding advance_past
line-advance_past k c more = ground arith

column-advance_past :
    (k : Cursor) (c : ℕ) (more : Text)
    → (advance_past k c more).column ≡ (
        if c == 13
        then 1
        else if c == 10
        then if is_return k.previous then k.column else 1
        else suc k.column)
unfolding advance_past
column-advance_past k c more = ground arith

split_from-advance_past :
    (k : Cursor) (c : ℕ) (more t : Text)
    → split_from (is_return (advance_past k c more).previous) t
      ≡ (if c == 13 then split_from true t else split_from false t)
unfolding advance_past
split_from-advance_past k c more t = ground arith

advance_past-Counts :
    (k : Cursor) (c : ℕ) (more t : Text) (m : Cursor)
    → Counts (advance_past k c more) t m
    → Counts k (c ∷ t) m
unfolding split_from
advance_past-Counts k c more t m (p, q) =
    counted (c == 13) (c == 10) (is_return k.previous) k.line k.column m c (split_from true t)
      (split_from false t)
      (
        p
            ∙ ap₂ (λ x y. x + length y.1) (line-advance_past k c more)
                (split_from-advance_past k c more t),
        q ∙ ap₂ column_after (column-advance_past k c more) (split_from-advance_past k c more t),
      )

pub Reads-Counts : (t : Text) (k m : Cursor) → Reads t k m → Counts k t m
unfolding split_from
Reads-Counts _ _ m (stays _) = (omega arith, omega arith)
Reads-Counts _ _ m (reads c more t k _ e p) =
    advance_past-Counts k c more t m
      (subst (λ j. Counts j t m) (advance-advance_past k c more e) (Reads-Counts t (advance k) m p))

-- ===== src/Parser/Chars/Slices.antt =====
-- A slice of a text that is put together from its parts.
use mathlib.Core.Path.{ap₂}
use quipudb.Prelude.{ℕ, ◌+◌, ◌≡◌, refl, ap, ◌∙◌, [], ◌∷◌, ◌++◌, length, arith}
use quipudb.Parser.Chars.{Text, drop, take, slice}

drop-append : (a w : Text) → drop (length a) (a ++ w) ≡ w
drop-append [] w = refl
drop-append (x ∷ a) w = drop-append a w

pub take-append : (w u : Text) → take (length w) (w ++ u) ≡ w
take-append [] u = refl
take-append (x ∷ w) u = ap (λ t. x ∷ t) (take-append w u)

pub slice-append :
    (a w u : Text) (start end : ℕ)
    → start ≡ length a
    → end ≡ start + length w
    → slice start end (a ++ (w ++ u)) ≡ w
slice-append a w u start end p q =
    ap₂ (λ n t. take n t) (omega arith)
      (ap (λ n. drop n (a ++ (w ++ u))) p ∙ drop-append a (w ++ u))
    ∙ take-append w u

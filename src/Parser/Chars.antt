-- ===== src/Parser/Chars.antt =====
-- What engine/parser takes from the texts of Python: a text is a list of code points.
pub mod Slices
pub mod Encoded
use Prim.Native.Char.{code}
use Prim.Native.String as String'
use quipudb.Prelude.{
  ℕ, zero, suc, ◌+◌, ◌-◌, String, Bool, true, false, ◌&&◌, List, [], ◌∷◌, leb, ltb, ◌==◌, all,
  if◌then◌else◌,
}

abbrev pub Text : Type 0
Text = List ℕ

abbrev pub codes : String → Text
codes String'.[] = []
codes (String'.◌∷◌ c s) = code c ∷ codes s

unfoldable pub text_eq : Text → Text → Bool
text_eq [] [] = true
text_eq (x ∷ xs) (y ∷ ys) = x == y && text_eq xs ys
text_eq _ _ = false

abbrev pub drop : ℕ → Text → Text
drop zero t = t
drop (suc n) [] = []
drop (suc n) (x ∷ t) = drop n t

abbrev pub take : ℕ → Text → Text
take zero t = []
take (suc n) [] = []
take (suc n) (x ∷ t) = x ∷ take n t

-- `text[start:end]`
abbrev pub slice : ℕ → ℕ → Text → Text
slice start end t = take (end - start) (drop start t)

abbrev pub is_ascii : ℕ → Bool
is_ascii c = ltb c 128

abbrev pub all_ascii : Text → Bool
all_ascii t = all is_ascii t

abbrev pub between : ℕ → ℕ → ℕ → Bool
between low high c = leb low c && leb c high

-- `c.isascii() and c.isdigit()`
abbrev pub is_digit : ℕ → Bool
is_digit = between 48 57

-- `upper` of an ASCII character.
abbrev pub upper : ℕ → ℕ
upper c = if between 97 122 c then c - 32 else c

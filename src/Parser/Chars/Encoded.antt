-- ===== src/Parser/Chars/Encoded.antt =====
-- `text.encode("utf-8")`: a text as a native string, which is held as its UTF-8.
use Prim.Native.Nat.{Ordering, compare}
use Prim.Native.Char.{Char, char, code, IsLt, IsScalar}
use Prim.Native.String as String'
use mathlib.Core.Path.{ap₂}
use mathlib.Core.Bool.{true≢false}
use mathlib.Core.Option.{some-injective, some-ne-none}
use quipudb.Prelude.{
  ℕ, String, ◌≡◌, refl, sym, ap, ◌∙◌, true, false, Option, none, some, [], ◌∷◌, ◌<◌, lt→ltb, arith,
}
use quipudb.Parser.Chars.{Text, codes}

-- `IsScalar` of three comparisons, with the clauses that it has.
abbrev pub Both : Ordering → Ordering → Type 0
Both Ordering.lt o = IsLt o
Both Ordering.eq _ = ⊥
Both Ordering.gt _ = ⊥

abbrev pub Scalar : Ordering → Ordering → Ordering → Type 0
Scalar Ordering.lt _ _ = Unit
Scalar Ordering.eq o p = Both o p
Scalar Ordering.gt o p = Both o p

abbrev both : (o p : Ordering) → Option (Both o p)
both Ordering.lt Ordering.lt = some tt
both Ordering.lt Ordering.eq = none
both Ordering.lt Ordering.gt = none
both Ordering.eq _ = none
both Ordering.gt _ = none

abbrev scalar : (o p q : Ordering) → Option (Scalar o p q)
scalar Ordering.lt _ _ = some tt
scalar Ordering.eq o p = both o p
scalar Ordering.gt o p = both o p

is_scalar : (n : ℕ) → Option (IsScalar n)
is_scalar n = scalar (compare n 55296) (compare 57343 n) (compare n 1114112)

-- A code point that is no surrogate.
unfoldable pub char_of : ℕ → Option Char
unfolding is_scalar
char_of n = elim (is_scalar n) [ none ↦ none | some p ↦ some (char n p) ]

-- `none` is the UnicodeEncodeError of a text with a surrogate.
unfoldable pub encode : Text → Option String
unfolding char_of
encode [] = some String'.[]
encode (c ∷ t) = elim (char_of c) [
  | none ↦ none
  | some d ↦ elim (encode t) [ none ↦ none | some s ↦ some (String'.◌∷◌ d s) ]
]

scalar-lt :
    (o p q : Ordering)
    → (elim o [ Ordering.lt ↦ true | _ ↦ false ]) ≡ true
    → (x : Scalar o p q) × (scalar o p q ≡ some x)
scalar-lt Ordering.lt p q e = (tt, refl)
scalar-lt Ordering.eq p q e = absurd (true≢false (sym e))
scalar-lt Ordering.gt p q e = absurd (true≢false (sym e))

char_of-ascii : (n : ℕ) → n < 128 → (d : Char) × (char_of n ≡ some d)
unfolding char_of is_scalar
char_of-ascii n h =
    let e =
      scalar-lt (compare n 55296) (compare 57343 n) (compare n 1114112)
        (lt→ltb n 55296 (omega (arith, h))) in
    (char n e.0, rw (e.1, char_of, is_scalar))

char_of-code : (n : ℕ) (d : Char) → char_of n ≡ some d → code d ≡ n
unfolding char_of
char_of-code n d e = by_scalar (is_scalar n) e
  where
    by_scalar :
        (o : Option (IsScalar n))
        → (elim o [ none ↦ none | some p ↦ some (char n p) ]) ≡ some d
        → code d ≡ n
    by_scalar none e = absurd (some-ne-none _ (sym e))
    by_scalar (some p) e = sym (ap code (some-injective _ _ e))

abbrev pub AllAscii : Text → Type 0
AllAscii [] = Unit
AllAscii (c ∷ t) = (c < 128) × AllAscii t

pub encode-ascii : (t : Text) → AllAscii t → (s : String) × (encode t ≡ some s)
unfolding encode
encode-ascii [] h = (String'.[], refl)
encode-ascii (c ∷ t) h =
    let first = char_of-ascii c h.0 in
    let rest = encode-ascii t h.1 in (String'.◌∷◌ first.0 rest.0, rw (first.1, rest.1, encode))

-- A text is read back from its encoding.
pub codes-encode : (t : Text) (s : String) → encode t ≡ some s → codes s ≡ t
unfolding encode
codes-encode [] s e = ap codes (sym (some-injective _ _ e))
codes-encode (c ∷ t) s e = by_char (char_of c) (encode t) (char_of-code c) (codes-encode t) e
  where
    by_char :
        (o : Option Char) (q : Option String)
        → ((d : Char) → o ≡ some d → code d ≡ c)
        → ((r : String) → q ≡ some r → codes r ≡ t)
        → (elim o [
          | none ↦ none
          | some d ↦ elim q [ none ↦ none | some s ↦ some (String'.◌∷◌ d s) ]
        ])
          ≡ some s
        → codes s ≡ c ∷ t
    by_char none q f g e = absurd (some-ne-none _ (sym e))
    by_char (some d) none f g e = absurd (some-ne-none _ (sym e))
    by_char (some d) (some r) f g e =
        ap codes (sym (some-injective _ _ e)) ∙ ap₂ (λ x y. x ∷ y) (f d refl) (g r refl)

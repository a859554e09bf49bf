-- ===== src/Executor/Predicates/Domains.antt =====
-- engine/executor/native.py: the values that a column can hold lie between the bounds of
-- `native_range_bounds`, in the order of the native core (`compare` in
-- core/include/quipudb/catalog/types.hpp).
use Prim.Native.Nat.{compare, Ordering}
use native.Mathlib.Omega.{compare-lt}
use mathlib.Core.Path.{subst}
use Prim.Native.Char.{char, code, len_utf8, len_utf8_def, width, IsScalar}
use Prim.Native.String as String'
use Prim.Native.String.len
use Prim.Native.String.{len}
use quipudb.Parser.Chars.Encoded.{Scalar}
use quipudb.Prelude.{
  ℕ, zero, suc, ◌<◌, ◌≤◌, ◌≡◌, refl, ◌∙◌, String, Bool, true, false, not, ◌&&◌, ◌||◌, Option, some,
  [], ◌∷◌, ◌++◌, ltb, if◌then◌else◌, arith,
}
use quipudb.Prelude.Int.{ℤ, pos, negsuc}
use quipudb.Parser.Chars.{Text, codes}
use quipudb.Parser.Ast.{SqlTypeName, Date}
use quipudb.Parser.Semantic.Values.Stored.{InInt32}
use quipudb.Parser.BoundAst.{BoundColumn, PointValue, BoundValue}
use quipudb.Executor.Predicates.{
  NativeValue, plain, native_text, native_date, geo_point, Values, to_native_value,
  native_range_bounds, repeat_code, quotient_by_4, tail_codes,
}

-- `<` of integers, and of texts by their code points, which is the order of their UTF-8.
abbrev pub int_less : ℤ → ℤ → Bool
int_less (pos a) (pos b) = ltb a b
int_less (pos a) (negsuc b) = false
int_less (negsuc a) (pos b) = true
int_less (negsuc a) (negsuc b) = ltb b a

unfoldable pub text_less : Text → Text → Bool
text_less [] [] = false
text_less [] (y ∷ ys) = true
text_less (x ∷ xs) [] = false
text_less (x ∷ xs) (y ∷ ys) = if ltb x y then true else if ltb y x then false else text_less xs ys

scalar_below : (n : ℕ) → IsScalar n → n < 1114112
scalar_below n p = by_order (compare n 55296) (compare 57343 n) (compare n 1114112) refl refl p
  where
    by_order :
        (o q r : Ordering)
        → compare n 55296 ≡ o
        → compare n 1114112 ≡ r
        → Scalar o q r
        → n < 1114112
    by_order Ordering.lt q r e f p = let h = compare-lt n 55296 e in omega (arith, h)
    by_order Ordering.eq Ordering.lt Ordering.lt e f p = compare-lt n 1114112 f
    by_order Ordering.eq Ordering.lt Ordering.eq e f p = absurd p
    by_order Ordering.eq Ordering.lt Ordering.gt e f p = absurd p
    by_order Ordering.eq Ordering.eq r e f p = absurd p
    by_order Ordering.eq Ordering.gt r e f p = absurd p
    by_order Ordering.gt Ordering.lt Ordering.lt e f p = compare-lt n 1114112 f
    by_order Ordering.gt Ordering.lt Ordering.eq e f p = absurd p
    by_order Ordering.gt Ordering.lt Ordering.gt e f p = absurd p
    by_order Ordering.gt Ordering.eq r e f p = absurd p
    by_order Ordering.gt Ordering.gt r e f p = absurd p

width_bounds :
    (n : ℕ) (w : ℕ)
    → w ≡ width (compare n 128) (compare n 2048) (compare n 65536)
    → (1 ≤ w)
      × (w ≤ 1 → n < 128)
      × (w ≤ 2 → n < 2048)
      × (w ≤ 3 → n < 65536)
      × (128 ≤ n → 2 ≤ w)
      × (2048 ≤ n → 3 ≤ w)
      × (65536 ≤ n → 4 ≤ w)
width_bounds n w e = (
  ground arith,
  λ h. ground arith,
  λ h. ground arith,
  λ h. ground arith,
  λ h. ground arith,
  λ h. ground arith,
  λ h. ground arith,
)

-- A code point at the first place, with the bytes that it leaves to the rest.
first_below :
    (x y : ℕ) (xs ys : Text)
    → (x < y → ⊥)
    → (x ≡ y → text_less xs ys ≡ false)
    → text_less (x ∷ xs) (y ∷ ys) ≡ false
unfolding text_less
first_below x y xs ys f g = ground (arith, f, g)

empty_below : (s : String) → len s ≤ 0 → text_less [] (codes s) ≡ false
unfolding text_less
empty_below String'.[] h = refl
empty_below (String'.◌∷◌ c s) h =
    let b = width_bounds (code c) (len_utf8 c) (len_utf8_def c) in
    absurd (omega (arith, subst (λ k. k ≤ 0) (len.cons c s) h, b.0))

-- The upper bound of VARCHAR(n) is no less than any text of n bytes.
pub varchar_below :
    (n : ℕ) (s : String)
    → len s ≤ n
    → text_less (repeat_code (quotient_by_4 n) 1114111 ++ tail_codes n) (codes s) ≡ false
unfolding text_less
varchar_below zero s h = empty_below s h
varchar_below (suc zero) String'.[] h = refl
varchar_below (suc zero) (String'.◌∷◌ c s) h =
    let b = width_bounds (code c) (len_utf8 c) (len_utf8_def c) in
    let g = subst (λ k. k ≤ 1) (len.cons c s) h in
    let small = b.1 (omega (arith, g)) in
    first_below 127 (code c) [] (codes s) (λ p. omega (arith, p, small))
      (λ e. empty_below s (omega (arith, g, b.0)))
varchar_below (suc (suc zero)) String'.[] h = refl
varchar_below (suc (suc zero)) (String'.◌∷◌ c s) h =
    let b = width_bounds (code c) (len_utf8 c) (len_utf8_def c) in
    let g = subst (λ k. k ≤ 2) (len.cons c s) h in
    let small = b.2 (omega (arith, g)) in
    first_below 2047 (code c) [] (codes s) (λ p. omega (arith, p, small))
      (λ e. let w = b.4 (omega (arith, e)) in empty_below s (omega (arith, g, w)))
varchar_below (suc (suc (suc zero))) String'.[] h = refl
varchar_below (suc (suc (suc zero))) (String'.◌∷◌ c s) h =
    let b = width_bounds (code c) (len_utf8 c) (len_utf8_def c) in
    let g = subst (λ k. k ≤ 3) (len.cons c s) h in
    let small = b.3 (omega (arith, g)) in
    first_below 65535 (code c) [] (codes s) (λ p. omega (arith, p, small))
      (λ e. let w = b.5 (omega (arith, e)) in empty_below s (omega (arith, g, w)))
varchar_below (suc (suc (suc (suc n)))) String'.[] h = refl
varchar_below (suc (suc (suc (suc n)))) (String'.◌∷◌ (char k p) s) h =
    let c = char k p in
    let b = width_bounds k (len_utf8 c) (len_utf8_def c) in
    let g = subst (λ m. m ≤ suc (suc (suc (suc n)))) (len.cons c s) h in
    let small = scalar_below k p in
    first_below 1114111 k (repeat_code (quotient_by_4 n) 1114111 ++ tail_codes n) (codes s)
      (λ q. omega (arith, q, small))
      (λ e. let w = b.6 (omega (arith, e)) in varchar_below n s (omega (arith, g, w)))

int_low : (n : ℤ) → InInt32 n → int_less n (negsuc 2147483647) ≡ false
int_low (pos n) h = refl
int_low (negsuc n) h = ground arith

int_high : (n : ℤ) → InInt32 n → int_less (pos 2147483647) n ≡ false
int_high (pos n) h = ground arith
int_high (negsuc n) h = refl

module _ {F : Type 0} (v : Values F) where
  abbrev pub Between : F → F → F → Type 0
  Between low high x = (v.below x low ≡ false) × (v.below high x ≡ false)

  -- What a column of the type and the length can hold: an INT and the days of a DATE of 32 bits, a
  -- text of no more bytes than the length, a point on the globe. A VECTOR has no order.
  pub data InColumn : SqlTypeName → Option ℕ → BoundValue F → Type 0 where
    an_int : (k : Option ℕ) (n : ℤ) → InInt32 n → InColumn SqlTypeName.int k (BoundValue.integer n)
    a_double :
        (k : Option ℕ) (x : F)
        → Between (v.negate v.infinity) v.infinity x
        → InColumn SqlTypeName.double k (BoundValue.double x)
    a_varchar :
        (n : ℕ) (s : String)
        → len s ≤ n
        → InColumn SqlTypeName.varchar (some n) (BoundValue.string s)
    a_bool : (k : Option ℕ) (b : Bool) → InColumn SqlTypeName.bool k (BoundValue.boolean b)
    a_date :
        (k : Option ℕ) (d : Date)
        → InInt32 (v.epoch_days d)
        → InColumn SqlTypeName.date k (BoundValue.date d)
    a_point :
        (k : Option ℕ) (p : PointValue F)
        → Between (v.negate v.ninety) v.ninety p.latitude
        → Between (v.negate v.half_turn) v.half_turn p.longitude
        → InColumn SqlTypeName.point k (BoundValue.point p)

  module _ (native_less : NativeValue F → NativeValue F → Bool) where
    -- The documented order of the native core on the values of a type.
    abbrev pub IsOrdered : SqlTypeName → Type 0
    IsOrdered SqlTypeName.int =
        (a b : ℤ)
        → native_less (plain (BoundValue.integer a)) (plain (BoundValue.integer b)) ≡ int_less a b
    IsOrdered SqlTypeName.double =
        (x y : F)
        → native_less (plain (BoundValue.double x)) (plain (BoundValue.double y)) ≡ v.below x y
    IsOrdered SqlTypeName.varchar =
        (s : String) (t : Text)
        → (native_less (plain (BoundValue.string s)) (native_text t) ≡ text_less (codes s) t)
          × (native_less (native_text t) (plain (BoundValue.string s)) ≡ text_less t (codes s))
    IsOrdered SqlTypeName.bool =
        (a b : Bool)
        → native_less (plain (BoundValue.boolean a)) (plain (BoundValue.boolean b)) ≡ (not a && b)
    IsOrdered SqlTypeName.date =
        (a b : ℤ) → native_less (native_date a) (native_date b) ≡ int_less a b
    IsOrdered SqlTypeName.point =
        (a b c d : F)
        → native_less (geo_point a b) (geo_point c d)
          ≡ (v.below a c || not (v.below c a) && v.below b d)
    IsOrdered SqlTypeName.vector = Unit

    abbrev pub IsBetween : NativeValue F × NativeValue F → BoundValue F → Type 0
    IsBetween bounds value =
        (native_less (to_native_value v value) bounds.0 ≡ false)
        × (native_less bounds.1 (to_native_value v value) ≡ false)

    -- `native_range_bounds` has bounds for the column, and the value lies between them.
    abbrev pub IsBounded : BoundColumn → BoundValue F → Type 0
    IsBounded column value =
        (bounds : NativeValue F × NativeValue F) × (native_range_bounds v column ≡ some bounds)
        × IsBetween bounds value

    nothing_below : (s : String) → text_less (codes s) [] ≡ false
    unfolding text_less
    nothing_below String'.[] = refl
    nothing_below (String'.◌∷◌ c s) = refl

    of_type :
        (name : String) (t : SqlTypeName) (k : Option ℕ) (value : BoundValue F)
        → IsOrdered t
        → InColumn t k value
        → IsBounded (record { name = name; data_type = t; length = k }) value
    unfolding native_range_bounds
    of_type name _ _ _ o (an_int k n h) = (_, refl, (o _ _ ∙ int_low n h, o _ _ ∙ int_high n h))
    of_type name _ _ _ o (a_double k x h) = (_, refl, (o _ _ ∙ h.0, o _ _ ∙ h.1))
    of_type name _ _ _ o (a_varchar n s h) =
        (_, refl, ((o s _).0 ∙ nothing_below s, (o s _).1 ∙ varchar_below n s h))
    of_type name _ _ _ o (a_bool k true) = (_, refl, (o _ _, o _ _))
    of_type name _ _ _ o (a_bool k false) = (_, refl, (o _ _, o _ _))
    of_type name _ _ _ o (a_date k d h) = (_, refl, (o _ _ ∙ int_low _ h, o _ _ ∙ int_high _ h))
    of_type name _ _ _ o (a_point k p g h) =
        (_, refl, (o _ _ _ _ ∙ pair _ _ _ g.0 h.0, o _ _ _ _ ∙ pair _ _ _ g.1 h.1))
      where
        pair : (a b c : Bool) → a ≡ false → c ≡ false → (a || not b && c) ≡ false
        pair a b c p q = ground arith

    pub InColumn-IsBounded :
        (column : BoundColumn) (value : BoundValue F)
        → IsOrdered column.data_type
        → InColumn column.data_type column.length value
        → IsBounded column value
    InColumn-IsBounded column value o h =
        of_type column.name column.data_type column.length value o h

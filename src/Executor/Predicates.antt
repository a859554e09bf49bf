-- ===== src/Executor/Predicates.antt =====
-- engine/executor/predicates.py, and `native_range_bounds` and `to_native_value` of native.py: a
-- condition as the keys of a search, and as a test on a row in memory.

pub mod Domains
pub mod Ranges
pub mod Planned
mod Tests
use quipudb.Prelude.{
  ℕ, zero, suc, ◌+◌, ◌*◌, ◌-◌, Bool, true, false, not, ◌&&◌, ◌||◌, Option, none, some, List, [],
  ◌∷◌, ◌++◌, length, get_elem?, ltb, ◌==◌, if◌then◌else◌,
}
use quipudb.Prelude.Int.{ℤ, pos, negsuc}
use quipudb.Parser.Chars.{Text}
use quipudb.Parser.Ast.{
  SqlTypeName, Date, ComparisonOperator, equal, less_than, less_than_or_equal, greater_than,
  greater_than_or_equal, DistanceMetric,
}
use quipudb.Parser.BoundAst.{
  BoundColumn, PointValue, BoundValue, BoundComparisonCondition, BoundBetweenCondition,
  BoundCondition, comparison, between, distance, polygon, matching, similar, column_of,
}

-- A value as the native module takes it.
pub data NativeValue (F : Type 0) : Type 0 where
  plain : BoundValue F → NativeValue F
  native_text : Text → NativeValue F
  native_date : ℤ → NativeValue F
  geo_point : F → F → NativeValue F

-- Python's floating-point numbers and `math`, dates as days since 1970, and `<` on column values.
pub record Values (F : Type 0) : Type 0 where
  pub less : BoundValue F → BoundValue F → Bool
  pub epoch_days : Date → ℤ
  pub plus : F → F → F
  pub minus : F → F → F
  pub times : F → F → F
  pub over : F → F → F
  pub hypot : F → F → F
  pub negate : F → F
  pub absolute : F → F
  pub radians : F → F
  pub sine : F → F
  pub cosine : F → F
  pub arcsine : F → F
  pub root : F → F
  -- `<` and `<=`.
  pub below : F → F → Bool
  pub at_most : F → F → Bool
  pub infinity : F
  pub one : F
  pub two : F
  pub ninety : F
  pub half_turn : F
  pub tolerance : F
  pub earth_radius : F

-- The sign that `_compare` returns.
pub data Sign : Type 0 where
  negative level positive : Sign

abbrev pub repeat_code : ℕ → ℕ → Text
repeat_code zero c = []
repeat_code (suc n) c = c ∷ repeat_code n c

abbrev pub quotient_by_4 : ℕ → ℕ
quotient_by_4 (suc (suc (suc (suc n)))) = suc (quotient_by_4 n)
quotient_by_4 _ = 0

-- `tail[length % 4]`
abbrev pub tail_codes : ℕ → Text
tail_codes (suc (suc (suc (suc n)))) = tail_codes n
tail_codes zero = []
tail_codes (suc zero) = 127 ∷ []
tail_codes (suc (suc zero)) = 2047 ∷ []
tail_codes (suc (suc (suc zero))) = 65535 ∷ []

module _ {F : Type 0} (v : Values F) where
  -- `_compare`
  abbrev pub compare_values : BoundValue F → BoundValue F → Sign
  compare_values left right =
      if v.less left right then negative else if v.less right left then positive else level

  abbrev pub is_satisfied : ComparisonOperator → Sign → Bool
  is_satisfied equal level = true
  is_satisfied equal _ = false
  is_satisfied less_than negative = true
  is_satisfied less_than _ = false
  is_satisfied less_than_or_equal positive = false
  is_satisfied less_than_or_equal _ = true
  is_satisfied greater_than positive = true
  is_satisfied greater_than _ = false
  is_satisfied greater_than_or_equal negative = false
  is_satisfied greater_than_or_equal _ = true

  -- `to_native_value`
  abbrev pub to_native_value : BoundValue F → NativeValue F
  to_native_value (BoundValue.date d) = native_date (v.epoch_days d)
  to_native_value (BoundValue.point p) = geo_point p.latitude p.longitude
  to_native_value other = plain other

  -- `native_range_bounds`; `none` is an exception.
  unfoldable pub native_range_bounds : BoundColumn → Option (NativeValue F × NativeValue F)
  native_range_bounds c = elim c.data_type [
    | SqlTypeName.int ↦ some (
      plain (BoundValue.integer (negsuc 2147483647)),
      plain (BoundValue.integer (pos 2147483647)),
    )
    | SqlTypeName.double ↦
        some (plain (BoundValue.double (v.negate v.infinity)), plain (BoundValue.double v.infinity))
    | SqlTypeName.varchar ↦ elim c.length [
      | none ↦ none
      | some n ↦
          some (native_text [], native_text (repeat_code (quotient_by_4 n) 1114111 ++ tail_codes n))
    ]
    | SqlTypeName.bool ↦ some (plain (BoundValue.boolean false), plain (BoundValue.boolean true))
    | SqlTypeName.date ↦ some (native_date (negsuc 2147483647), native_date (pos 2147483647))
    | SqlTypeName.point ↦
        some (geo_point (v.negate v.ninety) (v.negate v.half_turn), geo_point v.ninety v.half_turn)
    | SqlTypeName.vector ↦ none
  ]

  abbrev pub from_bounds :
      ComparisonOperator
      → NativeValue F
      → NativeValue F × NativeValue F
      → Option (NativeValue F × NativeValue F)
  from_bounds equal value bounds = none
  from_bounds less_than value (lower, upper) = some (lower, value)
  from_bounds less_than_or_equal value (lower, upper) = some (lower, value)
  from_bounds greater_than value (lower, upper) = some (value, upper)
  from_bounds greater_than_or_equal value (lower, upper) = some (value, upper)

  -- `range_values`; `none` is an exception.
  unfoldable pub range_values : BoundCondition F → Option (NativeValue F × NativeValue F)
  unfolding native_range_bounds
  range_values (between c) = some (to_native_value c.lower, to_native_value c.upper)
  range_values (comparison c) = elim (native_range_bounds c.column.column) [
    | none ↦ none
    | some bounds ↦ from_bounds c.operator (to_native_value c.value) bounds
  ]
  range_values other = none

  -- `equality_key`; `none` is an exception.
  unfoldable pub equality_key : BoundCondition F → Option (NativeValue F)
  equality_key (comparison c) = elim c.operator [
    | equal ↦ some (to_native_value c.value)
    | _ ↦ none
  ]
  equality_key other = none

  abbrev pub larger : F → F → F
  larger a b = if v.below a b then b else a

  abbrev pub smaller : F → F → F
  smaller a b = if v.below b a then b else a

  -- `_on_segment`, of points `(x, y)`.
  unfoldable pub on_segment : F × F → F × F → F → F → Bool
  on_segment (ax, ay) (bx, by_) px py =
      let scale =
        larger
          (larger
            (larger
              (larger (larger (larger (v.absolute ax) (v.absolute ay)) (v.absolute bx))
                (v.absolute by_))
              (v.absolute px))
            (v.absolute py))
          v.one in
      let cross =
        v.minus (v.times (v.minus bx ax) (v.minus py ay))
          (v.times (v.minus by_ ay) (v.minus px ax)) in
      let slack = v.times scale v.tolerance in
      if v.below (v.times (v.times scale scale) v.tolerance) (v.absolute cross)
      then false
      else v.at_most (v.minus (smaller ax bx) slack) px
        && v.at_most px (v.plus (larger ax bx) slack)
        && v.at_most (v.minus (smaller ay by_) slack) py
        && v.at_most py (v.plus (larger ay by_) slack)

  abbrev xor : Bool → Bool → Bool
  xor true b = not b
  xor false b = b

  -- The first loop: some edge, each with the vertex before it, holds the point.
  unfoldable pub on_border : F × F → List (F × F) → F → F → Bool
  unfolding on_segment
  on_border last [] px py = false
  on_border last (p ∷ ps) px py = if on_segment last p px py then true else on_border p ps px py

  -- The edge from `a` to `b` crosses the ray to the right of the point.
  unfoldable pub crosses : F × F → F × F → F → F → Bool
  crosses (ax, ay) (bx, by_) px py =
      xor (v.below py ay) (v.below py by_)
      && v.below px (v.plus (v.over (v.times (v.minus bx ax) (v.minus py ay)) (v.minus by_ ay)) ax)

  -- The second loop: `inside` changes at each edge that crosses.
  unfoldable pub is_inside : Bool → F × F → List (F × F) → F → F → Bool
  unfolding crosses
  is_inside inside last [] px py = inside
  is_inside inside last (p ∷ ps) px py =
      is_inside (if crosses p last px py then not inside else inside) p ps px py

  abbrev last_of : F × F → List (F × F) → F × F
  last_of p [] = p
  last_of p (q ∷ qs) = last_of q qs

  abbrev corner : PointValue F → F × F
  corner p = (p.longitude, p.latitude)

  abbrev corners : List (PointValue F) → List (F × F)
  corners [] = []
  corners (p ∷ ps) = corner p ∷ corners ps

  -- `contains_point`; `none` is the exception for fewer than three vertices.
  unfoldable pub contains_point : List (PointValue F) → PointValue F → Option Bool
  unfolding on_border is_inside
  contains_point (a ∷ b ∷ c ∷ more) point =
      let last = last_of (corner a) (corners (b ∷ c ∷ more)) in
      some (
        if on_border last (corners (a ∷ b ∷ c ∷ more)) point.longitude point.latitude
        then true
        else is_inside false last (corners (a ∷ b ∷ c ∷ more)) point.longitude point.latitude)
  contains_point few point = none

  abbrev square : F → F
  square a = v.times a a

  -- `distance_between`
  unfoldable pub distance_between : PointValue F → PointValue F → DistanceMetric → F
  distance_between left right metric = elim metric [
    | DistanceMetric.euclidean ↦
        v.hypot (v.minus left.longitude right.longitude) (v.minus left.latitude right.latitude)
    | DistanceMetric.haversine ↦
        let from = v.radians left.latitude in
        let upto = v.radians right.latitude in
        let haversine = v.plus (square (v.sine (v.over (v.minus upto from) v.two))) (
          v.times (v.times (v.cosine from) (v.cosine upto)) (
            square (v.sine (v.over (v.radians (v.minus right.longitude left.longitude)) v.two)))) in
        v.times v.earth_radius (v.times v.two (v.arcsine (v.root (smaller v.one haversine))))
  ]

  abbrev at_distance : ComparisonOperator → F → F → Option Bool
  at_distance less_than d radius = some (v.below d radius)
  at_distance less_than_or_equal d radius = some (v.at_most d radius)
  at_distance _ d radius = none

  -- `matches` on the value of the condition's column; `none` is an exception.
  unfoldable pub matches_value : BoundCondition F → BoundValue F → Option Bool
  unfolding contains_point distance_between
  matches_value (comparison c) value = some (is_satisfied c.operator (compare_values value c.value))
  matches_value (between c) value = some (
      is_satisfied greater_than_or_equal (compare_values value c.lower)
      && is_satisfied less_than_or_equal (compare_values value c.upper))
  matches_value (distance c) (BoundValue.point p) =
      at_distance c.operator (distance_between p c.center c.metric) c.radius
  matches_value (polygon c) (BoundValue.point p) = contains_point c.vertices p
  matches_value other value = none

  unfoldable pub matches : List (BoundValue F) → BoundCondition F → Option Bool
  unfolding matches_value
  matches row c = elim (get_elem? row (column_of c).index) [
    | none ↦ none
    | some value ↦ matches_value c value
  ]

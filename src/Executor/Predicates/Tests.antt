-- ===== src/Executor/Predicates/Tests.antt =====
-- A range of integers, searched with the filter of its plan.
use mathlib.Core.Path.{ap₂}
use quipudb.Prelude.{
  ℕ, ◌+◌, ◌*◌, ◌-◌, ◌≡◌, refl, Bool, true, false, Option, none, some, [], ◌∷◌, ltb, arith,
}
use quipudb.Prelude.Int.{ℤ, pos, negsuc}
use quipudb.Parser.Span.{Span}
use quipudb.Parser.Ast.{SqlTypeName, less_than}
use quipudb.Parser.BoundAst.{
  BoundColumnReference, BoundValue, BoundCondition, comparison, column_of,
}
use quipudb.Planner.Plan.{heap, bplus_unclustered}
use quipudb.Planner.Metadata.{TableMetadata, min_by, keep}
use quipudb.Planner.Access.{choose_access, best_index}
use quipudb.Executor.Predicates.{NativeValue, plain, Values, to_native_value, native_range_bounds}
use quipudb.Executor.Predicates.Domains.{int_less, an_int}
use quipudb.Executor.Predicates.Ranges.{IsExact}
use quipudb.Executor.Predicates.Planned.{choose_access-IsExact}

-- Only the integers are compared.
abbrev rank : BoundValue ℕ → Option ℤ
rank (BoundValue.integer n) = some n
rank other = none

abbrev less_rank : Option ℤ → Option ℤ → Bool
less_rank (some a) (some b) = int_less a b
less_rank _ _ = false

abbrev naturals : Values ℕ
naturals = record {
  less = λ a b. less_rank (rank a) (rank b);
  epoch_days = λ d. pos 0;
  plus = λ a b. a + b;
  minus = λ a b. a - b;
  times = λ a b. a * b;
  over = λ a b. 0;
  hypot = λ a b. a + b;
  negate = λ a. 0;
  absolute = λ a. a;
  radians = λ a. a;
  sine = λ a. a;
  cosine = λ a. a;
  arcsine = λ a. a;
  root = λ a. a;
  below = λ a b. ltb a b;
  at_most = λ a b. ltb a (b + 1);
  infinity = 1000;
  one = 1;
  two = 2;
  ninety = 90;
  half_turn = 180;
  tolerance = 0;
  earth_radius = 6371008;
}

abbrev native_rank : NativeValue ℕ → Option ℤ
native_rank (plain b) = rank b
native_rank other = none

native_rank-to_native_value : (a : BoundValue ℕ) → native_rank (to_native_value naturals a) ≡ rank a
native_rank-to_native_value (BoundValue.integer n) = refl
native_rank-to_native_value (BoundValue.double x) = refl
native_rank-to_native_value (BoundValue.string x) = refl
native_rank-to_native_value (BoundValue.boolean x) = refl
native_rank-to_native_value (BoundValue.date x) = refl
native_rank-to_native_value (BoundValue.point x) = refl
native_rank-to_native_value (BoundValue.vector x) = refl

abbrev native_less : NativeValue ℕ → NativeValue ℕ → Bool
native_less x y = less_rank (native_rank x) (native_rank y)

preserved :
    (a b : BoundValue ℕ)
    → native_less (to_native_value naturals a) (to_native_value naturals b) ≡ naturals.less a b
preserved a b = ap₂ less_rank (native_rank-to_native_value a) (native_rank-to_native_value b)

int_less_asymmetric : (a b : ℤ) → int_less a b ≡ true → int_less b a ≡ false
int_less_asymmetric (pos a) (pos b) h = ground arith
int_less_asymmetric (pos a) (negsuc b) h = absurd (cc)
int_less_asymmetric (negsuc a) (pos b) h = refl
int_less_asymmetric (negsuc a) (negsuc b) h = ground arith

less_rank_asymmetric : (p q : Option ℤ) → less_rank p q ≡ true → less_rank q p ≡ false
less_rank_asymmetric none none h = refl
less_rank_asymmetric none (some b) h = refl
less_rank_asymmetric (some a) none h = refl
less_rank_asymmetric (some a) (some b) h = int_less_asymmetric a b h

asymmetric : (a b : BoundValue ℕ) → naturals.less a b ≡ true → naturals.less b a ≡ false
asymmetric a b h = less_rank_asymmetric (rank a) (rank b) h

abbrev here : Span
here = record { start = 0; end = 1; line = 1; column = 1; end_line = 1; end_column = 2 }

abbrev age : BoundColumnReference
age = record {
  index = 1;
  column = record { name = "age"; data_type = SqlTypeName.int; length = none };
  span = here;
}

abbrev under_20 : BoundCondition ℕ
under_20 = comparison (record {
  column = age;
  operator = less_than;
  value = BoundValue.integer (pos 20);
  span = here;
})

abbrev people : TableMetadata
people = record {
  name = "people";
  structure = heap;
  indexes =
      record { name = "by_age"; column = 1; structure = bplus_unclustered; supports_range = true }
      ∷ [];
  rows = none;
}

-- The bound itself is in the range that is searched, and the filter takes it out.
choose_access-IsExact_example :
    IsExact naturals native_less under_20 true (BoundValue.integer (pos 20))
unfolding choose_access best_index min_by keep native_range_bounds column_of
choose_access-IsExact_example =
    choose_access-IsExact naturals native_less preserved asymmetric under_20 1 0 people true
      (BoundValue.integer (pos 20)) refl refl (λ a b. refl) (an_int none (pos 20) (omega arith))

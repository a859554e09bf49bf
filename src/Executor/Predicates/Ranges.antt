-- ===== src/Executor/Predicates/Ranges.antt =====
-- A closed range with a residual filter decides as the comparison or the BETWEEN does.
use mathlib.Core.Path.{ap₂}
use quipudb.Prelude.{
  ◌≡◌, refl, sym, ap, ◌∙◌, Bool, true, false, not, ◌&&◌, ◌||◌, some, if◌then◌else◌,
}
use quipudb.Parser.Ast.{
  ComparisonOperator, equal, less_than, less_than_or_equal, greater_than, greater_than_or_equal,
}
use quipudb.Parser.BoundAst.{
  BoundValue, BoundBetweenCondition, BoundComparisonCondition, BoundCondition, comparison, between,
  column_of,
}
use quipudb.Planner.Access.{is_strict}
use quipudb.Executor.Predicates.Domains.{IsBounded}
use quipudb.Executor.Predicates.{
  NativeValue, Values, Sign, negative, level, positive, compare_values, is_satisfied,
  to_native_value, native_range_bounds, from_bounds, range_values, matches_value,
}

abbrev pub is_equality : ComparisonOperator → Bool
is_equality equal = true
is_equality _ = false

abbrev sign_of : Bool → Bool → Sign
sign_of below above = if below then negative else if above then positive else level

module _ {F : Type 0} (v : Values F) where
  -- The residual filter on a side of the range, for the four operators.
  less_than-side :
      (a b : Bool)
      → (a ≡ true → b ≡ false)
      → (not b && (false || is_satisfied v less_than (sign_of a b)))
        ≡ is_satisfied v less_than (sign_of a b)
  less_than-side true true h = sym (rw (h refl) refl)
  less_than-side true false h = refl
  less_than-side false true h = refl
  less_than-side false false h = refl

  less_than_or_equal-side :
      (a b : Bool)
      → (a ≡ true → b ≡ false)
      → (not b && (true || is_satisfied v less_than_or_equal (sign_of a b)))
        ≡ is_satisfied v less_than_or_equal (sign_of a b)
  less_than_or_equal-side true true h = absurd (true_false (h refl))
    where
      true_false : true ≡ false → ⊥
      true_false e = cc
  less_than_or_equal-side true false h = refl
  less_than_or_equal-side false true h = refl
  less_than_or_equal-side false false h = refl

  greater_than-side :
      (a b : Bool)
      → (a ≡ true → b ≡ false)
      → (not a && (false || is_satisfied v greater_than (sign_of a b)))
        ≡ is_satisfied v greater_than (sign_of a b)
  greater_than-side true b h = refl
  greater_than-side false true h = refl
  greater_than-side false false h = refl

  greater_than_or_equal-side :
      (a b : Bool)
      → (a ≡ true → b ≡ false)
      → (not a && (true || is_satisfied v greater_than_or_equal (sign_of a b)))
        ≡ is_satisfied v greater_than_or_equal (sign_of a b)
  greater_than_or_equal-side true b h = refl
  greater_than_or_equal-side false true h = refl
  greater_than_or_equal-side false false h = refl

  and_true_one : (a : Bool) → (a && true) ≡ a
  and_true_one true = refl
  and_true_one false = refl

  and_true : (a b : Bool) → ((a && true) && b) ≡ (a && b)
  and_true true b = refl
  and_true false b = refl

module _ {F : Type 0} (v : Values F) (native_less : NativeValue F → NativeValue F → Bool) where
  -- The native ranges are closed.
  abbrev pub in_range : NativeValue F × NativeValue F → NativeValue F → Bool
  in_range (lower, upper) x = not (native_less x lower) && not (native_less upper x)

  -- The search by the keys of the condition, and then the residual filter, decide as the predicate.
  pub record IsExact (c : BoundCondition F) (residual : Bool) (value : BoundValue F) : Type 0 where
    pub keys : NativeValue F × NativeValue F
    pub verdict : Bool
    pub searched : range_values v c ≡ some keys
    pub decided : matches_value v c value ≡ some verdict
    pub agrees : (in_range keys (to_native_value v value) && (not residual || verdict)) ≡ verdict

  module _
      (preserved : (a b : BoundValue F)
        → native_less (to_native_value v a) (to_native_value v b) ≡ v.less a b)
      (asymmetric : (a b : BoundValue F) → v.less a b ≡ true → v.less b a ≡ false) where
    searched_comparison :
        (c : BoundComparisonCondition F) (bounds : NativeValue F × NativeValue F)
        → native_range_bounds v c.column.column ≡ some bounds
        → range_values v (comparison c)
          ≡ from_bounds v c.operator (to_native_value v c.value) bounds
    unfolding range_values
    searched_comparison c bounds b = rw (b, range_values) refl

    pub comparison-IsExact :
        (c : BoundComparisonCondition F) (value : BoundValue F) (op : ComparisonOperator)
        → c.operator ≡ op
        → is_equality op ≡ false
        → IsBounded v native_less c.column.column value
        → IsExact (comparison c) (is_strict op) value
    unfolding range_values matches_value column_of
    comparison-IsExact c value equal e n d = absurd (cc)
    comparison-IsExact c value less_than e n ((lower, upper), b, (p, q)) = record {
      keys = (lower, to_native_value v c.value);
      verdict = is_satisfied v less_than (compare_values v value c.value);
      searched =
          searched_comparison c (lower, upper) b
          ∙ ap (λ o. from_bounds v o (to_native_value v c.value) (lower, upper)) e;
      decided = rw e refl;
      agrees =
          rw (p, preserved c.value value)
            (less_than-side v (v.less value c.value) (v.less c.value value)
              (asymmetric value c.value));
    }
    comparison-IsExact c value less_than_or_equal e n ((lower, upper), b, (p, q)) = record {
      keys = (lower, to_native_value v c.value);
      verdict = is_satisfied v less_than_or_equal (compare_values v value c.value);
      searched =
          searched_comparison c (lower, upper) b
          ∙ ap (λ o. from_bounds v o (to_native_value v c.value) (lower, upper)) e;
      decided = rw e refl;
      agrees =
          rw (p, preserved c.value value)
            (less_than_or_equal-side v (v.less value c.value) (v.less c.value value)
              (asymmetric value c.value));
    }
    comparison-IsExact c value greater_than e n ((lower, upper), b, (p, q)) = record {
      keys = (to_native_value v c.value, upper);
      verdict = is_satisfied v greater_than (compare_values v value c.value);
      searched =
          searched_comparison c (lower, upper) b
          ∙ ap (λ o. from_bounds v o (to_native_value v c.value) (lower, upper)) e;
      decided = rw e refl;
      agrees =
          rw (q, preserved value c.value)
            (and_true v (not (v.less value c.value)) _
              ∙ greater_than-side v (v.less value c.value) (v.less c.value value)
                  (asymmetric value c.value));
    }
    comparison-IsExact c value greater_than_or_equal e n ((lower, upper), b, (p, q)) = record {
      keys = (to_native_value v c.value, upper);
      verdict = is_satisfied v greater_than_or_equal (compare_values v value c.value);
      searched =
          searched_comparison c (lower, upper) b
          ∙ ap (λ o. from_bounds v o (to_native_value v c.value) (lower, upper)) e;
      decided = rw e refl;
      agrees =
          rw (q, preserved value c.value)
            (and_true v (not (v.less value c.value)) _
              ∙ greater_than_or_equal-side v (v.less value c.value) (v.less c.value value)
                  (asymmetric value c.value));
    }

    pub between-IsExact :
        (c : BoundBetweenCondition F) (value : BoundValue F) → IsExact (between c) false value
    unfolding range_values matches_value
    between-IsExact c value = record {
      keys = (to_native_value v c.lower, to_native_value v c.upper);
      verdict =
          is_satisfied v greater_than_or_equal (compare_values v value c.lower)
          && is_satisfied v less_than_or_equal (compare_values v value c.upper);
      searched = refl;
      decided = refl;
      agrees =
          rw (preserved value c.lower, preserved c.upper value)
            (and_true_one v (not (v.less value c.lower) && not (v.less c.upper value))
              ∙ ap₂ (λ a b. a && b)
                  (sym (and_true_one v (not (v.less value c.lower)))
                    ∙ greater_than_or_equal-side v (v.less value c.lower) (v.less c.lower value)
                        (asymmetric value c.lower))
                  (sym (and_true_one v (not (v.less c.upper value)))
                    ∙ less_than_or_equal-side v (v.less value c.upper) (v.less c.upper value)
                        (asymmetric value c.upper)));
    }

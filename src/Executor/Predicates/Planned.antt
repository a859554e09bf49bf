-- ===== src/Executor/Predicates/Planned.antt =====
-- A range search with the residual filter that the planner asks for finds what the predicate says.
use mathlib.Core.Path.{subst}
use quipudb.Prelude.{
  ℕ, ◌≡◌, refl, sym, ◌∙◌, Bool, true, false, not, ◌&&◌, Option, none, some, ◌==◌, Bool-cases, inl,
  inr,
}
use quipudb.Parser.Ast.{
  ComparisonOperator, equal, less_than, less_than_or_equal, greater_than, greater_than_or_equal,
}
use quipudb.Parser.BoundAst.{
  BoundValue, BoundComparisonCondition, BoundCondition, comparison, between, distance, polygon,
  matching, similar, column_of,
}
use quipudb.Planner.Metadata.{IndexMetadata, TableMetadata}
use quipudb.Planner.Access.{
  AccessRoute, AccessChoice, scan, vector_scan, vector_knn, text_search, rtree_radius,
  rtree_polygon, value_error, of_index, bare, table_range, index_range, table_search, index_search,
  table_or_index, Planned, ok, err, plan_range, plan_equality, best_index, index_beats_table,
  allow_hash, is_strict, choose_comparison, choose_condition, choose_access, best_text_index,
  best_spatial_index, best_of_kind, kind_structure,
}
use quipudb.Executor.Predicates.{NativeValue, Values, to_native_value}
use quipudb.Executor.Predicates.Domains.{IsBounded, InColumn, IsOrdered, InColumn-IsBounded}
use quipudb.Executor.Predicates.Ranges.{is_equality, IsExact, comparison-IsExact, between-IsExact}

abbrev pub is_ranged : AccessRoute → Bool
is_ranged table_range = true
is_ranged index_range = true
is_ranged _ = false

range_choice-residual :
    (strict by_table : Bool) (index : Option IndexMetadata)
    → is_ranged (table_or_index table_range index_range strict by_table index).route ≡ true
    → (table_or_index table_range index_range strict by_table index).residual_filter ≡ strict
range_choice-residual strict true index h = refl
range_choice-residual strict false none h = absurd (cc)
range_choice-residual strict false (some i) h = refl

search_choice-unranged :
    (by_table : Bool) (index : Option IndexMetadata)
    → is_ranged (table_or_index table_search index_search false by_table index).route ≡ false
search_choice-unranged true index = refl
search_choice-unranged false none = refl
search_choice-unranged false (some i) = refl

module _ {F : Type 0} (v : Values F) (native_less : NativeValue F → NativeValue F → Bool) where
  module _
      (preserved : (a b : BoundValue F)
        → native_less (to_native_value v a) (to_native_value v b) ≡ v.less a b)
      (asymmetric : (a b : BoundValue F) → v.less a b ≡ true → v.less b a ≡ false) where
    -- What is to be shown of a planned choice.
    abbrev ExactIfRanged : BoundCondition F → BoundValue F → Planned AccessChoice → Type 0
    ExactIfRanged c value (err e) = Unit {0}
    ExactIfRanged c value (ok choice) =
        is_ranged choice.route ≡ true → IsExact v native_less c choice.residual_filter value

    unranged :
        (c : BoundCondition F) (value : BoundValue F) (choice : AccessChoice)
        → is_ranged choice.route ≡ false
        → ExactIfRanged c value (ok choice)
    unranged c value choice n h = absurd (true_false (sym h ∙ n))
      where
        true_false : true ≡ false → ⊥
        true_false e = cc

    ranged :
        (c : BoundCondition F) (value : BoundValue F) (t : TableMetadata) (column : ℕ)
        (by_key strict : Bool)
        → IsExact v native_less c strict value
        → ExactIfRanged c value (ok (plan_range t column by_key strict))
    unfolding plan_range
    ranged c value t column by_key strict x h =
        subst (λ r. IsExact v native_less c r value)
          (sym (
            range_choice-residual strict
              (by_key && not (index_beats_table t (best_index t column true true)))
              (best_index t column true true) h))
          x

    equality-chosen :
        (c : BoundComparisonCondition F) (t : TableMetadata) (column : ℕ) (by_key : Bool)
        → c.operator ≡ equal
        → choose_comparison c column by_key t ≡ plan_equality c t column by_key
    unfolding choose_comparison allow_hash
    equality-chosen c t column by_key e = rw (e, choose_comparison) refl

    range-chosen :
        (c : BoundComparisonCondition F) (t : TableMetadata) (column : ℕ) (by_key : Bool)
        (op : ComparisonOperator)
        → c.operator ≡ op
        → is_equality op ≡ false
        → choose_comparison c column by_key t ≡ plan_range t column by_key (is_strict op)
    unfolding choose_comparison
    range-chosen c t column by_key equal e n = absurd (cc)
    range-chosen c t column by_key less_than e n = rw (e, choose_comparison) refl
    range-chosen c t column by_key less_than_or_equal e n = rw (e, choose_comparison) refl
    range-chosen c t column by_key greater_than e n = rw (e, choose_comparison) refl
    range-chosen c t column by_key greater_than_or_equal e n = rw (e, choose_comparison) refl

    plan_equality-unranged :
        (c : BoundComparisonCondition F) (t : TableMetadata) (column : ℕ) (by_key : Bool)
        → is_ranged (plan_equality c t column by_key).route ≡ false
    unfolding plan_equality
    plan_equality-unranged c t column by_key =
        search_choice-unranged
          (by_key && not (index_beats_table t (best_index t column false (allow_hash c))))
          (best_index t column false (allow_hash c))

    comparison-ExactIfRanged :
        (c : BoundComparisonCondition F) (value : BoundValue F) (t : TableMetadata) (column : ℕ)
        (by_key : Bool)
        → IsBounded v native_less c.column.column value
        → ExactIfRanged (comparison c) value (ok (choose_comparison c column by_key t))
    comparison-ExactIfRanged c value t column by_key d =
        elim (Bool-cases (is_equality c.operator)) [
          | inl h ↦
              subst (λ x. ExactIfRanged (comparison c) value (ok x))
                (sym (equality-chosen c t column by_key (equality_only c.operator h)))
                (unranged (comparison c) value (plan_equality c t column by_key)
                  (plan_equality-unranged c t column by_key))
          | inr h ↦
              subst (λ x. ExactIfRanged (comparison c) value (ok x))
                (sym (range-chosen c t column by_key c.operator refl h))
                (ranged (comparison c) value t column by_key (is_strict c.operator) (
                  comparison-IsExact v native_less preserved asymmetric c value c.operator refl h
                    d))
        ]
      where
        equality_only : (op : ComparisonOperator) → is_equality op ≡ true → op ≡ equal
        equality_only equal e = refl
        equality_only less_than e = absurd (cc)
        equality_only less_than_or_equal e = absurd (cc)
        equality_only greater_than e = absurd (cc)
        equality_only greater_than_or_equal e = absurd (cc)

    choose_access-ExactIfRanged :
        (c : BoundCondition F) (column key_column : ℕ) (t : TableMetadata) (allowed : Bool)
        (value : BoundValue F)
        → IsBounded v native_less (column_of c).column value
        → ExactIfRanged c value (choose_access (some c) column key_column t allowed)
    unfolding choose_access choose_condition column_of
    choose_access-ExactIfRanged (comparison c) column key t allowed value d =
        comparison-ExactIfRanged c value t column (column == key && allowed) d
    choose_access-ExactIfRanged (between c) column key t allowed value d =
        ranged (between c) value t column (column == key && allowed) false
          (between-IsExact v native_less preserved asymmetric c value)
    choose_access-ExactIfRanged (matching c) column key t allowed value d =
        go (best_text_index t column)
      where
        go :
            (i : Option IndexMetadata)
            → ExactIfRanged
                (matching c)
                value
                (elim i [ none ↦ err value_error | some j ↦ ok (of_index text_search false j) ])
        go none = tt
        go (some j) = unranged (matching c) value (of_index text_search false j) refl
    choose_access-ExactIfRanged (polygon c) column key t allowed value d =
        go (best_spatial_index t column)
      where
        go :
            (i : Option IndexMetadata)
            → ExactIfRanged
                (polygon c)
                value
                (ok (elim i [ none ↦ bare scan true | some j ↦ of_index rtree_polygon false j ]))
        go none = unranged (polygon c) value (bare scan true) refl
        go (some j) = unranged (polygon c) value (of_index rtree_polygon false j) refl
    choose_access-ExactIfRanged (distance c) column key t allowed value d =
        go (best_spatial_index t column) (elim c.operator [ less_than ↦ true | _ ↦ false ])
      where
        go :
            (i : Option IndexMetadata) (r : Bool)
            → ExactIfRanged
                (distance c)
                value
                (ok (elim i [ none ↦ bare scan true | some j ↦ of_index rtree_radius r j ]))
        go none r = unranged (distance c) value (bare scan true) refl
        go (some j) r = unranged (distance c) value (of_index rtree_radius r j) refl
    choose_access-ExactIfRanged (similar c) column key t allowed value d =
        go (best_of_kind (kind_structure c.kind) t column)
      where
        go :
            (i : Option IndexMetadata)
            → ExactIfRanged (similar c) value (
                ok
                  (elim i [ none ↦ bare vector_scan false | some j ↦ of_index vector_knn false j ]))
        go none = unranged (similar c) value (bare vector_scan false) refl
        go (some j) = unranged (similar c) value (of_index vector_knn false j) refl

    -- If the planner answers a condition by a range, of the table or of an index, then for every
    -- value that the column can hold the inclusive range with the residual filter that the plan
    -- asks for decides as the predicate in memory does. It holds where the native order of the
    -- column's type is the documented one and agrees with the order of Python's values.
    pub choose_access-IsExact :
        (c : BoundCondition F) (column key_column : ℕ) (t : TableMetadata) (allowed : Bool)
        {choice : AccessChoice} (value : BoundValue F)
        → choose_access (some c) column key_column t allowed ≡ ok choice
        → is_ranged choice.route ≡ true
        → IsOrdered v native_less (column_of c).column.data_type
        → InColumn v (column_of c).column.data_type (column_of c).column.length value
        → IsExact v native_less c choice.residual_filter value
    choose_access-IsExact c column key t allowed value e h o d =
        subst (ExactIfRanged c value) e
          (choose_access-ExactIfRanged c column key t allowed value
            (InColumn-IsBounded v native_less (column_of c).column value o d))
          h

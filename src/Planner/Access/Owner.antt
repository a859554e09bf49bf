-- ===== src/Planner/Access/Owner.antt =====
-- `_choose_access` against the checks that the plan makes on the leaf that owns the predicate.
use quipudb.Prelude.{
  ℕ, ◌≡◌, refl, Bool, true, false, not, Option, none, some, ◌==◌, ◌&&◌, ◌||◌, arith,
}
use quipudb.Parser.Ast.{
  ComparisonOperator, equal, less_than, less_than_or_equal, greater_than, greater_than_or_equal,
}
use quipudb.Parser.BoundAst.{
  BoundComparisonCondition, BoundCondition, comparison, between, distance, polygon, matching,
  similar,
}
use quipudb.Planner.Metadata.{is_among, IndexMetadata, TableMetadata, same}
use quipudb.Planner.Access.{
  AccessRoute, AccessChoice, scan, vector_scan, vector_knn, table_search, table_range, index_search,
  index_range, table_or_index, of_index, bare, ok, is_kind, best_index, best_of_kind,
  best_text_index, best_spatial_index, index_beats_table, plan_range, plan_equality,
  choose_comparison, choose_condition, choose_access, kind_structure, allow_hash, text_search,
  rtree_radius, rtree_polygon,
}
use quipudb.Planner.Access.Routes.{best_of_kind-usable}
use quipudb.Planner.Physical.{is_some, is_vector, is_by_key, is_similar, respects_using}

module _ {F : Type 0} where
  -- The checks of `_validate_source` on a choice.
  unfoldable pub choice_respects : BoundCondition F → Bool → AccessChoice → Bool
  choice_respects c on_key choice =
      same (is_similar c) (is_vector choice.route)
      && not (
          is_vector choice.route && (choice.residual_filter || not (respects_using c choice.index)))
      && not (is_by_key choice.route && not on_key)

-- A route of the table or of an index is not one of vectors, and is the table's only by the key.
abbrev is_keyed : Bool → AccessRoute → Bool
is_keyed on_key route = not (is_vector route) && not (is_by_key route && not on_key)

table_or_index_keyed :
    (table_route index_route : AccessRoute) (strict by_table on_key : Bool)
    (index : Option IndexMetadata)
    → is_vector table_route ≡ false
    → is_keyed on_key index_route ≡ true
    → (by_table ≡ true → on_key ≡ true)
    → is_keyed on_key (table_or_index table_route index_route strict by_table index).route ≡ true
table_or_index_keyed tr ir strict true k index v q h = ground (arith, h refl)
table_or_index_keyed tr ir strict false k none v q h = refl
table_or_index_keyed tr ir strict false k (some i) v q h = q

plan_range_keyed :
    (t : TableMetadata) (column : ℕ) (by_key strict on_key : Bool)
    → (by_key ≡ true → on_key ≡ true)
    → is_keyed on_key (plan_range t column by_key strict).route ≡ true
unfolding plan_range
plan_range_keyed t column by_key strict k h =
    table_or_index_keyed table_range index_range strict
      (by_key && not (index_beats_table t (best_index t column true true))) k
      (best_index t column true true) refl (ground arith) (λ e. h (ground arith))

module _ {F : Type 0} where
  plan_equality_keyed :
      (c : BoundComparisonCondition F) (t : TableMetadata) (column : ℕ) (by_key on_key : Bool)
      → (by_key ≡ true → on_key ≡ true)
      → is_keyed on_key (plan_equality c t column by_key).route ≡ true
  unfolding plan_equality
  plan_equality_keyed c t column by_key k h =
      table_or_index_keyed table_search index_search false
        (by_key && not (index_beats_table t (best_index t column false (allow_hash c)))) k
        (best_index t column false (allow_hash c)) refl (ground arith) (λ e. h (ground arith))

  choose_comparison_keyed :
      (c : BoundComparisonCondition F) (t : TableMetadata) (column : ℕ) (by_key on_key : Bool)
      → (by_key ≡ true → on_key ≡ true)
      → is_keyed on_key (choose_comparison c column by_key t).route ≡ true
  unfolding choose_comparison
  choose_comparison_keyed c t column by_key k h = split c.operator refl
    where
      split :
          (o : ComparisonOperator)
          → c.operator ≡ o
          → is_keyed k (choose_comparison c column by_key t).route ≡ true
      split equal e = rw (e, choose_comparison) (plan_equality_keyed c t column by_key k h)
      split less_than e = rw (e, choose_comparison) (plan_range_keyed t column by_key true k h)
      split less_than_or_equal e =
          rw (e, choose_comparison) (plan_range_keyed t column by_key false k h)
      split greater_than e = rw (e, choose_comparison) (plan_range_keyed t column by_key true k h)
      split greater_than_or_equal e =
          rw (e, choose_comparison) (plan_range_keyed t column by_key false k h)

  -- MATCH has its text index; nothing else is refused.
  unfoldable pub can_answer : BoundCondition F → TableMetadata → ℕ → Bool
  can_answer (matching c) t column = is_some (best_text_index t column)
  can_answer _ t column = true

  -- The route that is chosen, with its checks.
  pub record Chosen (c : BoundCondition F) (column key_column : ℕ) (t : TableMetadata)
      (allowed : Bool) : Type 0 where
    pub choice : AccessChoice
    pub chosen : choose_access (some c) column key_column t allowed ≡ ok choice
    pub respects : choice_respects c (column == key_column) choice ≡ true
    pub permitted : (is_by_key choice.route && not allowed) ≡ false

  pub choose_access-Chosen :
      (c : BoundCondition F) (column key_column : ℕ) (t : TableMetadata) (allowed : Bool)
      → can_answer c t column ≡ true
      → Chosen c column key_column t allowed
  unfolding choose_access choice_respects can_answer
  choose_access-Chosen (comparison c) column key t allowed a = record {
    choice = choose_comparison c column (column == key && allowed) t;
    chosen = refl;
    respects = ground (
      arith,
      choose_comparison_keyed c t column (column == key && allowed) (column == key)
          (λ h. ground arith),
    );
    permitted = ground (
      arith,
      choose_comparison_keyed c t column (column == key && allowed) allowed (λ h. ground arith),
    );
  }
  choose_access-Chosen (between c) column key t allowed a = record {
    choice = plan_range t column (column == key && allowed) false;
    chosen = refl;
    respects = ground (
      arith,
      plan_range_keyed t column (column == key && allowed) false (column == key)
          (λ h. ground arith),
    );
    permitted = ground (
      arith,
      plan_range_keyed t column (column == key && allowed) false allowed (λ h. ground arith),
    );
  }
  choose_access-Chosen (distance c) column key t allowed a = record {
    choice = (elim (best_spatial_index t column) [
      | none ↦ bare scan true
      | some i ↦ of_index rtree_radius (elim c.operator [ less_than ↦ true | _ ↦ false ]) i
    ]);
    chosen = refl;
    respects = ground arith;
    permitted = ground arith;
  }
  choose_access-Chosen (polygon c) column key t allowed a = record {
    choice = (elim (best_spatial_index t column) [
      | none ↦ bare scan true
      | some i ↦ of_index rtree_polygon false i
    ]);
    chosen = refl;
    respects = ground arith;
    permitted = ground arith;
  }
  choose_access-Chosen (matching c) column key t allowed a = text (best_text_index t column) refl
    where
      text :
          (index : Option IndexMetadata)
          → best_text_index t column ≡ index
          → Chosen (matching c) column key t allowed
      text none e = cc
      text (some i) e = record {
        choice = of_index text_search false i;
        chosen = rw (e, choose_access, choose_condition);
        respects = refl;
        permitted = refl;
      }
  choose_access-Chosen (similar c) column key t allowed a =
      vector (best_of_kind (kind_structure c.kind) t column) refl
        (best_of_kind-usable (kind_structure c.kind) t column)
    where
      vector :
          (index : Option IndexMetadata)
          → best_of_kind (kind_structure c.kind) t column ≡ index
          → ((i : IndexMetadata)
              → best_of_kind (kind_structure c.kind) t column ≡ some i
              → (is_kind (kind_structure c.kind) column i ≡ true) × (is_among i t.indexes ≡ true))
          → Chosen (similar c) column key t allowed
      vector none e u = record {
        choice = bare vector_scan false;
        chosen = rw (e, choose_access, choose_condition);
        respects = refl;
        permitted = refl;
      }
      vector (some i) e u = record {
        choice = of_index vector_knn false i;
        chosen = rw (e, choose_access, choose_condition);
        respects = let (p, m) = u i e in unfold is_kind in ground arith;
        permitted = refl;
      }

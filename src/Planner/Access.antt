-- ===== src/Planner/Access.antt =====
-- engine/planner/optimizer.py: the access route of one table, `_choose_access` and what it calls.
pub mod Candidates
pub mod Routes
pub mod Owner
use Prim.Native.Nat.{zero}
use Prim.Native.Char.{code}
use Prim.Native.String as String'
use Prim.Native.String.{len}
use quipudb.Prelude.{
  ℕ, String, Bool, true, false, not, ◌&&◌, ◌||◌, Option, none, some, List, [], ◌∷◌, str_eq, ◌==◌,
  ltb, if◌then◌else◌,
}
use quipudb.Parser.Ast.{
  IndexKind, ComparisonOperator, equal, less_than, less_than_or_equal, greater_than,
  greater_than_or_equal,
}
use quipudb.Parser.BoundAst.{
  BoundValue, BoundColumnReference, BoundComparisonCondition, BoundCondition, comparison, between,
  distance, polygon, matching, similar,
}
use quipudb.Planner.Plan.{
  Structure, heap, bplus_unclustered, extendible_hash, rtree, inverted_index, ivf, hnsw,
}
use quipudb.Planner.Metadata.{IndexMetadata, TableMetadata, is_structure, text_lt, min_by, keep}

pub data AccessRoute : Type 0 where
  scan table_search table_range index_search index_range rtree_radius rtree_knn : AccessRoute
  rtree_polygon text_search vector_knn vector_scan : AccessRoute

pub record AccessChoice : Type 0 where
  pub route : AccessRoute
  pub index : Option IndexMetadata
  pub residual_filter : Bool

-- The exceptions of the planner.
pub data PlanError : Type 0 where
  value_error type_error assertion_error : PlanError

pub data Planned {ℓ} (A : Type ℓ) : Type ℓ where
  ok : A → Planned A
  err : PlanError → Planned A

pub is_exact : ℕ → IndexMetadata → Bool
is_exact column i =
    i.column == column
    && (is_structure i.structure bplus_unclustered || is_structure i.structure extendible_hash)

-- `ranking[index.structure]`, of a B+ tree or a hash index.
rank : Bool → Structure → ℕ
rank true s = 0
rank false s = if is_structure s extendible_hash then 0 else 1

-- The order of the keys `(ranking[index.structure], index.name)`.
key_lt : Bool → IndexMetadata → IndexMetadata → Bool
unfolding rank
key_lt for_range a b =
    ltb (rank for_range a.structure) (rank for_range b.structure)
    || (rank for_range a.structure == rank for_range b.structure && text_lt a.name b.name)

name_lt : IndexMetadata → IndexMetadata → Bool
name_lt a b = text_lt a.name b.name

-- The candidates that `_best_index` ranks.
best_candidates : TableMetadata → ℕ → Bool → Bool → List IndexMetadata
unfolding is_exact
best_candidates table column for_range allow_hash =
    let candidates = keep (is_exact column) table.indexes in
    if for_range
    then keep (λ i. i.supports_range) candidates
    else if allow_hash
    then candidates
    else keep (λ i. not (is_structure i.structure extendible_hash)) candidates

unfoldable pub best_index : TableMetadata → ℕ → Bool → Bool → Option IndexMetadata
unfolding best_candidates key_lt
best_index table column for_range allow_hash =
    min_by (key_lt for_range) (best_candidates table column for_range allow_hash)

unfoldable pub is_kind : Structure → ℕ → IndexMetadata → Bool
is_kind s column i = i.column == column && is_structure i.structure s

-- `_best_text_index`, `_best_spatial_index` and the choice of a vector index: the least name.
unfoldable pub best_of_kind : Structure → TableMetadata → ℕ → Option IndexMetadata
unfolding is_kind name_lt
best_of_kind s table column = min_by name_lt (keep (is_kind s column) table.indexes)

unfoldable pub best_text_index : TableMetadata → ℕ → Option IndexMetadata
unfolding best_of_kind
best_text_index = best_of_kind inverted_index

unfoldable pub best_spatial_index : TableMetadata → ℕ → Option IndexMetadata
unfolding best_of_kind
best_spatial_index = best_of_kind rtree

unfoldable pub index_beats_table : TableMetadata → Option IndexMetadata → Bool
index_beats_table table none = false
index_beats_table table (some i) = is_structure table.structure heap

-- `"\0" in value`.
has_nul : String → Bool
has_nul String'.[] = false
has_nul (String'.◌∷◌ c s) = code c == 0 || has_nul s

exceeds : ℕ → Option ℕ → Bool
exceeds n none = false
exceeds n (some length) = ltb length n

module _ {F : Type 0} where
  -- A hash index holds no key with a NUL or longer than its column.
  unfoldable pub allow_hash : BoundComparisonCondition F → Bool
  unfolding has_nul exceeds
  allow_hash c = elim c.value [
    | BoundValue.string text ↦ not (has_nul text || exceeds (len text) c.column.column.length)
    | _ ↦ true
  ]

abbrev pub of_index : AccessRoute → Bool → IndexMetadata → AccessChoice
of_index route residual i = record { route = route; index = some i; residual_filter = residual }

abbrev pub bare : AccessRoute → Bool → AccessChoice
bare route residual = record { route = route; index = none; residual_filter = residual }

-- The end of `_plan_equality` and `_plan_range`: the table's own search, the index, or a scan.
abbrev pub table_or_index :
    AccessRoute → AccessRoute → Bool → Bool → Option IndexMetadata → AccessChoice
table_or_index table_route index_route strict by_table index =
    if by_table
    then bare table_route strict
    else elim index [ some i ↦ of_index index_route strict i | none ↦ bare scan true ]

unfoldable pub plan_range : TableMetadata → ℕ → Bool → Bool → AccessChoice
plan_range table column use_primary_table strict =
    let index = best_index table column true true in
    table_or_index table_range index_range strict
      (use_primary_table && not (index_beats_table table index)) index

abbrev pub kind_structure : IndexKind → Structure
kind_structure IndexKind.bplus_unclustered = bplus_unclustered
kind_structure IndexKind.extendible_hash = extendible_hash
kind_structure IndexKind.rtree = rtree
kind_structure IndexKind.inverted_index = inverted_index
kind_structure IndexKind.ivf = ivf
kind_structure IndexKind.hnsw = hnsw

abbrev pub is_strict : ComparisonOperator → Bool
is_strict less_than = true
is_strict greater_than = true
is_strict _ = false

module _ {F : Type 0} where
  unfoldable pub plan_equality :
      BoundComparisonCondition F → TableMetadata → ℕ → Bool → AccessChoice
  plan_equality c table column use_primary_table =
      let index = best_index table column false (allow_hash c) in
      table_or_index table_search index_search false
        (use_primary_table && not (index_beats_table table index)) index

  unfoldable pub choose_comparison :
      BoundComparisonCondition F → ℕ → Bool → TableMetadata → AccessChoice
  unfolding plan_equality plan_range
  choose_comparison c column by_key table = elim c.operator [
    | equal ↦ plan_equality c table column by_key
    | less_than ↦ plan_range table column by_key true
    | less_than_or_equal ↦ plan_range table column by_key false
    | greater_than ↦ plan_range table column by_key true
    | greater_than_or_equal ↦ plan_range table column by_key false
  ]

  unfoldable pub choose_condition :
      BoundCondition F → ℕ → Bool → TableMetadata → Planned AccessChoice
  unfolding plan_range choose_comparison
  choose_condition (similar c) column by_key table =
      ok (elim (best_of_kind (kind_structure c.kind) table column) [
        | none ↦ bare vector_scan false
        | some i ↦ of_index vector_knn false i
      ])
  choose_condition (matching c) column by_key table = elim (best_text_index table column) [
    | none ↦ err value_error
    | some i ↦ ok (of_index text_search false i)
  ]
  choose_condition (polygon c) column by_key table = ok (elim (best_spatial_index table column) [
    | none ↦ bare scan true
    | some i ↦ of_index rtree_polygon false i
  ])
  choose_condition (distance c) column by_key table = ok (elim (best_spatial_index table column) [
    | none ↦ bare scan true
    | some i ↦ of_index rtree_radius (elim c.operator [ less_than ↦ true | _ ↦ false ]) i
  ])
  choose_condition (between c) column by_key table = ok (plan_range table column by_key false)
  choose_condition (comparison c) column by_key table = ok (choose_comparison c column by_key table)

  unfoldable pub choose_access :
      Option (BoundCondition F) → ℕ → ℕ → TableMetadata → Bool → Planned AccessChoice
  unfolding choose_condition
  choose_access none column key_column table primary_table_allowed = ok (bare scan false)
  choose_access (some c) column key_column table primary_table_allowed =
      choose_condition c column (column == key_column && primary_table_allowed) table

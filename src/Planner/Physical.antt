-- ===== src/Planner/Physical.antt =====
-- engine/planner/optimizer.py: the physical plan, and the checks of each node's `__post_init__`,
-- whose `false` is a ValueError.
use quipudb.Prelude.{
  ℕ, ◌+◌, ◌-◌, Bool, true, false, not, ◌&&◌, ◌||◌, Option, none, some, List, [], ◌∷◌, ◌++◌, length,
  str_eq, ◌==◌, leb, ltb, if◌then◌else◌,
}
use quipudb.Parser.Ast.{OrderDirection, asc, desc}
use quipudb.Parser.BoundAst.{
  BoundDistanceOrderBy, BoundCondition, similar, column_of, BoundSource, BoundTableRef, table, join,
  schema_of, BoundSelectStatement, BoundDeleteStatement,
}
use quipudb.Planner.Plan.{Structure, rtree, inverted_index, ivf, hnsw}
use quipudb.Planner.Metadata.{IndexMetadata, TableMetadata, is_structure, is_among, same}
use quipudb.Planner.Access.{
  AccessRoute, scan, table_search, table_range, index_search, index_range, rtree_radius, rtree_knn,
  rtree_polygon, text_search, vector_knn, vector_scan, kind_structure,
}

pub data JoinStrategy : Type 0 where
  auto hash : JoinStrategy

pub data GroupStrategy : Type 0 where
  auto hash : GroupStrategy

abbrev pub is_some {ℓ} : {A : Type ℓ} → Option A → Bool
is_some none = false
is_some (some a) = true

abbrev pub uses_index : AccessRoute → Bool
uses_index index_search = true
uses_index index_range = true
uses_index rtree_radius = true
uses_index rtree_knn = true
uses_index rtree_polygon = true
uses_index text_search = true
uses_index vector_knn = true
uses_index _ = false

abbrev pub is_knn : AccessRoute → Bool
is_knn rtree_knn = true
is_knn _ = false

abbrev pub is_text : AccessRoute → Bool
is_text text_search = true
is_text _ = false

abbrev pub is_range : AccessRoute → Bool
is_range index_range = true
is_range _ = false

abbrev pub is_vector_knn : AccessRoute → Bool
is_vector_knn vector_knn = true
is_vector_knn _ = false

abbrev pub is_scan : AccessRoute → Bool
is_scan scan = true
is_scan _ = false

abbrev pub is_vector : AccessRoute → Bool
is_vector vector_knn = true
is_vector vector_scan = true
is_vector _ = false

abbrev pub is_spatial : AccessRoute → Bool
is_spatial rtree_radius = true
is_spatial rtree_knn = true
is_spatial rtree_polygon = true
is_spatial _ = false

abbrev pub is_by_key : AccessRoute → Bool
is_by_key table_search = true
is_by_key table_range = true
is_by_key _ = false

abbrev pub is_asc : OrderDirection → Bool
is_asc asc = true
is_asc desc = false

abbrev pub is_vector_structure : Structure → Bool
is_vector_structure ivf = true
is_vector_structure hnsw = true
is_vector_structure _ = false

pub record PhysicalTableAccess (F : Type 0) : Type 0 where
  pub table : TableMetadata
  pub route : AccessRoute
  pub index : Option IndexMetadata
  pub residual_filter : Bool
  pub nearest : Option (BoundDistanceOrderBy F)
  pub nearest_limit : Option ℕ
  pub text_limit : Option ℕ

-- The checks from `if self.index not in self.table.indexes` up to the kinds of index, which are
-- those of the route.
abbrev pub fits_route : AccessRoute → TableMetadata → IndexMetadata → Bool
fits_route route t i =
    is_among i t.indexes
    && not (is_range route && not i.supports_range)
    && same (is_vector_knn route) (is_vector_structure i.structure)
    && (if is_spatial route
        then is_structure i.structure rtree
        else not (is_structure i.structure rtree)
          && same (is_text route) (is_structure i.structure inverted_index))

module _ {F : Type 0} where
  abbrev pub nearest_fits : AccessRoute → Bool → Option (BoundDistanceOrderBy F) → Option ℕ → Bool
  nearest_fits route residual (some order) (some limit) =
      is_knn route && is_asc order.direction && not residual
  nearest_fits route residual none none = not (is_knn route)
  nearest_fits route residual _ _ = false

  abbrev pub nearest_column : Option (BoundDistanceOrderBy F) → IndexMetadata → Bool
  nearest_column none i = true
  nearest_column (some order) i = i.column == order.column.index

  unfoldable pub is_access : PhysicalTableAccess F → Bool
  is_access a =
      not (is_some a.text_limit && not (is_text a.route))
      && not (is_text a.route && a.residual_filter)
      && nearest_fits a.route a.residual_filter a.nearest a.nearest_limit
      && same (uses_index a.route) (is_some a.index)
      && (elim a.index [
        | none ↦ true
        | some i ↦ fits_route a.route a.table i && nearest_column a.nearest i
      ])

pub record PhysicalJoin : Type 0 where
  pub left_column : ℕ
  pub right_column : ℕ
  pub strategy : JoinStrategy
  pub probe : Option IndexMetadata
  pub probe_on_primary_key : Bool
  pub residual_filter : Bool

abbrev pub asks_auto : JoinStrategy → Bool
asks_auto JoinStrategy.auto = true
asks_auto JoinStrategy.hash = false

unfoldable pub is_join : PhysicalJoin → Bool
is_join j =
    same (asks_auto j.strategy) (is_some j.probe || j.probe_on_primary_key)
    && not (is_some j.probe && j.probe_on_primary_key)

-- `PhysicalSource`: a leaf, or a join over its two sides.
pub data PhysicalSource (F : Type 0) : Type 0 where
  leaf : PhysicalTableAccess F → PhysicalSource F
  joined : PhysicalSource F → PhysicalSource F → PhysicalJoin → PhysicalSource F

pub record PhysicalSelectPlan (F : Type 0) : Type 0 where
  pub statement : BoundSelectStatement F
  pub source : PhysicalSource F
  pub external_sort : Bool
  pub group_strategy : Option GroupStrategy

pub record PhysicalDeletePlan (F : Type 0) : Type 0 where
  pub statement : BoundDeleteStatement F
  pub table : TableMetadata
  pub route : AccessRoute
  pub index : Option IndexMetadata
  pub residual_filter : Bool

-- `_leaves`: the tables of a source from left to right, with the position of their first column.
unfoldable pub leaves : BoundSource → ℕ → List (BoundTableRef × ℕ)
leaves (table t) offset = (t, offset) ∷ []
leaves (join l r lc rc s span) offset =
    leaves l offset ++ leaves r (offset + length (schema_of l).columns)

-- `_leaf_of`. A leaf is an object, and is named by its place among the leaves.
unfoldable pub leaf_at : ℕ → ℕ → List (BoundTableRef × ℕ) → Option ℕ
leaf_at target i [] = none
leaf_at target i ((t, start) ∷ rest) =
    if leb start target && ltb target (start + length t.schema.columns)
    then some i
    else leaf_at target (i + 1) rest

abbrev pub at_column : Option IndexMetadata → ℕ → Bool
at_column none column = true
at_column (some i) column = i.column == column

abbrev pub one_table : BoundSource → Bool
one_table (table t) = true
one_table _ = false

abbrev pub is_none {ℓ} : {A : Type ℓ} → Option A → Bool
is_none none = true
is_none (some a) = false

abbrev pub is_owner : Option ℕ → ℕ → Bool
is_owner none i = false
is_owner (some k) i = k == i

module _ {F : Type 0} where
  unfoldable pub leaf_of : BoundSource → Option (BoundCondition F) → Option ℕ
  unfolding leaf_at leaves
  leaf_of source none = none
  leaf_of source (some c) = leaf_at (column_of c).index 0 (leaves source 0)

  unfoldable pub physical_leaves : PhysicalSource F → List (PhysicalTableAccess F)
  physical_leaves (leaf a) = a ∷ []
  physical_leaves (joined l r j) = physical_leaves l ++ physical_leaves r

  -- The checks of `_validate_source` on the leaf that owns the predicate.
  abbrev pub is_similar : BoundCondition F → Bool
  is_similar (similar c) = true
  is_similar _ = false

  abbrev pub respects_using : BoundCondition F → Option IndexMetadata → Bool
  respects_using (similar c) (some i) = is_structure i.structure (kind_structure c.kind)
  respects_using _ _ = true

  unfoldable pub owner_fits : PhysicalTableAccess F → BoundTableRef → ℕ → BoundCondition F → Bool
  unfolding column_of
  owner_fits a t offset c =
      let column = (column_of c).index - offset in
      same (is_similar c) (is_vector a.route)
      && not (is_vector a.route && (a.residual_filter || not (respects_using c a.index)))
      && at_column a.index column
      && not (is_by_key a.route && not (column == t.schema.key_column))

  unfoldable pub leaf_fits :
      BoundSource
      → Option (BoundCondition F)
      → Option ℕ
      → ℕ
      → PhysicalTableAccess F
      → BoundTableRef
      → ℕ
      → Bool
  unfolding owner_fits
  leaf_fits bound none owner i a t offset =
      if is_knn a.route then one_table bound else not (is_some a.index) && is_scan a.route
  leaf_fits bound (some c) owner i a t offset =
      if is_knn a.route
      then false
      else if is_owner owner i
      then owner_fits a t offset c
      else not (is_some a.index) && is_scan a.route

  unfoldable pub all_fit :
      BoundSource
      → Option (BoundCondition F)
      → Option ℕ
      → ℕ
      → List (PhysicalTableAccess F)
      → List (BoundTableRef × ℕ)
      → Bool
  unfolding leaf_fits
  all_fit bound condition owner i [] [] = true
  all_fit bound condition owner i (a ∷ as') ((t, offset) ∷ ts) =
      str_eq a.table.name t.schema.table_name
      && leaf_fits bound condition owner i a t offset
      && all_fit bound condition owner (i + 1) as' ts
  all_fit bound condition owner i _ _ = false

  -- `_validate_source`: the same tables in the same order, and each leaf as its predicate allows.
  unfoldable pub is_source : PhysicalSource F → BoundSource → Option (BoundCondition F) → Bool
  unfolding all_fit leaf_of physical_leaves
  is_source source bound condition =
      all_fit bound condition (leaf_of bound condition) 0 (physical_leaves source) (leaves bound 0)

-- ===== src/Planner/Select.antt =====
-- engine/planner/optimizer.py: `optimize_select`.
pub mod Total
use quipudb.Prelude.{ℕ, Bool, true, false, not, ◌&&◌, ◌||◌, Option, none, some, ◌==◌, if◌then◌else◌}
use quipudb.Prelude.Dict.{Dict}
use quipudb.Parser.BoundAst.{BoundDistanceOrderBy, BoundOrdering, by_distance, BoundSelectStatement}
use quipudb.Planner.Metadata.{TableMetadata, same}
use quipudb.Planner.Access.{rtree_knn, Planned, ok, best_spatial_index}
use quipudb.Planner.Physical.{
  GroupStrategy, is_some, is_none, is_asc, is_text, PhysicalTableAccess, PhysicalSource, leaf,
  joined, PhysicalSelectPlan, leaf_of, is_source, one_table,
}
use quipudb.Planner.Source.{◌>>=◌, checked, make_access, optimize_source}

module _ {F : Type 0} where
  -- `_score_ascendente`
  unfoldable pub is_score_ascending : BoundSelectStatement F → Bool
  is_score_ascending s = elim s.score_order [ none ↦ false | some o ↦ is_asc o.direction ]

abbrev pub equal_limits : Option ℕ → Option ℕ → Bool
equal_limits none none = true
equal_limits (some a) (some b) = a == b
equal_limits _ _ = false

-- The equality that Python derives for the order by distance, of which the plan's check makes use.
module _ {F : Type 0} (order_eq : BoundDistanceOrderBy F → BoundDistanceOrderBy F → Bool) where
  abbrev pub same_order : BoundDistanceOrderBy F → Option (BoundOrdering F) → Bool
  same_order o (some (by_distance p)) = order_eq o p
  same_order o _ = false

  abbrev pub uses_knn : PhysicalSource F → Bool
  uses_knn (leaf a) = is_some a.nearest
  uses_knn _ = false

  pub knn_fits : BoundSelectStatement F → PhysicalSource F → Bool
  knn_fits s (joined l r j) = true
  knn_fits s (leaf a) = elim a.nearest [
    | none ↦ true
    | some o ↦
        same_order o s.order_by
        && equal_limits a.nearest_limit s.limit
        && is_none s.condition
        && is_none s.group_by
        && one_table s.source
  ]

  pub text_fits : BoundSelectStatement F → PhysicalSource F → Bool
  unfolding is_score_ascending
  text_fits s (joined l r j) = true
  text_fits s (leaf a) =
      is_none a.text_limit
      || (equal_limits a.text_limit s.limit
          && is_none s.order_by
          && is_none s.group_by
          && not (is_score_ascending s))

  -- `PhysicalSelectPlan.__post_init__`
  unfoldable pub is_plan : PhysicalSelectPlan F → Bool
  unfolding knn_fits text_fits is_source
  is_plan p =
      knn_fits p.statement p.source
      && same p.external_sort (is_some p.statement.order_by && not (uses_knn p.source))
      && same (is_some p.group_strategy) (is_some p.statement.group_by)
      && text_fits p.statement p.source
      && is_source p.source p.statement.source p.statement.condition

  -- ORDER BY distance with LIMIT over a whole table with an R-Tree is a search of nearest points.
  pub use_knn :
      BoundSelectStatement F
      → BoundDistanceOrderBy F
      → ℕ
      → PhysicalTableAccess F
      → Planned (PhysicalSource F)
  unfolding make_access
  use_knn s o limit a = elim (best_spatial_index a.table o.column.index) [
    | none ↦ ok (leaf a)
    | some i ↦ do
      b ← make_access (record {
        table = a.table;
        route = rtree_knn;
        index = some i;
        residual_filter = false;
        nearest = some o;
        nearest_limit = some limit;
        text_limit = none;
      })
      ok (leaf b)
  ]

  pub try_knn :
      BoundSelectStatement F
      → Option (BoundOrdering F)
      → Option ℕ
      → PhysicalSource F
      → Planned (PhysicalSource F)
  unfolding use_knn
  try_knn s (some (by_distance o)) (some limit) (leaf a) =
      if is_asc o.direction && is_none s.condition && is_none s.group_by
      then use_knn s o limit a
      else ok (leaf a)
  try_knn s order limit source = ok source

  -- LIMIT without ORDER BY over MATCH is the top of the ranking, which the index cuts itself.
  pub push_limit : BoundSelectStatement F → Option ℕ → PhysicalSource F → Planned (PhysicalSource F)
  unfolding make_access is_score_ascending
  push_limit s (some limit) (leaf a) =
      if is_text a.route && is_none s.order_by && is_none s.group_by && not (is_score_ascending s)
      then (do
        b ← make_access (record {
          table = a.table;
          route = a.route;
          index = a.index;
          residual_filter = false;
          nearest = none;
          nearest_limit = none;
          text_limit = some limit;
        })
        ok (leaf b))
      else ok (leaf a)
  push_limit s limit source = ok source

  abbrev pub make_plan : BoundSelectStatement F → PhysicalSource F → PhysicalSelectPlan F
  make_plan s source = record {
    statement = s;
    source = source;
    external_sort = is_some s.order_by && not (uses_knn source);
    group_strategy = (elim s.group_by [ none ↦ none | some g ↦ some GroupStrategy.auto ]);
  }

  unfoldable pub optimize_select :
      BoundSelectStatement F → Dict TableMetadata → Planned (PhysicalSelectPlan F)
  unfolding try_knn push_limit is_plan
  optimize_select s catalogue = do
    first ← optimize_source s.source catalogue s.condition (leaf_of s.source s.condition) 0 0 true
    second ← try_knn s s.order_by s.limit first
    source ← push_limit s s.limit second
    checked (is_plan (make_plan s source)) (make_plan s source)

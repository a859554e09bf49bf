-- ===== src/Planner/Delete.antt =====
-- engine/planner/optimizer.py: `optimize_delete`.
pub mod Total
use quipudb.Prelude.{Bool, true, false, not, ◌&&◌, none, some, str_eq, ◌==◌}
use quipudb.Parser.BoundAst.{BoundCondition, distance, polygon, column_of, BoundDeleteStatement}
use quipudb.Planner.Metadata.{TableMetadata, is_among, same}
use quipudb.Planner.Access.{
  AccessRoute, scan, vector_knn, rtree_knn, AccessChoice, Planned, ok, choose_access, bare,
}
use quipudb.Planner.Physical.{is_some, is_range, is_by_key, uses_index, PhysicalDeletePlan}
use quipudb.Planner.Source.{◌>>=◌, checked, is_nil}

-- `_validate_access`
abbrev pub validates : AccessRoute → Bool
validates vector_knn = false
validates rtree_knn = false
validates route = uses_index route

module _ {F : Type 0} where
  unfoldable pub delete_fits : PhysicalDeletePlan F → Bool
  delete_fits p =
      same (validates p.route) (is_some p.index)
      && str_eq p.table.name p.statement.schema.table_name
      && (elim p.index [
        | none ↦ true
        | some i ↦
            is_among i p.table.indexes
            && i.column == (column_of p.statement.condition).index
            && not (is_range p.route && not i.supports_range)
      ])

  -- `PhysicalDeletePlan.__post_init__`
  unfoldable pub is_delete_plan : PhysicalDeletePlan F → Bool
  unfolding delete_fits
  is_delete_plan p = delete_fits p && not (not (is_nil p.table.indexes) && is_by_key p.route)

  abbrev pub delete_plan :
      BoundDeleteStatement F → TableMetadata → AccessChoice → PhysicalDeletePlan F
  delete_plan s t choice = record {
    statement = s;
    table = t;
    route = choice.route;
    index = choice.index;
    residual_filter = choice.residual_filter;
  }

  abbrev pub delete_choice :
      BoundDeleteStatement F → BoundCondition F → TableMetadata → Planned AccessChoice
  delete_choice s (distance c) t = ok (bare scan true)
  delete_choice s (polygon c) t = ok (bare scan true)
  delete_choice s c t =
      choose_access (some c) (column_of c).index s.schema.key_column t (is_nil t.indexes)

  unfoldable pub optimize_delete :
      BoundDeleteStatement F → TableMetadata → Planned (PhysicalDeletePlan F)
  unfolding is_delete_plan
  optimize_delete s t = do
    choice ← delete_choice s s.condition t
    checked (is_delete_plan (delete_plan s t choice)) (delete_plan s t choice)

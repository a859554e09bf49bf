-- ===== src/Planner/Source.antt =====
-- engine/planner/optimizer.py: `_optimize_source`, the physical form of a FROM.
pub mod Fits
use quipudb.Prelude.{
  ℕ, ◌+◌, ◌-◌, Bool, true, false, not, ◌&&◌, ◌||◌, Option, none, some, List, [], ◌∷◌, length, ◌==◌,
  if◌then◌else◌,
}
use quipudb.Prelude.Dict.{Dict, find}
use quipudb.Parser.BoundAst.{
  BoundCondition, column_of, BoundSource, BoundTableRef, table, join, schema_of,
  BoundColumnReference,
}
use quipudb.Planner.Plan.{sequential, bplus_clustered}
use quipudb.Planner.Metadata.{IndexMetadata, TableMetadata, is_structure}
use quipudb.Planner.Access.{
  scan, AccessChoice, value_error, assertion_error, Planned, ok, err, best_index, choose_access,
  bare,
}
use quipudb.Planner.Physical.{
  JoinStrategy, is_some, is_none, is_scan, PhysicalTableAccess, is_access, PhysicalJoin, is_join,
  PhysicalSource, leaf, joined, is_owner,
}

infixl 5 ◌>>=◌
abbrev pub ◌>>=◌ {ℓ κ} : {A : Type ℓ} {B : Type κ} → Planned A → (A → Planned B) → Planned B
ok a >>= f = f a
err e >>= f = err e

-- A constructor whose `__post_init__` has made its checks.
abbrev pub checked {ℓ} : {A : Type ℓ} → Bool → A → Planned A
checked true a = ok a
checked false a = err value_error

abbrev pub is_nil {ℓ} : {A : Type ℓ} → List A → Bool
is_nil [] = true
is_nil (a ∷ as') = false

-- `node.right.schema.key_column` against the sorted organisations.
is_searchable : TableMetadata → Bool
is_searchable t = is_structure t.structure sequential || is_structure t.structure bplus_clustered

unfoldable pub leaf_count : BoundSource → ℕ
leaf_count (table t) = 1
leaf_count (join l r lc rc s span) = leaf_count l + leaf_count r

abbrev join_node :
    BoundColumnReference → BoundColumnReference → Bool → Option IndexMetadata × Bool → PhysicalJoin
join_node left_column right_column residual (probe, on_primary) = record {
  left_column = left_column.index;
  right_column = right_column.index;
  strategy = if is_some probe || on_primary then JoinStrategy.auto else JoinStrategy.hash;
  probe = probe;
  probe_on_primary_key = on_primary;
  residual_filter = residual;
}

module _ {F : Type 0} where
  abbrev pub plain_access : TableMetadata → AccessChoice → PhysicalTableAccess F
  plain_access t choice = record {
    table = t;
    route = choice.route;
    index = choice.index;
    residual_filter = choice.residual_filter;
    nearest = none;
    nearest_limit = none;
    text_limit = none;
  }

  unfoldable pub make_access : PhysicalTableAccess F → Planned (PhysicalTableAccess F)
  unfolding is_access
  make_access a = checked (is_access a) a

  unfoldable pub choose_probe :
      BoundSource → BoundColumnReference → PhysicalSource F → Option IndexMetadata × Bool
  unfolding is_searchable
  choose_probe right_node right_column (joined l r j) = (none, false)
  choose_probe right_node right_column (leaf a) =
      if not (is_scan a.route) || a.residual_filter
      then (none, false)
      else if right_column.index == (schema_of right_node).key_column && is_searchable a.table
      then (none, true)
      else (best_index a.table right_column.index false true, false)

  pub make_join : PhysicalSource F → PhysicalSource F → PhysicalJoin → Planned (PhysicalSource F)
  unfolding is_join
  make_join l r j = checked (is_join j) (joined l r j)

  -- One leaf: a full scan, unless the predicate is its own.
  pub optimize_leaf :
      BoundTableRef
      → TableMetadata
      → Option (BoundCondition F)
      → Bool
      → ℕ
      → Bool
      → Planned (PhysicalSource F)
  unfolding make_access
  optimize_leaf t meta condition false offset primary_table_allowed = do
    a ← make_access (plain_access meta (bare scan false))
    ok (leaf a)
  optimize_leaf t meta none true offset primary_table_allowed = err assertion_error
  optimize_leaf t meta (some c) true offset primary_table_allowed = do
    choice ←
        choose_access (some c) ((column_of c).index - offset) t.schema.key_column meta
          primary_table_allowed
    a ← make_access (plain_access meta choice)
    ok (leaf a)

  -- `_optimize_source`; `first` is the place of the source's first leaf.
  unfoldable pub optimize_source :
      BoundSource
      → Dict TableMetadata
      → Option (BoundCondition F)
      → Option ℕ
      → ℕ
      → ℕ
      → Bool
      → Planned (PhysicalSource F)
  unfolding optimize_leaf choose_probe make_join
  optimize_source (table t) catalogue condition owner first offset allowed =
      elim (find t.schema.table_name catalogue) [
        | none ↦ err value_error
        | some meta ↦ optimize_leaf t meta condition (is_owner owner first) offset allowed
      ]
  optimize_source (join l r lc rc s span) catalogue condition owner first offset allowed = do
    left ← optimize_source l catalogue condition owner first offset allowed
    right ←
        optimize_source r catalogue condition owner (first + leaf_count l)
          (offset + length (schema_of l).columns) allowed
    make_join left right
        (join_node lc rc (is_some condition && is_none owner) (choose_probe r rc right))

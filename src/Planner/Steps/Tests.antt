-- ===== src/Planner/Steps/Tests.antt =====
-- A plan of three steps: a heap scan, a filter in memory and another scan below a join.
use quipudb.Prelude.{ℕ, ◌≡◌, refl, true, not, ◌&&◌, none, [], ◌∷◌, map}
use quipudb.Planner.Plan.{Op, Structure, heap, external_hash, memory}
use quipudb.Planner.Metadata.{is_structure}
use quipudb.Planner.Steps.{
  StepInfo, Step, step, no_more, child, info_of, subtree_stats, walk, has, structures_used,
}
use quipudb.Planner.Steps.Totals.{total, subtree_stats-walk}
use quipudb.Planner.Steps.Used.{is_distinct, structures_used-walk}

abbrev measured : Op → Structure → ℕ → StepInfo ℕ
measured op structure pages = record {
  op = op;
  structure = structure;
  table = none;
  column = none;
  detail = "";
  stats = record {
    pages_read = pages;
    pages_written = 0;
    records_examined = 10;
    records_returned = 4;
  };
  time_ms = 1;
  ranking = none;
  metric = none;
}

abbrev scanned : Step ℕ
scanned = step (measured Op.scan heap 3) no_more

abbrev joined_plan : Step ℕ
joined_plan =
    step (measured Op.join external_hash 5)
      (child (step (measured Op.filter memory 0) (child scanned no_more)) (child scanned no_more))

joined_plan_used : structures_used joined_plan ≡ heap ∷ external_hash ∷ []
unfolding structures_used
joined_plan_used = refl

subtree_stats-walk_example :
    ((subtree_stats joined_plan).pages_read ≡ total (λ t. t.pages_read) (walk joined_plan))
    × ((subtree_stats joined_plan).pages_written ≡ total (λ t. t.pages_written) (walk joined_plan))
    × ((subtree_stats joined_plan).records_examined
        ≡ total (λ t. t.records_examined) (walk joined_plan))
    × ((subtree_stats joined_plan).records_returned
        ≡ total (λ t. t.records_returned) (walk joined_plan))
subtree_stats-walk_example = subtree_stats-walk joined_plan

structures_used-walk_example :
    ((t : Structure)
      → has t (structures_used joined_plan) ≡ (
          not (is_structure t memory)
          && has t (map (λ s. (info_of s).structure) (walk joined_plan))))
    × (is_distinct (structures_used joined_plan) ≡ true)
structures_used-walk_example = structures_used-walk joined_plan

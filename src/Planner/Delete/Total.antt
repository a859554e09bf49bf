-- ===== src/Planner/Delete/Total.antt =====
-- `optimize_delete` gives a plan that keeps the row identifiers which the indexes need.
use quipudb.Prelude.{◌≡◌, refl, ◌∙◌, true, false, not, some, ◌==◌, ◌&&◌, arith, str_eq}
use quipudb.Parser.BoundAst.{
  BoundCondition, comparison, between, distance, polygon, matching, similar, column_of,
  BoundDeleteStatement,
}
use quipudb.Planner.Metadata.{TableMetadata}
use quipudb.Planner.Access.{AccessChoice, scan, bare, ok, choose_access}
use quipudb.Planner.Access.Routes.{choice_fits, choose_access-fits, is_similar_to_vector}
use quipudb.Planner.Access.Owner.{choice_respects, can_answer, Chosen, choose_access-Chosen}
use quipudb.Planner.Physical.{is_by_key, is_similar, PhysicalDeletePlan}
use quipudb.Planner.Source.{is_nil}
use quipudb.Planner.Delete.{is_delete_plan, delete_plan, delete_choice, optimize_delete}

module _ {F : Type 0} (s : BoundDeleteStatement F) (t : TableMetadata)
    (named : str_eq t.name s.schema.table_name ≡ true) where
  scan-is_delete_plan : is_delete_plan (delete_plan s t (bare scan true)) ≡ true
  unfolding is_delete_plan
  scan-is_delete_plan = ground arith

  chosen-is_delete_plan :
      (choice : AccessChoice)
      → is_similar s.condition ≡ false
      → choice_fits t (column_of s.condition).index choice ≡ true
      → choice_respects s.condition ((column_of s.condition).index == s.schema.key_column) choice
        ≡ true
      → (is_by_key choice.route && not (is_nil t.indexes)) ≡ false
      → is_delete_plan (delete_plan s t choice) ≡ true
  unfolding is_delete_plan choice_fits choice_respects
  chosen-is_delete_plan choice n f r k = ground arith

  record Deleted : Type 0 where
    choice : AccessChoice
    chosen : delete_choice s s.condition t ≡ ok choice
    passes : is_delete_plan (delete_plan s t choice) ≡ true

  chosen-Deleted :
      is_similar s.condition ≡ false
      → is_similar_to_vector s.condition ≡ true
      → Chosen s.condition (column_of s.condition).index s.schema.key_column t (is_nil t.indexes)
      → delete_choice s s.condition t
        ≡ choose_access
            (some s.condition)
            (column_of s.condition).index
            s.schema.key_column
            t
            (is_nil t.indexes)
      → Deleted
  chosen-Deleted n v h e = record {
    choice = h.choice;
    chosen = e ∙ h.chosen;
    passes =
        chosen-is_delete_plan h.choice n
          (choose_access-fits s.condition (column_of s.condition).index s.schema.key_column t
            (is_nil t.indexes) v h.chosen)
          h.respects h.permitted;
  }

  delete-Deleted :
      (c : BoundCondition F)
      → s.condition ≡ c
      → is_similar s.condition ≡ false
      → can_answer s.condition t (column_of s.condition).index ≡ true
      → Deleted
  unfolding is_similar_to_vector
  delete-Deleted (distance c) e n a = record {
    choice = bare scan true;
    chosen = rw e;
    passes = scan-is_delete_plan;
  }
  delete-Deleted (polygon c) e n a = record {
    choice = bare scan true;
    chosen = rw e;
    passes = scan-is_delete_plan;
  }
  delete-Deleted (comparison c) e n a =
      chosen-Deleted n (rw e) (choose_access-Chosen s.condition _ _ t _ a) (rw e)
  delete-Deleted (between c) e n a =
      chosen-Deleted n (rw e) (choose_access-Chosen s.condition _ _ t _ a) (rw e)
  delete-Deleted (matching c) e n a =
      chosen-Deleted n (rw e) (choose_access-Chosen s.condition _ _ t _ a) (rw e)
  delete-Deleted (similar c) e n a = absurd (cc)

  -- For a table under the statement's name and a condition other than SIMILAR_TO, a MATCH only if
  -- the column has a text index: `optimize_delete` returns a plan that passes its constructor's
  -- checks, and if the table has indexes, its route is none of those that lose the identifiers.
  pub optimize_delete_total :
      is_similar s.condition ≡ false
      → can_answer s.condition t (column_of s.condition).index ≡ true
      → (plan : PhysicalDeletePlan F) × (optimize_delete s t ≡ ok plan)
        × (is_delete_plan plan ≡ true)
        × ((is_by_key plan.route && not (is_nil t.indexes)) ≡ false)
  unfolding optimize_delete
  optimize_delete_total n a =
      let d = delete-Deleted s.condition refl n a in
      (
        delete_plan s t d.choice,
        rw (d.chosen, d.passes),
        d.passes,
        (unfold is_delete_plan in ground (arith, d.passes)),
      )

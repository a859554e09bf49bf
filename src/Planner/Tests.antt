-- ===== src/Planner/Tests.antt =====
-- Plans for a small catalogue.
use mathlib.Core.Path.{subst}
use quipudb.Prelude.{
  ℕ, ◌≡◌, refl, true, false, Bool, Option, none, some, [], ◌∷◌, ◌==◌, ==_self, ◌&&◌, arith, not,
  ◌-◌,
}
use quipudb.Prelude.Dict.{find}
use quipudb.Prelude.Int.{pos}
use quipudb.Parser.Span.{Span}
use quipudb.Parser.Ast.{SqlTypeName, equal}
use quipudb.Parser.BoundAst.{
  BoundSchema, BoundValue, BoundColumnReference, BoundCondition, comparison, BoundDistanceOrderBy,
  table, BoundSelectStatement, BoundDeleteStatement, column_of,
}
use quipudb.Planner.Plan.{heap, bplus_unclustered}
use quipudb.Planner.Metadata.{IndexMetadata, TableMetadata, min_by, keep}
use quipudb.Planner.Access.{choose_access, best_index, allow_hash, of_index, index_search, ok}
use quipudb.Planner.Access.Routes.{choice_fits, is_similar_to_vector, choose_access-fits}
use quipudb.Planner.Access.Owner.{can_answer}
use quipudb.Planner.Physical.{PhysicalSelectPlan, PhysicalDeletePlan, is_by_key}
use quipudb.Planner.Select.{is_plan, optimize_select}
use quipudb.Planner.Select.Total.{optimize_select_total}
use quipudb.Planner.Source.{is_nil}
use quipudb.Planner.Delete.{optimize_delete, is_delete_plan}
use quipudb.Planner.Delete.Total.{optimize_delete_total}

abbrev here : Span
here = record { start = 0; end = 1; line = 1; column = 1; end_line = 1; end_column = 2 }

abbrev city : BoundColumnReference
city = record {
  index = 1;
  column = record { name = "city"; data_type = SqlTypeName.int; length = none };
  span = here;
}

abbrev places : BoundSchema
places = record {
  table_name = "places";
  columns = record { name = "id"; data_type = SqlTypeName.int; length = none } ∷ city.column ∷ [];
  key_column = 0;
}

abbrev by_city : IndexMetadata
by_city = record {
  name = "by_city";
  column = 1;
  structure = bplus_unclustered;
  supports_range = true;
}

abbrev places_table : TableMetadata
places_table = record { name = "places"; structure = heap; indexes = by_city ∷ []; rows = some 40 }

abbrev in_city_7 : BoundCondition ℕ
in_city_7 =
    comparison
      (record { column = city; operator = equal; value = BoundValue.integer (pos 7); span = here })

abbrev find_city : BoundSelectStatement ℕ
find_city = record {
  source = table (record { schema = places; span = here });
  projections = [];
  wildcard = true;
  condition = some in_city_7;
  span = here;
  group_by = none;
  order_by = none;
  limit = none;
  score = none;
  score_order = none;
}

abbrev leave_city : BoundDeleteStatement ℕ
leave_city = record { schema = places; condition = in_city_7; span = here }

-- The equality of orders by distance over natural coordinates.
abbrev order_eq : BoundDistanceOrderBy ℕ → BoundDistanceOrderBy ℕ → Bool
order_eq a b =
    a.column.index == b.column.index
    && a.center.latitude == b.center.latitude
    && a.center.longitude == b.center.longitude
    && a.span.start == b.span.start

order_eq_refl : (o : BoundDistanceOrderBy ℕ) → order_eq o o ≡ true
order_eq_refl o = ground (
  arith,
  ==_self o.column.index,
  ==_self o.center.latitude,
  ==_self o.center.longitude,
  ==_self o.span.start,
)

-- The only condition of a statement passes a test.
abbrev AllPass : (BoundCondition ℕ → Bool) → Option (BoundCondition ℕ) → Type 0
AllPass test none = Unit {0}
AllPass test (some c) = test c ≡ true

choose_access-fits_example : choice_fits places_table 1 (of_index index_search false by_city) ≡ true
unfolding is_similar_to_vector choose_access best_index allow_hash min_by keep
choose_access-fits_example = choose_access-fits in_city_7 1 0 places_table true refl refl

optimize_select_total_example :
    (plan : PhysicalSelectPlan ℕ) × (optimize_select order_eq find_city
        (("places", places_table) ∷ [])
      ≡ ok plan)
    × (is_plan order_eq plan ≡ true)
unfolding find can_answer is_similar_to_vector
optimize_select_total_example =
    optimize_select_total order_eq order_eq_refl find_city (("places", places_table) ∷ [])
      (
        places_table,
        refl,
        refl,
        λ c e o. subst (AllPass (λ d. can_answer d places_table ((column_of d).index - 0))) e refl,
      )
      (λ c e. subst (AllPass is_similar_to_vector) e refl)

optimize_delete_total_example :
    (plan : PhysicalDeletePlan ℕ) × (optimize_delete leave_city places_table ≡ ok plan)
    × (is_delete_plan plan ≡ true)
    × ((is_by_key plan.route && not (is_nil places_table.indexes)) ≡ false)
unfolding can_answer
optimize_delete_total_example = optimize_delete_total leave_city places_table refl refl refl

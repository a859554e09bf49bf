-- ===== src/Parser/Semantic/Scopes/Tests.antt =====
-- A join of two tables, and names in it.
use quipudb.Prelude.{◌≡◌, refl, String, none, some, List, [], ◌∷◌}
use quipudb.Prelude.Dict.{elem}
use quipudb.Parser.Chars.{codes, text_eq}
use quipudb.Parser.Span.{Span}
use quipudb.Parser.Ast.{Identifier, SqlTypeName, ColumnReference, FromSource, table_ref, join_ref}
use quipudb.Parser.BoundAst.{
  BoundColumn, BoundSchema, BoundSource, table, join, join_output_schema, schema_of,
}
use quipudb.Parser.Semantic.{accepted}
use quipudb.Parser.Semantic.Checks.{Answers}
use quipudb.Parser.Semantic.Scopes.{scope_of, resolve_column, bind_source}
use quipudb.Parser.Semantic.Scopes.Columns.{Binds, Denotes}
use quipudb.Parser.Semantic.Scopes.Resolved.{resolve_column-Answers, bind_source-Answers}

abbrev here : Span
here = record { start = 0; end = 1; line = 1; column = 1; end_line = 1; end_column = 2 }

abbrev number : String → BoundColumn
number name = record { name = name; data_type = SqlTypeName.int; length = none }

abbrev people : BoundSchema
people = record { table_name = "people"; columns = number "id" ∷ number "age" ∷ []; key_column = 0 }

abbrev pets : BoundSchema
pets = record { table_name = "pets"; columns = number "id" ∷ number "owner" ∷ []; key_column = 0 }

abbrev catalogue : List (String × BoundSchema)
catalogue = ("people", people) ∷ ("pets", pets) ∷ []

abbrev named : String → Identifier
named name = record { name = codes name; span = here }

abbrev bare : String → ColumnReference
bare name = record { name = named name; span = here; qualifier = none }

abbrev of_table : String → String → ColumnReference
of_table name column = record { name = named column; span = here; qualifier = some (named name) }

abbrev owners : FromSource
owners =
    join_ref (table_ref (named "people") here) (table_ref (named "pets") here) (bare "owner")
      (of_table "people" "id") here

bind_source-Answers_example :
    Answers none (Binds catalogue owners) (bind_source none owners catalogue)
bind_source-Answers_example = bind_source-Answers none owners catalogue

-- The two sides of ON are the other way round.
abbrev bound_owners : BoundSource
bound_owners =
    join (table (record { schema = people; span = here }))
      (table (record { schema = pets; span = here }))
      (record { index = 0; column = number "id"; span = here })
      (record { index = 1; column = number "owner"; span = here })
      (record {
        table_name = "people_pets";
        columns = number "people.id" ∷ number "age" ∷ number "pets.id" ∷ number "owner" ∷ [];
        key_column = 0;
      })
      here

owners_bound : bind_source none owners catalogue ≡ accepted bound_owners
unfolding bind_source text_eq join_output_schema schema_of elem
owners_bound = refl

resolve_column-Answers_example :
    Answers none
      (Denotes (of_table "pets" "id") bound_owners)
      (resolve_column none (of_table "pets" "id") (scope_of bound_owners))
unfolding schema_of join_output_schema elem
resolve_column-Answers_example =
    resolve_column-Answers none (of_table "pets" "id") bound_owners (tt, tt, refl)

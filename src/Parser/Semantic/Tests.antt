-- ===== src/Parser/Semantic/Tests.antt =====
-- A table that is declared, filled and indexed.
use quipudb.Prelude.{String, ◌≡◌, refl, true, false, none, some, List, [], ◌∷◌, ◌≤◌, arith}
use quipudb.Prelude.Int.{ℤ, pos, negsuc}
use quipudb.Parser.Chars.{codes, text_eq}
use quipudb.Parser.Chars.Encoded.{encode}
use quipudb.Parser.Span.{Span}
use quipudb.Parser.Ast.{
  Identifier, SqlTypeName, ColumnDefinition, StorageKind, IndexKind, Literal, CreateTableStatement,
  CreateIndexStatement, InsertStatement,
}
use quipudb.Parser.BoundAst.{byte_size, record_size, BoundSchema, BoundCreateTable, BoundValue}
use quipudb.Parser.Semantic.{accepted, is_identifier}
use quipudb.Parser.Semantic.Checks.{Answers, AnswersUnless}
use quipudb.Parser.Semantic.Tables.{max_record_size, bind_create_table, bind_create_index}
use quipudb.Parser.Semantic.Tables.Shape.{IsTable, IsUncountable}
use quipudb.Parser.Semantic.Tables.Bound.{bind_create_table-Answers}
use quipudb.Parser.Semantic.Tables.Indexes.{Indexes, bind_create_index-Answers}
use quipudb.Parser.Semantic.Values.{Floats, bind_insert}
use quipudb.Parser.Semantic.Values.Stored.{Inserted, an_int, a_varchar, one_more, none_left}
use quipudb.Parser.Semantic.Values.Accepted.{bind_insert-Answers}
use quipudb.Parser.Semantic.Values.Complete.{bind_insert_complete}
use quipudb.Parser.Semantic.Records.{values_size, insert_after_create}

-- Integers in place of floating-point numbers.
abbrev integers : Floats ℤ
integers = record {
  of_integer = λ n. some n;
  is_finite = λ n. true;
  is_within = λ low high n. true;
}

abbrev spot : Span
spot = record { start = 0; end = 1; line = 1; column = 1; end_line = 1; end_column = 2 }

abbrev word : String → Identifier
word name = record { name = codes name; span = spot }

abbrev id_column : ColumnDefinition
id_column = record {
  name = word "id";
  data_type = record { name = SqlTypeName.int; length = none; span = spot };
  primary_key = true;
  span = spot;
}

abbrev name_column : ColumnDefinition
name_column = record {
  name = word "name";
  data_type = record { name = SqlTypeName.varchar; length = some (pos 8); span = spot };
  primary_key = false;
  span = spot;
}

abbrev places : CreateTableStatement
places = record {
  table = word "places";
  columns = id_column ∷ name_column ∷ [];
  storage = StorageKind.heap;
  span = spot;
}

abbrev places_schema : BoundSchema
places_schema = record {
  table_name = "places";
  columns =
      record { name = "id"; data_type = SqlTypeName.int; length = none }
      ∷ record { name = "name"; data_type = SqlTypeName.varchar; length = some 8 }
      ∷ [];
  key_column = 0;
}

abbrev places_table : BoundCreateTable
places_table = record { schema = places_schema; storage = StorageKind.heap; span = spot }

places_bound : bind_create_table none places ≡ accepted places_table
unfolding bind_create_table is_identifier encode text_eq record_size byte_size
places_bound = refl

bind_create_table-Answers_example :
    AnswersUnless none (IsTable places) (IsUncountable places) (bind_create_table none places)
bind_create_table-Answers_example = bind_create_table-Answers none places

abbrev lima : InsertStatement ℤ
lima = record {
  table = word "places";
  values = Literal.integer (negsuc 6) spot ∷ Literal.string (codes "Lima") spot ∷ [];
  span = spot;
}

bind_insert-Answers_example :
    Answers none
      (Inserted integers lima places_schema)
      (bind_insert integers none lima places_schema)
bind_insert-Answers_example =
    bind_insert-Answers integers none lima places_schema (tt, (tt, tt)) (refl, ((7, refl), tt))

abbrev lima_values : List (BoundValue ℤ)
lima_values = BoundValue.integer (negsuc 6) ∷ BoundValue.string "Lima" ∷ []

bind_insert_complete_example :
    bind_insert integers none lima places_schema
    ≡ accepted (record { table_name = codes "places"; values = lima_values; span = spot })
unfolding encode text_eq
bind_insert_complete_example =
    bind_insert_complete integers none lima places_schema lima_values refl (
      one_more _ _ _ _ _ _ (an_int none (negsuc 6) spot (omega arith)) (
        one_more _ _ _ _ _ _ (a_varchar 8 (codes "Lima") spot "Lima" refl refl (omega arith))
          none_left))

insert_after_create_example :
    Answers none
      (λ i.
        Inserted integers lima places_schema i
        × (values_size i.values ≤ max_record_size StorageKind.heap))
      (bind_insert integers none lima places_schema)
insert_after_create_example =
    insert_after_create integers none places places_table lima places_bound (tt, (tt, tt))

abbrev by_name : CreateIndexStatement
by_name = record {
  index = word "by_name";
  table = word "places";
  column = word "name";
  kind = IndexKind.inverted_index;
  span = spot;
  metric = none;
  language = none;
}

bind_create_index-Answers_example :
    Answers none (Indexes by_name places_schema) (bind_create_index none by_name places_schema)
bind_create_index-Answers_example = bind_create_index-Answers none by_name places_schema

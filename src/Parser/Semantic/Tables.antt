-- ===== src/Parser/Semantic/Tables.antt =====
-- engine/parser/semantic.py: `bind_create_table`, `bind_create_index` and `bind_drop_table`.
pub mod Shape
pub mod Columns
pub mod Bound
pub mod Indexes
use Prim.Native.Nat.{◌^◌}
use quipudb.Prelude.{
  leb, ℕ, ◌+◌, Bool, true, false, not, ◌&&◌, ◌||◌, Option, none, some, List, [], ◌∷◌, any, ltb,
  if◌then◌else◌,
}
use quipudb.Parser.Chars.{Text, text_eq, codes}
use quipudb.Parser.Span.{Span}
use quipudb.Parser.Errors.{
  said, repeated_column, missing_column, wrong_table, record_too_large, rtree_on, text_index_on,
  index_on_vector, index_on_point,
}
use quipudb.Parser.Ast.{
  SqlTypeName, ColumnDefinition, StorageKind, IndexKind, CreateTableStatement, CreateIndexStatement,
  DropTableStatement,
}
use quipudb.Parser.BoundAst.{
  BoundColumn, byte_size, BoundSchema, record_size, BoundCreateTable, BoundCreateIndexStatement,
  BoundDropTableStatement,
}
use quipudb.Parser.Semantic.{
  Checked, raised, ◌>>=◌, ◌>>◌, pure, fail, validate_identifier, validate_type, name_of,
}

-- The largest record in a page of 4096 bytes.
abbrev pub max_record_size : StorageKind → ℕ
max_record_size StorageKind.heap = 4087
max_record_size StorageKind.sequential = 2041

-- `str` of an `int` with more than 4300 digits is a ValueError.
unfoldable pub is_unprintable : ℕ → Bool
is_unprintable n = leb (10 ^ 4300) n

abbrev pub is_seen : Text → List Text → Bool
is_seen name seen = any (text_eq name) seen

-- `size` is the sum so far; `none` is the ValueError of `byte_size`.
unfoldable pub overflow_from : Span → ℕ → ℕ → List ColumnDefinition → List BoundColumn → Option Span
unfolding byte_size
overflow_from other limit size (d ∷ ds) (c ∷ cs) = elim (byte_size c) [
  | none ↦ none
  | some n ↦
      let rest = overflow_from other limit (size + n) ds cs in
      if ltb limit (size + n) then some d.data_type.span else rest
]
overflow_from other limit size _ _ = some other

-- `_first_overflow_span`
unfoldable pub first_overflow_span : CreateTableStatement → List BoundColumn → ℕ → Option Span
unfolding overflow_from
first_overflow_span statement columns limit =
    overflow_from statement.span limit 0 statement.columns columns

-- `primary_keys`, the first column's place being `index`.
unfoldable pub primary_keys : ℕ → List ColumnDefinition → List (ℕ × Span)
primary_keys index [] = []
primary_keys index (d ∷ ds) =
    let rest = primary_keys (index + 1) ds in if d.primary_key then (index, d.span) ∷ rest else rest

abbrev pub find_column : Text → List BoundColumn → Option BoundColumn
find_column name [] = none
find_column name (c ∷ cs) = if text_eq (codes c.name) name then some c else find_column name cs

abbrev pub is_type : SqlTypeName → SqlTypeName → Bool
is_type SqlTypeName.point SqlTypeName.point = true
is_type SqlTypeName.varchar SqlTypeName.varchar = true
is_type SqlTypeName.vector SqlTypeName.vector = true
is_type _ _ = false

abbrev pub is_kind : IndexKind → IndexKind → Bool
is_kind IndexKind.rtree IndexKind.rtree = true
is_kind IndexKind.inverted_index IndexKind.inverted_index = true
is_kind IndexKind.ivf IndexKind.ivf = true
is_kind IndexKind.hnsw IndexKind.hnsw = true
is_kind _ _ = false

abbrev pub is_vector_index : IndexKind → Bool
is_vector_index kind = is_kind kind IndexKind.ivf || is_kind kind IndexKind.hnsw

module _ (source : Option Text) where
  -- A round of the loop over the columns.
  unfoldable pub bind_column : Text → List Text → ColumnDefinition → Checked BoundColumn
  unfolding validate_identifier validate_type text_eq
  bind_column table seen d = do
    validate_identifier source d.name.name "columna" d.name.span
    if is_seen d.name.name seen
        then fail source (repeated_column table d.name.name) d.name.span
        else do
          length ← validate_type source d.data_type.name d.data_type.length d.data_type.span
          name ← name_of d.name.name
          pure (record { name = name; data_type = d.data_type.name; length = length })

  unfoldable pub bind_columns :
      Text → List Text → List ColumnDefinition → Checked (List BoundColumn)
  unfolding bind_column
  bind_columns table seen [] = pure []
  bind_columns table seen (d ∷ ds) = do
    c ← bind_column table seen d
    cs ← bind_columns table (d.name.name ∷ seen) ds
    pure (c ∷ cs)

  -- The one primary key, or the error of a second.
  unfoldable pub only_key : Span → List (ℕ × Span) → Checked ℕ
  only_key span [] = fail source (said "CREATE TABLE requiere exactamente una PRIMARY KEY") span
  only_key span ((index, at) ∷ []) = pure index
  only_key span (first ∷ (index, at) ∷ more) =
      fail source (said "CREATE TABLE solo admite una PRIMARY KEY") at

  -- The rest of `bind_create_table`, from the check of the record's size on.
  unfoldable pub check_size : CreateTableStatement → BoundSchema → Checked BoundCreateTable
  unfolding record_size first_overflow_span is_unprintable
  check_size statement schema =
      let limit = max_record_size statement.storage in
      elim (record_size schema) [
        | none ↦ raised
        | some size ↦
            if ltb limit size
            then elim (first_overflow_span statement schema.columns limit) [
              | none ↦ raised
              | some span ↦
                  if is_unprintable size
                  then raised
                  else fail source (record_too_large size limit statement.storage) span
            ]
            else pure
                (record { schema = schema; storage = statement.storage; span = statement.span })
      ]

  -- `bind_create_table`
  unfoldable pub bind_create_table : CreateTableStatement → Checked BoundCreateTable
  unfolding validate_identifier bind_columns primary_keys only_key check_size
  bind_create_table statement = do
    validate_identifier source statement.table.name "tabla" statement.table.span
    elim statement.columns [
      | [] ↦ fail source (said "la tabla debe declarar al menos una columna") statement.span
      | d ∷ ds ↦ do
        columns ← bind_columns statement.table.name [] (d ∷ ds)
        key ← only_key statement.span (primary_keys 0 (d ∷ ds))
        name ← name_of statement.table.name
        check_size statement (record { table_name = name; columns = columns; key_column = key })
    ]

  -- The checks of an index on the type of its column, in the code's order.
  unfoldable pub check_kind_of : IndexKind → SqlTypeName → Text → Span → Checked {0} Unit
  check_kind_of kind type name span =
      if is_kind kind IndexKind.rtree && not (is_type type SqlTypeName.point)
      then fail source (rtree_on name) span
      else if is_kind kind IndexKind.inverted_index && not (is_type type SqlTypeName.varchar)
      then fail source (text_index_on name type) span
      else if not (is_kind kind IndexKind.rtree) && is_type type SqlTypeName.point
      then fail source (index_on_point name) span
      else if is_vector_index kind && not (is_type type SqlTypeName.vector)
      then fail source (said "IVF y HNSW requieren una columna VECTOR") span
      else if is_type type SqlTypeName.vector && not (is_vector_index kind)
      then fail source (index_on_vector name kind) span
      else pure tt

  -- `bind_create_index`
  unfoldable pub bind_create_index :
      CreateIndexStatement → BoundSchema → Checked BoundCreateIndexStatement
  unfolding validate_identifier check_kind_of text_eq
  bind_create_index s schema = do
    validate_identifier source s.index.name "indice" s.index.span
    validate_identifier source s.table.name "tabla" s.table.span
    validate_identifier source s.column.name "columna" s.column.span
    if not (text_eq s.table.name (codes schema.table_name))
        then fail source (wrong_table "CREATE INDEX" s.table.name schema.table_name) s.table.span
        else elim (find_column s.column.name schema.columns) [
          | none ↦ fail source (missing_column s.column.name schema.table_name) s.column.span
          | some c ↦ do
            check_kind_of s.kind c.data_type s.column.name s.column.span
            pure (record {
              index_name = s.index.name;
              table_name = s.table.name;
              column_name = s.column.name;
              kind = s.kind;
              span = s.span;
              metric = s.metric;
              language = s.language;
            })
        ]

  -- `bind_drop_table`
  unfoldable pub bind_drop_table : DropTableStatement → Checked BoundDropTableStatement
  unfolding validate_identifier
  bind_drop_table s = do
    validate_identifier source s.table.name "tabla" s.table.span
    pure (record { table_name = s.table.name; span = s.span })

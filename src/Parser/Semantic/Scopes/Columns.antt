-- ===== src/Parser/Semantic/Scopes/Columns.antt =====
-- engine/parser/semantic.py: the columns of a FROM, and the column that a name means, without the
-- code's lists of places.
use quipudb.Prelude.{ℕ, ◌+◌, ◌≡◌, refl, String, Option, none, some, List, length, get_elem?}
use quipudb.Parser.Chars.{codes}
use quipudb.Parser.Span.{Span}
use quipudb.Parser.Ast.{Identifier, ColumnReference, FromSource, table_ref, join_ref}
use quipudb.Parser.BoundAst.{
  BoundColumn, BoundTableRef, BoundSchema, BoundColumnReference, BoundSource, table, join,
  schema_of, join_output_schema,
}
use quipudb.Parser.Semantic.Scopes.{find_schema}

-- The column of a table of the source, with its place among all columns: those of the left side of
-- a join come before those of the right side.
pub data Column : BoundSource → ℕ → String → BoundColumn → Type 0 where
  of_table :
      (t : BoundTableRef) (i : ℕ) (c : BoundColumn)
      → get_elem? t.schema.columns i ≡ some c
      → Column (table t) i t.schema.table_name c
  of_left :
      (left right : BoundSource) (l r : BoundColumnReference) (schema : BoundSchema) (span : Span)
      (i : ℕ) (name : String) (c : BoundColumn)
      → Column left i name c
      → Column (join left right l r schema span) i name c
  of_right :
      (left right : BoundSource) (l r : BoundColumnReference) (schema : BoundSchema) (span : Span)
      (i : ℕ) (name : String) (c : BoundColumn)
      → Column right i name c
      → Column (join left right l r schema span) (length (schema_of left).columns + i) name c

abbrev pub OfTable : Option Identifier → String → Type 0
OfTable none name = Unit
OfTable (some q) name = codes name ≡ q.name

-- The reference has the name of the column and, if it has a qualifier, that of its table.
abbrev pub Names : ColumnReference → String → String → Type 0
Names reference table_name column_name =
    (codes column_name ≡ reference.name.name) × OfTable reference.qualifier table_name

-- The bound column is the only one that the reference names, at its place in the schema.
pub record Denotes (reference : ColumnReference) (s : BoundSource) (b : BoundColumnReference)
    : Type 0 where
  pub table_name : String
  pub column : BoundColumn
  pub stands : Column s b.index table_name column
  pub named : Names reference table_name column.name
  pub only :
      (i : ℕ) (other : String) (c : BoundColumn)
      → Column s i other c
      → Names reference other c.name
      → i ≡ b.index
  pub placed : get_elem? (schema_of s).columns b.index ≡ some b.column
  pub same_type : b.column.data_type ≡ column.data_type
  pub same_length : b.column.length ≡ column.length
  pub same_span : b.span ≡ reference.span

-- The two references of ON denote a column of each side, in the one order or in the other.
pub data OnSides (l r : ColumnReference) (left right : BoundSource)
    : BoundColumnReference × BoundColumnReference → Type 0 where
  straight :
      (x y : BoundColumnReference)
      → Denotes l left x
      → Denotes r right y
      → OnSides l r left right (x, y)
  crossed_over :
      (x y : BoundColumnReference)
      → Denotes r left x
      → Denotes l right y
      → OnSides l r left right (x, y)

-- Every join has the schema of its sides.
abbrev pub IsSource : BoundSource → Type 0
IsSource (table t) = Unit
IsSource (join left right l r schema span) =
    IsSource left
    × IsSource right
    × (schema ≡ join_output_schema (schema_of left) (schema_of right))

-- The bound tree has the tables of the catalogue and the joins of the FROM.
pub data Binds (catalogue : List (String × BoundSchema)) : FromSource → BoundSource → Type 0 where
  a_table :
      (name : Identifier) (span : Span) (schema : BoundSchema)
      → find_schema name.name catalogue ≡ some schema
      → Binds catalogue (table_ref name span) (table (record { schema = schema; span = span }))
  a_join :
      (l r : FromSource) (left_column right_column : ColumnReference) (span : Span)
      (left right : BoundSource) (on : BoundColumnReference × BoundColumnReference)
      → Binds catalogue l left
      → Binds catalogue r right
      → OnSides left_column right_column left right on
      → on.0.column.data_type ≡ on.1.column.data_type
      → Binds catalogue
          (join_ref l r left_column right_column span)
          (join left right on.0 on.1 (join_output_schema (schema_of left) (schema_of right)) span)

pub Binds-IsSource :
    {catalogue : List (String × BoundSchema)} (f : FromSource) (s : BoundSource)
    → Binds catalogue f s
    → IsSource s
Binds-IsSource _ _ (a_table name span schema e) = tt
Binds-IsSource _ _ (a_join l r lc rc span left right on p q o t) =
    (Binds-IsSource l left p, Binds-IsSource r right q, refl)

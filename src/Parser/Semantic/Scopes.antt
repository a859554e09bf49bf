-- ===== src/Parser/Semantic/Scopes.antt =====
-- engine/parser/semantic.py: the names that a query sees, `_lookup` and `_resolve_column`.
pub mod Columns
pub mod Places
pub mod Meant
pub mod Resolved
mod Tests
use quipudb.Prelude.{
  ℕ, ◌+◌, String, Bool, not, ◌&&◌, Option, none, some, List, [], ◌∷◌, ◌++◌, any, length, ◌==◌,
  get_elem?, if◌then◌else◌,
}
use quipudb.Parser.Chars.{Text, text_eq, codes}
use quipudb.Parser.Errors.{
  unknown_qualifier, ambiguous_column, no_column, unknown_table, joined_types,
}
use quipudb.Parser.Ast.{SqlTypeName, ColumnReference, FromSource, table_ref, join_ref}
use quipudb.Parser.BoundAst.{
  BoundColumn, BoundSchema, BoundColumnReference, BoundSource, table, join, schema_of,
  join_output_schema,
}
use quipudb.Parser.Semantic.{Checked, accepted, rejected, raised, ◌>>=◌, pure, fail}

pub record Visible : Type 0 where
  pub table_name : String
  pub column_name : String
  pub index : ℕ

-- `_Scope`
pub record Scope : Type 0 where
  pub schema : BoundSchema
  pub visible : List Visible

unfoldable pub columns_from : String → ℕ → List BoundColumn → List Visible
columns_from name offset [] = []
columns_from name offset (c ∷ cs) =
    record { table_name = name; column_name = c.name; index = offset }
    ∷ columns_from name (offset + 1) cs

-- `_visible_columns`
unfoldable pub visible_columns : BoundSource → ℕ → List Visible
unfolding columns_from schema_of
visible_columns (table t) offset = columns_from t.schema.table_name offset t.schema.columns
visible_columns (join left right l r s span) offset =
    visible_columns left offset ++ visible_columns right (offset + length (schema_of left).columns)

-- `_Scope.of`
unfoldable pub scope_of : BoundSource → Scope
unfolding visible_columns schema_of
scope_of source = record { schema = schema_of source; visible = visible_columns source 0 }

-- A column of the name, in the table of the qualifier if there is one.
abbrev pub is_meant : ColumnReference → Visible → Bool
is_meant reference v =
    let same = text_eq (codes v.column_name) reference.name.name in
    elim reference.qualifier [ none ↦ same | some q ↦ text_eq (codes v.table_name) q.name && same ]

unfoldable pub positions : ColumnReference → List Visible → List ℕ
unfolding text_eq
positions reference [] = []
positions reference (v ∷ vs) =
    let rest = positions reference vs in if is_meant reference v then v.index ∷ rest else rest

-- `BoundColumnReference(index, scope.schema.columns[index], reference.span)`
abbrev pub column_at : ColumnReference → Scope → ℕ → Checked BoundColumnReference
column_at reference scope index = elim (get_elem? scope.schema.columns index) [
  | none ↦ raised
  | some c ↦ accepted (record { index = index; column = c; span = reference.span })
]

-- `_lookup`
unfoldable pub lookup : ColumnReference → Scope → Checked (Option BoundColumnReference)
unfolding positions
lookup reference scope = elim (positions reference scope.visible) [
  | [] ↦ pure none
  | i ∷ [] ↦ elim (column_at reference scope i) [
    | accepted c ↦ pure (some c)
    | rejected e ↦ rejected e
    | raised ↦ raised
  ]
  | i ∷ j ∷ more ↦ pure none
]

-- `catalogo.get(name)`
abbrev pub find_schema : Text → List (String × BoundSchema) → Option BoundSchema
find_schema name [] = none
find_schema name ((k, schema) ∷ more) =
    if text_eq (codes k) name then some schema else find_schema name more

abbrev pub type_rank : SqlTypeName → ℕ
type_rank SqlTypeName.int = 0
type_rank SqlTypeName.double = 1
type_rank SqlTypeName.varchar = 2
type_rank SqlTypeName.bool = 3
type_rank SqlTypeName.date = 4
type_rank SqlTypeName.point = 5
type_rank SqlTypeName.vector = 6

abbrev pub same_type : SqlTypeName → SqlTypeName → Bool
same_type a b = type_rank a == type_rank b

module _ (source : Option Text) where
  -- `_resolve_column`, from the choice among the positions on.
  unfoldable pub only_position : ColumnReference → Scope → List ℕ → Checked BoundColumnReference
  only_position reference scope [] = fail source (no_column reference.name.name) reference.name.span
  only_position reference scope (i ∷ []) = column_at reference scope i
  only_position reference scope (i ∷ j ∷ more) =
      fail source (ambiguous_column reference.name.name) reference.name.span

  -- `_resolve_column`
  unfoldable pub resolve_column : ColumnReference → Scope → Checked BoundColumnReference
  unfolding positions only_position text_eq
  resolve_column reference scope =
      let found = only_position reference scope (positions reference scope.visible) in
      elim reference.qualifier [
        | none ↦ found
        | some q ↦
            if any (λ v. text_eq (codes v.table_name) q.name) scope.visible
            then found
            else fail source (unknown_qualifier q.name) q.span
      ]

  abbrev pub crossed :
      ColumnReference
      → ColumnReference
      → Scope
      → Scope
      → Option BoundColumnReference
      → Option BoundColumnReference
      → Checked (BoundColumnReference × BoundColumnReference)
  crossed l r left right (some x) (some y) = pure (x, y)
  crossed l r left right c d = do x ← resolve_column l left; y ← resolve_column r right; pure (x, y)

  -- The two columns of ON, in either order, or the error of one of them.
  unfoldable pub join_columns :
      ColumnReference
      → ColumnReference
      → Scope
      → Scope
      → Checked (BoundColumnReference × BoundColumnReference)
  unfolding lookup resolve_column
  join_columns l r left right = do
    a ← lookup l left
    b ← lookup r right
    c ← lookup r left
    d ← lookup l right
    elim a [
      | some x ↦ elim b [ some y ↦ pure (x, y) | none ↦ crossed l r left right c d ]
      | none ↦ crossed l r left right c d
    ]

  -- `_bind_source`
  unfoldable pub bind_source : FromSource → List (String × BoundSchema) → Checked BoundSource
  unfolding join_columns scope_of text_eq join_output_schema schema_of
  bind_source (table_ref name span) catalogue = elim (find_schema name.name catalogue) [
    | none ↦ fail source (unknown_table name.name) name.span
    | some schema ↦ pure (table (record { schema = schema; span = span }))
  ]
  bind_source (join_ref l r left_column right_column span) catalogue = do
    left ← bind_source l catalogue
    right ← bind_source r catalogue
    on ← join_columns left_column right_column (scope_of left) (scope_of right)
    if not (same_type on.0.column.data_type on.1.column.data_type)
        then fail source (joined_types on.0.column.name on.1.column.name) span
        else pure
            (join left right on.0 on.1 (join_output_schema (schema_of left) (schema_of right)) span)

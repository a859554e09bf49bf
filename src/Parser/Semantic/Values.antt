-- ===== src/Parser/Semantic/Values.antt =====
-- engine/parser/semantic.py: the values of an INSERT against the columns of the schema.
pub mod Stored
pub mod Accepted
pub mod Complete
use Prim.Native.String.{len}
use quipudb.Prelude.{
  ℕ, ◌+◌, String, Bool, not, ◌||◌, Option, none, some, List, [], ◌∷◌, any, length, get_elem?, ltb,
  ◌==◌, if◌then◌else◌,
}
use quipudb.Prelude.Int.{ℤ, pos, negsuc}
use quipudb.Parser.Chars.{Text, text_eq, codes}
use quipudb.Parser.Chars.Encoded.{encode}
use quipudb.Parser.Span.{Span}
use quipudb.Parser.Errors.{
  wrong_table, wrong_count, int_range, of_column, text_too_long, vector_length,
  component_not_finite, wrong_type,
}
use quipudb.Parser.Ast.{SqlTypeName, Literal, InsertStatement}
use quipudb.Parser.BoundAst.{BoundColumn, BoundSchema, BoundValue, BoundInsertStatement}
use quipudb.Parser.Semantic.{Checked, raised, ◌>>=◌, pure, fail}

-- `float` of an integer, whose `none` is its OverflowError, `math.isfinite`, and `low <= x <= high`.
pub record Floats (F : Type 0) : Type 0 where
  pub of_integer : ℤ → Option F
  pub is_finite : F → Bool
  pub is_within : ℤ → ℤ → F → Bool

-- `_INT32_MIN <= n <= _INT32_MAX`
unfoldable pub is_int32 : ℤ → Bool
is_int32 (pos n) = ltb n 2147483648
is_int32 (negsuc n) = ltb n 2147483648

-- `_literal_type`
unfoldable pub literal_type : {F : Type 0} → Literal F → String
literal_type (Literal.integer n s) = "INT"
literal_type (Literal.double x s) = "DOUBLE"
literal_type (Literal.string w s) = "VARCHAR"
literal_type (Literal.boolean b s) = "BOOL"
literal_type (Literal.date d s) = "DATE"
literal_type (Literal.point p) = "POINT"
literal_type (Literal.vector v) = "VectorLiteral"

-- The attribute `span`, which every literal has.
abbrev pub value_span : {F : Type 0} → Literal F → Span
value_span (Literal.integer n s) = s
value_span (Literal.double x s) = s
value_span (Literal.string w s) = s
value_span (Literal.boolean b s) = s
value_span (Literal.date d s) = s
value_span (Literal.point p) = p.span
value_span (Literal.vector v) = v.span

module _ {F : Type 0} (f : Floats F) (source : Option Text) where
  -- `_wrong_type`
  unfoldable pub fail_type : Literal F → BoundColumn → Checked (BoundValue F)
  unfolding literal_type
  fail_type l c = fail source (wrong_type c.name c.data_type (literal_type l)) (value_span l)

  -- `_bind_int`
  unfoldable pub bind_int : Literal F → BoundColumn → Checked (BoundValue F)
  unfolding fail_type is_int32
  bind_int (Literal.integer n s) c =
      if is_int32 n then pure (BoundValue.integer n) else fail source (int_range c.name n) s
  bind_int l c = fail_type l c

  unfoldable pub finite_double : F → Span → BoundColumn → Checked (BoundValue F)
  finite_double x s c =
      if f.is_finite x
      then pure (BoundValue.double x)
      else fail source (of_column c.name "DOUBLE requiere un valor finito") s

  -- `_bind_double`
  unfoldable pub bind_double : Literal F → BoundColumn → Checked (BoundValue F)
  unfolding fail_type finite_double
  bind_double (Literal.integer n s) c = elim (f.of_integer n) [
    | none ↦ fail source (of_column c.name "el valor desborda DOUBLE") s
    | some x ↦ finite_double x s c
  ]
  bind_double (Literal.double x s) c = finite_double x s c
  bind_double l c = fail_type l c

  abbrev not_utf8 : BoundColumn → Span → Checked (BoundValue F)
  not_utf8 c s = fail source (of_column c.name "el texto no se puede codificar como UTF-8") s

  -- `_bind_varchar`
  unfoldable pub bind_varchar : Literal F → BoundColumn → Checked (BoundValue F)
  unfolding fail_type encode
  bind_varchar (Literal.string w s) c =
      if any (λ x. x == 0) w
      then fail source (of_column c.name "VARCHAR no admite bytes nulos") s
      else elim (encode w) [
        | none ↦ not_utf8 c s
        | some t ↦ elim c.length [
          | none ↦ fail source (of_column c.name "el esquema VARCHAR no tiene longitud") s
          | some n ↦
              if ltb n (len t)
              then fail source (text_too_long c.name (len t) n) s
              else pure (BoundValue.string t)
        ]
      ]
  bind_varchar l c = fail_type l c

  -- `_bind_point`
  unfoldable pub bind_point : Literal F → BoundColumn → Checked (BoundValue F)
  unfolding fail_type
  bind_point (Literal.point p) c =
      if not (f.is_finite p.latitude) || not (f.is_within (negsuc 89) (pos 90) p.latitude)
      then fail source (of_column c.name "la latitud de POINT debe estar entre -90 y 90")
          p.latitude_span
      else if not (f.is_finite p.longitude) || not (f.is_within (negsuc 179) (pos 180) p.longitude)
      then fail source (of_column c.name "la longitud de POINT debe estar entre -180 y 180")
          p.longitude_span
      else pure (BoundValue.point (record { latitude = p.latitude; longitude = p.longitude }))
  bind_point l c = fail_type l c

  -- `spans[i]`, whose IndexError is `raised`, as the span of an error.
  abbrev pub fail_there : List Span → ℕ → (Span → Checked (BoundValue F)) → Checked (BoundValue F)
  fail_there spans i k = elim (get_elem? spans i) [ none ↦ raised | some s ↦ k s ]

  -- The place of the first component that is not finite.
  unfoldable pub first_infinite : ℕ → List F → Option ℕ
  first_infinite i [] = none
  first_infinite i (x ∷ xs) =
      let rest = first_infinite (i + 1) xs in if not (f.is_finite x) then some i else rest

  -- `_bind_vector`
  unfoldable pub bind_vector : Literal F → BoundColumn → Checked (BoundValue F)
  unfolding fail_type first_infinite
  bind_vector (Literal.vector v) c = elim c.length [
    | none ↦ raised
    | some n ↦
        if not (length v.components == n)
        then if ltb n (length v.components)
          then fail_there v.component_spans n
              (fail source (vector_length c.name (length v.components) n))
          else fail source (vector_length c.name (length v.components) n) v.span
        else elim (first_infinite 0 v.components) [
          | none ↦ pure (BoundValue.vector v.components)
          | some i ↦
              fail_there v.component_spans i (fail source (component_not_finite c.name (i + 1)))
        ]
  ]
  bind_vector l c = fail_type l c

  unfoldable pub bind_bool : Literal F → BoundColumn → Checked (BoundValue F)
  unfolding fail_type
  bind_bool (Literal.boolean b s) c = pure (BoundValue.boolean b)
  bind_bool l c = fail_type l c

  unfoldable pub bind_date : Literal F → BoundColumn → Checked (BoundValue F)
  unfolding fail_type
  bind_date (Literal.date d s) c = pure (BoundValue.date d)
  bind_date l c = fail_type l c

  -- `_bind_value`
  unfoldable pub bind_value : Literal F → BoundColumn → Checked (BoundValue F)
  unfolding bind_int bind_double bind_varchar bind_bool bind_date bind_point bind_vector
  bind_value l c = elim c.data_type [
    | SqlTypeName.int ↦ bind_int l c
    | SqlTypeName.double ↦ bind_double l c
    | SqlTypeName.varchar ↦ bind_varchar l c
    | SqlTypeName.bool ↦ bind_bool l c
    | SqlTypeName.date ↦ bind_date l c
    | SqlTypeName.point ↦ bind_point l c
    | SqlTypeName.vector ↦ bind_vector l c
  ]

  -- `zip(values, columns, strict=True)`, whose ValueError is `raised`.
  unfoldable pub bind_values : List (Literal F) → List BoundColumn → Checked (List (BoundValue F))
  unfolding bind_value
  bind_values [] [] = pure []
  bind_values (l ∷ ls) (c ∷ cs) = do v ← bind_value l c; vs ← bind_values ls cs; pure (v ∷ vs)
  bind_values _ _ = raised

  -- `bind_insert`
  unfoldable pub bind_insert : InsertStatement F → BoundSchema → Checked (BoundInsertStatement F)
  unfolding bind_values text_eq
  bind_insert s schema =
      if not (text_eq s.table.name (codes schema.table_name))
      then fail source (wrong_table "INSERT" s.table.name schema.table_name) s.table.span
      else if not (length s.values == length schema.columns)
      then fail source (wrong_count (length s.values) schema.table_name (length schema.columns))
          s.span
      else do
        values ← bind_values s.values schema.columns
        pure (record { table_name = s.table.name; values = values; span = s.span })

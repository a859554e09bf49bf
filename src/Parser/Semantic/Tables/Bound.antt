-- ===== src/Parser/Semantic/Tables/Bound.antt =====
-- engine/parser/semantic.py: what `bind_create_table` accepts.
use mathlib.Core.Path.{subst}
use Prim.Native.Nat.{◌^◌}
use quipudb.Prelude.Int.{ℤ}
use quipudb.Prelude.{
  String, none, leb, leb→le, ℕ, suc, ◌+◌, ◌*◌, ◌≡◌, refl, sym, ap, ◌∙◌, Bool, true, false, Option,
  some, List, [], ◌∷◌, ltb, ◌≤◌, if◌then◌else◌, arith,
}
use quipudb.Parser.Chars.{Text, codes}
use quipudb.Parser.Span.{Span}
use quipudb.Parser.Errors.{said}
use quipudb.Parser.Ast.{SqlTypeName, ColumnDefinition, CreateTableStatement}
use quipudb.Parser.BoundAst.{
  BoundColumn, byte_size, sizes, BoundSchema, record_size, BoundCreateTable,
}
use quipudb.Parser.Semantic.{◌>>=◌, fail, validate_identifier, name_of}
use quipudb.Parser.Semantic.Checks.{
  AnswersUnless, answers, raises, AnswersUnless-if, AnswersUnless-then, AnswersUnless-bind,
  AnswersUnless-weaken, accepts, rejects,
}
use quipudb.Parser.Semantic.Values.Stored.{HasLength, AllSized}
use quipudb.Parser.Semantic.Tables.{
  max_record_size, overflow_from, first_overflow_span, primary_keys, bind_columns, only_key,
  check_size, is_unprintable, bind_create_table,
}
use quipudb.Parser.Semantic.Tables.Columns.{
  name_of-Answers, validate_identifier-Answers, only_key-Answers, bind_columns-Answers,
}
use quipudb.Parser.Semantic.Tables.Shape.{
  SameLength, type_bytes, declared_bytes, IsUncountable, IsName, AllBound, none_left, one_more,
  IsOnlyKey, IsTable,
}

byte_size_total :
    (c : BoundColumn) → HasLength c.data_type c.length → (n : ℕ) × (byte_size c ≡ some n)
unfolding byte_size
byte_size_total c h = by_type c.data_type h
  where
    by_type :
        (t : SqlTypeName)
        → HasLength t c.length
        → (n : ℕ) × (byte_size (record c { data_type = t }) ≡ some n)
    by_type SqlTypeName.int h = (4, refl)
    by_type SqlTypeName.double h = (8, refl)
    by_type SqlTypeName.bool h = (1, refl)
    by_type SqlTypeName.date h = (4, refl)
    by_type SqlTypeName.point h = (16, refl)
    by_type SqlTypeName.varchar (k, e) = (suc k, e)
    by_type SqlTypeName.vector (k, e) = (suc k * 4, rw e)

pub AllBound-AllSized :
    (seen : List Text) (ds : List ColumnDefinition) (cs : List BoundColumn)
    → AllBound seen ds cs
    → AllSized cs
AllBound-AllSized _ _ _ (none_left seen) = tt
AllBound-AllSized _ _ _ (one_more seen d c ds cs h fresh hs) =
    (h.sized, AllBound-AllSized (d.name.name ∷ seen) ds cs hs)

column-bytes :
    (t : SqlTypeName) (l : Option ℤ) (n : Option ℕ) (name : String)
    → HasLength t n
    → SameLength l n
    → byte_size (record { name = name; data_type = t; length = n }) ≡ some (type_bytes t l)
unfolding byte_size
column-bytes SqlTypeName.int l n name h e = refl
column-bytes SqlTypeName.double l n name h e = refl
column-bytes SqlTypeName.bool l n name h e = refl
column-bytes SqlTypeName.date l n name h e = refl
column-bytes SqlTypeName.point l n name h e = refl
column-bytes SqlTypeName.varchar (some z) (some n) name h e = rw e
column-bytes SqlTypeName.varchar none none name (k, p) e = absurd (cc)
column-bytes SqlTypeName.varchar (some z) none name h e = absurd e
column-bytes SqlTypeName.varchar none (some n) name h e = absurd e
column-bytes SqlTypeName.vector (some z) (some n) name h e = rw e
column-bytes SqlTypeName.vector none none name (k, p) e = absurd (cc)
column-bytes SqlTypeName.vector (some z) none name h e = absurd e
column-bytes SqlTypeName.vector none (some n) name h e = absurd e

-- The record of the bound columns has the declared bytes.
sizes-declared_bytes :
    (seen : List Text) (ds : List ColumnDefinition) (cs : List BoundColumn)
    → AllBound seen ds cs
    → sizes cs ≡ some (declared_bytes ds)
sizes-declared_bytes _ _ _ (none_left seen) = refl
sizes-declared_bytes _ _ _ (one_more seen d c ds cs h fresh hs) =
    let first : byte_size c ≡ some (type_bytes d.data_type.name d.data_type.length) =
      column-bytes c.data_type d.data_type.length c.length c.name h.sized h.same_length
      ∙ ap (λ t. some (type_bytes t d.data_type.length)) h.same_type in
    let rest = sizes-declared_bytes (d.name.name ∷ seen) ds cs hs in rw (first, rest, sizes) refl

overflow_from_total :
    (other : Span) (limit size : ℕ) (ds : List ColumnDefinition) (cs : List BoundColumn)
    → AllSized cs
    → (span : Span) × (overflow_from other limit size ds cs ≡ some span)
unfolding overflow_from
overflow_from_total other limit size [] cs h = (other, refl)
overflow_from_total other limit size (d ∷ ds) [] h = (other, refl)
overflow_from_total other limit size (d ∷ ds) (c ∷ cs) h =
    let first = byte_size_total c h.0 in
    let rest = overflow_from_total other limit (size + first.0) ds cs h.1 in
    (
      if ltb limit (size + first.0) then d.data_type.span else rest.0,
      rw (first.1, rest.1, overflow_from) (if_some (ltb limit (size + first.0)) _ _),
    )
  where
    if_some : (t : Bool) (a b : Span) → (if t then some a else some b) ≡ some (if t then a else b)
    if_some true a b = refl
    if_some false a b = refl

table :
    (s : CreateTableStatement) (b : BoundCreateTable) (schema : BoundSchema)
    → b.schema ≡ schema
    → (n : ℕ) × (record_size schema ≡ some n) × (n ≤ max_record_size s.storage)
    → IsName s.table.name
    → codes schema.table_name ≡ s.table.name
    → AllBound [] s.columns schema.columns
    → IsOnlyKey schema.key_column s.columns
    → IsTable s b
table s b schema e size named same bound key = record {
  named = named;
  same_name = ap (λ x. codes x.table_name) e ∙ same;
  bound = subst (λ x. AllBound [] s.columns x.columns) (sym e) bound;
  key = subst (λ x. IsOnlyKey x.key_column s.columns) (sym e) key;
  size = size.0;
  is_size = ap record_size e ∙ size.1;
  fits = size.2;
}

module _ (source : Option Text) where
  check_size-Answers :
      (s : CreateTableStatement) (schema : BoundSchema)
      → AllBound [] s.columns schema.columns
      → AnswersUnless source
          (λ b.
            (b.schema ≡ schema)
            × ((n : ℕ) × (record_size schema ≡ some n) × (n ≤ max_record_size s.storage)))
          (IsUncountable s)
          (check_size source s schema)
  unfolding check_size first_overflow_span record_size is_unprintable
  check_size-Answers s schema h =
      let size = declared_bytes s.columns in
      let is_size = sizes-declared_bytes [] s.columns schema.columns h in
      let limit = max_record_size s.storage in
      let overflow =
        overflow_from_total s.span limit 0 s.columns schema.columns
          (AllBound-AllSized [] s.columns schema.columns h) in
      rw (is_size, check_size, record_size)
        (AnswersUnless-if (ltb limit size)
          (λ _.
            rw (overflow.1, first_overflow_span)
              (AnswersUnless-if (leb (10 ^ 4300) size) (λ e. raises (leb→le (10 ^ 4300) size e))
                (λ _. answers _ (rejects _ refl refl))))
          (λ e. answers _ (accepts _ (refl, (size, refl, ground arith)))))

  pub bind_create_table-Answers :
      (s : CreateTableStatement)
      → AnswersUnless source (IsTable s) (IsUncountable s) (bind_create_table source s)
  unfolding bind_create_table
  bind_create_table-Answers s =
      AnswersUnless-then (validate_identifier source s.table.name "tabla" s.table.span) _
        (validate_identifier-Answers source s.table.name "tabla" s.table.span)
        (λ _ named. by_columns s.columns refl named)
    where
      by_columns :
          (ds : List ColumnDefinition)
          → s.columns ≡ ds
          → IsName s.table.name
          → AnswersUnless source (IsTable s) (IsUncountable s) (elim ds [
            | [] ↦ fail source (said "la tabla debe declarar al menos una columna") s.span
            | d ∷ ds ↦ do
              columns ← bind_columns source s.table.name [] (d ∷ ds)
              key ← only_key source s.span (primary_keys 0 (d ∷ ds))
              name ← name_of s.table.name
              check_size source s
                  (record { table_name = name; columns = columns; key_column = key })
          ])
      by_columns [] e named = answers _ (rejects _ refl refl)
      by_columns (d ∷ ds) e named =
          AnswersUnless-bind (bind_columns source s.table.name [] (d ∷ ds)) _
            (bind_columns-Answers source s.table.name [] (d ∷ ds))
            (λ cs bound.
              AnswersUnless-bind (only_key source s.span (primary_keys 0 (d ∷ ds))) _
                (only_key-Answers source s.span (d ∷ ds))
                (λ k key.
                  AnswersUnless-bind (name_of s.table.name) _ (name_of-Answers s.table.name named.1)
                    (λ t same.
                      AnswersUnless-weaken _
                        (λ b (e', size).
                          table s b (record { table_name = t; columns = cs; key_column = k }) e'
                            size named same (subst (λ l. AllBound [] l cs) (sym e) bound)
                            (subst (λ l. IsOnlyKey k l) (sym e) key))
                        (check_size-Answers s
                          (record { table_name = t; columns = cs; key_column = k })
                          (subst (λ l. AllBound [] l cs) (sym e) bound)))))

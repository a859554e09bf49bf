-- ===== src/Parser/Semantic/Values/Stored.antt =====
-- engine/parser/semantic.py: which value a column stores for a literal, without the code's order of
-- checks.
use Prim.Native.String.{len}
use quipudb.Prelude.{
  ℕ, suc, ◌≡◌, Bool, true, false, Option, none, some, String, List, [], ◌∷◌, any, length, ◌==◌, ◌<◌,
  ◌≤◌, ◌-◌,
}
use quipudb.Prelude.Int.{ℤ, pos, negsuc}
use quipudb.Parser.Chars.{Text, text_eq, codes}
use quipudb.Parser.Chars.Encoded.{encode}
use quipudb.Parser.Span.{Span}
use quipudb.Parser.Ast.{SqlTypeName, Date, PointLiteral, VectorLiteral, Literal, InsertStatement}
use quipudb.Parser.BoundAst.{BoundColumn, BoundSchema, BoundInsertStatement, BoundValue}
use quipudb.Parser.Semantic.Values.{Floats}

-- Between -2147483648 and 2147483647.
abbrev pub InInt32 : ℤ → Type 0
InInt32 (pos n) = n < 2147483648
InInt32 (negsuc n) = n < 2147483648

module _ {F : Type 0} (f : Floats F) where
  pub data IsFloatOf : Literal F → F → Type 0 where
    converted :
        (n : ℤ) (s : Span) (x : F) → f.of_integer n ≡ some x → IsFloatOf (Literal.integer n s) x
    itself : (x : F) (s : Span) → IsFloatOf (Literal.double x s) x

  abbrev pub AllFinite : List F → Type 0
  AllFinite [] = Unit
  AllFinite (x ∷ xs) = (f.is_finite x ≡ true) × AllFinite xs

  abbrev pub InDegrees : ℕ → F → Type 0
  InDegrees n x = (f.is_finite x ≡ true) × (f.is_within (negsuc (n - 1)) (pos n) x ≡ true)

  -- By the type and the length of the column.
  pub data Holds : SqlTypeName → Option ℕ → Literal F → BoundValue F → Type 0 where
    an_int :
        (k : Option ℕ) (n : ℤ) (s : Span)
        → InInt32 n
        → Holds SqlTypeName.int k (Literal.integer n s) (BoundValue.integer n)
    a_double :
        (k : Option ℕ) (l : Literal F) (x : F)
        → IsFloatOf l x
        → f.is_finite x ≡ true
        → Holds SqlTypeName.double k l (BoundValue.double x)
    a_varchar :
        (k : ℕ) (w : Text) (s : Span) (t : String)
        → encode w ≡ some t
        → any (λ c. c == 0) w ≡ false
        → len t ≤ k
        → Holds SqlTypeName.varchar (some k) (Literal.string w s) (BoundValue.string t)
    a_bool :
        (k : Option ℕ) (b : Bool) (s : Span)
        → Holds SqlTypeName.bool k (Literal.boolean b s) (BoundValue.boolean b)
    a_date :
        (k : Option ℕ) (d : Date) (s : Span)
        → Holds SqlTypeName.date k (Literal.date d s) (BoundValue.date d)
    a_point :
        (k : Option ℕ) (p : PointLiteral F)
        → InDegrees 90 p.latitude
        → InDegrees 180 p.longitude
        → Holds SqlTypeName.point k
            (Literal.point p)
            (BoundValue.point (record { latitude = p.latitude; longitude = p.longitude }))
    a_vector :
        (v : VectorLiteral F)
        → AllFinite v.components
        → Holds SqlTypeName.vector
            (some (length v.components))
            (Literal.vector v)
            (BoundValue.vector v.components)

  abbrev pub Stores : BoundColumn → Literal F → BoundValue F → Type 0
  Stores c l v = Holds c.data_type c.length l v

  pub data AllStored : List BoundColumn → List (Literal F) → List (BoundValue F) → Type 0 where
    none_left : AllStored [] [] []
    one_more :
        (c : BoundColumn) (l : Literal F) (v : BoundValue F) (cs : List BoundColumn)
        (ls : List (Literal F)) (vs : List (BoundValue F))
        → Stores c l v
        → AllStored cs ls vs
        → AllStored (c ∷ cs) (l ∷ ls) (v ∷ vs)

  -- What the bound statement says of the statement and the schema.
  abbrev pub Inserted : InsertStatement F → BoundSchema → BoundInsertStatement F → Type 0
  Inserted s schema b =
      (b.table_name ≡ s.table.name)
      × (b.span ≡ s.span)
      × (text_eq s.table.name (codes schema.table_name) ≡ true)
      × AllStored schema.columns s.values b.values

-- A vector has a span for each of its components.
abbrev pub IsLiteral : {F : Type 0} → Literal F → Type 0
IsLiteral (Literal.vector v) = length v.component_spans ≡ length v.components
IsLiteral other = Unit

abbrev pub AllLiterals : {F : Type 0} → List (Literal F) → Type 0
AllLiterals [] = Unit
AllLiterals (l ∷ ls) = IsLiteral l × AllLiterals ls

-- A VARCHAR and a VECTOR have a length, and no other type.
abbrev pub HasLength : SqlTypeName → Option ℕ → Type 0
HasLength SqlTypeName.varchar n = (k : ℕ) × (n ≡ some (suc k))
HasLength SqlTypeName.vector n = (k : ℕ) × (n ≡ some (suc k))
HasLength type n = n ≡ none

abbrev pub AllSized : List BoundColumn → Type 0
AllSized [] = Unit
AllSized (c ∷ cs) = HasLength c.data_type c.length × AllSized cs

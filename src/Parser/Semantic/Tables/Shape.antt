-- ===== src/Parser/Semantic/Tables/Shape.antt =====
-- engine/parser/semantic.py: what a bound table is, without the code's order of checks.
use Prim.Native.Nat.{◌^◌}
use quipudb.Prelude.{
  ◌+◌, ◌*◌, ℕ, suc, ◌≡◌, true, false, Option, none, some, List, [], ◌∷◌, length, ◌≤◌,
}
use quipudb.Prelude.Int.{ℤ, pos}
use quipudb.Parser.Chars.{Text, codes}
use quipudb.Parser.Ast.{SqlTypeName, ColumnDefinition, CreateTableStatement}
use quipudb.Parser.BoundAst.{BoundColumn, record_size, BoundCreateTable}
use quipudb.Parser.Semantic.{is_identifier}
use quipudb.Parser.Semantic.Values.Stored.{HasLength}
use quipudb.Parser.Semantic.Tables.{max_record_size, is_seen}

-- A word of at most 64 characters.
abbrev pub IsName : Text → Type 0
IsName name = (length name ≤ 64) × (is_identifier name ≡ true)

abbrev pub SameLength : Option ℤ → Option ℕ → Type 0
SameLength (some z) (some n) = z ≡ pos n
SameLength none none = Unit
SameLength _ _ = ⊥

pub record IsColumn (d : ColumnDefinition) (c : BoundColumn) : Type 0 where
  pub named : IsName d.name.name
  pub same_name : codes c.name ≡ d.name.name
  pub same_type : c.data_type ≡ d.data_type.name
  pub same_length : SameLength d.data_type.length c.length
  pub sized : HasLength c.data_type c.length

-- Column by column; no name is among those before it, which `seen` has.
pub data AllBound : List Text → List ColumnDefinition → List BoundColumn → Type 0 where
  none_left : (seen : List Text) → AllBound seen [] []
  one_more :
      (seen : List Text) (d : ColumnDefinition) (c : BoundColumn) (ds : List ColumnDefinition)
      (cs : List BoundColumn)
      → IsColumn d c
      → is_seen d.name.name seen ≡ false
      → AllBound (d.name.name ∷ seen) ds cs
      → AllBound seen (d ∷ ds) (c ∷ cs)

abbrev pub NoKey : List ColumnDefinition → Type 0
NoKey [] = Unit
NoKey (d ∷ ds) = (d.primary_key ≡ false) × NoKey ds

-- The column at the place is a primary key, and no other is.
pub data IsOnlyKey : ℕ → List ColumnDefinition → Type 0 where
  here :
      (d : ColumnDefinition) (ds : List ColumnDefinition)
      → d.primary_key ≡ true
      → NoKey ds
      → IsOnlyKey 0 (d ∷ ds)
  there :
      (n : ℕ) (d : ColumnDefinition) (ds : List ColumnDefinition)
      → d.primary_key ≡ false
      → IsOnlyKey n ds
      → IsOnlyKey (suc n) (d ∷ ds)

-- A record of the table fits in a page.
pub record IsTable (s : CreateTableStatement) (b : BoundCreateTable) : Type 0 where
  pub named : IsName s.table.name
  pub same_name : codes b.schema.table_name ≡ s.table.name
  pub bound : AllBound [] s.columns b.schema.columns
  pub key : IsOnlyKey b.schema.key_column s.columns
  pub size : ℕ
  pub is_size : record_size b.schema ≡ some size
  pub fits : size ≤ max_record_size s.storage

-- The bytes of a value of the declared type.
abbrev pub type_bytes : SqlTypeName → Option ℤ → ℕ
type_bytes SqlTypeName.int length = 4
type_bytes SqlTypeName.double length = 8
type_bytes SqlTypeName.bool length = 1
type_bytes SqlTypeName.date length = 4
type_bytes SqlTypeName.point length = 16
type_bytes SqlTypeName.varchar (some (pos n)) = n
type_bytes SqlTypeName.vector (some (pos n)) = n * 4
type_bytes type length = 0

abbrev pub declared_bytes : List ColumnDefinition → ℕ
declared_bytes [] = 0
declared_bytes (d ∷ ds) = type_bytes d.data_type.name d.data_type.length + declared_bytes ds

-- A record of the table has more bytes than a number of 4300 digits counts.
abbrev pub IsUncountable : CreateTableStatement → Type 0
IsUncountable s = 10 ^ 4300 ≤ declared_bytes s.columns

-- ===== src/Parser/BoundAst.antt =====
-- engine/parser/bound_ast.py: the tree after the semantic check, its names resolved to positions of
-- a schema. `F` is the type of the floating-point numbers.
use Prim.Native.String as String'
use quipudb.Prelude.Dict.{elem}
use quipudb.Prelude.{
  if◌then◌else◌, ◌++◌, map, ℕ, ◌+◌, ◌*◌, String, Bool, Option, none, some, List, [], ◌∷◌,
}
use quipudb.Prelude.Int.{ℤ}
use quipudb.Parser.Chars.{Text}
use quipudb.Parser.Span.{Span}
use quipudb.Parser.Ast.{
  SqlTypeName, StorageKind, TextLanguage, Date, IndexKind, VectorMetric, AggregateFunction,
  ScoreKind, ComparisonOperator, DistanceMetric, TextRanking, OrderDirection,
}

pub record BoundColumn : Type 0 where
  pub name : String
  pub data_type : SqlTypeName
  pub length : Option ℕ

-- `none` is the ValueError of a VARCHAR or a VECTOR without a length.
unfoldable pub byte_size : BoundColumn → Option ℕ
byte_size c = elim c.data_type [
  | SqlTypeName.varchar ↦ c.length
  | SqlTypeName.vector ↦ elim c.length [ none ↦ none | some n ↦ some (n * 4) ]
  | SqlTypeName.int ↦ some 4
  | SqlTypeName.double ↦ some 8
  | SqlTypeName.bool ↦ some 1
  | SqlTypeName.date ↦ some 4
  | SqlTypeName.point ↦ some 16
]

pub record BoundSchema : Type 0 where
  pub table_name : String
  pub columns : List BoundColumn
  pub key_column : ℕ

abbrev pub sizes : List BoundColumn → Option ℕ
sizes [] = some 0
sizes (c ∷ cs) = elim (byte_size c) [
  | none ↦ none
  | some n ↦ elim (sizes cs) [ none ↦ none | some m ↦ some (n + m) ]
]

unfoldable pub record_size : BoundSchema → Option ℕ
unfolding byte_size
record_size s = sizes s.columns

pub record BoundCreateTable : Type 0 where
  pub schema : BoundSchema
  pub storage : StorageKind
  pub span : Span

pub record BoundCreateIndexStatement : Type 0 where
  pub index_name : Text
  pub table_name : Text
  pub column_name : Text
  pub kind : IndexKind
  pub span : Span
  pub metric : Option VectorMetric
  pub language : Option TextLanguage

pub record PointValue (F : Type 0) : Type 0 where
  pub latitude : F
  pub longitude : F

pub data BoundValue (F : Type 0) : Type 0 where
  integer : ℤ → BoundValue F
  double : F → BoundValue F
  string : String → BoundValue F
  boolean : Bool → BoundValue F
  date : Date → BoundValue F
  point : PointValue F → BoundValue F
  vector : List F → BoundValue F

pub record BoundInsertStatement (F : Type 0) : Type 0 where
  pub table_name : Text
  pub values : List (BoundValue F)
  pub span : Span

pub record BoundColumnReference : Type 0 where
  pub index : ℕ
  pub column : BoundColumn
  pub span : Span

pub record BoundAggregateCall : Type 0 where
  pub function : AggregateFunction
  pub argument : Option BoundColumnReference
  pub span : Span

pub data BoundProjection : Type 0 where
  column : BoundColumnReference → BoundProjection
  aggregate : BoundAggregateCall → BoundProjection

pub record BoundScoreProjection : Type 0 where
  pub name : String
  pub position : ℕ
  pub span : Span
  pub kind : ScoreKind

pub record BoundScoreOrderBy : Type 0 where
  pub direction : OrderDirection
  pub span : Span
  pub kind : ScoreKind

pub record BoundGroupBy : Type 0 where
  pub column : BoundColumnReference
  pub span : Span

pub record BoundOrderBy : Type 0 where
  pub column : BoundColumnReference
  pub direction : OrderDirection
  pub span : Span

pub record BoundDistanceOrderBy (F : Type 0) : Type 0 where
  pub column : BoundColumnReference
  pub center : PointValue F
  pub metric : DistanceMetric
  pub direction : OrderDirection
  pub span : Span

pub data BoundOrdering (F : Type 0) : Type 0 where
  by_column : BoundOrderBy → BoundOrdering F
  by_distance : BoundDistanceOrderBy F → BoundOrdering F

pub record BoundComparisonCondition (F : Type 0) : Type 0 where
  pub column : BoundColumnReference
  pub operator : ComparisonOperator
  pub value : BoundValue F
  pub span : Span

pub record BoundBetweenCondition (F : Type 0) : Type 0 where
  pub column : BoundColumnReference
  pub lower : BoundValue F
  pub upper : BoundValue F
  pub span : Span

pub record BoundDistanceCondition (F : Type 0) : Type 0 where
  pub column : BoundColumnReference
  pub center : PointValue F
  pub operator : ComparisonOperator
  pub radius : F
  pub metric : DistanceMetric
  pub span : Span

pub record BoundPolygonCondition (F : Type 0) : Type 0 where
  pub column : BoundColumnReference
  pub vertices : List (PointValue F)
  pub span : Span

pub record BoundMatchCondition : Type 0 where
  pub column : BoundColumnReference
  pub query : String
  pub ranking : TextRanking
  pub ranking_explicit : Bool
  pub span : Span

pub record BoundSimilarCondition (F : Type 0) : Type 0 where
  pub column : BoundColumnReference
  pub query : String
  pub k : ℕ
  pub kind : IndexKind
  pub metric : VectorMetric
  pub query_span : Span
  pub metric_span : Span
  pub span : Span
  pub vector : Option (List F)
  pub nprobe : ℕ
  pub ef_search : ℕ

pub data BoundCondition (F : Type 0) : Type 0 where
  comparison : BoundComparisonCondition F → BoundCondition F
  between : BoundBetweenCondition F → BoundCondition F
  distance : BoundDistanceCondition F → BoundCondition F
  polygon : BoundPolygonCondition F → BoundCondition F
  matching : BoundMatchCondition → BoundCondition F
  similar : BoundSimilarCondition F → BoundCondition F

-- The attribute `column`, which every condition has.
unfoldable pub column_of : {F : Type 0} → BoundCondition F → BoundColumnReference
column_of (comparison c) = c.column
column_of (between c) = c.column
column_of (distance c) = c.column
column_of (polygon c) = c.column
column_of (matching c) = c.column
column_of (similar c) = c.column

pub record BoundTableRef : Type 0 where
  pub schema : BoundSchema
  pub span : Span

pub data BoundSource : Type 0 where
  table : BoundTableRef → BoundSource
  join :
      BoundSource
      → BoundSource
      → BoundColumnReference
      → BoundColumnReference
      → BoundSchema
      → Span
      → BoundSource

-- The attribute `schema`, which both kinds of source have.
unfoldable pub schema_of : BoundSource → BoundSchema
schema_of (table t) = t.schema
schema_of (join l r lc rc s span) = s

pub record BoundSelectStatement (F : Type 0) : Type 0 where
  pub source : BoundSource
  pub projections : List BoundProjection
  pub wildcard : Bool
  pub condition : Option (BoundCondition F)
  pub span : Span
  pub group_by : Option BoundGroupBy
  pub order_by : Option (BoundOrdering F)
  pub limit : Option ℕ
  pub score : Option BoundScoreProjection
  pub score_order : Option BoundScoreOrderBy

pub record BoundDeleteStatement (F : Type 0) : Type 0 where
  pub schema : BoundSchema
  pub condition : BoundCondition F
  pub span : Span

-- A column of a side of a join; one whose name is among `taken` gets that of the table before it.
abbrev pub prefixed_column : String → List String → BoundColumn → BoundColumn
prefixed_column name taken c =
    if elem c.name taken then record c { name = String'.◌++◌ name (String'.◌++◌ "." c.name) } else c

unfoldable pub prefixed : String → List String → List BoundColumn → List BoundColumn
prefixed name taken [] = []
prefixed name taken (c ∷ cs) = prefixed_column name taken c ∷ prefixed name taken cs

-- `join_output_schema`; a name of the one side collides if the other has it too.
unfoldable pub join_output_schema : BoundSchema → BoundSchema → BoundSchema
unfolding prefixed
join_output_schema left right = record {
  table_name = String'.◌++◌ left.table_name (String'.◌++◌ "_" right.table_name);
  columns =
      prefixed left.table_name (map (λ c. c.name) right.columns) left.columns
      ++ prefixed right.table_name (map (λ c. c.name) left.columns) right.columns;
  key_column = 0;
}

pub record BoundDropTableStatement : Type 0 where
  pub table_name : Text
  pub span : Span

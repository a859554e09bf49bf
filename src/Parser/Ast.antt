-- ===== src/Parser/Ast.antt =====
-- engine/parser/ast.py: the syntax tree of the SQL subset. `F` is the type of the floating-point
-- numbers, which the tree only carries. A Python union is a data type; `where` is a reserved word
-- and is spelled `condition`.
use quipudb.Prelude.{ℕ, Bool, Option, List}
use quipudb.Prelude.Int.{ℤ}
use quipudb.Parser.Chars.{Text}
use quipudb.Parser.Span.{Span}

pub record Identifier : Type 0 where
  pub name : Text
  pub span : Span

pub data SqlTypeName : Type 0 where
  int double varchar bool date point vector : SqlTypeName

pub record SqlType : Type 0 where
  pub name : SqlTypeName
  pub length : Option ℤ
  pub span : Span

pub record ColumnDefinition : Type 0 where
  pub name : Identifier
  pub data_type : SqlType
  pub primary_key : Bool
  pub span : Span

pub data StorageKind : Type 0 where
  heap sequential : StorageKind

pub data IndexKind : Type 0 where
  bplus_unclustered extendible_hash rtree inverted_index ivf hnsw : IndexKind

pub data VectorMetric : Type 0 where
  euclidean cosine dot : VectorMetric

pub data TextLanguage : Type 0 where
  spanish english : TextLanguage

-- `datetime.date`.
pub record Date : Type 0 where
  pub year : ℕ
  pub month : ℕ
  pub day : ℕ

pub record PointLiteral (F : Type 0) : Type 0 where
  pub latitude : F
  pub longitude : F
  pub latitude_span : Span
  pub longitude_span : Span
  pub span : Span

pub record VectorLiteral (F : Type 0) : Type 0 where
  pub components : List F
  pub component_spans : List Span
  pub span : Span

pub data Literal (F : Type 0) : Type 0 where
  integer : ℤ → Span → Literal F
  double : F → Span → Literal F
  string : Text → Span → Literal F
  boolean : Bool → Span → Literal F
  date : Date → Span → Literal F
  point : PointLiteral F → Literal F
  vector : VectorLiteral F → Literal F

pub record ColumnReference : Type 0 where
  pub name : Identifier
  pub span : Span
  pub qualifier : Option Identifier

pub data AggregateFunction : Type 0 where
  count sum min max avg : AggregateFunction

pub data AggregateArgument : Type 0 where
  wildcard : Span → AggregateArgument
  column : ColumnReference → AggregateArgument

pub record AggregateCall : Type 0 where
  pub function : AggregateFunction
  pub argument : AggregateArgument
  pub span : Span

pub data ScoreKind : Type 0 where
  text similarity : ScoreKind

pub record ScoreCall : Type 0 where
  pub alias : Option Identifier
  pub span : Span
  pub kind : ScoreKind

pub data Projection : Type 0 where
  wildcard : Span → Projection
  column : ColumnReference → Projection
  aggregate : AggregateCall → Projection
  score : ScoreCall → Projection

pub data ComparisonOperator : Type 0 where
  equal less_than less_than_or_equal greater_than greater_than_or_equal : ComparisonOperator

pub data DistanceMetric : Type 0 where
  haversine euclidean : DistanceMetric

pub data TextRanking : Type 0 where
  tf_idf bm25 : TextRanking

pub record ComparisonCondition (F : Type 0) : Type 0 where
  pub column : ColumnReference
  pub operator : ComparisonOperator
  pub value : Literal F
  pub span : Span

pub record BetweenCondition (F : Type 0) : Type 0 where
  pub column : ColumnReference
  pub lower : Literal F
  pub upper : Literal F
  pub span : Span

pub record DistanceCondition (F : Type 0) : Type 0 where
  pub column : ColumnReference
  pub center : PointLiteral F
  pub operator : ComparisonOperator
  pub radius : Literal F
  pub metric : DistanceMetric
  pub span : Span

pub record PolygonLiteral (F : Type 0) : Type 0 where
  pub vertices : List (PointLiteral F)
  pub span : Span

pub record PolygonCondition (F : Type 0) : Type 0 where
  pub column : ColumnReference
  pub polygon : PolygonLiteral F
  pub span : Span

pub record MatchCondition : Type 0 where
  pub column : ColumnReference
  pub query : Text
  pub query_span : Span
  pub ranking : TextRanking
  pub ranking_explicit : Bool
  pub span : Span

pub record SimilarCondition : Type 0 where
  pub column : Option ColumnReference
  pub query : Text
  pub query_span : Span
  pub k : ℤ
  pub k_span : Span
  pub kind : IndexKind
  pub metric : VectorMetric
  pub metric_span : Span
  pub span : Span

pub data Condition (F : Type 0) : Type 0 where
  comparison : ComparisonCondition F → Condition F
  between : BetweenCondition F → Condition F
  distance : DistanceCondition F → Condition F
  polygon : PolygonCondition F → Condition F
  matches : MatchCondition → Condition F
  similar : SimilarCondition → Condition F

pub data OrderDirection : Type 0 where
  asc desc : OrderDirection

pub record OrderBy : Type 0 where
  pub column : ColumnReference
  pub direction : OrderDirection
  pub span : Span

pub record ScoreOrderBy : Type 0 where
  pub direction : OrderDirection
  pub span : Span
  pub kind : ScoreKind

pub record DistanceOrderBy (F : Type 0) : Type 0 where
  pub column : ColumnReference
  pub center : PointLiteral F
  pub metric : DistanceMetric
  pub direction : OrderDirection
  pub span : Span

pub data Ordering (F : Type 0) : Type 0 where
  by_column : OrderBy → Ordering F
  by_distance : DistanceOrderBy F → Ordering F
  by_score : ScoreOrderBy → Ordering F

pub record Limit : Type 0 where
  pub value : ℕ
  pub span : Span

pub record GroupBy : Type 0 where
  pub column : ColumnReference
  pub span : Span

pub record CreateTableStatement : Type 0 where
  pub table : Identifier
  pub columns : List ColumnDefinition
  pub storage : StorageKind
  pub span : Span

pub record CreateIndexStatement : Type 0 where
  pub index : Identifier
  pub table : Identifier
  pub column : Identifier
  pub kind : IndexKind
  pub span : Span
  pub metric : Option VectorMetric
  pub language : Option TextLanguage

pub record InsertStatement (F : Type 0) : Type 0 where
  pub table : Identifier
  pub values : List (Literal F)
  pub span : Span

pub data FromSource : Type 0 where
  table_ref : Identifier → Span → FromSource
  join_ref : FromSource → FromSource → ColumnReference → ColumnReference → Span → FromSource

pub record SelectStatement (F : Type 0) : Type 0 where
  pub projections : List Projection
  pub source : FromSource
  pub condition : Option (Condition F)
  pub group_by : Option GroupBy
  pub order_by : Option (Ordering F)
  pub span : Span
  pub limit : Option Limit

pub record ExplainStatement (F : Type 0) : Type 0 where
  pub statement : SelectStatement F
  pub analyze : Bool
  pub span : Span

pub record DeleteStatement (F : Type 0) : Type 0 where
  pub table : Identifier
  pub condition : Condition F
  pub span : Span

pub record DropTableStatement : Type 0 where
  pub table : Identifier
  pub span : Span

pub data Statement (F : Type 0) : Type 0 where
  create_table : CreateTableStatement → Statement F
  create_index : CreateIndexStatement → Statement F
  insert : InsertStatement F → Statement F
  select : SelectStatement F → Statement F
  explain : ExplainStatement F → Statement F
  delete : DeleteStatement F → Statement F
  drop_table : DropTableStatement → Statement F
  begin_transaction : Span → Statement F
  end_transaction : Span → Statement F

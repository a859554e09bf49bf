-- ===== src/Parser/Tokens.antt =====
-- engine/parser/tokens.py: the kinds of token and the token. A text is a list of code points, as
-- Python sees it; `F` is the type of the floating-point numbers.
use quipudb.Prelude.{Bool}
use quipudb.Prelude.Int.{ℤ}
use quipudb.Parser.Chars.{Text}
use quipudb.Parser.Span.{Span}

pub data TokenKind : Type 0 where
  identifier integer double_literal string create table index on : TokenKind
  primary key using heap sequential bplus bplus_unclustered hash : TokenKind
  extendible_hash rtree fulltext inverted_index ivf hnsw with metric : TokenKind
  similar_to insert into values select explain analyze from join : TokenKind
  where_word delete drop order by asc desc limit group count sum min : TokenKind
  max avg between and distancia dentro polygon match tf_idf bm25 score : TokenKind
  similarity_score as_word haversine euclidean int double varchar bool : TokenKind
  date point vector true false begin transaction end lparen rparen : TokenKind
  comma semicolon star dot equal less_than less_than_or_equal : TokenKind
  greater_than greater_than_or_equal eof : TokenKind

pub data TokenValue (F : Type 0) : Type 0 where
  nothing : TokenValue F
  text : Text → TokenValue F
  integer : ℤ → TokenValue F
  double : F → TokenValue F
  boolean : Bool → TokenValue F

pub record Token (F : Type 0) : Type 0 where
  pub kind : TokenKind
  pub lexeme : Text
  pub value : TokenValue F
  pub span : Span

-- ===== src/Parser/Grammar/Conditions.antt =====
-- engine/parser/parser.py: the conditions of WHERE, and what ORDER BY shares with them.
use quipudb.Prelude.{
  Bool, true, false, not, Option, none, some, [], ◌∷◌, length, ltb, if◌then◌else◌,
}
use quipudb.Prelude.Int.{ℤ, pos, negsuc}
use quipudb.Parser.Span.{Span, through}
use quipudb.Parser.Chars.{codes, text_eq}
use quipudb.Parser.Errors.{said, few_vertices}
use quipudb.Parser.Tokens.{TokenKind, Token}
use quipudb.Parser.Ast.{
  IndexKind, VectorMetric, PointLiteral, Literal, ColumnReference, ComparisonOperator,
  DistanceMetric, TextRanking, DistanceCondition, PolygonCondition, MatchCondition,
  SimilarCondition, Condition,
}
use quipudb.Parser.Kinds.{kind_eq}
use quipudb.Parser.Stream.{
  Env, Parser, pure, ◌>>=◌, ◌>>◌, peek_token, advance_token, previous_token, is_one_of, on_match,
  on_cases, int_value, text_value, fail_with, fail_at, fail_here, lower_text, expect,
  column_reference,
}
use quipudb.Parser.Grammar.Literals.{comma_list, numeric_kinds, point_literal, literal_value}
use quipudb.Parser.Grammar.Tables.{vector_metric}

-- `_COMPARISONS.get(kind)`
unfoldable pub comparison_of : TokenKind → Option ComparisonOperator
comparison_of TokenKind.equal = some ComparisonOperator.equal
comparison_of TokenKind.less_than = some ComparisonOperator.less_than
comparison_of TokenKind.less_than_or_equal = some ComparisonOperator.less_than_or_equal
comparison_of TokenKind.greater_than = some ComparisonOperator.greater_than
comparison_of TokenKind.greater_than_or_equal = some ComparisonOperator.greater_than_or_equal
comparison_of other = none

-- The span that each form of literal has.
unfoldable pub literal_span : {F : Type 0} → Literal F → Span
literal_span (Literal.integer n s) = s
literal_span (Literal.double x s) = s
literal_span (Literal.string w s) = s
literal_span (Literal.boolean b s) = s
literal_span (Literal.date d s) = s
literal_span (Literal.point p) = p.span
literal_span (Literal.vector v) = v.span

-- `_COMPARISONS[kind]` of one of the two kinds that `_distance_condition` lets through.
abbrev radius_operator : TokenKind → ComparisonOperator
radius_operator TokenKind.less_than = ComparisonOperator.less_than
radius_operator other = ComparisonOperator.less_than_or_equal

abbrev pub is_negative : ℤ → Bool
is_negative (pos n) = false
is_negative (negsuc n) = true

module _ {F : Type 0} ⦃env : Env F⦄ where
  unfoldable pub distance_metric : Parser F DistanceMetric
  unfolding on_cases fail_here
  distance_metric =
      on_cases
        ((TokenKind.haversine ∷ [], λ _. pure DistanceMetric.haversine)
          ∷ (TokenKind.euclidean ∷ [], λ _. pure DistanceMetric.euclidean)
          ∷ [])
        (fail_here "se esperaba HAVERSINE o EUCLIDEAN como metrica de DISTANCIA")

  -- `_distance_arguments`
  unfoldable pub distance_arguments : Parser F (ColumnReference × PointLiteral F × DistanceMetric)
  unfolding expect column_reference point_literal on_match distance_metric
  distance_arguments = do
    expect TokenKind.lparen (said "se esperaba '(' despues de DISTANCIA")
    column ← column_reference "se esperaba una columna en DISTANCIA"
    expect TokenKind.comma (said "se esperaba ',' despues de la columna de DISTANCIA")
    point ← expect TokenKind.point (said "se esperaba POINT como centro de DISTANCIA")
    center ← point_literal point
    metric ← on_match (TokenKind.comma ∷ []) (λ _. distance_metric) (pure DistanceMetric.haversine)
    expect TokenKind.rparen (said "se esperaba ')' despues de DISTANCIA")
    pure (column, center, metric)

  -- `_distance_condition`
  unfoldable pub distance_condition : Token F → Parser F (DistanceCondition F)
  unfolding distance_arguments peek_token advance_token literal_value literal_span through
  distance_condition start = do
    arguments ← distance_arguments
    t ← peek_token
    if not (is_one_of (TokenKind.less_than ∷ TokenKind.less_than_or_equal ∷ []) t)
        then fail_at t "DISTANCIA solo admite < o <= para una busqueda por radio"
        else do
          advance_token
          r ← peek_token
          if not (is_one_of numeric_kinds r)
              then fail_at r "el radio de DISTANCIA debe ser numerico"
              else do
                radius ← literal_value
                pure (record {
                  column = arguments.0;
                  center = arguments.1;
                  operator = radius_operator t.kind;
                  radius = radius;
                  metric = arguments.2;
                  span = through start.span (literal_span radius);
                })

  -- `_polygon_vertex`
  unfoldable pub polygon_vertex : Parser F (PointLiteral F)
  unfolding expect point_literal
  polygon_vertex = do
    point ← expect TokenKind.point (said "cada vertice de POLYGON debe ser un POINT")
    point_literal point

  -- `_polygon_condition`
  unfoldable pub polygon_condition : Token F → Parser F (PolygonCondition F)
  unfolding expect column_reference comma_list polygon_vertex through
  polygon_condition start = do
    expect TokenKind.lparen (said "se esperaba '(' despues de DENTRO")
    column ← column_reference "se esperaba una columna en DENTRO"
    expect TokenKind.comma (said "se esperaba ',' despues de la columna de DENTRO")
    polygon_start ← expect TokenKind.polygon (said "se esperaba POLYGON como region de DENTRO")
    expect TokenKind.lparen (said "se esperaba '(' despues de POLYGON")
    vertices ← comma_list polygon_vertex
    polygon_end ← expect TokenKind.rparen (said "se esperaba ')' despues de los vertices")
    if ltb (length vertices) 3 then fail_with polygon_end (few_vertices (length vertices)) else do
      end ← expect TokenKind.rparen (said "se esperaba ')' despues de DENTRO")
      pure (record {
        column = column;
        polygon = record {
          vertices = vertices;
          span = through polygon_start.span polygon_end.span;
        };
        span = through start.span end.span;
      })

  unfoldable pub text_ranking : Parser F (TextRanking × Bool)
  unfolding on_cases fail_here
  text_ranking =
      on_cases
        ((TokenKind.tf_idf ∷ [], λ _. pure (TextRanking.tf_idf, true))
          ∷ (TokenKind.bm25 ∷ [], λ _. pure (TextRanking.bm25, true))
          ∷ [])
        (fail_here "se esperaba TF_IDF o BM25 como ranking de MATCH")

  -- `_match_condition`
  unfoldable pub match_condition : Token F → Parser F MatchCondition
  unfolding expect column_reference peek_token advance_token on_match text_ranking through
  match_condition start = do
    expect TokenKind.lparen (said "se esperaba '(' despues de MATCH")
    column ← column_reference "se esperaba una columna en MATCH"
    expect TokenKind.comma (said "se esperaba ',' despues de la columna de MATCH")
    t ← peek_token
    if not (is_one_of (TokenKind.string ∷ []) t)
        then fail_at t "MATCH necesita la consulta como texto entre comillas"
        else do
          advance_token
          query ← text_value t
          expect TokenKind.rparen (said "se esperaba ')' despues de la consulta de MATCH")
          ranking ←
              on_match (TokenKind.using ∷ []) (λ _. text_ranking) (pure (TextRanking.bm25, false))
          end ← previous_token
          pure (record {
            column = column;
            query = query;
            query_span = t.span;
            ranking = ranking.0;
            ranking_explicit = ranking.1;
            span = through start.span end.span;
          })

  -- The column before the file of SIMILAR_TO.
  unfoldable pub similar_column : Parser F (Option ColumnReference)
  unfolding peek_token column_reference expect
  similar_column = do
    t ← peek_token
    if kind_eq t.kind TokenKind.string then pure none else do
      column ← column_reference "se esperaba la columna VECTOR o el archivo"
      expect TokenKind.comma (said "se esperaba ',' despues de la columna")
      pure (some column)

  -- The name `k` and `=`, where they stand.
  unfoldable pub similar_name : Parser F (Unit {0})
  unfolding peek_token advance_token text_eq expect
  similar_name = do
    t ← peek_token
    if not (is_one_of (TokenKind.identifier ∷ []) t) then pure tt else do
      advance_token
      if not (text_eq (lower_text env.letters t.lexeme) (codes "k"))
          then fail_at t "se esperaba k como parametro de SIMILAR_TO"
          else do expect TokenKind.equal (said "se esperaba '=' despues de k"); pure tt

  unfoldable pub similar_kind : Parser F IndexKind
  unfolding on_cases fail_here
  similar_kind =
      on_cases
        ((TokenKind.hnsw ∷ [], λ _. pure IndexKind.hnsw)
          ∷ (TokenKind.ivf ∷ [], λ _. pure IndexKind.ivf)
          ∷ [])
        (fail_here "SIMILAR_TO requiere un indice HNSW o IVF")

  -- What stands after k in SIMILAR_TO.
  unfoldable pub similar_index : Parser F (IndexKind × VectorMetric × Span)
  unfolding expect similar_kind on_match vector_metric
  similar_index = do
    expect TokenKind.rparen (said "se esperaba ')' despues de k")
    expect TokenKind.using (said "SIMILAR_TO requiere USING HNSW o IVF")
    kind ← similar_kind
    last ← previous_token
    metric ←
        on_match (TokenKind.with ∷ []) (λ _. vector_metric) (pure (VectorMetric.cosine, last.span))
    pure (kind, metric.0, metric.1)

  -- `_similar_condition`
  unfoldable pub similar_condition : Token F → Parser F SimilarCondition
  unfolding expect similar_column similar_name similar_index through
  similar_condition start = do
    expect TokenKind.lparen (said "se esperaba '(' despues de SIMILAR_TO")
    column ← similar_column
    t ← expect TokenKind.string (said "SIMILAR_TO requiere un archivo entre comillas")
    query ← text_value t
    expect TokenKind.comma (said "se esperaba ',' antes de k")
    similar_name
    u ← expect TokenKind.integer (said "k requiere un entero no negativo")
    k ← int_value u
    if is_negative k then fail_at u "k requiere un entero no negativo" else do
      index ← similar_index
      end ← previous_token
      pure (record {
        column = column;
        query = query;
        query_span = t.span;
        k = k;
        k_span = u.span;
        kind = index.0;
        metric = index.1;
        metric_span = index.2;
        span = through start.span end.span;
      })

  -- The conditions that begin with a column.
  unfoldable pub between_condition : ColumnReference → Parser F (Condition F)
  unfolding literal_value expect literal_span through
  between_condition column = do
    lower ← literal_value
    expect TokenKind.and (said "se esperaba AND en la condicion BETWEEN")
    upper ← literal_value
    pure (
        Condition.between (record {
          column = column;
          lower = lower;
          upper = upper;
          span = through column.span (literal_span upper);
        }))

  unfoldable pub comparison_condition : ColumnReference → Parser F (Condition F)
  unfolding peek_token comparison_of advance_token literal_value literal_span through
  comparison_condition column = do
    t ← peek_token
    elim (comparison_of t.kind) [
      | none ↦ fail_at t "se esperaba =, <, <=, >, >= o BETWEEN en WHERE"
      | some operator ↦ do
        advance_token
        value ← literal_value
        pure (
            Condition.comparison (record {
              column = column;
              operator = operator;
              value = value;
              span = through column.span (literal_span value);
            }))
    ]

  unfoldable pub column_condition : Parser F (Condition F)
  unfolding column_reference on_match between_condition comparison_condition
  column_condition = do
    column ← column_reference "se esperaba una columna en WHERE"
    on_match (TokenKind.between ∷ []) (λ _. between_condition column) (comparison_condition column)

  -- `_condition`
  unfoldable pub condition : Parser F (Condition F)
  unfolding on_cases distance_condition polygon_condition match_condition similar_condition
      column_condition
  condition =
      on_cases
        ((TokenKind.distancia ∷ [], λ t. do c ← distance_condition t; pure (Condition.distance c))
          ∷ (TokenKind.dentro ∷ [], λ t. do c ← polygon_condition t; pure (Condition.polygon c))
          ∷ (TokenKind.match ∷ [], λ t. do c ← match_condition t; pure (Condition.matches c))
          ∷ (TokenKind.similar_to ∷ [], λ t. do c ← similar_condition t; pure (Condition.similar c))
          ∷ [])
        column_condition

-- The attribute `span`, which every condition has.
unfoldable pub condition_span : {F : Type 0} → Condition F → Span
condition_span (Condition.comparison c) = c.span
condition_span (Condition.between c) = c.span
condition_span (Condition.distance c) = c.span
condition_span (Condition.polygon c) = c.span
condition_span (Condition.matches c) = c.span
condition_span (Condition.similar c) = c.span

-- ===== src/Parser/Grammar/Queries.antt =====
-- engine/parser/parser.py: SELECT and EXPLAIN, by their clauses.
use quipudb.Prelude.{String, Bool, false, not, Option, none, some, List, [], ◌∷◌, if◌then◌else◌}
use quipudb.Prelude.Int.{ℤ, pos, negsuc}
use quipudb.Parser.Span.{Span, through}
use quipudb.Parser.Chars.{Text, codes, text_eq}
use quipudb.Parser.Errors.{said, paren_after, no_arguments}
use quipudb.Parser.Tokens.{TokenKind, Token}
use quipudb.Parser.Ast.{
  Identifier, ColumnReference, AggregateFunction, AggregateArgument, ScoreKind, ScoreCall,
  Projection, OrderDirection, Ordering, Limit, GroupBy, FromSource, SelectStatement,
  ExplainStatement,
}
use quipudb.Parser.Kinds.{kind_eq}
use quipudb.Parser.Stream.{
  Env, at, with_fuel, Parser, pure, ◌>>=◌, ◌>>◌, done, crashed, peek_token, advance_token,
  previous_token, is_one_of, check_kind, match_kinds, on_match, on_cases, int_value, fail_at,
  fail_here, upper_text, expect, identifier, column_reference,
}
use quipudb.Parser.Grammar.Literals.{more_items, comma_list}
use quipudb.Parser.Grammar.Conditions.{distance_arguments, condition, condition_span}

-- `ScoreKind(name)`; `none` is the ValueError.
unfoldable pub score_kind : Text → Option ScoreKind
unfolding text_eq
score_kind name =
    if text_eq name (codes "SCORE")
    then some ScoreKind.text
    else if text_eq name (codes "SIMILARITY_SCORE")
    then some ScoreKind.similarity
    else none

abbrev score_value : ScoreKind → String
score_value ScoreKind.text = "SCORE"
score_value ScoreKind.similarity = "SIMILARITY_SCORE"

-- `_AGGREGATES`
unfoldable pub aggregate_of : TokenKind → Option AggregateFunction
aggregate_of TokenKind.count = some AggregateFunction.count
aggregate_of TokenKind.sum = some AggregateFunction.sum
aggregate_of TokenKind.min = some AggregateFunction.min
aggregate_of TokenKind.max = some AggregateFunction.max
aggregate_of TokenKind.avg = some AggregateFunction.avg
aggregate_of other = none

abbrev pub score_kinds : List TokenKind
score_kinds = TokenKind.score ∷ TokenKind.similarity_score ∷ []

unfoldable pub source_span : FromSource → Span
source_span (FromSource.table_ref table s) = s
source_span (FromSource.join_ref l r lc rc s) = s

unfoldable pub ordering_span : {F : Type 0} → Ordering F → Span
ordering_span (Ordering.by_column o) = o.span
ordering_span (Ordering.by_distance o) = o.span
ordering_span (Ordering.by_score o) = o.span

-- The span of a clause that is there, or else the one before.
abbrev pub span_or : {A : Type 0} → (A → Span) → Option A → Span → Span
span_or span none before = before
span_or span (some a) before = span a

module _ {F : Type 0} where
  -- `self._tokens[self._current + 1]`
  unfoldable pub second_token : Parser F (Token F)
  second_token (at p (t ∷ u ∷ ts)) = done u (at p (t ∷ u ∷ ts))
  second_token other = crashed

  -- `if self._match(kind): a = clause(self._previous())`, for an `a` that was None.
  unfoldable pub optional : {A : Type 0} → TokenKind → (Token F → Parser F A) → Parser F (Option A)
  unfolding on_match
  optional kind clause = on_match (kind ∷ []) (λ t. do a ← clause t; pure (some a)) (pure none)

  -- ASC or DESC, with the end of the clause.
  unfoldable pub direction : Span → Parser F (OrderDirection × Span)
  unfolding on_cases
  direction end_span =
      on_cases
        ((TokenKind.asc ∷ [], λ t. pure (OrderDirection.asc, t.span))
          ∷ (TokenKind.desc ∷ [], λ t. pure (OrderDirection.desc, t.span))
          ∷ [])
        (pure (OrderDirection.asc, end_span))

module _ {F : Type 0} ⦃env : Env F⦄ where
  -- `ScoreKind(token.lexeme.upper())`
  unfoldable pub score_kind_of : Token F → Parser F ScoreKind
  unfolding score_kind
  score_kind_of t = elim (score_kind (upper_text env.letters t.lexeme)) [
    | none ↦ λ s. crashed
    | some kind ↦ pure kind
  ]

  -- The alias of a score, after AS.
  unfoldable pub score_alias : Parser F Identifier
  unfolding on_match identifier
  score_alias =
      on_match score_kinds (λ t. pure (record { name = t.lexeme; span = t.span }))
        (identifier "se esperaba un nombre despues de AS")

  -- `_score_call`
  unfoldable pub score_call : Token F → Parser F ScoreCall
  unfolding score_kind_of expect optional score_alias through
  score_call start = do
    kind ← score_kind_of start
    expect TokenKind.lparen (paren_after (score_value kind))
    end ← expect TokenKind.rparen (no_arguments (score_value kind))
    alias ← optional TokenKind.as_word (λ _. score_alias)
    pure (record {
      alias = alias;
      span = through start.span (span_or (λ i. i.span) alias end.span);
      kind = kind;
    })

  -- The argument of an aggregate.
  unfoldable pub aggregate_argument : AggregateFunction → Parser F AggregateArgument
  unfolding on_match fail_here column_reference
  aggregate_argument AggregateFunction.count =
      on_match (TokenKind.star ∷ []) (λ t. pure (AggregateArgument.wildcard t.span))
        (fail_here "COUNT requiere '*' como argumento")
  aggregate_argument other =
      on_match (TokenKind.star ∷ []) (λ t. fail_at t "solo COUNT admite '*' como argumento")
        (do
          column ← column_reference "se esperaba una columna como argumento del agregado"
          pure (AggregateArgument.column column))

  -- `_aggregate`, whose function token is still to be read.
  unfoldable pub aggregate_call : AggregateFunction → Parser F Projection
  unfolding advance_token expect aggregate_argument through
  aggregate_call function = do
    start ← advance_token
    expect TokenKind.lparen (said "se esperaba '(' despues de la funcion de agregado")
    argument ← aggregate_argument function
    end ← expect TokenKind.rparen (said "se esperaba ')' despues del argumento del agregado")
    pure (
        Projection.aggregate
          (record { function = function; argument = argument; span = through start.span end.span }))

  -- `_projection`
  unfoldable pub projection : Parser F Projection
  unfolding on_match score_call peek_token aggregate_of aggregate_call column_reference
  projection =
      on_match score_kinds (λ t. do c ← score_call t; pure (Projection.score c))
        (do
          t ← peek_token
          elim (aggregate_of t.kind) [
            | some function ↦ aggregate_call function
            | none ↦ do
              column ← column_reference "se esperaba una columna o funcion de agregado"
              pure (Projection.column column)
          ])

  -- What may stand beside `*`.
  unfoldable pub starred_score : Parser F Projection
  unfolding on_match score_call fail_here
  starred_score =
      on_match score_kinds (λ t. do c ← score_call t; pure (Projection.score c))
        (fail_here
          "'*' no se puede combinar con otras proyecciones, salvo SCORE() o SIMILARITY_SCORE()")

  -- `_projection_list`
  unfoldable pub projection_list : Parser F (List Projection)
  unfolding on_match more_items starred_score comma_list projection
  projection_list =
      on_match (TokenKind.star ∷ [])
        (λ t. do
          scores ← with_fuel (more_items starred_score)
          pure (Projection.wildcard t.span ∷ scores))
        (comma_list projection)

  -- `_table_ref`
  unfoldable pub table_reference : Parser F FromSource
  unfolding identifier
  table_reference = do
    table ← identifier "se esperaba el nombre de la tabla"
    pure (FromSource.table_ref table table.span)

  -- `_join`
  unfoldable pub join_source : FromSource → Parser F FromSource
  unfolding table_reference expect column_reference source_span through
  join_source left = do
    right ← table_reference
    expect TokenKind.on (said "se esperaba ON despues de la tabla del JOIN")
    left_column ← column_reference "se esperaba una columna despues de ON"
    expect TokenKind.equal (said "el ON de un JOIN solo admite una igualdad entre dos columnas")
    right_column ← column_reference "se esperaba una columna despues de '=' en la condicion ON"
    pure (
        FromSource.join_ref left right left_column right_column
          (through (source_span left) right_column.span))

  -- `_from_source`
  unfoldable pub from_source : Parser F FromSource
  unfolding table_reference on_match join_source check_kind fail_here
  from_source = do
    left ← table_reference
    source ← on_match (TokenKind.join ∷ []) (λ _. join_source left) (pure left)
    again ← check_kind TokenKind.join
    if again then fail_here "esta version admite un solo JOIN por consulta" else pure source

  -- `_group_by`
  unfoldable pub group_by_clause : Token F → Parser F GroupBy
  unfolding expect column_reference through
  group_by_clause start = do
    expect TokenKind.by (said "se esperaba BY despues de GROUP")
    column ← column_reference "se esperaba una columna despues de GROUP BY"
    pure (record { column = column; span = through start.span column.span })

  -- The three forms of ORDER BY.
  unfoldable pub score_order : Token F → Parser F (Ordering F)
  unfolding advance_token score_kind_of expect direction through
  score_order start = do
    t ← advance_token
    kind ← score_kind_of t
    expect TokenKind.lparen (paren_after (score_value kind))
    end ← expect TokenKind.rparen (no_arguments (score_value kind))
    d ← direction end.span
    pure
        (Ordering.by_score (record { direction = d.0; span = through start.span d.1; kind = kind }))

  unfoldable pub distance_order : Token F → Parser F (Ordering F)
  unfolding distance_arguments direction through
  distance_order start = do
    arguments ← distance_arguments
    end ← previous_token
    d ← direction end.span
    pure (
        Ordering.by_distance (record {
          column = arguments.0;
          center = arguments.1;
          metric = arguments.2;
          direction = d.0;
          span = through start.span d.1;
        }))

  unfoldable pub order_column : Parser F ColumnReference
  unfolding on_match column_reference
  order_column =
      on_match score_kinds
        (λ t. pure (record {
          name = record { name = t.lexeme; span = t.span };
          span = t.span;
          qualifier = none;
        }))
        (column_reference "se esperaba una columna despues de ORDER BY")

  unfoldable pub column_order : Token F → Parser F (Ordering F)
  unfolding order_column direction through
  column_order start = do
    column ← order_column
    d ← direction column.span
    pure (
        Ordering.by_column
          (record { column = column; direction = d.0; span = through start.span d.1 }))

  -- Whether SCORE or SIMILARITY_SCORE with a parenthesis comes next.
  unfoldable pub is_score_call : Parser F Bool
  unfolding peek_token second_token
  is_score_call = do
    t ← peek_token
    if is_one_of score_kinds t
        then (do u ← second_token; pure (kind_eq u.kind TokenKind.lparen))
        else pure false

  -- `_order_by`
  unfoldable pub order_by_clause : Token F → Parser F (Ordering F)
  unfolding expect is_score_call score_order on_match distance_order column_order
  order_by_clause start = do
    expect TokenKind.by (said "se esperaba BY despues de ORDER")
    by_score ← is_score_call
    if by_score
        then score_order start
        else on_match (TokenKind.distancia ∷ []) (λ _. distance_order start) (column_order start)

  -- The limit itself, once it is a number.
  unfoldable pub limit_value : Token F → Token F → ℤ → Parser F Limit
  unfolding through
  limit_value start t (pos n) = pure (record { value = n; span = through start.span t.span })
  limit_value start t (negsuc n) = fail_at t "LIMIT no admite valores negativos"

  -- `_limit`
  unfoldable pub limit_clause : Token F → Parser F Limit
  unfolding peek_token advance_token limit_value
  limit_clause start = do
    t ← peek_token
    if not (is_one_of (TokenKind.integer ∷ []) t)
        then fail_at t "LIMIT requiere un entero no negativo"
        else do advance_token; value ← int_value t; limit_value start t value

  -- `_select`
  unfoldable pub select_statement : Token F → Parser F (SelectStatement F)
  unfolding projection_list expect from_source optional condition group_by_clause order_by_clause
      limit_clause source_span condition_span ordering_span through
  select_statement start = do
    projections ← projection_list
    expect TokenKind.from (said "se esperaba FROM despues de la proyeccion")
    source ← from_source
    filter ← optional TokenKind.where_word (λ _. condition)
    group ← optional TokenKind.group group_by_clause
    order ← optional TokenKind.order order_by_clause
    limit ← optional TokenKind.limit limit_clause
    let end_span =
        span_or (λ l. l.span) limit
          (span_or ordering_span order
            (span_or (λ g. g.span) group (span_or condition_span filter (source_span source))))
    pure (record {
      projections = projections;
      source = source;
      condition = filter;
      group_by = group;
      order_by = order;
      span = through start.span end_span;
      limit = limit;
    })

  -- `_explain`
  unfoldable pub explain_statement : Token F → Parser F (ExplainStatement F)
  unfolding match_kinds expect select_statement through
  explain_statement start = do
    analyze ← match_kinds (TokenKind.analyze ∷ [])
    select ← expect TokenKind.select (said "EXPLAIN solo admite una sentencia SELECT")
    statement ← select_statement select
    pure (record {
      statement = statement;
      analyze = analyze;
      span = through start.span statement.span;
    })

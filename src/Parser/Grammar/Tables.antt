-- ===== src/Parser/Grammar/Tables.antt =====
-- engine/parser/parser.py: CREATE TABLE, CREATE INDEX, INSERT and DROP TABLE.
use quipudb.Prelude.{
  String, Bool, true, false, not, ◌||◌, Option, none, some, [], ◌∷◌, if◌then◌else◌, ◌==◌,
}
use quipudb.Parser.Span.{Span, through}
use quipudb.Parser.Chars.{Text, codes, text_eq}
use quipudb.Parser.Errors.{said}
use quipudb.Parser.Tokens.{TokenKind, Token}
use quipudb.Parser.Ast.{
  SqlTypeName, SqlType, ColumnDefinition, StorageKind, IndexKind, VectorMetric, TextLanguage,
  CreateTableStatement, CreateIndexStatement, InsertStatement, DropTableStatement,
}
use quipudb.Parser.Kinds.{kind_eq}
use quipudb.Parser.Stream.{
  Env, Parser, pure, ◌>>=◌, ◌>>◌, peek_token, advance_token, previous_token, on_match, on_cases,
  int_value, fail_at, fail_here, lower_text, expect, identifier,
}
use quipudb.Parser.Grammar.Literals.{comma_list, literal_value}

-- `VectorMetric(name)` and `TextLanguage(name)`; `none` is the ValueError.
unfoldable pub metric_of : Text → Option VectorMetric
unfolding text_eq
metric_of name =
    if text_eq name (codes "euclidean")
    then some VectorMetric.euclidean
    else if text_eq name (codes "cosine")
    then some VectorMetric.cosine
    else if text_eq name (codes "dot")
    then some VectorMetric.dot
    else none

unfoldable pub language_of : Text → Option TextLanguage
unfolding text_eq
language_of name =
    if text_eq name (codes "spanish")
    then some TextLanguage.spanish
    else if text_eq name (codes "english")
    then some TextLanguage.english
    else none

-- Whether the lexeme starts with `-`.
abbrev pub starts_minus : Text → Bool
starts_minus [] = false
starts_minus (c ∷ w) = c == 45

module _ {F : Type 0} ⦃env : Env F⦄ where
  -- A type with a length in parentheses, after its name.
  unfoldable pub sized_type :
      SqlTypeName → String → String → String → String → Token F → Parser F SqlType
  unfolding expect through
  sized_type name no_open no_length negative no_close start = do
    expect TokenKind.lparen (said no_open)
    t ← expect TokenKind.integer (said no_length)
    length ← int_value t
    if starts_minus t.lexeme then fail_at t negative else do
      end ← expect TokenKind.rparen (said no_close)
      pure (record { name = name; length = some length; span = through start.span end.span })

  abbrev plain_type : SqlTypeName → Token F → Parser F SqlType
  plain_type name t = pure (record { name = name; length = none; span = t.span })

  -- `_sql_type`
  unfoldable pub sql_type : Parser F SqlType
  unfolding on_cases sized_type fail_here
  sql_type =
      on_cases
        ((TokenKind.int ∷ [], plain_type SqlTypeName.int)
          ∷ (TokenKind.double ∷ [], plain_type SqlTypeName.double)
          ∷ (TokenKind.bool ∷ [], plain_type SqlTypeName.bool)
          ∷ (TokenKind.date ∷ [], plain_type SqlTypeName.date)
          ∷ (TokenKind.point ∷ [], plain_type SqlTypeName.point)
          ∷ (
            TokenKind.varchar ∷ [],
            sized_type SqlTypeName.varchar "se esperaba '(' despues de VARCHAR"
                "se esperaba una longitud entera para VARCHAR"
                "la longitud de VARCHAR debe ser un entero sin signo"
                "se esperaba ')' despues de la longitud de VARCHAR",
          )
          ∷ (
            TokenKind.vector ∷ [],
            sized_type SqlTypeName.vector "se esperaba '(' despues de VECTOR"
                "se esperaba una dimension entera para VECTOR"
                "la dimension de VECTOR debe ser un entero sin signo"
                "se esperaba ')' despues de la dimension de VECTOR",
          )
          ∷ [])
        (fail_here "se esperaba un tipo INT, DOUBLE, VARCHAR(n), BOOL, DATE, POINT o VECTOR(d)")

  -- `_column_definition`
  unfoldable pub column_definition : Parser F ColumnDefinition
  unfolding identifier sql_type on_match expect through
  column_definition = do
    name ← identifier "se esperaba el nombre de una columna"
    data_type ← sql_type
    on_match (TokenKind.primary ∷ [])
        (λ _. do
          end ← expect TokenKind.key (said "se esperaba KEY despues de PRIMARY")
          pure (record {
            name = name;
            data_type = data_type;
            primary_key = true;
            span = through name.span end.span;
          }))
        (pure (record {
          name = name;
          data_type = data_type;
          primary_key = false;
          span = through name.span data_type.span;
        }))

  -- The storage, after USING.
  unfoldable pub storage_kind : Parser F StorageKind
  unfolding on_cases fail_here
  storage_kind =
      on_cases
        ((TokenKind.heap ∷ [], λ _. pure StorageKind.heap)
          ∷ (TokenKind.sequential ∷ [], λ _. pure StorageKind.sequential)
          ∷ [])
        (fail_here "se esperaba HEAP o SEQUENTIAL despues de USING")

  -- `_create_table`
  unfoldable pub create_table_statement : Token F → Parser F CreateTableStatement
  unfolding identifier expect comma_list column_definition on_match storage_kind through
  create_table_statement start = do
    table ← identifier "se esperaba el nombre de la tabla"
    expect TokenKind.lparen (said "se esperaba '(' despues del nombre de la tabla")
    columns ← comma_list column_definition
    expect TokenKind.rparen (said "se esperaba ')' despues de las columnas")
    storage ← on_match (TokenKind.using ∷ []) (λ _. storage_kind) (pure StorageKind.heap)
    end ← previous_token
    pure (record {
      table = table;
      columns = columns;
      storage = storage;
      span = through start.span end.span;
    })

  -- `_vector_metric`
  unfoldable pub vector_metric : Parser F (VectorMetric × Span)
  unfolding expect peek_token advance_token metric_of
  vector_metric = do
    expect TokenKind.metric (said "se esperaba METRIC despues de WITH")
    expect TokenKind.equal (said "se esperaba '=' despues de METRIC")
    t ← peek_token
    elim (metric_of (lower_text env.letters t.lexeme)) [
      | none ↦ fail_at t "la metrica debe ser euclidean, cosine o dot"
      | some metric ↦ do advance_token; pure (metric, t.span)
    ]

  -- `_text_language`
  unfoldable pub text_language : Parser F TextLanguage
  unfolding peek_token text_eq expect advance_token language_of
  text_language = do
    name ← peek_token
    if not (kind_eq name.kind TokenKind.identifier)
          || not (text_eq (lower_text env.letters name.lexeme) (codes "language"))
        then fail_at name "se esperaba LANGUAGE despues de WITH"
        else do
          advance_token
          expect TokenKind.equal (said "se esperaba '=' despues de LANGUAGE")
          t ← peek_token
          elim (language_of (lower_text env.letters t.lexeme)) [
            | none ↦ fail_at t "el idioma debe ser spanish o english"
            | some language ↦
                if not (kind_eq t.kind TokenKind.identifier)
                then fail_at t "el idioma debe ser spanish o english"
                else do advance_token; pure language
          ]

  -- The structure, after USING.
  unfoldable pub index_kind : Parser F IndexKind
  unfolding on_cases fail_here
  index_kind =
      on_cases
        ((TokenKind.bplus ∷ TokenKind.bplus_unclustered ∷ [], λ _. pure IndexKind.bplus_unclustered)
          ∷ (TokenKind.hash ∷ TokenKind.extendible_hash ∷ [], λ _. pure IndexKind.extendible_hash)
          ∷ (TokenKind.rtree ∷ [], λ _. pure IndexKind.rtree)
          ∷ (TokenKind.hnsw ∷ [], λ _. pure IndexKind.hnsw)
          ∷ (TokenKind.ivf ∷ [], λ _. pure IndexKind.ivf)
          ∷ (TokenKind.fulltext ∷ TokenKind.inverted_index ∷ [], λ _. pure IndexKind.inverted_index)
          ∷ [])
        (fail_here
          "se esperaba BPLUS, BPLUS_UNCLUSTERED, HASH, EXTENDIBLE_HASH, RTREE, FULLTEXT, INVERTED_INDEX, HNSW o IVF despues de USING")

  -- The metric of an HNSW index, and the language of an inverted index.
  unfoldable pub index_metric : IndexKind → Parser F (Option VectorMetric)
  unfolding on_match vector_metric
  index_metric IndexKind.hnsw =
      on_match (TokenKind.with ∷ []) (λ _. do m ← vector_metric; pure (some m.0))
        (pure (some VectorMetric.cosine))
  index_metric other = pure none

  unfoldable pub index_language : IndexKind → Parser F (Option TextLanguage)
  unfolding on_match text_language
  index_language IndexKind.inverted_index =
      on_match (TokenKind.with ∷ []) (λ _. do l ← text_language; pure (some l)) (pure none)
  index_language other = pure none

  -- `_create_index`
  unfoldable pub create_index_statement : Token F → Parser F CreateIndexStatement
  unfolding identifier expect index_kind index_metric index_language through
  create_index_statement start = do
    index ← identifier "se esperaba el nombre del indice"
    expect TokenKind.on (said "se esperaba ON despues del nombre del indice")
    table ← identifier "se esperaba el nombre de la tabla"
    expect TokenKind.lparen (said "se esperaba '(' despues del nombre de la tabla")
    column ← identifier "se esperaba el nombre de la columna indexada"
    expect TokenKind.rparen (said "se esperaba ')' despues de la columna indexada")
    expect TokenKind.using (said "se esperaba USING despues de la columna indexada")
    kind ← index_kind
    metric ← index_metric kind
    language ← index_language kind
    end ← previous_token
    pure (record {
      index = index;
      table = table;
      column = column;
      kind = kind;
      span = through start.span end.span;
      metric = metric;
      language = language;
    })

  -- `_insert`
  unfoldable pub insert_statement : Token F → Parser F (InsertStatement F)
  unfolding expect identifier comma_list literal_value through
  insert_statement start = do
    expect TokenKind.into (said "se esperaba INTO despues de INSERT")
    table ← identifier "se esperaba el nombre de la tabla"
    expect TokenKind.values (said "se esperaba VALUES despues del nombre de la tabla")
    expect TokenKind.lparen (said "se esperaba '(' despues de VALUES")
    values ← comma_list literal_value
    end ← expect TokenKind.rparen (said "se esperaba ')' despues de los valores")
    pure (record { table = table; values = values; span = through start.span end.span })

  -- `_drop_table`
  unfoldable pub drop_table_statement : Token F → Parser F DropTableStatement
  unfolding expect identifier through
  drop_table_statement start = do
    expect TokenKind.table (said "se esperaba TABLE despues de DROP")
    table ← identifier "se esperaba el nombre de la tabla"
    pure (record { table = table; span = through start.span table.span })

-- ===== src/Parser/Grammar/Statements.antt =====
-- engine/parser/parser.py: DELETE and the transactions, the choice of the statement, and the two
-- ways to read a query, `parse_sql` and `parse_sql_script`.
use quipudb.Prelude.{ℕ, zero, suc, String, true, false, List, [], ◌∷◌, if◌then◌else◌}
use quipudb.Parser.Span.{Span, through}
use quipudb.Parser.Errors.{said, unsupported_error, unexpected_input}
use quipudb.Parser.Tokens.{TokenKind, Token}
use quipudb.Parser.Ast.{DeleteStatement, Statement}
use quipudb.Parser.Kinds.{kind_eq}
use quipudb.Parser.Stream.{
  Env, at, Outcome, Parser, pure, ◌>>=◌, ◌>>◌, crashed, out_of_fuel, peek_token, check_kind,
  on_match, on_cases, raise, fail_at, fail_with, fail_here, is_unsupported, raise_unsupported,
  expect, identifier, with_fuel,
}
use quipudb.Parser.Grammar.Tables.{
  create_table_statement, create_index_statement, insert_statement, drop_table_statement,
}
use quipudb.Parser.Grammar.Conditions.{condition, condition_span}
use quipudb.Parser.Grammar.Queries.{select_statement, explain_statement}

-- `self._tokens[-1]`
abbrev pub last_token : {F : Type 0} → Token F → List (Token F) → Token F
last_token t [] = t
last_token t (u ∷ us) = last_token u us

module _ {F : Type 0} ⦃env : Env F⦄ where
  -- `_delete`
  unfoldable pub delete_statement : Token F → Parser F (DeleteStatement F)
  unfolding expect identifier condition condition_span through
  delete_statement start = do
    expect TokenKind.from (said "se esperaba FROM despues de DELETE")
    table ← identifier "se esperaba el nombre de la tabla"
    expect TokenKind.where_word (said "DELETE requiere una clausula WHERE")
    filter ← condition
    pure (record {
      table = table;
      condition = filter;
      span = through start.span (condition_span filter);
    })

  -- `_begin_transaction` and `_end_transaction`
  unfoldable pub transaction_statement :
      (Span → Statement F) → String → Token F → Parser F (Statement F)
  unfolding expect through
  transaction_statement statement message start = do
    end ← expect TokenKind.transaction (said message)
    pure (statement (through start.span end.span))

  -- `_create`
  unfoldable pub create_statement : Token F → Parser F (Statement F)
  unfolding on_cases create_table_statement create_index_statement fail_here
  create_statement start =
      on_cases
        ((
          TokenKind.table ∷ [],
          λ _. do c ← create_table_statement start; pure (Statement.create_table c),
        )
          ∷ (
            TokenKind.index ∷ [],
            λ _. do c ← create_index_statement start; pure (Statement.create_index c),
          )
          ∷ [])
        (fail_here "se esperaba TABLE o INDEX despues de CREATE")

  unfoldable pub no_statement : Parser F (Statement F)
  unfolding peek_token is_unsupported raise_unsupported
  no_statement = do
    t ← peek_token
    if is_unsupported t
        then raise_unsupported t
        else fail_at t
            "se esperaba CREATE TABLE, CREATE INDEX, DROP TABLE, INSERT INTO, SELECT, EXPLAIN, DELETE FROM, BEGIN TRANSACTION o END TRANSACTION"

  -- `_statement`
  unfoldable pub statement : Parser F (Statement F)
  unfolding on_cases create_statement insert_statement select_statement explain_statement
      delete_statement drop_table_statement transaction_statement no_statement
  statement =
      on_cases
        ((TokenKind.create ∷ [], create_statement)
          ∷ (TokenKind.insert ∷ [], λ t. do c ← insert_statement t; pure (Statement.insert c))
          ∷ (TokenKind.select ∷ [], λ t. do c ← select_statement t; pure (Statement.select c))
          ∷ (TokenKind.explain ∷ [], λ t. do c ← explain_statement t; pure (Statement.explain c))
          ∷ (TokenKind.delete ∷ [], λ t. do c ← delete_statement t; pure (Statement.delete c))
          ∷ (TokenKind.drop ∷ [], λ t. do c ← drop_table_statement t; pure (Statement.drop_table c))
          ∷ (
            TokenKind.begin ∷ [],
            transaction_statement Statement.begin_transaction
                "se esperaba TRANSACTION despues de BEGIN",
          )
          ∷ (
            TokenKind.end ∷ [],
            transaction_statement Statement.end_transaction
                "se esperaba TRANSACTION despues de END",
          )
          ∷ [])
        no_statement

  -- `_raise_trailing_input`
  unfoldable pub raise_trailing_input {ℓ} : {A : Type ℓ} → Parser F A
  unfolding peek_token is_unsupported raise_unsupported
  raise_trailing_input = do
    t ← peek_token
    if kind_eq t.kind TokenKind.and
        then raise unsupported_error t (said "AND solo se admite como separador dentro de BETWEEN")
        else if is_unsupported t
        then raise_unsupported t
        else fail_with t (unexpected_input t.lexeme)

  -- The end of `parse`, after the statement.
  unfoldable pub finish_parse : Parser F (Unit {0})
  unfolding on_match check_kind fail_here raise_trailing_input
  finish_parse =
      on_match (TokenKind.semicolon ∷ [])
        (λ _. do
          ended ← check_kind TokenKind.eof
          if ended then pure tt else fail_here "solo se permite una sentencia SQL por llamada")
        (do ended ← check_kind TokenKind.eof; if ended then pure tt else raise_trailing_input)

  -- `parse`
  unfoldable pub parse : Parser F (Statement F)
  unfolding statement finish_parse expect
  parse = do
    s ← statement
    finish_parse
    expect TokenKind.eof (said "se esperaba el final de la sentencia")
    pure s

  -- What follows a statement in the loop of `parse_script`.
  unfoldable pub separator : Parser F (Unit {0})
  unfolding on_match check_kind fail_here
  separator =
      on_match (TokenKind.semicolon ∷ []) (λ _. pure tt)
        (do
          ended ← check_kind TokenKind.eof
          if ended then pure tt else fail_here "se esperaba ';' entre sentencias SQL")

  -- The loop of `parse_script`.
  unfoldable pub statements : ℕ → Parser F (List (Statement F))
  unfolding check_kind statement separator
  statements zero = λ s. out_of_fuel
  statements (suc fuel) = do
    ended ← check_kind TokenKind.eof
    elim ended [
      | true ↦ pure []
      | false ↦ do first ← statement; separator; rest ← statements fuel; pure (first ∷ rest)
    ]

  -- The end of `parse_script`, after the loop.
  unfoldable pub finish_script : List (Statement F) → Parser F (List (Statement F))
  unfolding fail_here expect
  finish_script [] = fail_here "se esperaba al menos una sentencia SQL"
  finish_script (first ∷ rest) = do
    expect TokenKind.eof (said "se esperaba el final del script SQL")
    pure (first ∷ rest)

  -- `parse_script`
  unfoldable pub parse_script : Parser F (List (Statement F))
  unfolding statements finish_script
  parse_script = do all ← with_fuel statements; finish_script all

  -- `_Parser(tokens, source).parse()`, or of another method
  unfoldable pub run_parser {ℓ} : {A : Type ℓ} → Parser F A → List (Token F) → Outcome F A
  run_parser p [] = crashed
  run_parser p (t ∷ ts) = p (at (last_token t ts) (t ∷ ts))

-- ===== src/Parser/Sql.antt =====
-- engine/parser/parser.py: `parse_sql` and `parse_sql_script`, the lexer and the parser in turn.
pub mod Answers
pub mod Single
mod Tests
use quipudb.Prelude.{List}
use quipudb.Parser.Tokens.{Token}
use quipudb.Parser.Ast.{Statement}
use quipudb.Parser.Scanner.{Doubles}
use quipudb.Parser.Lexer.{Lexed, tokens, rejected, tokenize}
use quipudb.Parser.Stream.{Env, Parser, Outcome, error}
use quipudb.Parser.Grammar.Statements.{parse, parse_script, run_parser}

module _ {F : Type 0} ⦃env : Env F⦄ where
  -- A method of the parser on what the lexer gives.
  unfoldable pub run_lexed {ℓ} : {A : Type ℓ} → Parser F A → Lexed F → Outcome F A
  unfolding run_parser
  run_lexed p (tokens ts) = run_parser p ts
  run_lexed p (rejected e) = error e
  run_lexed p Lexed.out_of_fuel = Outcome.out_of_fuel

  unfoldable pub parse_sql : Doubles F → Outcome F (Statement F)
  unfolding run_lexed parse tokenize
  parse_sql doubles = run_lexed parse (tokenize doubles env.letters.is_alpha env.source)

  unfoldable pub parse_sql_script : Doubles F → Outcome F (List (Statement F))
  unfolding run_lexed parse_script tokenize
  parse_sql_script doubles =
      run_lexed parse_script (tokenize doubles env.letters.is_alpha env.source)

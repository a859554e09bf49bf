-- ===== src/Parser/Sql/Single.antt =====
-- engine/parser/parser.py: a query of one statement, read by `parse_sql` and by `parse_sql_script`.
use quipudb.Prelude.{◌≡◌, [], ◌∷◌}
use quipudb.Parser.Ast.{Statement}
use quipudb.Parser.Scanner.{Doubles}
use quipudb.Parser.Lexer.{Lexed, tokens, rejected, tokenize}
use quipudb.Parser.Lexer.Cuts.{IsTokenized, tokenize-IsTokenized}
use quipudb.Parser.Stream.{Env, Stream, done}
use quipudb.Parser.Grammar.Statements.{parse, parse_script, run_parser, last_token}
use quipudb.Parser.Reading.Agree.{parse_script-parse}
use quipudb.Parser.Sql.{run_lexed, parse_sql, parse_sql_script}
use quipudb.Parser.Sql.Answers.{LexedReadable, tokenize-Readable, start_token, start-Good}

module _ {F : Type 0} ⦃env : Env F⦄ where
  run_lexed-single :
      (l : Lexed F) (c : Statement F) (s : Stream F)
      → IsTokenized env.source 0 l
      → LexedReadable env.letters l
      → run_lexed parse l ≡ done c s
      → run_lexed parse_script l ≡ done (c ∷ []) s
  unfolding run_lexed run_parser
  run_lexed-single (tokens []) c s cut r h = elim cut [ ]
  run_lexed-single (tokens (t ∷ ts)) c s cut r h =
      parse_script-parse (last_token t ts) start_token t ts c s (start-Good (t ∷ ts) cut r) h
  run_lexed-single (rejected e) c s cut r h = absurd (cc)
  run_lexed-single Lexed.out_of_fuel c s cut r h = elim cut [ ]

  -- Where `parse_sql` reads a statement, `parse_sql_script` reads the same text as a script of that
  -- one statement.
  pub parse_sql_script-parse_sql :
      (doubles : Doubles F) (c : Statement F) (s : Stream F)
      → parse_sql doubles ≡ done c s
      → parse_sql_script doubles ≡ done (c ∷ []) s
  unfolding parse_sql parse_sql_script
  parse_sql_script-parse_sql doubles c s h =
      run_lexed-single (tokenize doubles env.letters.is_alpha env.source) c s
        (tokenize-IsTokenized doubles env.letters.is_alpha env.source)
        (tokenize-Readable env.letters doubles env.letters.is_alpha env.source) h

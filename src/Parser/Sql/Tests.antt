-- ===== src/Parser/Sql/Tests.antt =====
-- Short queries, parsed.
use quipudb.Prelude.{
  ℕ, ◌≡◌, ◌≢◌, refl, Bool, true, false, ◌||◌, ltb, Option, none, some, List, [], ◌∷◌, map,
  if◌then◌else◌,
}
use quipudb.Prelude.Int.{ℤ, pos, negsuc}
use quipudb.Parser.Chars.{Text, codes, between}
use quipudb.Parser.Span.{Span}
use quipudb.Parser.Ast.{Statement}
use quipudb.Parser.Kinds.{kind_eq}
use quipudb.Parser.Cursor.{skip_while}
use quipudb.Parser.Lexer.Places.{IsSpanOf}
use quipudb.Parser.Scanner.{Doubles, int_of_text}
use quipudb.Parser.Stream.{Env, at, Outcome, done, overflow}
use quipudb.Parser.Reading.Statements.{statement_span}
use quipudb.Parser.Sql.{parse_sql, parse_sql_script}
use quipudb.Parser.Sql.Single.{parse_sql_script-parse_sql}
use quipudb.Parser.Tokens.{TokenKind, nothing, Token}
use quipudb.Parser.Sql.Answers.{IsAnswer, AllPlaced, parse_sql-IsAnswer, parse_sql_script-IsAnswer}

-- Texts in place of floating-point numbers; only the integers below 1000 have one.
abbrev texts : Doubles Text
texts = record { of_text = λ t. t; is_finite = λ t. true; is_zero = λ t. false }

abbrev small : ℤ → Option Text
small (pos n) = if ltb n 1000 then some (n ∷ []) else none
small (negsuc n) = none

abbrev query_env : Text → Env Text
query_env source = record {
  of_integer = small;
  is_within = λ low high x. true;
  letters = record {
    is_alpha = λ c. between 65 90 c || between 97 122 c;
    other_upper = λ t. t;
    other_lower = λ t. t;
  };
  source = source;
}

abbrev deletion : Text
deletion = codes "delete from t where a <= 5;"

-- The table, the start and the end of a DELETE.
abbrev summary : Outcome Text (Statement Text) → List ℕ
summary (done (Statement.delete d) s) = d.span.start ∷ d.span.end ∷ d.table.name
summary other = []

deletion-summary : summary (parse_sql ⦃env = query_env deletion⦄ texts) ≡ 0 ∷ 26 ∷ codes "t"
unfolding parse_sql skip_while int_of_text kind_eq
deletion-summary = refl

abbrev script : Text
script = codes "begin transaction; drop table t; end transaction"

abbrev ends_of : Outcome Text (List (Statement Text)) → List ℕ
ends_of (done ss s) = map (λ s. (statement_span s).end) ss
ends_of other = []

script-ends_of : ends_of (parse_sql_script ⦃env = query_env script⦄ texts) ≡ 17 ∷ 31 ∷ 48 ∷ []
unfolding parse_sql_script skip_while statement_span kind_eq
script-ends_of = refl

-- A vector with a component that no float can hold.
abbrev too_large : Text
too_large = codes "insert into t values (vector(5, 2000))"

abbrev is_overflow : {A : Type 0} → Outcome Text A → Bool
is_overflow (overflow n) = true
is_overflow other = false

too_large-is_overflow : is_overflow (parse_sql ⦃env = query_env too_large⦄ texts) ≡ true
unfolding parse_sql skip_while int_of_text kind_eq
too_large-is_overflow = refl

parse_sql-IsAnswer_example :
    IsAnswer ⦃env = query_env deletion⦄
      (λ s. IsSpanOf deletion (statement_span s))
      (parse_sql ⦃env = query_env deletion⦄ texts)
parse_sql-IsAnswer_example = parse_sql-IsAnswer ⦃env = query_env deletion⦄ texts

parse_sql_script-IsAnswer_example :
    IsAnswer ⦃env = query_env script⦄
      (λ ss. AllPlaced ⦃env = query_env script⦄ ss × (ss ≢ []))
      (parse_sql_script ⦃env = query_env script⦄ texts)
parse_sql_script-IsAnswer_example = parse_sql_script-IsAnswer ⦃env = query_env script⦄ texts

abbrev beginning : Text
beginning = codes "begin transaction"

abbrev whole : Span
whole = record { start = 0; end = 17; line = 1; column = 1; end_line = 1; end_column = 18 }

abbrev word : Token Text
word = record {
  kind = TokenKind.transaction;
  lexeme = codes "transaction";
  value = nothing;
  span = record whole { start = 6; column = 7 };
}

abbrev finish : Token Text
finish = record {
  kind = TokenKind.eof;
  lexeme = [];
  value = nothing;
  span = record whole { start = 17; column = 18 };
}

parse_sql_script-parse_sql_example :
    parse_sql_script ⦃env = query_env beginning⦄ texts
    ≡ done (Statement.begin_transaction whole ∷ []) (at word (finish ∷ []))
unfolding parse_sql skip_while int_of_text kind_eq
parse_sql_script-parse_sql_example =
    parse_sql_script-parse_sql ⦃env = query_env beginning⦄ texts (Statement.begin_transaction whole)
      (at word (finish ∷ [])) refl

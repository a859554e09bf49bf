-- ===== src/Parser/Sql/Answers.antt =====
-- engine/parser/parser.py: what `parse_sql` and `parse_sql_script` answer to any text.
use mathlib.Core.Path.{subst}
use quipudb.Prelude.{
  ℕ, zero, suc, ◌≤◌, ◌≡◌, ◌≢◌, refl, sym, Bool, none, List, [], ◌∷◌, length, arith,
}
use quipudb.Parser.Span.{Span}
use quipudb.Parser.Chars.{Text}
use quipudb.Parser.Errors.{split_from, split_lines}
use quipudb.Parser.Tokens.{TokenKind, Token, nothing}
use quipudb.Parser.Ast.{Statement}
use quipudb.Parser.Cursor.{Cursor, start_of}
use quipudb.Parser.Scanner.{Doubles, Round, skipped, found, failed}
use quipudb.Parser.Lexer.{Lexed, tokens, rejected, tokenize_from, tokenize, continued, prepend}
use quipudb.Parser.Lexer.Places.{IsPlace, IsSpanOf, places-IsSpanOf}
use quipudb.Parser.Lexer.Cuts.{
  tokenize_from-end, tokenize_from-round, IsCut, ends, cuts, IsTokenized, tokenize-IsTokenized,
}
use quipudb.Parser.Lexer.Fragments.{IsPointed, source_fragment-IsPointed}
use quipudb.Parser.Stream.{
  Letters, Env, Stream, at, Outcome, done, error, overflow, crashed, Parser,
}
use quipudb.Parser.Grammar.Statements.{parse, parse_script, run_parser, last_token}
use quipudb.Parser.Reading.Good.{
  same, start-Upto, Follow, last, next, Good, good, Ensures, holds, rejected, overflowed,
}
use quipudb.Parser.Reading.Statements.{statement_span}
use quipudb.Parser.Reading.Script.{Spanned, AllSpanned, parse-Ensures, parse_script-Ensures}
use quipudb.Parser.Reading.Values.{Readable, Valued, token, scan_round-Valued}
use quipudb.Parser.Sql.{run_lexed, parse_sql, parse_sql_script}

-- All tokens but the last can be read.
abbrev pub AllReadable : {F : Type 0} → Letters → List (Token F) → Type 0
AllReadable letters [] = Unit
AllReadable letters (t ∷ []) = Unit
AllReadable letters (t ∷ u ∷ ts) = Readable letters t × AllReadable letters (u ∷ ts)

abbrev pub LexedReadable : {F : Type 0} → Letters → Lexed F → Type 0
LexedReadable letters (tokens ts) = AllReadable letters ts
LexedReadable letters other = Unit

module _ {F : Type 0} (letters : Letters) (doubles : Doubles F) (is_alpha : ℕ → Bool)
    (source : Text) where
  prepend-Readable :
      (t : Token F) (l : Lexed F)
      → Readable letters t
      → LexedReadable letters l
      → LexedReadable letters (prepend doubles is_alpha source t l)
  prepend-Readable t (tokens []) r h = tt
  prepend-Readable t (tokens (u ∷ ts)) r h = (r, h)
  prepend-Readable t (rejected e) r h = tt
  prepend-Readable t Lexed.out_of_fuel r h = tt

  continued-Readable :
      (loop : Cursor → Lexed F) (r : Round F)
      → ((k : Cursor) → LexedReadable letters (loop k))
      → Valued letters r
      → LexedReadable letters (continued doubles is_alpha source loop r)
  continued-Readable loop (skipped m) h v = h m
  continued-Readable loop (found t m) h (token r) = prepend-Readable t (loop m) r (h m)
  continued-Readable loop (failed e) h v = tt

  next_round-Readable :
      (fuel : ℕ) (k : Cursor)
      → ((m : Cursor) → LexedReadable letters (tokenize_from doubles is_alpha source fuel m))
      → (t : Text) → k.rest ≡ t
      → LexedReadable letters (tokenize_from doubles is_alpha source (suc fuel) k)
  next_round-Readable fuel k ih [] e =
      subst (LexedReadable letters) (sym (tokenize_from-end doubles is_alpha source fuel k e)) tt
  next_round-Readable fuel k ih (c ∷ more) e =
      subst (LexedReadable letters)
        (sym (tokenize_from-round doubles is_alpha source fuel k c more e))
        (continued-Readable (tokenize_from doubles is_alpha source fuel) _ ih
          (scan_round-Valued letters doubles is_alpha source c k))

  tokenize_from-Readable :
      (fuel : ℕ) (k : Cursor) → LexedReadable letters (tokenize_from doubles is_alpha source fuel k)
  tokenize_from-Readable zero k = unfold tokenize_from in tt
  tokenize_from-Readable (suc fuel) k =
      next_round-Readable fuel k (tokenize_from-Readable fuel) k.rest refl

  pub tokenize-Readable : LexedReadable letters (tokenize doubles is_alpha source)
  unfolding tokenize
  tokenize-Readable = tokenize_from-Readable (suc (length source)) (start_of source)

-- The place before the first token.
abbrev origin : Span
origin = record { start = 0; end = 0; line = 1; column = 1; end_line = 1; end_column = 1 }

origin-IsSpanOf : (source : Text) → IsSpanOf source origin
unfolding split_from split_lines
origin-IsSpanOf source = places-IsSpanOf source origin here here (omega arith)
  where
    here : IsPlace source 0 1 1
    here = record {
      before = [];
      after = source;
      splits = refl;
      offset_is = refl;
      line_is = refl;
      column_is = refl;
    }

Spanned-IsSpanOf : (source : Text) (s : Span) → Spanned (IsSpanOf source) s → IsSpanOf source s
Spanned-IsSpanOf source s p = subst (IsSpanOf source) (sym p.is) (
    places-IsSpanOf source _ p.from.from p.upto.upto
      (omega (arith, start-Upto p.order, p.upto.ordered)))

module _ {F : Type 0} ⦃env : Env F⦄ where
  -- The tokens that the lexer cuts are as the parser needs them.
  IsCut-Follow :
      (n : ℕ) (p : Span) (ts : List (Token F))
      → IsCut env.source n ts
      → AllReadable env.letters ts
      → p.start ≤ n
      → p.end ≤ n
      → Follow (IsSpanOf env.source) p ts
  IsCut-Follow n p _ (ends _ t k place le start_is end_is) r h j = last k place
  IsCut-Follow n p _ (cuts _ t [] lexeme le rest) r h j = elim rest [ ]
  IsCut-Follow n p _ (cuts _ t (u ∷ us) lexeme le rest) (r, rs) h j =
      next r.0 r.1
        (
          omega (arith, lexeme.end_is, lexeme.nonempty),
          omega (arith, lexeme.end_is, lexeme.nonempty),
        )
        lexeme.place
        (IsCut-Follow t.span.end t.span (u ∷ us) rest rs (omega (arith, lexeme.place.ordered))
          (omega arith))

  -- An answer: a value of which `Q` holds, an error that shows its place in the query, or
  -- OverflowError for a number that is too large for `float`.
  abbrev pub IsAnswer {ℓ} : {A : Type ℓ} → (A → Type 0) → Outcome F A → Type 0
  IsAnswer Q (done a s) = Q a
  IsAnswer Q (error e) = IsPointed e env.source
  IsAnswer Q (overflow n) = env.of_integer n ≡ none
  IsAnswer Q crashed = ⊥
  IsAnswer Q Outcome.out_of_fuel = ⊥

  Ensures-IsAnswer {ℓ} :
      {A : Type ℓ} {P : A → Stream F → Type 0} (Q : A → Type 0) (r : Outcome F A)
      → ((a : A) (s : Stream F) → P a s → Q a)
      → Ensures (IsSpanOf env.source) P r
      → IsAnswer Q r
  Ensures-IsAnswer Q (done a s) h (holds p) = h a s p
  Ensures-IsAnswer Q (error e) h (rejected place k c) =
      source_fragment-IsPointed e env.source k place.from
  Ensures-IsAnswer Q (overflow n) h (overflowed e) = e
  Ensures-IsAnswer Q crashed h e = elim e [ ]
  Ensures-IsAnswer Q Outcome.out_of_fuel h e = elim e [ ]

  -- Before the first token stands a token of no length at the start of the query.
  pub start_token : Token F
  start_token = record { kind = TokenKind.eof; lexeme = []; value = nothing; span = origin }

  pub start-Good :
      (ts : List (Token F))
      → IsCut env.source 0 ts
      → AllReadable env.letters ts
      → Good (IsSpanOf env.source) (suc (length ts)) origin (at start_token ts)
  unfolding start_token
  start-Good ts c r =
      good same (IsCut-Follow 0 origin ts c r (omega arith) (omega arith)) (omega arith)
        (origin-IsSpanOf env.source)

  run_lexed-IsAnswer {ℓ} :
      {A : Type ℓ} {P : A → Stream F → Type 0} (Q : A → Type 0) (p : Parser F A) (l : Lexed F)
      → ((a : A) (s : Stream F) → P a s → Q a)
      → ((u q : Token F) (ts : List (Token F))
          → Good (IsSpanOf env.source) (suc (length ts)) origin (at q ts)
          → Ensures (IsSpanOf env.source) P (p (at u ts)))
      → IsTokenized env.source 0 l
      → LexedReadable env.letters l
      → IsAnswer Q (run_lexed p l)
  unfolding run_lexed run_parser
  run_lexed-IsAnswer Q p (tokens []) h k c r = elim c [ ]
  run_lexed-IsAnswer Q p (tokens (t ∷ ts)) h k c r =
      Ensures-IsAnswer Q _ h (k (last_token t ts) start_token (t ∷ ts) (start-Good (t ∷ ts) c r))
  run_lexed-IsAnswer Q p (rejected e) h k (place, s) r =
      source_fragment-IsPointed e env.source s place.from
  run_lexed-IsAnswer Q p Lexed.out_of_fuel h k bad r = bad

  abbrev pub AllPlaced : List (Statement F) → Type 0
  AllPlaced [] = Unit
  AllPlaced (s ∷ ss) = IsSpanOf env.source (statement_span s) × AllPlaced ss

  AllSpanned-AllPlaced :
      (ss : List (Statement F)) → AllSpanned (IsSpanOf env.source) ss → AllPlaced ss
  AllSpanned-AllPlaced [] h = tt
  AllSpanned-AllPlaced (s ∷ ss) (h, hs) =
      (Spanned-IsSpanOf env.source (statement_span s) h, AllSpanned-AllPlaced ss hs)

  -- Whatever the text of the query, `parse_sql` ends: with a statement whose span stands in the
  -- text, its offsets, lines and columns in agreement, and passes the checks of `Span`; with an error
  -- that shows the line of the text where it stands and marks its column; or with the OverflowError
  -- of `float` for an integer that is too large for it. No index is out of range, and no value is of another type than the parser
  -- takes it for.
  pub parse_sql-IsAnswer :
      (doubles : Doubles F)
      → IsAnswer (λ s. IsSpanOf env.source (statement_span s)) (parse_sql doubles)
  unfolding parse_sql
  parse_sql-IsAnswer doubles =
      run_lexed-IsAnswer _ parse _ (λ c s p. Spanned-IsSpanOf env.source (statement_span c) p)
        (λ u q ts g. parse-Ensures u q ts g)
        (tokenize-IsTokenized doubles env.letters.is_alpha env.source)
        (tokenize-Readable env.letters doubles env.letters.is_alpha env.source)

  -- Whatever the text, `parse_sql_script` ends, in the same ways: with a list of statements that is
  -- not empty, each with a span that stands in the text and passes the checks of `Span`, or with an
  -- error in its place, or with the OverflowError of `float`.
  pub parse_sql_script-IsAnswer :
      (doubles : Doubles F) → IsAnswer (λ ss. AllPlaced ss × (ss ≢ [])) (parse_sql_script doubles)
  unfolding parse_sql_script
  parse_sql_script-IsAnswer doubles =
      run_lexed-IsAnswer _ parse_script _ (λ cs s (p, q). (AllSpanned-AllPlaced cs p, q))
        (λ u q ts g. parse_script-Ensures u q ts g)
        (tokenize-IsTokenized doubles env.letters.is_alpha env.source)
        (tokenize-Readable env.letters doubles env.letters.is_alpha env.source)

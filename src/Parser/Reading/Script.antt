-- ===== src/Parser/Reading/Script.antt =====
-- engine/parser/parser.py: `parse` and `parse_script` as wholes, and how they agree.
use quipudb.Prelude.{ℕ, zero, suc, ◌≡◌, ◌≢◌, refl, String, List, [], ◌∷◌, length}
use quipudb.Parser.Span.{Span}
use quipudb.Parser.Tokens.{Token}
use quipudb.Parser.Ast.{Statement}
use quipudb.Parser.Stream.{Env, Stream, at, fail_here, peek_token}
use quipudb.Parser.Grammar.Statements.{parse, statements, finish_script, parse_script}
use quipudb.Parser.Reading.Good.{
  Upto, join, previous, Good, Ensures, holds, rejected, IsParserError,
}
use quipudb.Parser.Reading.Rules.{Ensures-bind, Good-zero, Good-At, Good-length}
use quipudb.Parser.Reading.Statements.{
  statement_span, Stated, AtEnd, at_end, statement-Ensures, check_end-From, expect_end-Ensures,
  finish_parse-Ensures, separator-Ensures,
}

module _ (At : Span → Type 0) where
  -- A span from one place to another.
  pub record Spanned (span : Span) : Type 0 where
    pub first : Span
    pub last : Span
    pub from : At first
    pub upto : At last
    pub order : Upto first last
    pub is : span ≡ join first last

  abbrev pub AllSpanned : {F : Type 0} → List (Statement F) → Type 0
  AllSpanned [] = Unit
  AllSpanned (s ∷ ss) = Spanned (statement_span s) × AllSpanned ss

module _ {F : Type 0} ⦃env : Env F⦄ {At : Span → Type 0} where
  Stated-Spanned :
      {n : ℕ} {b : Span} {s s' : Stream F} {x : Span} → Stated At n b s s' x → Spanned At x
  Stated-Spanned {s' = s'} r = record {
    first = r.first;
    last = previous s';
    from = r.place;
    upto = Good-At r.state;
    order = r.upto;
    is = r.is;
  }

  pub parse-Ensures :
      {m : ℕ} {b : Span} (p q : Token F) (ts : List (Token F))
      → Good At (suc m) b (at q ts)
      → Ensures At (λ c s'. Spanned At (statement_span c)) (parse (at p ts))
  unfolding parse
  parse-Ensures p q ts g = Ensures-bind (statement-Ensures p q ts g) λ c s₁ r.
      Ensures-bind (finish_parse-Ensures r.state)
        λ u s₂ e. expect_end-Ensures _ _ e λ t. holds (Stated-Spanned r)

  Good-cases :
      {n : ℕ} {b : Span} (X : Stream F → Type 0) (s : Stream F)
      → Good At n b s
      → ((p : Token F) (ts : List (Token F)) → Good At n b (at p ts) → X (at p ts))
      → X s
  Good-cases X (at p ts) g h = h p ts g

  -- The loop ends at EOF, with fuel for all the tokens.
  statements-Ensures :
      (n : ℕ) {b : Span} (p q : Token F) (ts : List (Token F))
      → Good At n b (at q ts)
      → Ensures At (λ cs s'. AllSpanned At cs × AtEnd At s') (statements n (at p ts))
  unfolding statements
  statements-Ensures zero p q ts g = absurd (Good-zero g)
  statements-Ensures (suc n) p q ts g =
      check_end-From _ p q ts g (λ e. holds (tt, e))
        (Ensures-bind (statement-Ensures p q ts g) λ c s₁ r.
          Ensures-bind (separator-Ensures r.state) λ u s₂ g₂.
            Ensures-bind
              (Good-cases
                (λ s. Ensures At (λ cs s'. AllSpanned At cs × AtEnd At s') (statements n s)) s₂ g₂
                (λ p' ts' g'. statements-Ensures n p' p' ts' g'))
              λ cs s₃ (h, e). holds ((Stated-Spanned r, h), e))

  no_statements-Ensures :
      {Q : List (Statement F) → Stream F → Type 0} {s : Stream F} (message : String)
      → AtEnd At s
      → Ensures At Q (fail_here message s)
  unfolding fail_here peek_token
  no_statements-Ensures message (at_end k a) = rejected a refl IsParserError.parse

  pub parse_script-Ensures :
      {n : ℕ} {b : Span} (p q : Token F) (ts : List (Token F))
      → Good At n b (at q ts)
      → Ensures At (λ cs s'. AllSpanned At cs × (cs ≢ [])) (parse_script (at p ts))
  unfolding parse_script finish_script
  parse_script-Ensures p q ts g =
      Ensures-bind (statements-Ensures (length ts) p q ts (Good-length g)) finish
    where
      finish :
          (cs : List (Statement F)) (s : Stream F)
          → AllSpanned At cs × AtEnd At s
          → Ensures At (λ cs s'. AllSpanned At cs × (cs ≢ [])) (finish_script cs s)
      finish [] s (h, e) = no_statements-Ensures _ e
      finish (c ∷ cs) s (h, e) = expect_end-Ensures _ _ e λ t. holds (h, cc)

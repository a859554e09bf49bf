-- ===== src/Parser/Reading/Statements.antt =====
-- engine/parser/parser.py: the span of a statement, the end of `parse`, and the loop of
-- `parse_script`.
use mathlib.Core.Path.{subst}
use quipudb.Prelude.{
  ℕ, suc, ◌≡◌, ◌∙◌, refl, sym, ap, String, Bool, true, false, some, List, [], ◌∷◌, arith,
}
use quipudb.Parser.Span.{Span, through}
use quipudb.Parser.Errors.{Message}
use quipudb.Parser.Tokens.{TokenKind, Token}
use quipudb.Parser.Kinds.{kind_eq}
use quipudb.Parser.Ast.{Statement}
use quipudb.Parser.Stream.{
  Env, Stream, at, Parser, on_cases, is_unsupported, peek_token, advance_token, check_kind, expect,
  bind,
}
use quipudb.Parser.Grammar.Statements.{
  delete_statement, transaction_statement, create_statement, no_statement, statement,
  raise_trailing_input, finish_parse, separator,
}
use quipudb.Parser.Reading.Good.{
  Upto, past, join, previous, headed, last, next, Good, good, Ensures, holds, rejected, Took,
  Closed, parse, unsupported,
}
use quipudb.Parser.Reading.Rules.{
  Ensures-bind, Ensures-weaken, Ensures-if, raise_unsupported-Ensures, Good-from, Good-Upto,
  Good-here, fail_here-Ensures, expect-Ensures, on_match-From, on_match-Ensures,
}
use quipudb.Parser.Reading.Names.{
  eof_is_eof, peek-Ensures, Took-Closed, Read-Closed, identifier-Ensures,
}
use quipudb.Parser.Reading.Definitions.{
  create_table_statement-Ensures, create_index_statement-Ensures, insert_statement-Ensures,
  drop_table_statement-Ensures,
}
use quipudb.Parser.Reading.Wheres.{condition-Ensures}
use quipudb.Parser.Reading.Clauses.{select_statement-Ensures, explain_statement-Ensures}

-- The attribute `span`, which every statement has.
unfoldable pub statement_span : {F : Type 0} → Statement F → Span
statement_span (Statement.create_table s) = s.span
statement_span (Statement.create_index s) = s.span
statement_span (Statement.insert s) = s.span
statement_span (Statement.select s) = s.span
statement_span (Statement.explain s) = s.span
statement_span (Statement.delete s) = s.span
statement_span (Statement.drop_table s) = s.span
statement_span (Statement.begin_transaction s) = s
statement_span (Statement.end_transaction s) = s

module _ {F : Type 0} ⦃env : Env F⦄ (At : Span → Type 0) where
  -- A statement was read: its span is from the token that came next to the last one read.
  pub record Stated (n : ℕ) (b : Span) (s s' : Stream F) (span : Span) : Type 0 where
    pub state : Good At n b s'
    pub first : Span
    pub is_first : headed s ≡ some first
    pub place : At first
    pub upto : Upto first (previous s')
    pub is : span ≡ join first (previous s')

  -- EOF comes next.
  pub data AtEnd : Stream F → Type 0 where
    at_end : {p t : Token F} → t.kind ≡ TokenKind.eof → At t.span → AtEnd (at p (t ∷ []))

module _ {F : Type 0} ⦃env : Env F⦄ {At : Span → Type 0} where
  delete_statement-Ensures :
      (start : Token F) {n : ℕ} {s : Stream F}
      → Good At n start.span s
      → Ensures At (λ c s'. Closed At n start.span s' c.span) (delete_statement start s)
  unfolding delete_statement
  delete_statement-Ensures start g =
      Ensures-bind (expect-Ensures TokenKind.from _ refl g) λ t s₁ k₁.
        Ensures-bind (identifier-Ensures _ k₁.state) λ i s₂ r₂.
          Ensures-bind (expect-Ensures TokenKind.where_word _ refl r₂.state) λ u s₃ k₃.
            Ensures-bind (condition-Ensures k₃.state) λ c s₄ r₄. holds (Read-Closed k₃.state r₄)

  create_statement-Ensures :
      (start : Token F) {n : ℕ} {s : Stream F}
      → Good At n start.span s
      → Ensures At (λ c s'. Closed At n start.span s' (statement_span c)) (create_statement start s)
  unfolding create_statement statement_span on_cases
  create_statement-Ensures start g =
      on_match-Ensures (TokenKind.table ∷ []) _ _ refl g
        (λ t s' k. Ensures-bind (create_table_statement-Ensures start k.state) λ c s'' q. holds q)
        λ g.
          on_match-Ensures (TokenKind.index ∷ []) _ _ refl g
            (λ t s' k.
              Ensures-bind (create_index_statement-Ensures start k.state) λ c s'' q. holds q)
            (fail_here-Ensures _)

  no_statement-From :
      {Q : Statement F → Stream F → Type 0} {n : ℕ} {b : Span} (p q : Token F) (ts : List (Token F))
      → Good At n b (at q ts)
      → Ensures At Q (no_statement (at p ts))
  unfolding no_statement peek_token
  no_statement-From p q ts (good u (last {t = t} k a) l c) =
      Ensures-if (is_unsupported t) _ _ (λ _. raise_unsupported-Ensures t (at p ts) a)
        (λ _. rejected a refl parse)
  no_statement-From p q ts (good u (next {t = t} k v h a f) l c) =
      Ensures-if (is_unsupported t) _ _ (λ _. raise_unsupported-Ensures t (at p ts) a)
        (λ _. rejected a refl parse)

  Took-Good :
      {kinds : List TokenKind} {m : ℕ} {b : Span} {s s' : Stream F} {t : Token F}
      → Took At kinds (suc m) b s t s'
      → Good At m t.span s'
  Took-Good {m = m} {s' = s'} k =
      subst (λ x. Good At m x s') (sym k.span_is) (Good-here (k.fewer m (omega arith)))

  -- One case of `_statement`.
  Closed-Stated :
      {kinds : List TokenKind} {m : ℕ} {b : Span} {s s' s'' : Stream F} {t : Token F} {x : Span}
      → Took At kinds (suc m) b s t s'
      → Closed At m t.span s'' x
      → Stated At m b s s'' x
  Closed-Stated {t = t} k c = record {
    state = Good-from (past k.bound) c.state;
    first = t.span;
    is_first = k.is_head;
    place = k.place;
    upto = Good-Upto c.state;
    is = c.is;
  }

  transaction_statement-Ensures :
      (make : Span → Statement F) (message : String) (start : Token F) {n : ℕ} {s : Stream F}
      → ((x : Span) → statement_span (make x) ≡ x)
      → Good At n start.span s
      → Ensures At
          (λ c s'. Closed At n start.span s' (statement_span c))
          (transaction_statement make message start s)
  unfolding transaction_statement
  transaction_statement-Ensures make message start {n = n} e g =
      Ensures-bind (expect-Ensures TokenKind.transaction _ refl g) λ t s₁ k₁. holds (
        subst (λ x. Closed At n start.span s₁ x) (sym (e (through start.span t.span)))
          (Took-Closed k₁))

  pub statement-Ensures :
      {m : ℕ} {b : Span} (p q : Token F) (ts : List (Token F))
      → Good At (suc m) b (at q ts)
      → Ensures At (λ c s'. Stated At m b (at q ts) s' (statement_span c)) (statement (at p ts))
  unfolding statement statement_span on_cases
  statement-Ensures p q ts g =
      on_match-From (TokenKind.create ∷ []) _ _ p q ts refl g
        (λ t s' k.
          Ensures-weaken (create_statement-Ensures t (Took-Good k)) λ c s'' r. Closed-Stated k r)
        (on_match-From (TokenKind.insert ∷ []) _ _ p q ts refl g
          (λ t s' k.
            Ensures-bind (insert_statement-Ensures t (Took-Good k))
              λ c s'' r. holds (Closed-Stated k r))
          (on_match-From (TokenKind.select ∷ []) _ _ p q ts refl g
            (λ t s' k.
              Ensures-bind (select_statement-Ensures t (Took-Good k))
                λ c s'' r. holds (Closed-Stated k r))
            (on_match-From (TokenKind.explain ∷ []) _ _ p q ts refl g
              (λ t s' k.
                Ensures-bind (explain_statement-Ensures t (Took-Good k))
                  λ c s'' r. holds (Closed-Stated k r))
              (on_match-From (TokenKind.delete ∷ []) _ _ p q ts refl g
                (λ t s' k.
                  Ensures-bind (delete_statement-Ensures t (Took-Good k))
                    λ c s'' r. holds (Closed-Stated k r))
                (on_match-From (TokenKind.drop ∷ []) _ _ p q ts refl g
                  (λ t s' k.
                    Ensures-bind (drop_table_statement-Ensures t (Took-Good k))
                      λ c s'' r. holds (Closed-Stated k r))
                  (on_match-From (TokenKind.begin ∷ []) _ _ p q ts refl g
                    (λ t s' k.
                      Ensures-weaken
                        (transaction_statement-Ensures Statement.begin_transaction _ t (λ x. refl)
                          (Took-Good k))
                        λ c s'' r. Closed-Stated k r)
                    (on_match-From (TokenKind.end ∷ []) _ _ p q ts refl g
                      (λ t s' k.
                        Ensures-weaken
                          (transaction_statement-Ensures Statement.end_transaction _ t (λ x. refl)
                            (Took-Good k))
                          λ c s'' r. Closed-Stated k r)
                      (no_statement-From p q ts g))))))))

  -- Whether EOF comes next.
  pub check_end-From {ℓ} :
      {A : Type ℓ} {Q : A → Stream F → Type 0} (f : Bool → Parser F A) {n : ℕ} {b : Span}
      (p q : Token F) (ts : List (Token F))
      → Good At n b (at q ts)
      → (AtEnd At (at p ts) → Ensures At Q (f true (at p ts)))
      → Ensures At Q (f false (at p ts))
      → Ensures At Q (bind (check_kind TokenKind.eof (at p ts)) f)
  unfolding check_kind peek_token
  check_end-From f p q ts (good u (last k a) l c) ended other =
      rw (ap (λ e. kind_eq e TokenKind.eof) k ∙ eof_is_eof) (ended (at_end k a))
  check_end-From f p q ts (good u (next k v h a w) l c) ended other = rw k other

  check_end-Ensures {ℓ} :
      {A : Type ℓ} {Q : A → Stream F → Type 0} (f : Bool → Parser F A) {n : ℕ} {b : Span}
      {s : Stream F}
      → Good At n b s
      → (AtEnd At s → Ensures At Q (f true s))
      → Ensures At Q (f false s)
      → Ensures At Q (bind (check_kind TokenKind.eof s) f)
  check_end-Ensures f (good {p = p} {ts = ts} u w l c) ended other =
      check_end-From f p p ts (good u w l c) ended other

  pub expect_end-Ensures {ℓ} :
      {A : Type ℓ} {Q : A → Stream F → Type 0} (message : Message) (f : Token F → Parser F A)
      {s : Stream F}
      → AtEnd At s
      → ((t : Token F) → Ensures At Q (f t s))
      → Ensures At Q (bind (expect TokenKind.eof message s) f)
  unfolding expect check_kind peek_token advance_token
  expect_end-Ensures message f (at_end {t = t} k a) h =
      let e : kind_eq t.kind TokenKind.eof ≡ true =
        ap (λ e. kind_eq e TokenKind.eof) k ∙ eof_is_eof in
      rw e (rw e (h t))

  raise_trailing_input-Ensures {ℓ} :
      {A : Type ℓ} {Q : A → Stream F → Type 0} {n : ℕ} {b : Span} {s : Stream F}
      → Good At n b s
      → Ensures At Q (raise_trailing_input {A = A} s)
  unfolding raise_trailing_input
  raise_trailing_input-Ensures {s = s} g = peek-Ensures _ g λ t a h.
      Ensures-if (kind_eq t.kind TokenKind.and) _ _ (λ _. rejected a refl unsupported)
        λ _.
          Ensures-if (is_unsupported t) _ _ (λ _. raise_unsupported-Ensures t s a)
            (λ _. rejected a refl parse)

  pub finish_parse-Ensures :
      {n : ℕ} {b : Span} {s : Stream F}
      → Good At n b s
      → Ensures At (λ c s'. AtEnd At s') (finish_parse s)
  unfolding finish_parse
  finish_parse-Ensures g =
      on_match-Ensures (TokenKind.semicolon ∷ []) _ _ refl g
        (λ t s' k. check_end-Ensures _ k.state holds (fail_here-Ensures _ k.state))
        (λ g. check_end-Ensures _ g holds (raise_trailing_input-Ensures g))

  pub separator-Ensures :
      {n : ℕ} {b : Span} {s : Stream F}
      → Good At n b s
      → Ensures At (λ c s'. Good At n b s') (separator s)
  unfolding separator
  separator-Ensures g =
      on_match-Ensures (TokenKind.semicolon ∷ []) _ _ refl g (λ t s' k. holds k.state)
        (λ g. check_end-Ensures _ g (λ e. holds g) (fail_here-Ensures _ g))

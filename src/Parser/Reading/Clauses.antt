-- ===== src/Parser/Reading/Clauses.antt =====
-- engine/parser/parser.py: the clauses of SELECT, and the spans of SELECT and EXPLAIN.
use quipudb.Prelude.{
  ℕ, ◌≡◌, refl, true, false, List, [], ◌∷◌, any, Bool-cases, inl, inr, ◌∙◌, sym, ap,
}
use quipudb.Prelude.Int.{ℤ, pos, negsuc}
use quipudb.Parser.Span.{Span}
use quipudb.Parser.Tokens.{TokenKind, Token}
use quipudb.Parser.Kinds.{kind_eq, is_end, any-eof-kind_eq}
use quipudb.Parser.Stream.{Env, Stream, Parser, bind, is_one_of}
use quipudb.Parser.Grammar.Conditions.{condition_span}
use quipudb.Parser.Grammar.Queries.{
  score_kinds, source_span, ordering_span, span_or, second_token, group_by_clause, score_order,
  distance_order, order_column, column_order, is_score_call, order_by_clause, limit_value,
  limit_clause, select_statement, explain_statement,
}
use quipudb.Parser.Reading.Good.{
  last, next, Good, Ensures, holds, rejected, Took, Read, Closed, parse,
}
use quipudb.Parser.Reading.Rules.{
  Ensures-bind, Ensures-weaken, Ensures-if, value_of, expect-Ensures, on_match-Ensures,
}
use quipudb.Parser.Reading.Names.{
  Ahead, ahead, peek-Ensures, advance-Ensures, previous-Ensures, take-Ensures, int_value-Ensures,
  Took-Read, Took-Closed, Read-Closed, Closed-Read, column_reference-Ensures,
}
use quipudb.Parser.Reading.Definitions.{previous-Closed}
use quipudb.Parser.Reading.Wheres.{distance_arguments-Ensures, condition-Ensures}
use quipudb.Parser.Reading.Selects.{
  optional-Ensures, direction-Ensures, match_kinds-Ensures, score_kind_of-Ensures,
  projection_list-Ensures, from_source-Ensures,
}

module _ {F : Type 0} ⦃env : Env F⦄ (At : Span → Type 0) where
  -- The token of a score, still to be read.
  data Scored (n : ℕ) (b : Span) (s : Stream F) : Type 0 where
    scored : (t : Token F) → Ahead At n b t s → is_one_of score_kinds t ≡ true → Scored n b s

module _ {F : Type 0} ⦃env : Env F⦄ {At : Span → Type 0} where
  group_by_clause-Ensures :
      (start : Token F) {n : ℕ} {s : Stream F}
      → Good At n start.span s
      → Ensures At (λ c s'. Closed At n start.span s' c.span) (group_by_clause start s)
  unfolding group_by_clause
  group_by_clause-Ensures start g = Ensures-bind (expect-Ensures TokenKind.by _ refl g) λ t s₁ k₁.
      Ensures-bind (column_reference-Ensures _ k₁.state) λ c s₂ r. holds (Read-Closed k₁.state r)

  second_token-Ensures {ℓ} :
      {A : Type ℓ} {Q : A → Stream F → Type 0} (kinds : List TokenKind) (f : Token F → Parser F A)
      {n : ℕ} {b : Span} {t : Token F} {s : Stream F}
      → any is_end kinds ≡ false
      → Ahead At n b t s
      → is_one_of kinds t ≡ true
      → ((u : Token F) → Ensures At Q (f u s))
      → Ensures At Q (bind (second_token s) f)
  unfolding second_token
  second_token-Ensures kinds f ne (ahead u (last k a) l c) m h =
      let e = sym (ap (λ e. any (λ k. kind_eq e k) kinds) k ∙ any-eof-kind_eq kinds ne) ∙ m in
      absurd (cc)
  second_token-Ensures kinds f ne (ahead u (next k v q a (last k' a')) l c) m h = h _
  second_token-Ensures kinds f ne (ahead u (next k v q a (next k' v' q' a' w)) l c) m h = h _

  is_score_call-Ensures :
      {n : ℕ} {b : Span} {s : Stream F}
      → Good At n b s
      → Ensures At (λ c s'. Good At n b s' × (c ≡ true → Scored At n b s')) (is_score_call s)
  unfolding is_score_call
  is_score_call-Ensures g = peek-Ensures _ g λ t a h. elim (Bool-cases (is_one_of score_kinds t)) [
    | inl e ↦ rw e (second_token-Ensures score_kinds _ refl h e λ u. holds (g, λ _. scored t h e))
    | inr e ↦ rw e (holds (g, λ x. cc))
  ]

  score_order-Ensures :
      (start : Token F) {n : ℕ} {s : Stream F}
      → Scored At n start.span s
      → Ensures At (λ c s'. Closed At n start.span s' (ordering_span c)) (score_order start s)
  unfolding score_order ordering_span
  score_order-Ensures start (scored t h m) = advance-Ensures score_kinds _ refl h m λ s₁ k.
      score_kind_of-Ensures t _ s₁ k.matched k.value λ kind.
        Ensures-bind (expect-Ensures TokenKind.lparen _ refl k.state) λ u s₂ k₂.
          Ensures-bind (expect-Ensures TokenKind.rparen _ refl k₂.state)
            λ v s₃ k₃. Ensures-bind (direction-Ensures v.span (Took-Closed k₃)) λ d s₄ c. holds c

  distance_order-Ensures :
      (start : Token F) {n : ℕ} {s : Stream F}
      → Good At n start.span s
      → Ensures At (λ c s'. Closed At n start.span s' (ordering_span c)) (distance_order start s)
  unfolding distance_order ordering_span
  distance_order-Ensures start g = Ensures-bind (distance_arguments-Ensures g) λ a s₁ g₁.
      previous-Ensures _ g₁
        λ p e. Ensures-bind (direction-Ensures p.span (previous-Closed g₁ e)) λ d s₂ c. holds c

  order_column-Ensures :
      {n : ℕ} {b : Span} {s : Stream F}
      → Good At n b s
      → Ensures At (λ c s'. Read At n b s s' c.span) (order_column s)
  unfolding order_column
  order_column-Ensures g =
      on_match-Ensures score_kinds _ _ refl g (λ t s' k. holds (Took-Read k))
        (column_reference-Ensures _)

  column_order-Ensures :
      (start : Token F) {n : ℕ} {s : Stream F}
      → Good At n start.span s
      → Ensures At (λ c s'. Closed At n start.span s' (ordering_span c)) (column_order start s)
  unfolding column_order ordering_span
  column_order-Ensures start g =
      Ensures-bind (order_column-Ensures g)
        λ c s₁ r. Ensures-bind (direction-Ensures c.span (Read-Closed g r)) λ d s₂ q. holds q

  order_by_clause-Ensures :
      (start : Token F) {n : ℕ} {s : Stream F}
      → Good At n start.span s
      → Ensures At (λ c s'. Closed At n start.span s' (ordering_span c)) (order_by_clause start s)
  unfolding order_by_clause
  order_by_clause-Ensures start g = Ensures-bind (expect-Ensures TokenKind.by _ refl g) λ t s₁ k₁.
      Ensures-bind (is_score_call-Ensures k₁.state) λ c s₂ (g₂, score).
        Ensures-if c _ _ (λ e. score_order-Ensures start (score e))
          λ _.
            on_match-Ensures (TokenKind.distancia ∷ []) _ _ refl g₂
              (λ u s₃ k₃. distance_order-Ensures start k₃.state) (column_order-Ensures start)

  limit_value-Ensures :
      (start t : Token F) (i : ℤ) {kinds : List TokenKind} {n : ℕ} {s s' : Stream F}
      → Took At kinds n start.span s t s'
      → Ensures At (λ c s''. Closed At n start.span s'' c.span) (limit_value start t i s')
  unfolding limit_value
  limit_value-Ensures start t (pos n) k = holds (Took-Closed k)
  limit_value-Ensures start t (negsuc n) k = rejected k.place refl parse

  limit_clause-Ensures :
      (start : Token F) {n : ℕ} {s : Stream F}
      → Good At n start.span s
      → Ensures At (λ c s'. Closed At n start.span s' c.span) (limit_clause start s)
  unfolding limit_clause
  limit_clause-Ensures start g =
      take-Ensures (TokenKind.integer ∷ []) _ _ refl g (λ t a h. rejected a refl parse)
        λ t s₁ k.
          int_value-Ensures t _ s₁ (value_of env.letters TokenKind.integer t k.matched k.value)
            λ i. limit_value-Ensures start t i k

  pub select_statement-Ensures :
      (start : Token F) {n : ℕ} {s : Stream F}
      → Good At n start.span s
      → Ensures At (λ c s'. Closed At n start.span s' c.span) (select_statement start s)
  unfolding select_statement
  select_statement-Ensures start g = Ensures-bind (projection_list-Ensures g) λ ps s₁ g₁.
      Ensures-bind (expect-Ensures TokenKind.from _ refl g₁) λ t s₂ k₂.
        Ensures-bind (from_source-Ensures k₂.state) λ source s₃ r₃.
          Ensures-bind
            (optional-Ensures TokenKind.where_word _ condition_span (source_span source) refl
              (Read-Closed k₂.state r₃)
              λ u s k. Ensures-weaken (condition-Ensures k.state) λ c s' r. Read-Closed k.state r)
            λ filter s₄ c₄.
              Ensures-bind
                (optional-Ensures TokenKind.group _ (λ x. x.span)
                  (span_or condition_span filter (source_span source)) refl c₄
                  λ u s k.
                    Ensures-weaken (group_by_clause-Ensures u k.closed)
                      λ c s' q. Read-Closed c₄.state (Closed-Read k q))
                λ group s₅ c₅.
                  Ensures-bind
                    (optional-Ensures TokenKind.order _ ordering_span
                      (span_or (λ x. x.span) group
                        (span_or condition_span filter (source_span source)))
                      refl c₅
                      λ u s k.
                        Ensures-weaken (order_by_clause-Ensures u k.closed)
                          λ c s' q. Read-Closed c₅.state (Closed-Read k q))
                    λ order s₆ c₆.
                      Ensures-bind
                        (optional-Ensures TokenKind.limit _ (λ x. x.span)
                          (span_or ordering_span order (
                            span_or (λ x. x.span) group
                              (span_or condition_span filter (source_span source))))
                          refl c₆
                          λ u s k.
                            Ensures-weaken (limit_clause-Ensures u k.closed)
                              λ c s' q. Read-Closed c₆.state (Closed-Read k q))
                        λ limit s₇ c₇. holds c₇

  pub explain_statement-Ensures :
      (start : Token F) {n : ℕ} {s : Stream F}
      → Good At n start.span s
      → Ensures At (λ c s'. Closed At n start.span s' c.span) (explain_statement start s)
  unfolding explain_statement
  explain_statement-Ensures start g =
      Ensures-bind (match_kinds-Ensures (TokenKind.analyze ∷ []) refl g) λ analyze s₁ g₁.
        Ensures-bind (expect-Ensures TokenKind.select _ refl g₁) λ t s₂ k₂.
          Ensures-bind (select_statement-Ensures t k₂.closed)
            λ c s₃ q. holds (Read-Closed g₁ (Closed-Read k₂ q))

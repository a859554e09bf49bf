-- ===== src/Parser/Reading/Selects.antt =====
-- engine/parser/parser.py: the projections and the sources of SELECT.
use mathlib.Core.Path.{subst}
use quipudb.Prelude.{
  ℕ, ◌≡◌, refl, Bool, true, false, some, List, [], ◌∷◌, any, Bool-cases, Option-cases, inl, inr,
  sym,
}
use quipudb.Parser.Span.{Span, through}
use quipudb.Parser.Tokens.{TokenKind, Token}
use quipudb.Parser.Kinds.{kind_eq, is_end}
use quipudb.Parser.Ast.{AggregateFunction, FromSource, ScoreKind}
use quipudb.Parser.Stream.{
  Letters, Env, Stream, Parser, bind, is_one_of, check_kind, match_kinds, on_cases, upper_text,
}
use quipudb.Parser.Grammar.Queries.{
  score_kind, aggregate_of, score_kinds, source_span, span_or, optional, direction, score_kind_of,
  score_alias, score_call, aggregate_argument, aggregate_call, projection, starred_score,
  projection_list, table_reference, join_source, from_source,
}
use quipudb.Parser.Reading.Good.{
  previous, HasValue, Good, Ensures, holds, rejected, Took, Read, Closed, Keeps, parse,
}
use quipudb.Parser.Reading.Rules.{
  Ensures-bind, Ensures-weaken, Ensures-if, Good-here, fail_here-Ensures, value_of, expect-Ensures,
  on_match-Ensures,
}
use quipudb.Parser.Reading.Names.{
  Ahead, peek-Ensures, advance-Ensures, Took-Read, Took-Closed, Read-Closed, Closed-Read,
  through-Read, identifier-Ensures, column_reference-Ensures,
}
use quipudb.Parser.Reading.Lists.{comma_list-Ensures, items-Ensures}

abbrev aggregate_kinds : List TokenKind
aggregate_kinds =
    TokenKind.count ∷ TokenKind.sum ∷ TokenKind.min ∷ TokenKind.max ∷ TokenKind.avg ∷ []

aggregate_of-matched :
    (k : TokenKind) (f : AggregateFunction)
    → aggregate_of k ≡ some f
    → any (λ j. kind_eq k j) aggregate_kinds ≡ true
unfolding aggregate_of kind_eq
aggregate_of-matched TokenKind.count f e = refl
aggregate_of-matched TokenKind.sum f e = refl
aggregate_of-matched TokenKind.min f e = refl
aggregate_of-matched TokenKind.max f e = refl
aggregate_of-matched TokenKind.avg f e = refl
aggregate_of-matched k f e = absurd (cc)

score_kind_is :
    {F : Type 0} (letters : Letters) (t : Token F)
    → is_one_of score_kinds t ≡ true
    → HasValue letters t.kind t
    → (kind : ScoreKind) × (score_kind (upper_text letters t.lexeme) ≡ some kind)
score_kind_is letters t m v = elim (Bool-cases (kind_eq t.kind TokenKind.score)) [
  | inl e ↦ value_of letters TokenKind.score t (rw e refl) v
  | inr e ↦ value_of letters TokenKind.similarity_score t (rw e at m) v
]

module _ {F : Type 0} ⦃env : Env F⦄ {At : Span → Type 0} where
  pub check_kind-Ensures {ℓ} :
      {A : Type ℓ} {Q : A → Stream F → Type 0} (kind : TokenKind) (f : Bool → Parser F A) {n : ℕ}
      {b : Span} {s : Stream F}
      → Good At n b s
      → ((c : Bool) → Ensures At Q (f c s))
      → Ensures At Q (bind (check_kind kind s) f)
  unfolding check_kind
  check_kind-Ensures {Q = Q} kind f {s = s} g h =
      Ensures-bind (peek-Ensures {Q = λ c s'. s' ≡ s} _ g λ t a q. holds refl)
        λ c s' e. subst (λ s'. Ensures At Q (f c s')) (sym e) (h c)

  pub match_kinds-Ensures :
      (kinds : List TokenKind) {n : ℕ} {b : Span} {s : Stream F}
      → any is_end kinds ≡ false
      → Good At n b s
      → Ensures At (λ c s'. Good At n b s') (match_kinds kinds s)
  unfolding match_kinds
  match_kinds-Ensures kinds ne g = peek-Ensures _ g λ t a h. elim (Bool-cases (is_one_of kinds t)) [
    | inl e ↦ rw e (advance-Ensures kinds _ ne h e λ s' k. holds k.state)
    | inr e ↦ rw e (holds g)
  ]

  -- A clause that may be missing; `x` is the end so far.
  pub optional-Ensures :
      {A : Type 0} (kind : TokenKind) (clause : Token F → Parser F A) (span : A → Span) (x : Span)
      {n : ℕ} {b : Span} {s : Stream F}
      → is_end kind ≡ false
      → Closed At n b s (through b x)
      → ((t : Token F) (s' : Stream F)
          → Took At (kind ∷ []) n b s t s'
          → Ensures At (λ a s''. Closed At n b s'' (through b (span a))) (clause t s'))
      → Ensures At
          (λ o s'. Closed At n b s' (through b (span_or span o x)))
          (optional kind clause s)
  unfolding optional
  optional-Ensures kind clause span x ne c h =
      on_match-Ensures (kind ∷ []) _ _ (rw ne refl) c.state
        (λ t s' k. Ensures-bind (h t s' k) λ a s'' q. holds q) (λ g. holds c)

  pub direction-Ensures :
      (x : Span) {n : ℕ} {b : Span} {s : Stream F}
      → Closed At n b s (through b x)
      → Ensures At (λ d s'. Closed At n b s' (through b d.1)) (direction x s)
  unfolding direction on_cases
  direction-Ensures x c =
      on_match-Ensures (TokenKind.asc ∷ []) _ _ refl c.state (λ t s' k. holds (Took-Closed k))
        λ g.
          on_match-Ensures (TokenKind.desc ∷ []) _ _ refl g (λ t s' k. holds (Took-Closed k))
            (λ g. holds c)

  pub score_kind_of-Ensures {ℓ} :
      {A : Type ℓ} {Q : A → Stream F → Type 0} (t : Token F) (f : ScoreKind → Parser F A)
      (s : Stream F)
      → is_one_of score_kinds t ≡ true
      → HasValue env.letters t.kind t
      → ((kind : ScoreKind) → Ensures At Q (f kind s))
      → Ensures At Q (bind (score_kind_of t s) f)
  unfolding score_kind_of
  score_kind_of-Ensures t f s m v h =
      let (kind, e) = score_kind_is env.letters t m v in rw (e, score_kind_of) (h kind)

  score_alias-Ensures :
      {n : ℕ} {b : Span} {s : Stream F}
      → Good At n b s
      → Ensures At (λ i s'. Read At n b s s' i.span) (score_alias s)
  unfolding score_alias
  score_alias-Ensures g =
      on_match-Ensures score_kinds _ _ refl g (λ t s' k. holds (Took-Read k)) (identifier-Ensures _)

  score_call-Ensures :
      {n : ℕ} {b : Span} (start : Token F) {s₀ s : Stream F}
      → Took At score_kinds n b s₀ start s
      → Ensures At (λ c s'. Closed At n start.span s' c.span) (score_call start s)
  unfolding score_call
  score_call-Ensures start {s = s} k = score_kind_of-Ensures start _ s k.matched k.value λ kind.
      Ensures-bind (expect-Ensures TokenKind.lparen _ refl k.closed) λ t s₁ k₁.
        Ensures-bind (expect-Ensures TokenKind.rparen _ refl k₁.state) λ u s₂ k₂.
          Ensures-bind
            (optional-Ensures TokenKind.as_word _ (λ i. i.span) u.span refl (Took-Closed k₂)
              λ v s₃ k₃.
                Ensures-weaken (score_alias-Ensures k₃.state) λ i s₄ r. Read-Closed k₃.state r)
            λ o s₅ c. holds c

  aggregate_argument-Ensures :
      (function : AggregateFunction) {n : ℕ} {b : Span} {s : Stream F}
      → Good At n b s
      → Ensures At (λ a s'. Good At n b s') (aggregate_argument function s)
  unfolding aggregate_argument
  aggregate_argument-Ensures AggregateFunction.count g =
      on_match-Ensures (TokenKind.star ∷ []) _ _ refl g (λ t s' k. holds k.state)
        (fail_here-Ensures _)
  aggregate_argument-Ensures function g =
      on_match-Ensures (TokenKind.star ∷ []) _ _ refl g (λ t s' k. rejected k.place refl parse)
        λ g. Ensures-bind (column_reference-Ensures _ g) λ c s' r. holds r.state

  aggregate_call-Ensures :
      (function : AggregateFunction) {n : ℕ} {b : Span} {t : Token F} {s : Stream F}
      → Ahead At n b t s
      → is_one_of aggregate_kinds t ≡ true
      → Ensures At (λ a s'. Good At n b s') (aggregate_call function s)
  unfolding aggregate_call
  aggregate_call-Ensures function h m = advance-Ensures aggregate_kinds _ refl h m λ s₁ k.
      Ensures-bind (expect-Ensures TokenKind.lparen _ refl k.state) λ u s₂ k₂.
        Ensures-bind (aggregate_argument-Ensures function k₂.state) λ a s₃ g₃.
          Ensures-bind (expect-Ensures TokenKind.rparen _ refl g₃) λ v s₄ k₄. holds k₄.state

  projections-Keeps : {b : Span} → Keeps At b (projection {F = F})
  unfolding projection
  projections-Keeps n s g =
      on_match-Ensures score_kinds _ _ refl g
        (λ t s' k. Ensures-bind (score_call-Ensures t k) λ c s'' q. holds (Closed-Read k q).state)
        λ g. peek-Ensures _ g λ t a h. elim (Option-cases (aggregate_of t.kind)) [
          | inl e ↦ rw e (Ensures-bind (column_reference-Ensures _ g) λ c s' r. holds r.state)
          | inr (f, e) ↦ rw e (aggregate_call-Ensures f h (aggregate_of-matched t.kind f e))
        ]

  scores-Keeps : {b : Span} → Keeps At b (starred_score {F = F})
  unfolding starred_score
  scores-Keeps n s g =
      on_match-Ensures score_kinds _ _ refl g
        (λ t s' k. Ensures-bind (score_call-Ensures t k) λ c s'' q. holds (Closed-Read k q).state)
        (fail_here-Ensures _)

  pub projection_list-Ensures :
      {n : ℕ} {b : Span} {s : Stream F}
      → Good At n b s
      → Ensures At (λ a s'. Good At n b s') (projection_list s)
  unfolding projection_list
  projection_list-Ensures g =
      on_match-Ensures (TokenKind.star ∷ []) _ _ refl g
        (λ t s' k. Ensures-bind (items-Ensures _ scores-Keeps k.state) λ a s'' g'. holds g')
        (comma_list-Ensures _ projections-Keeps)

  table_reference-Ensures :
      {n : ℕ} {b : Span} {s : Stream F}
      → Good At n b s
      → Ensures At (λ a s'. Read At n b s s' (source_span a)) (table_reference s)
  unfolding table_reference source_span
  table_reference-Ensures g = Ensures-bind (identifier-Ensures _ g) λ i s' r. holds r

  join_source-Ensures :
      (left : FromSource) {n : ℕ} {b : Span} {s s' : Stream F}
      → Read At n b s s' (source_span left)
      → (s₁ : Stream F) → Good At n (previous s') s₁
      → Ensures At (λ a s''. Read At n b s s'' (source_span a)) (join_source left s₁)
  unfolding join_source source_span
  join_source-Ensures left r s₁ g = Ensures-bind (table_reference-Ensures g) λ right s₂ r₂.
      Ensures-bind (expect-Ensures TokenKind.on _ refl r₂.state) λ t s₃ k₃.
        Ensures-bind (column_reference-Ensures _ k₃.state) λ c s₄ r₄.
          Ensures-bind (expect-Ensures TokenKind.equal _ refl r₄.state) λ u s₅ k₅.
            Ensures-bind (column_reference-Ensures _ k₅.state)
              λ d s₆ r₆. holds (through-Read r k₅.state r₆)

  pub from_source-Ensures :
      {n : ℕ} {b : Span} {s : Stream F}
      → Good At n b s
      → Ensures At (λ a s'. Read At n b s s' (source_span a)) (from_source s)
  unfolding from_source
  from_source-Ensures g = Ensures-bind (table_reference-Ensures g) λ left s₁ r.
      Ensures-bind
        (on_match-Ensures (TokenKind.join ∷ []) _ _ refl (Good-here r.state)
          (λ t s₂ k. join_source-Ensures left r s₂ k.state) (λ g. holds r))
        λ source s₃ q.
          check_kind-Ensures TokenKind.join _ q.state
            λ c. Ensures-if c _ _ (λ _. fail_here-Ensures _ q.state) (λ _. holds q)

-- ===== src/Parser/Reading/Wheres.antt =====
-- engine/parser/parser.py: the spans of the conditions of WHERE.
use quipudb.Prelude.{ℕ, refl, not, [], ◌∷◌, length, ltb, Option-cases, inl, inr}
use quipudb.Parser.Span.{Span}
use quipudb.Parser.Chars.{codes, text_eq}
use quipudb.Parser.Tokens.{TokenKind, Token}
use quipudb.Parser.Kinds.{kind_eq}
use quipudb.Parser.Ast.{ColumnReference}
use quipudb.Parser.Stream.{Env, Stream, on_cases, lower_text, is_one_of}
use quipudb.Parser.Grammar.Literals.{numeric_kinds}
use quipudb.Parser.Grammar.Conditions.{
  comparison_of, distance_metric, distance_arguments, distance_condition, polygon_vertex,
  polygon_condition, text_ranking, match_condition, similar_column, similar_name, is_negative,
  similar_kind, similar_index, similar_condition, between_condition, comparison_condition,
  column_condition, condition, condition_span,
}
use quipudb.Parser.Reading.Good.{
  previous, Good, Ensures, holds, rejected, Read, Closed, Keeps, parse,
}
use quipudb.Parser.Reading.Rules.{
  Ensures-bind, Ensures-weaken, Ensures-if, Good-here, fail_here-Ensures, value_of, expect-Ensures,
  on_match-Ensures,
}
use quipudb.Parser.Reading.Names.{
  peek-Ensures, advanced-Ensures, previous-Ensures, take-Ensures, text_value-Ensures,
  int_value-Ensures, Took-Closed, Read-Closed, Closed-Read, through-Read, column_reference-Ensures,
}
use quipudb.Parser.Reading.Lists.{comma_list-Ensures, literal_value-Ensures, point_literal-Ensures}
use quipudb.Parser.Reading.Definitions.{previous-Closed, vector_metric-Ensures}

module _ {F : Type 0} ⦃env : Env F⦄ {At : Span → Type 0} where
  distance_metric-Ensures :
      {n : ℕ} {b : Span} {s : Stream F}
      → Good At n b s
      → Ensures At (λ c s'. Good At n b s') (distance_metric s)
  unfolding distance_metric on_cases
  distance_metric-Ensures g =
      on_match-Ensures (TokenKind.haversine ∷ []) _ _ refl g (λ t s' k. holds k.state)
        λ g.
          on_match-Ensures (TokenKind.euclidean ∷ []) _ _ refl g (λ t s' k. holds k.state)
            (fail_here-Ensures _)

  pub distance_arguments-Ensures :
      {n : ℕ} {b : Span} {s : Stream F}
      → Good At n b s
      → Ensures At (λ c s'. Good At n b s') (distance_arguments s)
  unfolding distance_arguments
  distance_arguments-Ensures g = Ensures-bind (expect-Ensures TokenKind.lparen _ refl g) λ t s₁ k₁.
      Ensures-bind (column_reference-Ensures _ k₁.state) λ c s₂ r₂.
        Ensures-bind (expect-Ensures TokenKind.comma _ refl r₂.state) λ u s₃ k₃.
          Ensures-bind (expect-Ensures TokenKind.point _ refl k₃.state) λ v s₄ k₄.
            Ensures-bind (point_literal-Ensures v k₄.closed) λ p s₅ c₅.
              Ensures-bind
                (on_match-Ensures (TokenKind.comma ∷ []) _ _ refl (Closed-Read k₄ c₅).state
                  (λ w s₆ k₆. distance_metric-Ensures k₆.state) holds)
                λ m s₇ g₇.
                  Ensures-bind (expect-Ensures TokenKind.rparen _ refl g₇) λ x s₈ k₈. holds k₈.state

  distance_condition-Ensures :
      (start : Token F) {n : ℕ} {s : Stream F}
      → Good At n start.span s
      → Ensures At (λ c s'. Closed At n start.span s' c.span) (distance_condition start s)
  unfolding distance_condition
  distance_condition-Ensures start g = Ensures-bind (distance_arguments-Ensures g) λ c s₁ g₁.
      take-Ensures (TokenKind.less_than ∷ TokenKind.less_than_or_equal ∷ []) _ _ refl g₁
        (λ t a h. rejected a refl parse)
        λ t s₂ k₂. peek-Ensures _ k₂.state λ r a h.
          Ensures-if (not (is_one_of numeric_kinds r)) _ _ (λ _. rejected a refl parse)
            λ _.
              Ensures-bind (literal_value-Ensures k₂.state)
                λ l s₃ r₃. holds (Read-Closed k₂.state r₃)

  vertices-Keeps : {b : Span} → Keeps At b (polygon_vertex {F = F})
  unfolding polygon_vertex
  vertices-Keeps n s g = Ensures-bind (expect-Ensures TokenKind.point _ refl g) λ t s₁ k₁.
      Ensures-weaken (point_literal-Ensures t k₁.closed) λ p s₂ c. (Closed-Read k₁ c).state

  polygon_condition-Ensures :
      (start : Token F) {n : ℕ} {s : Stream F}
      → Good At n start.span s
      → Ensures At (λ c s'. Closed At n start.span s' c.span) (polygon_condition start s)
  unfolding polygon_condition
  polygon_condition-Ensures start g =
      Ensures-bind (expect-Ensures TokenKind.lparen _ refl g) λ t s₁ k₁.
        Ensures-bind (column_reference-Ensures _ k₁.state) λ c s₂ r₂.
          Ensures-bind (expect-Ensures TokenKind.comma _ refl r₂.state) λ u s₃ k₃.
            Ensures-bind (expect-Ensures TokenKind.polygon _ refl k₃.state) λ v s₄ k₄.
              Ensures-bind (expect-Ensures TokenKind.lparen _ refl k₄.state) λ w s₅ k₅.
                Ensures-bind (comma_list-Ensures _ vertices-Keeps k₅.state) λ ps s₆ g₆.
                  Ensures-bind (expect-Ensures TokenKind.rparen _ refl g₆) λ x s₇ k₇.
                    Ensures-if (ltb (length ps) 3) _ _ (λ _. rejected k₇.place refl parse)
                      λ _.
                        Ensures-bind (expect-Ensures TokenKind.rparen _ refl k₇.state)
                          λ y s₈ k₈. holds (Took-Closed k₈)

  text_ranking-Ensures :
      {n : ℕ} {b : Span} {s : Stream F}
      → Good At n b s
      → Ensures At (λ c s'. Good At n b s') (text_ranking s)
  unfolding text_ranking on_cases
  text_ranking-Ensures g =
      on_match-Ensures (TokenKind.tf_idf ∷ []) _ _ refl g (λ t s' k. holds k.state)
        λ g.
          on_match-Ensures (TokenKind.bm25 ∷ []) _ _ refl g (λ t s' k. holds k.state)
            (fail_here-Ensures _)

  match_condition-Ensures :
      (start : Token F) {n : ℕ} {s : Stream F}
      → Good At n start.span s
      → Ensures At (λ c s'. Closed At n start.span s' c.span) (match_condition start s)
  unfolding match_condition
  match_condition-Ensures start g =
      Ensures-bind (expect-Ensures TokenKind.lparen _ refl g) λ t s₁ k₁.
        Ensures-bind (column_reference-Ensures _ k₁.state) λ c s₂ r₂.
          Ensures-bind (expect-Ensures TokenKind.comma _ refl r₂.state) λ u s₃ k₃.
            take-Ensures (TokenKind.string ∷ []) _ _ refl k₃.state (λ t a h. rejected a refl parse)
              λ v s₄ k₄.
                text_value-Ensures v _ s₄
                  (value_of env.letters TokenKind.string v k₄.matched k₄.value)
                  λ w. Ensures-bind (expect-Ensures TokenKind.rparen _ refl k₄.state) λ x s₅ k₅.
                    Ensures-bind
                      (on_match-Ensures (TokenKind.using ∷ []) _ _ refl k₅.state
                        (λ y s₆ k₆. text_ranking-Ensures k₆.state) holds)
                      λ m s₇ g₇. previous-Ensures _ g₇ λ p e. holds (previous-Closed g₇ e)

  similar_column-Ensures :
      {n : ℕ} {b : Span} {s : Stream F}
      → Good At n b s
      → Ensures At (λ c s'. Good At n b s') (similar_column s)
  unfolding similar_column
  similar_column-Ensures g = peek-Ensures _ g λ t a h.
      Ensures-if (kind_eq t.kind TokenKind.string) _ _ (λ _. holds g)
        λ _. Ensures-bind (column_reference-Ensures _ g) λ c s₁ r₁.
          Ensures-bind (expect-Ensures TokenKind.comma _ refl r₁.state) λ u s₂ k₂. holds k₂.state

  similar_name-Ensures :
      {n : ℕ} {b : Span} {s : Stream F}
      → Good At n b s
      → Ensures At (λ c s'. Good At n b s') (similar_name s)
  unfolding similar_name
  similar_name-Ensures g =
      take-Ensures (TokenKind.identifier ∷ []) _ _ refl g (λ t a h. holds h)
        λ t s₁ k₁.
          Ensures-if (not (text_eq (lower_text env.letters t.lexeme) (codes "k"))) _ _
            (λ _. rejected k₁.place refl parse)
            λ _.
              Ensures-bind (expect-Ensures TokenKind.equal _ refl k₁.state)
                λ u s₂ k₂. holds k₂.state

  similar_kind-Ensures :
      {n : ℕ} {b : Span} {s : Stream F}
      → Good At n b s
      → Ensures At (λ c s'. Good At n b s') (similar_kind s)
  unfolding similar_kind on_cases
  similar_kind-Ensures g =
      on_match-Ensures (TokenKind.hnsw ∷ []) _ _ refl g (λ t s' k. holds k.state)
        λ g.
          on_match-Ensures (TokenKind.ivf ∷ []) _ _ refl g (λ t s' k. holds k.state)
            (fail_here-Ensures _)

  similar_index-Ensures :
      {n : ℕ} {b : Span} {s : Stream F}
      → Good At n b s
      → Ensures At (λ c s'. Good At n b s') (similar_index s)
  unfolding similar_index
  similar_index-Ensures g = Ensures-bind (expect-Ensures TokenKind.rparen _ refl g) λ t s₁ k₁.
      Ensures-bind (expect-Ensures TokenKind.using _ refl k₁.state) λ u s₂ k₂.
        Ensures-bind (similar_kind-Ensures k₂.state) λ kind s₃ g₃. previous-Ensures _ g₃ λ p e.
          Ensures-bind
            (on_match-Ensures (TokenKind.with ∷ []) _ _ refl g₃
              (λ y s₄ k₄. vector_metric-Ensures k₄.state) holds)
            λ m s₅ g₅. holds g₅

  similar_condition-Ensures :
      (start : Token F) {n : ℕ} {s : Stream F}
      → Good At n start.span s
      → Ensures At (λ c s'. Closed At n start.span s' c.span) (similar_condition start s)
  unfolding similar_condition
  similar_condition-Ensures start g =
      Ensures-bind (expect-Ensures TokenKind.lparen _ refl g) λ t s₁ k₁.
        Ensures-bind (similar_column-Ensures k₁.state) λ c s₂ g₂.
          Ensures-bind (expect-Ensures TokenKind.string _ refl g₂) λ u s₃ k₃.
            text_value-Ensures u _ s₃ (value_of env.letters TokenKind.string u k₃.matched k₃.value)
              λ w. Ensures-bind (expect-Ensures TokenKind.comma _ refl k₃.state) λ v s₄ k₄.
                Ensures-bind (similar_name-Ensures k₄.state) λ x s₅ g₅.
                  Ensures-bind (expect-Ensures TokenKind.integer _ refl g₅) λ y s₆ k₆.
                    int_value-Ensures y _ s₆
                      (value_of env.letters TokenKind.integer y k₆.matched k₆.value)
                      λ i.
                        Ensures-if (is_negative i) _ _ (λ _. rejected k₆.place refl parse)
                          λ _.
                            Ensures-bind (similar_index-Ensures k₆.state)
                              λ m s₇ g₇. previous-Ensures _ g₇ λ p e. holds (previous-Closed g₇ e)

  -- The rest of a condition that begins with a column.
  between_condition-Ensures :
      (column : ColumnReference) {n : ℕ} {b : Span} {s s' : Stream F}
      → Read At n b s s' column.span
      → (s₁ : Stream F) → Good At n (previous s') s₁
      → Ensures At (λ c s''. Read At n b s s'' (condition_span c)) (between_condition column s₁)
  unfolding between_condition condition_span
  between_condition-Ensures column r s₁ g = Ensures-bind (literal_value-Ensures g) λ l s₂ r₂.
      Ensures-bind (expect-Ensures TokenKind.and _ refl r₂.state) λ t s₃ k₃.
        Ensures-bind (literal_value-Ensures k₃.state) λ m s₄ r₄. holds (through-Read r k₃.state r₄)

  comparison_condition-Ensures :
      (column : ColumnReference) {n : ℕ} {b : Span} {s s' : Stream F}
      → Read At n b s s' column.span
      → Good At n (previous s') s'
      → Ensures At (λ c s''. Read At n b s s'' (condition_span c)) (comparison_condition column s')
  unfolding comparison_condition condition_span
  comparison_condition-Ensures column r g = peek-Ensures _ g λ t a h.
      elim (Option-cases (comparison_of t.kind)) [
        | inl e ↦ rw (e, comparison_condition) (rejected a refl parse)
        | inr (operator, e) ↦
            rw (e, comparison_condition)
              (advanced-Ensures _ h λ s₂ g₂.
                Ensures-bind (literal_value-Ensures g₂) λ l s₃ r₃. holds (through-Read r g₂ r₃))
      ]

  column_condition-Ensures :
      {n : ℕ} {b : Span} {s : Stream F}
      → Good At n b s
      → Ensures At (λ c s'. Read At n b s s' (condition_span c)) (column_condition s)
  unfolding column_condition
  column_condition-Ensures g = Ensures-bind (column_reference-Ensures _ g) λ c s₁ r.
      on_match-Ensures (TokenKind.between ∷ []) _ _ refl (Good-here r.state)
        (λ t s₂ k. between_condition-Ensures c r s₂ k.state) (comparison_condition-Ensures c r)

  pub condition-Ensures :
      {n : ℕ} {b : Span} {s : Stream F}
      → Good At n b s
      → Ensures At (λ c s'. Read At n b s s' (condition_span c)) (condition s)
  unfolding condition condition_span on_cases
  condition-Ensures g =
      on_match-Ensures (TokenKind.distancia ∷ []) _ _ refl g
        (λ t s' k.
          Ensures-bind (distance_condition-Ensures t k.closed) λ c s'' q. holds (Closed-Read k q))
        λ g.
          on_match-Ensures (TokenKind.dentro ∷ []) _ _ refl g
            (λ t s' k.
              Ensures-bind (polygon_condition-Ensures t k.closed)
                λ c s'' q. holds (Closed-Read k q))
            λ g.
              on_match-Ensures (TokenKind.match ∷ []) _ _ refl g
                (λ t s' k.
                  Ensures-bind (match_condition-Ensures t k.closed)
                    λ c s'' q. holds (Closed-Read k q))
                λ g.
                  on_match-Ensures (TokenKind.similar_to ∷ []) _ _ refl g
                    (λ t s' k.
                      Ensures-bind (similar_condition-Ensures t k.closed)
                        λ c s'' q. holds (Closed-Read k q))
                    column_condition-Ensures

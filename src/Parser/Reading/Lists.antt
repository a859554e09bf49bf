-- ===== src/Parser/Reading/Lists.antt =====
-- engine/parser/parser.py: the loops over commas, the literals and their spans.
use quipudb.Prelude.{ℕ, zero, suc, ◌+◌, refl, String, not, [], ◌∷◌, arith, Option-cases, inl, inr}
use quipudb.Prelude.Int.{ℤ}
use quipudb.Parser.Span.{Span}
use quipudb.Parser.Chars.{codes, text_eq}
use quipudb.Parser.Tokens.{TokenKind, Token}
use quipudb.Parser.Ast.{Literal}
use quipudb.Parser.Stream.{Env, Stream, Parser, on_cases, word_of, with_fuel}
use quipudb.Parser.Grammar.Dates.{date_fields, from_iso}
use quipudb.Parser.Grammar.Literals.{
  numeric_kinds, more_items, comma_list, coordinate, point_literal, component, more_components,
  vector_literal, date_literal, no_literal, literal_value,
}
use quipudb.Parser.Grammar.Conditions.{literal_span}
use quipudb.Parser.Reading.Good.{Good, Ensures, holds, rejected, Read, Closed, Keeps, parse}
use quipudb.Parser.Reading.Rules.{
  Ensures-bind, Ensures-weaken, Ensures-if, raise_unsupported-Ensures, Good-le, Good-zero, value_of,
  expect-Ensures, on_match-Ensures, with_fuel-Ensures,
}
use quipudb.Parser.Reading.Names.{
  peek-Ensures, take-Ensures, text_value-Ensures, int_value-Ensures, float_value-Ensures, Took-Read,
  Took-Closed, Closed-Read,
}

module _ {F : Type 0} ⦃env : Env F⦄ {At : Span → Type 0} where
  pub more_items-Ensures {ℓ} :
      {A : Type ℓ} (item : Parser F A) {b : Span}
      → Keeps At b item
      → (n : ℕ) (s : Stream F) → Good At n b s
      → Ensures At (λ a s'. Good At n b s') (more_items item n s)
  unfolding more_items
  more_items-Ensures item keeps zero s g = absurd (Good-zero g)
  more_items-Ensures item keeps (suc n) s g =
      on_match-Ensures (TokenKind.comma ∷ []) _ _ refl g
        (λ t s₁ k. Ensures-bind (keeps n s₁ (k.fewer n (omega arith))) λ a s₂ g₂.
          Ensures-bind (more_items-Ensures item keeps n s₂ g₂)
            λ rest s₃ g₃. holds (Good-le g₃ (omega arith)))
        holds

  pub items-Ensures {ℓ} :
      {A : Type ℓ} (item : Parser F A) {n : ℕ} {b : Span} {s : Stream F}
      → Keeps At b item
      → Good At n b s
      → Ensures At (λ a s'. Good At n b s') (with_fuel (more_items item) s)
  items-Ensures item {s = s} keeps g =
      with_fuel-Ensures (more_items item) g
        λ m le h. Ensures-weaken (more_items-Ensures item keeps m s h) λ rest s' g'. Good-le g' le

  pub comma_list-Ensures {ℓ} :
      {A : Type ℓ} (item : Parser F A) {n : ℕ} {b : Span} {s : Stream F}
      → Keeps At b item
      → Good At n b s
      → Ensures At (λ a s'. Good At n b s') (comma_list item s)
  unfolding comma_list
  comma_list-Ensures item keeps g =
      Ensures-bind (keeps _ _ g)
        λ a s₁ g₁. Ensures-bind (items-Ensures item keeps g₁) λ rest s₂ g₂. holds g₂

  coordinate-Ensures :
      (role : String) (low high : ℤ) {n : ℕ} {b : Span} {s : Stream F}
      → Good At n b s
      → Ensures At (λ a s'. Good At n b s') (coordinate role low high s)
  unfolding coordinate
  coordinate-Ensures role low high g =
      take-Ensures numeric_kinds _ _ refl g (λ t a h. rejected a refl parse)
        λ t s' k. float_value-Ensures t _ s' k.matched k.value λ x.
          Ensures-if (not (env.is_within low high x)) _ _ (λ _. rejected k.place refl parse)
            (λ _. holds k.state)

  pub point_literal-Ensures :
      (start : Token F) {n : ℕ} {s : Stream F}
      → Good At n start.span s
      → Ensures At (λ p s'. Closed At n start.span s' p.span) (point_literal start s)
  unfolding point_literal
  point_literal-Ensures start g = Ensures-bind (expect-Ensures TokenKind.lparen _ refl g) λ t s₁ k₁.
      Ensures-bind (coordinate-Ensures _ _ _ k₁.state) λ x s₂ g₂.
        Ensures-bind (expect-Ensures TokenKind.comma _ refl g₂) λ u s₃ k₃.
          Ensures-bind (coordinate-Ensures _ _ _ k₃.state) λ y s₄ g₄.
            Ensures-bind (expect-Ensures TokenKind.rparen _ refl g₄)
              λ v s₅ k₅. holds (Took-Closed k₅)

  component-Ensures :
      (count : ℕ) {n : ℕ} {b : Span} {s : Stream F}
      → Good At n b s
      → Ensures At (λ a s'. Good At n b s') (component count s)
  unfolding component
  component-Ensures count g =
      take-Ensures numeric_kinds _ _ refl g (λ t a h. rejected a refl parse)
        λ t s' k. float_value-Ensures t _ s' k.matched k.value λ x. holds k.state

  more_components-Ensures :
      (count n : ℕ) {b : Span} (s : Stream F)
      → Good At n b s
      → Ensures At (λ a s'. Good At n b s') (more_components count n s)
  unfolding more_components
  more_components-Ensures count zero s g = absurd (Good-zero g)
  more_components-Ensures count (suc n) s g =
      on_match-Ensures (TokenKind.comma ∷ []) _ _ refl g
        (λ t s₁ k. Ensures-bind (component-Ensures count (k.fewer n (omega arith))) λ a s₂ g₂.
          Ensures-bind (more_components-Ensures (count + 1) n s₂ g₂)
            λ rest s₃ g₃. holds (Good-le g₃ (omega arith)))
        holds

  components-Ensures :
      {n : ℕ} {b : Span} {s : Stream F}
      → Good At n b s
      → Ensures At (λ a s'. Good At n b s') (with_fuel (more_components 1) s)
  components-Ensures {s = s} g =
      with_fuel-Ensures (more_components 1) g
        λ m le h. Ensures-weaken (more_components-Ensures 1 m s h) λ rest s' g'. Good-le g' le

  vector_literal-Ensures :
      (start : Token F) {n : ℕ} {s : Stream F}
      → Good At n start.span s
      → Ensures At (λ p s'. Closed At n start.span s' p.span) (vector_literal start s)
  unfolding vector_literal
  vector_literal-Ensures start g =
      Ensures-bind (expect-Ensures TokenKind.lparen _ refl g) λ t s₁ k₁.
        Ensures-bind (component-Ensures 0 k₁.state) λ x s₂ g₂.
          Ensures-bind (components-Ensures g₂) λ rest s₃ g₃.
            Ensures-bind (expect-Ensures TokenKind.rparen _ refl g₃)
              λ v s₅ k₅. holds (Took-Closed k₅)

  date_literal-Ensures :
      (start : Token F) {n : ℕ} {s : Stream F}
      → Good At n start.span s
      → Ensures At (λ p s'. Closed At n start.span s' (literal_span p)) (date_literal start s)
  unfolding date_literal literal_span
  date_literal-Ensures start g = Ensures-bind (expect-Ensures TokenKind.string _ refl g) λ t s₁ k.
      text_value-Ensures t _ s₁ (value_of env.letters TokenKind.string t k.matched k.value) λ w.
        elim (Option-cases (date_fields w)) [
          | inl e ↦ rw e (rejected k.place refl parse)
          | inr ((year, month, day), e) ↦ elim (Option-cases (from_iso year month day)) [
            | inl f ↦ rw (e, f) (rejected k.place refl parse)
            | inr (d, f) ↦ rw (e, f) (holds (Took-Closed k))
          ]
        ]

  no_literal-Ensures :
      {Q : Literal F → Stream F → Type 0} {n : ℕ} {b : Span} {s : Stream F}
      → Good At n b s
      → Ensures At Q (no_literal s)
  unfolding no_literal
  no_literal-Ensures {s = s} g = peek-Ensures _ g λ t a h.
      Ensures-if (text_eq (word_of t) (codes "NULL")) _ _ (λ _. raise_unsupported-Ensures t s a)
        (λ _. rejected a refl parse)

  pub literal_value-Ensures :
      {n : ℕ} {b : Span} {s : Stream F}
      → Good At n b s
      → Ensures At (λ l s'. Read At n b s s' (literal_span l)) (literal_value s)
  unfolding literal_value literal_span on_cases
  literal_value-Ensures g =
      on_match-Ensures (TokenKind.integer ∷ []) _ _ refl g
        (λ t s' k.
          int_value-Ensures t _ s' (value_of env.letters TokenKind.integer t k.matched k.value)
            λ n. holds (Took-Read k))
        λ g.
          on_match-Ensures (TokenKind.double_literal ∷ []) _ _ refl g
            (λ t s' k.
              float_value-Ensures t _ s' (ground (arith, k.matched)) k.value
                λ x. holds (Took-Read k))
            λ g.
              on_match-Ensures (TokenKind.string ∷ []) _ _ refl g
                (λ t s' k.
                  text_value-Ensures t _ s'
                    (value_of env.letters TokenKind.string t k.matched k.value)
                    λ w. holds (Took-Read k))
                λ g.
                  on_match-Ensures (TokenKind.true ∷ []) _ _ refl g (λ t s' k. holds (Took-Read k))
                    λ g.
                      on_match-Ensures (TokenKind.false ∷ []) _ _ refl g
                        (λ t s' k. holds (Took-Read k))
                        λ g.
                          on_match-Ensures (TokenKind.date ∷ []) _ _ refl g
                            (λ t s' k.
                              Ensures-weaken (date_literal-Ensures t k.closed)
                                λ l s'' c. Closed-Read k c)
                            λ g.
                              on_match-Ensures (TokenKind.point ∷ []) _ _ refl g
                                (λ t s' k.
                                  Ensures-bind (point_literal-Ensures t k.closed)
                                    λ p s'' c. holds (Closed-Read k c))
                                λ g.
                                  on_match-Ensures (TokenKind.vector ∷ []) _ _ refl g
                                    (λ t s' k.
                                      Ensures-bind (vector_literal-Ensures t k.closed)
                                        λ v s'' c. holds (Closed-Read k c))
                                    no_literal-Ensures

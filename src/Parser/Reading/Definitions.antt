-- ===== src/Parser/Reading/Definitions.antt =====
-- engine/parser/parser.py: the spans of CREATE TABLE, CREATE INDEX, INSERT and DROP TABLE.
use quipudb.Prelude.{ℕ, ◌≡◌, refl, String, not, ◌||◌, [], ◌∷◌, Option-cases, inl, inr}
use quipudb.Parser.Span.{Span, through}
use quipudb.Parser.Chars.{codes, text_eq}
use quipudb.Parser.Tokens.{TokenKind, Token}
use quipudb.Parser.Kinds.{kind_eq}
use quipudb.Parser.Ast.{SqlTypeName, IndexKind}
use quipudb.Parser.Stream.{Env, Stream, on_cases, lower_text}
use quipudb.Parser.Grammar.Literals.{literal_value}
use quipudb.Parser.Grammar.Tables.{
  starts_minus, metric_of, language_of, sized_type, sql_type, column_definition, storage_kind,
  create_table_statement, vector_metric, text_language, index_kind, index_metric, index_language,
  create_index_statement, insert_statement, drop_table_statement,
}
use quipudb.Parser.Reading.Good.{
  through-Upto, previous, Good, Ensures, holds, rejected, Read, Closed, Keeps, parse,
}
use quipudb.Parser.Reading.Rules.{
  Ensures-bind, Ensures-weaken, Ensures-if, Good-here, Good-Upto, fail_here-Ensures, value_of,
  expect-Ensures, on_match-Ensures,
}
use quipudb.Parser.Reading.Names.{
  peek-Ensures, advanced-Ensures, int_value-Ensures, Took-Read, Took-Closed, Read-Closed,
  Closed-Read, through-Read, identifier-Ensures, previous-Ensures,
}
use quipudb.Parser.Reading.Lists.{comma_list-Ensures, literal_value-Ensures}

module _ {F : Type 0} ⦃env : Env F⦄ {At : Span → Type 0} where
  sized_type-Ensures :
      (name : SqlTypeName) (no_open no_length negative no_close : String) (start : Token F) {n : ℕ}
      {s : Stream F}
      → Good At n start.span s
      → Ensures At
          (λ c s'. Closed At n start.span s' c.span)
          (sized_type name no_open no_length negative no_close start s)
  unfolding sized_type
  sized_type-Ensures name no_open no_length negative no_close start g =
      Ensures-bind (expect-Ensures TokenKind.lparen _ refl g) λ t s₁ k₁.
        Ensures-bind (expect-Ensures TokenKind.integer _ refl k₁.state) λ u s₂ k₂.
          int_value-Ensures u _ s₂ (value_of env.letters TokenKind.integer u k₂.matched k₂.value)
            λ i.
              Ensures-if (starts_minus u.lexeme) _ _ (λ _. rejected k₂.place refl parse)
                (λ _.
                  Ensures-bind (expect-Ensures TokenKind.rparen _ refl k₂.state)
                    λ v s₃ k₃. holds (Took-Closed k₃))

  sql_type-Ensures :
      {n : ℕ} {b : Span} {s : Stream F}
      → Good At n b s
      → Ensures At (λ c s'. Read At n b s s' c.span) (sql_type s)
  unfolding sql_type on_cases
  sql_type-Ensures g =
      on_match-Ensures (TokenKind.int ∷ []) _ _ refl g (λ t s' k. holds (Took-Read k))
        λ g.
          on_match-Ensures (TokenKind.double ∷ []) _ _ refl g (λ t s' k. holds (Took-Read k))
            λ g.
              on_match-Ensures (TokenKind.bool ∷ []) _ _ refl g (λ t s' k. holds (Took-Read k))
                λ g.
                  on_match-Ensures (TokenKind.date ∷ []) _ _ refl g (λ t s' k. holds (Took-Read k))
                    λ g.
                      on_match-Ensures (TokenKind.point ∷ []) _ _ refl g
                        (λ t s' k. holds (Took-Read k))
                        λ g.
                          on_match-Ensures (TokenKind.varchar ∷ []) _ _ refl g
                            (λ t s' k.
                              Ensures-weaken (sized_type-Ensures _ _ _ _ _ t k.closed)
                                λ l s'' c. Closed-Read k c)
                            λ g.
                              on_match-Ensures (TokenKind.vector ∷ []) _ _ refl g
                                (λ t s' k.
                                  Ensures-weaken (sized_type-Ensures _ _ _ _ _ t k.closed)
                                    λ l s'' c. Closed-Read k c)
                                (fail_here-Ensures _)

  column_definition-Ensures :
      {n : ℕ} {b : Span} {s : Stream F}
      → Good At n b s
      → Ensures At (λ c s'. Read At n b s s' c.span) (column_definition s)
  unfolding column_definition
  column_definition-Ensures g = Ensures-bind (identifier-Ensures _ g) λ i s₁ r.
      Ensures-bind (sql_type-Ensures (Good-here r.state)) λ d s₂ q.
        on_match-Ensures (TokenKind.primary ∷ []) _ _ refl q.state
          (λ t s₃ k.
            Ensures-bind (expect-Ensures TokenKind.key _ refl k.state)
              λ u s₄ k₄. holds (through-Read r k.state (Took-Read k₄)))
          (λ g'. holds (through-Read r (Good-here r.state) q))

  storage_kind-Ensures :
      {n : ℕ} {b : Span} {s : Stream F}
      → Good At n b s
      → Ensures At (λ c s'. Good At n b s') (storage_kind s)
  unfolding storage_kind on_cases
  storage_kind-Ensures g =
      on_match-Ensures (TokenKind.heap ∷ []) _ _ refl g (λ t s' k. holds k.state)
        λ g.
          on_match-Ensures (TokenKind.sequential ∷ []) _ _ refl g (λ t s' k. holds k.state)
            (fail_here-Ensures _)

  -- A statement that ends with the token before.
  pub previous-Closed :
      {n : ℕ} {b x : Span} {s : Stream F}
      → Good At n b s
      → x ≡ previous s
      → Closed At n b s (through b x)
  previous-Closed {b = b} {s = s} g e = record {
    state = g;
    is = rw e (through-Upto b (previous s) (Good-Upto g));
  }

  columns-Keeps : {b : Span} → Keeps At b (column_definition {F = F})
  columns-Keeps n s g = Ensures-weaken (column_definition-Ensures g) λ c s' r. r.state

  pub create_table_statement-Ensures :
      (start : Token F) {n : ℕ} {s : Stream F}
      → Good At n start.span s
      → Ensures At (λ c s'. Closed At n start.span s' c.span) (create_table_statement start s)
  unfolding create_table_statement
  create_table_statement-Ensures start g = Ensures-bind (identifier-Ensures _ g) λ i s₁ r.
      Ensures-bind (expect-Ensures TokenKind.lparen _ refl r.state) λ t s₂ k₂.
        Ensures-bind (comma_list-Ensures _ columns-Keeps k₂.state) λ cs s₃ g₃.
          Ensures-bind (expect-Ensures TokenKind.rparen _ refl g₃) λ u s₄ k₄.
            Ensures-bind
              (on_match-Ensures (TokenKind.using ∷ []) _ _ refl k₄.state
                (λ v s₅ k₅. storage_kind-Ensures k₅.state) holds)
              λ storage s₆ g₆. previous-Ensures _ g₆ λ p e. holds (previous-Closed g₆ e)

  pub vector_metric-Ensures :
      {n : ℕ} {b : Span} {s : Stream F}
      → Good At n b s
      → Ensures At (λ c s'. Good At n b s') (vector_metric s)
  unfolding vector_metric
  vector_metric-Ensures g = Ensures-bind (expect-Ensures TokenKind.metric _ refl g) λ t s₁ k₁.
      Ensures-bind (expect-Ensures TokenKind.equal _ refl k₁.state) λ u s₂ k₂.
        peek-Ensures _ k₂.state λ v a h.
          elim (Option-cases (metric_of (lower_text env.letters v.lexeme))) [
            | inl e ↦ rw e (rejected a refl parse)
            | inr (m, e) ↦ rw e (advanced-Ensures _ h λ s₃ g₃. holds g₃)
          ]

  text_language-Ensures :
      {n : ℕ} {b : Span} {s : Stream F}
      → Good At n b s
      → Ensures At (λ c s'. Good At n b s') (text_language s)
  unfolding text_language
  text_language-Ensures g = peek-Ensures _ g λ t a h.
      Ensures-if
        (not (kind_eq t.kind TokenKind.identifier)
          || not (text_eq (lower_text env.letters t.lexeme) (codes "language")))
        _ _ (λ _. rejected a refl parse)
        λ _. advanced-Ensures _ h λ s₁ g₁.
          Ensures-bind (expect-Ensures TokenKind.equal _ refl g₁) λ u s₂ k₂.
            peek-Ensures _ k₂.state λ v a' h'.
              elim (Option-cases (language_of (lower_text env.letters v.lexeme))) [
                | inl e ↦ rw e (rejected a' refl parse)
                | inr (m, e) ↦ rw e (
                    Ensures-if (not (kind_eq v.kind TokenKind.identifier)) _ _
                      (λ _. rejected a' refl parse) λ _. advanced-Ensures _ h' λ s₃ g₃. holds g₃)
              ]

  index_kind-Ensures :
      {n : ℕ} {b : Span} {s : Stream F}
      → Good At n b s
      → Ensures At (λ c s'. Good At n b s') (index_kind s)
  unfolding index_kind on_cases
  index_kind-Ensures g =
      on_match-Ensures (TokenKind.bplus ∷ TokenKind.bplus_unclustered ∷ []) _ _ refl g
        (λ t s' k. holds k.state)
        λ g.
          on_match-Ensures (TokenKind.hash ∷ TokenKind.extendible_hash ∷ []) _ _ refl g
            (λ t s' k. holds k.state)
            λ g.
              on_match-Ensures (TokenKind.rtree ∷ []) _ _ refl g (λ t s' k. holds k.state)
                λ g.
                  on_match-Ensures (TokenKind.hnsw ∷ []) _ _ refl g (λ t s' k. holds k.state)
                    λ g.
                      on_match-Ensures (TokenKind.ivf ∷ []) _ _ refl g (λ t s' k. holds k.state)
                        λ g.
                          on_match-Ensures (TokenKind.fulltext ∷ TokenKind.inverted_index ∷ []) _ _
                            refl g (λ t s' k. holds k.state) (fail_here-Ensures _)

  index_metric-Ensures :
      (kind : IndexKind) {n : ℕ} {b : Span} {s : Stream F}
      → Good At n b s
      → Ensures At (λ c s'. Good At n b s') (index_metric kind s)
  unfolding index_metric
  index_metric-Ensures IndexKind.hnsw g =
      on_match-Ensures (TokenKind.with ∷ []) _ _ refl g
        (λ t s' k. Ensures-bind (vector_metric-Ensures k.state) λ m s₁ g₁. holds g₁) holds
  index_metric-Ensures kind g = holds g

  index_language-Ensures :
      (kind : IndexKind) {n : ℕ} {b : Span} {s : Stream F}
      → Good At n b s
      → Ensures At (λ c s'. Good At n b s') (index_language kind s)
  unfolding index_language
  index_language-Ensures IndexKind.inverted_index g =
      on_match-Ensures (TokenKind.with ∷ []) _ _ refl g
        (λ t s' k. Ensures-bind (text_language-Ensures k.state) λ m s₁ g₁. holds g₁) holds
  index_language-Ensures kind g = holds g

  pub create_index_statement-Ensures :
      (start : Token F) {n : ℕ} {s : Stream F}
      → Good At n start.span s
      → Ensures At (λ c s'. Closed At n start.span s' c.span) (create_index_statement start s)
  unfolding create_index_statement
  create_index_statement-Ensures start g = Ensures-bind (identifier-Ensures _ g) λ i s₁ r₁.
      Ensures-bind (expect-Ensures TokenKind.on _ refl r₁.state) λ t s₂ k₂.
        Ensures-bind (identifier-Ensures _ k₂.state) λ j s₃ r₃.
          Ensures-bind (expect-Ensures TokenKind.lparen _ refl r₃.state) λ u s₄ k₄.
            Ensures-bind (identifier-Ensures _ k₄.state) λ c s₅ r₅.
              Ensures-bind (expect-Ensures TokenKind.rparen _ refl r₅.state) λ v s₆ k₆.
                Ensures-bind (expect-Ensures TokenKind.using _ refl k₆.state) λ w s₇ k₇.
                  Ensures-bind (index_kind-Ensures k₇.state) λ kind s₈ g₈.
                    Ensures-bind (index_metric-Ensures kind g₈) λ m s₉ g₉.
                      Ensures-bind (index_language-Ensures kind g₉)
                        λ l s₁₀ g₁₀. previous-Ensures _ g₁₀ λ p e. holds (previous-Closed g₁₀ e)

  literals-Keeps : {b : Span} → Keeps At b (literal_value {F = F})
  literals-Keeps n s g = Ensures-weaken (literal_value-Ensures g) λ c s' r. r.state

  pub insert_statement-Ensures :
      (start : Token F) {n : ℕ} {s : Stream F}
      → Good At n start.span s
      → Ensures At (λ c s'. Closed At n start.span s' c.span) (insert_statement start s)
  unfolding insert_statement
  insert_statement-Ensures start g =
      Ensures-bind (expect-Ensures TokenKind.into _ refl g) λ t s₁ k₁.
        Ensures-bind (identifier-Ensures _ k₁.state) λ i s₂ r₂.
          Ensures-bind (expect-Ensures TokenKind.values _ refl r₂.state) λ u s₃ k₃.
            Ensures-bind (expect-Ensures TokenKind.lparen _ refl k₃.state) λ v s₄ k₄.
              Ensures-bind (comma_list-Ensures _ literals-Keeps k₄.state) λ vs s₅ g₅.
                Ensures-bind (expect-Ensures TokenKind.rparen _ refl g₅)
                  λ w s₆ k₆. holds (Took-Closed k₆)

  pub drop_table_statement-Ensures :
      (start : Token F) {n : ℕ} {s : Stream F}
      → Good At n start.span s
      → Ensures At (λ c s'. Closed At n start.span s' c.span) (drop_table_statement start s)
  unfolding drop_table_statement
  drop_table_statement-Ensures start g =
      Ensures-bind (expect-Ensures TokenKind.table _ refl g) λ t s₁ k₁.
        Ensures-bind (identifier-Ensures _ k₁.state) λ i s₂ r₂. holds (Read-Closed k₁.state r₂)

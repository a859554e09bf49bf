-- ===== src/Parser/Reading/Agree.antt =====
-- engine/parser/parser.py: where `parse` reads a statement, `parse_script` reads it alone.
use mathlib.Core.Path.{subst}
use quipudb.Prelude.{
  ℕ, suc, ◌≡◌, ◌≢◌, ◌∙◌, refl, sym, ap, true, false, List, [], ◌∷◌, length, Bool-cases, inl, inr,
}
use quipudb.Parser.Span.{Span}
use quipudb.Parser.Errors.{Message, said}
use quipudb.Parser.Tokens.{TokenKind, Token}
use quipudb.Parser.Kinds.{kind_eq, eof-kind_eq}
use quipudb.Parser.Ast.{Statement}
use quipudb.Parser.Stream.{
  Env, Stream, at, Outcome, Parser, done, error, overflow, crashed, out_of_fuel, bind, peek_token,
  advance_token, match_kinds, on_match, check_kind, expect, is_unsupported, raise_unsupported,
}
use quipudb.Parser.Grammar.Statements.{
  statement, raise_trailing_input, finish_parse, parse, separator, statements, finish_script,
  parse_script,
}
use quipudb.Parser.Reading.Good.{
  Follow, Good, good, last, next, Ensures, holds, rejected, overflowed,
}
use quipudb.Parser.Reading.Rules.{Good-zero, Good-length}
use quipudb.Parser.Reading.Names.{eof_is_eof}
use quipudb.Parser.Reading.Statements.{AtEnd, at_end, statement-Ensures, finish_parse-Ensures}

bind-eq-done {ℓ κ} :
    {F : Type 0} {A : Type ℓ} {B : Type κ} (r : Outcome F A) (f : A → Parser F B) {b : B}
    {s' : Stream F}
    → bind r f ≡ done b s'
    → (a : A) × (s : Stream F) × (r ≡ done a s) × (f a s ≡ done b s')
bind-eq-done (done a s) f h = (a, s, refl, h)
bind-eq-done (error e) f h = absurd (cc)
bind-eq-done (overflow n) f h = absurd (cc)
bind-eq-done crashed f h = absurd (cc)
bind-eq-done out_of_fuel f h = absurd (cc)

module _ {F : Type 0} ⦃env : Env F⦄ where
  statements_next :
      (fuel : ℕ) (p t : Token F) (ts : List (Token F))
      → kind_eq t.kind TokenKind.eof ≡ false
      → statements (suc fuel) (at p (t ∷ ts))
        ≡ bind
            (statement (at p (t ∷ ts)))
            (λ c s. bind (separator s) (λ u s'. bind (statements fuel s') (λ cs. done (c ∷ cs))))
  unfolding statements check_kind peek_token
  statements_next fuel p t ts k = rw k refl

  raise_trailing_input-ne-done {ℓ} :
      {A : Type ℓ} (t p : Token F) (ts : List (Token F)) (a : A) (s : Stream F)
      → raise_trailing_input (at p (t ∷ ts)) ≢ done a s
  unfolding raise_trailing_input peek_token raise_unsupported
  raise_trailing_input-ne-done t p ts a s h = elim (Bool-cases (kind_eq t.kind TokenKind.and)) [
    | inl e ↦ cc (rw e at h)
    | inr e ↦ elim (Bool-cases (is_unsupported t)) [
      | inl f ↦ cc (rw (e, f) at h)
      | inr f ↦ cc (rw (e, f) at h)
    ]
  ]

module _ {F : Type 0} ⦃env : Env F⦄ {At : Span → Type 0} where
  Ensures-done {ℓ} :
      {A : Type ℓ} {P : A → Stream F → Type 0} {r : Outcome F A} (a : A) (s : Stream F)
      → Ensures At P r
      → r ≡ done a s
      → P a s
  Ensures-done {P = P} a s (holds {a = a'} {s = s'} p) e =
      let same_value : a' ≡ a = cc in
      let same_state : s' ≡ s = cc in subst (λ x. P x s) same_value (subst (P a') same_state p)
  Ensures-done a s (rejected p q c) e = absurd (cc)
  Ensures-done a s (overflowed f) e = absurd (cc)

  -- At EOF, `_expect(EOF)` stays.
  expect_end :
      (message : Message) (s : Stream F)
      → AtEnd At s
      → (t : Token F) × (expect TokenKind.eof message s ≡ done t s)
  unfolding expect check_kind peek_token advance_token
  expect_end message _ (at_end {p = p} {t = t} k a) =
      let e : kind_eq t.kind TokenKind.eof ≡ true =
        ap (λ e. kind_eq e TokenKind.eof) k ∙ eof_is_eof in
      (t, rw e (rw e refl))

  -- The loop of `parse_script` stops at EOF.
  statements_end : (fuel : ℕ) (s : Stream F) → AtEnd At s → statements (suc fuel) s ≡ done [] s
  unfolding statements check_kind peek_token
  statements_end fuel _ (at_end {t = t} k a) =
      rw (ap (λ e. kind_eq e TokenKind.eof) k ∙ eof_is_eof) refl

  -- Where `parse` finds the end of its statement, the loop of `parse_script` finds it too.
  separator-finish_parse :
      {n : ℕ} {b : Span} (s s' : Stream F) (u : Unit {0})
      → Good At n b s
      → finish_parse s ≡ done u s'
      → separator s ≡ done tt s'
  unfolding finish_parse separator on_match match_kinds check_kind peek_token advance_token
  separator-finish_parse s s' u (good {p = p} w (last {t = t} k a) l c) h =
      let ended : kind_eq t.kind TokenKind.eof ≡ true =
        ap (λ e. kind_eq e TokenKind.eof) k ∙ eof_is_eof in
      let other : kind_eq t.kind TokenKind.semicolon ≡ false =
        ap (λ e. kind_eq e TokenKind.semicolon) k ∙ eof-kind_eq TokenKind.semicolon refl in
      rw (other, ended) (cc (rw (other, ended) at h))
  separator-finish_parse s s' u (good {p = p} w (next {t = t} k v q a (last {t = t'} k' a')) l c)
        h =
      let ended : kind_eq t'.kind TokenKind.eof ≡ true =
        ap (λ e. kind_eq e TokenKind.eof) k' ∙ eof_is_eof in
      elim (Bool-cases (kind_eq t.kind TokenKind.semicolon)) [
        | inl e ↦ rw (e, k) (cc (rw (e, k, ended) at h))
        | inr e ↦ absurd (raise_trailing_input-ne-done t p (t' ∷ []) u s' (rw (e, k) at h))
      ]
  separator-finish_parse s s' u
        (good {p = p} w (next {t = t} {ts = ts} k v q a (next {t = t'} k' v' q' a' f)) l c) h =
      elim (Bool-cases (kind_eq t.kind TokenKind.semicolon)) [
        | inl e ↦ absurd (cc (rw (e, k, k') at h))
        | inr e ↦ absurd (raise_trailing_input-ne-done t p ts u s' (rw (e, k) at h))
      ]

  statements_after :
      (x : Span) (ts : List (Token F)) (s : Stream F)
      → Follow At x ts
      → AtEnd At s
      → statements (length ts) s ≡ done [] s
  statements_after x _ s (last k a) e = statements_end 0 s e
  statements_after x _ s (next {ts = ts} k v p a f) e = statements_end (length ts) s e

  -- One statement and the end: what `parse` reads is all that the loop reads.
  statements-parse :
      {n : ℕ} {b : Span} (p q t : Token F) (ts : List (Token F)) (c : Statement F)
      (s₁ s₂ : Stream F) (u : Unit {0})
      → Good At n b (at q (t ∷ ts))
      → statement (at p (t ∷ ts)) ≡ done c s₁
      → finish_parse s₁ ≡ done u s₂
      → (statements (suc (length ts)) (at p (t ∷ ts)) ≡ done (c ∷ []) s₂) × AtEnd At s₂
  statements-parse p q t _ c s₁ s₂ u (good w (last k a) l d) e₁ e₂ =
      let r =
        Ensures-done c s₁ (statement-Ensures p q (t ∷ []) (Good-length (good w (last k a) l d)))
          e₁ in
      absurd (Good-zero r.state)
  statements-parse p q t ts c s₁ s₂ u (good w (next k v h a f) l d) e₁ e₂ =
      let r =
        Ensures-done c s₁
          (statement-Ensures p q (t ∷ ts) (Good-length (good w (next k v h a f) l d))) e₁ in
      let ended = Ensures-done u s₂ (finish_parse-Ensures r.state) e₂ in
      (
        statements_next (length ts) p t ts k
            ∙ ap
                (λ o. bind o (λ c s.
                  bind (separator s)
                    (λ u s'. bind (statements (length ts) s') (λ cs. done (c ∷ cs)))))
                e₁
            ∙ ap (λ o. bind o (λ u s'. bind (statements (length ts) s') (λ cs. done (c ∷ cs))))
                (separator-finish_parse s₁ s₂ u r.state e₂)
            ∙ ap (λ o. bind o (λ cs. done (c ∷ cs))) (statements_after t.span ts s₂ f ended),
        ended,
      )

  -- What `parse` reads, `parse_script` reads as its only statement.
  pub parse_script-parse :
      {n : ℕ} {b : Span} (p q t : Token F) (ts : List (Token F)) (c : Statement F) (s : Stream F)
      → Good At n b (at q (t ∷ ts))
      → parse (at p (t ∷ ts)) ≡ done c s
      → parse_script (at p (t ∷ ts)) ≡ done (c ∷ []) s
  unfolding parse parse_script finish_script
  parse_script-parse p q t ts c s g h =
      let (c', s₁, e₁, h₁) = bind-eq-done (statement (at p (t ∷ ts))) _ h in
      let (u, s₂, e₂, h₂) = bind-eq-done (finish_parse s₁) _ h₁ in
      let (v, s₃, e₃, h₃) = bind-eq-done (expect TokenKind.eof _ s₂) _ h₂ in
      let (all, ended) = statements-parse p q t ts c' s₁ s₂ u g e₁ e₂ in
      let (v', stays) = expect_end (said "se esperaba el final del script SQL") s₂ ended in
      let (v'', stays') = expect_end (said "se esperaba el final de la sentencia") s₂ ended in
      let same : ◌≡◌ {A = Outcome F (Statement F)} (done c' s₂) (done c s) =
        ap (λ o. bind o (λ t. done c')) (sym stays' ∙ e₃) ∙ h₃ in
      ap (λ o. bind o finish_script) all
      ∙ ap (λ o. bind o (λ t. done (c' ∷ []))) stays
      ∙ ap (λ o. bind o (λ c. done (c ∷ []))) same

-- ===== src/Parser/Reading/Names.antt =====
-- engine/parser/parser.py: tokens that are looked at before they are read, the values of tokens,
-- identifiers and column references.
use mathlib.Core.Path.{subst}
use quipudb.Prelude.{
  ℕ, ◌≤◌, ◌<◌, ◌≡◌, refl, sym, ap, ◌∙◌, String, true, false, not, List, [], ◌∷◌, length, any, arith,
  Bool-cases, inl, inr, if◌then◌else◌, Option-cases,
}
use quipudb.Prelude.Int.{ℤ}
use quipudb.Parser.Span.{Span, through}
use quipudb.Parser.Chars.{Text}
use quipudb.Parser.Errors.{said}
use quipudb.Parser.Tokens.{TokenKind, text, integer, Token}
use quipudb.Parser.Kinds.{kind_eq, is_end, any-eof-kind_eq}
use quipudb.Parser.Stream.{
  Env, Stream, at, bind, Parser, peek_token, advance_token, previous_token, is_one_of, int_value,
  text_value, float_value, is_unsupported, identifier, column_reference, ◌>>=◌,
}
use quipudb.Parser.Reading.Good.{
  Past, Upto, same, past, start-Upto, Past-trans, Upto-trans, through-join, through-Upto, Upto-Past,
  join, HasValue, previous, Follow, last, next, Good, good, Ensures, holds, overflowed, Took, Read,
  Closed,
}
use quipudb.Parser.Reading.Rules.{
  Ensures-bind, Ensures-if, raise_unsupported-Ensures, Good-from, Good-Upto, Good-here, value_of,
  took, expect-Ensures, on_match-Ensures,
}

module _ {F : Type 0} ⦃env : Env F⦄ (At : Span → Type 0) where
  -- The token that comes next, still to be read.
  pub data Ahead (n : ℕ) (b : Span) (t : Token F) : Stream F → Type 0 where
    ahead :
        {p : Token F} {ts : List (Token F)}
        → Upto b p.span
        → Follow At p.span (t ∷ ts)
        → length (t ∷ ts) ≤ n
        → At p.span
        → Ahead n b t (at p (t ∷ ts))

pub eof_is_eof : kind_eq TokenKind.eof TokenKind.eof ≡ true
unfolding kind_eq
eof_is_eof = refl

module _ {F : Type 0} ⦃env : Env F⦄ {At : Span → Type 0} where
  pub peek-Ensures {ℓ} :
      {A : Type ℓ} {Q : A → Stream F → Type 0} (f : Token F → Parser F A) {n : ℕ} {b : Span}
      {s : Stream F}
      → Good At n b s
      → ((t : Token F) → At t.span → Ahead At n b t s → Ensures At Q (f t s))
      → Ensures At Q (bind (peek_token s) f)
  unfolding peek_token
  peek-Ensures f (good u (last k a) l c) h = h _ a (ahead u (last k a) l c)
  peek-Ensures f (good u (next k v p a w) l c) h = h _ a (ahead u (next k v p a w) l c)

  pub Ahead-Good :
      {n : ℕ} {b : Span} {t : Token F} {s : Stream F} → Ahead At n b t s → Good At n b s
  Ahead-Good (ahead u f l c) = good u f l c

  pub advance-Ensures {ℓ} :
      {A : Type ℓ} {Q : A → Stream F → Type 0} (kinds : List TokenKind) (f : Token F → Parser F A)
      {n : ℕ} {b : Span} {t : Token F} {s : Stream F}
      → any is_end kinds ≡ false
      → Ahead At n b t s
      → is_one_of kinds t ≡ true
      → ((s' : Stream F) → Took At kinds n b s t s' → Ensures At Q (f t s'))
      → Ensures At Q (bind (advance_token s) f)
  unfolding advance_token
  advance-Ensures kinds f {t = t} ne (ahead u (last k a) l c) m h =
      let e = sym (ap (λ e. any (λ k. kind_eq e k) kinds) k ∙ any-eof-kind_eq kinds ne) ∙ m in
      absurd (cc)
  advance-Ensures kinds f {t = t} ne (ahead {p = p} {ts = ts} u (next k v q a w) l c) m h =
      rw k (h (at t ts) (took kinds p t ts u q v a w l m))

  -- Reading on from EOF changes nothing.
  pub advanced-Ensures {ℓ} :
      {A : Type ℓ} {Q : A → Stream F → Type 0} (f : Token F → Parser F A) {n : ℕ} {b : Span}
      {t : Token F} {s : Stream F}
      → Ahead At n b t s
      → ((s' : Stream F) → Good At n b s' → Ensures At Q (f t s'))
      → Ensures At Q (bind (advance_token s) f)
  unfolding advance_token
  advanced-Ensures f {t = t} (ahead {p = p} u (last k a) l c) h =
      rw (ap (λ e. kind_eq e TokenKind.eof) k ∙ eof_is_eof)
        (h (at p (t ∷ [])) (good u (last k a) l c))
  advanced-Ensures f {t = t} (ahead {p = p} {ts = ts} u (next k v q a w) l c) h =
      rw k (h (at t ts) (good (Upto-trans _ p.span t.span u (past q)) w (omega arith) a))

  pub previous-Ensures {ℓ} :
      {A : Type ℓ} {Q : A → Stream F → Type 0} (f : Token F → Parser F A) {n : ℕ} {b : Span}
      {s : Stream F}
      → Good At n b s
      → ((t : Token F) → t.span ≡ previous s → Ensures At Q (f t s))
      → Ensures At Q (bind (previous_token s) f)
  previous-Ensures f (good {p = p} u w l c) h = h p refl

  -- A token that is looked at, refused if it is of no kind of a list, and else read.
  pub take-Ensures {ℓ} :
      {A : Type ℓ} {Q : A → Stream F → Type 0} (kinds : List TokenKind)
      (miss hit : Token F → Parser F A) {n : ℕ} {b : Span} {s : Stream F}
      → any is_end kinds ≡ false
      → Good At n b s
      → ((t : Token F) → At t.span → Good At n b s → Ensures At Q (miss t s))
      → ((t : Token F) (s' : Stream F) → Took At kinds n b s t s' → Ensures At Q (hit t s'))
      → Ensures At Q (
          bind
            (peek_token s)
            (λ t. if not (is_one_of kinds t) then miss t else (advance_token >>= λ _. hit t)))
  take-Ensures kinds miss hit {s = s} ne g refuse accept = peek-Ensures _ g λ t a h.
      elim (Bool-cases (is_one_of kinds t)) [
        | inl e ↦ rw e (advance-Ensures kinds (λ _. hit t) ne h e (accept t))
        | inr e ↦ rw e (refuse t a (Ahead-Good h))
      ]

  -- The rest of a method after the value of a token.
  pub text_value-Ensures {ℓ} :
      {A : Type ℓ} {Q : A → Stream F → Type 0} (t : Token F) (f : Text → Parser F A) (s : Stream F)
      → (w : Text) × (t.value ≡ text w)
      → ((w : Text) → Ensures At Q (f w s))
      → Ensures At Q (bind (text_value t s) f)
  text_value-Ensures t f s (w, e) h = rw e (h w)

  pub int_value-Ensures {ℓ} :
      {A : Type ℓ} {Q : A → Stream F → Type 0} (t : Token F) (f : ℤ → Parser F A) (s : Stream F)
      → (n : ℤ) × (t.value ≡ integer n)
      → ((n : ℤ) → Ensures At Q (f n s))
      → Ensures At Q (bind (int_value t s) f)
  int_value-Ensures t f s (n, e) h = rw e (h n)

  integer_float-Ensures {ℓ} :
      {A : Type ℓ} {Q : A → Stream F → Type 0} (t : Token F) (f : F → Parser F A) (s : Stream F)
      → (n : ℤ) × (t.value ≡ integer n)
      → ((x : F) → Ensures At Q (f x s))
      → Ensures At Q (bind (float_value t s) f)
  integer_float-Ensures t f s (n, e) h = elim (Option-cases (env.of_integer n)) [
    | inl none_is ↦ rw (e, none_is, float_value) (overflowed none_is)
    | inr (x, some_is) ↦ rw (e, some_is, float_value) (h x)
  ]

  pub float_value-Ensures {ℓ} :
      {A : Type ℓ} {Q : A → Stream F → Type 0} (t : Token F) (f : F → Parser F A) (s : Stream F)
      → is_one_of (TokenKind.integer ∷ TokenKind.double_literal ∷ []) t ≡ true
      → HasValue env.letters t.kind t
      → ((x : F) → Ensures At Q (f x s))
      → Ensures At Q (bind (float_value t s) f)
  float_value-Ensures t f s m v h = elim (Bool-cases (kind_eq t.kind TokenKind.integer)) [
    | inl e ↦ integer_float-Ensures t f s (value_of env.letters TokenKind.integer t (rw e refl) v) h
    | inr e ↦
        let (x, value_is) = value_of env.letters TokenKind.double_literal t (rw e at m) v in
        rw value_is (h x)
  ]

  pub Took-Read :
      {kinds : List TokenKind} {n : ℕ} {b : Span} {s s' : Stream F} {t : Token F}
      → Took At kinds n b s t s'
      → Read At n b s s' t.span
  Took-Read {t = t} k = record {
    state = k.state;
    first = t.span;
    after = k.after;
    upto = subst (Upto t.span) k.span_is same;
    is = ap (join t.span) k.span_is;
  }

  pub identifier-Ensures :
      (message : String) {n : ℕ} {b : Span} {s : Stream F}
      → Good At n b s
      → Ensures At (λ i s'. Read At n b s s' i.span) (identifier message s)
  unfolding identifier
  identifier-Ensures message {s = s} g = peek-Ensures _ g λ t a h.
      Ensures-if (is_unsupported t) _ _ (λ _. raise_unsupported-Ensures t s a)
        (λ _. Ensures-bind (expect-Ensures TokenKind.identifier (said message) refl g) λ u s₁ k.
          text_value-Ensures u _ s₁ (value_of env.letters TokenKind.identifier u k.matched k.value)
            λ w. holds (Took-Read k))

  -- Two parts in turn, with what was read between them.
  pub through-Read :
      {n : ℕ} {b : Span} {s s' s'' s₃ : Stream F} {x y : Span}
      → Read At n b s s' x
      → Good At n (previous s') s''
      → Read At n (previous s') s'' s₃ y
      → Read At n b s s₃ (through x y)
  through-Read {b = b} {s' = s'} {s'' = s''} {s₃ = s₃} r g q = record {
    state = Good-from (Good-Upto r.state) q.state;
    first = r.first;
    after = r.after;
    upto = Upto-trans _ _ _ r.upto (past later);
    is =
        rw (r.is, q.is)
          (through-join _ _ (omega (arith, start-Upto r.upto, start-Upto (Good-Upto g), q.after))
            later.1);
  }
    where
      later : Past (previous s') (previous s₃)
      later =
          Past-trans (previous s') q.first (previous s₃)
            (Upto-Past (previous s') (previous s'') q.first (Good-Upto g) q.after) q.upto

  -- What begins with a token that was read, up to a token or a part that was read.
  pub Took-Closed :
      {kinds : List TokenKind} {n : ℕ} {b : Span} {s s' : Stream F} {t : Token F}
      → Took At kinds n b s t s'
      → Closed At n b s' (through b t.span)
  Took-Closed {b = b} {s' = s'} k = record {
    state = k.state;
    is = rw k.span_is (through-Upto b (previous s') (Good-Upto k.state));
  }

  pub Read-Closed :
      {n : ℕ} {b : Span} {s s' : Stream F} {x : Span}
      → Good At n b s
      → Read At n b s s' x
      → Closed At n b s' (through b x)
  Read-Closed {b = b} {s = s} {s' = s'} g r = record {
    state = r.state;
    is = rw r.is (through-join _ _ start_le end_lt);
  }
    where
      start_le : b.start ≤ r.first.start
      start_le = omega (arith, start-Upto (Good-Upto g), r.after)

      end_lt : b.end < (previous s').end
      end_lt =
          (Past-trans b r.first (previous s')
            (Upto-Past b (previous s) r.first (Good-Upto g) r.after) r.upto).1

  -- What begins with a token was read from the state before it.
  pub Closed-Read :
      {kinds : List TokenKind} {n : ℕ} {b : Span} {s s' s'' : Stream F} {t : Token F} {x : Span}
      → Took At kinds n b s t s'
      → Closed At n t.span s'' x
      → Read At n b s s'' x
  Closed-Read {t = t} k c = record {
    state = Good-from (past k.bound) c.state;
    first = t.span;
    after = k.after;
    upto = Good-Upto c.state;
    is = c.is;
  }

  pub column_reference-Ensures :
      (message : String) {n : ℕ} {b : Span} {s : Stream F}
      → Good At n b s
      → Ensures At (λ c s'. Read At n b s s' c.span) (column_reference message s)
  unfolding column_reference
  column_reference-Ensures message g = Ensures-bind (identifier-Ensures message g) λ i s₁ r.
      on_match-Ensures (TokenKind.dot ∷ []) _ _ refl (Good-here r.state)
        (λ t s₂ k.
          Ensures-bind (identifier-Ensures _ k.state) λ j s₃ q. holds (through-Read r k.state q))
        (λ g'. holds r)

-- ===== src/Parser/Reading/Rules.antt =====
-- engine/parser/parser.py: the primitive methods, as rules for `Ensures`.
use mathlib.Core.Path.{subst}
use quipudb.Prelude.{
  ℕ, suc, ◌≤◌, ◌≡◌, refl, ap, ◌∙◌, String, Bool, true, false, List, [], ◌∷◌, length, any, arith,
  Bool-cases, inl, inr, if◌then◌else◌,
}
use quipudb.Parser.Span.{Span}
use quipudb.Parser.Errors.{Message}
use quipudb.Parser.Tokens.{TokenKind, Token}
use quipudb.Parser.Kinds.{kind_eq, kind_eq→eq, is_end, eof-kind_eq, any-eof-kind_eq}
use quipudb.Parser.Stream.{
  Letters, Env, Stream, at, Outcome, bind, Parser, peek_token, advance_token, is_one_of, check_kind,
  match_kinds, on_match, with_fuel, fail_with, fail_here, raise_unsupported, is_unsupported, expect,
}
use quipudb.Parser.Reading.Good.{
  Past, Upto, same, past, Upto-trans, Upto-Past, HasValue, previous, parse, unsupported, Follow,
  last, next, Good, good, Ensures, holds, rejected, overflowed, Took,
}

pub value_of :
    {F : Type 0} (letters : Letters) (kind : TokenKind) (t : Token F)
    → is_one_of (kind ∷ []) t ≡ true
    → HasValue letters t.kind t
    → HasValue letters kind t
value_of letters kind t h v =
    subst (λ k. HasValue letters k t) (kind_eq→eq t.kind kind (ground arith)) v

module _ {F : Type 0} ⦃env : Env F⦄ {At : Span → Type 0} where
  pub Ensures-bind {ℓ κ} :
      {A : Type ℓ} {B : Type κ} {P : A → Stream F → Type 0} {Q : B → Stream F → Type 0}
      {r : Outcome F A} {f : A → Parser F B}
      → Ensures At P r
      → ((a : A) (s : Stream F) → P a s → Ensures At Q (f a s))
      → Ensures At Q (bind r f)
  Ensures-bind (holds {a} {s} p) k = k a s p
  Ensures-bind (rejected p q c) k = rejected p q c
  Ensures-bind (overflowed e) k = overflowed e

  pub Ensures-weaken {ℓ} :
      {A : Type ℓ} {P Q : A → Stream F → Type 0} {r : Outcome F A}
      → Ensures At P r
      → ((a : A) (s : Stream F) → P a s → Q a s)
      → Ensures At Q r
  Ensures-weaken (holds {a} {s} p) k = holds (k a s p)
  Ensures-weaken (rejected p q c) k = rejected p q c
  Ensures-weaken (overflowed e) k = overflowed e

  pub Ensures-if {ℓ} :
      {A : Type ℓ} {P : A → Stream F → Type 0} (b : Bool) (x y : Parser F A) {s : Stream F}
      → (b ≡ true → Ensures At P (x s))
      → (b ≡ false → Ensures At P (y s))
      → Ensures At P ((if b then x else y) s)
  Ensures-if true x y hx hy = hx refl
  Ensures-if false x y hx hy = hy refl

  -- An error that is raised at a token of the query.
  pub raise_unsupported-Ensures {ℓ} :
      {A : Type ℓ} {P : A → Stream F → Type 0} (t : Token F) (s : Stream F)
      → At t.span
      → Ensures At P (raise_unsupported {A = A} t s)
  unfolding raise_unsupported
  raise_unsupported-Ensures t s a = rejected a refl unsupported

  pub refused-Ensures {ℓ} :
      {A : Type ℓ} {P : A → Stream F → Type 0} (message : Message) (t : Token F) (s : Stream F)
      → At t.span
      → Ensures At P
          ((if is_unsupported t then raise_unsupported {A = A} t else fail_with t message) s)
  refused-Ensures message t s a =
      Ensures-if (is_unsupported t) _ _ (λ _. raise_unsupported-Ensures t s a)
        (λ _. rejected a refl parse)

  pub Good-le : {n m : ℕ} {b : Span} {s : Stream F} → Good At n b s → n ≤ m → Good At m b s
  Good-le (good u f l c) h = good u f (omega arith) c

  -- A bound that comes before the one that is known.
  pub Good-from : {n : ℕ} {b c : Span} {s : Stream F} → Upto b c → Good At n c s → Good At n b s
  Good-from h (good u f l c) = good (Upto-trans _ _ _ h u) f l c

  pub Good-Upto : {n : ℕ} {b : Span} {s : Stream F} → Good At n b s → Upto b (previous s)
  Good-Upto (good u f l c) = u

  pub Good-here : {n : ℕ} {b : Span} {s : Stream F} → Good At n b s → Good At n (previous s) s
  Good-here (good u f l c) = good same f l c

  pub fail_here-Ensures {ℓ} :
      {A : Type ℓ} {P : A → Stream F → Type 0} (message : String) {n : ℕ} {b : Span} {s : Stream F}
      → Good At n b s
      → Ensures At P (fail_here {A = A} message s)
  unfolding fail_here peek_token
  fail_here-Ensures message (good u (last k a) l c) = rejected a refl parse
  fail_here-Ensures message (good u (next k v p a f) l c) = rejected a refl parse

  pub took :
      (kinds : List TokenKind) {n : ℕ} {b : Span} (p t : Token F) (ts : List (Token F))
      → Upto b p.span
      → Past p.span t.span
      → HasValue env.letters t.kind t
      → At t.span
      → Follow At t.span ts
      → suc (length ts) ≤ n
      → is_one_of kinds t ≡ true
      → Took At kinds n b (at p (t ∷ ts)) t (at t ts)
  took kinds p t ts u h v a f l m = record {
    state = good (Upto-trans _ p.span t.span u (past h)) f (omega arith) a;
    fewer = λ k q. good (Upto-trans _ p.span t.span u (past h)) f (omega arith) a;
    closed = good same f (omega arith) a;
    after = h;
    bound = Upto-Past _ p.span t.span u h;
    span_is = refl;
    is_head = refl;
    matched = m;
    value = v;
    place = a;
  }

  pub expect-Ensures :
      (kind : TokenKind) (message : Message) {n : ℕ} {b : Span} {s : Stream F}
      → is_end kind ≡ false
      → Good At n b s
      → Ensures At (Took At (kind ∷ []) n b s) (expect kind message s)
  unfolding expect check_kind peek_token advance_token
  expect-Ensures kind message ne (good {p = p} u (last {t = t} k a) l c) =
      rw (ap (λ e. kind_eq e kind) k ∙ eof-kind_eq kind ne)
        (refused-Ensures message t (at p (t ∷ [])) a)
  expect-Ensures kind message ne (good {p = p} u (next {t = t} {ts = ts} k v h a f) l c) =
      elim (Bool-cases (kind_eq t.kind kind)) [
        | inl e ↦ rw (e, k) (holds (took (kind ∷ []) p t ts u h v a f l (rw e refl)))
        | inr e ↦ rw e (refused-Ensures message t (at p (t ∷ ts)) a)
      ]

  -- The token before has no part in what `_match` does; `q` is one for which the state is good.
  pub on_match-From {ℓ} :
      {A : Type ℓ} {Q : A → Stream F → Type 0} (kinds : List TokenKind) (hit : Token F → Parser F A)
      (miss : Parser F A) {n : ℕ} {b : Span} (p q : Token F) (ts : List (Token F))
      → any is_end kinds ≡ false
      → Good At n b (at q ts)
      → ((t : Token F) (s' : Stream F) → Took At kinds n b (at q ts) t s' → Ensures At Q (hit t s'))
      → Ensures At Q (miss (at p ts))
      → Ensures At Q (on_match kinds hit miss (at p ts))
  unfolding on_match match_kinds peek_token advance_token
  on_match-From kinds hit miss p q ts ne (good u (last k a) l c) matched missed =
      rw (ap (λ e. any (λ k. kind_eq e k) kinds) k ∙ any-eof-kind_eq kinds ne) missed
  on_match-From kinds hit miss p q ts ne (good u (next {t = t} {ts = us} k v h a f) l c) matched
        missed =
      elim (Bool-cases (is_one_of kinds t)) [
        | inl e ↦ rw (e, k) (matched t (at t us) (took kinds q t us u h v a f l e))
        | inr e ↦ rw e missed
      ]

  pub on_match-Ensures {ℓ} :
      {A : Type ℓ} {Q : A → Stream F → Type 0} (kinds : List TokenKind) (hit : Token F → Parser F A)
      (miss : Parser F A) {n : ℕ} {b : Span} {s : Stream F}
      → any is_end kinds ≡ false
      → Good At n b s
      → ((t : Token F) (s' : Stream F) → Took At kinds n b s t s' → Ensures At Q (hit t s'))
      → (Good At n b s → Ensures At Q (miss s))
      → Ensures At Q (on_match kinds hit miss s)
  on_match-Ensures kinds hit miss ne (good {p = p} {ts = ts} u f l c) matched missed =
      on_match-From kinds hit miss p p ts ne (good u f l c) matched (missed (good u f l c))

  pub Good-zero : {b : Span} {s : Stream F} → ¬ (Good At 0 b s)
  Good-zero (good u (last k a) l c) = omega arith
  Good-zero (good u (next k v p a f) l c) = omega arith

  -- The fuel of a loop is what is left.
  pub with_fuel-Ensures {ℓ} :
      {A : Type ℓ} {Q : A → Stream F → Type 0} (p : ℕ → Parser F A) {n : ℕ} {b : Span}
      {s : Stream F}
      → Good At n b s
      → ((m : ℕ) → m ≤ n → Good At m b s → Ensures At Q (p m s))
      → Ensures At Q (with_fuel p s)
  with_fuel-Ensures p (good {ts = ts} u f l c) h = h (length ts) l (good u f (omega arith) c)

  pub Good-At : {n : ℕ} {b : Span} {s : Stream F} → Good At n b s → At (previous s)
  Good-At (good u f l c) = c

  pub Good-length :
      {n : ℕ} {b : Span} {p : Token F} {ts : List (Token F)}
      → Good At n b (at p ts)
      → Good At (length ts) b (at p ts)
  Good-length (good u f l c) = good u f (omega arith) c

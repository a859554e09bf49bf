-- ===== src/Parser/Semantic/Checks.antt =====
-- The answers of engine/parser/semantic.py: what it accepts, or a SQLSemanticError.
use mathlib.Core.Bool.{true≢false}
use quipudb.Prelude.{sym, not, ◌&&◌, ◌||◌, ◌≡◌, refl, Bool, true, false, Option, if◌then◌else◌}
use quipudb.Parser.Chars.{Text}
use quipudb.Parser.Errors.{SqlError, semantic_error}
use quipudb.Parser.Semantic.{Checked, accepted, rejected, raised, ◌>>=◌, ◌>>◌}

-- Conditions that were tested.
pub truth : (b : Bool) → not b ≡ false → b ≡ true
truth true h = refl
truth false h = absurd (true≢false h)

pub and_true : (a b : Bool) → (a && b) ≡ true → (a ≡ true) × (b ≡ true)
and_true true b h = (refl, h)
and_true false b h = absurd (true≢false (sym h))

pub both : (a b : Bool) → (not a || not b) ≡ false → (a ≡ true) × (b ≡ true)
both true true h = (refl, refl)
both true false h = absurd (true≢false h)
both false b h = absurd (true≢false h)

-- A value with the property, or a semantic error over the source; no other exception.
pub data Answers {ℓ} {A : Type ℓ} (source : Option Text) (P : A → Type 0) : Checked A → Type ℓ where
  accepts : (a : A) → P a → Answers source P (accepted a)
  rejects :
      (e : SqlError) → e.class ≡ semantic_error → e.source ≡ source → Answers source P (rejected e)

-- The same, or another exception where the condition holds.
pub data AnswersUnless {ℓ} {A : Type ℓ} (source : Option Text) (P : A → Type 0) (Q : Type 0)
    : Checked A → Type ℓ where
  answers : (r : Checked A) → Answers source P r → AnswersUnless source P Q r
  raises : Q → AnswersUnless source P Q raised

module _ {ℓ} {A : Type ℓ} {source : Option Text} {P : A → Type 0} where
  pub answer : (a : A) → Answers source P (accepted a) → P a
  answer a (accepts _ p) = p

  pub Answers-weaken :
      {Q : A → Type 0} (r : Checked A)
      → ((a : A) → P a → Q a)
      → Answers source P r
      → Answers source Q r
  Answers-weaken _ f (accepts a p) = accepts a (f a p)
  Answers-weaken _ f (rejects e p q) = rejects e p q

  pub Answers-if :
      (b : Bool) {x y : Checked A}
      → (b ≡ true → Answers source P x)
      → (b ≡ false → Answers source P y)
      → Answers source P (if b then x else y)
  Answers-if true f g = f refl
  Answers-if false f g = g refl

module _ {ℓ κ} {A : Type ℓ} {B : Type κ} {source : Option Text} {P : A → Type 0}
    {Q : B → Type 0} where
  pub Answers-bind :
      (r : Checked A) (k : A → Checked B)
      → Answers source P r
      → ((a : A) → P a → Answers source Q (k a))
      → Answers source Q (r >>= k)
  Answers-bind _ k (accepts a p) f = f a p
  Answers-bind _ k (rejects e p q) f = rejects e p q

  pub Answers-then :
      (r : Checked A) (q : Checked B)
      → Answers source P r
      → ((a : A) → P a → Answers source Q q)
      → Answers source Q (r >> q)
  Answers-then _ k (accepts a p) f = f a p
  Answers-then _ k (rejects e p q) f = rejects e p q

module _ {ℓ κ} {A : Type ℓ} {B : Type κ} {source : Option Text} {P : A → Type 0} {Q : B → Type 0}
    {X : Type 0} where
  pub AnswersUnless-bind :
      (r : Checked A) (k : A → Checked B)
      → Answers source P r
      → ((a : A) → P a → AnswersUnless source Q X (k a))
      → AnswersUnless source Q X (r >>= k)
  AnswersUnless-bind _ k (accepts a p) f = f a p
  AnswersUnless-bind _ k (rejects e p q) f = answers _ (rejects e p q)

  pub AnswersUnless-then :
      (r : Checked A) (q : Checked B)
      → Answers source P r
      → ((a : A) → P a → AnswersUnless source Q X q)
      → AnswersUnless source Q X (r >> q)
  AnswersUnless-then _ k (accepts a p) f = f a p
  AnswersUnless-then _ k (rejects e p q) f = answers _ (rejects e p q)

module _ {ℓ} {A : Type ℓ} {source : Option Text} {P : A → Type 0} {X : Type 0} where
  pub answer_unless : (a : A) → AnswersUnless source P X (accepted a) → P a
  answer_unless a (answers _ h) = answer a h

  pub AnswersUnless-if :
      (b : Bool) {x y : Checked A}
      → (b ≡ true → AnswersUnless source P X x)
      → (b ≡ false → AnswersUnless source P X y)
      → AnswersUnless source P X (if b then x else y)
  AnswersUnless-if true f g = f refl
  AnswersUnless-if false f g = g refl

  pub AnswersUnless-weaken :
      {Q : A → Type 0} (r : Checked A)
      → ((a : A) → P a → Q a)
      → AnswersUnless source P X r
      → AnswersUnless source Q X r
  AnswersUnless-weaken _ f (answers r h) = answers r (Answers-weaken r f h)
  AnswersUnless-weaken _ f (raises x) = raises x

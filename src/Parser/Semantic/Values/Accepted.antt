-- ===== src/Parser/Semantic/Values/Accepted.antt =====
-- engine/parser/semantic.py: what `bind_insert` accepts, the columns do store.
use Prim.Native.String.{len}
use mathlib.Core.Path.{subst}
use quipudb.Prelude.{
  ℕ, zero, suc, ◌≡◌, refl, sym, Bool, true, false, not, ◌||◌, Option, none, some, List, [], ◌∷◌,
  any, length, ltb, ◌==◌, ◌<◌, ◌≤◌, ◌+◌, if◌then◌else◌, arith, Option-cases, inl, inr,
}
use quipudb.Prelude.Int.{ℤ, pos, negsuc}
use quipudb.Parser.Chars.{Text, text_eq, codes}
use quipudb.Parser.Chars.Encoded.{encode}
use quipudb.Parser.Span.{Span}
use quipudb.Parser.Errors.{of_column, component_not_finite}
use quipudb.Parser.Ast.{SqlTypeName, Literal, InsertStatement}
use quipudb.Parser.BoundAst.{BoundColumn, BoundSchema, BoundValue}
use quipudb.Parser.Semantic.{Checked, fail, pure}
use quipudb.Parser.Semantic.Checks.{
  truth, both, Answers, accepts, rejects, Answers-if, Answers-bind,
}
use quipudb.Parser.Semantic.Values.{
  Floats, is_int32, fail_type, bind_int, fail_there, finite_double, bind_double, bind_varchar,
  bind_point, first_infinite, bind_vector, bind_bool, bind_date, bind_value, bind_values,
  bind_insert,
}
use quipudb.Parser.Semantic.Values.Stored.{
  Inserted, InInt32, IsFloatOf, converted, itself, an_int, a_double, a_varchar, a_bool, a_date,
  a_point, a_vector, none_left, one_more, AllFinite, Holds, Stores, AllStored, IsLiteral,
  AllLiterals, HasLength, AllSized,
}

is_int32-InInt32 : (n : ℤ) → is_int32 n ≡ true → InInt32 n
unfolding is_int32
is_int32-InInt32 (pos n) h = ground arith
is_int32-InInt32 (negsuc n) h = ground arith

module _ {F : Type 0} (f : Floats F) (source : Option Text) where
  wrong :
      {P : BoundValue F → Type 0} (l : Literal F) (c : BoundColumn)
      → Answers source P (fail_type f source l c)
  unfolding fail_type
  wrong l c = rejects _ refl refl

  bind_int-Answers :
      (l : Literal F) (c : BoundColumn) (n : Option ℕ)
      → Answers source (Holds f SqlTypeName.int n l) (bind_int f source l c)
  unfolding bind_int
  bind_int-Answers (Literal.integer a s) c n =
      Answers-if (is_int32 a) (λ h. accepts _ (an_int n a s (is_int32-InInt32 a h)))
        (λ h. rejects _ refl refl)
  bind_int-Answers l c n = wrong l c

  finite_double-Answers :
      (l : Literal F) (x : F) (s : Span) (c : BoundColumn) (n : Option ℕ)
      → IsFloatOf f l x
      → Answers source (Holds f SqlTypeName.double n l) (finite_double f source x s c)
  unfolding finite_double
  finite_double-Answers l x s c n p =
      Answers-if (f.is_finite x) (λ h. accepts _ (a_double n l x p h)) (λ h. rejects _ refl refl)

  bind_double-Answers :
      (l : Literal F) (c : BoundColumn) (n : Option ℕ)
      → Answers source (Holds f SqlTypeName.double n l) (bind_double f source l c)
  unfolding bind_double
  bind_double-Answers (Literal.integer a s) c n = of_integer (f.of_integer a) refl
    where
      of_integer :
          (o : Option F)
          → f.of_integer a ≡ o
          → Answers source (Holds f SqlTypeName.double n (Literal.integer a s)) (elim o [
            | none ↦ fail source (of_column c.name "el valor desborda DOUBLE") s
            | some x ↦ finite_double f source x s c
          ])
      of_integer none p = rejects _ refl refl
      of_integer (some x) p =
          finite_double-Answers (Literal.integer a s) x s c n (converted a s x p)
  bind_double-Answers (Literal.double x s) c n =
      finite_double-Answers (Literal.double x s) x s c n (itself x s)
  bind_double-Answers l c n = wrong l c

  bind_varchar-Answers :
      (l : Literal F) (c : BoundColumn) (k : ℕ)
      → c.length ≡ some (suc k)
      → Answers source (Holds f SqlTypeName.varchar (some (suc k)) l) (bind_varchar f source l c)
  unfolding bind_varchar
  bind_varchar-Answers (Literal.string w s) c k e =
      Answers-if (any (λ x. x == 0) w) (λ h. rejects _ refl refl)
        (λ h. elim (Option-cases (encode w)) [
          | inl p ↦ rw p (rejects _ refl refl)
          | inr (t, p) ↦
              rw (p, e)
                (Answers-if (ltb (suc k) (len t)) (λ g. rejects _ refl refl)
                  (λ g. accepts _ (a_varchar (suc k) w s t p h (ground arith))))
        ])
  bind_varchar-Answers l c k e = wrong l c

  bind_point-Answers :
      (l : Literal F) (c : BoundColumn) (n : Option ℕ)
      → Answers source (Holds f SqlTypeName.point n l) (bind_point f source l c)
  unfolding bind_point
  bind_point-Answers (Literal.point p) c n =
      Answers-if (not (f.is_finite p.latitude) || not (f.is_within (negsuc 89) (pos 90) p.latitude))
        (λ h. rejects _ refl refl)
        (λ a.
          Answers-if
            (not (f.is_finite p.longitude) || not (f.is_within (negsuc 179) (pos 180) p.longitude))
            (λ h. rejects _ refl refl) (λ b. accepts _ (a_point n p (both _ _ a) (both _ _ b))))
  bind_point-Answers l c n = wrong l c

  bind_bool-Answers :
      (l : Literal F) (c : BoundColumn) (n : Option ℕ)
      → Answers source (Holds f SqlTypeName.bool n l) (bind_bool f source l c)
  unfolding bind_bool
  bind_bool-Answers (Literal.boolean b s) c n = accepts _ (a_bool n b s)
  bind_bool-Answers l c n = wrong l c

  bind_date-Answers :
      (l : Literal F) (c : BoundColumn) (n : Option ℕ)
      → Answers source (Holds f SqlTypeName.date n l) (bind_date f source l c)
  unfolding bind_date
  bind_date-Answers (Literal.date d s) c n = accepts _ (a_date n d s)
  bind_date-Answers l c n = wrong l c

  -- The first component that is not finite stands in the list; without one, all are finite.
  abbrev FirstInfinite : ℕ → List F → Option ℕ → Type 0
  FirstInfinite i xs none = AllFinite f xs
  FirstInfinite i xs (some j) = (i ≤ j) × (j < i + length xs)

  first_infinite_lem : (i : ℕ) (xs : List F) → FirstInfinite i xs (first_infinite f source i xs)
  unfolding first_infinite
  first_infinite_lem i [] = tt
  first_infinite_lem i (x ∷ xs) =
      next (f.is_finite x) (first_infinite f source (i + 1) xs) refl (first_infinite_lem (i + 1) xs)
    where
      next :
          (b : Bool) (o : Option ℕ)
          → f.is_finite x ≡ b
          → FirstInfinite (i + 1) xs o
          → FirstInfinite i (x ∷ xs) (if not b then some i else o)
      next false o e h = (omega arith, omega arith)
      next true none e h = (e, h)
      next true (some j) e h = (omega (arith, h.0), omega (arith, h.1))

  at_span :
      {P : BoundValue F → Type 0} (spans : List Span) (i : ℕ) (k : Span → Checked (BoundValue F))
      → i < length spans
      → ((s : Span) → Answers source P (k s))
      → Answers source P (fail_there f source spans i k)
  at_span [] i k h p = absurd (omega (arith, h))
  at_span (s ∷ spans) zero k h p = p s
  at_span (s ∷ spans) (suc i) k h p = at_span spans i k (omega (arith, h)) p

  bind_vector-Answers :
      (l : Literal F) (c : BoundColumn) (k : ℕ)
      → IsLiteral l
      → c.length ≡ some (suc k)
      → Answers source (Holds f SqlTypeName.vector (some (suc k)) l) (bind_vector f source l c)
  unfolding bind_vector
  bind_vector-Answers (Literal.vector v) c k q e = rw e (
      Answers-if (not (length v.components == suc k))
        (λ h.
          Answers-if (ltb (suc k) (length v.components))
            (λ g.
              at_span v.component_spans (suc k) _ (ground (arith, q)) (λ s. rejects _ refl refl))
            (λ g. rejects _ refl refl))
        (λ h.
          finish (first_infinite f source 0 v.components) (first_infinite_lem 0 v.components)
            (ground arith)))
    where
      finish :
          (o : Option ℕ)
          → FirstInfinite 0 v.components o
          → length v.components ≡ suc k
          → Answers source (Holds f SqlTypeName.vector (some (suc k)) (Literal.vector v)) (elim o [
            | none ↦ pure (BoundValue.vector v.components)
            | some i ↦
                fail_there f source v.component_spans i
                  (fail source (component_not_finite c.name (i + 1)))
          ])
      finish none h p = accepts _ (
          subst
            (λ n.
              Holds f SqlTypeName.vector (some n) (Literal.vector v)
                (BoundValue.vector v.components))
            p (a_vector v h))
      finish (some i) h p =
          at_span v.component_spans i _ (omega (arith, q, h.1)) (λ s. rejects _ refl refl)
  bind_vector-Answers l c k q e = wrong l c

  bind_value-Answers :
      (l : Literal F) (c : BoundColumn)
      → IsLiteral l
      → HasLength c.data_type c.length
      → Answers source (Stores f c l) (bind_value f source l c)
  unfolding bind_value
  bind_value-Answers l c q h = by_type c.data_type h
    where
      by_type :
          (t : SqlTypeName)
          → HasLength t c.length
          → Answers source (Holds f t c.length l) (elim t [
            | SqlTypeName.int ↦ bind_int f source l c
            | SqlTypeName.double ↦ bind_double f source l c
            | SqlTypeName.varchar ↦ bind_varchar f source l c
            | SqlTypeName.bool ↦ bind_bool f source l c
            | SqlTypeName.date ↦ bind_date f source l c
            | SqlTypeName.point ↦ bind_point f source l c
            | SqlTypeName.vector ↦ bind_vector f source l c
          ])
      by_type SqlTypeName.int h = bind_int-Answers l c c.length
      by_type SqlTypeName.double h = bind_double-Answers l c c.length
      by_type SqlTypeName.bool h = bind_bool-Answers l c c.length
      by_type SqlTypeName.date h = bind_date-Answers l c c.length
      by_type SqlTypeName.point h = bind_point-Answers l c c.length
      by_type SqlTypeName.varchar (k, e) =
          subst (λ n. Answers source (Holds f SqlTypeName.varchar n l) (bind_varchar f source l c))
            (sym e) (bind_varchar-Answers l c k e)
      by_type SqlTypeName.vector (k, e) =
          subst (λ n. Answers source (Holds f SqlTypeName.vector n l) (bind_vector f source l c))
            (sym e) (bind_vector-Answers l c k q e)

  bind_values-Answers :
      (ls : List (Literal F)) (cs : List BoundColumn)
      → length ls ≡ length cs
      → AllLiterals ls
      → AllSized cs
      → Answers source (AllStored f cs ls) (bind_values f source ls cs)
  unfolding bind_values
  bind_values-Answers [] [] e q h = accepts _ none_left
  bind_values-Answers [] (c ∷ cs) e q h = absurd (omega (arith, e))
  bind_values-Answers (l ∷ ls) [] e q h = absurd (omega (arith, e))
  bind_values-Answers (l ∷ ls) (c ∷ cs) e q h =
      Answers-bind (bind_value f source l c) _ (bind_value-Answers l c q.0 h.0) (λ v p.
        Answers-bind (bind_values f source ls cs) _
          (bind_values-Answers ls cs (omega (arith, e)) q.1 h.1)
          (λ vs ps. accepts _ (one_more c l v cs ls vs p ps)))

  pub bind_insert-Answers :
      (s : InsertStatement F) (schema : BoundSchema)
      → AllLiterals s.values
      → AllSized schema.columns
      → Answers source (Inserted f s schema) (bind_insert f source s schema)
  unfolding bind_insert
  bind_insert-Answers s schema q h =
      Answers-if (not (text_eq s.table.name (codes schema.table_name))) (λ _. rejects _ refl refl)
        (λ e.
          Answers-if (not (length s.values == length schema.columns)) (λ _. rejects _ refl refl)
            (λ n.
              Answers-bind (bind_values f source s.values schema.columns) _
                (bind_values-Answers s.values schema.columns (ground arith) q h)
                (λ vs ps. accepts _ (refl, refl, truth _ e, ps))))

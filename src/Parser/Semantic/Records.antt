-- ===== src/Parser/Semantic/Records.antt =====
-- engine/parser/semantic.py: an INSERT into the table that a CREATE TABLE has declared.
use Prim.Native.String.{len}
use mathlib.Core.Path.{subst}
use mathlib.Core.Option.{some-injective, some-ne-none}
use quipudb.Prelude.{
  ℕ, ◌+◌, ◌*◌, ◌≡◌, refl, sym, Option, none, some, List, [], ◌∷◌, length, ◌≤◌, arith,
}
use quipudb.Parser.Chars.{Text}
use quipudb.Parser.Ast.{SqlTypeName, Literal, InsertStatement, CreateTableStatement}
use quipudb.Parser.BoundAst.{
  BoundColumn, byte_size, sizes, record_size, BoundCreateTable, BoundValue,
}
use quipudb.Parser.Semantic.{accepted}
use quipudb.Parser.Semantic.Checks.{Answers, AnswersUnless, answer_unless, Answers-weaken}
use quipudb.Parser.Semantic.Values.{Floats, bind_insert}
use quipudb.Parser.Semantic.Values.Stored.{
  Inserted, Holds, Stores, AllStored, a_double, an_int, a_varchar, a_bool, a_date, a_point,
  a_vector, none_left, one_more, AllLiterals,
}
use quipudb.Parser.Semantic.Values.Accepted.{bind_insert-Answers}
use quipudb.Parser.Semantic.Tables.{max_record_size, bind_create_table}
use quipudb.Parser.Semantic.Tables.Shape.{IsTable, IsUncountable}
use quipudb.Parser.Semantic.Tables.Bound.{AllBound-AllSized, bind_create_table-Answers}

-- The bytes that a value takes in a record, a text in UTF-8.
abbrev pub value_size : {F : Type 0} → BoundValue F → ℕ
value_size (BoundValue.integer n) = 4
value_size (BoundValue.double x) = 8
value_size (BoundValue.string t) = len t
value_size (BoundValue.boolean b) = 1
value_size (BoundValue.date d) = 4
value_size (BoundValue.point p) = 16
value_size (BoundValue.vector xs) = length xs * 4

abbrev pub values_size : {F : Type 0} → List (BoundValue F) → ℕ
values_size [] = 0
values_size (v ∷ vs) = value_size v + values_size vs

module _ {F : Type 0} (f : Floats F) where
  value-fits :
      (c : BoundColumn) (l : Literal F) (v : BoundValue F) (n : ℕ)
      → Stores f c l v
      → byte_size c ≡ some n
      → value_size v ≤ n
  unfolding byte_size
  value-fits c l v n h e = by_type c.data_type c.length l v h e
    where
      by_type :
          (t : SqlTypeName) (k : Option ℕ) (l : Literal F) (v : BoundValue F)
          → Holds f t k l v
          → byte_size (record c { data_type = t; length = k }) ≡ some n
          → value_size v ≤ n
      by_type _ _ _ _ (an_int k m s h) e = omega (arith, some-injective _ _ e)
      by_type _ _ _ _ (a_double k l x h g) e = omega (arith, some-injective _ _ e)
      by_type _ _ _ _ (a_varchar k w s t p q r) e = omega (arith, some-injective _ _ e, r)
      by_type _ _ _ _ (a_bool k b s) e = omega (arith, some-injective _ _ e)
      by_type _ _ _ _ (a_date k d s) e = omega (arith, some-injective _ _ e)
      by_type _ _ _ _ (a_point k p a b) e = omega (arith, some-injective _ _ e)
      by_type _ _ _ _ (a_vector v h) e = omega (arith, some-injective _ _ e)

  values-fit :
      (cs : List BoundColumn) (ls : List (Literal F)) (vs : List (BoundValue F)) (n : ℕ)
      → AllStored f cs ls vs
      → sizes cs ≡ some n
      → values_size vs ≤ n
  values-fit _ _ _ n none_left e = omega arith
  values-fit _ _ _ n (one_more c l v cs ls vs h hs) e =
      add (byte_size c) (sizes cs) (λ m. value-fits c l v m h) (λ m. values-fit cs ls vs m hs) e
    where
      add :
          (o q : Option ℕ)
          → ((m : ℕ) → o ≡ some m → value_size v ≤ m)
          → ((m : ℕ) → q ≡ some m → values_size vs ≤ m)
          → (elim o [ none ↦ none | some a ↦ elim q [ none ↦ none | some b ↦ some (a + b) ] ])
            ≡ some n
          → values_size (v ∷ vs) ≤ n
      add none q f g e = absurd (some-ne-none _ (sym e))
      add (some a) none f g e = absurd (some-ne-none _ (sym e))
      add (some a) (some b) f g e = omega (arith, some-injective _ _ e, f a refl, g b refl)

  pub insert_after_create :
      (source : Option Text) (created : CreateTableStatement) (b : BoundCreateTable)
      (s : InsertStatement F)
      → bind_create_table source created ≡ accepted b
      → AllLiterals s.values
      → Answers source
          (λ i. Inserted f s b.schema i × (values_size i.values ≤ max_record_size created.storage))
          (bind_insert f source s b.schema)
  unfolding record_size
  insert_after_create source created b s e q =
      let t = answer_unless b (
        subst (AnswersUnless source (IsTable created) (IsUncountable created)) e
          (bind_create_table-Answers source created)) in
      Answers-weaken (bind_insert f source s b.schema)
        (λ i h. (
          h,
          omega (arith, t.fits, values-fit b.schema.columns s.values i.values t.size h.3 t.is_size),
        ))
        (bind_insert-Answers f source s b.schema q
          (AllBound-AllSized [] created.columns b.schema.columns t.bound))

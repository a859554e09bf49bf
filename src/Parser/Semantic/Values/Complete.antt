-- ===== src/Parser/Semantic/Values/Complete.antt =====
-- engine/parser/semantic.py: what the columns can store, `bind_insert` accepts.
use quipudb.Prelude.{
  ℕ, suc, ◌≡◌, refl, ap, true, Option, none, List, [], ◌∷◌, length, ==_self, ◌+◌, arith,
}
use quipudb.Prelude.Int.{ℤ, pos, negsuc}
use quipudb.Parser.Chars.{Text, text_eq, codes}
use quipudb.Parser.Ast.{SqlTypeName, Literal, InsertStatement}
use quipudb.Parser.BoundAst.{BoundColumn, BoundSchema, BoundValue}
use quipudb.Parser.Semantic.{accepted}
use quipudb.Parser.Semantic.Values.{
  Floats, is_int32, bind_int, finite_double, bind_double, bind_varchar, bind_point, first_infinite,
  bind_vector, bind_bool, bind_date, bind_value, bind_values, bind_insert,
}
use quipudb.Parser.Semantic.Values.Stored.{
  InInt32, converted, itself, an_int, a_double, a_varchar, a_bool, a_date, a_point, a_vector,
  none_left, one_more, AllFinite, Holds, Stores, AllStored,
}

InInt32-is_int32 : (n : ℤ) → InInt32 n → is_int32 n ≡ true
unfolding is_int32
InInt32-is_int32 (pos n) h = ground arith
InInt32-is_int32 (negsuc n) h = ground arith

module _ {F : Type 0} (f : Floats F) (source : Option Text) where
  bind_int_complete :
      (l : Literal F) (c : BoundColumn) (v : BoundValue F) (k : Option ℕ)
      → Holds f SqlTypeName.int k l v
      → bind_int f source l c ≡ accepted v
  unfolding bind_int
  bind_int_complete _ c _ _ (an_int k n s h) = rw (InInt32-is_int32 n h)

  bind_double_complete :
      (l : Literal F) (c : BoundColumn) (v : BoundValue F) (k : Option ℕ)
      → Holds f SqlTypeName.double k l v
      → bind_double f source l c ≡ accepted v
  unfolding bind_double finite_double
  bind_double_complete _ c _ _ (a_double k _ x (converted n s _ p) h) =
      rw (p, h, bind_double, finite_double)
  bind_double_complete _ c _ _ (a_double k _ x (itself _ s) h) = rw (h, bind_double, finite_double)

  bind_varchar_complete :
      (l : Literal F) (c : BoundColumn) (v : BoundValue F)
      → Holds f SqlTypeName.varchar c.length l v
      → bind_varchar f source l c ≡ accepted v
  unfolding bind_varchar
  bind_varchar_complete l c v h = stored c.length l v h
    where
      stored :
          (k : Option ℕ) (l : Literal F) (v : BoundValue F)
          → Holds f SqlTypeName.varchar k l v
          → bind_varchar f source l (record c { length = k }) ≡ accepted v
      stored _ _ _ (a_varchar k w s t p q r) = rw (q, p) (ground arith)

  bind_point_complete :
      (l : Literal F) (c : BoundColumn) (v : BoundValue F) (k : Option ℕ)
      → Holds f SqlTypeName.point k l v
      → bind_point f source l c ≡ accepted v
  unfolding bind_point
  bind_point_complete _ c _ _ (a_point k p a b) = rw (a.0, a.1, b.0, b.1)

  first_infinite-AllFinite :
      (i : ℕ) (xs : List F) → AllFinite f xs → first_infinite f source i xs ≡ none
  unfolding first_infinite
  first_infinite-AllFinite i [] h = refl
  first_infinite-AllFinite i (x ∷ xs) h = rw (h.0, first_infinite-AllFinite (i + 1) xs h.1)

  bind_vector_complete :
      (l : Literal F) (c : BoundColumn) (v : BoundValue F)
      → Holds f SqlTypeName.vector c.length l v
      → bind_vector f source l c ≡ accepted v
  unfolding bind_vector
  bind_vector_complete l c v h = stored c.length l v h
    where
      stored :
          (k : Option ℕ) (l : Literal F) (v : BoundValue F)
          → Holds f SqlTypeName.vector k l v
          → bind_vector f source l (record c { length = k }) ≡ accepted v
      stored _ _ _ (a_vector v h) =
          rw (==_self (length v.components), first_infinite-AllFinite 0 v.components h)

  bind_value_complete :
      (l : Literal F) (c : BoundColumn) (v : BoundValue F)
      → Stores f c l v
      → bind_value f source l c ≡ accepted v
  unfolding bind_value bind_bool bind_date
  bind_value_complete l c v h = by_type c.data_type h
    where
      by_type :
          (t : SqlTypeName)
          → Holds f t c.length l v
          → elim t [
            | SqlTypeName.int ↦ bind_int f source l c
            | SqlTypeName.double ↦ bind_double f source l c
            | SqlTypeName.varchar ↦ bind_varchar f source l c
            | SqlTypeName.bool ↦ bind_bool f source l c
            | SqlTypeName.date ↦ bind_date f source l c
            | SqlTypeName.point ↦ bind_point f source l c
            | SqlTypeName.vector ↦ bind_vector f source l c
          ]
            ≡ accepted v
      by_type SqlTypeName.int h = bind_int_complete l c v c.length h
      by_type SqlTypeName.double h = bind_double_complete l c v c.length h
      by_type SqlTypeName.bool h = a_boolean c.length l v h
        where
          a_boolean :
              (k : Option ℕ) (l : Literal F) (v : BoundValue F)
              → Holds f SqlTypeName.bool k l v
              → bind_bool f source l c ≡ accepted v
          a_boolean _ _ _ (a_bool k b s) = refl
      by_type SqlTypeName.date h = a_day c.length l v h
        where
          a_day :
              (k : Option ℕ) (l : Literal F) (v : BoundValue F)
              → Holds f SqlTypeName.date k l v
              → bind_date f source l c ≡ accepted v
          a_day _ _ _ (a_date k d s) = refl
      by_type SqlTypeName.point h = bind_point_complete l c v c.length h
      by_type SqlTypeName.varchar h = bind_varchar_complete l c v h
      by_type SqlTypeName.vector h = bind_vector_complete l c v h

  bind_values_complete :
      (cs : List BoundColumn) (ls : List (Literal F)) (vs : List (BoundValue F))
      → AllStored f cs ls vs
      → (bind_values f source ls cs ≡ accepted vs) × (length ls ≡ length cs)
  unfolding bind_values
  bind_values_complete _ _ _ none_left = (refl, refl)
  bind_values_complete _ _ _ (one_more c l v cs ls vs h hs) =
      let rest = bind_values_complete cs ls vs hs in
      (rw (bind_value_complete l c v h, rest.0), ap suc rest.1)

  pub bind_insert_complete :
      (s : InsertStatement F) (schema : BoundSchema) (vs : List (BoundValue F))
      → text_eq s.table.name (codes schema.table_name) ≡ true
      → AllStored f schema.columns s.values vs
      → bind_insert f source s schema
        ≡ accepted (record { table_name = s.table.name; values = vs; span = s.span })
  unfolding bind_insert
  bind_insert_complete s schema vs e h =
      let rest = bind_values_complete schema.columns s.values vs h in
      rw (e, rest.1, ==_self (length schema.columns), rest.0)

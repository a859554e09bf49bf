-- ===== src/Parser/Semantic/Scopes/Meant.antt =====
-- engine/parser/semantic.py: the places that `_lookup` finds are those of the columns that the
-- reference names.
use quipudb.Prelude.{
  ℕ, zero, suc, ◌+◌, ◌≡◌, refl, sym, ap, ◌∙◌, ◌⊎◌, inl, inr, String, Bool, true, false, ◌&&◌,
  Option, none, some, List, [], ◌∷◌, ◌++◌, length, get_elem?, if◌then◌else◌, arith,
}
use mathlib.Core.Path.{subst}
use mathlib.Core.Option.{some-injective}
use quipudb.Parser.Chars.{Text, text_eq, codes}
use quipudb.Parser.Ast.{Identifier, ColumnReference}
use quipudb.Parser.BoundAst.{BoundColumn, BoundSource, schema_of}
use quipudb.Parser.Semantic.Scopes.{Visible, columns_from, visible_columns, is_meant, positions}
use quipudb.Parser.Semantic.Scopes.Columns.{Column, of_table, of_left, of_right, OfTable, Names}
use quipudb.Parser.Semantic.Scopes.Places.{All, All-weaken, Stands, visible_columns-Stands}

text_eq→eq : (w v : Text) → text_eq w v ≡ true → w ≡ v
unfolding text_eq
text_eq→eq [] [] h = refl
text_eq→eq [] (y ∷ v) h = absurd (cc)
text_eq→eq (x ∷ w) [] h = absurd (cc)
text_eq→eq (x ∷ w) (y ∷ v) h = ground (arith, text_eq→eq w v)

text_eq_self : (w : Text) → text_eq w w ≡ true
unfolding text_eq
text_eq_self [] = refl
text_eq_self (x ∷ w) = ground (arith, text_eq_self w)

eq→text_eq : (w v : Text) → w ≡ v → text_eq w v ≡ true
eq→text_eq w v e = subst (λ x. text_eq w x ≡ true) e (text_eq_self w)

and_parts : (a b : Bool) → (a && b) ≡ true → (a ≡ true) × (b ≡ true)
and_parts true b h = (refl, h)
and_parts false b h = absurd (cc)

-- `is_meant` is the test of `Names`.
meant-Names :
    (reference : ColumnReference) (v : Visible)
    → is_meant reference v ≡ true
    → Names reference v.table_name v.column_name
meant-Names reference v h = by_qualifier reference.qualifier h
  where
    by_qualifier :
        (q : Option Identifier)
        → (elim q [
          | none ↦ text_eq (codes v.column_name) reference.name.name
          | some q ↦
              text_eq (codes v.table_name) q.name
              && text_eq (codes v.column_name) reference.name.name
        ])
          ≡ true
        → (codes v.column_name ≡ reference.name.name) × OfTable q v.table_name
    by_qualifier none h = (text_eq→eq _ _ h, tt)
    by_qualifier (some q) h =
        let parts = and_parts (text_eq (codes v.table_name) q.name) _ h in
        (text_eq→eq _ _ parts.1, text_eq→eq _ _ parts.0)

Names-meant :
    (reference : ColumnReference) (v : Visible)
    → Names reference v.table_name v.column_name
    → is_meant reference v ≡ true
Names-meant reference v h = by_qualifier reference.qualifier h.1
  where
    by_qualifier :
        (q : Option Identifier)
        → OfTable q v.table_name
        → (elim q [
          | none ↦ text_eq (codes v.column_name) reference.name.name
          | some q ↦
              text_eq (codes v.table_name) q.name
              && text_eq (codes v.column_name) reference.name.name
        ])
          ≡ true
    by_qualifier none k = eq→text_eq _ _ h.0
    by_qualifier (some q) k = rw (eq→text_eq _ _ k) (eq→text_eq _ _ h.0)

abbrev pub Has : ℕ → List ℕ → Type 0
Has n [] = ⊥
Has n (i ∷ is) = (n ≡ i) ⊎ Has n is

-- A place of a column of the source that the reference names.
abbrev pub IsNamed : ColumnReference → BoundSource → ℕ → Type 0
IsNamed reference s i =
    (name : String) × (c : BoundColumn) × Column s i name c × Names reference name c.name

positions-All :
    (reference : ColumnReference) (Q : ℕ → Type 0) (vs : List Visible)
    → All (λ v. is_meant reference v ≡ true → Q v.index) vs
    → All Q (positions reference vs)
unfolding positions
positions-All reference Q [] h = tt
positions-All reference Q (v ∷ vs) h =
    choose (is_meant reference v) refl (positions reference vs) (positions-All reference Q vs h.1)
  where
    choose :
        (b : Bool)
        → is_meant reference v ≡ b
        → (is : List ℕ) → All Q is
        → All Q (if b then v.index ∷ is else is)
    choose true e is p = (h.0 e, p)
    choose false e is p = p

pub positions-IsNamed :
    (reference : ColumnReference) (s : BoundSource)
    → All (IsNamed reference s) (positions reference (visible_columns s 0))
positions-IsNamed reference s =
    positions-All reference (IsNamed reference s) (visible_columns s 0) (
      All-weaken (Stands s 0) _ (visible_columns s 0)
        (λ v (i, c, p, q, k) h.
          let e : i ≡ v.index = omega (arith, p) in
          let named = meant-Names reference v h in
          (
            v.table_name,
            c,
            subst (λ n. Column s n v.table_name c) e k,
            (ap codes q ∙ named.0, named.1),
          ))
        (visible_columns-Stands s 0))

Has-here :
    (reference : ColumnReference) (v : Visible) (vs : List Visible)
    → is_meant reference v ≡ true
    → Has v.index (positions reference (v ∷ vs))
unfolding positions
Has-here reference v vs h = rw h (inl refl)

Has-later :
    (reference : ColumnReference) (n : ℕ) (v : Visible) (vs : List Visible)
    → Has n (positions reference vs)
    → Has n (positions reference (v ∷ vs))
unfolding positions
Has-later reference n v vs h = choose (is_meant reference v)
  where
    choose :
        (b : Bool) → Has n (if b then v.index ∷ positions reference vs else positions reference vs)
    choose true = inr h
    choose false = h

Has-left :
    (reference : ColumnReference) (n : ℕ) (vs ws : List Visible)
    → Has n (positions reference vs)
    → Has n (positions reference (vs ++ ws))
unfolding positions
Has-left reference n [] ws h = absurd h
Has-left reference n (v ∷ vs) ws h =
    choose (is_meant reference v) (positions reference vs) (positions reference (vs ++ ws)) h
      (Has-left reference n vs ws)
  where
    choose :
        (b : Bool) (is js : List ℕ)
        → Has n (if b then v.index ∷ is else is)
        → (Has n is → Has n js)
        → Has n (if b then v.index ∷ js else js)
    choose true is js (inl e) f = inl e
    choose true is js (inr e) f = inr (f e)
    choose false is js e f = f e

Has-right :
    (reference : ColumnReference) (n : ℕ) (vs ws : List Visible)
    → Has n (positions reference ws)
    → Has n (positions reference (vs ++ ws))
Has-right reference n [] ws h = h
Has-right reference n (v ∷ vs) ws h =
    Has-later reference n v (vs ++ ws) (Has-right reference n vs ws h)

columns_from-Has :
    (reference : ColumnReference) (name : String) (offset i : ℕ) (cs : List BoundColumn)
    (c : BoundColumn)
    → get_elem? cs i ≡ some c
    → Names reference name c.name
    → Has (offset + i) (positions reference (columns_from name offset cs))
unfolding columns_from
columns_from-Has reference name offset i [] c e h = absurd (cc)
columns_from-Has reference name offset zero (d ∷ cs) c e h =
    let q : offset ≡ offset + 0 = omega arith in
    subst (λ n. Has n (positions reference (columns_from name offset (d ∷ cs)))) q
      (Has-here reference (record { table_name = name; column_name = d.name; index = offset }) _
        (Names-meant reference (record { table_name = name; column_name = d.name; index = offset })
          (subst (λ x. Names reference name x.name) (sym (some-injective d c e)) h)))
columns_from-Has reference name offset (suc i) (d ∷ cs) c e h =
    let q : offset + 1 + i ≡ offset + suc i = omega arith in
    subst (λ n. Has n (positions reference (columns_from name offset (d ∷ cs)))) q
      (Has-later reference _ _ _ (columns_from-Has reference name (offset + 1) i cs c e h))

-- Every column that the reference names is found.
pub positions-Has :
    (reference : ColumnReference) (s : BoundSource) (offset i : ℕ) (name : String) (c : BoundColumn)
    → Column s i name c
    → Names reference name c.name
    → Has (offset + i) (positions reference (visible_columns s offset))
unfolding visible_columns
positions-Has reference _ offset _ _ _ (of_table t i c e) h =
    columns_from-Has reference t.schema.table_name offset i t.schema.columns c e h
positions-Has reference _ offset _ _ _ (of_left left right l r schema span i name c k) h =
    Has-left reference (offset + i) (visible_columns left offset) _
      (positions-Has reference left offset i name c k h)
positions-Has reference _ offset _ _ _ (of_right left right l r schema span i name c k) h =
    let n = length (schema_of left).columns in
    let q : offset + n + i ≡ offset + (n + i) = omega arith in
    Has-right reference _ (visible_columns left offset) _ (
      subst (λ m. Has m (positions reference (visible_columns right (offset + n)))) q
        (positions-Has reference right (offset + n) i name c k h))

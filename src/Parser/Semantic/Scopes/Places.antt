-- ===== src/Parser/Semantic/Scopes/Places.antt =====
-- engine/parser/semantic.py: the places of the columns that a source has, joins included.
use Prim.Native.String as String'
use quipudb.Prelude.{
  ℕ, zero, suc, ◌+◌, ◌≡◌, refl, sym, ap, ◌∙◌, String, Bool, true, false, some, List, [], ◌∷◌, ◌++◌,
  length, get_elem?, if◌then◌else◌, arith,
}
use mathlib.Core.Path.{subst}
use mathlib.Core.Option.{some-injective}
use quipudb.Parser.BoundAst.{
  BoundColumn, BoundSource, table, join, schema_of, prefixed, prefixed_column, join_output_schema,
}
use quipudb.Prelude.Dict.{elem}
use quipudb.Parser.Semantic.Scopes.{Visible, columns_from, visible_columns}
use quipudb.Parser.Semantic.Scopes.Columns.{Column, of_table, of_left, of_right, IsSource}

abbrev pub Alike : BoundColumn → BoundColumn → Type 0
Alike b c = (b.data_type ≡ c.data_type) × (b.length ≡ c.length)

renamed-Alike :
    (b : Bool) (c : BoundColumn) (name : String)
    → Alike (if b then record c { name = name } else c) c
renamed-Alike true c name = (refl, refl)
renamed-Alike false c name = (refl, refl)

prefixed-there :
    (name : String) (taken : List String) (cs : List BoundColumn) (i : ℕ) (c : BoundColumn)
    → get_elem? cs i ≡ some c
    → (b : BoundColumn) × (get_elem? (prefixed name taken cs) i ≡ some b) × Alike b c
unfolding prefixed
prefixed-there name taken [] i c e = absurd (cc)
prefixed-there name taken (d ∷ cs) zero c e = (
  prefixed_column name taken d,
  refl,
  subst (λ x. Alike (prefixed_column name taken d) x) (some-injective d c e)
      (renamed-Alike (elem d.name taken) d (String'.◌++◌ name (String'.◌++◌ "." d.name))),
)
prefixed-there name taken (d ∷ cs) (suc i) c e = prefixed-there name taken cs i c e

length-prefixed :
    (name : String) (taken : List String) (cs : List BoundColumn)
    → length (prefixed name taken cs) ≡ length cs
unfolding prefixed
length-prefixed name taken [] = refl
length-prefixed name taken (c ∷ cs) = ap suc (length-prefixed name taken cs)

there-left :
    (cs ds : List BoundColumn) (i : ℕ) (c : BoundColumn)
    → get_elem? cs i ≡ some c
    → get_elem? (cs ++ ds) i ≡ some c
there-left [] ds i c e = absurd (cc)
there-left (d ∷ cs) ds zero c e = e
there-left (d ∷ cs) ds (suc i) c e = there-left cs ds i c e

there-right :
    (cs ds : List BoundColumn) (n i : ℕ) (c : BoundColumn)
    → n ≡ length cs
    → get_elem? ds i ≡ some c
    → get_elem? (cs ++ ds) (n + i) ≡ some c
there-right [] ds n i c p e =
    let q : i ≡ n + i = omega (arith, p) in subst (λ k. get_elem? ds k ≡ some c) q e
there-right (d ∷ cs) ds n i c p e =
    let q : suc (length cs + i) ≡ n + i = omega (arith, p) in
    subst (λ k. get_elem? (d ∷ cs ++ ds) k ≡ some c) q (there-right cs ds (length cs) i c refl e)

-- A column of the source is in its schema, maybe under another name.
pub Column-there :
    (s : BoundSource) (i : ℕ) (name : String) (c : BoundColumn)
    → IsSource s
    → Column s i name c
    → (b : BoundColumn) × (get_elem? (schema_of s).columns i ≡ some b) × Alike b c
unfolding schema_of join_output_schema
Column-there _ _ _ _ h (of_table t i c e) = (c, e, (refl, refl))
Column-there _ _ _ _ h (of_left left right l r schema span i name c k) =
    let a = Column-there left i name c h.0 k in
    let b = prefixed-there (schema_of left).table_name _ (schema_of left).columns i a.0 a.1 in
    (
      b.0,
      ap (λ x. get_elem? x.columns i) h.2 ∙ there-left _ _ i b.0 b.1,
      (b.2.0 ∙ a.2.0, b.2.1 ∙ a.2.1),
    )
Column-there _ _ _ _ h (of_right left right l r schema span i name c k) =
    let a = Column-there right i name c h.1 k in
    let b = prefixed-there (schema_of right).table_name _ (schema_of right).columns i a.0 a.1 in
    (
      b.0,
      ap (λ x. get_elem? x.columns (length (schema_of left).columns + i)) h.2
          ∙ there-right _ _ _ i b.0
              (sym (length-prefixed (schema_of left).table_name _ (schema_of left).columns)) b.1,
      (b.2.0 ∙ a.2.0, b.2.1 ∙ a.2.1),
    )

abbrev pub All {ℓ} : {A : Type 0} → (A → Type ℓ) → List A → Type ℓ
All P [] = Unit
All P (x ∷ xs) = P x × All P xs

pub All-weaken :
    {A : Type 0} (P Q : A → Type 0) (xs : List A) → ((x : A) → P x → Q x) → All P xs → All Q xs
All-weaken P Q [] f h = tt
All-weaken P Q (x ∷ xs) f h = (f x h.0, All-weaken P Q xs f h.1)

All-append : {A : Type 0} (P : A → Type 0) (xs ys : List A) → All P xs → All P ys → All P (xs ++ ys)
All-append P [] ys h k = k
All-append P (x ∷ xs) ys h k = (h.0, All-append P xs ys h.1 k)

-- The visible column is one of the source, its place counted from the offset.
abbrev pub Stands : BoundSource → ℕ → Visible → Type 0
Stands s offset v =
    (i : ℕ) × (c : BoundColumn) × (v.index ≡ offset + i)
    × (c.name ≡ v.column_name)
    × Column s i v.table_name c

columns_from-Stands :
    (s : BoundSource) (name : String) (offset k n : ℕ) (cs : List BoundColumn)
    → n ≡ offset + k
    → ((i : ℕ) (c : BoundColumn) → get_elem? cs i ≡ some c → Column s (k + i) name c)
    → All (Stands s offset) (columns_from name n cs)
unfolding columns_from
columns_from-Stands s name offset k n [] p f = tt
columns_from-Stands s name offset k n (c ∷ cs) p f = (
  (k + 0, c, omega (arith, p), refl, f 0 c refl),
  columns_from-Stands s name offset (k + 1) (n + 1) cs (omega (arith, p)) (λ i d e.
      let q : k + suc i ≡ k + 1 + i = omega arith in
      subst (λ m. Column s m name d) q (f (suc i) d e)),
)

pub visible_columns-Stands :
    (s : BoundSource) (offset : ℕ) → All (Stands s offset) (visible_columns s offset)
unfolding visible_columns
visible_columns-Stands (table t) offset =
    columns_from-Stands (table t) t.schema.table_name offset 0 offset t.schema.columns (omega arith)
      (λ i c e.
        let q : i ≡ 0 + i = omega arith in
        subst (λ m. Column (table t) m t.schema.table_name c) q (of_table t i c e))
visible_columns-Stands (join left right l r schema span) offset =
    All-append _ (visible_columns left offset) _
      (All-weaken (Stands left offset) _ (visible_columns left offset)
        (λ v (i, c, p, q, k). (i, c, p, q, of_left left right l r schema span i v.table_name c k))
        (visible_columns-Stands left offset))
      (All-weaken (Stands right (offset + length (schema_of left).columns)) _
        (visible_columns right _)
        (λ v (i, c, p, q, k). (
          length (schema_of left).columns + i,
          c,
          omega (arith, p),
          q,
          of_right left right l r schema span i v.table_name c k,
        ))
        (visible_columns-Stands right (offset + length (schema_of left).columns)))

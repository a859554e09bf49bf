-- ===== src/Parser/Semantic/Scopes/Resolved.antt =====
-- engine/parser/semantic.py: `_resolve_column` and `_bind_source` find the columns that are named.
use mathlib.Core.Path.{subst}
use mathlib.Core.Option.{some-injective}
use quipudb.Prelude.{
  ℕ, ◌+◌, ◌≡◌, refl, sym, ap, ◌∙◌, inl, inr, String, true, not, get_elem?, Option, none, some, List,
  [], ◌∷◌, any, ==_iff, if◌then◌else◌, arith,
}
use quipudb.Parser.Chars.{Text, text_eq, codes}
use quipudb.Parser.Errors.{unknown_qualifier, unknown_table}
use quipudb.Parser.Ast.{Identifier, SqlTypeName, ColumnReference, FromSource, table_ref, join_ref}
use quipudb.Parser.BoundAst.{BoundSchema, BoundColumnReference, BoundSource, table}
use quipudb.Parser.Semantic.{Checked, accepted, rejected, raised, ◌>>=◌, fail, pure}
use quipudb.Parser.Semantic.Checks.{truth, Answers, accepts, rejects, Answers-if, Answers-bind}
use quipudb.Parser.Semantic.Scopes.{
  visible_columns, scope_of, positions, column_at, lookup, only_position, resolve_column, crossed,
  join_columns, find_schema, type_rank, same_type, bind_source,
}
use quipudb.Parser.Semantic.Scopes.Columns.{
  Denotes, OnSides, straight, crossed_over, IsSource, Binds, a_table, a_join, Binds-IsSource,
}
use quipudb.Parser.Semantic.Scopes.Places.{All, Column-there}
use quipudb.Parser.Semantic.Scopes.Meant.{Has, IsNamed, positions-IsNamed, positions-Has}

abbrev types : List SqlTypeName
types =
    SqlTypeName.int ∷ SqlTypeName.double ∷ SqlTypeName.varchar ∷ SqlTypeName.bool ∷ SqlTypeName.date
    ∷ SqlTypeName.point ∷ SqlTypeName.vector ∷ []

abbrev of_rank : ℕ → Option SqlTypeName
of_rank n = get_elem? types n

of_rank-type_rank : (t : SqlTypeName) → of_rank (type_rank t) ≡ some t
of_rank-type_rank SqlTypeName.int = refl
of_rank-type_rank SqlTypeName.double = refl
of_rank-type_rank SqlTypeName.varchar = refl
of_rank-type_rank SqlTypeName.bool = refl
of_rank-type_rank SqlTypeName.date = refl
of_rank-type_rank SqlTypeName.point = refl
of_rank-type_rank SqlTypeName.vector = refl

same_type→eq : (a b : SqlTypeName) → same_type a b ≡ true → a ≡ b
same_type→eq a b h = some-injective a b (
    sym (of_rank-type_rank a)
    ∙ ap of_rank ((==_iff (type_rank a) (type_rank b)).0 h)
    ∙ of_rank-type_rank b)

abbrev IfFound : ColumnReference → BoundSource → Option BoundColumnReference → Type 0
IfFound reference s none = Unit {0}
IfFound reference s (some c) = Denotes reference s c

module _ (source : Option Text) where
  column_at-Answers :
      (reference : ColumnReference) (s : BoundSource) (i : ℕ)
      → IsSource s
      → positions reference (visible_columns s 0) ≡ i ∷ []
      → Answers source (Denotes reference s) (column_at reference (scope_of s) i)
  unfolding scope_of
  column_at-Answers reference s i h p =
      let found = subst (All (IsNamed reference s)) p (positions-IsNamed reference s) in
      let (name, c, stands, named) = found.0 in
      let (b, placed, alike) = Column-there s i name c h stands in
      rw (placed, column_at)
        (accepts _ (record {
          table_name = name;
          column = c;
          stands = stands;
          named = named;
          only = λ j other d k n.
              alone j (subst (Has (0 + j)) p (positions-Has reference s 0 j other d k n));
          placed = placed;
          same_type = alike.0;
          same_length = alike.1;
          same_span = refl;
        }))
    where
      alone : (j : ℕ) → Has (0 + j) (i ∷ []) → j ≡ i
      alone j (inl e) = omega (arith, e)
      alone j (inr e) = absurd e

  lookup-Answers :
      (reference : ColumnReference) (s : BoundSource)
      → IsSource s
      → Answers source (IfFound reference s) (lookup reference (scope_of s))
  unfolding lookup scope_of
  lookup-Answers reference s h = by_positions (positions reference (visible_columns s 0)) refl
    where
      found :
          (r : Checked BoundColumnReference)
          → Answers source (Denotes reference s) r
          → Answers source
              (IfFound reference s)
              (elim r [ accepted c ↦ pure (some c) | rejected e ↦ rejected e | raised ↦ raised ])
      found _ (accepts c p) = accepts (some c) p
      found _ (rejects e p q) = rejects e p q

      by_positions :
          (is : List ℕ)
          → positions reference (visible_columns s 0) ≡ is
          → Answers source (IfFound reference s) (elim is [
            | [] ↦ pure none
            | i ∷ [] ↦ elim (column_at reference (scope_of s) i) [
              | accepted c ↦ pure (some c)
              | rejected e ↦ rejected e
              | raised ↦ raised
            ]
            | i ∷ j ∷ more ↦ pure none
          ])
      by_positions [] e = accepts none tt
      by_positions (i ∷ []) e = found _ (column_at-Answers reference s i h e)
      by_positions (i ∷ j ∷ more) e = accepts none tt

  pub resolve_column-Answers :
      (reference : ColumnReference) (s : BoundSource)
      → IsSource s
      → Answers source (Denotes reference s) (resolve_column source reference (scope_of s))
  unfolding resolve_column only_position scope_of
  resolve_column-Answers reference s h = by_qualifier reference.qualifier
    where
      by_positions :
          (is : List ℕ)
          → positions reference (visible_columns s 0) ≡ is
          → Answers source (Denotes reference s) (only_position source reference (scope_of s) is)
      by_positions [] e = rejects _ refl refl
      by_positions (i ∷ []) e = column_at-Answers reference s i h e
      by_positions (i ∷ j ∷ more) e = rejects _ refl refl

      found :
          Answers source (Denotes reference s) (
            only_position source reference (scope_of s) (positions reference (visible_columns s 0)))
      found = by_positions (positions reference (visible_columns s 0)) refl

      by_qualifier :
          (q : Option Identifier)
          → Answers source (Denotes reference s) (elim q [
            | none ↦
                only_position source reference
                  (scope_of s)
                  (positions reference (visible_columns s 0))
            | some q ↦
                if any (λ v. text_eq (codes v.table_name) q.name) (visible_columns s 0)
                then only_position source reference
                    (scope_of s)
                    (positions reference (visible_columns s 0))
                else fail source (unknown_qualifier q.name) q.span
          ])
      by_qualifier none = found
      by_qualifier (some q) =
          Answers-if (any (λ v. text_eq (codes v.table_name) q.name) (visible_columns s 0))
            (λ _. found) (λ _. rejects _ refl refl)

  join_columns-Answers :
      (l r : ColumnReference) (left right : BoundSource)
      → IsSource left
      → IsSource right
      → Answers source
          (OnSides l r left right)
          (join_columns source l r (scope_of left) (scope_of right))
  unfolding join_columns
  join_columns-Answers l r left right g h =
      Answers-bind (lookup l (scope_of left)) _ (lookup-Answers l left g) (λ a p.
        Answers-bind (lookup r (scope_of right)) _ (lookup-Answers r right h) (λ b q.
          Answers-bind (lookup r (scope_of left)) _ (lookup-Answers r left g) (λ c u.
            Answers-bind (lookup l (scope_of right)) _ (lookup-Answers l right h)
              (λ d v. by_found a b p q c d u v))))
    where
      resolved : Answers source (OnSides l r left right) (
          resolve_column source l (scope_of left) >>= λ x.
          resolve_column source r (scope_of right) >>= λ y. pure (x, y))
      resolved =
          Answers-bind (resolve_column source l (scope_of left)) _ (resolve_column-Answers l left g)
            (λ x p.
              Answers-bind (resolve_column source r (scope_of right)) _
                (resolve_column-Answers r right h) (λ y q. accepts _ (straight x y p q)))

      across :
          (c d : Option BoundColumnReference)
          → IfFound r left c
          → IfFound l right d
          → Answers source
              (OnSides l r left right)
              (crossed source l r (scope_of left) (scope_of right) c d)
      across (some x) (some y) u v = accepts _ (crossed_over x y u v)
      across (some x) none u v = resolved
      across none d u v = resolved

      by_found :
          (a b : Option BoundColumnReference)
          → IfFound l left a
          → IfFound r right b
          → (c d : Option BoundColumnReference) → IfFound r left c
          → IfFound l right d
          → Answers source (OnSides l r left right) (elim a [
            | some x ↦ elim b [
              | some y ↦ pure (x, y)
              | none ↦ crossed source l r (scope_of left) (scope_of right) c d
            ]
            | none ↦ crossed source l r (scope_of left) (scope_of right) c d
          ])
      by_found (some x) (some y) p q c d u v = accepts _ (straight x y p q)
      by_found (some x) none p q c d u v = across c d u v
      by_found none b p q c d u v = across c d u v

  pub bind_source-Answers :
      (s : FromSource) (catalogue : List (String × BoundSchema))
      → Answers source (Binds catalogue s) (bind_source source s catalogue)
  unfolding bind_source
  bind_source-Answers (table_ref name span) catalogue =
      by_schema (find_schema name.name catalogue) refl
    where
      by_schema :
          (o : Option BoundSchema)
          → find_schema name.name catalogue ≡ o
          → Answers source (Binds catalogue (table_ref name span)) (elim o [
            | none ↦ fail source (unknown_table name.name) name.span
            | some schema ↦ pure (table (record { schema = schema; span = span }))
          ])
      by_schema none e = rejects _ refl refl
      by_schema (some schema) e = accepts _ (a_table name span schema e)
  bind_source-Answers (join_ref l r left_column right_column span) catalogue =
      Answers-bind (bind_source source l catalogue) _ (bind_source-Answers l catalogue) (λ left g.
        Answers-bind (bind_source source r catalogue) _ (bind_source-Answers r catalogue)
          (λ right h.
            Answers-bind
              (join_columns source left_column right_column (scope_of left) (scope_of right)) _
              (join_columns-Answers left_column right_column left right (Binds-IsSource l left g)
                (Binds-IsSource r right h))
              (λ on p.
                Answers-if (not (same_type on.0.column.data_type on.1.column.data_type))
                  (λ _. rejects _ refl refl)
                  (λ e. accepts _ (
                    a_join l r left_column right_column span left right on g h p
                      (same_type→eq _ _ (truth _ e)))))))

-- ===== src/Planner/Select/Total.antt =====
-- `optimize_select` gives a plan for every statement whose tables are known.
use mathlib.Core.Path.{ap₂}
use quipudb.Prelude.{
  ℕ, ◌≡◌, refl, sym, ◌∙◌, Bool, true, false, not, Option, none, some, List, [], ◌∷◌, append-nil,
  ◌&&◌, arith, Bool-cases, inl, inr, ==_self,
}
use quipudb.Prelude.Dict.{Dict}
use quipudb.Parser.BoundAst.{
  BoundCondition, BoundDistanceOrderBy, BoundOrdering, by_distance, by_column, BoundSource,
  BoundTableRef, BoundSelectStatement,
}
use quipudb.Planner.Plan.{rtree}
use quipudb.Planner.Metadata.{IndexMetadata, TableMetadata, is_among}
use quipudb.Planner.Access.{Planned, ok, rtree_knn, is_kind, best_of_kind, best_spatial_index}
use quipudb.Planner.Access.Routes.{is_similar_to_vector, best_of_kind-usable}
use quipudb.Planner.Physical.{
  is_none, is_text, is_asc, is_access, PhysicalTableAccess, PhysicalSource, leaf, joined,
  PhysicalSelectPlan, leaves, leaf_of, physical_leaves, leaf_fits, all_fit, owner_fits, one_table,
  is_source,
}
use quipudb.Planner.Source.{make_access}
use quipudb.Planner.Source.Fits.{IsKnown, IsPlain, is_leaf, SourcePlan, optimize_source-SourcePlan}
use quipudb.Planner.Select.{
  is_score_ascending, knn_fits, text_fits, is_plan, use_knn, try_knn, push_limit, make_plan,
  optimize_select,
}

module _ {F : Type 0} where
  abbrev knn_leaf :
      PhysicalTableAccess F → BoundDistanceOrderBy F → ℕ → IndexMetadata → PhysicalTableAccess F
  knn_leaf a o limit i = record {
    table = a.table;
    route = rtree_knn;
    index = some i;
    residual_filter = false;
    nearest = some o;
    nearest_limit = some limit;
    text_limit = none;
  }

  abbrev limited_leaf : PhysicalTableAccess F → ℕ → PhysicalTableAccess F
  limited_leaf a n = record {
    table = a.table;
    route = a.route;
    index = a.index;
    residual_filter = false;
    nearest = none;
    nearest_limit = none;
    text_limit = some n;
  }

  knn_leaf-fits :
      (a : PhysicalTableAccess F) (o : BoundDistanceOrderBy F) (limit : ℕ) (i : IndexMetadata)
      (bound : BoundSource) (condition : Option (BoundCondition F)) (owner : Option ℕ)
      (ts : List (BoundTableRef × ℕ))
      → is_none condition ≡ true
      → one_table bound ≡ true
      → all_fit bound condition owner 0 (a ∷ []) ts ≡ true
      → all_fit bound condition owner 0 (knn_leaf a o limit i ∷ []) ts ≡ true
  unfolding all_fit leaf_fits
  knn_leaf-fits a o limit i bound none owner [] n b h = cc
  knn_leaf-fits a o limit i bound none owner ((t, offset) ∷ []) n b h = ground arith
  knn_leaf-fits a o limit i bound none owner ((t, offset) ∷ u ∷ ts) n b h = ground arith
  knn_leaf-fits a o limit i bound (some c) owner ts n b h = cc

  limited_leaf-fits :
      (a : PhysicalTableAccess F) (n : ℕ) (bound : BoundSource)
      (condition : Option (BoundCondition F)) (owner : Option ℕ) (ts : List (BoundTableRef × ℕ))
      → a.residual_filter ≡ false
      → all_fit bound condition owner 0 (a ∷ []) ts ≡ true
      → all_fit bound condition owner 0 (limited_leaf a n ∷ []) ts ≡ true
  unfolding all_fit leaf_fits owner_fits
  limited_leaf-fits a n bound condition owner [] r h = cc
  limited_leaf-fits a n bound none owner ((t, offset) ∷ []) r h = ground arith
  limited_leaf-fits a n bound none owner ((t, offset) ∷ u ∷ ts) r h = ground arith
  limited_leaf-fits a n bound (some c) owner ((t, offset) ∷ []) r h = ground arith
  limited_leaf-fits a n bound (some c) owner ((t, offset) ∷ u ∷ ts) r h = ground arith

  limited_leaf-is_access :
      (a : PhysicalTableAccess F) (n : ℕ)
      → is_text a.route ≡ true
      → is_access a ≡ true
      → (is_access (limited_leaf a n) ≡ true) × (a.residual_filter ≡ false)
  unfolding is_access
  limited_leaf-is_access a n t h = (ground arith, ground arith)

module _ {F : Type 0} (order_eq : BoundDistanceOrderBy F → BoundDistanceOrderBy F → Bool)
    (order_eq_refl : (o : BoundDistanceOrderBy F) → order_eq o o ≡ true)
    (s : BoundSelectStatement F) where
  -- The checks that each source on the way to the plan passes.
  record Stage (source : PhysicalSource F) : Type 0 where
    knn : knn_fits order_eq s source ≡ true
    text : text_fits order_eq s source ≡ true
    fits : is_source source s.source s.condition ≡ true
    shaped : is_leaf source ≡ one_table s.source

  abbrev IsChecked : PhysicalSource F → Type 0
  IsChecked (leaf a) = is_access a ≡ true
  IsChecked (joined l r j) = Unit {0}

  Stage-is_plan :
      (source : PhysicalSource F)
      → Stage source
      → is_plan order_eq (make_plan order_eq s source) ≡ true
  unfolding is_plan
  Stage-is_plan source g = ground (arith, g.knn, g.text, g.fits)

  plain_Stage :
      (source : PhysicalSource F)
      → IsPlain source
      → is_source source s.source s.condition ≡ true
      → is_leaf source ≡ one_table s.source
      → Stage source
  unfolding knn_fits text_fits
  plain_Stage (joined l r j) p f h = record { knn = refl; text = refl; fits = f; shaped = h }
  plain_Stage (leaf a) (p, q, c) f h = record {
    knn = ground arith;
    text = ground arith;
    fits = f;
    shaped = h;
  }

  -- A step of the optimizer that gives a source which passes the checks.
  abbrev StepsTo : Planned (PhysicalSource F) → Type 0
  StepsTo r = (source : PhysicalSource F) × (r ≡ ok source) × Stage source × IsChecked source

  use_knn-StepsTo :
      (o : BoundDistanceOrderBy F) (limit : ℕ) (a : PhysicalTableAccess F)
      → s.order_by ≡ some (by_distance o)
      → s.limit ≡ some limit
      → (is_asc o.direction && is_none s.condition && is_none s.group_by) ≡ true
      → Stage (leaf a)
      → is_access a ≡ true
      → StepsTo (use_knn order_eq s o limit a)
  unfolding use_knn
  use_knn-StepsTo o limit a eo el h g c =
      split (best_spatial_index a.table o.column.index) refl
        (best_of_kind-usable rtree a.table o.column.index)
    where
      table_only : one_table s.source ≡ true
      table_only = sym g.shaped

      split :
          (index : Option IndexMetadata)
          → best_spatial_index a.table o.column.index ≡ index
          → ((i : IndexMetadata)
              → best_of_kind rtree a.table o.column.index ≡ some i
              → (is_kind rtree o.column.index i ≡ true) × (is_among i a.table.indexes ≡ true))
          → StepsTo (use_knn order_eq s o limit a)
      split none e u = (leaf a, rw (e, use_knn), g, c)
      split (some i) e u =
          let (p, m) = u i (unfold best_spatial_index in e) in
          let passes : is_access (knn_leaf a o limit i) ≡ true =
            unfold is_access is_kind in ground arith in
          (
            leaf (knn_leaf a o limit i),
            rw (e, use_knn) (unfold make_access in rw passes),
            record {
              knn = unfold knn_fits in ground (arith, order_eq_refl o, ==_self limit);
              text = unfold text_fits in refl;
              fits =
                  unfold is_source physical_leaves in
                  knn_leaf-fits a o limit i s.source s.condition (leaf_of s.source s.condition)
                    (leaves s.source 0) (ground arith) table_only g.fits;
              shaped = g.shaped;
            },
            passes,
          )

  push_limit-StepsTo :
      (limit : Option ℕ) (source : PhysicalSource F)
      → s.limit ≡ limit
      → Stage source
      → IsChecked source
      → StepsTo (push_limit order_eq s limit source)
  unfolding push_limit
  push_limit-StepsTo (some n) (leaf a) e g c =
      elim (Bool-cases (
        is_text a.route
        && is_none s.order_by
        && is_none s.group_by
        && not (is_score_ascending s))) [
          | inl h ↦ (
            leaf (limited_leaf a n),
            rw h (unfold make_access in rw (passes h)),
            limited h,
            passes h,
          )
          | inr h ↦ (leaf a, rw h, g, c)
        ]
    where
      passes :
          (is_text a.route
              && is_none s.order_by
              && is_none s.group_by
              && not (is_score_ascending s))
            ≡ true
          → is_access (limited_leaf a n) ≡ true
      passes h = (limited_leaf-is_access a n (ground arith) c).0

      limited :
          (is_text a.route
              && is_none s.order_by
              && is_none s.group_by
              && not (is_score_ascending s))
            ≡ true
          → Stage (leaf (limited_leaf a n))
      limited h = record {
        knn = unfold knn_fits in refl;
        text = unfold text_fits in ground (arith, ==_self n);
        fits =
            unfold is_source physical_leaves in
            limited_leaf-fits a n s.source s.condition (leaf_of s.source s.condition)
              (leaves s.source 0) (limited_leaf-is_access a n (ground arith) c).1 g.fits;
        shaped = g.shaped;
      }
  push_limit-StepsTo none source e g c = (source, refl, g, c)
  push_limit-StepsTo (some n) (joined l r j) e g c = (joined l r j, refl, g, c)

  try_knn-StepsTo :
      (order : Option (BoundOrdering F)) (limit : Option ℕ) (source : PhysicalSource F)
      → s.order_by ≡ order
      → s.limit ≡ limit
      → Stage source
      → IsChecked source
      → StepsTo (try_knn order_eq s order limit source)
  unfolding try_knn
  try_knn-StepsTo (some (by_distance o)) (some n) (leaf a) eo el g c =
      elim (Bool-cases (is_asc o.direction && is_none s.condition && is_none s.group_by)) [
        | inl h ↦ rw (h, try_knn) (use_knn-StepsTo o n a eo el h g c)
        | inr h ↦ rw (h, try_knn) (leaf a, refl, g, c)
      ]
  try_knn-StepsTo none limit source eo el g c = (source, refl, g, c)
  try_knn-StepsTo (some (by_column o)) limit source eo el g c = (source, refl, g, c)
  try_knn-StepsTo (some (by_distance o)) none source eo el g c = (source, refl, g, c)
  try_knn-StepsTo (some (by_distance o)) (some n) (joined l r j) eo el g c =
      (joined l r j, refl, g, c)

  IsPlain-IsChecked : (source : PhysicalSource F) → IsPlain source → IsChecked source
  IsPlain-IsChecked (leaf a) (p, q, c) = c
  IsPlain-IsChecked (joined l r j) p = tt

  leaf_of-none :
      (source : BoundSource) (condition : Option (BoundCondition F))
      → condition ≡ none
      → leaf_of source condition ≡ none
  unfolding leaf_of
  leaf_of-none source condition e = rw e

  -- If the catalogue has every table of the FROM under its own name, the table of a MATCH has a text
  -- index on its column, and a SIMILAR_TO names a kind of vector index, then `optimize_select`
  -- returns a plan, and the plan passes the checks of its own constructor.
  pub optimize_select_total :
      (catalogue : Dict TableMetadata)
      → IsKnown catalogue s.condition (leaf_of s.source s.condition) s.source 0 0
      → ((c : BoundCondition F) → s.condition ≡ some c → is_similar_to_vector c ≡ true)
      → (plan : PhysicalSelectPlan F) × (optimize_select order_eq s catalogue ≡ ok plan)
        × (is_plan order_eq plan ≡ true)
  unfolding optimize_select
  optimize_select_total catalogue k v =
      let (second, e2, g2, c2) =
        try_knn-StepsTo s.order_by s.limit first.physical refl refl stage
          (IsPlain-IsChecked first.physical first.plain) in
      let (third, e3, g3, c3) = push_limit-StepsTo s.limit second refl g2 c2 in
      let passes = Stage-is_plan third g3 in
      (make_plan order_eq s third, rw (first.planned, e2, e3, passes), passes)
    where
      first :
          SourcePlan catalogue s.condition
            (leaf_of s.source s.condition)
            true
            (leaf_of-none s.source s.condition)
            v
            s.source
            0
            0
      first =
          optimize_source-SourcePlan catalogue s.condition (leaf_of s.source s.condition) true
            (leaf_of-none s.source s.condition) v s.source 0 0 k

      stage : Stage first.physical
      stage =
          plain_Stage first.physical first.plain
            (unfold is_source in
              sym (
                ap₂ (all_fit s.source s.condition (leaf_of s.source s.condition) 0)
                  (append-nil (physical_leaves first.physical)) (append-nil (leaves s.source 0)))
              ∙ first.fits s.source [] [])
            first.shaped

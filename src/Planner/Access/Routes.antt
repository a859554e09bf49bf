-- ===== src/Planner/Access/Routes.antt =====
-- Every route that `_choose_access` returns suits the table, the column and the index it names.
use mathlib.Core.Path.{subst}
use quipudb.Prelude.{
  ℕ, ◌≡◌, refl, Bool, true, false, not, Option, none, some, arith, ◌==◌, ◌||◌, ◌&&◌, if◌then◌else◌,
}
use quipudb.Parser.Ast.{
  IndexKind, ComparisonOperator, equal, less_than, less_than_or_equal, greater_than,
  greater_than_or_equal,
}
use quipudb.Parser.BoundAst.{
  BoundComparisonCondition, BoundCondition, comparison, between, distance, polygon, matching,
  similar,
}
use quipudb.Planner.Plan.{Structure, bplus_unclustered, extendible_hash, rtree, inverted_index}
use quipudb.Planner.Metadata.{IndexMetadata, TableMetadata, is_among, same, is_structure}
use quipudb.Planner.Access.{
  AccessRoute, AccessChoice, scan, vector_scan, vector_knn, text_search, rtree_radius,
  rtree_polygon, value_error, table_search, table_range, index_search, index_range, table_or_index,
  of_index, bare, Planned, ok, err, is_exact, key_lt, name_lt, is_kind, best_candidates, best_index,
  best_of_kind, best_text_index, best_spatial_index, plan_range, plan_equality, choose_comparison,
  choose_access, kind_structure, allow_hash,
}
use quipudb.Planner.Access.Candidates.{IsIn, IsIn-is_among, IsIn-keep, min_by-IsIn}
use quipudb.Planner.Physical.{
  is_some, is_range, is_vector_knn, is_spatial, is_vector_structure, uses_index, is_knn, is_text,
  fits_route,
}

-- What an index must have to answer an equality or a range.
unfoldable pub is_usable : ℕ → Bool → Bool → IndexMetadata → Bool
unfolding is_exact
is_usable column for_range allow_hash i =
    is_exact column i
    && (if for_range
        then i.supports_range
        else allow_hash || not (is_structure i.structure extendible_hash))

best_candidates-usable :
    (t : TableMetadata) (column : ℕ) (for_range allow_hash : Bool) (i : IndexMetadata)
    → IsIn i (best_candidates t column for_range allow_hash)
    → (is_usable column for_range allow_hash i ≡ true) × IsIn i t.indexes
unfolding best_candidates is_usable
best_candidates-usable t column true h i m =
    let (p, k) = IsIn-keep (λ j. j.supports_range) i _ m in
    let (q, n) = IsIn-keep (is_exact column) i t.indexes k in (ground arith, n)
best_candidates-usable t column false true i m =
    let (q, n) = IsIn-keep (is_exact column) i t.indexes m in (ground arith, n)
best_candidates-usable t column false false i m =
    let (p, k) = IsIn-keep (λ j. not (is_structure j.structure extendible_hash)) i _ m in
    let (q, n) = IsIn-keep (is_exact column) i t.indexes k in (ground arith, n)

pub best_index-usable :
    (t : TableMetadata) (column : ℕ) (for_range allow_hash : Bool) (i : IndexMetadata)
    → best_index t column for_range allow_hash ≡ some i
    → (is_usable column for_range allow_hash i ≡ true) × (is_among i t.indexes ≡ true)
unfolding best_index
best_index-usable t column r h i e =
    let (u, m) = best_candidates-usable t column r h i (min_by-IsIn (key_lt r) _ i e) in
    (u, IsIn-is_among i t.indexes m)

pub best_of_kind-usable :
    (s : Structure) (t : TableMetadata) (column : ℕ) (i : IndexMetadata)
    → best_of_kind s t column ≡ some i
    → (is_kind s column i ≡ true) × (is_among i t.indexes ≡ true)
unfolding best_of_kind
best_of_kind-usable s t column i e =
    let (p, m) = IsIn-keep (is_kind s column) i t.indexes (min_by-IsIn name_lt _ i e) in
    (p, IsIn-is_among i t.indexes m)

-- The checks that a leaf's route makes, and the column of its index.
unfoldable pub choice_fits : TableMetadata → ℕ → AccessChoice → Bool
choice_fits t column c =
    same (uses_index c.route) (is_some c.index)
    && not (is_knn c.route)
    && not (is_text c.route && c.residual_filter)
    && (elim c.index [ none ↦ true | some i ↦ fits_route c.route t i && i.column == column ])

-- The same checks, of an index that is known to be the table's and on the column.
abbrev choice_fits_kind : AccessRoute → Bool → IndexMetadata → Bool
choice_fits_kind route residual i =
    uses_index route
    && not (is_knn route)
    && not (is_text route && residual)
    && not (is_range route && not i.supports_range)
    && same (is_vector_knn route) (is_vector_structure i.structure)
    && (if is_spatial route
        then is_structure i.structure rtree
        else not (is_structure i.structure rtree)
          && same (is_text route) (is_structure i.structure inverted_index))

-- The structure answers equality and range, and nothing else.
abbrev is_plain : Structure → Bool
is_plain s =
    not (is_vector_structure s) && not (is_structure s rtree) && not (is_structure s inverted_index)

plain_of_exact :
    (s : Structure)
    → (is_structure s bplus_unclustered || is_structure s extendible_hash) ≡ true
    → is_plain s ≡ true
plain_of_exact s h = ground arith

is_usable-plain :
    (column : ℕ) (r h : Bool) (i : IndexMetadata)
    → is_usable column r h i ≡ true
    → (is_plain i.structure ≡ true) × (i.column == column ≡ true)
unfolding is_usable
is_usable-plain column r h i u = (plain_of_exact i.structure (ground arith), ground arith)

abbrev Usable : TableMetadata → ℕ → Bool → Bool → Option IndexMetadata → Type 0
Usable t column r h index =
    (i : IndexMetadata)
    → index ≡ some i
    → (is_usable column r h i ≡ true) × (is_among i t.indexes ≡ true)

range_choice-fits :
    (t : TableMetadata) (column : ℕ) (strict by_table : Bool) (index : Option IndexMetadata)
    → Usable t column true true index
    → choice_fits t column (table_or_index table_range index_range strict by_table index) ≡ true
unfolding choice_fits
range_choice-fits t column strict true index u = refl
range_choice-fits t column strict false none u = refl
range_choice-fits t column strict false (some i) u =
    let (p, m) = u i refl in
    let (q, k) = is_usable-plain column true true i p in
    let r : i.supports_range ≡ true = unfold is_usable in ground arith in ground arith

equality_choice-fits :
    (t : TableMetadata) (column : ℕ) (h by_table : Bool) (index : Option IndexMetadata)
    → Usable t column false h index
    → choice_fits t column (table_or_index table_search index_search false by_table index) ≡ true
unfolding choice_fits
equality_choice-fits t column h true index u = refl
equality_choice-fits t column h false none u = refl
equality_choice-fits t column h false (some i) u =
    let (p, m) = u i refl in let (q, k) = is_usable-plain column false h i p in ground arith

plan_range-fits :
    (t : TableMetadata) (column : ℕ) (by_key strict : Bool)
    → choice_fits t column (plan_range t column by_key strict) ≡ true
unfolding plan_range
plan_range-fits t column by_key strict =
    range_choice-fits t column strict _ (best_index t column true true)
      (λ i e. best_index-usable t column true true i e)

abbrev PlannedFits : TableMetadata → ℕ → Planned AccessChoice → Type 0
PlannedFits t column (ok choice) = choice_fits t column choice ≡ true
PlannedFits t column (err e) = Unit {0}

vector_kind :
    (k : IndexKind) (s : Structure)
    → is_vector_structure (kind_structure k) ≡ true
    → is_structure s (kind_structure k) ≡ true
    → (is_vector_structure s ≡ true)
      × (is_structure s rtree ≡ false)
      × (is_structure s inverted_index ≡ false)
vector_kind IndexKind.ivf s v h = (ground arith, ground arith, ground arith)
vector_kind IndexKind.hnsw s v h = (ground arith, ground arith, ground arith)
vector_kind _ s v h = cc

-- An index of one kind, for the routes that read that kind only.
kind_choice-fits :
    (t : TableMetadata) (column : ℕ) (s : Structure) (route : AccessRoute) (residual : Bool)
    (otherwise : AccessChoice) (index : Option IndexMetadata)
    → ((i : IndexMetadata)
        → index ≡ some i
        → (is_kind s column i ≡ true) × (is_among i t.indexes ≡ true))
    → ((i : IndexMetadata)
        → is_structure i.structure s ≡ true
        → choice_fits_kind route residual i ≡ true)
    → choice_fits t column otherwise ≡ true
    → choice_fits t column (elim index [ none ↦ otherwise | some i ↦ of_index route residual i ])
      ≡ true
unfolding choice_fits is_kind
kind_choice-fits t column s route residual otherwise none u k o = o
kind_choice-fits t column s route residual otherwise (some i) u k o =
    let (p, m) = u i refl in let q = k i (ground arith) in ground arith

module _ {F : Type 0} where
  plan_equality-fits :
      (c : BoundComparisonCondition F) (t : TableMetadata) (column : ℕ) (by_key : Bool)
      → choice_fits t column (plan_equality c t column by_key) ≡ true
  unfolding plan_equality
  plan_equality-fits c t column by_key =
      equality_choice-fits t column (allow_hash c) _ (best_index t column false (allow_hash c))
        (λ i e. best_index-usable t column false (allow_hash c) i e)

  choose_comparison-fits :
      (c : BoundComparisonCondition F) (t : TableMetadata) (column : ℕ) (by_key : Bool)
      → choice_fits t column (choose_comparison c column by_key t) ≡ true
  unfolding choose_comparison
  choose_comparison-fits c t column by_key = split c.operator refl
    where
      split :
          (o : ComparisonOperator)
          → c.operator ≡ o
          → choice_fits t column (choose_comparison c column by_key t) ≡ true
      split equal e = rw (e, choose_comparison) (plan_equality-fits c t column by_key)
      split less_than e = rw (e, choose_comparison) (plan_range-fits t column by_key true)
      split less_than_or_equal e = rw (e, choose_comparison) (plan_range-fits t column by_key false)
      split greater_than e = rw (e, choose_comparison) (plan_range-fits t column by_key true)
      split greater_than_or_equal e =
          rw (e, choose_comparison) (plan_range-fits t column by_key false)

  -- `SIMILAR_TO` names a kind of vector index, as the semantic check demands.
  unfoldable pub is_similar_to_vector : BoundCondition F → Bool
  is_similar_to_vector (similar c) = is_vector_structure (kind_structure c.kind)
  is_similar_to_vector _ = true

  choose_access-PlannedFits :
      (c : BoundCondition F) (column key_column : ℕ) (t : TableMetadata) (allowed : Bool)
      → is_similar_to_vector c ≡ true
      → PlannedFits t column (choose_access (some c) column key_column t allowed)
  unfolding choose_access is_similar_to_vector best_text_index best_spatial_index
  choose_access-PlannedFits (comparison c) column key t allowed v =
      choose_comparison-fits c t column _
  choose_access-PlannedFits (between c) column key t allowed v = plan_range-fits t column _ false
  choose_access-PlannedFits (distance c) column key t allowed v =
      kind_choice-fits t column rtree rtree_radius _ (bare scan true) (best_spatial_index t column)
        (best_of_kind-usable rtree t column) (λ i k. ground arith) (unfold choice_fits in refl)
  choose_access-PlannedFits (polygon c) column key t allowed v =
      kind_choice-fits t column rtree rtree_polygon false (bare scan true)
        (best_spatial_index t column) (best_of_kind-usable rtree t column) (λ i k. ground arith)
        (unfold choice_fits in refl)
  choose_access-PlannedFits (matching c) column key t allowed v =
      text (best_text_index t column) (best_of_kind-usable inverted_index t column)
    where
      text :
          (index : Option IndexMetadata)
          → ((i : IndexMetadata)
              → index ≡ some i
              → (is_kind inverted_index column i ≡ true) × (is_among i t.indexes ≡ true))
          → PlannedFits t column
              (elim index [ none ↦ err value_error | some i ↦ ok (of_index text_search false i) ])
      text none u = tt
      text (some i) u =
          kind_choice-fits t column inverted_index text_search false (bare scan true) (some i) u
            (λ j k. ground arith) (unfold choice_fits in refl)
  choose_access-PlannedFits (similar c) column key t allowed v =
      kind_choice-fits t column (kind_structure c.kind) vector_knn false (bare vector_scan false)
        (best_of_kind (kind_structure c.kind) t column)
        (best_of_kind-usable (kind_structure c.kind) t column)
        (λ i k. let (p, q, r) = vector_kind c.kind i.structure v k in ground arith)
        (unfold choice_fits in refl)

  -- Whatever route is chosen, it names an index exactly if it reads one, and that index is the
  -- table's, on the predicate's column, and of the kind of the route.
  pub choose_access-fits :
      (c : BoundCondition F) (column key_column : ℕ) (t : TableMetadata) (allowed : Bool)
      {choice : AccessChoice}
      → is_similar_to_vector c ≡ true
      → choose_access (some c) column key_column t allowed ≡ ok choice
      → choice_fits t column choice ≡ true
  choose_access-fits c column key t allowed v e =
      subst (PlannedFits t column) e (choose_access-PlannedFits c column key t allowed v)

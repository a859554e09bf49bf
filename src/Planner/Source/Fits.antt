-- ===== src/Planner/Source/Fits.antt =====
-- `_optimize_source` gives a plan for every FROM whose tables are known, and the plan passes the
-- checks of its nodes.
use mathlib.Core.Path.{ap₂}
use quipudb.Prelude.{
  ℕ, ◌+◌, ◌-◌, ◌≡◌, refl, sym, ap, ◌∙◌, Bool, true, false, Option, none, some, List, ◌++◌, length,
  append_assoc, str_eq, ◌==◌, ◌&&◌, arith, if◌then◌else◌, Bool-cases, inl, inr,
}
use quipudb.Prelude.Dict.{Dict, find}
use quipudb.Parser.BoundAst.{
  BoundCondition, column_of, BoundSource, BoundTableRef, table, join, schema_of,
  BoundColumnReference,
}
use quipudb.Planner.Metadata.{IndexMetadata, TableMetadata}
use quipudb.Planner.Access.{AccessChoice, scan, bare, ok}
use quipudb.Planner.Access.Routes.{choice_fits, choose_access-fits, is_similar_to_vector}
use quipudb.Planner.Access.Owner.{choice_respects, can_answer, choose_access-Chosen}
use quipudb.Planner.Physical.{
  is_some, is_none, is_knn, is_access, PhysicalTableAccess, is_join, PhysicalSource, leaf, joined,
  leaves, physical_leaves, leaf_fits, all_fit, owner_fits, is_owner, one_table,
}
use quipudb.Planner.Source.{
  leaf_count, plain_access, make_access, choose_probe, join_node, make_join, optimize_leaf,
  optimize_source,
}

module _ {F : Type 0} (catalogue : Dict TableMetadata) (condition : Option (BoundCondition F))
    (owner : Option ℕ) where
  -- The owner of the predicate can answer it, at the column's place in the table.
  abbrev OwnerAnswers : TableMetadata → ℕ → ℕ → Type 0
  OwnerAnswers meta first offset =
      (c : BoundCondition F)
      → condition ≡ some c
      → is_owner owner first ≡ true
      → can_answer c meta ((column_of c).index - offset) ≡ true

  -- Every table is in the catalogue, under its own name.
  abbrev pub IsKnown : BoundSource → ℕ → ℕ → Type 0
  IsKnown (table t) first offset =
      (meta : TableMetadata) × (find t.schema.table_name catalogue ≡ some meta)
      × (str_eq meta.name t.schema.table_name ≡ true)
      × OwnerAnswers meta first offset
  IsKnown (join l r lc rc s span) first offset =
      IsKnown l first offset
      × IsKnown r (first + leaf_count l) (offset + length (schema_of l).columns)

choice_fits-is_access :
    (F : Type 0) (t : TableMetadata) (column : ℕ) (c : AccessChoice)
    → choice_fits t column c ≡ true
    → is_access (plain_access {F = F} t c) ≡ true
unfolding choice_fits is_access
choice_fits-is_access F t column c h = ground arith

owned_leaf :
    {F : Type 0} (t : BoundTableRef) (meta : TableMetadata) (c : BoundCondition F) (offset : ℕ)
    (choice : AccessChoice)
    → choice_fits meta ((column_of c).index - offset) choice ≡ true
    → choice_respects c ((column_of c).index - offset == t.schema.key_column) choice ≡ true
    → (if is_knn choice.route then false else owner_fits (plain_access meta choice) t offset c)
      ≡ true
unfolding owner_fits choice_respects choice_fits
owned_leaf t meta c offset choice p q = ground arith

-- A source before nearest points and limits are moved into it: its checks hold.
abbrev pub IsPlain : {F : Type 0} → PhysicalSource F → Type 0
IsPlain (leaf a) =
    (is_some a.nearest ≡ false) × (is_some a.text_limit ≡ false) × (is_access a ≡ true)
IsPlain (joined l r j) = Unit {0}

abbrev pub is_leaf : {F : Type 0} → PhysicalSource F → Bool
is_leaf (leaf a) = true
is_leaf (joined l r j) = false

-- What the plan of one leaf is worth to the checks of the whole.
record LeafPlan {F : Type 0} (t : BoundTableRef) (meta : TableMetadata)
    (condition : Option (BoundCondition F)) (owner : Option ℕ) (first offset : ℕ) (allowed : Bool)
    : Type 0 where
  access : PhysicalTableAccess F
  planned : optimize_leaf t meta condition (is_owner owner first) offset allowed ≡ ok (leaf access)
  named : access.table ≡ meta
  plain : IsPlain (leaf access)
  fits : (bound : BoundSource) → leaf_fits bound condition owner first access t offset ≡ true

module _ {F : Type 0} (t : BoundTableRef) (meta : TableMetadata) (owner : Option ℕ)
    (first offset : ℕ) (allowed : Bool) where
  scan_LeafPlan :
      (condition : Option (BoundCondition F))
      → is_owner owner first ≡ false
      → LeafPlan t meta condition owner first offset allowed
  unfolding leaf_fits
  scan_LeafPlan condition h = record {
    access = plain_access meta (bare scan false);
    planned = rw h (unfold optimize_leaf make_access is_access in refl);
    named = refl;
    plain = (refl, refl, unfold is_access in refl);
    fits = λ bound. fit bound condition;
  }
    where
      fit :
          (bound : BoundSource) (condition : Option (BoundCondition F))
          → leaf_fits bound condition owner first (plain_access meta (bare scan false)) t offset
            ≡ true
      fit bound none = unfold leaf_fits in refl
      fit bound (some c) = rw (h, leaf_fits) (refl)

  owner_LeafPlan :
      (c : BoundCondition F)
      → is_owner owner first ≡ true
      → is_similar_to_vector c ≡ true
      → can_answer c meta ((column_of c).index - offset) ≡ true
      → LeafPlan t meta (some c) owner first offset allowed
  owner_LeafPlan c h v a = record {
    access = plain_access meta choice;
    planned = rw h (
        unfold optimize_leaf make_access in
        rw chosen (rw (choice_fits-is_access F meta column choice fitting)));
    named = refl;
    plain = (refl, refl, choice_fits-is_access F meta column choice fitting);
    fits = λ bound. unfold leaf_fits in rw h (owned_leaf t meta c offset choice fitting respects);
  }
    where
      column : ℕ
      column = (column_of c).index - offset

      open (choose_access-Chosen c column t.schema.key_column meta allowed a) use {
        choice, chosen, respects,
      }

      fitting : choice_fits meta column choice ≡ true
      fitting = choose_access-fits c column t.schema.key_column meta allowed v chosen

choose_probe-exclusive :
    {F : Type 0} (right : BoundSource) (c : BoundColumnReference) (source : PhysicalSource F)
    → (is_some (choose_probe right c source).0 && (choose_probe right c source).1) ≡ false
unfolding choose_probe
choose_probe-exclusive right c (joined l r j) = refl
choose_probe-exclusive right c (leaf a) = ground arith

make_join-join_node :
    {F : Type 0} (l r : PhysicalSource F) (lc rc : BoundColumnReference) (residual : Bool)
    (probe : Option IndexMetadata × Bool)
    → (is_some probe.0 && probe.1) ≡ false
    → make_join l r (join_node lc rc residual probe)
      ≡ ok (joined l r (join_node lc rc residual probe))
unfolding make_join is_join
make_join-join_node l r lc rc residual probe h = ground arith

module _ {F : Type 0} (catalogue : Dict TableMetadata) (condition : Option (BoundCondition F))
    (owner : Option ℕ) (allowed : Bool) (agree : condition ≡ none → owner ≡ none)
    (vectors : (c : BoundCondition F) → condition ≡ some c → is_similar_to_vector c ≡ true) where
  pub record SourcePlan (source : BoundSource) (first offset : ℕ) : Type 0 where
    pub physical : PhysicalSource F
    pub plain : IsPlain physical
    pub shaped : is_leaf physical ≡ one_table source
    pub planned :
        optimize_source source catalogue condition owner first offset allowed ≡ ok physical
    pub fits :
        (bound : BoundSource) (as' : List (PhysicalTableAccess F)) (ts : List (BoundTableRef × ℕ))
        → all_fit bound condition owner first
            (physical_leaves physical ++ as')
            (leaves source offset ++ ts)
          ≡ all_fit bound condition owner (first + leaf_count source) as' ts

  leaf_LeafPlan :
      (t : BoundTableRef) (meta : TableMetadata) (first offset : ℕ)
      (known : Option (BoundCondition F))
      → known ≡ condition
      → OwnerAnswers catalogue condition owner meta first offset
      → LeafPlan t meta condition owner first offset allowed
  leaf_LeafPlan t meta first offset none e a =
      let none_owner = agree (sym e) in
      scan_LeafPlan t meta owner first offset allowed condition (rw none_owner)
  leaf_LeafPlan t meta first offset (some c) e a = elim (Bool-cases (is_owner owner first)) [
    | inl here ↦ rw (← e) (
        owner_LeafPlan t meta owner first offset allowed c here (vectors c (sym e))
          (a c (sym e) here))
    | inr there ↦ scan_LeafPlan t meta owner first offset allowed condition there
  ]

  pub optimize_source-SourcePlan :
      (source : BoundSource) (first offset : ℕ)
      → IsKnown catalogue condition owner source first offset
      → SourcePlan source first offset
  unfolding optimize_source physical_leaves leaves leaf_count
  optimize_source-SourcePlan (table t) first offset (meta, found, name, a) = record {
    physical = leaf access;
    plain = plain;
    shaped = refl;
    planned = rw (found, optimize_source) planned;
    fits = λ bound as' ts. unfold all_fit in rw (same_name, fits bound);
  }
    where
      open (leaf_LeafPlan t meta first offset condition refl a) use {
        access, planned, named, plain, fits,
      }

      same_name : str_eq access.table.name t.schema.table_name ≡ true
      same_name = rw named name
  optimize_source-SourcePlan (join l r lc rc s span) first offset (kl, kr) =
      both (optimize_source-SourcePlan l first offset kl) (
        optimize_source-SourcePlan r (first + leaf_count l) (offset + length (schema_of l).columns)
          kr)
    where
      both :
          SourcePlan l first offset
          → SourcePlan r (first + leaf_count l) (offset + length (schema_of l).columns)
          → SourcePlan (join l r lc rc s span) first offset
      both p q = record {
        physical =
            joined p.physical q.physical
              (join_node lc rc (is_some condition && is_none owner) (choose_probe r rc q.physical));
        plain = tt;
        shaped = refl;
        planned =
            rw (p.planned, q.planned)
              (make_join-join_node p.physical q.physical lc rc (is_some condition && is_none owner)
                (choose_probe r rc q.physical) (choose_probe-exclusive r rc q.physical));
        fits = λ bound as' ts.
            ap₂ (all_fit bound condition owner first)
              (append_assoc (physical_leaves p.physical) (physical_leaves q.physical) as')
              (append_assoc (leaves l offset) (leaves r (offset + length (schema_of l).columns)) ts)
            ∙ p.fits bound (physical_leaves q.physical ++ as')
                (leaves r (offset + length (schema_of l).columns) ++ ts)
            ∙ q.fits bound as' ts
            ∙ ap (λ i. all_fit bound condition owner i as' ts) (omega arith);
      }

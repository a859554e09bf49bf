-- ===== src/Planner/Steps.antt =====
-- engine/planner/plan.py: the tree of measured steps, what it sums up and the structures it used.
-- `F` is the type of the times.
pub mod Totals
pub mod Used
mod Tests
use quipudb.Prelude.{
  ℕ, ◌+◌, String, Bool, true, false, not, ◌&&◌, Option, List, [], ◌∷◌, ◌++◌, map, any,
  if◌then◌else◌,
}
use quipudb.Planner.Plan.{Op, Structure, memory}
use quipudb.Planner.Metadata.{is_structure}

pub record Stats : Type 0 where
  pub pages_read : ℕ
  pub pages_written : ℕ
  pub records_examined : ℕ
  pub records_returned : ℕ

-- `Stats.__add__`
abbrev pub add : Stats → Stats → Stats
add a b = record {
  pages_read = a.pages_read + b.pages_read;
  pages_written = a.pages_written + b.pages_written;
  records_examined = a.records_examined + b.records_examined;
  records_returned = a.records_returned + b.records_returned;
}

-- The fields of a step without its children.
pub record StepInfo (F : Type 0) : Type 0 where
  pub op : Op
  pub structure : Structure
  pub table : Option String
  pub column : Option String
  pub detail : String
  pub stats : Stats
  pub time_ms : F
  pub ranking : Option String
  pub metric : Option String

mutual
  pub data Step (F : Type 0) : Type 0 where
    step : StepInfo F → Steps F → Step F

  pub data Steps (F : Type 0) : Type 0 where
    no_more : Steps F
    child : Step F → Steps F → Steps F

abbrev pub info_of : {F : Type 0} → Step F → StepInfo F
info_of (step i cs) = i

unfoldable mutual
  pub subtree_stats : {F : Type 0} → Step F → Stats
  subtree_stats (step i cs) = add_children i.stats cs

  pub add_children : {F : Type 0} → Stats → Steps F → Stats
  add_children total no_more = total
  add_children total (child c cs) = add_children (add total (subtree_stats c)) cs

module _ {F : Type 0} (plus : F → F → F) (zero_ms : F) where
  -- `self.time_ms + sum(...)`, where `sum` begins with zero.
  unfoldable mutual
    pub subtree_time_ms : Step F → F
    subtree_time_ms (step i cs) = plus i.time_ms (sum_children zero_ms cs)

    pub sum_children : F → Steps F → F
    sum_children total no_more = total
    sum_children total (child c cs) = sum_children (plus total (subtree_time_ms c)) cs

unfoldable mutual
  pub walk : {F : Type 0} → Step F → List (Step F)
  walk (step i cs) = walk_children cs ++ step i cs ∷ []

  pub walk_children : {F : Type 0} → Steps F → List (Step F)
  walk_children no_more = []
  walk_children (child c cs) = walk c ++ walk_children cs

-- `structure in seen`
abbrev pub has : Structure → List Structure → Bool
has s seen = any (λ t. is_structure s t) seen

unfoldable pub collect : List Structure → List Structure → List Structure
collect seen [] = seen
collect seen (s ∷ more) =
    if not (is_structure s memory) && not (has s seen)
    then collect (seen ++ s ∷ []) more
    else collect seen more

unfoldable pub structures_used : {F : Type 0} → Step F → List Structure
unfolding collect walk
structures_used root = collect [] (map (λ s. (info_of s).structure) (walk root))

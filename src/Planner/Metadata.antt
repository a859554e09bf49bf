-- ===== src/Planner/Metadata.antt =====
-- engine/planner/optimizer.py: the catalogue's metadata, copied. Each `__post_init__` is a Boolean
-- check, whose `false` is its ValueError.
use Prim.Native.String.{compare}
use text.Mathlib.Text.{is_lt}
use quipudb.Prelude.{
  ℕ, String, Bool, true, false, not, ◌&&◌, ◌||◌, Option, none, some, List, [], ◌∷◌, str_eq, ◌==◌,
  if◌then◌else◌,
}
use quipudb.Planner.Plan.{
  Structure, structure_code, heap, sequential, bplus_clustered, bplus_unclustered, extendible_hash,
  rtree, inverted_index, ivf, hnsw,
}

pub record IndexMetadata : Type 0 where
  pub name : String
  pub column : ℕ
  pub structure : Structure
  pub supports_range : Bool

abbrev pub is_structure : Structure → Structure → Bool
is_structure s t = structure_code s == structure_code t

abbrev pub is_secondary : Structure → Bool
is_secondary bplus_unclustered = true
is_secondary extendible_hash = true
is_secondary rtree = true
is_secondary inverted_index = true
is_secondary ivf = true
is_secondary hnsw = true
is_secondary _ = false

abbrev pub same : Bool → Bool → Bool
same true b = b
same false b = not b

unfoldable pub is_index : IndexMetadata → Bool
is_index i =
    not (str_eq i.name "")
    && is_secondary i.structure
    && same i.supports_range (is_structure i.structure bplus_unclustered)

pub record TableMetadata : Type 0 where
  pub name : String
  pub structure : Structure
  pub indexes : List IndexMetadata
  pub rows : Option ℕ

abbrev is_organisation : Structure → Bool
is_organisation heap = true
is_organisation sequential = true
is_organisation bplus_clustered = true
is_organisation _ = false

unfoldable pub is_table : TableMetadata → Bool
is_table t = not (str_eq t.name "") && is_organisation t.structure

-- The equality of the dataclass, and `index in indexes`.
unfoldable pub index_eq : IndexMetadata → IndexMetadata → Bool
index_eq a b =
    str_eq a.name b.name
    && a.column == b.column
    && is_structure a.structure b.structure
    && same a.supports_range b.supports_range

unfoldable pub is_among : IndexMetadata → List IndexMetadata → Bool
unfolding index_eq
is_among i [] = false
is_among i (x ∷ xs) = index_eq i x || is_among i xs

-- `<` of Python texts, and `min` with a key: the first of the least.
abbrev pub text_lt : String → String → Bool
text_lt a b = is_lt (compare a b)

unfoldable pub min_of :
    (IndexMetadata → IndexMetadata → Bool) → IndexMetadata → List IndexMetadata → IndexMetadata
min_of less best [] = best
min_of less best (i ∷ is) = min_of less (if less i best then i else best) is

unfoldable pub min_by :
    (IndexMetadata → IndexMetadata → Bool) → List IndexMetadata → Option IndexMetadata
unfolding min_of
min_by less [] = none
min_by less (i ∷ is) = some (min_of less i is)

unfoldable pub keep : (IndexMetadata → Bool) → List IndexMetadata → List IndexMetadata
keep p [] = []
keep p (i ∷ is) = let rest = keep p is in if p i then i ∷ rest else rest

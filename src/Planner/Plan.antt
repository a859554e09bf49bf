-- ===== src/Planner/Plan.antt =====
-- engine/planner/plan.py: the operations and the structures that a step of a plan names.
use quipudb.Prelude.{ℕ}

pub data Op : Type 0 where
  scan search range_search index_search index_range radius_search knn_search polygon_search : Op
  text_search fetch filter project sort group join limit insert remove update : Op

pub data Structure : Type 0 where
  heap sequential bplus_clustered bplus_unclustered extendible_hash rtree : Structure
  inverted_index ivf hnsw external_sort external_hash memory : Structure

-- The number that stands for a member of the enumeration, to compare members.
abbrev pub structure_code : Structure → ℕ
structure_code heap = 0
structure_code sequential = 1
structure_code bplus_clustered = 2
structure_code bplus_unclustered = 3
structure_code extendible_hash = 4
structure_code rtree = 5
structure_code inverted_index = 6
structure_code ivf = 7
structure_code hnsw = 8
structure_code external_sort = 9
structure_code external_hash = 10
structure_code memory = 11

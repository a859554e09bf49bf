-- ===== src/Executor/Tests.antt =====
-- A table in memory as an instance of the native storage, and INSERT over it.
use quipudb.Prelude.{
  ℕ, suc, ◌-◌, ltb, String, ◌≡◌, refl, Bool, true, false, not, ◌&&◌, Option, none, some, List, [],
  ◌∷◌, length, get_elem?, str_eq, eq_refl, ◌==◌, ==_self, if◌then◌else◌, arith,
}
use quipudb.Planner.Plan.{bplus_unclustered}
use quipudb.Planner.Metadata.{IndexMetadata}
use quipudb.Executor.Storage.{Storage, IsIndexing}
use quipudb.Executor.Dml.{raised, native_error, insert_with_indexes}
use quipudb.Executor.Dml.Insert.{IsComplete, insert_with_indexes-IsComplete}

-- The rows, the last first; a row's identifier is the number of rows before it.
record Memory : Type 0 where
  rows : List (List ℕ)
  entries : String → ℕ → ℕ → Bool

abbrev is_at : String → ℕ → ℕ → String → ℕ → ℕ → Bool
is_at i k r j l q = str_eq i j && k == l && r == q

abbrev set_entry : Bool → String → ℕ → ℕ → Memory → Memory
set_entry b i k r d = record d {
  entries = λ j l q. if is_at i k r j l q then b else d.entries j l q;
}

-- A row without values is refused.
abbrev insert : List ℕ → Memory → Memory × Option ℕ
insert [] d = (d, none)
insert (v ∷ vs) d = (
  record {
    rows = (v ∷ vs) ∷ d.rows;
    entries = λ i k r. if r == length d.rows then false else d.entries i k r;
  },
  some (length d.rows),
)

-- The key stands in the first column, and is looked for in the last row.
abbrev remove : ℕ → List (List ℕ) → List (List ℕ) × ℕ
remove k ((v ∷ vs) ∷ rows) = if k == v then (rows, 1) else ((v ∷ vs) ∷ rows, 0)
remove k other = (other, 0)

-- An index named "full" raises, and leaves the entry half done.
abbrev memory : Storage Memory ℕ ℕ
memory = record {
  has_table = λ t d. str_eq t "places";
  has_index = λ t i d. true;
  insert_row = λ t vs d. insert vs d;
  remove_rows = λ t k d. (record d { rows = (remove k d.rows).0 }, some (remove k d.rows).1);
  read_row = λ t r d.
      if ltb r (length d.rows) then some (get_elem? d.rows (length d.rows - suc r)) else some none;
  insert_entry = λ t i k r d. (set_entry true i k r d, not (str_eq i "full"));
  remove_entry = λ t i k r d. (set_entry false i k r d, some (d.entries i k r));
}

is_at_itself : (i : String) (k r : ℕ) → is_at i k r i k r ≡ true
is_at_itself i k r = ground (arith, eq_refl i, ==_self k, ==_self r)

memory-IsIndexing : IsIndexing memory "places"
memory-IsIndexing = record {
  has_entry = λ i k r d. d.entries i k r;
  entry_added = λ i k r d h. rw (is_at_itself i k r) refl;
  entry_kept = λ i j k l r q d h. ground arith;
}

abbrev index_on : String → ℕ → IndexMetadata
index_on name column = record {
  name = name;
  column = column;
  structure = bplus_unclustered;
  supports_range = true;
}

abbrev nothing_stored : Memory
nothing_stored = record { rows = []; entries = λ i k r. false }

insert_with_indexes-IsComplete_example :
    IsComplete memory-IsIndexing (7 ∷ 8 ∷ []) (index_on "by_id" 0 ∷ index_on "by_city" 1 ∷ []) (
      insert_with_indexes memory "places"
        (7 ∷ 8 ∷ [])
        0
        (index_on "by_id" 0 ∷ index_on "by_city" 1 ∷ [])
        nothing_stored)
insert_with_indexes-IsComplete_example =
    insert_with_indexes-IsComplete memory-IsIndexing (7 ∷ 8 ∷ []) 0
      (index_on "by_id" 0 ∷ index_on "by_city" 1 ∷ []) nothing_stored refl

-- An index that raises.
raises :
    (d : Memory) × (insert_with_indexes memory "places"
        (7 ∷ 8 ∷ [])
        0
        (index_on "by_city" 1 ∷ index_on "full" 1 ∷ [])
        nothing_stored
      ≡ raised native_error d)
unfolding insert_with_indexes
raises = (_, refl)

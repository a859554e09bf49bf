-- ===== src/Executor/Dml.antt =====
-- engine/executor/dml.py: INSERT and DELETE over a table and its secondary indexes, with their
-- compensations. A candidate's identity (`is`) is its place among the candidates.
pub mod Insert
use mathlib.Core.List.{reverse}
use quipudb.Prelude.{
  ℕ, zero, suc, String, Bool, true, false, not, ◌&&◌, ◌||◌, Option, none, some, List, [], ◌∷◌, ◌++◌,
  length, get_elem?, any, all, ltb, ◌==◌, if◌then◌else◌,
}
use quipudb.Planner.Metadata.{IndexMetadata}
use quipudb.Executor.Storage.{Storage}

pub data DmlError : Type 0 where
  native_error index_error missing_entry vanished_row schema_mismatch : DmlError
  duplicate_key missing_rid duplicate_rid : DmlError

-- A call that returns or raises, with the database that it leaves.
pub data Written (D A : Type 0) : Type 0 where
  returned : A → D → Written D A
  raised : DmlError → D → Written D A

pub record DeleteCandidate (V R : Type 0) : Type 0 where
  pub rid : Option R
  pub row : List V

-- The loop over the indexes: it has come to its end, or an exception has left it.
pub data Adding (D V : Type 0) : Type 0 where
  added : D → Adding D V
  broken : DmlError → List (String × V) → D → Adding D V

module _ {D V R : Type 0} (s : Storage D V R) (table : String) where
  abbrev pub opens : List IndexMetadata → D → Bool
  opens indexes d = s.has_table table d && all (λ i. s.has_index table i.name d) indexes

  -- `key = values[column]`, the pair noted in `attempted`, `index.insert(key, rid)`.
  unfoldable pub add_entries : List V → R → List IndexMetadata → List (String × V) → D → Adding D V
  add_entries values rid [] attempted d = added d
  add_entries values rid (i ∷ indexes) attempted d = elim (get_elem? values i.column) [
    | none ↦ broken index_error attempted d
    | some key ↦ elim (s.insert_entry table i.name key rid d).1 [
      | false ↦
          broken native_error (attempted ++ (i.name, key) ∷ [])
            (s.insert_entry table i.name key rid d).0
      | true ↦
          add_entries values rid indexes (attempted ++ (i.name, key) ∷ [])
            (s.insert_entry table i.name key rid d).0
    ]
  ]

  -- `index.remove_one(key, rid)`, its exceptions suppressed, for each pair.
  unfoldable pub drop_entries : R → List (String × V) → D → D
  drop_entries rid [] d = d
  drop_entries rid ((name, key) ∷ pairs) d =
      drop_entries rid pairs (s.remove_entry table name key rid d).0

  -- `table.remove(values[key_column])`, its exceptions suppressed.
  abbrev pub drop_row : List V → ℕ → D → D
  drop_row values key_column d = elim (get_elem? values key_column) [
    | none ↦ d
    | some key ↦ (s.remove_rows table key d).0
  ]

  pub finish_insert : List V → ℕ → R → Adding D V → Written D R
  unfolding drop_entries
  finish_insert values key_column rid (added d) = returned rid d
  finish_insert values key_column rid (broken e attempted d) =
      raised e (drop_row values key_column (drop_entries rid (reverse attempted) d))

  unfoldable pub insert_with_indexes : List V → ℕ → List IndexMetadata → D → Written D R
  unfolding add_entries finish_insert
  insert_with_indexes values key_column indexes d =
      if opens indexes d
      then elim (s.insert_row table values d).1 [
        | none ↦ raised native_error (s.insert_row table values d).0
        | some rid ↦
            finish_insert values key_column rid
              (add_entries values rid indexes [] (s.insert_row table values d).0)
      ]
      else raised native_error d

-- ===== src/Executor/Deletes.antt =====
-- engine/executor/dml.py: DELETE of candidates that have been read, from the indexes and then from
-- the table. A candidate's identity (`is`) is its place among the candidates.
use mathlib.Core.List.{reverse}
use quipudb.Prelude.{
  ℕ, suc, String, Bool, true, false, not, ◌&&◌, Option, none, some, List, [], ◌∷◌, ◌++◌, length,
  get_elem?, any, all, ltb, ◌==◌, if◌then◌else◌,
}
use quipudb.Planner.Metadata.{IndexMetadata}
use quipudb.Planner.Source.{is_nil}
use quipudb.Executor.Storage.{Storage}
use quipudb.Executor.Dml.{
  DmlError, native_error, index_error, missing_entry, vanished_row, schema_mismatch, duplicate_key,
  missing_rid, duplicate_rid, Written, returned, raised, DeleteCandidate, opens,
}

pub record Placed (V R : Type 0) : Type 0 where
  pub place : ℕ
  pub candidate : DeleteCandidate V R

-- `_RemovedIndexEntry`
pub record RemovedEntry (V R : Type 0) : Type 0 where
  pub owner : Placed V R
  pub index : String
  pub key : V

-- The loops over indexes and over rows: at their end, or left by an exception.
pub data Clearing (D V R : Type 0) : Type 0 where
  cleared : List (RemovedEntry V R) → D → Clearing D V R
  stopped : DmlError → List (RemovedEntry V R) → D → Clearing D V R

pub data Dropping (D V R : Type 0) : Type 0 where
  dropped : D → Dropping D V R
  halted : DmlError → List (Placed V R) → D → Dropping D V R

abbrev pub number : {V R : Type 0} → ℕ → List (DeleteCandidate V R) → List (Placed V R)
number n [] = []
number n (c ∷ cs) = record { place = n; candidate = c } ∷ number (suc n) cs

module _ {V R : Type 0} (value_eq : V → V → Bool) (rid_eq : R → R → Bool) where
  abbrev fits_columns : ℕ → List IndexMetadata → List V → Bool
  fits_columns key_column indexes row =
      ltb key_column (length row) && all (λ i. ltb i.column (length row)) indexes

  -- `_validate_delete_candidates`, with the keys and the identifiers seen so far.
  unfoldable pub validate_candidates :
      List (DeleteCandidate V R) → ℕ → List IndexMetadata → List V → List R → Option DmlError
  validate_candidates [] key_column indexes keys rids = none
  validate_candidates (c ∷ cs) key_column indexes keys rids =
      if not (fits_columns key_column indexes c.row)
      then some schema_mismatch
      else elim (get_elem? c.row key_column) [
        | none ↦ some schema_mismatch
        | some key ↦
            if any (value_eq key) keys
            then some duplicate_key
            else if is_nil indexes
            then validate_candidates cs key_column indexes (keys ++ key ∷ []) rids
            else elim c.rid [
              | none ↦ some missing_rid
              | some rid ↦
                  if any (rid_eq rid) rids
                  then some duplicate_rid
                  else validate_candidates cs key_column indexes (keys ++ key ∷ [])
                      (rids ++ rid ∷ [])
            ]
      ]

module _ {D V R : Type 0} (s : Storage D V R) (table : String) where
  -- One candidate's entries.
  unfoldable pub clear_candidate :
      Placed V R → List IndexMetadata → List (RemovedEntry V R) → D → Clearing D V R
  clear_candidate p [] entries d = cleared entries d
  clear_candidate p (i ∷ indexes) entries d = elim (get_elem? p.candidate.row i.column) [
    | none ↦ stopped index_error entries d
    | some key ↦ elim p.candidate.rid [
      | none ↦ stopped native_error entries d
      | some rid ↦ elim (s.remove_entry table i.name key rid d).1 [
        | none ↦ stopped native_error entries (s.remove_entry table i.name key rid d).0
        | some there ↦ elim there [
          | false ↦ stopped missing_entry entries (s.remove_entry table i.name key rid d).0
          | true ↦
              clear_candidate p indexes
                (entries ++ record { owner = p; index = i.name; key = key } ∷ [])
                (s.remove_entry table i.name key rid d).0
        ]
      ]
    ]
  ]

  unfoldable pub clear_entries :
      List (Placed V R) → List IndexMetadata → List (RemovedEntry V R) → D → Clearing D V R
  unfolding clear_candidate
  clear_entries [] indexes entries d = cleared entries d
  clear_entries (p ∷ ps) indexes entries d = elim (clear_candidate p indexes entries d) [
    | stopped e more now ↦ stopped e more now
    | cleared more now ↦ clear_entries ps indexes more now
  ]

  unfoldable pub drop_rows : List (Placed V R) → ℕ → List (Placed V R) → D → Dropping D V R
  drop_rows [] key_column rows d = dropped d
  drop_rows (p ∷ ps) key_column rows d = elim (get_elem? p.candidate.row key_column) [
    | none ↦ halted index_error rows d
    | some key ↦ elim (s.remove_rows table key d).1 [
      | none ↦ halted native_error rows (s.remove_rows table key d).0
      | some n ↦ elim (n == 1) [
        | true ↦ drop_rows ps key_column (rows ++ p ∷ []) (s.remove_rows table key d).0
        | false ↦ halted vanished_row rows (s.remove_rows table key d).0
      ]
    ]
  ]

  -- The first loop of `_rollback_delete`; its exceptions are suppressed.
  unfoldable pub restore_rows : List (Placed V R) → List (ℕ × R) → D → List (ℕ × R) × D
  restore_rows [] restored d = (restored, d)
  restore_rows (p ∷ ps) restored d = elim (s.insert_row table p.candidate.row d).1 [
    | none ↦ restore_rows ps restored (s.insert_row table p.candidate.row d).0
    | some rid ↦
        restore_rows ps (restored ++ (p.place, rid) ∷ []) (s.insert_row table p.candidate.row d).0
  ]

  abbrev find_place : ℕ → List (ℕ × R) → Option R
  find_place place [] = none
  find_place place ((other, rid) ∷ more) =
      if other == place then some rid else find_place place more

  -- The last lines of `_restored_rid`: the row still stands under its identifier.
  abbrev pub standing_rid : Option R → D → Option R
  standing_rid none d = none
  standing_rid (some rid) d = elim (s.read_row table rid d) [
    | none ↦ none
    | some row ↦ elim row [ none ↦ none | some values ↦ some rid ]
  ]

  -- `_restored_rid`
  unfoldable pub restored_rid : Placed V R → List (Placed V R) → List (ℕ × R) → D → Option R
  restored_rid p rows restored d = elim (find_place p.place restored) [
    | some rid ↦ some rid
    | none ↦ if any (λ q. q.place == p.place) rows then none else standing_rid p.candidate.rid d
  ]

  -- The second loop of `_rollback_delete`.
  unfoldable pub restore_entries :
      List (RemovedEntry V R) → List (Placed V R) → List (ℕ × R) → D → D
  unfolding restored_rid
  restore_entries [] rows restored d = d
  restore_entries (e ∷ es) rows restored d = elim (restored_rid e.owner rows restored d) [
    | none ↦ restore_entries es rows restored d
    | some rid ↦ restore_entries es rows restored (s.insert_entry table e.index e.key rid d).0
  ]

  unfoldable pub rollback_delete : List (RemovedEntry V R) → List (Placed V R) → D → D
  unfolding restore_rows restore_entries
  rollback_delete entries rows d =
      let (restored, now) = restore_rows (reverse rows) [] d in
      restore_entries (reverse entries) rows restored now

  pub finish_delete : ℕ → List (RemovedEntry V R) → Dropping D V R → Written D ℕ
  unfolding rollback_delete
  finish_delete count entries (dropped d) = returned count d
  finish_delete count entries (halted e rows d) = raised e (rollback_delete entries rows d)

  -- What follows the loop over the indexes.
  pub continue_delete : List (Placed V R) → ℕ → Clearing D V R → Written D ℕ
  unfolding drop_rows rollback_delete finish_delete
  continue_delete ps key_column (stopped e entries d) = raised e (rollback_delete entries [] d)
  continue_delete ps key_column (cleared entries d) =
      finish_delete (length ps) entries (drop_rows ps key_column [] d)

  unfoldable pub delete_with_indexes :
      (V → V → Bool)
      → (R → R → Bool)
      → List (DeleteCandidate V R)
      → ℕ
      → List IndexMetadata
      → D
      → Written D ℕ
  unfolding validate_candidates clear_entries continue_delete
  delete_with_indexes value_eq rid_eq candidates key_column indexes d =
      if opens s table indexes d
      then elim (validate_candidates value_eq rid_eq candidates key_column indexes [] []) [
        | some e ↦ raised e d
        | none ↦
            continue_delete (number 0 candidates) key_column
              (clear_entries (number 0 candidates) indexes [] d)
      ]
      else raised native_error d

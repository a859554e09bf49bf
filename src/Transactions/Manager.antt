-- ===== src/Transactions/Manager.antt =====
-- engine/transactions/locks.py, `LockManager`: one lock for each table, created on first use.
pub mod Views
use quipudb.Prelude.{ℕ, String, none, some, List, [], ◌∷◌}
use quipudb.Prelude.Dict.{Dict, find, put}
use quipudb.Transactions.Locks
use quipudb.Transactions.Locks.{LockMode, TableLock, new_lock, Wake, Outcome}

pub record LockManager : Type 0 where
  pub locks : Dict TableLock

abbrev pub new_manager : LockManager
new_manager = record { locks = [] }

unfoldable pub lock_for : String → LockManager → TableLock × LockManager
lock_for name m = elim (find name m.locks) [
  | some lock ↦ (lock, m)
  | none ↦ (new_lock, record m { locks = put name new_lock m.locks })
]

-- The table's lock is one object: what `acquire` does to it is seen under its name.
unfoldable pub acquire : String → ℕ → LockMode → ℕ → List Wake → LockManager → LockManager × Outcome
acquire name owner mode deadline wakes m =
    let (lock, m') = lock_for name m in
    let (lock', outcome) = Locks.acquire lock owner mode deadline wakes in
    (record m' { locks = put name lock' m'.locks }, outcome)

unfoldable pub release : String → ℕ → LockManager → LockManager
release name owner m = elim (find name m.locks) [
  | some lock ↦ record m { locks = put name (Locks.release lock owner) m.locks }
  | none ↦ m
]

unfoldable pub release_all : ℕ → List String → LockManager → LockManager
unfolding release
release_all owner [] m = m
release_all owner (name ∷ names) m = release_all owner names (release name owner m)

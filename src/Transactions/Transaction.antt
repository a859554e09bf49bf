-- ===== src/Transactions/Transaction.antt =====
-- engine/transactions/transaction.py: the undo log and the locks of one transaction. The database
-- `D` and the closures that undo an operation are the program's; a closure that raises leaves the
-- database where it got to.
pub mod TwoPhase
use quipudb.Prelude.{ℕ, String, Bool, true, false, Option, none, some, List, [], ◌∷◌, ◌++◌}
use mathlib.Core.List.{reverse}
use quipudb.Prelude.Dict.{Dict, find, put, keys}
use quipudb.Transactions.Locks.{LockMode, shared, exclusive, Wake, Outcome, acquired}
use quipudb.Transactions.Manager
use quipudb.Transactions.Manager.{LockManager}

-- What a call of an undo closure leaves behind.
pub record Undone (D : Type 0) : Type 0 where
  pub db : D
  pub raised : Bool

pub record Transaction (D : Type 0) : Type 0 where
  pub undo_actions : List (D → Undone D)
  pub owner : ℕ
  pub locked_tables : Dict LockMode

-- The current mode makes the request unnecessary.
is_enough : Option LockMode → LockMode → Bool
is_enough none mode = false
is_enough (some exclusive) mode = true
is_enough (some shared) shared = true
is_enough (some shared) exclusive = false

module _ {D : Type 0} where
  unfoldable pub begin : ℕ → Transaction D
  begin owner = record { undo_actions = []; owner = owner; locked_tables = [] }

  -- Only a call of `acquire` that returns is recorded; a timeout leaves by the exception.
  lock_recorded :
      Transaction D
      → String
      → LockMode
      → LockManager × Outcome
      → Transaction D × LockManager × Outcome
  lock_recorded t name mode (m, acquired) =
      (record t { locked_tables = put name mode t.locked_tables }, m, acquired)
  lock_recorded t name mode (m, other) = (t, m, other)

  unfoldable pub ensure_lock :
      Transaction D
      → String
      → LockMode
      → ℕ
      → List Wake
      → LockManager
      → Transaction D × LockManager × Outcome
  unfolding is_enough lock_recorded
  ensure_lock t name mode deadline wakes m = elim (is_enough (find name t.locked_tables) mode) [
    | true ↦ (t, m, acquired)
    | false ↦ lock_recorded t name mode (Manager.acquire name t.owner mode deadline wakes m)
  ]

  -- `record_insert` and `record_delete` append the closure that undoes what was just applied.
  unfoldable pub record_undo : Transaction D → (D → Undone D) → Transaction D
  record_undo t undo = record t { undo_actions = t.undo_actions ++ undo ∷ [] }

  unfoldable pub release_locks : Transaction D → LockManager → Transaction D × LockManager
  release_locks t m =
      (record t { locked_tables = [] }, Manager.release_all t.owner (keys t.locked_tables) m)

  unfoldable pub commit : Transaction D → LockManager → Transaction D × LockManager
  unfolding release_locks
  commit t m = release_locks (record t { undo_actions = [] }) m

  -- `with suppress(Exception): undo()` for each closure.
  unfoldable pub undo_all : List (D → Undone D) → D → D
  undo_all [] db = db
  undo_all (undo ∷ undos) db = undo_all undos (undo db).db

  unfoldable pub rollback : Transaction D → LockManager → D → Transaction D × LockManager × D
  unfolding release_locks undo_all
  rollback t m db =
      let db' = undo_all (reverse t.undo_actions) db in
      let (t', m') = release_locks (record t { undo_actions = [] }) m in (t', m', db')

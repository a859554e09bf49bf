-- ===== src/Transactions/Session.antt =====
-- engine/executor/processor.py: the transaction that a QueryProcessor keeps, and the locks that it
-- takes for a statement. The owner of a new transaction is its identity.
pub mod Ending
use quipudb.Prelude.{ℕ, String, Option, none, some, List}
use quipudb.Transactions.Locks.{LockMode, Wake, Outcome, acquired, timed_out, waiting}
use quipudb.Transactions.Manager
use quipudb.Transactions.Manager.{LockManager}
use quipudb.Transactions.Transaction.{Transaction, begin, ensure_lock, commit, rollback}

pub record Session (D : Type 0) : Type 0 where
  pub transaction : Option (Transaction D)
  pub manager : LockManager
  pub db : D
  pub autocommit_owner : ℕ

-- How a call ends: it returns, it raises, or it still waits for a lock.
pub data Ended : Type 0 where
  returned transaction_error lock_timeout still_waiting : Ended

module _ {D : Type 0} where
  -- `_begin_transaction`
  unfoldable pub begin_transaction : ℕ → Session D → Session D × Ended
  unfolding begin
  begin_transaction owner s = elim s.transaction [
    | some t ↦ (s, transaction_error)
    | none ↦ (record s { transaction = some (begin owner) }, returned)
  ]

  abbrev pub after_commit : Session D → Transaction D → Session D
  after_commit s t = record s { transaction = none; manager = (commit t s.manager).1 }

  abbrev pub after_rollback : Session D → Transaction D → LockManager → Session D
  after_rollback s t m = record s {
    transaction = none;
    manager = (rollback t m s.db).1;
    db = (rollback t m s.db).2;
  }

  -- `_end_transaction`
  unfoldable pub end_transaction : Session D → Session D × Ended
  end_transaction s = elim s.transaction [
    | none ↦ (s, transaction_error)
    | some t ↦ (after_commit s t, returned)
  ]

  -- `rollback`
  unfoldable pub abandon : Session D → Session D × Ended
  abandon s = elim s.transaction [
    | none ↦ (s, transaction_error)
    | some t ↦ (after_rollback s t s.manager, returned)
  ]

  -- `_fail_in_transaction`
  unfoldable pub fail_in_transaction : Session D → Session D
  fail_in_transaction s = elim s.transaction [ none ↦ s | some t ↦ after_rollback s t s.manager ]

  -- What `_lock_or_abort` makes of `ensure_lock`: a timeout undoes the transaction.
  unfoldable pub locked_in : Session D → Transaction D × LockManager × Outcome → Session D × Ended
  unfolding fail_in_transaction
  locked_in s (t, m, acquired) = (record s { transaction = some t; manager = m }, returned)
  locked_in s (t, m, waiting) = (record s { transaction = some t; manager = m }, still_waiting)
  locked_in s (t, m, timed_out) =
      (fail_in_transaction (record s { transaction = some t; manager = m }), lock_timeout)

  unfoldable pub locked_alone : Session D → LockManager × Outcome → Session D × Ended
  locked_alone s (m, acquired) = (record s { manager = m }, returned)
  locked_alone s (m, waiting) = (record s { manager = m }, still_waiting)
  locked_alone s (m, timed_out) = (record s { manager = m }, lock_timeout)

  -- `_lock_or_abort`
  unfoldable pub lock_or_abort : String → LockMode → ℕ → List Wake → Session D → Session D × Ended
  unfolding locked_in locked_alone
  lock_or_abort name mode deadline wakes s = elim s.transaction [
    | some t ↦ locked_in s (ensure_lock t name mode deadline wakes s.manager)
    | none ↦ locked_alone s (Manager.acquire name s.autocommit_owner mode deadline wakes s.manager)
  ]

  -- `_release_autocommit`
  unfoldable pub release_autocommit : String → Session D → Session D
  release_autocommit name s = elim s.transaction [
    | some t ↦ s
    | none ↦ record s { manager = Manager.release name s.autocommit_owner s.manager }
  ]

-- ===== src/Transactions/Tests.antt =====
-- Runs of the lock manager and of transactions at concrete inputs.
use quipudb.Prelude.{
  none, ℕ, String, ◌≡◌, ◌≢◌, refl, inl, true, false, some, List, [], ◌∷◌, ◌==◌, if◌then◌else◌,
}
use quipudb.Prelude.Dict.{find, put}
use quipudb.Transactions.Locks
use quipudb.Transactions.Locks.{
  LockMode, shared, exclusive, TableLock, new_lock, try_acquire, LockOp, attempt, give_back, run,
  Wake, Outcome, acquired, timed_out, waiting, acquire,
}
use quipudb.Transactions.Locks.Owners
use quipudb.Transactions.Locks.Owners.{contains}
use quipudb.Transactions.Locks.Validity.{
  IsValid, new_lock-IsValid, run-IsValid, exclusive_owner_is_alone,
}
use quipudb.Transactions.Locks.Granting.{is_compatible, Covers, try_acquire-granted}
use quipudb.Transactions.Locks.Waiting.{
  is_past, sleeps, are_by_others, acquire-ne-waiting, contains-acquire_failed, run_others-Covers,
}
use quipudb.Transactions.Manager
use quipudb.Transactions.Manager.{LockManager, new_manager}
use quipudb.Transactions.Manager.Views.{mode_held, lock_of, holds}
use quipudb.Transactions.Session.{
  Session, lock_timeout, end_transaction, abandon, fail_in_transaction, lock_or_abort,
}
use quipudb.Transactions.Session.Ending.{IsOver, ending-IsOver}
use quipudb.Transactions.Transaction.{Transaction, begin, ensure_lock, commit}
use quipudb.Transactions.Transaction.TwoPhase.{
  IsRecorded, IsBacked, AllValid, ensure_lock-Covers, ensure_lock-IsBacked, ensure_lock-IsRecorded,
  mode_held-commit,
}

-- Two readers come and go, then a writer that asks twice.
abbrev busy_day : List LockOp
busy_day =
    attempt 1 shared
    ∷ attempt 2 shared
    ∷ attempt 1 exclusive
    ∷ give_back 2
    ∷ attempt 1 exclusive
    ∷ attempt 1 shared
    ∷ attempt 3 shared
    ∷ []

busy_day_end : run new_lock busy_day ≡ record { mode = some exclusive; owners = 1 ∷ [] }
unfolding run Owners.contains Owners.add Owners.discard
busy_day_end = refl

abbrev two_readers : List LockOp
two_readers = attempt 1 shared ∷ attempt 2 shared ∷ []

exclusive_owner_is_alone_example : ◌≡◌ {A = ℕ} 1 1
unfolding run Owners.contains Owners.add Owners.discard
exclusive_owner_is_alone_example = exclusive_owner_is_alone busy_day 1 1 refl refl refl

two_readers-IsValid : IsValid (run new_lock two_readers)
two_readers-IsValid = run-IsValid new_lock two_readers new_lock-IsValid

try_acquire-granted_example :
    (try_acquire (run new_lock two_readers) 2 exclusive).1
    ≡ is_compatible (run new_lock two_readers) 2 exclusive
try_acquire-granted_example =
    try_acquire-granted (run new_lock two_readers) 2 exclusive two_readers-IsValid

abbrev intruders : List LockOp
intruders = attempt 3 exclusive ∷ give_back 2 ∷ attempt 3 exclusive ∷ []

run_others-Covers_example :
    Covers (run (run new_lock two_readers) intruders).mode shared
    × (contains 1 (run (run new_lock two_readers) intruders).owners ≡ true)
unfolding run are_by_others Owners.contains Owners.add Owners.discard
run_others-Covers_example =
    run_others-Covers (run new_lock two_readers) 1 shared intruders two_readers-IsValid refl refl
      (inl refl)

-- Owner 2 wants to write; owner 1 stays until the deadline, 5.
abbrev patience : List Wake
patience = record { now = 1; others = attempt 1 shared ∷ [] } ∷ record { now = 6; others = [] } ∷ []

acquire-ne-waiting_example : (acquire (run new_lock two_readers) 2 exclusive 5 patience).1 ≢ waiting
unfolding is_past
acquire-ne-waiting_example =
    acquire-ne-waiting (run new_lock two_readers) 2 exclusive 5 patience refl

patience_end : (acquire (run new_lock two_readers) 2 exclusive 5 patience).1 ≡ timed_out
unfolding acquire run Owners.contains Owners.add Owners.discard
patience_end = refl

contains-acquire_failed_example :
    contains 2 (acquire (run new_lock two_readers) 2 exclusive 5 patience).0.owners
    ≡ contains 2 (run new_lock two_readers).owners
unfolding sleeps
contains-acquire_failed_example =
    contains-acquire_failed (run new_lock two_readers) 2 exclusive 5 patience refl
      (λ e. cc (patience_end, e))

-- A database that is a number, and a transaction of owner 7 on an empty manager.
abbrev fresh : Transaction ℕ
fresh = begin 7

fresh-IsRecorded : IsRecorded fresh new_manager
unfolding holds lock_of find Owners.contains begin
fresh-IsRecorded name h = cc

fresh-IsBacked : IsBacked fresh new_manager
unfolding find begin
fresh-IsBacked name mode e = cc

new_manager-AllValid : AllValid new_manager
unfolding lock_of find
new_manager-AllValid name = new_lock-IsValid

-- The table "docs" is asked for before anybody else asks for it.
abbrev step : Transaction ℕ × LockManager × Outcome
step = ensure_lock fresh "docs" exclusive 5 [] new_manager

ensure_lock-IsRecorded_example : IsRecorded step.0 step.1
unfolding sleeps
ensure_lock-IsRecorded_example =
    ensure_lock-IsRecorded fresh new_manager "docs" exclusive 5 [] refl fresh-IsRecorded

ensure_lock-IsBacked_example : IsBacked step.0 step.1
unfolding sleeps
ensure_lock-IsBacked_example =
    ensure_lock-IsBacked fresh new_manager "docs" exclusive 5 [] new_manager-AllValid refl
      fresh-IsBacked

step_end : step.2 ≡ acquired
unfolding ensure_lock Manager.acquire Manager.lock_for Locks.acquire find put begin Owners.contains
    Owners.add
step_end = refl

ensure_lock-Covers_example :
    Covers (lock_of step.1 "docs").mode exclusive × (holds step.1 "docs" fresh.owner ≡ true)
ensure_lock-Covers_example =
    ensure_lock-Covers fresh new_manager "docs" exclusive 5 [] new_manager-AllValid fresh-IsBacked
      step_end

mode_held-commit_example :
    (holds (commit step.0 step.1).1 "docs" 7
      ≡ (if step.0.owner == 7 then false else holds step.1 "docs" 7))
    × (mode_held (commit step.0 step.1).1 "docs" 7
        ≡ (if step.0.owner == 7 then none else mode_held step.1 "docs" 7))
mode_held-commit_example = mode_held-commit step.0 step.1 "docs" 7 ensure_lock-IsRecorded_example

-- A session in the middle of the transaction that holds "docs".
abbrev held_session : Session ℕ
held_session = record { transaction = some step.0; manager = step.1; db = 4; autocommit_owner = 1 }

ending-IsOver_example :
    IsOver step.0.owner (end_transaction held_session).0
    × IsOver step.0.owner (abandon held_session).0
    × IsOver step.0.owner (fail_in_transaction held_session)
    × ((name : String) (mode : LockMode) (deadline : ℕ) (wakes : List Wake)
        → sleeps step.0.owner wakes ≡ true
        → (lock_or_abort name mode deadline wakes held_session).1 ≡ lock_timeout
        → IsOver step.0.owner (lock_or_abort name mode deadline wakes held_session).0)
ending-IsOver_example = ending-IsOver held_session step.0 refl ensure_lock-IsRecorded_example

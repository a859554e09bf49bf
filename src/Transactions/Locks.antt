-- ===== src/Transactions/Locks.antt =====
-- engine/transactions/locks.py: the shared/exclusive lock of one table. Owners are object
-- identities, here numbers; what other threads do while a thread waits on the condition variable,
-- and the readings of the monotonic clock, are the argument `wakes` of `acquire`.
pub mod Owners
pub mod Validity
pub mod Granting
pub mod Waiting
use quipudb.Prelude.{
  ℕ, Bool, true, false, Option, none, some, List, [], ◌∷◌, length, leb, ◌==◌, if◌then◌else◌,
}
use Owners.{contains, add, discard}

pub data LockMode : Type 0 where
  shared exclusive : LockMode

pub record TableLock : Type 0 where
  pub mode : Option LockMode
  pub owners : List ℕ

abbrev pub new_lock : TableLock
new_lock = record { mode = none; owners = [] }

-- The branch for an owner that is in the set already: reentrance and upgrade.
pub reacquire : TableLock → LockMode → TableLock × Bool
reacquire l shared = (l, true)
reacquire l exclusive = elim l.mode [
  | some m ↦ elim m [
    | exclusive ↦ (l, true)
    | shared ↦
        if length l.owners == 1 then (record l { mode = some exclusive }, true) else (l, false)
  ]
  | none ↦ if length l.owners == 1 then (record l { mode = some exclusive }, true) else (l, false)
]

-- The branch for a new owner.
pub enter : TableLock → ℕ → LockMode → TableLock × Bool
enter l owner mode = elim l.mode [
  | none ↦ (record { mode = some mode; owners = add owner l.owners }, true)
  | some held ↦ elim held [
    | shared ↦ elim mode [
      | shared ↦ (record l { owners = add owner l.owners }, true)
      | exclusive ↦ (l, false)
    ]
    | exclusive ↦ (l, false)
  ]
]

unfoldable pub try_acquire : TableLock → ℕ → LockMode → TableLock × Bool
unfolding reacquire enter
try_acquire l owner mode = if contains owner l.owners then reacquire l mode else enter l owner mode

unfoldable pub release : TableLock → ℕ → TableLock
release l owner =
    let left = discard owner l.owners in
    record { mode = (elim left [ [] ↦ none | _ ∷ _ ↦ l.mode ]); owners = left }

-- What any thread may do to the lock in one turn: an attempt or a release.
pub data LockOp : Type 0 where
  attempt : ℕ → LockMode → LockOp
  give_back : ℕ → LockOp

unfoldable pub apply : TableLock → LockOp → TableLock
unfolding try_acquire release
apply l (attempt owner mode) = (try_acquire l owner mode).0
apply l (give_back owner) = release l owner

unfoldable pub run : TableLock → List LockOp → TableLock
unfolding apply
run l [] = l
run l (op ∷ ops) = run (apply l op) ops

-- One round of the loop of `acquire`: the clock as it is read after a failed attempt, and, if the
-- thread goes to sleep, what the other threads do until it wakes up.
pub record Wake : Type 0 where
  pub now : ℕ
  pub others : List LockOp

pub data Outcome : Type 0 where
  acquired timed_out waiting : Outcome

-- `waiting` is a thread that still sleeps when the rounds that are given end.
unfoldable pub acquire : TableLock → ℕ → LockMode → ℕ → List Wake → TableLock × Outcome
unfolding try_acquire run
acquire l owner mode deadline [] = elim (try_acquire l owner mode).1 [
  | true ↦ ((try_acquire l owner mode).0, acquired)
  | false ↦ (l, waiting)
]
acquire l owner mode deadline (w ∷ wakes) =
    let next = acquire (run l w.others) owner mode deadline wakes in
    elim (try_acquire l owner mode).1 [
      | true ↦ ((try_acquire l owner mode).0, acquired)
      | false ↦ if leb deadline w.now then (l, timed_out) else next
    ]

-- ===== src/Transactions/Locks/Granting.antt =====
-- When `_try_acquire_locked` grants a lock, and what it and `release` do to the owners.
use quipudb.Prelude.{
  ℕ, ◌≡◌, ◌⊎◌, refl, inl, inr, Bool, true, false, Option, none, some, List, [], ◌∷◌, arith, length,
  ◌==◌, ◌||◌, if◌then◌else◌, Bool-cases,
}
use quipudb.Transactions.Locks.{
  LockMode, shared, exclusive, TableLock, reacquire, enter, try_acquire,
}
use quipudb.Transactions.Locks.Owners.{
  contains, contains-add, all_others, all_others-absent, all_others-present,
}
use quipudb.Transactions.Locks.Validity.{IsValid}

-- The rule of a shared/exclusive lock: only readers may hold it together.
unfoldable pub is_compatible : TableLock → ℕ → LockMode → Bool
is_compatible l o exclusive = all_others o false l.owners
is_compatible l o shared = elim l.mode [
  | none ↦ true
  | some held ↦ elim held [ shared ↦ true | exclusive ↦ all_others o false l.owners ]
]

pub contains-nil : (o : ℕ) (xs : List ℕ) → length xs ≡ 0 → contains o xs ≡ false
unfolding contains
contains-nil o [] h = refl
contains-nil o (x ∷ xs) h = absurd (omega arith)

reacquire-granted :
    (l : TableLock) (o : ℕ) (m : LockMode)
    → IsValid l
    → contains o l.owners ≡ true
    → (reacquire l m).1 ≡ is_compatible l o m
unfolding reacquire is_compatible
reacquire-granted l o shared v h =
    ground (arith, v.alone, all_others-present o l.owners v.distinct h, v.free)
reacquire-granted l o exclusive v h =
    ground (arith, v.alone, all_others-present o l.owners v.distinct h, v.free)

absent-others :
    (o : ℕ) (xs : List ℕ) → contains o xs ≡ false → all_others o false xs ≡ (length xs == 0)
absent-others o [] h = unfold all_others in refl
absent-others o (x ∷ xs) h = ground (arith, all_others-absent o x xs h)

enter-granted :
    (l : TableLock) (o : ℕ) (m : LockMode)
    → IsValid l
    → contains o l.owners ≡ false
    → (enter l o m).1 ≡ is_compatible l o m
unfolding enter is_compatible
enter-granted l o shared v h = ground (arith, absent-others o l.owners h, v.free, v.busy)
enter-granted l o exclusive v h = ground (arith, absent-others o l.owners h, v.free, v.busy)

-- On a valid lock an attempt is granted exactly if its mode is compatible with every other owner:
-- there is none, or the request is shared and the lock is free or shared.
pub try_acquire-granted :
    (l : TableLock) (o : ℕ) (m : LockMode) → IsValid l → (try_acquire l o m).1 ≡ is_compatible l o m
unfolding try_acquire
try_acquire-granted l o m v = elim (Bool-cases (contains o l.owners)) [
  | inl held ↦ rw held (reacquire-granted l o m v held)
  | inr fresh ↦ rw fresh (enter-granted l o m v fresh)
]

-- An attempt makes its owner a holder exactly if it is granted, and touches no other owner.
pub contains-try_acquire :
    (l : TableLock) (o p : ℕ) (m : LockMode)
    → contains p (try_acquire l o m).0.owners
      ≡ (if o == p then contains p l.owners || (try_acquire l o m).1 else contains p l.owners)
unfolding try_acquire
contains-try_acquire l o p shared = ground (arith, contains-add o p l.owners)
contains-try_acquire l o p exclusive = ground (arith, contains-add o p l.owners)

-- After a grant the owner is a holder, in the mode it asked for or in a stronger one.
abbrev pub Covers : Option LockMode → LockMode → Type 0
Covers held m = (held ≡ some m) ⊎ (held ≡ some exclusive)

pub try_acquire-Covers :
    (l : TableLock) (o : ℕ) (m : LockMode)
    → IsValid l
    → (try_acquire l o m).1 ≡ true
    → Covers (try_acquire l o m).0.mode m × (contains o (try_acquire l o m).0.owners ≡ true)
unfolding try_acquire
try_acquire-Covers l o shared v h =
    ground (arith, contains-add o o l.owners, v.free, contains-nil o l.owners)
try_acquire-Covers l o exclusive v h =
    ground (arith, contains-add o o l.owners, v.free, contains-nil o l.owners)

-- A refused attempt leaves the lock as it was.
pub try_acquire-refused :
    (l : TableLock) (o : ℕ) (m : LockMode)
    → (try_acquire l o m).1 ≡ false
    → (try_acquire l o m).0 ≡ l
unfolding try_acquire
try_acquire-refused l o m h = ground arith

-- ===== src/Transactions/Locks/Validity.antt =====
-- The well-formedness of a lock, kept by whatever the threads do.
use quipudb.Prelude.{
  ℕ, ◌≤◌, ◌≡◌, refl, true, false, none, some, List, [], ◌∷◌, arith, length, Bool-cases, inl, inr,
  suc,
}
use quipudb.Transactions.Locks.{
  LockMode, shared, exclusive, TableLock, new_lock, reacquire, enter, try_acquire, release, LockOp,
  attempt, give_back, apply, run,
}
use quipudb.Transactions.Locks.Owners.{
  contains, add, is_distinct, add-is_distinct, discard-is_distinct, length-discard, contains_unique,
}

pub record IsValid (l : TableLock) : Type 0 where
  pub free : l.mode ≡ none → length l.owners ≡ 0
  pub busy : length l.owners ≡ 0 → l.mode ≡ none
  pub alone : l.mode ≡ some exclusive → length l.owners ≤ 1
  pub distinct : is_distinct l.owners ≡ true

pub new_lock-IsValid : IsValid new_lock
unfolding is_distinct
new_lock-IsValid = record {
  free = λ _. refl;
  busy = λ _. refl;
  alone = λ _. omega arith;
  distinct = refl;
}

length-add_pos : (o : ℕ) (xs : List ℕ) → contains o xs ≡ false → length (add o xs) ≡ suc (length xs)
unfolding add
length-add_pos o xs h = ground arith

try_acquire-IsValid :
    (l : TableLock) (o : ℕ) (m : LockMode) → IsValid l → IsValid (try_acquire l o m).0
unfolding try_acquire
try_acquire-IsValid l o m v = elim (Bool-cases (contains o l.owners)) [
  | inl held ↦ rw held (reacquire-IsValid l m v)
  | inr fresh ↦ rw fresh (enter-IsValid l o m fresh v)
]
  where
    reacquire-IsValid : (l : TableLock) (m : LockMode) → IsValid l → IsValid (reacquire l m).0
    reacquire-IsValid l shared v = v
    reacquire-IsValid l exclusive v = record {
      free = ground (arith, v.free);
      busy = ground (arith, v.busy);
      alone = ground (arith, v.alone);
      distinct = ground (arith, v.distinct);
    }

    enter-IsValid :
        (l : TableLock) (o : ℕ) (m : LockMode)
        → contains o l.owners ≡ false
        → IsValid l
        → IsValid (enter l o m).0
    enter-IsValid l o m f v = record {
      free = ground (arith, v.free, length-add_pos o l.owners f);
      busy = ground (arith, v.busy, length-add_pos o l.owners f);
      alone = ground (arith, v.alone, v.free, length-add_pos o l.owners f);
      distinct = ground (arith, add-is_distinct o l.owners v.distinct);
    }

release-IsValid : (l : TableLock) (o : ℕ) → IsValid l → IsValid (release l o)
unfolding release
release-IsValid l o v = record {
  free = ground (arith, v.free, length-discard o l.owners);
  busy = ground (arith, v.busy);
  alone = ground (arith, v.alone, length-discard o l.owners);
  distinct = discard-is_distinct o l.owners v.distinct;
}

pub apply-IsValid : (l : TableLock) (op : LockOp) → IsValid l → IsValid (apply l op)
unfolding apply
apply-IsValid l (attempt o m) v = try_acquire-IsValid l o m v
apply-IsValid l (give_back o) v = release-IsValid l o v

pub run-IsValid : (l : TableLock) (ops : List LockOp) → IsValid l → IsValid (run l ops)
unfolding run
run-IsValid l [] v = v
run-IsValid l (op ∷ ops) v = run-IsValid (apply l op) ops (apply-IsValid l op v)

-- After any attempts and releases of any threads on a new lock, an exclusive lock has no two
-- different owners.
pub exclusive_owner_is_alone :
    (ops : List LockOp) (a b : ℕ)
    → (run new_lock ops).mode ≡ some exclusive
    → contains a (run new_lock ops).owners ≡ true
    → contains b (run new_lock ops).owners ≡ true
    → a ≡ b
exclusive_owner_is_alone ops a b e p q =
    contains_unique a b _ ((run-IsValid new_lock ops new_lock-IsValid).alone e) p q

-- ===== src/Transactions/Locks/Waiting.antt =====
-- The waiting loop of `TableLock.acquire`, over whatever the other threads do meanwhile.
use quipudb.Prelude.{
  ℕ, ◌≡◌, ◌≢◌, ◌∙◌, refl, inl, inr, Bool, true, false, not, List, [], ◌∷◌, arith, ◌==◌, ◌||◌, ◌&&◌,
  leb, Bool-cases,
}
use quipudb.Transactions.Locks.{
  LockMode, TableLock, try_acquire, LockOp, attempt, give_back, apply, run, Wake, acquired, waiting,
  acquire,
}
use quipudb.Transactions.Locks.Owners.{contains, contains-discard, contains-empty, contains_unique}
use quipudb.Transactions.Locks.Validity.{IsValid, run-IsValid, apply-IsValid}
use quipudb.Transactions.Locks.Granting.{
  Covers, contains-nil, contains-try_acquire, try_acquire-Covers,
}

-- Some reading of the clock is at the deadline or past it.
unfoldable pub is_past : ℕ → List Wake → Bool
is_past deadline [] = false
is_past deadline (w ∷ wakes) = leb deadline w.now || is_past deadline wakes

-- Once the clock has been read at the deadline or later, `acquire` has returned or raised,
-- whatever the other threads did meanwhile.
pub acquire-ne-waiting :
    (l : TableLock) (o : ℕ) (m : LockMode) (deadline : ℕ) (wakes : List Wake)
    → is_past deadline wakes ≡ true
    → (acquire l o m deadline wakes).1 ≢ waiting
unfolding acquire is_past
acquire-ne-waiting l o m deadline [] p = cc
acquire-ne-waiting l o m deadline (w ∷ wakes) p =
    ground (arith, acquire-ne-waiting (run l w.others) o m deadline wakes)

pub acquire-IsValid :
    (l : TableLock) (o : ℕ) (m : LockMode) (deadline : ℕ) (wakes : List Wake)
    → IsValid l
    → IsValid (acquire l o m deadline wakes).0
unfolding acquire
acquire-IsValid l o m deadline [] v = elim (Bool-cases (try_acquire l o m).1) [
  | inl granted ↦ rw (granted, acquire) (apply-IsValid l (attempt o m) v)
  | inr refused ↦ rw (refused, acquire) v
]
acquire-IsValid l o m deadline (w ∷ wakes) v = elim (Bool-cases (try_acquire l o m).1) [
  | inl granted ↦ rw (granted, acquire) (apply-IsValid l (attempt o m) v)
  | inr refused ↦ elim (Bool-cases (leb deadline w.now)) [
    | inl late ↦ rw (refused, late, acquire) v
    | inr early ↦
        rw (refused, early, acquire)
          (acquire-IsValid (run l w.others) o m deadline wakes (run-IsValid l w.others v))
  ]
]

pub acquire-Covers :
    (l : TableLock) (o : ℕ) (m : LockMode) (deadline : ℕ) (wakes : List Wake)
    → IsValid l
    → (acquire l o m deadline wakes).1 ≡ acquired
    → Covers (acquire l o m deadline wakes).0.mode m
      × (contains o (acquire l o m deadline wakes).0.owners ≡ true)
unfolding acquire
acquire-Covers l o m deadline [] v e = ground (arith, try_acquire-Covers l o m v)
acquire-Covers l o m deadline (w ∷ wakes) v e = ground (
  arith,
  try_acquire-Covers l o m v,
  acquire-Covers (run l w.others) o m deadline wakes (run-IsValid l w.others v),
)

-- The operation is another owner's.
unfoldable pub is_by_other : ℕ → LockOp → Bool
is_by_other o (attempt p m) = not (p == o)
is_by_other o (give_back p) = not (p == o)

unfoldable pub are_by_others : ℕ → List LockOp → Bool
unfolding is_by_other
are_by_others o [] = true
are_by_others o (op ∷ ops) = is_by_other o op && are_by_others o ops

unfoldable pub sleeps : ℕ → List Wake → Bool
unfolding are_by_others
sleeps o [] = true
sleeps o (w ∷ wakes) = are_by_others o w.others && sleeps o wakes

contains-apply_other :
    (l : TableLock) (o : ℕ) (op : LockOp)
    → is_by_other o op ≡ true
    → contains o (apply l op).owners ≡ contains o l.owners
unfolding apply is_by_other
contains-apply_other l o (attempt p m) h = ground (arith, contains-try_acquire l p o m)
contains-apply_other l o (give_back p) h = ground (arith, contains-discard p o l.owners)

pub contains-run_others :
    (l : TableLock) (o : ℕ) (ops : List LockOp)
    → are_by_others o ops ≡ true
    → contains o (run l ops).owners ≡ contains o l.owners
unfolding run are_by_others
contains-run_others l o [] h = refl
contains-run_others l o (op ∷ ops) h =
    ground (arith, contains-run_others (apply l op) o ops, contains-apply_other l o op)

-- If the others act for other owners, a thread whose `acquire` does not succeed is an owner
-- afterwards exactly if it was one before.
pub contains-acquire_failed :
    (l : TableLock) (o : ℕ) (m : LockMode) (deadline : ℕ) (wakes : List Wake)
    → sleeps o wakes ≡ true
    → (acquire l o m deadline wakes).1 ≢ acquired
    → contains o (acquire l o m deadline wakes).0.owners ≡ contains o l.owners
unfolding acquire sleeps
contains-acquire_failed l o m deadline [] s e = ground arith
contains-acquire_failed l o m deadline (w ∷ wakes) s e = ground (
  arith,
  contains-acquire_failed (run l w.others) o m deadline wakes,
  contains-run_others l o w.others,
)

-- One operation of another owner on a lock that `o` holds.
apply_other-Covers :
    (l : TableLock) (o : ℕ) (m : LockMode) (op : LockOp)
    → IsValid l
    → contains o l.owners ≡ true
    → is_by_other o op ≡ true
    → Covers l.mode m
    → Covers (apply l op).mode m
unfolding apply is_by_other
apply_other-Covers l o m (attempt p n) v h b c =
    ground (arith, v.free, v.alone, contains-nil o l.owners, contains_unique o p l.owners)
apply_other-Covers l o m (give_back p) v h b c =
    ground (arith, contains-discard p o l.owners, contains-empty o)

-- On a valid lock, an owner that holds it in a mode, or in exclusive mode, still does after any
-- operations of other owners.
pub run_others-Covers :
    (l : TableLock) (o : ℕ) (m : LockMode) (ops : List LockOp)
    → IsValid l
    → contains o l.owners ≡ true
    → are_by_others o ops ≡ true
    → Covers l.mode m
    → Covers (run l ops).mode m × (contains o (run l ops).owners ≡ true)
unfolding run are_by_others
run_others-Covers l o m [] v h b c = (c, h)
run_others-Covers l o m (op ∷ ops) v h b c =
    run_others-Covers (apply l op) o m ops (apply-IsValid l op v)
      (contains-apply_other l o op (ground arith) ∙ h) (ground arith)
      (apply_other-Covers l o m op v h (ground arith) c)

pub acquire_failed-Covers :
    (l : TableLock) (o : ℕ) (held m : LockMode) (deadline : ℕ) (wakes : List Wake)
    → IsValid l
    → contains o l.owners ≡ true
    → Covers l.mode held
    → sleeps o wakes ≡ true
    → (acquire l o m deadline wakes).1 ≢ acquired
    → Covers (acquire l o m deadline wakes).0.mode held
unfolding acquire sleeps
acquire_failed-Covers l o held m deadline [] v h c s e = ground arith
acquire_failed-Covers l o held m deadline (w ∷ wakes) v h c s e = ground (
  arith,
  run_others-Covers l o held w.others v h,
  acquire_failed-Covers (run l w.others) o held m deadline wakes (run-IsValid l w.others v),
)

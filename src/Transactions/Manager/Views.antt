-- ===== src/Transactions/Manager/Views.antt =====
-- The lock of a table as a client of the manager sees it, and how the operations change it.
use quipudb.Prelude.{
  ℕ, ◌≡◌, ◌≢◌, refl, sym, String, Bool, true, false, ◌==◌, Option, none, some, Option-cases,
  Bool-cases, inl, inr, ◌⊎◌, ◌∙◌, ap, ◌&&◌, List, [], ◌∷◌, arith, eq_iff, eq_refl, str_eq,
  if◌then◌else◌,
}
use mathlib.Core.Path.{ap₂}
use quipudb.Prelude.Dict.{Dict, find, put, find-put, elem}
use quipudb.Transactions.Locks
use quipudb.Transactions.Locks.{LockMode, TableLock, new_lock, Wake, Outcome, acquired}
use quipudb.Transactions.Locks.Owners.{contains, contains-discard, contains-empty, discard}
use quipudb.Transactions.Locks.Validity.{IsValid}
use quipudb.Transactions.Locks.Granting.{Covers}
use quipudb.Transactions.Locks.Waiting.{
  sleeps, acquire-Covers, acquire-IsValid, acquire_failed-Covers, contains-acquire_failed,
}
use quipudb.Transactions.Manager.{LockManager, lock_for, acquire, release, release_all}

or_new : Option TableLock → TableLock
or_new none = new_lock
or_new (some lock) = lock

-- A table without a lock has a free one.
unfoldable pub lock_of : LockManager → String → TableLock
unfolding or_new
lock_of m name = or_new (find name m.locks)

unfoldable pub holds : LockManager → String → ℕ → Bool
holds m name owner = contains owner (lock_of m name).owners

-- The mode in which the owner has the table, if it has it.
unfoldable pub mode_held : LockManager → String → ℕ → Option LockMode
unfolding holds
mode_held m name owner = if holds m name owner then (lock_of m name).mode else none

-- A dictionary's lock under a key after a write, before a client's default is put in.
lock_of-put :
    (name other : String) (lock : TableLock) (d : Dict TableLock)
    → or_new (find other (put name lock d))
      ≡ (if str_eq name other then lock else or_new (find other d))
unfolding or_new
lock_of-put name other lock d = rw find-put (distribute (str_eq name other))
  where
    distribute :
        (b : Bool)
        → or_new (if b then some lock else find other d)
          ≡ (if b then lock else or_new (find other d))
    distribute true = refl
    distribute false = refl

-- Creating a lock changes no view.
lock_of-lock_for :
    (name other : String) (m : LockManager) → lock_of (lock_for name m).1 other ≡ lock_of m other
unfolding lock_for lock_of
lock_of-lock_for name other m = elim (Option-cases (find name m.locks)) [
  | inl e ↦
      rw (e, lock_for)
        (lock_of-put name other new_lock m.locks ∙ same e (Bool-cases (str_eq name other)))
  | inr (l, e) ↦ rw (e, lock_for)
]
  where
    same :
        find name m.locks ≡ none
        → (str_eq name other ≡ true) ⊎ (str_eq name other ≡ false)
        → (if str_eq name other then new_lock else or_new (find other m.locks))
          ≡ or_new (find other m.locks)
    same e (inl q) = let p = (eq_iff name other).0 q in rw q (cc)
    same e (inr q) = rw q

lock_for_lock : (name : String) (m : LockManager) → (lock_for name m).0 ≡ lock_of m name
unfolding lock_for lock_of
lock_for_lock name m = ground arith

module _ (name : String) (owner : ℕ) (mode : LockMode) (deadline : ℕ) (wakes : List Wake)
    (m : LockManager) where
  pub lock_of-acquire :
      (other : String)
      → lock_of (acquire name owner mode deadline wakes m).0 other ≡ (
          if str_eq name other
          then (Locks.acquire (lock_of m name) owner mode deadline wakes).0
          else lock_of m other)
  unfolding acquire lock_of
  lock_of-acquire other =
      lock_of-put name other _ (lock_for name m).1.locks
      ∙ ap₂ (λ lock other_lock. if str_eq name other then lock else other_lock)
          (ap (λ lock. (Locks.acquire lock owner mode deadline wakes).0) (lock_for_lock name m))
          (lock_of-lock_for name other m)

  pub acquire_outcome :
      (acquire name owner mode deadline wakes m).1
      ≡ (Locks.acquire (lock_of m name) owner mode deadline wakes).1
  unfolding acquire
  acquire_outcome = rw lock_for_lock

release-new_lock : (owner : ℕ) → Locks.release new_lock owner ≡ new_lock
unfolding Locks.release discard
release-new_lock owner = refl

pub lock_of-release :
    (name other : String) (owner : ℕ) (m : LockManager)
    → lock_of (release name owner m) other
      ≡ (if str_eq name other then Locks.release (lock_of m name) owner else lock_of m other)
unfolding release lock_of
lock_of-release name other owner m = elim (Option-cases (find name m.locks)) [
  | inl e ↦ rw (e, release) (untouched e (Bool-cases (str_eq name other)))
  | inr (l, e) ↦ rw (e, release) (lock_of-put name other (Locks.release l owner) m.locks)
]
  where
    untouched :
        find name m.locks ≡ none
        → (str_eq name other ≡ true) ⊎ (str_eq name other ≡ false)
        → or_new (find other m.locks) ≡ (
            if str_eq name other then Locks.release new_lock owner else or_new (find other m.locks))
    untouched e (inl q) = let p = (eq_iff name other).0 q in rw q (cc (release-new_lock owner))
    untouched e (inr q) = rw q

pub holds-acquire :
    (name other : String) (owner p : ℕ) (mode : LockMode) (deadline : ℕ) (wakes : List Wake)
    (m : LockManager)
    → str_eq name other ≡ false
    → holds (acquire name owner mode deadline wakes m).0 other p ≡ holds m other p
unfolding holds
holds-acquire name other owner p mode deadline wakes m h = rw (lock_of-acquire, h)

module _ (name : String) (owner : ℕ) (mode : LockMode) (deadline : ℕ) (wakes : List Wake)
    (m : LockManager) where
  lock_of-acquire_self :
      lock_of (acquire name owner mode deadline wakes m).0 name
      ≡ (Locks.acquire (lock_of m name) owner mode deadline wakes).0
  lock_of-acquire_self = lock_of-acquire name owner mode deadline wakes m name ∙ rw eq_refl

  pub holds-acquire_failed :
      sleeps owner wakes ≡ true
      → (acquire name owner mode deadline wakes m).1 ≢ acquired
      → holds (acquire name owner mode deadline wakes m).0 name owner ≡ holds m name owner
  unfolding holds
  holds-acquire_failed s h = rw lock_of-acquire_self (
      contains-acquire_failed (lock_of m name) owner mode deadline wakes s
        (λ e. h (acquire_outcome name owner mode deadline wakes m ∙ e)))

  pub holds-acquire-Covers :
      IsValid (lock_of m name)
      → (acquire name owner mode deadline wakes m).1 ≡ acquired
      → Covers (lock_of (acquire name owner mode deadline wakes m).0 name).mode mode
        × (holds (acquire name owner mode deadline wakes m).0 name owner ≡ true)
  unfolding holds
  holds-acquire-Covers v h = rw lock_of-acquire_self (
      acquire-Covers (lock_of m name) owner mode deadline wakes v
        (sym (acquire_outcome name owner mode deadline wakes m) ∙ h))

  pub acquire-failed-Covers :
      (held : LockMode)
      → IsValid (lock_of m name)
      → holds m name owner ≡ true
      → Covers (lock_of m name).mode held
      → sleeps owner wakes ≡ true
      → (acquire name owner mode deadline wakes m).1 ≢ acquired
      → Covers (lock_of (acquire name owner mode deadline wakes m).0 name).mode held
  unfolding holds
  acquire-failed-Covers held v h c s e = rw lock_of-acquire_self (
      acquire_failed-Covers (lock_of m name) owner held mode deadline wakes v h c s
        (λ p. e (acquire_outcome name owner mode deadline wakes m ∙ p)))

  pub acquire-AllValid :
      ((other : String) → IsValid (lock_of m other))
      → (other : String) → IsValid (lock_of (acquire name owner mode deadline wakes m).0 other)
  acquire-AllValid v other = rw lock_of-acquire (elim (Bool-cases (str_eq name other)) [
    | inl q ↦ rw q (acquire-IsValid (lock_of m name) owner mode deadline wakes (v name))
    | inr q ↦ rw q (v other)
  ])

pub holds-release :
    (name other : String) (owner p : ℕ) (m : LockManager)
    → holds (release name owner m) other p
      ≡ (if str_eq name other && owner == p then false else holds m other p)
unfolding holds Locks.release
holds-release name other owner p m = rw lock_of-release (elim (Bool-cases (str_eq name other)) [
  | inl q ↦ rw q (
      contains-discard owner p (lock_of m name).owners
      ∙ ap (λ n. if owner == p then false else contains p (lock_of m n).owners)
          ((eq_iff name other).0 q))
  | inr q ↦ rw q
])

-- `release_all` takes from its owner exactly the tables of the list, and nothing from the others.
pub holds-release_all :
    (owner p : ℕ) (other : String) (names : List String) (m : LockManager)
    → holds (release_all owner names m) other p
      ≡ (if elem other names && owner == p then false else holds m other p)
unfolding release_all elem
holds-release_all owner p other [] m = refl
holds-release_all owner p other (k ∷ ks) m =
    holds-release_all owner p other ks (release k owner m)
    ∙ ground (arith, holds-release k other owner p m)

-- A lock that is released by one owner keeps its mode for the others.
release-mode :
    (l : TableLock) (o p : ℕ)
    → (if contains p (Locks.release l o).owners then (Locks.release l o).mode else none)
      ≡ (if o == p then none else (if contains p l.owners then l.mode else none))
unfolding Locks.release
release-mode l o p = ground (arith, contains-discard o p l.owners, contains-empty p)

pub mode_held-release :
    (name other : String) (owner p : ℕ) (m : LockManager)
    → mode_held (release name owner m) other p
      ≡ (if str_eq name other && owner == p then none else mode_held m other p)
unfolding mode_held holds
mode_held-release name other owner p m = rw lock_of-release (elim (Bool-cases (str_eq name other)) [
  | inl q ↦ rw q (
      release-mode (lock_of m name) owner p
      ∙ ap
          (λ n.
            if owner == p
            then none
            else (if contains p (lock_of m n).owners then (lock_of m n).mode else none))
          ((eq_iff name other).0 q))
  | inr q ↦ rw q
])

pub mode_held-release_all :
    (owner p : ℕ) (other : String) (names : List String) (m : LockManager)
    → mode_held (release_all owner names m) other p
      ≡ (if elem other names && owner == p then none else mode_held m other p)
unfolding release_all elem
mode_held-release_all owner p other [] m = refl
mode_held-release_all owner p other (k ∷ ks) m =
    mode_held-release_all owner p other ks (release k owner m)
    ∙ ground (arith, mode_held-release k other owner p m)

-- ===== src/Transactions/Transaction/TwoPhase.antt =====
-- Strict two-phase locking: what is recorded is held until the end, and the end releases it all.
use quipudb.Prelude.{
  ℕ, ◌≡◌, ◌≢◌, refl, sym, ◌∙◌, inl, inr, String, true, false, ◌==◌, Option, none, some, List, arith,
  eq_iff, str_eq, if◌then◌else◌, Bool-cases,
}
use mathlib.Core.Path.{subst, subst⁻¹}
use quipudb.Prelude.Dict.{find, keys, find-put, elem, elem-keys-put}
use quipudb.Transactions.Locks.{LockMode, Wake, Outcome, acquired, timed_out, waiting}
use quipudb.Transactions.Locks.Validity.{IsValid}
use quipudb.Transactions.Locks.Granting.{Covers}
use quipudb.Transactions.Locks.Waiting.{sleeps}
use quipudb.Transactions.Manager
use quipudb.Transactions.Manager.{LockManager}
use quipudb.Transactions.Manager.Views.{
  lock_of, holds, mode_held, mode_held-release_all, lock_of-acquire, holds-acquire,
  holds-acquire_failed, holds-acquire-Covers, acquire-failed-Covers, holds-release_all,
}
use quipudb.Transactions.Transaction.{
  Transaction, is_enough, lock_recorded, ensure_lock, commit, rollback,
}

-- Every table that the transaction's owner holds is in `_locked_tables`.
abbrev pub IsRecorded : {D : Type 0} → Transaction D → LockManager → Type 0
IsRecorded t m =
    (name : String) → holds m name t.owner ≡ true → elem name (keys t.locked_tables) ≡ true

module _ {D : Type 0} (t : Transaction D) (m : LockManager) where
  pub holds-commit :
      (name : String) (p : ℕ)
      → IsRecorded t m
      → holds (commit t m).1 name p ≡ (if t.owner == p then false else holds m name p)
  unfolding commit
  holds-commit name p r =
      holds-release_all t.owner p name (keys t.locked_tables) m ∙ ground (arith, r name)

  -- If every table that the transaction holds is recorded, `commit` releases all of its tables,
  -- and every other owner holds each table that it held, in the mode in which it held it.
  pub mode_held-commit :
      (name : String) (p : ℕ)
      → IsRecorded t m
      → (holds (commit t m).1 name p ≡ (if t.owner == p then false else holds m name p))
        × (mode_held (commit t m).1 name p ≡ (if t.owner == p then none else mode_held m name p))
  unfolding commit mode_held
  mode_held-commit name p r = (
    holds-commit name p r,
    mode_held-release_all t.owner p name (keys t.locked_tables) m ∙ ground (arith, r name),
  )

  -- `rollback` releases the same locks as `commit`, whatever its undo closures did or raised.
  pub rollback-releases : (db : D) → (rollback t m db).1 ≡ (commit t m).1
  unfolding commit rollback
  rollback-releases db = refl

  unrecorded_step :
      (name : String) (m' : LockManager)
      → ((other : String)
          → str_eq name other ≡ false
          → holds m' other t.owner ≡ holds m other t.owner)
      → holds m' name t.owner ≡ holds m name t.owner
      → IsRecorded t m
      → IsRecorded t m'
  unrecorded_step name m' frame same r other h = elim (Bool-cases (str_eq name other)) [
    | inl q ↦ let p = (eq_iff name other).0 q in r other (cc)
    | inr q ↦ r other (sym (frame other q) ∙ h)
  ]

  -- What a call of the manager has to tell for the records to stay right.
  IsRecorded-step :
      (name : String) (mode : LockMode) (m' : LockManager) (outcome : Outcome)
      → ((other : String)
          → str_eq name other ≡ false
          → holds m' other t.owner ≡ holds m other t.owner)
      → (outcome ≢ acquired → holds m' name t.owner ≡ holds m name t.owner)
      → IsRecorded t m
      → IsRecorded
          (lock_recorded t name mode (m', outcome)).0
          (lock_recorded t name mode (m', outcome)).1
  unfolding lock_recorded
  IsRecorded-step name mode m' acquired frame same r other h = ground (
    arith,
    frame other,
    r other,
    eq_iff name other,
    elem-keys-put name other mode t.locked_tables,
  )
  IsRecorded-step name mode m' timed_out frame same r other h =
      unrecorded_step name m' frame (same (cc)) r other h
  IsRecorded-step name mode m' waiting frame same r other h =
      unrecorded_step name m' frame (same (cc)) r other h

  module _ (name : String) (mode : LockMode) (deadline : ℕ) (wakes : List Wake) where
    -- While the other threads act for other owners, `ensure_lock` keeps the record complete,
    -- whether it gets the lock, times out or still waits.
    pub ensure_lock-IsRecorded :
        sleeps t.owner wakes ≡ true
        → IsRecorded t m
        → IsRecorded
            (ensure_lock t name mode deadline wakes m).0
            (ensure_lock t name mode deadline wakes m).1
    unfolding ensure_lock
    ensure_lock-IsRecorded s r = elim (Bool-cases (is_enough (find name t.locked_tables) mode)) [
      | inl enough ↦ rw (enough, ensure_lock) r
      | inr more ↦
          rw (more, ensure_lock)
            (IsRecorded-step name mode (Manager.acquire name t.owner mode deadline wakes m).0
              (Manager.acquire name t.owner mode deadline wakes m).1
              (λ other q. holds-acquire name other t.owner t.owner mode deadline wakes m q)
              (λ h. holds-acquire_failed name t.owner mode deadline wakes m s h) r)
    ]

module _ {D : Type 0} where
  owner-lock_recorded :
      (t : Transaction D) (name : String) (mode : LockMode) (m : LockManager) (outcome : Outcome)
      → (lock_recorded t name mode (m, outcome)).0.owner ≡ t.owner
  unfolding lock_recorded
  owner-lock_recorded t name mode m acquired = refl
  owner-lock_recorded t name mode m timed_out = refl
  owner-lock_recorded t name mode m waiting = refl

  pub owner-ensure_lock :
      (t : Transaction D) (name : String) (mode : LockMode) (deadline : ℕ) (wakes : List Wake)
      (m : LockManager)
      → (ensure_lock t name mode deadline wakes m).0.owner ≡ t.owner
  unfolding ensure_lock
  owner-ensure_lock t name mode deadline wakes m =
      elim (Bool-cases (is_enough (find name t.locked_tables) mode)) [
        | inl h ↦ rw (h, ensure_lock) refl
        | inr h ↦
            rw (h, ensure_lock)
              (owner-lock_recorded t name mode
                (Manager.acquire name t.owner mode deadline wakes m).0
                (Manager.acquire name t.owner mode deadline wakes m).1)
      ]

-- Every recorded mode is held, in the lock's own state, at least as strongly.
abbrev pub IsBacked : {D : Type 0} → Transaction D → LockManager → Type 0
IsBacked t m =
    (name : String) (mode : LockMode)
    → find name t.locked_tables ≡ some mode
    → Covers (lock_of m name).mode mode × (holds m name t.owner ≡ true)

abbrev pub AllValid : LockManager → Type 0
AllValid m = (name : String) → IsValid (lock_of m name)

enough-Covers :
    (held : LockMode) (mode : LockMode) (state : Option LockMode)
    → is_enough (some held) mode ≡ true
    → Covers state held
    → Covers state mode
unfolding is_enough
enough-Covers held mode state e c = ground arith

enough-held :
    (current : Option LockMode) (mode : LockMode)
    → is_enough current mode ≡ true
    → (held : LockMode) × (current ≡ some held) × (is_enough (some held) mode ≡ true)
unfolding is_enough
enough-held none mode h = cc
enough-held (some held) mode h = (held, refl, h)

module _ {D : Type 0} (t : Transaction D) (m : LockManager) (name : String) (mode : LockMode)
    (deadline : ℕ) (wakes : List Wake) where
  recorded-Covers :
      (m' : LockManager) (outcome : Outcome)
      → (outcome ≡ acquired → Covers (lock_of m' name).mode mode × (holds m' name t.owner ≡ true))
      → (lock_recorded t name mode (m', outcome)).2 ≡ acquired
      → Covers (lock_of (lock_recorded t name mode (m', outcome)).1 name).mode mode
        × (holds (lock_recorded t name mode (m', outcome)).1 name t.owner ≡ true)
  unfolding lock_recorded
  recorded-Covers m' acquired k h = k refl
  recorded-Covers m' timed_out k h = cc
  recorded-Covers m' waiting k h = cc

  -- In a manager of valid locks that back the record, a call of `ensure_lock` that returns leaves
  -- the table held by the transaction, in the mode it asked for or in exclusive mode.
  pub ensure_lock-Covers :
      AllValid m
      → IsBacked t m
      → (ensure_lock t name mode deadline wakes m).2 ≡ acquired
      → Covers (lock_of (ensure_lock t name mode deadline wakes m).1 name).mode mode
        × (holds (ensure_lock t name mode deadline wakes m).1 name t.owner ≡ true)
  unfolding ensure_lock
  ensure_lock-Covers v b = elim (Bool-cases (is_enough (find name t.locked_tables) mode)) [
    | inl enough ↦
        rw (enough, ensure_lock)
          (λ _.
            let (held, e, q) = enough-held _ mode enough in
            let (c, h) = b name held e in (enough-Covers held mode _ q c, h))
    | inr more ↦
        rw (more, ensure_lock)
          (recorded-Covers (Manager.acquire name t.owner mode deadline wakes m).0
            (Manager.acquire name t.owner mode deadline wakes m).1
            (holds-acquire-Covers name t.owner mode deadline wakes m (v name)))
  ]

  IsHeld : LockManager → String → LockMode → Type 0
  IsHeld m' other held = Covers (lock_of m' other).mode held × (holds m' other t.owner ≡ true)

  IsHeld-split :
      (m' : LockManager) (other : String) (held : LockMode)
      → ((k : String) → str_eq name k ≡ false → lock_of m' k ≡ lock_of m k)
      → (str_eq name other ≡ true → IsHeld m' name held)
      → (str_eq name other ≡ false → IsHeld m other held)
      → IsHeld m' other held
  unfolding IsHeld holds
  IsHeld-split m' other held frame here there = elim (Bool-cases (str_eq name other)) [
    | inl q ↦ subst (λ k. IsHeld m' k held) ((eq_iff name other).0 q) (here q)
    | inr q ↦ rw (frame other q) (there q)
  ]

  IsBacked-step :
      (m' : LockManager) (outcome : Outcome)
      → ((k : String) → str_eq name k ≡ false → lock_of m' k ≡ lock_of m k)
      → (outcome ≡ acquired → IsHeld m' name mode)
      → (outcome ≢ acquired → (held : LockMode) → IsHeld m name held → IsHeld m' name held)
      → IsBacked t m
      → IsBacked
          (lock_recorded t name mode (m', outcome)).0
          (lock_recorded t name mode (m', outcome)).1
  unfolding lock_recorded IsHeld
  IsBacked-step m' acquired frame got kept b other held h =
      let recorded = sym (find-put name other mode t.locked_tables) ∙ h in
      IsHeld-split m' other held frame
        (λ q. let e : mode ≡ held = ground arith in subst (IsHeld m' name) e (got refl))
        (λ q. b other held (ground arith))
  IsBacked-step m' timed_out frame got kept b other held h =
      IsHeld-split m' other held frame
        (λ q. kept (cc) held (
          b name held
            (subst⁻¹ (λ k. find k t.locked_tables ≡ some held) ((eq_iff name other).0 q) h)))
        (λ q. b other held h)
  IsBacked-step m' waiting frame got kept b other held h =
      IsHeld-split m' other held frame
        (λ q. kept (cc) held (
          b name held
            (subst⁻¹ (λ k. find k t.locked_tables ≡ some held) ((eq_iff name other).0 q) h)))
        (λ q. b other held h)

  -- In a manager of valid locks, while the other threads act for other owners, every mode that is
  -- recorded stays backed by the lock itself through a call of `ensure_lock`, also one that fails.
  pub ensure_lock-IsBacked :
      AllValid m
      → sleeps t.owner wakes ≡ true
      → IsBacked t m
      → IsBacked
          (ensure_lock t name mode deadline wakes m).0
          (ensure_lock t name mode deadline wakes m).1
  unfolding ensure_lock IsHeld
  ensure_lock-IsBacked v s b = elim (Bool-cases (is_enough (find name t.locked_tables) mode)) [
    | inl enough ↦ rw (enough, ensure_lock) b
    | inr more ↦
        rw (more, ensure_lock)
          (IsBacked-step (Manager.acquire name t.owner mode deadline wakes m).0
            (Manager.acquire name t.owner mode deadline wakes m).1
            (λ k q. lock_of-acquire name t.owner mode deadline wakes m k ∙ rw q)
            (holds-acquire-Covers name t.owner mode deadline wakes m (v name))
            (λ e held (c, h). (
              acquire-failed-Covers name t.owner mode deadline wakes m held (v name) h c s e,
              holds-acquire_failed name t.owner mode deadline wakes m s e ∙ h,
            ))
            b)
  ]

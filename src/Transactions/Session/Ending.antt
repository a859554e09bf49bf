-- ===== src/Transactions/Session/Ending.antt =====
-- However a transaction of a session ends, none of its locks is left.
use mathlib.Core.Path.{subst}
use quipudb.Prelude.{
  ℕ, ◌≡◌, refl, sym, ap, ◌∙◌, String, true, false, none, some, List, ==_self, if◌then◌else◌,
}
use quipudb.Transactions.Locks.{LockMode, Wake, Outcome, acquired, timed_out, waiting}
use quipudb.Transactions.Locks.Waiting.{sleeps}
use quipudb.Transactions.Manager.{LockManager}
use quipudb.Transactions.Manager.Views.{holds}
use quipudb.Transactions.Transaction.{Transaction, ensure_lock, commit, rollback}
use quipudb.Transactions.Transaction.TwoPhase.{
  IsRecorded, holds-commit, rollback-releases, owner-ensure_lock, ensure_lock-IsRecorded,
}
use quipudb.Transactions.Session.{
  Session, returned, lock_timeout, after_commit, after_rollback, end_transaction, abandon,
  fail_in_transaction, locked_in, lock_or_abort,
}

module _ {D : Type 0} where
  -- The session has no transaction, and the owner of the one that it had holds no table.
  abbrev pub IsOver : ℕ → Session D → Type 0
  IsOver owner s = (s.transaction ≡ none) × ((name : String) → holds s.manager name owner ≡ false)

  commit-holds_none :
      (t : Transaction D) (m : LockManager) (name : String)
      → IsRecorded t m
      → holds (commit t m).1 name t.owner ≡ false
  commit-holds_none t m name r =
      holds-commit t m name t.owner r
      ∙ ap (λ b. if b then false else holds m name t.owner) (==_self t.owner)

  rollback-holds_none :
      (t : Transaction D) (m : LockManager) (db : D) (name : String)
      → IsRecorded t m
      → holds (rollback t m db).1 name t.owner ≡ false
  rollback-holds_none t m db name r =
      ap (λ x. holds x name t.owner) (rollback-releases t m db) ∙ commit-holds_none t m name r

  locked_in-IsOver :
      (s : Session D) (owner : ℕ) (t : Transaction D) (m : LockManager) (outcome : Outcome)
      → t.owner ≡ owner
      → IsRecorded t m
      → (locked_in s (t, m, outcome)).1 ≡ lock_timeout
      → IsOver owner (locked_in s (t, m, outcome)).0
  unfolding locked_in fail_in_transaction
  locked_in-IsOver s owner t m acquired o r e = absurd (cc)
  locked_in-IsOver s owner t m waiting o r e = absurd (cc)
  locked_in-IsOver s owner t m timed_out o r e = (
    refl,
    λ name.
        ap (λ p. holds (rollback t m s.db).1 name p) (sym o) ∙ rollback-holds_none t m s.db name r,
  )

  end_transaction-some :
      (s : Session D) (t : Transaction D)
      → s.transaction ≡ some t
      → end_transaction s ≡ (after_commit s t, returned)
  unfolding end_transaction
  end_transaction-some s t e = rw (e, end_transaction) refl

  abandon-some :
      (s : Session D) (t : Transaction D)
      → s.transaction ≡ some t
      → abandon s ≡ (after_rollback s t s.manager, returned)
  unfolding abandon
  abandon-some s t e = rw (e, abandon) refl

  fail-some :
      (s : Session D) (t : Transaction D)
      → s.transaction ≡ some t
      → fail_in_transaction s ≡ after_rollback s t s.manager
  unfolding fail_in_transaction
  fail-some s t e = rw (e, fail_in_transaction) refl

  lock_or_abort-some :
      (s : Session D) (t : Transaction D) (name : String) (mode : LockMode) (deadline : ℕ)
      (wakes : List Wake)
      → s.transaction ≡ some t
      → lock_or_abort name mode deadline wakes s
        ≡ locked_in s (ensure_lock t name mode deadline wakes s.manager)
  unfolding lock_or_abort
  lock_or_abort-some s t name mode deadline wakes e = rw (e, lock_or_abort) refl

  -- If every table that the transaction holds is recorded, then after END, after `rollback`, and
  -- after a statement whose lock times out, the session has no transaction and its owner no lock.
  pub ending-IsOver :
      (s : Session D) (t : Transaction D)
      → s.transaction ≡ some t
      → IsRecorded t s.manager
      → IsOver t.owner (end_transaction s).0
        × IsOver t.owner (abandon s).0
        × IsOver t.owner (fail_in_transaction s)
        × ((name : String) (mode : LockMode) (deadline : ℕ) (wakes : List Wake)
            → sleeps t.owner wakes ≡ true
            → (lock_or_abort name mode deadline wakes s).1 ≡ lock_timeout
            → IsOver t.owner (lock_or_abort name mode deadline wakes s).0)
  ending-IsOver s t e r = (
    subst (λ x. IsOver t.owner x.0) (sym (end_transaction-some s t e))
        (refl, λ name. commit-holds_none t s.manager name r),
    subst (λ x. IsOver t.owner x.0) (sym (abandon-some s t e))
        (refl, λ name. rollback-holds_none t s.manager s.db name r),
    subst (λ x. IsOver t.owner x) (sym (fail-some s t e))
        (refl, λ name. rollback-holds_none t s.manager s.db name r),
    λ name mode deadline wakes k h.
        subst (λ x. IsOver t.owner x.0) (sym (lock_or_abort-some s t name mode deadline wakes e))
          (locked_in-IsOver s t.owner (ensure_lock t name mode deadline wakes s.manager).0
            (ensure_lock t name mode deadline wakes s.manager).1
            (ensure_lock t name mode deadline wakes s.manager).2
            (owner-ensure_lock t name mode deadline wakes s.manager)
            (ensure_lock-IsRecorded t s.manager name mode deadline wakes k r)
            (ap (λ x. x.1) (sym (lock_or_abort-some s t name mode deadline wakes e)) ∙ h)),
  )

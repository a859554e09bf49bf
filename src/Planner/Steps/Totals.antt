-- ===== src/Planner/Steps/Totals.antt =====
-- The totals of a subtree against the sums over its steps.
use quipudb.Prelude.{ℕ, ◌+◌, ◌≡◌, refl, List, [], ◌∷◌, ◌++◌, arith}
use quipudb.Planner.Steps.{
  Stats, add, Step, step, Steps, no_more, child, info_of, subtree_stats, add_children, walk,
  walk_children,
}

-- The sum of a counter over steps.
abbrev pub total : {F : Type 0} → (Stats → ℕ) → List (Step F) → ℕ
total f [] = 0
total f (s ∷ ss) = f (info_of s).stats + total f ss

total-append :
    {F : Type 0} (f : Stats → ℕ) (xs ys : List (Step F))
    → total f (xs ++ ys) ≡ total f xs + total f ys
total-append f [] ys = omega arith
total-append f (x ∷ xs) ys = omega (arith, total-append f xs ys)

module _ {F : Type 0} (f : Stats → ℕ) (f-add : (a b : Stats) → f (add a b) ≡ f a + f b) where
  mutual
    unfolding subtree_stats add_children walk walk_children

    subtree_stats-total : (s : Step F) → f (subtree_stats s) ≡ total f (walk s)
    subtree_stats-total (step i cs) =
        omega
          (arith, add_children-total i.stats cs, total-append f (walk_children cs) (step i cs ∷ []))

    add_children-total :
        (t : Stats) (cs : Steps F) → f (add_children t cs) ≡ f t + total f (walk_children cs)
    add_children-total t no_more = omega arith
    add_children-total t (child c cs) = omega (
      arith,
      add_children-total (add t (subtree_stats c)) cs,
      f-add t (subtree_stats c),
      subtree_stats-total c,
      total-append f (walk c) (walk_children cs),
    )

-- Each of the four counters of `subtree_stats` is the sum of that counter over the steps that
-- `walk` lists.
pub subtree_stats-walk :
    {F : Type 0} (s : Step F)
    → ((subtree_stats s).pages_read ≡ total (λ t. t.pages_read) (walk s))
      × ((subtree_stats s).pages_written ≡ total (λ t. t.pages_written) (walk s))
      × ((subtree_stats s).records_examined ≡ total (λ t. t.records_examined) (walk s))
      × ((subtree_stats s).records_returned ≡ total (λ t. t.records_returned) (walk s))
subtree_stats-walk s = (
  subtree_stats-total (λ t. t.pages_read) (λ a b. refl) s,
  subtree_stats-total (λ t. t.pages_written) (λ a b. refl) s,
  subtree_stats-total (λ t. t.records_examined) (λ a b. refl) s,
  subtree_stats-total (λ t. t.records_returned) (λ a b. refl) s,
)

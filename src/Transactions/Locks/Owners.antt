-- ===== src/Transactions/Locks/Owners.antt =====
-- The set `_owners` of a lock as a list: membership, `add` and `discard`.
use quipudb.Prelude.{
  ℕ, ◌≤◌, ◌≡◌, refl, Bool, true, false, not, List, [], ◌∷◌, ◌==◌, ◌&&◌, ◌||◌, if◌then◌else◌, arith,
  length,
}

unfoldable pub contains : ℕ → List ℕ → Bool
contains o [] = false
contains o (x ∷ xs) = x == o || contains o xs

unfoldable pub add : ℕ → List ℕ → List ℕ
unfolding contains
add o xs = if contains o xs then xs else o ∷ xs

unfoldable pub discard : ℕ → List ℕ → List ℕ
discard o [] = []
discard o (x ∷ xs) = let rest = discard o xs in if x == o then rest else x ∷ rest

pub contains-add :
    (o p : ℕ) (xs : List ℕ) → contains p (add o xs) ≡ (if o == p then true else contains p xs)
unfolding add
contains-add o p xs = ground arith

pub contains-discard :
    (o p : ℕ) (xs : List ℕ) → contains p (discard o xs) ≡ (if o == p then false else contains p xs)
unfolding contains discard
contains-discard o p [] = ground arith
contains-discard o p (x ∷ xs) = ground (arith, contains-discard o p xs)

-- No identity stands in the list twice.
unfoldable pub is_distinct : List ℕ → Bool
is_distinct [] = true
is_distinct (x ∷ xs) = not (contains x xs) && is_distinct xs

pub add-is_distinct : (o : ℕ) (xs : List ℕ) → is_distinct xs ≡ true → is_distinct (add o xs) ≡ true
unfolding add is_distinct
add-is_distinct o xs h = ground arith

pub discard-is_distinct :
    (o : ℕ) (xs : List ℕ) → is_distinct xs ≡ true → is_distinct (discard o xs) ≡ true
unfolding discard is_distinct
discard-is_distinct o [] h = refl
discard-is_distinct o (x ∷ xs) h = ground (arith, discard-is_distinct o xs, contains-discard o x xs)

pub length-discard : (o : ℕ) (xs : List ℕ) → length (discard o xs) ≤ length xs
unfolding discard
length-discard o [] = omega arith
length-discard o (x ∷ xs) = ground (arith, length-discard o xs)

pub contains-empty : (o : ℕ) → contains o [] ≡ false
unfolding contains
contains-empty o = refl

-- With one owner at most, two owners are one.
pub contains_unique :
    (a b : ℕ) (xs : List ℕ) → length xs ≤ 1 → contains a xs ≡ true → contains b xs ≡ true → a ≡ b
unfolding contains
contains_unique a b [] h p q = cc
contains_unique a b (x ∷ []) h p q = ground arith
contains_unique a b (x ∷ y ∷ xs) h p q = absurd (omega arith)

-- Every owner but `o` passes the test `p`.
unfoldable pub all_others : ℕ → Bool → List ℕ → Bool
all_others o p [] = true
all_others o p (x ∷ xs) = (x == o || p) && all_others o p xs

pub all_others-true : (o : ℕ) (xs : List ℕ) → all_others o true xs ≡ true
unfolding all_others
all_others-true o [] = refl
all_others-true o (x ∷ xs) = ground (arith, all_others-true o xs)

-- A list without `o` has no other owner exactly if it is empty.
pub all_others-absent :
    (o x : ℕ) (xs : List ℕ) → contains o (x ∷ xs) ≡ false → all_others o false (x ∷ xs) ≡ false
unfolding all_others contains
all_others-absent o x xs h = ground arith

-- A list with `o` has no other owner exactly if its length is 1.
pub all_others-present :
    (o : ℕ) (xs : List ℕ)
    → is_distinct xs ≡ true
    → contains o xs ≡ true
    → all_others o false xs ≡ (length xs == 1)
unfolding all_others contains is_distinct
all_others-present o [] d h = cc
all_others-present o (x ∷ []) d h = ground arith
all_others-present o (x ∷ y ∷ xs) d h = ground arith

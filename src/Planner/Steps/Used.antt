-- ===== src/Planner/Steps/Used.antt =====
-- The structures that a plan reports as used.
use mathlib.Core.Path.{ap₂}
use quipudb.Prelude.{
  ◌⊎◌, ℕ, ◌≡◌, refl, sym, ap, ◌∙◌, Bool, true, false, not, ◌&&◌, ◌||◌, List, [], ◌∷◌, ◌++◌, map,
  ◌==◌, Bool-cases, inl, inr, arith,
}
use quipudb.Planner.Plan.{Structure, structure_code, memory}
use quipudb.Planner.Metadata.{is_structure}
use quipudb.Planner.Steps.{Step, info_of, walk, has, collect, structures_used}

-- No structure stands in the list twice.
abbrev pub is_distinct : List Structure → Bool
is_distinct [] = true
is_distinct (s ∷ more) = not (has s more) && is_distinct more

or_assoc : (a b c : Bool) → (a || (b || c)) ≡ ((a || b) || c)
or_assoc true b c = refl
or_assoc false b c = refl

has-append :
    (t : Structure) (xs : List Structure) (s : Structure)
    → has t (xs ++ s ∷ []) ≡ (has t xs || is_structure t s)
has-append t [] s = or_false (is_structure t s)
  where
    or_false : (a : Bool) → (a || false) ≡ a
    or_false true = refl
    or_false false = refl
has-append t (x ∷ xs) s =
    ap (λ b. is_structure t x || b) (has-append t xs s)
    ∙ or_assoc (is_structure t x) (has t xs) (is_structure t s)

code_same : (a b : ℕ) → a == b ≡ true → a ≡ b
code_same a b h = ground arith

is_structure_same :
    (t s x : Structure) → is_structure t s ≡ true → is_structure t x ≡ is_structure s x
is_structure_same t s x h =
    ap (λ c. c == structure_code x) (code_same (structure_code t) (structure_code s) h)

has_same : (t s : Structure) (xs : List Structure) → is_structure t s ≡ true → has t xs ≡ has s xs
has_same t s [] h = refl
has_same t s (x ∷ xs) h = ap₂ (λ a b. a || b) (is_structure_same t s x h) (has_same t s xs h)

-- `seen`, `equal`, `disk` and `later` are whether `t` has been seen, is the structure at hand, is
-- not memory, and comes later.
taken :
    (seen equal disk later : Bool)
    → (equal ≡ true → disk ≡ true)
    → ((seen || equal) || (disk && later)) ≡ (seen || (disk && (equal || later)))
taken true e d l h = refl
taken false true d l h = sym (rw (h refl) refl)
taken false false d l h = refl

skipped :
    (seen equal disk later : Bool)
    → (equal ≡ true → (disk ≡ false) ⊎ (seen ≡ true))
    → (seen || (disk && later)) ≡ (seen || (disk && (equal || later)))
skipped true e d l h = refl
skipped false false d l h = refl
skipped false true true l h = elim (h refl) [ inl e ↦ absurd (cc) | inr e ↦ absurd (cc) ]
skipped false true false l h = refl

and_true : (a b : Bool) → (not a && not b) ≡ true → not a ≡ true
and_true a b h = ground arith

and_false : (a b : Bool) → (not a && not b) ≡ false → (not a ≡ false) ⊎ (b ≡ true)
and_false true b h = inl refl
and_false false true h = inr refl
and_false false false h = absurd (cc)

has-collect :
    (t : Structure) (seen more : List Structure)
    → has t (collect seen more) ≡ (has t seen || (not (is_structure t memory) && has t more))
unfolding collect
has-collect t seen [] = no_later (has t seen) (not (is_structure t memory))
  where
    no_later : (a b : Bool) → a ≡ (a || (b && false))
    no_later true b = refl
    no_later false true = refl
    no_later false false = refl
has-collect t seen (s ∷ more) =
    elim (Bool-cases (not (is_structure s memory) && not (has s seen))) [
      | inl h ↦
          rw (h, collect)
            (has-collect t (seen ++ s ∷ []) more
              ∙ ap (λ b. b || (not (is_structure t memory) && has t more)) (has-append t seen s)
              ∙ taken (has t seen) (is_structure t s) (not (is_structure t memory)) (has t more)
                  (λ e.
                    ap (λ b. not b) (is_structure_same t s memory e)
                    ∙ and_true (is_structure s memory) (has s seen) h))
      | inr h ↦
          rw (h, collect)
            (has-collect t seen more
              ∙ skipped (has t seen) (is_structure t s) (not (is_structure t memory)) (has t more)
                  (λ e. elim (and_false (is_structure s memory) (has s seen) h) [
                    | inl m ↦ inl (ap (λ b. not b) (is_structure_same t s memory e) ∙ m)
                    | inr m ↦ inr (has_same t s seen e ∙ m)
                  ]))
    ]

or_parts : (a b : Bool) → (a || b) ≡ false → (a ≡ false) × (b ≡ false)
or_parts a b h = (ground arith, ground arith)

and_parts : (a b : Bool) → (not a && b) ≡ true → (a ≡ false) × (b ≡ true)
and_parts a b h = (ground arith, ground arith)

code_swap : (a b : ℕ) → a == b ≡ b == a
code_swap a b = ground arith

distinct-append :
    (xs : List Structure) (s : Structure)
    → is_distinct xs ≡ true
    → has s xs ≡ false
    → is_distinct (xs ++ s ∷ []) ≡ true
distinct-append [] s d h = refl
distinct-append (x ∷ xs) s d h =
    let (n, e) = and_parts (has x xs) (is_distinct xs) d in
    let (p, q) = or_parts (is_structure s x) (has s xs) h in
    let new : has x (xs ++ s ∷ []) ≡ false =
      has-append x xs s
      ∙ ap₂ (λ a b. a || b) n (code_swap (structure_code x) (structure_code s) ∙ p) in
    ap₂ (λ a b. not a && b) new (distinct-append xs s e q)

distinct-collect :
    (seen more : List Structure) → is_distinct seen ≡ true → is_distinct (collect seen more) ≡ true
unfolding collect
distinct-collect seen [] d = d
distinct-collect seen (s ∷ more) d =
    elim (Bool-cases (not (is_structure s memory) && not (has s seen))) [
      | inl h ↦
          rw (h, collect)
            (distinct-collect (seen ++ s ∷ []) more
              (distinct-append seen s d (second (is_structure s memory) (has s seen) h)))
      | inr h ↦ rw (h, collect) (distinct-collect seen more d)
    ]
  where
    second : (a b : Bool) → (not a && not b) ≡ true → b ≡ false
    second a b h = ground arith

-- `structures_used` lists every structure of a step of the plan but MEMORY, no other, and none twice.
pub structures_used-walk :
    {F : Type 0} (root : Step F)
    → ((t : Structure)
        → has t (structures_used root)
          ≡ (not (is_structure t memory) && has t (map (λ s. (info_of s).structure) (walk root))))
      × (is_distinct (structures_used root) ≡ true)
unfolding structures_used
structures_used-walk root = (
  λ t. has-collect t [] (map (λ s. (info_of s).structure) (walk root)),
  distinct-collect [] (map (λ s. (info_of s).structure) (walk root)) refl,
)

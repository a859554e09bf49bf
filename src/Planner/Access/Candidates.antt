-- ===== src/Planner/Access/Candidates.antt =====
-- What `min` over filtered candidates returns: one of them, with every tested property.
use mathlib.Core.Path.{subst}
use mathlib.Core.Option.{some-injective}
use quipudb.Prelude.{
  ◌≡◌, ◌⊎◌, refl, inl, inr, Bool, true, false, none, some, List, [], ◌∷◌, arith, eq_refl,
  if◌then◌else◌,
}
use quipudb.Planner.Plan.{Structure}
use quipudb.Planner.Metadata.{
  IndexMetadata, index_eq, is_among, same, min_of, min_by, keep, is_structure,
}

same_self : (b : Bool) → same b b ≡ true
same_self true = refl
same_self false = refl

pub is_structure_self : (s : Structure) → is_structure s s ≡ true
is_structure_self s = ground arith

pub index_eq_self : (i : IndexMetadata) → index_eq i i ≡ true
unfolding index_eq
index_eq_self i = ground (arith, eq_refl i.name, same_self i.supports_range)

-- Membership with equality proper.
abbrev pub IsIn : IndexMetadata → List IndexMetadata → Type 0
IsIn i [] = ⊥
IsIn i (x ∷ xs) = (i ≡ x) ⊎ IsIn i xs

pub IsIn-is_among : (i : IndexMetadata) (is : List IndexMetadata) → IsIn i is → is_among i is ≡ true
unfolding is_among
IsIn-is_among i [] h = absurd h
IsIn-is_among i (x ∷ xs) (inl e) = ground (arith, index_eq_self i)
IsIn-is_among i (x ∷ xs) (inr h) = ground (arith, IsIn-is_among i xs h)

pub IsIn-keep :
    (p : IndexMetadata → Bool) (i : IndexMetadata) (is : List IndexMetadata)
    → IsIn i (keep p is)
    → (p i ≡ true) × IsIn i is
unfolding keep
IsIn-keep p i [] h = absurd h
IsIn-keep p i (x ∷ xs) h = split (p x) refl h (IsIn-keep p i xs)
  where
    split :
        (b : Bool)
        → p x ≡ b
        → IsIn i (if b then x ∷ keep p xs else keep p xs)
        → (IsIn i (keep p xs) → (p i ≡ true) × IsIn i xs)
        → (p i ≡ true) × IsIn i (x ∷ xs)
    split true q (inl e) rest = (cc, inl e)
    split true q (inr m) rest = ((rest m).0, inr (rest m).1)
    split false q m rest = ((rest m).0, inr (rest m).1)

IsIn-min_of :
    (less : IndexMetadata → IndexMetadata → Bool) (best : IndexMetadata) (is : List IndexMetadata)
    → IsIn (min_of less best is) (best ∷ is)
unfolding min_of
IsIn-min_of less best [] = inl refl
IsIn-min_of less best (i ∷ is) =
    step (less i best) (IsIn-min_of less (if less i best then i else best) is)
  where
    step :
        (b : Bool)
        → IsIn (min_of less (if b then i else best) is) ((if b then i else best) ∷ is)
        → IsIn (min_of less (if b then i else best) is) (best ∷ i ∷ is)
    step true h = inr h
    step false (inl e) = inl e
    step false (inr h) = inr (inr h)

pub min_by-IsIn :
    (less : IndexMetadata → IndexMetadata → Bool) (is : List IndexMetadata) (i : IndexMetadata)
    → min_by less is ≡ some i
    → IsIn i is
unfolding min_by
min_by-IsIn less [] i h = cc
min_by-IsIn less (x ∷ xs) i h =
    subst (λ j. IsIn j (x ∷ xs)) (some-injective _ _ h) (IsIn-min_of less x xs)

pub min_by-none :
    (less : IndexMetadata → IndexMetadata → Bool) (is : List IndexMetadata)
    → min_by less is ≡ none
    → is ≡ []
unfolding min_by
min_by-none less [] h = refl
min_by-none less (x ∷ xs) h = cc

pub keep-none :
    (p : IndexMetadata → Bool) (is : List IndexMetadata) (i : IndexMetadata)
    → keep p is ≡ []
    → IsIn i is
    → p i ≡ false
unfolding keep
keep-none p [] i h m = absurd m
keep-none p (x ∷ xs) i h (inl e) = ground arith
keep-none p (x ∷ xs) i h (inr m) = keep-none p xs i (ground arith) m

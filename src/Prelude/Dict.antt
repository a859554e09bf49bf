-- ===== src/Prelude/Dict.antt =====
-- A Python `dict` with text keys, as an association list without order.
use mathlib.Core.Path.{◌≡◌, refl}
use mathlib.Core.Bool.{Bool, true, false, ◌||◌}
use mathlib.Core.List.{List, [], ◌∷◌}
use mathlib.Core.Option.{Option, none, some}
use Prim.Native.String.{String}
use native.Mathlib.Omega.{arith}
use text.Mathlib.Text.{◌==◌ as str_eq}
use text.Mathlib.TextEquality.{eq_iff}
use quipudb.Prelude.Tests.{if◌then◌else◌}

abbrev pub Dict {ℓ} : Type ℓ → Type ℓ
Dict V = List (String × V)

module _ {ℓ} {V : Type ℓ} where
  unfoldable pub find : String → Dict V → Option V
  find k [] = none
  find k ((j, v) ∷ d) = if str_eq j k then some v else find k d

  unfoldable pub put : String → V → Dict V → Dict V
  put k v [] = (k, v) ∷ []
  put k v ((j, w) ∷ d) = if str_eq j k then (j, v) ∷ d else (j, w) ∷ put k v d

  unfoldable pub keys : Dict V → List String
  keys [] = []
  keys ((k, v) ∷ d) = k ∷ keys d

  pub find-put :
      (k j : String) (v : V) (d : Dict V)
      → find j (put k v d) ≡ (if str_eq k j then some v else find j d)
  unfolding find put
  find-put k j v [] = refl
  find-put k j v ((i, w) ∷ d) = ground (arith, eq_iff k j, eq_iff i k, eq_iff i j, find-put k j v d)

unfoldable pub elem : String → List String → Bool
elem name [] = false
elem name (k ∷ ks) = str_eq k name || elem name ks

module _ {ℓ} {V : Type ℓ} where
  pub elem-keys-put :
      (k j : String) (v : V) (d : Dict V)
      → elem j (keys (put k v d)) ≡ (if str_eq k j then true else elem j (keys d))
  unfolding elem keys put
  elem-keys-put k j v [] = ground arith
  elem-keys-put k j v ((i, w) ∷ d) =
      ground (arith, eq_iff k j, eq_iff i k, eq_iff i j, elem-keys-put k j v d)

  pub elem-keys_of_find :
      (k : String) (v : V) (d : Dict V) → find k d ≡ some v → elem k (keys d) ≡ true
  unfolding elem keys find
  elem-keys_of_find k v [] h = cc
  elem-keys_of_find k v ((i, w) ∷ d) h = ground (arith, elem-keys_of_find k v d)

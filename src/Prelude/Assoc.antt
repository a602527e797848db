-- ===== src/Prelude/Assoc.antt =====
-- A hash map as an association list in order of insertion, over keys with an equality test.
use mathlib.Core.Path.{◌≡◌, refl}
use mathlib.Core.Bool.{Bool, true, false}
use mathlib.Core.List.{List, [], ◌∷◌, ◌++◌}
use mathlib.Core.Option.{Option, none, some}
use native.Mathlib.Omega.{arith}
use para_egox.Prelude.Tests.{if◌then◌else◌}
use para_egox.Prelude.Lists.{length}
use para_egox.Prelude.Equality.{Eq, ◌=?◌}
use para_egox.Prelude.Elems.{elem, Distinct, remove}

abbrev pub is_some {ℓ} : {A : Type ℓ} → Option A → Bool
is_some none = false
is_some (some a) = true

module _ {ℓ κ} {K : Type ℓ} {V : Type κ} where
  abbrev pub keys : List (K × V) → List K
  keys [] = []
  keys ((k, v) ∷ m) = k ∷ keys m

  pub length-keys : (m : List (K × V)) → length (keys m) ≡ length m
  length-keys [] = refl
  length-keys ((k, v) ∷ m) = omega (arith, length-keys m)

module _ {ℓ κ} {K : Type ℓ} {V : Type κ} ⦃e : Eq K⦄ where
  unfoldable pub lookup : K → List (K × V) → Option V
  lookup k [] = none
  lookup k ((j, v) ∷ m) = if j =? k then some v else lookup k m

  -- Replaces the value of a key that is there, in its place.
  unfoldable pub insert : K → V → List (K × V) → List (K × V)
  insert k v [] = (k, v) ∷ []
  insert k v ((j, w) ∷ m) = if j =? k then (j, v) ∷ m else (j, w) ∷ insert k v m

  unfoldable pub erase : K → List (K × V) → List (K × V)
  erase k [] = []
  erase k ((j, w) ∷ m) = if j =? k then m else (j, w) ∷ erase k m

  pub lookup-insert :
      (k j : K) (v : V) (m : List (K × V))
      → lookup j (insert k v m) ≡ (if k =? j then some v else lookup j m)
  unfolding lookup insert
  lookup-insert k j v [] = refl
  lookup-insert k j v ((i, w) ∷ m) =
      ground (arith, e.beq_iff k j, e.beq_iff i k, e.beq_iff i j, lookup-insert k j v m)

  pub elem-keys : (k : K) (m : List (K × V)) → elem k (keys m) ≡ is_some (lookup k m)
  unfolding lookup elem
  elem-keys k [] = refl
  elem-keys k ((j, w) ∷ m) = ground (arith, elem-keys k m)

  pub keys-insert :
      (k : K) (v : V) (m : List (K × V))
      → keys (insert k v m) ≡ (if elem k (keys m) then keys m else keys m ++ k ∷ [])
  unfolding insert elem
  keys-insert k v [] = refl
  keys-insert k v ((j, w) ∷ m) = ground (arith, keys-insert k v m, e.beq_iff j k)

  pub keys-erase : (k : K) (m : List (K × V)) → keys (erase k m) ≡ remove k (keys m)
  unfolding erase remove
  keys-erase k [] = refl
  keys-erase k ((j, w) ∷ m) = ground (arith, keys-erase k m)

  pub lookup-erase :
      (k j : K) (m : List (K × V))
      → Distinct (keys m)
      → lookup j (erase k m) ≡ (if k =? j then none else lookup j m)
  unfolding lookup erase
  lookup-erase k j [] d = ground arith
  lookup-erase k j ((i, w) ∷ m) d =
      ground
        (arith, e.beq_iff k j, e.beq_iff i k, e.beq_iff i j, lookup-erase k j m d.1, elem-keys i m)

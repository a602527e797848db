-- ===== src/Prelude/Elems.antt =====
-- Lists used as sets and queues of identities: membership, distinctness, removal.
use Prim.Native.Nat.{ℕ, suc, ◌+◌, ◌<◌}
use mathlib.Core.Path.{◌≡◌, refl}
use mathlib.Core.Bool.{Bool, true, false, ◌||◌}
use mathlib.Core.List.{List, [], ◌∷◌, ◌++◌}
use native.Mathlib.Omega.{arith}
use para_egox.Prelude.Tests.{if◌then◌else◌}
use para_egox.Prelude.Lists.{length}
use para_egox.Prelude.Equality.{Eq, ◌=?◌}

module _ {ℓ} {A : Type ℓ} ⦃e : Eq A⦄ where
  unfoldable pub elem : A → List A → Bool
  elem a [] = false
  elem a (x ∷ xs) = (x =? a) || elem a xs

  -- No element stands twice.
  abbrev pub Distinct : List A → Type 0
  Distinct [] = Unit {0}
  Distinct (x ∷ xs) = (elem x xs ≡ false) × Distinct xs

  -- The list without the first occurrence of the element.
  unfoldable pub remove : A → List A → List A
  remove a [] = []
  remove a (x ∷ xs) = if x =? a then xs else x ∷ remove a xs

  pub elem-append : (a : A) (xs ys : List A) → elem a (xs ++ ys) ≡ (elem a xs || elem a ys)
  unfolding elem
  elem-append a [] ys = refl
  elem-append a (x ∷ xs) ys = ground (arith, elem-append a xs ys)

  pub elem-remove :
      (a b : A) (xs : List A)
      → Distinct xs
      → elem b (remove a xs) ≡ (if a =? b then false else elem b xs)
  unfolding elem remove
  elem-remove a b [] d = ground arith
  elem-remove a b (x ∷ xs) d =
      ground (arith, elem-remove a b xs d.1, e.beq_iff x a, e.beq_iff a b, e.beq_iff x b)

  pub Distinct-remove : (a : A) (xs : List A) → Distinct xs → Distinct (remove a xs)
  unfolding elem remove
  Distinct-remove a [] d = tt
  Distinct-remove a (x ∷ xs) d =
      ground (arith, Distinct-remove a xs d.1, elem-remove a x xs d.1, e.beq_iff a x)

  pub length-remove :
      (a : A) (xs : List A) → elem a xs ≡ true → suc (length (remove a xs)) ≡ length xs
  unfolding elem remove
  length-remove a [] h = ground arith
  length-remove a (x ∷ xs) h = ground (arith, length-remove a xs)

  pub Distinct-append_one :
      (a : A) (xs : List A) → Distinct xs → elem a xs ≡ false → Distinct (xs ++ a ∷ [])
  unfolding elem
  Distinct-append_one a [] d h = (refl, tt)
  Distinct-append_one a (x ∷ xs) d h =
      ground (
        arith,
        Distinct-append_one a xs d.1,
        elem-append x xs (a ∷ []),
        e.beq_iff x a,
        e.beq_iff a x,
      )

  -- How often the element stands in the list.
  unfoldable pub count : A → List A → ℕ
  count a [] = 0
  count a (x ∷ xs) = (if x =? a then 1 else 0) + count a xs

  pub count-append : (a : A) (xs ys : List A) → count a (xs ++ ys) ≡ count a xs + count a ys
  unfolding count
  count-append a [] ys = omega arith
  count-append a (x ∷ xs) ys = omega (arith, count-append a xs ys)

  pub count-remove :
      (a b : A) (xs : List A)
      → elem a xs ≡ true
      → count b (remove a xs) + (if a =? b then 1 else 0) ≡ count b xs
  unfolding count elem remove
  count-remove a b [] h = ground arith
  count-remove a b (x ∷ xs) h =
      ground (arith, count-remove a b xs, e.beq_iff x a, e.beq_iff a b, e.beq_iff x b)

  pub count-eq-zero : (a : A) (xs : List A) → elem a xs ≡ false → count a xs ≡ 0
  unfolding count elem
  count-eq-zero a [] h = refl
  count-eq-zero a (x ∷ xs) h = ground (arith, count-eq-zero a xs)

  pub elem-of-count : (a : A) (xs : List A) → elem a xs ≡ true → 0 < count a xs
  unfolding count elem
  elem-of-count a [] h = ground arith
  elem-of-count a (x ∷ xs) h = ground (arith, elem-of-count a xs)

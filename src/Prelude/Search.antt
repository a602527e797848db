-- ===== src/Prelude/Search.antt =====
-- `position` followed by `remove`, and `find`, over a list kept in order.
use mathlib.Core.Path.{◌≡◌}
use mathlib.Core.Bool.{Bool, true, false}
use mathlib.Core.List.{List, [], ◌∷◌}
use mathlib.Core.Option.{Option, none, some}
use mathlib.Core.Logic.{inl, inr}
use native.Mathlib.Omega.{arith}
use para_egox.Prelude.Tests.{if◌then◌else◌, Option-cases}
use para_egox.Prelude.Equality.{Eq}
use para_egox.Prelude.Elems.{elem, remove}

module _ {ℓ} {A : Type ℓ} where
  unfoldable pub find : (A → Bool) → List A → Option A
  find p [] = none
  find p (x ∷ xs) = if p x then some x else find p xs

  -- The first element that passes, and the others in their order.
  unfoldable pub take_first : (A → Bool) → List A → Option (A × List A)
  take_first p [] = none
  take_first p (x ∷ xs) =
      if p x
      then some (x, xs)
      else elim (take_first p xs) [ none ↦ none | some (y, rest) ↦ some (y, x ∷ rest) ]

module _ {ℓ} {A : Type ℓ} ⦃e : Eq A⦄ where
  pub take_first-some :
      (p : A → Bool) (xs : List A) (x : A) (rest : List A)
      → take_first p xs ≡ some (x, rest)
      → (p x ≡ true) × (elem x xs ≡ true) × (rest ≡ remove x xs)
  unfolding take_first elem remove
  take_first-some p [] x rest h = ground arith
  take_first-some p (y ∷ ys) x rest h = elim (Option-cases (take_first p ys)) [
    | inl missed ↦ ground (arith, e.beq_iff y x)
    | inr (found, hit) ↦ ground (arith, e.beq_iff y x, take_first-some p ys found.0 found.1)
  ]

  pub take_first-none :
      (p : A → Bool) (xs : List A) (x : A) → take_first p xs ≡ none → elem x xs ≡ true → p x ≡ false
  unfolding take_first elem
  take_first-none p [] x h m = ground arith
  take_first-none p (y ∷ ys) x h m = ground (arith, take_first-none p ys x, e.beq_iff y x)

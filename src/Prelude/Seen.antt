-- ===== src/Prelude/Seen.antt =====
-- A loop that keeps what it has seen, and refuses what it has seen before, checks that a list has no
-- element twice.
use mathlib.Core.Path.{◌≡◌, refl}
use mathlib.Core.Bool.{false}
use mathlib.Core.List.{List, [], ◌∷◌}
use native.Mathlib.Omega.{arith}
use para_egox.Prelude.Equality.{Eq}
use para_egox.Prelude.Elems.{elem, Distinct}

module _ {A : Type 0} ⦃e : Eq A⦄ where
  -- No element is among those seen, or stands twice.
  abbrev pub Fresh : List A → List A → Type 0
  Fresh seen [] = Unit {0}
  Fresh seen (x ∷ xs) = (elem x seen ≡ false) × Fresh (x ∷ seen) xs

  abbrev pub Unseen : List A → List A → Type 0
  Unseen seen [] = Unit {0}
  Unseen seen (x ∷ xs) = (elem x seen ≡ false) × Unseen seen xs

  Unseen-new :
      (k : A) (seen xs : List A) → Unseen (k ∷ seen) xs → (elem k xs ≡ false) × Unseen seen xs
  unfolding elem
  Unseen-new k seen [] u = (refl, tt)
  Unseen-new k seen (x ∷ xs) u =
      let (new, rest) = Unseen-new k seen xs u.1 in
      (ground (arith, e.beq_iff x k, e.beq_iff k x), (ground arith, rest))

  new-Unseen :
      (k : A) (seen xs : List A) → elem k xs ≡ false → Unseen seen xs → Unseen (k ∷ seen) xs
  unfolding elem
  new-Unseen k seen [] new u = tt
  new-Unseen k seen (x ∷ xs) new u =
      (ground (arith, e.beq_iff x k, e.beq_iff k x), new-Unseen k seen xs (ground arith) u.1)

  pub Fresh-Distinct : (seen xs : List A) → Fresh seen xs → Distinct xs × Unseen seen xs
  Fresh-Distinct seen [] f = (tt, tt)
  Fresh-Distinct seen (x ∷ xs) f =
      let (d, u) = Fresh-Distinct (x ∷ seen) xs f.1 in
      let (new, rest) = Unseen-new x seen xs u in ((new, d), (f.0, rest))

  pub Distinct-Fresh : (seen xs : List A) → Distinct xs → Unseen seen xs → Fresh seen xs
  Distinct-Fresh seen [] d u = tt
  Distinct-Fresh seen (x ∷ xs) d u =
      (u.0, Distinct-Fresh (x ∷ seen) xs d.1 (new-Unseen x seen xs d.0 u.1))

  pub none_seen : (xs : List A) → Unseen [] xs
  unfolding elem
  none_seen [] = tt
  none_seen (x ∷ xs) = (refl, none_seen xs)

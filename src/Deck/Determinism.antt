-- ===== src/Deck/Determinism.antt =====
-- The lock of crates/paraegox-deck/src/lib.rs depends on which Cards a Deck has, not on their order.
use para_egox.Prelude.{
  ℕ, ◌≤◌, ◌≡◌, refl, sym, ◌∙◌, ap, List, nat_eq, list_eq, All, Result, ok, length, subst, suc,
}
use mathlib.Core.List.{Permᴰ, Perm}
use mathlib.Core.Logic.{∥∥₁_elim}
use para_egox.Deck.{
  Card, DeckSpec, DeckLock, DeckCompiler, DeckCompileError, compile, lock_of, no_cards,
}
use para_egox.Deck.Sorting.{
  IsSorted, Distinct-perm, sort_cards-eq, sort_cards-perm, sort_cards-IsSorted,
}
use para_egox.Deck.Acceptance.{IsAccepted, CardIsValid, compile-ok, compiles}

results_set : IsSet (Result DeckCompileError DeckLock)
results_set = hlevel

All-perm : (P : Card → Type 0) {xs ys : List Card} → Permᴰ xs ys → All P xs → All P ys
All-perm P Permᴰ.nil a = a
All-perm P (Permᴰ.cons e p) a = (subst P e a.0, All-perm P p a.1)
All-perm P (Permᴰ.swap e f) a = (subst P f a.1.0, (subst P e a.0, a.1.1))
All-perm P (Permᴰ.trans p q) a = All-perm P q (All-perm P p a)

length-perm : {xs ys : List Card} → Permᴰ xs ys → length xs ≡ length ys
length-perm Permᴰ.nil = refl
length-perm (Permᴰ.cons e p) = ap suc (length-perm p)
length-perm (Permᴰ.swap e f) = refl
length-perm (Permᴰ.trans p q) = length-perm p ∙ length-perm q

no_cards-perm : {xs ys : List Card} → Permᴰ xs ys → no_cards xs ≡ no_cards ys
no_cards-perm Permᴰ.nil = refl
no_cards-perm (Permᴰ.cons e p) = refl
no_cards-perm (Permᴰ.swap e f) = refl
no_cards-perm (Permᴰ.trans p q) = no_cards-perm p ∙ no_cards-perm q

module _ (sha256 : List ℕ → List ℕ) (compiler : DeckCompiler) (spec : DeckSpec) where
  IsAccepted-perm :
      (cards : List Card)
      → Permᴰ spec.cards cards
      → IsAccepted compiler spec
      → IsAccepted compiler (record spec { cards = cards })
  IsAccepted-perm cards p v = record {
    key_valid = v.key_valid;
    nonempty = sym (no_cards-perm p) ∙ v.nonempty;
    few = subst (λ n. n ≤ 64) (length-perm p) v.few;
    each = All-perm (CardIsValid compiler) p v.each;
    distinct = Distinct-perm p v.distinct;
  }

  compile_permuted :
      (cards : List Card) {lock : DeckLock}
      → Permᴰ spec.cards cards
      → compile sha256 compiler spec ≡ ok lock
      → compile sha256 compiler (record spec { cards = cards }) ≡ ok lock
  compile_permuted cards {lock} p h =
      let (v, e) = compile-ok sha256 compiler spec h in
      compiles sha256 compiler (record spec { cards = cards }) (IsAccepted-perm cards p v)
      ∙ ap ok (ap (lock_of sha256 spec.key) (sym (sort_cards-eq p v.distinct)) ∙ sym e)

  -- A Deck that compiles does so with its Cards in any other order, and to the same lock.
  pub compile-perm :
      (cards : List Card) {lock : DeckLock}
      → Perm spec.cards cards
      → compile sha256 compiler spec ≡ ok lock
      → compile sha256 compiler (record spec { cards = cards }) ≡ ok lock
  compile-perm cards {lock} p h = ∥∥₁_elim p (results_set _ _) (λ q. compile_permuted cards q h)

  -- The lock has the Cards of the Deck, each once, strictly by their keys.
  pub compile-IsSorted :
      {lock : DeckLock}
      → compile sha256 compiler spec ≡ ok lock
      → (lock.key ≡ spec.key) × Perm lock.cards spec.cards × IsSorted lock.cards
  compile-IsSorted {lock} h =
      let (v, e) = compile-ok sha256 compiler spec h in
      (
        ap (λ (l : DeckLock). l.key) e,
        subst (λ (l : DeckLock). Perm l.cards spec.cards) (sym e) ∣ sort_cards-perm spec.cards ∣₁,
        subst (λ (l : DeckLock). IsSorted l.cards) (sym e)
            (sort_cards-IsSorted spec.cards v.distinct),
      )

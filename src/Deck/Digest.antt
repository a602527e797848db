-- ===== src/Deck/Digest.antt =====
-- What crates/paraegox-deck/src/lib.rs feeds to the hash: it determines the Deck, so that two locks
-- with one digest are one lock or a collision of the hash.
use para_egox.Prelude.{
  ℕ, suc, ◌<◌, ◌≡◌, refl, sym, ◌∙◌, ap, ap₂, List, [], ◌∷◌, ◌++◌, arith, length, All, ok,
  Bool-cases, inl, inr,
}
use mathlib.Core.List.{append_assoc}
use para_egox.Text.{Text, len, as_bytes, len-length}
use para_egox.Text.Utf8.{as_bytes-injective}
use para_egox.Deck.{
  Card, DeckSpec, DeckLock, DeckCompiler, to_be_bytes, digest_field, digest_cards, digest_input,
  digest_domain, insert_card, sort_cards, text_lt, compile, lock_of,
}
use para_egox.Deck.Acceptance.{CardIsValid, compile-ok}

abbrev pub u64_limit : ℕ
u64_limit = 18446744073709551616

append-split :
    (xs ys a b : List ℕ) → length xs ≡ length ys → xs ++ a ≡ ys ++ b → (xs ≡ ys) × (a ≡ b)
append-split [] [] a b e h = (refl, h)
append-split [] (y ∷ ys) a b e h = absurd (omega arith)
append-split (x ∷ xs) [] a b e h = absurd (omega arith)
append-split (x ∷ xs) (y ∷ ys) a b e h =
    let same : x ≡ y = ground arith in
    let (tails, rest) = append-split xs ys a b (omega arith) (ground arith) in
    (ap₂ (λ z zs. z ∷ zs) same tails, rest)

to_be_bytes-injective :
    (n m : ℕ) → n < u64_limit → m < u64_limit → to_be_bytes n ≡ to_be_bytes m → n ≡ m
unfolding to_be_bytes
to_be_bytes-injective n m u v h = ground arith

-- A text whose length fits the field of eight bytes.
abbrev pub Fits : Text → Type 0
Fits t = len t < u64_limit

count-split :
    (n m : ℕ) (a b : List ℕ)
    → n < u64_limit
    → m < u64_limit
    → to_be_bytes n ++ a ≡ to_be_bytes m ++ b
    → (n ≡ m) × (a ≡ b)
unfolding to_be_bytes
count-split n m a b u v h =
    let (e, f) = append-split (to_be_bytes n) (to_be_bytes m) a b refl h in
    (to_be_bytes-injective n m u v e, f)

-- No field runs into the next one.
field-split :
    (s t : Text) (a b : List ℕ)
    → Fits s
    → Fits t
    → digest_field s ++ a ≡ digest_field t ++ b
    → (s ≡ t) × (a ≡ b)
unfolding digest_field
field-split s t a b u v h =
    let (e, f) = count-split (len s) (len t) (as_bytes s ++ a) (as_bytes t ++ b) u v (
      sym (append_assoc (to_be_bytes (len s)) (as_bytes s) a)
      ∙ h
      ∙ append_assoc (to_be_bytes (len t)) (as_bytes t) b) in
    let (same, rest) =
      append-split (as_bytes s) (as_bytes t) a b (sym (len-length s) ∙ e ∙ len-length t) f in
    (as_bytes-injective s t same, rest)

abbrev pub CardFits : Card → Type 0
CardFits card = Fits card.key × Fits card.definition

cards-injective :
    (xs ys : List Card)
    → All CardFits xs
    → All CardFits ys
    → length xs ≡ length ys
    → digest_cards xs ≡ digest_cards ys
    → xs ≡ ys
unfolding digest_cards
cards-injective [] [] u v e h = refl
cards-injective [] (y ∷ ys) u v e h = absurd (omega arith)
cards-injective (x ∷ xs) [] u v e h = absurd (omega arith)
cards-injective (x ∷ xs) (y ∷ ys) (u, us) (v, vs) e h =
    let (key, f) = field-split x.key y.key _ _ u.0 v.0 h in
    let (definition, g) = field-split x.definition y.definition _ _ u.1 v.1 f in
    ap₂ (λ c cs. c ∷ cs)
      (ap₂ (λ k d. let c : Card = record { key = k; definition = d } in c) key definition)
      (cards-injective xs ys us vs (omega arith) g)

digest_input-injective :
    (k l : Text) (xs ys : List Card)
    → Fits k
    → Fits l
    → All CardFits xs
    → All CardFits ys
    → length xs < u64_limit
    → length ys < u64_limit
    → digest_input k xs ≡ digest_input l ys
    → (k ≡ l) × (xs ≡ ys)
unfolding digest_input
digest_input-injective k l xs ys u v us vs m n h =
    let (_, e) = append-split digest_domain digest_domain _ _ refl h in
    let (key, f) = field-split k l _ _ u v e in
    let (many, g) = count-split (length xs) (length ys) _ _ m n f in
    (key, cards-injective xs ys us vs many g)

insert_card-Fits :
    (card : Card) (cards : List Card)
    → CardFits card
    → All CardFits cards
    → All CardFits (insert_card card cards)
unfolding insert_card
insert_card-Fits card [] u us = (u, tt)
insert_card-Fits card (c ∷ cards) u us = elim (Bool-cases (text_lt card.key c.key)) [
  | inl before ↦ rw before (u, us)
  | inr behind ↦ rw behind (us.0, insert_card-Fits card cards u us.1)
]

sort_cards-Fits : (cards : List Card) → All CardFits cards → All CardFits (sort_cards cards)
unfolding sort_cards
sort_cards-Fits [] us = tt
sort_cards-Fits (card ∷ cards) (u, us) =
    insert_card-Fits card (sort_cards cards) u (sort_cards-Fits cards us)

length-insert_card :
    (card : Card) (cards : List Card) → length (insert_card card cards) ≡ suc (length cards)
unfolding insert_card
length-insert_card card [] = refl
length-insert_card card (c ∷ cards) = elim (Bool-cases (text_lt card.key c.key)) [
  | inl before ↦ rw before refl
  | inr behind ↦ rw behind (ap suc (length-insert_card card cards))
]

length-sort_cards : (cards : List Card) → length (sort_cards cards) ≡ length cards
unfolding sort_cards
length-sort_cards [] = refl
length-sort_cards (card ∷ cards) =
    length-insert_card card (sort_cards cards) ∙ ap suc (length-sort_cards cards)

CardIsValid-Fits :
    (compiler : DeckCompiler) (cards : List Card)
    → All (CardIsValid compiler) cards
    → All CardFits cards
CardIsValid-Fits compiler [] v = tt
CardIsValid-Fits compiler (card ∷ cards) (v, vs) = (
  (omega (arith, v.key_valid.short), omega (arith, v.definition_valid.short)),
  CardIsValid-Fits compiler cards vs,
)

-- Two Decks that compile, with any compilers, and give the hash the same bytes, have the same lock.
pub compile-digest_input :
    (sha256 : List ℕ → List ℕ) (compiler other : DeckCompiler) (spec next : DeckSpec)
    (lock locked : DeckLock)
    → compile sha256 compiler spec ≡ ok lock
    → compile sha256 other next ≡ ok locked
    → digest_input lock.key lock.cards ≡ digest_input locked.key locked.cards
    → lock ≡ locked
compile-digest_input sha256 compiler other spec next lock locked h k same =
    let (v, e) = compile-ok sha256 compiler spec h in
    let (w, f) = compile-ok sha256 other next k in
    let bytes : digest_input spec.key (sort_cards spec.cards)
        ≡ digest_input next.key (sort_cards next.cards) =
      ap (λ (l : DeckLock). digest_input l.key l.cards) (sym e)
      ∙ same
      ∙ ap (λ (l : DeckLock). digest_input l.key l.cards) f in
    let (key, cards) =
      digest_input-injective spec.key next.key (sort_cards spec.cards) (sort_cards next.cards)
        (omega (arith, v.key_valid.short)) (omega (arith, w.key_valid.short))
        (sort_cards-Fits spec.cards (CardIsValid-Fits compiler spec.cards v.each))
        (sort_cards-Fits next.cards (CardIsValid-Fits other next.cards w.each))
        (omega (arith, length-sort_cards spec.cards, v.few))
        (omega (arith, length-sort_cards next.cards, w.few)) bytes in
    e ∙ ap₂ (lock_of sha256) key cards ∙ sym f

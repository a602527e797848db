-- ===== src/Deck/Sorting.antt =====
-- The order of keys and the sort of crates/paraegox-deck/src/lib.rs: the list of the lock depends on
-- which Cards there are, and not on their order.
use para_egox.Prelude.{
  ◌≡◌, ◌≢◌, refl, ◌∙◌, ap₂, true, false, List, [], ◌∷◌, arith, elem, Distinct, nat_eq, list_eq,
  list_beq_iff, Bool-cases, inl, inr, All,
}
use mathlib.Core.List.{Permᴰ}
use para_egox.Text.{Text}
use para_egox.Deck.{Card, text_lt, insert_card, sort_cards}

pub text_lt_irrefl : (s : Text) → text_lt s s ≡ false
unfolding text_lt
text_lt_irrefl [] = refl
text_lt_irrefl (c ∷ s) = ground (arith, text_lt_irrefl s)

pub text_lt_trans : (s t u : Text) → text_lt s t ≡ true → text_lt t u ≡ true → text_lt s u ≡ true
unfolding text_lt
text_lt_trans [] [] u h k = ground arith
text_lt_trans [] (d ∷ t) [] h k = ground arith
text_lt_trans [] (d ∷ t) (e ∷ u) h k = refl
text_lt_trans (c ∷ s) [] u h k = ground arith
text_lt_trans (c ∷ s) (d ∷ t) [] h k = ground arith
text_lt_trans (c ∷ s) (d ∷ t) (e ∷ u) h k = ground (arith, text_lt_trans s t u)

pub text_lt-total : (s t : Text) → text_lt s t ≡ false → text_lt t s ≡ false → s ≡ t
unfolding text_lt
text_lt-total [] [] h k = refl
text_lt-total [] (d ∷ t) h k = ground arith
text_lt-total (c ∷ s) [] h k = ground arith
text_lt-total (c ∷ s) (d ∷ t) h k = ground (arith, text_lt-total s t)

-- Two Cards with different keys are inserted in either order.
insert_comm :
    (a b : Card) (cs : List Card)
    → a.key ≢ b.key
    → insert_card a (insert_card b cs) ≡ insert_card b (insert_card a cs)
unfolding insert_card
insert_comm a b [] differ =
    ground (arith, text_lt-total a.key b.key, text_lt_trans a.key b.key a.key, text_lt_irrefl a.key)
insert_comm a b (c ∷ cs) differ = ground (
  arith,
  insert_comm a b cs differ,
  text_lt-total a.key b.key,
  text_lt_trans a.key b.key a.key,
  text_lt_irrefl a.key,
  text_lt_trans a.key b.key c.key,
  text_lt_trans b.key a.key c.key,
)

abbrev pub card_keys : List Card → List Text
card_keys [] = []
card_keys (card ∷ cards) = card.key ∷ card_keys cards

-- In any order, Cards with distinct keys sort to one list, and the keys stay distinct.
pub elem-perm :
    (k : Text) {xs ys : List Card} → Permᴰ xs ys → elem k (card_keys xs) ≡ elem k (card_keys ys)
unfolding elem
elem-perm k Permᴰ.nil = refl
elem-perm k (Permᴰ.cons e p) = ground (arith, elem-perm k p)
elem-perm k (Permᴰ.swap e f) = ground arith
elem-perm k (Permᴰ.trans p q) = elem-perm k p ∙ elem-perm k q

pub Distinct-perm :
    {xs ys : List Card} → Permᴰ xs ys → Distinct (card_keys xs) → Distinct (card_keys ys)
unfolding elem
Distinct-perm Permᴰ.nil d = d
Distinct-perm (Permᴰ.cons {a} {b} e p) d = (ground (arith, elem-perm a.key p), Distinct-perm p d.1)
Distinct-perm (Permᴰ.swap {a} {b} e f) d =
    ground (arith, list_beq_iff a.key b.key, list_beq_iff b.key a.key)
Distinct-perm (Permᴰ.trans p q) d = Distinct-perm q (Distinct-perm p d)

pub sort_cards-eq :
    {xs ys : List Card} → Permᴰ xs ys → Distinct (card_keys xs) → sort_cards xs ≡ sort_cards ys
unfolding sort_cards elem
sort_cards-eq Permᴰ.nil d = refl
sort_cards-eq (Permᴰ.cons e p) d = ap₂ insert_card e (sort_cards-eq p d.1)
sort_cards-eq (Permᴰ.swap {a} {b} {l = l} e f) d =
    insert_comm a b (sort_cards l) (λ q. ground (arith, list_beq_iff b.key a.key))
    ∙ ap₂ (λ x y. insert_card x (insert_card y (sort_cards l))) f e
sort_cards-eq (Permᴰ.trans p q) d = sort_cards-eq p d ∙ sort_cards-eq q (Distinct-perm p d)

perm_refl : (cards : List Card) → Permᴰ cards cards
perm_refl [] = Permᴰ.nil
perm_refl (card ∷ cards) = Permᴰ.cons refl (perm_refl cards)

-- The sort keeps the Cards.
insert_card-perm : (card : Card) (cards : List Card) → Permᴰ (insert_card card cards) (card ∷ cards)
unfolding insert_card
insert_card-perm card [] = Permᴰ.cons refl Permᴰ.nil
insert_card-perm card (c ∷ cs) = elim (Bool-cases (text_lt card.key c.key)) [
  | inl before ↦ rw before (perm_refl (card ∷ c ∷ cs))
  | inr later ↦
      rw later (Permᴰ.trans (Permᴰ.cons refl (insert_card-perm card cs)) (Permᴰ.swap refl refl))
]

pub sort_cards-perm : (cards : List Card) → Permᴰ (sort_cards cards) cards
unfolding sort_cards
sort_cards-perm [] = Permᴰ.nil
sort_cards-perm (card ∷ cards) =
    Permᴰ.trans (insert_card-perm card (sort_cards cards)) (Permᴰ.cons refl (sort_cards-perm cards))

-- Each key comes before those that follow it.
abbrev pub IsSorted : List Card → Type 0
IsSorted [] = Unit {0}
IsSorted (card ∷ cards) = All (λ c. text_lt card.key c.key ≡ true) cards × IsSorted cards

module _ (k : Text) where
  abbrev After : Card → Type 0
  After c = text_lt k c.key ≡ true

  All-insert_card :
      (card : Card) (cs : List Card) → After card → All After cs → All After (insert_card card cs)
  unfolding insert_card
  All-insert_card card [] h a = (h, tt)
  All-insert_card card (c ∷ cs) h a = elim (Bool-cases (text_lt card.key c.key)) [
    | inl before ↦ rw before (h, a)
    | inr later ↦ rw later (a.0, All-insert_card card cs h a.1)
  ]

All-After : (j k : Text) (cs : List Card) → text_lt j k ≡ true → All (After k) cs → All (After j) cs
All-After j k [] h a = tt
All-After j k (c ∷ cs) h a = (text_lt_trans j k c.key h a.0, All-After j k cs h a.1)

insert_card-IsSorted :
    (card : Card) (cs : List Card)
    → elem card.key (card_keys cs) ≡ false
    → IsSorted cs
    → IsSorted (insert_card card cs)
unfolding insert_card elem
insert_card-IsSorted card [] new s = (tt, tt)
insert_card-IsSorted card (c ∷ cs) new s = elim (Bool-cases (text_lt card.key c.key)) [
  | inl before ↦ rw before ((before, All-After card.key c.key cs before s.0), s)
  | inr later ↦
      let turned : text_lt c.key card.key ≡ true =
        ground (arith, text_lt-total card.key c.key, list_beq_iff c.key card.key) in
      rw later
        (All-insert_card c.key card cs turned s.0, insert_card-IsSorted card cs (ground arith) s.1)
]

pub sort_cards-IsSorted :
    (cards : List Card) → Distinct (card_keys cards) → IsSorted (sort_cards cards)
unfolding sort_cards
sort_cards-IsSorted [] d = tt
sort_cards-IsSorted (card ∷ cards) d =
    insert_card-IsSorted card (sort_cards cards) (elem-perm card.key (sort_cards-perm cards) ∙ d.0)
      (sort_cards-IsSorted cards d.1)

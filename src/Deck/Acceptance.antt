-- ===== src/Deck/Acceptance.antt =====
-- Which Decks crates/paraegox-deck/src/lib.rs compiles, and to what.
use para_egox.Prelude.{
  Fresh, Fresh-Distinct, Distinct-Fresh, none_seen, ℕ, suc, ◌≤◌, ◌≡◌, ◌↔◌, ◌∙◌, sym, ap, true,
  false, List, [], ◌∷◌, ◌++◌, arith, elem, Distinct, nat_eq, list_eq, list_beq_iff, Result-cases,
  inl, inr, All, ok, any, length,
}
use mathlib.Core.List.{append_assoc, append-nil}
use para_egox.Text.{Text, trim, is_empty, is_control, len}
use para_egox.Deck.{
  Card, DeckSpec, DeckLock, DeckCompiler, Field, validate_field, check_card, resolve_cards,
  sort_cards, compile, lock_of, no_cards, max_cards_per_deck, max_deck_key_bytes,
  max_card_key_bytes, max_definition_ref_bytes,
}
use para_egox.Deck.Sorting.{card_keys}

-- A field that may stand in a Deck: not empty, trimmed, without control characters and short enough.
pub record IsField (maximum : ℕ) (value : Text) : Type 0 where
  pub nonempty : is_empty value ≡ false
  pub trimmed : trim value ≡ value
  pub printable : any is_control value ≡ false
  pub short : len value ≤ maximum

pub validate_field_iff :
    (f : Field) (value : Text) (maximum : ℕ)
    → (validate_field f value maximum ≡ ok tt) ↔ IsField maximum value
unfolding validate_field
validate_field_iff f value maximum = (
  λ h. ground (arith, list_beq_iff (trim value) value),
  λ v. ground (arith, list_beq_iff (trim value) value),
)

pub record CardIsValid (compiler : DeckCompiler) (card : Card) : Type 0 where
  pub key_valid : IsField max_card_key_bytes card.key
  pub definition_valid : IsField max_definition_ref_bytes card.definition
  pub known : elem card.definition compiler.definitions ≡ true

module _ (compiler : DeckCompiler) (i : ℕ) (seen : List Text) (card : Card) where
  card_checked :
      check_card compiler i seen card ≡ ok tt
      → CardIsValid compiler card × (elem card.key seen ≡ false)
  unfolding check_card
  card_checked h = (
    record {
      key_valid =
          (validate_field_iff (Field.card_key i) card.key max_card_key_bytes).0 (ground arith);
      definition_valid =
          (validate_field_iff (Field.card_definition i) card.definition max_definition_ref_bytes).0
            (ground arith);
      known = ground arith;
    },
    ground arith,
  )

  checks_card :
      CardIsValid compiler card
      → elem card.key seen ≡ false
      → check_card compiler i seen card ≡ ok tt
  unfolding check_card
  checks_card v new = ground (
    arith,
    (validate_field_iff (Field.card_key i) card.key max_card_key_bytes).1 v.key_valid,
    (validate_field_iff (Field.card_definition i) card.definition max_definition_ref_bytes).1
        v.definition_valid,
  )

cards_resolved :
    (compiler : DeckCompiler) (i : ℕ) (seen : List Text) (out cards : List Card)
    {result : List Card}
    → resolve_cards compiler i seen out cards ≡ ok result
    → (result ≡ out ++ cards) × All (CardIsValid compiler) cards × Fresh seen (card_keys cards)
unfolding resolve_cards
cards_resolved compiler i seen out [] h = (ground (arith, append-nil out), tt, tt)
cards_resolved compiler i seen out (card ∷ cards) h =
    let checked : check_card compiler i seen card ≡ ok tt = ground arith in
    let (v, new) = card_checked compiler i seen card checked in
    let (e, vs, news) =
      cards_resolved compiler (suc i) (card.key ∷ seen) (out ++ card ∷ []) cards (ground arith) in
    (e ∙ append_assoc out (card ∷ []) cards, (v, vs), (new, news))

resolves_cards :
    (compiler : DeckCompiler) (i : ℕ) (seen : List Text) (out cards : List Card)
    → All (CardIsValid compiler) cards
    → Fresh seen (card_keys cards)
    → resolve_cards compiler i seen out cards ≡ ok (out ++ cards)
unfolding resolve_cards
resolves_cards compiler i seen out [] vs news = ground (arith, append-nil out)
resolves_cards compiler i seen out (card ∷ cards) vs news =
    rw (checks_card compiler i seen card vs.0 news.0) (
      resolves_cards compiler (suc i) (card.key ∷ seen) (out ++ card ∷ []) cards vs.1 news.1
      ∙ ap ok (append_assoc out (card ∷ []) cards))

-- A Deck that the compiler accepts, said of the whole Deck at once.
pub record IsAccepted (compiler : DeckCompiler) (spec : DeckSpec) : Type 0 where
  pub key_valid : IsField max_deck_key_bytes spec.key
  pub nonempty : no_cards spec.cards ≡ false
  pub few : length spec.cards ≤ max_cards_per_deck
  pub each : All (CardIsValid compiler) spec.cards
  pub distinct : Distinct (card_keys spec.cards)

module _ (sha256 : List ℕ → List ℕ) (compiler : DeckCompiler) (spec : DeckSpec) where
  pub compile-ok :
      {lock : DeckLock}
      → compile sha256 compiler spec ≡ ok lock
      → IsAccepted compiler spec × (lock ≡ lock_of sha256 spec.key (sort_cards spec.cards))
  unfolding compile
  compile-ok {lock} h = elim (Result-cases (resolve_cards compiler 0 [] [] spec.cards)) [
    | inr (e, failed) ↦ absurd (ground arith)
    | inl (cards, resolved) ↦
        let (same, valid, fresh) = cards_resolved compiler 0 [] [] spec.cards resolved in
        (
          record {
            key_valid =
                (validate_field_iff Field.deck_key spec.key max_deck_key_bytes).0 (ground arith);
            nonempty = ground arith;
            few = ground arith;
            each = valid;
            distinct = (Fresh-Distinct [] (card_keys spec.cards) fresh).0;
          },
          ground (arith, ap sort_cards same),
        )
  ]

  pub compiles :
      IsAccepted compiler spec
      → compile sha256 compiler spec ≡ ok (lock_of sha256 spec.key (sort_cards spec.cards))
  unfolding compile
  compiles v = ground (
    arith,
    (validate_field_iff Field.deck_key spec.key max_deck_key_bytes).1 v.key_valid,
    resolves_cards compiler 0 [] [] spec.cards v.each
        (Distinct-Fresh [] (card_keys spec.cards) v.distinct (none_seen (card_keys spec.cards))),
  )

  -- The compiler gives a lock exactly for the Decks with a valid key, 1 to 64 Cards, valid fields,
  -- known definitions and distinct keys, and the lock is then no other than the key with all the
  -- Cards, sorted, and their digest: every other Deck is refused.
  pub compile_iff :
      (lock : DeckLock)
      → (compile sha256 compiler spec ≡ ok lock)
        ↔ (IsAccepted compiler spec × (lock ≡ lock_of sha256 spec.key (sort_cards spec.cards)))
  compile_iff lock = (compile-ok, λ h. compiles h.0 ∙ ap ok (sym h.1))

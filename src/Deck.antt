-- ===== src/Deck.antt =====
-- crates/paraegox-deck/src/lib.rs: Decks of Cards, their compilation and the digest of the result.
-- The name of a field in an error is data instead of its formatted text. SHA-256 is an argument.
pub mod Sorting
pub mod Acceptance
pub mod Determinism
pub mod Digest
use para_egox.Prelude.{
  ℕ, suc, ◌+◌, ◌/◌, ◌%◌, ◌^◌, ◌≡◌, Bool, true, false, not, Option, none, some, List, [], ◌∷◌, ◌++◌,
  ltb, ◌==◌, ◌=?◌, if◌then◌else◌, Result, ok, err, ◌>>=◌, ◌>>◌, reject_if, any, length, elem,
  nat_eq, list_eq,
}
use para_egox.Text.{Text, text, len, trim, as_bytes, is_empty, is_control}

abbrev pub max_cards_per_deck : ℕ
max_cards_per_deck = 64

abbrev pub max_deck_key_bytes : ℕ
max_deck_key_bytes = 128

abbrev pub max_card_key_bytes : ℕ
max_card_key_bytes = 128

abbrev pub max_definition_ref_bytes : ℕ
max_definition_ref_bytes = 256

pub record Card : Type 0 where
  pub key : Text
  pub definition : Text

pub record DeckSpec : Type 0 where
  pub key : Text
  pub cards : List Card

-- `ResolvedCard` has the fields of `Card`.
pub record DeckLock : Type 0 where
  pub key : Text
  pub cards : List Card
  pub digest : Text

pub data Field : Type 0 where
  deck_key : Field
  definitions card_key card_definition : ℕ → Field

pub data Reason : Type 0 where
  empty untrimmed control too_long : Reason

pub data DeckCompileError : Type 0 where
  empty_deck : DeckCompileError
  too_many_cards : ℕ → ℕ → DeckCompileError
  invalid_field : Field → Reason → DeckCompileError
  duplicate_card_key : Text → DeckCompileError
  unknown_definition : Text → Text → DeckCompileError

unfoldable pub validate_field : Field → Text → ℕ → Result DeckCompileError (Unit {0})
validate_field field value maximum_bytes = do
  reject_if (is_empty value) (invalid_field field empty)
  reject_if (not (trim value =? value)) (invalid_field field untrimmed)
  reject_if (any is_control value) (invalid_field field control)
  reject_if (ltb maximum_bytes (len value)) (invalid_field field too_long)

-- The set of definitions as a list without repetition.
pub record DeckCompiler : Type 0 where
  pub definitions : List Text

unfoldable pub accept_definitions : ℕ → List Text → List Text → Result DeckCompileError (List Text)
accept_definitions index accepted [] = ok accepted
accept_definitions index accepted (definition ∷ rest) =
    validate_field (definitions index) definition max_definition_ref_bytes >>= λ _.
    accept_definitions (suc index)
      (if elem definition accepted then accepted else accepted ++ definition ∷ []) rest

unfoldable pub new_compiler : List Text → Result DeckCompileError DeckCompiler
new_compiler given = do
  accepted ← accept_definitions 0 [] given
  ok (record { definitions = accepted })

-- One turn of the loop of `compile`, without the push.
unfoldable pub check_card : DeckCompiler → ℕ → List Text → Card → Result DeckCompileError (Unit {0})
check_card compiler index card_keys card = do
  validate_field (card_key index) card.key max_card_key_bytes
  validate_field (card_definition index) card.definition max_definition_ref_bytes
  reject_if (elem card.key card_keys) (duplicate_card_key card.key)
  reject_if (not (elem card.definition compiler.definitions))
      (unknown_definition card.key card.definition)

-- The loop: the keys seen and the cards resolved so far.
unfoldable pub resolve_cards :
    DeckCompiler → ℕ → List Text → List Card → List Card → Result DeckCompileError (List Card)
resolve_cards compiler index card_keys cards [] = ok cards
resolve_cards compiler index card_keys cards (card ∷ rest) =
    check_card compiler index card_keys card >>= λ _.
    resolve_cards compiler (suc index) (card.key ∷ card_keys) (cards ++ card ∷ []) rest

-- The order of `String`: that of its bytes, which is that of its characters.
unfoldable pub text_lt : Text → Text → Bool
text_lt [] [] = false
text_lt [] (d ∷ t) = true
text_lt (c ∷ s) [] = false
text_lt (c ∷ s) (d ∷ t) = let rest = text_lt s t in if c == d then rest else ltb c d

unfoldable pub insert_card : Card → List Card → List Card
insert_card card [] = card ∷ []
insert_card card (c ∷ cs) =
    if text_lt card.key c.key then card ∷ c ∷ cs else c ∷ insert_card card cs

-- `sort_unstable_by` the key. The keys differ where it is called, so any sort gives this list.
unfoldable pub sort_cards : List Card → List Card
sort_cards [] = []
sort_cards (card ∷ cards) = insert_card card (sort_cards cards)

-- `u64::to_be_bytes`, of a count below 2 ^ 64.
unfoldable pub to_be_bytes : ℕ → List ℕ
to_be_bytes n =
    (n / 2 ^ 56 % 256)
    ∷ (n / 2 ^ 48 % 256)
    ∷ (n / 2 ^ 40 % 256)
    ∷ (n / 2 ^ 32 % 256)
    ∷ (n / 2 ^ 24 % 256)
    ∷ (n / 2 ^ 16 % 256)
    ∷ (n / 2 ^ 8 % 256)
    ∷ (n % 256)
    ∷ []

unfoldable pub digest_field : Text → List ℕ
digest_field value = to_be_bytes (len value) ++ as_bytes value

unfoldable pub digest_cards : List Card → List ℕ
digest_cards [] = []
digest_cards (card ∷ cards) =
    digest_field card.key ++ (digest_field card.definition ++ digest_cards cards)

abbrev pub digest_domain : List ℕ
digest_domain = text "paraegox.deck-lock" ++ 0 ∷ []

-- All that is fed to the hasher, in order.
unfoldable pub digest_input : Text → List Card → List ℕ
digest_input key cards =
    digest_domain ++ (digest_field key ++ (to_be_bytes (length cards) ++ digest_cards cards))

abbrev pub hex_digit : ℕ → ℕ
hex_digit n = if ltb n 10 then 48 + n else 87 + n

unfoldable pub hex : List ℕ → Text
hex [] = []
hex (byte ∷ bytes) = hex_digit (byte / 16) ∷ hex_digit (byte % 16) ∷ hex bytes

unfoldable pub deck_digest : (List ℕ → List ℕ) → Text → List Card → Text
deck_digest sha256 key cards = hex (sha256 (digest_input key cards))

abbrev pub lock_of : (List ℕ → List ℕ) → Text → List Card → DeckLock
lock_of sha256 key cards = record {
  key = key;
  cards = cards;
  digest = deck_digest sha256 key cards;
}

abbrev pub no_cards : List Card → Bool
no_cards [] = true
no_cards (card ∷ cards) = false

unfoldable pub compile :
    (List ℕ → List ℕ) → DeckCompiler → DeckSpec → Result DeckCompileError DeckLock
compile sha256 compiler spec = do
  validate_field deck_key spec.key max_deck_key_bytes
  reject_if (no_cards spec.cards) empty_deck
  reject_if (ltb max_cards_per_deck (length spec.cards))
      (too_many_cards (length spec.cards) max_cards_per_deck)
  cards ← resolve_cards compiler 0 [] [] spec.cards
  ok (lock_of sha256 spec.key (sort_cards cards))

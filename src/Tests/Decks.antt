-- ===== src/Tests/Decks.antt =====
-- Runs of the Deck compiler and of the parser of identities.
use para_egox.Prelude.{
  ℕ, ◌≡◌, ◌↔◌, refl, List, [], ◌∷◌, ok, nat_eq, list_eq, list_beq, elem, length,
}
use mathlib.Core.List.{Perm, Permᴰ}
use para_egox.Text.{Text, text, len, len_utf8, trim, is_control, is_whitespace}
use para_egox.Kernel.{parse_node_id}
use para_egox.Kernel.NodeId.{IsNodeId, parse_node_id_iff}
use para_egox.Deck.{
  Card, DeckSpec, DeckLock, DeckCompiler, compile, lock_of, sort_cards, text_lt, insert_card,
  validate_field, check_card, resolve_cards,
}
use para_egox.Deck.Acceptance.{IsAccepted, compile_iff}
use para_egox.Deck.Digest.{compile-digest_input}
use para_egox.Deck.Determinism.{compile-perm, compile-IsSorted}
use para_egox.Deck.Sorting.{IsSorted}

abbrev definition : Text
definition = text "builtin.agent.deterministic@1"

abbrev compiler : DeckCompiler
compiler = record { definitions = definition ∷ [] }

abbrev alice : Card
alice = record { key = text "alice"; definition = definition }

abbrev bob : Card
bob = record { key = text "bob"; definition = definition }

abbrev spec : DeckSpec
spec = record { key = text "duet"; cards = bob ∷ alice ∷ [] }

-- A hash of one byte.
abbrev checksum : List ℕ → List ℕ
checksum bytes = length bytes ∷ []

abbrev lock : DeckLock
lock = lock_of checksum (text "duet") (alice ∷ bob ∷ [])

compiled : compile checksum compiler spec ≡ ok lock
unfolding compile validate_field len len_utf8 trim is_control is_whitespace list_beq resolve_cards
    check_card elem sort_cards insert_card text_lt
compiled = refl

compile_iff_example :
    (compile checksum compiler spec ≡ ok lock)
    ↔ (IsAccepted compiler spec × (lock ≡ lock_of checksum spec.key (sort_cards spec.cards)))
compile_iff_example = compile_iff checksum compiler spec lock

swapped : Perm spec.cards (alice ∷ bob ∷ [])
swapped = ∣ Permᴰ.swap refl refl ∣₁

compile-perm_example :
    compile checksum compiler (record spec { cards = alice ∷ bob ∷ [] }) ≡ ok lock
compile-perm_example = compile-perm checksum compiler spec (alice ∷ bob ∷ []) swapped compiled

compile-IsSorted_example : (lock.key ≡ spec.key) × Perm lock.cards spec.cards × IsSorted lock.cards
compile-IsSorted_example = compile-IsSorted checksum compiler spec {lock = lock} compiled

parse_node_id_iff_example :
    (parse_node_id (text "node-1") ≡ ok (text "node-1")) ↔ IsNodeId (text "node-1")
parse_node_id_iff_example = parse_node_id_iff (text "node-1")

abbrev ordered : DeckSpec
ordered = record { key = text "duet"; cards = alice ∷ bob ∷ [] }

ordered_compiled : compile checksum compiler ordered ≡ ok lock
ordered_compiled = compile-perm checksum compiler spec (alice ∷ bob ∷ []) swapped compiled

compile-digest_input_example : lock ≡ lock
compile-digest_input_example =
    compile-digest_input checksum compiler compiler spec ordered lock lock compiled ordered_compiled
      refl

-- ===== src/Runtime/Deck.antt =====
-- crates/paraegox-runtime/src/deck.rs: a compiled Deck with the implementations of its Cards.
use para_egox.Prelude.{
  ℕ, suc, ◌||◌, not, Option, none, some, List, [], ◌∷◌, ◌==◌, ◌=?◌, if◌then◌else◌, Result, ok, err,
  ◌>>◌, reject_if, length, get_elem?, list_eq, nat_eq,
}
use para_egox.Text.{Text}
use para_egox.Deck.{Card, DeckLock}

pub record CardContext : Type 0 where
  pub card_instance_id : ℕ
  pub card_key : Text
  pub definition : Text

-- What the host reads of an implementation; its `start` and `stop` are the host's environment.
pub record CardImplementation : Type 0 where
  pub card_key : Text
  pub definition : Text

pub record DeckLaunch : Type 0 where
  pub lock : DeckLock
  pub implementations : List CardImplementation

pub data DeckLaunchError : Type 0 where
  implementation_count : ℕ → ℕ → DeckLaunchError
  implementation_mismatch : ℕ → Card → CardImplementation → DeckLaunchError

-- The loop over the Cards and their implementations, which stops at the shorter list.
unfoldable pub check_implementations :
    ℕ → List Card → List CardImplementation → Result DeckLaunchError (Unit {0})
check_implementations index [] _ = ok tt
check_implementations index (card ∷ cards) [] = ok tt
check_implementations index (card ∷ cards) (implementation ∷ implementations) =
    let rest = check_implementations (suc index) cards implementations in
    if not (implementation.card_key =? card.key)
      || not (implementation.definition =? card.definition)
    then err (implementation_mismatch index card implementation)
    else rest

unfoldable pub new_launch : DeckLock → List CardImplementation → Result DeckLaunchError DeckLaunch
new_launch lock implementations = do
  reject_if (not (length implementations == length lock.cards))
      (implementation_count (length lock.cards) (length implementations))
  check_implementations 0 lock.cards implementations
  ok (record { lock = lock; implementations = implementations })

pub record DeckOwner : Type 0 where
  pub lock : DeckLock
  pub implementations : List CardImplementation
  pub card_instance_ids : List ℕ

-- `none` is the panic of an index out of range.
unfoldable pub context : DeckOwner → ℕ → Option CardContext
context deck index = elim (get_elem? deck.lock.cards index) [
  | none ↦ none
  | some card ↦ elim (get_elem? deck.card_instance_ids index) [
    | none ↦ none
    | some id ↦
        some (record { card_instance_id = id; card_key = card.key; definition = card.definition })
  ]
]

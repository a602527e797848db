-- ===== src/Runtime/Status.antt =====
-- crates/paraegox-runtime/src/status.rs: the snapshot that the host publishes.
use para_egox.Prelude.{ℕ, zero, suc, Option, none, some, List, [], ◌∷◌}
use para_egox.Text.{Text}

pub data RuntimeHostState : Type 0 where
  created starting ready stopping stopped failed : RuntimeHostState

pub record RuntimeHostIdentity : Type 0 where
  pub runtime_host_id : Text
  pub epoch : ℕ

pub data DeckRunState : Type 0 where
  created starting ready stopping stopped failed : DeckRunState

pub data CardInstanceState : Type 0 where
  created starting ready stopping stopped failed : CardInstanceState

pub record CardInstanceSnapshot : Type 0 where
  pub card_instance_id : ℕ
  pub key : Text
  pub definition : Text
  pub generation : ℕ
  pub state : CardInstanceState

pub record DeckRunSnapshot : Type 0 where
  pub deck_run_id : ℕ
  pub deck_key : Text
  pub lock_digest : Text
  pub generation : ℕ
  pub state : DeckRunState
  pub cards : List CardInstanceSnapshot

pub record RuntimeHostSnapshot : Type 0 where
  pub identity : RuntimeHostIdentity
  pub state : RuntimeHostState
  pub deck_run : Option DeckRunSnapshot

unfoldable pub set_runtime_host_state : RuntimeHostState → RuntimeHostSnapshot → RuntimeHostSnapshot
set_runtime_host_state state snapshot = record snapshot { state = state }

abbrev pub with_run_state : DeckRunState → Option DeckRunSnapshot → Option DeckRunSnapshot
with_run_state state none = none
with_run_state state (some run) = some (record run { state = state })

unfoldable pub set_deck_run_state : DeckRunState → RuntimeHostSnapshot → RuntimeHostSnapshot
set_deck_run_state state snapshot = record snapshot {
  deck_run = with_run_state state snapshot.deck_run;
}

-- An index past the end changes nothing.
unfoldable pub set_state_at :
    ℕ → CardInstanceState → List CardInstanceSnapshot → List CardInstanceSnapshot
set_state_at index state [] = []
set_state_at zero state (card ∷ cards) = record card { state = state } ∷ cards
set_state_at (suc index) state (card ∷ cards) = card ∷ set_state_at index state cards

abbrev pub with_card_state : ℕ → CardInstanceState → Option DeckRunSnapshot → Option DeckRunSnapshot
with_card_state index state none = none
with_card_state index state (some run) =
    some (record run { cards = set_state_at index state run.cards })

unfoldable pub set_card_state : ℕ → CardInstanceState → RuntimeHostSnapshot → RuntimeHostSnapshot
set_card_state index state snapshot = record snapshot {
  deck_run = with_card_state index state snapshot.deck_run;
}

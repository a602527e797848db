-- ===== src/Agent/State.antt =====
-- crates/paraegox-agent/src/service.rs: the state behind the service's lock, and the helpers that
-- its operations share. The map of sessions keeps its entries in order of insertion.
use para_egox.Prelude.{
  ℕ, ◌+◌, Bool, true, false, not, Option, none, some, List, [], ◌∷◌, ◌++◌, ltb, leb, ◌==◌,
  if◌then◌else◌, Result, ok, err, length, lookup, insert, erase, is_some, find, take_first, nat_eq,
}
use para_egox.Text.{Text}
use para_egox.Agent.Types.{
  AgentError, not_running, no_card_active, no_evictable_session, terminal_capacity_full,
  TurnTerminal,
}

abbrev pub max_sessions : ℕ
max_sessions = 64

abbrev pub max_retained_turns_per_session : ℕ
max_retained_turns_per_session = 32

pub data ServiceLifecycle : Type 0 where
  created running stopping stopped : ServiceLifecycle

pub record ActiveProfile : Type 0 where
  pub card_instance_id : ℕ
  pub system_prompt : Text

pub record CompletedTurn : Type 0 where
  pub turn_id : ℕ
  pub input : Text
  pub terminal : TurnTerminal

pub record SessionState : Type 0 where
  pub turns : List CompletedTurn
  pub pending_cancellations : List ℕ

-- `cancellation` is the value of the watch channel. Its receiver lives as long as the turn is
-- active, so a send always takes effect.
pub record ActiveTurn : Type 0 where
  pub session_id : ℕ
  pub turn_id : ℕ
  pub cancellation : Bool

pub record AgentState : Type 0 where
  pub lifecycle : ServiceLifecycle
  pub active_profile : Option ActiveProfile
  pub sessions : List (ℕ × SessionState)
  pub session_order : List ℕ
  pub active_turn : Option ActiveTurn

-- A refusal, or the panic of an `expect` or a `debug_assert`.
pub data Abort : Type 0 where
  rejected : AgentError → Abort
  panicked : Abort

abbrev pub default_session : SessionState
default_session = record { turns = []; pending_cancellations = [] }

unfoldable pub new_state : AgentState
new_state = record {
  lifecycle = created;
  active_profile = none;
  sessions = [];
  session_order = [];
  active_turn = none;
}

abbrev pub is_running : ServiceLifecycle → Bool
is_running running = true
is_running _ = false

unfoldable pub require_admission : AgentState → Result Abort (Unit {0})
require_admission state =
    if not (is_running state.lifecycle)
    then err (rejected not_running)
    else if not (is_some state.active_profile)
    then err (rejected no_card_active)
    else ok tt

abbrev pub protected_session : Option ActiveTurn → Option ℕ
protected_session none = none
protected_session (some active) = some active.session_id

abbrev pub differs : Option ℕ → ℕ → Bool
differs none candidate = true
differs (some id) candidate = not (candidate == id)

-- The entry and its place in the order, at the end.
unfoldable pub insert_session : AgentState → ℕ → AgentState
insert_session state session_id = record state {
  sessions = insert session_id default_session state.sessions;
  session_order = state.session_order ++ session_id ∷ [];
}

unfoldable pub evict : AgentState → Result Abort AgentState
evict state =
    elim (take_first (differs (protected_session state.active_turn)) state.session_order) [
      | none ↦ err (rejected no_evictable_session)
      | some (expired, order) ↦
          ok (record state { sessions = erase expired state.sessions; session_order = order })
    ]

unfoldable pub ensure_session : AgentState → ℕ → Result Abort AgentState
ensure_session state session_id =
    if is_some (lookup session_id state.sessions)
    then ok state
    else if length state.sessions == max_sessions
    then elim (evict state) [ err e ↦ err e | ok room ↦ ok (insert_session room session_id) ]
    else ok (insert_session state session_id)

abbrev pub active_reservation : Option ActiveTurn → ℕ → ℕ
active_reservation none session_id = 0
active_reservation (some active) session_id = if active.session_id == session_id then 1 else 0

unfoldable pub ensure_turn_slot : AgentState → ℕ → Result Abort (Unit {0})
ensure_turn_slot state session_id = elim (lookup session_id state.sessions) [
  | none ↦ err panicked
  | some session ↦
      if leb max_retained_turns_per_session (
        length session.turns
        + length session.pending_cancellations
        + active_reservation state.active_turn session_id)
      then err (rejected terminal_capacity_full)
      else ok tt
]

-- The assertion of a debug build is part of the model.
unfoldable pub record_completed_turn :
    SessionState → ℕ → Text → TurnTerminal → Result Abort SessionState
record_completed_turn session turn_id input terminal =
    if ltb (length session.turns) max_retained_turns_per_session
    then ok (record session {
      turns =
          session.turns ++ record { turn_id = turn_id; input = input; terminal = terminal } ∷ [];
    })
    else err panicked

unfoldable pub find_turn : ℕ → List CompletedTurn → Option CompletedTurn
find_turn turn_id = find (λ turn. turn.turn_id == turn_id)

-- The completed turn of a session that is retained.
unfoldable pub find_completed : AgentState → ℕ → ℕ → Option CompletedTurn
find_completed state session_id turn_id = elim (lookup session_id state.sessions) [
  | none ↦ none
  | some session ↦ find_turn turn_id session.turns
]

abbrev pub raise_cancellation : Option ActiveTurn → Option ActiveTurn
raise_cancellation none = none
raise_cancellation (some active) = some (record active { cancellation = true })

unfoldable pub cancel_active_turn : AgentState → AgentState
cancel_active_turn state = record state { active_turn = raise_cancellation state.active_turn }

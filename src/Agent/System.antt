-- ===== src/Agent/System.antt =====
-- crates/paraegox-agent/src/service.rs: `AgentHandle::submit_turn` from end to end, and the service
-- among its callers. A caller that waits for the provider holds a guard; the critical sections of
-- all callers interleave as the steps of a relation.
use para_egox.Prelude.{
  ℕ, ◌≡◌, Bool, true, false, not, Option, none, some, List, [], ◌∷◌, Result, ok, err, get_elem?,
  ◌>>◌, reject_if, ◌⊎◌,
}
use Prim.Native.Nat.{zero, suc}
use para_egox.Text.{Text}
use para_egox.Agent.Types.{
  AgentError, owner_unavailable, TurnFailure, TurnTerminal, final, cancelled, timed_out, failed,
  WireResponse, validate_input, validate_turn_deadline, wire_safe_terminal,
}
use para_egox.Agent.Provider.{CompletionProvider}
use para_egox.Agent.State.{stopping, AgentState, ActiveTurn, Abort, rejected, new_state}
use para_egox.Agent.Service.{
  Reply, Admission, answered, admitted, start, submit_admission, complete_turn, drop_guard, cancel,
  owns,
}
use para_egox.Agent.Profile.{
  activate_profile, deactivate_profile, begin_stop, finish_stop, drop_service,
}

-- `ActiveTurnGuard`, while it is armed.
pub record ActiveTurnGuard : Type 0 where
  pub session_id : ℕ
  pub turn_id : ℕ
  pub input : Text

-- The service's owner and each guard keep the shared state alive.
pub record System : Type 0 where
  pub owner : Bool
  pub state : AgentState
  pub in_flight : List ActiveTurnGuard

unfoldable pub new_system : System
new_system = record { owner = true; state = new_state; in_flight = [] }

abbrev pub is_alive : Bool → List ActiveTurnGuard → Bool
is_alive owner [] = owner
is_alive owner (guard ∷ guards) = true

-- `AgentHandle::upgrade`, of the weak reference.
unfoldable pub upgrade : System → Result AgentError (Unit {0})
upgrade s = reject_if (not (is_alive s.owner s.in_flight)) owner_unavailable

-- Which branch of the `select!` came first.
pub data Race : Type 0 where
  cancelled_first elapsed : Race
  replied : Text → Race
  refused : TurnFailure → Race

unfoldable pub race_terminal : Race → TurnTerminal
race_terminal cancelled_first = cancelled
race_terminal (replied content) = final content
race_terminal (refused reason) = failed reason
race_terminal elapsed = timed_out

abbrev pub held_by : List ActiveTurnGuard → ActiveTurnGuard → Admission → List ActiveTurnGuard
held_by guards guard (answered result) = guards
held_by guards guard (admitted context) = guard ∷ guards

abbrev pub submitted : System → ActiveTurnGuard → Reply Admission → Result Abort Admission × System
submitted s guard (ok admission, state) =
    (ok admission, record s { state = state; in_flight = held_by s.in_flight guard admission })
submitted s guard (err e, state) = (err e, record s { state = state })

abbrev pub checks : System → Text → ℕ → Result AgentError (Unit {0})
checks s input deadline = do validate_input input; validate_turn_deadline deadline; upgrade s

-- `submit_turn` up to the wait for the provider.
unfoldable pub submit : System → ActiveTurnGuard → ℕ → Result Abort Admission × System
submit s guard deadline = elim (checks s guard.input deadline) [
  | err e ↦ (err (rejected e), s)
  | ok _ ↦ submitted s guard (submit_admission s.state guard.session_id guard.turn_id guard.input)
]

abbrev pub remove_at : ℕ → List ActiveTurnGuard → List ActiveTurnGuard
remove_at i [] = []
remove_at zero (g ∷ gs) = gs
remove_at (suc i) (g ∷ gs) = g ∷ remove_at i gs

-- `submit_turn` from the end of the race: the guard is consumed.
unfoldable pub resolve :
    (WireResponse → Option ℕ) → AgentState → ActiveTurnGuard → Race → Reply TurnTerminal
resolve to_vec state guard race =
    complete_turn state guard.session_id guard.turn_id guard.input
      (wire_safe_terminal to_vec guard.session_id guard.turn_id (race_terminal race))

abbrev pub IsIdle : AgentState → Type 0
IsIdle state = state.active_turn ≡ none

-- The branch of a cancellation is taken once the channel of the guard's turn says so, or once that turn
-- is gone, and the channel's sender with it.
abbrev pub MayWin : Option ActiveTurn → ActiveTurnGuard → Race → Type 0
MayWin (some active) guard cancelled_first =
    (active.cancellation ≡ true) ⊎ (owns active guard.session_id guard.turn_id ≡ false)
MayWin active guard race = Unit {0}

-- One critical section of one caller. A handle's call needs the shared state alive.
pub data Step (to_vec : WireResponse → Option ℕ) (provider : CompletionProvider)
    : System → System → Type 0 where
  starts :
      (s : System)
      → s.owner ≡ true
      → Step to_vec provider s (record s { state = (start s.state).1 })
  submits :
      (s : System) (guard : ActiveTurnGuard) (deadline : ℕ)
      → Step to_vec provider s (submit s guard deadline).1
  resolves :
      (s : System) (i : ℕ) (guard : ActiveTurnGuard) (race : Race)
      → get_elem? s.in_flight i ≡ some guard
      → MayWin s.state.active_turn guard race
      → Step to_vec provider s (record s {
        state = (resolve to_vec s.state guard race).1;
        in_flight = remove_at i s.in_flight;
      })
  abandons :
      (s : System) (i : ℕ) (guard : ActiveTurnGuard)
      → get_elem? s.in_flight i ≡ some guard
      → Step to_vec provider s (record s {
        state = (drop_guard s.state guard.session_id guard.turn_id guard.input).1;
        in_flight = remove_at i s.in_flight;
      })
  cancels :
      (s : System) (session_id turn_id : ℕ)
      → upgrade s ≡ ok tt
      → Step to_vec provider s (record s { state = (cancel s.state session_id turn_id).1 })
  activates :
      (s : System) (id : ℕ) (definition prompt : Text)
      → upgrade s ≡ ok tt
      → Step to_vec provider s
          (record s { state = (activate_profile provider s.state id definition prompt).1 })
  deactivates :
      (s : System) (id : ℕ)
      → upgrade s ≡ ok tt
      → Step to_vec provider s (record s { state = (deactivate_profile s.state id).1 })
  begins_stop :
      (s : System)
      → s.owner ≡ true
      → Step to_vec provider s (record s { state = (begin_stop s.state).1 })
  finishes_stop :
      (s : System)
      → s.owner ≡ true
      → s.state.lifecycle ≡ stopping
      → IsIdle s.state
      → Step to_vec provider s (record s { state = finish_stop s.state })
  drops :
      (s : System)
      → s.owner ≡ true
      → Step to_vec provider s (record s { owner = false; state = drop_service s.state })

pub data Reach (to_vec : WireResponse → Option ℕ) (provider : CompletionProvider)
    : System → Type 0 where
  initial : Reach to_vec provider new_system
  after :
      {s t : System} → Reach to_vec provider s → Step to_vec provider s t → Reach to_vec provider t

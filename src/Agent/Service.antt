-- ===== src/Agent/Service.antt =====
-- crates/paraegox-agent/src/service.rs: the operations of the service, one function for each
-- critical section under its lock. A section returns its result and the state that it leaves.
use para_egox.Prelude.{
  ℕ, Bool, false, ◌&&◌, ◌||◌, not, Option, none, some, [], ◌∷◌, ◌++◌, ◌==◌, ◌=?◌, if◌then◌else◌,
  Result, ok, err, lookup, insert, elem, is_some, take_first, nat_eq, list_eq,
}
use para_egox.Text.{Text}
use para_egox.Agent.Types.{
  only_from_created, different_input, busy, lost_active_turn, active_turn_changed, TurnTerminal,
  cancelled, failed, TurnResult, CancelResult, cancellation_requested, already_terminal, not_active,
}
use para_egox.Agent.Provider.{ModelContext}
use para_egox.Agent.Context.{build_model_context}
use para_egox.Agent.State.{
  ServiceLifecycle, created, running, ActiveProfile, CompletedTurn, SessionState, ActiveTurn,
  AgentState, Abort, rejected, panicked, is_running, require_admission, ensure_session,
  ensure_turn_slot, record_completed_turn, find_completed, cancel_active_turn,
}

abbrev pub Reply : Type 0 → Type 0
Reply A = Result Abort A × AgentState

-- `CoreService::start`.
unfoldable pub start_from : ServiceLifecycle → AgentState → Reply (Unit {0})
start_from created state = (ok tt, record state { lifecycle = running })
start_from _ state = (err (rejected only_from_created), state)

unfoldable pub start : AgentState → Reply (Unit {0})
unfolding start_from
start state = start_from state.lifecycle state

-- What `submit_turn` decides under the lock: an answer at once, or a turn for the provider.
pub data Admission : Type 0 where
  answered : TurnResult → Admission
  admitted : ModelContext → Admission

abbrev pub turn_result : ℕ → ℕ → TurnTerminal → TurnResult
turn_result session_id turn_id terminal = record {
  session_id = session_id;
  turn_id = turn_id;
  terminal = terminal;
}

-- Stores the terminal in a session that the map holds.
unfoldable pub store_terminal :
    AgentState → ℕ → SessionState → ℕ → Text → TurnTerminal → Reply TurnTerminal
store_terminal state session_id session turn_id input terminal =
    elim (record_completed_turn session turn_id input terminal) [
      | err e ↦ (err e, state)
      | ok stored ↦
          (ok terminal, record state { sessions = insert session_id stored state.sessions })
    ]

abbrev pub answer_with : ℕ → ℕ → Reply TurnTerminal → Reply Admission
answer_with session_id turn_id (ok terminal, state) =
    (ok (answered (turn_result session_id turn_id terminal)), state)
answer_with session_id turn_id (err e, state) = (err e, state)

-- The session without the cancellation that waits for this turn.
unfoldable pub take_pending : AgentState → ℕ → ℕ → Option SessionState
take_pending state session_id turn_id = elim (lookup session_id state.sessions) [
  | none ↦ none
  | some session ↦ elim (take_first (λ id. id == turn_id) session.pending_cancellations) [
    | none ↦ none
    | some (found, pending) ↦ some (record session { pending_cancellations = pending })
  ]
]

unfoldable pub replay : CompletedTurn → ℕ → ℕ → Text → Result Abort Admission
replay completed session_id turn_id input =
    if completed.input =? input
    then ok (answered (turn_result session_id turn_id completed.terminal))
    else err (rejected different_input)

unfoldable pub open_turn : AgentState → ActiveProfile → ℕ → ℕ → Text → Reply Admission
open_turn state profile session_id turn_id input = elim (lookup session_id state.sessions) [
  | none ↦ (err panicked, state)
  | some session ↦ elim (build_model_context profile.system_prompt session input) [
    | err reason ↦
        answer_with session_id turn_id
          (store_terminal state session_id session turn_id input (failed reason))
    | ok context ↦ (
      ok (admitted context),
      record state {
        active_turn =
            some (record { session_id = session_id; turn_id = turn_id; cancellation = false });
      },
    )
  ]
]

-- The rest of the section, once the session is owned.
unfoldable pub admit_owned : AgentState → ℕ → ℕ → Text → Reply Admission
admit_owned owned session_id turn_id input = elim (ensure_turn_slot owned session_id) [
  | err e ↦ (err e, owned)
  | ok _ ↦ elim owned.active_profile [
    | none ↦ (err panicked, owned)
    | some profile ↦ open_turn owned profile session_id turn_id input
  ]
]

unfoldable pub begin_turn : AgentState → ℕ → ℕ → Text → Reply Admission
begin_turn state session_id turn_id input =
    if is_some state.active_turn
    then (err (rejected busy), state)
    else elim (ensure_session state session_id) [
      | err e ↦ (err e, state)
      | ok owned ↦ admit_owned owned session_id turn_id input
    ]

-- The critical section of `AgentHandle::submit_turn`.
unfoldable pub submit_admission : AgentState → ℕ → ℕ → Text → Reply Admission
submit_admission state session_id turn_id input = elim (require_admission state) [
  | err e ↦ (err e, state)
  | ok _ ↦ elim (find_completed state session_id turn_id) [
    | some completed ↦ (replay completed session_id turn_id input, state)
    | none ↦ elim (take_pending state session_id turn_id) [
      | some session ↦
          answer_with session_id turn_id
            (store_terminal state session_id session turn_id input cancelled)
      | none ↦ begin_turn state session_id turn_id input
    ]
  ]
]

abbrev pub owns : ActiveTurn → ℕ → ℕ → Bool
owns active session_id turn_id = active.session_id == session_id && active.turn_id == turn_id

-- A proposed terminal counts only while the service runs and nobody asked to cancel.
unfoldable pub settle : AgentState → ActiveTurn → TurnTerminal → TurnTerminal
settle state active proposed =
    if active.cancellation
      || (not (is_running state.lifecycle) || not (is_some state.active_profile))
    then cancelled
    else proposed

-- Ends the active turn with its terminal.
unfoldable pub finish_turn : AgentState → ℕ → ℕ → Text → TurnTerminal → Reply TurnTerminal
finish_turn state session_id turn_id input terminal = elim (lookup session_id state.sessions) [
  | none ↦ (err panicked, record state { active_turn = none })
  | some session ↦
      store_terminal (record state { active_turn = none }) session_id session turn_id input terminal
]

-- `ActiveTurnGuard::complete`.
unfoldable pub complete_turn : AgentState → ℕ → ℕ → Text → TurnTerminal → Reply TurnTerminal
complete_turn state session_id turn_id input proposed = elim state.active_turn [
  | none ↦ (err (rejected lost_active_turn), state)
  | some active ↦
      if not (owns active session_id turn_id)
      then (err (rejected active_turn_changed), state)
      else finish_turn state session_id turn_id input (settle state active proposed)
]

abbrev pub cleared : Reply TurnTerminal → Reply (Unit {0})
cleared (ok terminal, state) = (ok tt, state)
cleared (err e, state) = (err e, state)

-- `Drop for ActiveTurnGuard`, of a guard that is armed: the caller went away.
unfoldable pub drop_guard : AgentState → ℕ → ℕ → Text → Reply (Unit {0})
drop_guard state session_id turn_id input = elim state.active_turn [
  | none ↦ (ok tt, state)
  | some active ↦
      if not (owns active session_id turn_id)
      then (ok tt, state)
      else elim (lookup session_id state.sessions) [
        | none ↦ (ok tt, record state { active_turn = none })
        | some session ↦ cleared (
            store_terminal (record state { active_turn = none }) session_id session turn_id input
              cancelled)
      ]
]

-- A cancellation that comes before its turn, kept for it.
unfoldable pub add_pending : AgentState → ℕ → ℕ → Reply CancelResult
add_pending state session_id turn_id = elim (lookup session_id state.sessions) [
  | none ↦ (err panicked, state)
  | some session ↦
      if elem turn_id session.pending_cancellations
      then (ok cancellation_requested, state)
      else elim (ensure_turn_slot state session_id) [
        | err e ↦ (err e, state)
        | ok _ ↦ (
          ok cancellation_requested,
          record state {
            sessions =
                insert session_id
                  (record session {
                    pending_cancellations = session.pending_cancellations ++ turn_id ∷ [];
                  })
                  state.sessions;
          },
        )
      ]
]

unfoldable pub cancel_ahead : AgentState → ℕ → ℕ → Reply CancelResult
cancel_ahead state session_id turn_id =
    if not (is_running state.lifecycle) || not (is_some state.active_profile)
    then (ok not_active, state)
    else elim (ensure_session state session_id) [
      | err e ↦ (err e, state)
      | ok owned ↦ add_pending owned session_id turn_id
    ]

-- The critical section of `AgentHandle::cancel`.
unfoldable pub cancel : AgentState → ℕ → ℕ → Reply CancelResult
cancel state session_id turn_id = elim (find_completed state session_id turn_id) [
  | some completed ↦ (ok (already_terminal completed.terminal), state)
  | none ↦ elim state.active_turn [
    | none ↦ cancel_ahead state session_id turn_id
    | some active ↦
        if owns active session_id turn_id
        then (ok cancellation_requested, cancel_active_turn state)
        else cancel_ahead state session_id turn_id
  ]
]

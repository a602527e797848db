-- ===== src/Tests/Later.antt =====
-- Runs of crates/paraegox-agent/src/service.rs in which other callers come in between.
use para_egox.Prelude.{
  ◌≡◌, ◌≢◌, ◌⊎◌, refl, true, [], some, ok, err, arith, lookup, insert, elem, find, is_some, nat_eq,
  list_eq,
}
use para_egox.Text.{text}
use para_egox.Agent.Types.{
  TurnTerminal, cancelled, cancellation_requested, different_input, wire_safe_terminal,
}
use para_egox.Agent.Provider.{deterministic}
use para_egox.Agent.State.{
  CompletedTurn, rejected, require_admission, record_completed_turn, find_completed, find_turn,
  ensure_session, insert_session, ensure_turn_slot,
}
use para_egox.Agent.Service.{
  answered, turn_result, submit_admission, cancel, cancel_ahead, add_pending, complete_turn, settle,
  finish_turn, store_terminal,
}
use para_egox.Agent.System.{System, resolve, replied, race_terminal, cancels, upgrade}
use para_egox.Agent.Outcomes.Later.{none_yet, one_more, resolve-resubmit}
use para_egox.Agent.Outcomes.Foretold.{cancel-submit_admission}
use para_egox.Tests.Agent.{
  size_of, guard, racing, busy_state, busy-IsValid, idle, idle-IsValid, idle_admits,
  idle_unfinished,
}

other_input : text "other" ≢ text "again"
other_input h = ground arith

-- The turn of the race ends; then another caller cancels ahead in a session of its own.
abbrev ended : System
ended = record racing {
  state = (resolve size_of racing.state guard (replied (text "fine"))).1;
  in_flight = [];
}

abbrev quieter : System
quieter = record ended { state = (cancel ended.state 9 1).1 }

alive : upgrade ended ≡ ok tt
unfolding upgrade
alive = refl

still_there : is_some (lookup 5 quieter.state.sessions) ≡ true
unfolding resolve complete_turn settle finish_turn store_terminal record_completed_turn cancel
    cancel_ahead add_pending ensure_session insert_session ensure_turn_slot find_completed lookup
    insert elem find_turn find wire_safe_terminal race_terminal
still_there = refl

admits_still : require_admission quieter.state ≡ ok tt
unfolding resolve complete_turn settle finish_turn store_terminal record_completed_turn cancel
    cancel_ahead add_pending ensure_session insert_session ensure_turn_slot find_completed lookup
    insert elem find_turn find wire_safe_terminal race_terminal require_admission
admits_still = refl

resolve-resubmit_example :
    (terminal : TurnTerminal) × ((resolve size_of busy_state guard (replied (text "fine"))).0
      ≡ ok terminal)
    × (submit_admission quieter.state 5 2 (text "again")
        ≡ (ok (answered (turn_result 5 2 terminal)), quieter.state))
    × (submit_admission quieter.state 5 2 (text "other")
        ≡ (err (rejected different_input), quieter.state))
resolve-resubmit_example =
    resolve-resubmit size_of deterministic racing quieter 0 guard (replied (text "fine"))
      (text "other") (record { valid = busy-IsValid; matched = refl }) refl
      (one_more none_yet (cancels ended 9 1 alive) still_there) admits_still other_input

-- A turn is cancelled ahead; then another caller cancels ahead in a session of its own.
abbrev resting : System
resting = record { owner = true; state = idle; in_flight = [] }

abbrev awaiting : System
awaiting = record resting { state = (cancel idle 5 2).1 }

abbrev later : System
later = record awaiting { state = (cancel awaiting.state 9 1).1 }

accepted : (cancel idle 5 2).0 ≡ ok cancellation_requested
unfolding cancel cancel_ahead add_pending ensure_session insert_session ensure_turn_slot
    find_completed lookup insert elem find_turn find require_admission
accepted = refl

waits_still : is_some (lookup 5 later.state.sessions) ≡ true
unfolding cancel cancel_ahead add_pending ensure_session insert_session ensure_turn_slot
    find_completed lookup insert elem find_turn find require_admission
waits_still = refl

later_admits : require_admission later.state ≡ ok tt
unfolding cancel cancel_ahead add_pending ensure_session insert_session ensure_turn_slot
    find_completed lookup insert elem find_turn find require_admission
later_admits = refl

resting_alive : upgrade resting ≡ ok tt
unfolding upgrade
resting_alive = refl

awaiting_alive : upgrade awaiting ≡ ok tt
unfolding upgrade
awaiting_alive = refl

cancel-submit_admission_example :
    ((submit_admission later.state 5 2 (text "again")).0
      ≡ ok (answered (turn_result 5 2 cancelled)))
    ⊎ ((c : CompletedTurn) × (find_completed later.state 5 2 ≡ some c)
        × (text "again" ≢ c.input)
        × ((submit_admission later.state 5 2 (text "again")).0 ≡ err (rejected different_input)))
cancel-submit_admission_example =
    cancel-submit_admission size_of deterministic 5 2 resting later (text "again")
      (record { valid = idle-IsValid; matched = tt }) resting_alive idle_admits idle_unfinished
      (λ a h. ground arith) accepted
      (one_more none_yet (cancels awaiting 9 1 awaiting_alive) waits_still) later_admits

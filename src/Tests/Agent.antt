-- ===== src/Tests/Agent.antt =====
-- Runs of the conversation service of crates/paraegox-agent/src/service.rs.
use para_egox.Prelude.{
  ℕ, ◌≡◌, refl, true, false, Option, none, some, [], ◌∷◌, arith, ok, err, leb, if◌then◌else◌,
  lookup, find, take_first, count, elem, nat_eq, list_eq,
}
use para_egox.Text.{text, len, len_utf8}
use para_egox.Agent.Types.{
  no_card_active, terminal_capacity_full, TurnTerminal, final, WireResponse, context_limit,
}
use para_egox.Agent.Provider.{deterministic, deterministic_final, ModelContext}
use para_egox.Agent.State.{
  running, CompletedTurn, SessionState, ActiveTurn, AgentState, rejected, require_admission,
  find_completed, find_turn, ensure_session, ensure_turn_slot,
}
use para_egox.Agent.Service.{
  admitted, take_pending, begin_turn, admit_owned, open_turn, cancel_ahead, add_pending, start,
  submit_admission, complete_turn, cancel, drop_guard,
}
use para_egox.Agent.Context.{
  build_model_context, push_context_message, checked_add, push_turn, push_turns,
  max_model_context_bytes,
}
use para_egox.Agent.Context.Laws.{build_model_context_lem, context_messages, bytes}
use para_egox.Agent.System.{
  ActiveTurnGuard, System, new_system, submit, resolve, remove_at, replied, initial, after, starts,
  submits,
}
use para_egox.Agent.Validity.{IsValid, active_ids, SessionIsValid}
use para_egox.Agent.Validity.Operations.{IsSafe, complete_turn-IsSafe}
use para_egox.Agent.Validity.Admission.{submit_admission-IsSafe}
use para_egox.Agent.Validity.Cancel.{cancel-IsSafe, drop_guard-IsSafe}
use para_egox.Agent.Validity.Sessions.{Ensured}
use para_egox.Agent.Validity.Evictions.{HowEnsured, ensure_session_lem}
use para_egox.Agent.Safety.{IsConsistent, resolve_lem, Reach-IsConsistent}
use para_egox.Agent.Outcomes.Answers.{
  Asks, submit_admission-Asks, deterministic_final_lem, reply_to, latest_input,
}
use para_egox.Agent.Outcomes.Refusals.{submit_admission-refused, cancel-refused}

abbrev pub first_turn : CompletedTurn
first_turn = record { turn_id = 1; input = text "hi"; terminal = final (text "hello") }

abbrev pub talk : SessionState
talk = record { turns = first_turn ∷ []; pending_cancellations = [] }

-- One session with an answered turn, and no turn active.
abbrev pub idle : AgentState
idle = record {
  lifecycle = running;
  active_profile = some (record { card_instance_id = 7; system_prompt = text "Be brief." });
  sessions = (5, talk) ∷ [];
  session_order = 5 ∷ [];
  active_turn = none;
}

-- The second turn of the session waits for the provider.
abbrev pub waiting : ActiveTurn
waiting = record { session_id = 5; turn_id = 2; cancellation = false }

abbrev pub busy_state : AgentState
busy_state = record idle { active_turn = some waiting }

abbrev off : AgentState
off = record idle { active_profile = none }

idle_session : (k : ℕ) (s : SessionState) → lookup k idle.sessions ≡ some s → SessionIsValid [] s
unfolding lookup count
idle_session k s h = record { once = λ t. ground arith; capacity = ground arith }

pub idle-IsValid : IsValid idle
unfolding lookup elem
idle-IsValid = record {
  ordered = refl;
  distinct = (refl, tt);
  bounded = omega arith;
  each = idle_session;
  owned = λ a h. ground arith;
}

busy_session :
    (k : ℕ) (s : SessionState)
    → lookup k busy_state.sessions ≡ some s
    → SessionIsValid (active_ids (some waiting) k) s
unfolding lookup count
busy_session k s h = record { once = λ t. ground arith; capacity = ground arith }

pub busy-IsValid : IsValid busy_state
unfolding lookup elem
busy-IsValid = record {
  ordered = refl;
  distinct = (refl, tt);
  bounded = omega arith;
  each = busy_session;
  owned = λ a h. ground arith;
}

abbrev pub size_of : WireResponse → Option ℕ
size_of response = some 100

abbrev started : System
started = record new_system { state = (start new_system.state).1 }

abbrev pub guard : ActiveTurnGuard
guard = record { session_id = 5; turn_id = 2; input = text "again" }

Reach-IsConsistent_example : IsConsistent (submit started guard 1000).1
Reach-IsConsistent_example = Reach-IsConsistent size_of {provider = deterministic} (
    after (after initial (starts new_system (unfold new_system in refl)))
      (submits started guard 1000))

abbrev pub racing : System
racing = record { owner = true; state = busy_state; in_flight = guard ∷ [] }

resolve_lem_example :
    ((terminal : TurnTerminal) × ((resolve size_of racing.state guard (replied (text "fine"))).0
        ≡ ok terminal))
    × ((resolve size_of racing.state guard (replied (text "fine"))).1.active_turn ≡ none)
    × (remove_at 0 racing.in_flight ≡ [])
resolve_lem_example =
    resolve_lem size_of racing 0 guard (replied (text "fine"))
      (record { valid = busy-IsValid; matched = refl }) refl

submit_admission-IsSafe_example : IsSafe (submit_admission idle 5 2 (text "again"))
submit_admission-IsSafe_example = submit_admission-IsSafe idle 5 2 (text "again") idle-IsValid

complete_turn-IsSafe_example :
    IsSafe (complete_turn busy_state 5 2 (text "again") (final (text "fine")))
complete_turn-IsSafe_example =
    complete_turn-IsSafe busy_state 5 2 (text "again") (final (text "fine")) busy-IsValid

cancel-IsSafe_example : IsSafe (cancel busy_state 5 2)
cancel-IsSafe_example = cancel-IsSafe busy_state 5 2 busy-IsValid

drop_guard-IsSafe_example : IsSafe (drop_guard busy_state 5 2 (text "again"))
drop_guard-IsSafe_example = drop_guard-IsSafe busy_state 5 2 (text "again") busy-IsValid

ensure_session_lem_example :
    (s : AgentState) × (ensure_session idle 9 ≡ ok s) × Ensured idle 9 s × HowEnsured idle 9 s
ensure_session_lem_example = ensure_session_lem idle 9 idle-IsValid

pub idle_admits : require_admission idle ≡ ok tt
unfolding require_admission
idle_admits = refl

pub idle_unfinished : find_completed idle 5 2 ≡ none
unfolding find_completed lookup find_turn find
idle_unfinished = refl

build_model_context_lem_example : build_model_context (text "Be brief.") talk (text "again") ≡ (
    if leb (bytes (context_messages (text "Be brief.") talk (text "again"))) max_model_context_bytes
    then ok (record { messages = context_messages (text "Be brief.") talk (text "again") })
    else err context_limit)
build_model_context_lem_example = build_model_context_lem (text "Be brief.") talk (text "again")

deterministic_final_lem_example :
    deterministic_final
      (record { messages = context_messages (text "Be brief.") talk (text "again") })
    ≡ some (reply_to (latest_input talk.turns) (text "again"))
deterministic_final_lem_example = deterministic_final_lem (text "Be brief.") talk (text "again")

abbrev asked : ModelContext
asked = record { messages = context_messages (text "Be brief.") talk (text "again") }

idle_asks : (submit_admission idle 5 2 (text "again")).0 ≡ ok (admitted asked)
unfolding submit_admission require_admission find_completed lookup find_turn find take_pending
    take_first begin_turn ensure_session admit_owned ensure_turn_slot open_turn build_model_context
    push_context_message len len_utf8 checked_add push_turn push_turns
idle_asks = refl

submit_admission-Asks_example :
    Asks idle (submit_admission idle 5 2 (text "again")).1 5 2 (text "again") asked
submit_admission-Asks_example =
    submit_admission-Asks idle 5 2 (text "again") asked idle-IsValid idle_asks

submit_admission-refused_example : (submit_admission off 5 2 (text "again")).1 ≡ off
unfolding submit_admission require_admission
submit_admission-refused_example =
    submit_admission-refused off 5 2 (text "again") no_card_active idle-IsValid refl

abbrev full_talk : SessionState
full_talk = record {
  turns = first_turn ∷ [];
  pending_cancellations =
      10 ∷ 11 ∷ 12 ∷ 13 ∷ 14 ∷ 15 ∷ 16 ∷ 17 ∷ 18 ∷ 19 ∷ 20 ∷ 21 ∷ 22 ∷ 23 ∷ 24 ∷ 25 ∷ 26 ∷ 27 ∷ 28
      ∷ 29 ∷ 30 ∷ 31 ∷ 32 ∷ 33 ∷ 34 ∷ 35 ∷ 36 ∷ 37 ∷ 38 ∷ 39 ∷ 40 ∷ [];
}

abbrev full : AgentState
full = record idle { sessions = (5, full_talk) ∷ [] }

full_session : (k : ℕ) (s : SessionState) → lookup k full.sessions ≡ some s → SessionIsValid [] s
unfolding lookup count
full_session k s h = record { once = λ t. ground arith; capacity = ground arith }

full-IsValid : IsValid full
unfolding lookup elem
full-IsValid = record {
  ordered = refl;
  distinct = (refl, tt);
  bounded = omega arith;
  each = full_session;
  owned = λ a h. ground arith;
}

full_refuses : (cancel full 5 2).0 ≡ err (rejected terminal_capacity_full)
unfolding cancel find_completed lookup find_turn find cancel_ahead ensure_session add_pending elem
    ensure_turn_slot
full_refuses = refl

cancel-refused_example : (cancel full 5 2).1 ≡ full
cancel-refused_example = cancel-refused full 5 2 terminal_capacity_full full-IsValid full_refuses

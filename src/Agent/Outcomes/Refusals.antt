-- ===== src/Agent/Outcomes/Refusals.antt =====
-- A call that crates/paraegox-agent/src/service.rs refuses leaves the conversation as it was.
use para_egox.Prelude.{
  ℕ, ◌+◌, ◌≤◌, ◌≡◌, ◌≢◌, refl, ap, inl, inr, not, ◌||◌, Option, none, some, arith, err, length,
  lookup, is_some, elem, Bool-cases, Option-cases, Result-cases, nat_eq,
}
use para_egox.Text.{Text}
use para_egox.Agent.Types.{AgentError, TurnTerminal, cancelled, failed}
use para_egox.Agent.Context.{build_model_context}
use para_egox.Agent.State.{
  SessionState, ActiveTurn, ActiveProfile, AgentState, rejected, is_running, require_admission,
  find_completed, record_completed_turn, default_session, max_retained_turns_per_session,
}
use para_egox.Agent.Service.{
  Reply, store_terminal, answer_with, take_pending, open_turn, admit_owned, begin_turn,
  submit_admission, add_pending, cancel_ahead, cancel,
}
use para_egox.Agent.Validity.{IsValid, active_ids}
use para_egox.Agent.Validity.Sessions.{Ensured, ensure_session_total}
use para_egox.Agent.Validity.Turns.{ensure_turn_slot_cases}

-- A refusal changes nothing.
abbrev RefusesQuietly : {A : Type 0} → AgentState → Reply A → Type 0
RefusesQuietly state r = (e : AgentError) → r.0 ≡ err (rejected e) → r.1 ≡ state

active_ids-short : (active : Option ActiveTurn) (k : ℕ) → length (active_ids active k) ≤ 1
active_ids-short none k = omega arith
active_ids-short (some a) k = ground arith

-- Only a session that was there before can be full.
full_unchanged :
    (state after : AgentState) (k : ℕ) (s : SessionState)
    → Ensured state k after
    → lookup k after.sessions ≡ some s
    → max_retained_turns_per_session
      ≤ length s.turns + length s.pending_cancellations + length (active_ids after.active_turn k)
    → after ≡ state
full_unchanged state after k s en held full = elim (Option-cases (lookup k state.sessions)) [
  | inr (r, found) ↦ en.unchanged (rw found refl)
  | inl missing ↦
      let e : default_session ≡ s = ground (arith, en.fresh missing) in
      absurd (
        omega (
          arith,
          full,
          active_ids-short after.active_turn k,
          ap (λ (r : SessionState). length r.turns) e,
          ap (λ (r : SessionState). length r.pending_cancellations) e,
        ))
]

abbrev NeverRefuses : {A : Type 0} → Reply A → Type 0
NeverRefuses r = (e : AgentError) → r.0 ≢ err (rejected e)

-- Past the checks nothing is refused: a terminal is stored, or the code would panic.
store_terminal-NeverRefuses :
    (state : AgentState) (k : ℕ) (s : SessionState) (t : ℕ) (input : Text) (terminal : TurnTerminal)
    → NeverRefuses (answer_with k t (store_terminal state k s t input terminal))
unfolding store_terminal record_completed_turn
store_terminal-NeverRefuses state k s t input terminal e h = ground arith

open_turn-NeverRefuses :
    (state : AgentState) (p : ActiveProfile) (k t : ℕ) (input : Text)
    → NeverRefuses (open_turn state p k t input)
unfolding open_turn
open_turn-NeverRefuses state p k t input e = elim (Option-cases (lookup k state.sessions)) [
  | inl missing ↦ rw (missing, open_turn) (λ f. ground arith)
  | inr (s, held) ↦ elim (Result-cases (build_model_context p.system_prompt s input)) [
    | inl (context, q) ↦ rw (held, open_turn, q) (λ f. ground arith)
    | inr (reason, q) ↦
        rw (held, open_turn, q) (store_terminal-NeverRefuses state k s t input (failed reason) e)
  ]
]

admit_owned-quiet :
    (state after : AgentState) (k t : ℕ) (input : Text)
    → Ensured state k after
    → RefusesQuietly state (admit_owned after k t input)
unfolding admit_owned
admit_owned-quiet state after k t input en e = elim (Option-cases (lookup k after.sessions)) [
  | inl missing ↦ absurd (ground (arith, en.present))
  | inr (s, held) ↦ elim (ensure_turn_slot_cases after k s held (en.valid.each k s held)) [
    | inr (full, size) ↦
        rw (full, admit_owned) (λ f. full_unchanged state after k s en held (omega arith))
    | inl (room, space) ↦ elim (Option-cases after.active_profile) [
      | inl none_active ↦ rw (room, admit_owned, none_active) (λ f. absurd (ground arith))
      | inr (p, q) ↦
          rw (room, admit_owned, q) (λ f. absurd (open_turn-NeverRefuses _ p k t input e f))
    ]
  ]
]

begin_turn-quiet :
    (state : AgentState) (k t : ℕ) (input : Text)
    → IsValid state
    → RefusesQuietly state (begin_turn state k t input)
unfolding begin_turn
begin_turn-quiet state k t input v e = elim (Bool-cases (is_some state.active_turn)) [
  | inl active ↦ rw (active, begin_turn) (λ f. refl)
  | inr idle ↦
      let (after, q, en) = ensure_session_total state k v in
      rw (idle, begin_turn, q) (admit_owned-quiet state after k t input en e)
]

-- A turn that is refused, for any reason, leaves the conversation state as it was.
pub submit_admission-refused :
    (state : AgentState) (k t : ℕ) (input : Text) (e : AgentError)
    → IsValid state
    → (submit_admission state k t input).0 ≡ err (rejected e)
    → (submit_admission state k t input).1 ≡ state
unfolding submit_admission
submit_admission-refused state k t input e v = elim (Result-cases (require_admission state)) [
  | inr (x, refused) ↦ rw (refused, submit_admission) (λ f. refl)
  | inl (_, admits) ↦ elim (Option-cases (find_completed state k t)) [
    | inr (c, done) ↦ rw (admits, submit_admission, done) (λ f. refl)
    | inl unfinished ↦ elim (Option-cases (take_pending state k t)) [
      | inr (s, awaited) ↦
          rw (admits, submit_admission, unfinished, awaited)
            (λ f. absurd (store_terminal-NeverRefuses state k s t input cancelled e f))
      | inl unawaited ↦
          rw (admits, submit_admission, unfinished, unawaited)
            (begin_turn-quiet state k t input v e)
    ]
  ]
]

add_pending-quiet :
    (state after : AgentState) (k t : ℕ)
    → Ensured state k after
    → RefusesQuietly state (add_pending after k t)
unfolding add_pending
add_pending-quiet state after k t en e = elim (Option-cases (lookup k after.sessions)) [
  | inl missing ↦ absurd (ground (arith, en.present))
  | inr (s, held) ↦ elim (Bool-cases (elem t s.pending_cancellations)) [
    | inl known ↦ rw (held, add_pending, known) (λ f. absurd (ground arith))
    | inr new ↦ elim (ensure_turn_slot_cases after k s held (en.valid.each k s held)) [
      | inr (full, size) ↦
          rw (held, add_pending, new, full)
            (λ f. full_unchanged state after k s en held (omega arith))
      | inl (room, space) ↦ rw (held, add_pending, new, room) (λ f. absurd (ground arith))
    ]
  ]
]

cancel_ahead-quiet :
    (state : AgentState) (k t : ℕ) → IsValid state → RefusesQuietly state (cancel_ahead state k t)
unfolding cancel_ahead
cancel_ahead-quiet state k t v e =
    elim (Bool-cases (not (is_running state.lifecycle) || not (is_some state.active_profile))) [
      | inl off ↦ rw (off, cancel_ahead) (λ f. refl)
      | inr on ↦
          let (after, q, en) = ensure_session_total state k v in
          rw (on, cancel_ahead, q) (add_pending-quiet state after k t en e)
    ]

-- A cancellation that is refused leaves the conversation state as it was.
pub cancel-refused :
    (state : AgentState) (k t : ℕ) (e : AgentError)
    → IsValid state
    → (cancel state k t).0 ≡ err (rejected e)
    → (cancel state k t).1 ≡ state
unfolding cancel
cancel-refused state k t e v = elim (Option-cases (find_completed state k t)) [
  | inr (c, done) ↦ rw (done, cancel) (λ f. absurd (ground arith))
  | inl unfinished ↦ ground (arith, cancel_ahead-quiet state k t v e)
]

-- ===== src/Agent/Safety/Frames.antt =====
-- What each critical section of crates/paraegox-agent/src/service.rs does to the active turn.
use para_egox.Prelude.{
  ℕ, ◌≡◌, refl, sym, ◌∙◌, ap, inl, inr, true, false, ◌=?◌, none, some, [], ◌∷◌, arith, ok, err,
  lookup, insert, is_some, Bool-cases, Option-cases, nat_eq, list_eq, Result-cases,
}
use para_egox.Text.{Text}
use para_egox.Agent.Types.{TurnTerminal, TurnResult, cancelled, failed}
use para_egox.Agent.Provider.{ModelContext}
use para_egox.Agent.Context.{build_model_context}
use para_egox.Agent.State.{
  CompletedTurn, SessionState, ActiveTurn, ActiveProfile, AgentState, Abort, require_admission,
  ensure_turn_slot, record_completed_turn, find_completed,
}
use para_egox.Agent.Service.{
  Reply, Admission, answered, admitted, store_terminal, answer_with, take_pending, replay,
  open_turn, admit_owned, begin_turn, submit_admission, owns, settle, finish_turn, complete_turn,
  drop_guard,
}
use para_egox.Agent.Validity.{IsValid, SessionIsValid}
use para_egox.Agent.Validity.Sessions.{ensure_session_total}
use para_egox.Agent.Validity.Turns.{stored}
use para_egox.Agent.Validity.Operations.{store_terminal_lem, active_session}

abbrev pub opened_turn : ℕ → ℕ → ActiveTurn
opened_turn k t = record { session_id = k; turn_id = t; cancellation = false }

-- An admission either opens the turn where none was active, or leaves the active turn as it was.
pub data Frame (state : AgentState) (k t : ℕ) (input : Text) : Reply Admission → Type 0 where
  opens :
      (context : ModelContext) (next : AgentState) (profile : ActiveProfile) (s : SessionState)
      → state.active_turn ≡ none
      → next.active_turn ≡ some (opened_turn k t)
      → next.active_profile ≡ some profile
      → lookup k next.sessions ≡ some s
      → build_model_context profile.system_prompt s input ≡ ok context
      → Frame state k t input (ok (admitted context), next)
  answers :
      (result : TurnResult) (next : AgentState)
      → next.active_turn ≡ state.active_turn
      → Frame state k t input (ok (answered result), next)
  refuses :
      (e : Abort) (next : AgentState)
      → next.active_turn ≡ state.active_turn
      → Frame state k t input (err e, next)

store_terminal-turn :
    (state : AgentState) (k : ℕ) (s : SessionState) (t : ℕ) (input : Text) (terminal : TurnTerminal)
    → (store_terminal state k s t input terminal).1.active_turn ≡ state.active_turn
unfolding store_terminal
store_terminal-turn state k s t input terminal =
    elim (Result-cases (record_completed_turn s t input terminal)) [
      | inl (r, e) ↦ rw (e, store_terminal) refl
      | inr (f, e) ↦ rw (e, store_terminal) refl
    ]

answer_with-Frame :
    (state : AgentState) (k t : ℕ) (input : Text) (r : Reply TurnTerminal)
    → r.1.active_turn ≡ state.active_turn
    → Frame state k t input (answer_with k t r)
answer_with-Frame state k t input (ok terminal, next) h = answers _ next h
answer_with-Frame state k t input (err e, next) h = refuses e next h

open_turn-Frame :
    (state base : AgentState) (profile : ActiveProfile) (k t : ℕ) (input : Text)
    → base.active_turn ≡ none
    → state.active_turn ≡ none
    → state.active_profile ≡ some profile
    → Frame base k t input (open_turn state profile k t input)
unfolding open_turn
open_turn-Frame state base profile k t input was idle q =
    elim (Option-cases (lookup k state.sessions)) [
      | inl missing ↦ rw (missing, open_turn) (refuses _ _ (idle ∙ sym was))
      | inr (s, held) ↦ elim (Result-cases (build_model_context profile.system_prompt s input)) [
        | inl (context, e) ↦ rw (held, open_turn, e) (opens context _ profile s was refl q held e)
        | inr (reason, e) ↦
            rw (held, open_turn, e)
              (answer_with-Frame base k t input _
                (store_terminal-turn state k s t input (failed reason) ∙ idle ∙ sym was))
      ]
    ]

admit_owned-Frame :
    (state base : AgentState) (k t : ℕ) (input : Text)
    → base.active_turn ≡ none
    → state.active_turn ≡ none
    → Frame base k t input (admit_owned state k t input)
unfolding admit_owned
admit_owned-Frame state base k t input was idle = elim (Result-cases (ensure_turn_slot state k)) [
  | inr (e, full) ↦ rw (full, admit_owned) (refuses _ _ (idle ∙ sym was))
  | inl (_, room) ↦ elim (Option-cases state.active_profile) [
    | inl e ↦ rw (room, admit_owned, e) (refuses _ _ (idle ∙ sym was))
    | inr (profile, e) ↦
        rw (room, admit_owned, e) (open_turn-Frame state base profile k t input was idle e)
  ]
]

begin_turn-Frame :
    (state : AgentState) (k t : ℕ) (input : Text)
    → IsValid state
    → Frame state k t input (begin_turn state k t input)
unfolding begin_turn
begin_turn-Frame state k t input v = elim (Option-cases state.active_turn) [
  | inr (a, e) ↦ rw (ap is_some e, begin_turn) (refuses _ state refl)
  | inl idle ↦
      let (owned, e, en) = ensure_session_total state k v in
      rw (ap is_some idle, begin_turn, e)
        (admit_owned-Frame owned state k t input idle (en.same_turn ∙ idle))
]

pub submit_admission-Frame :
    (state : AgentState) (k t : ℕ) (input : Text)
    → IsValid state
    → Frame state k t input (submit_admission state k t input)
unfolding submit_admission replay
submit_admission-Frame state k t input v = elim (Result-cases (require_admission state)) [
  | inr (e, refused) ↦ rw (refused, submit_admission) (refuses _ state refl)
  | inl (_, admits) ↦ elim (Option-cases (find_completed state k t)) [
    | inr (c, done) ↦ rw (admits, submit_admission, done) (replay-Frame c)
    | inl unfinished ↦ elim (Option-cases (take_pending state k t)) [
      | inr (s, awaited) ↦
          rw (admits, submit_admission, unfinished, awaited)
            (answer_with-Frame state k t input _ (store_terminal-turn state k s t input cancelled))
      | inl unawaited ↦
          rw (admits, submit_admission, unfinished, unawaited) (begin_turn-Frame state k t input v)
    ]
  ]
]
  where
    replay-Frame : (c : CompletedTurn) → Frame state k t input (replay c k t input, state)
    replay-Frame c = elim (Bool-cases (c.input =? input)) [
      | inl e ↦ rw e (answers _ state refl)
      | inr e ↦ rw e (refuses _ state refl)
    ]

complete_turn-owned :
    (state : AgentState) (a : ActiveTurn) (k t : ℕ) (input : Text) (proposed : TurnTerminal)
    → state.active_turn ≡ some a
    → owns a k t ≡ true
    → complete_turn state k t input proposed ≡ finish_turn state k t input (settle state a proposed)
unfolding complete_turn
complete_turn-owned state a k t input proposed e own = ground arith

finish_turn_lem :
    (state : AgentState) (s : SessionState) (k t : ℕ) (input : Text) (terminal : TurnTerminal)
    → lookup k state.sessions ≡ some s
    → SessionIsValid (t ∷ []) s
    → finish_turn state k t input terminal ≡ (
      ok terminal,
      record state {
        active_turn = none;
        sessions = insert k (stored s t input terminal) state.sessions;
      },
    )
unfolding finish_turn
finish_turn_lem state s k t input terminal held fits =
    rw (held, finish_turn)
      (store_terminal_lem (record state { active_turn = none }) k s [] t input terminal fits)

-- The end of the active turn: its terminal is settled, and stored in its session.
pub complete_turn_lem :
    (state : AgentState) (a : ActiveTurn) (k t : ℕ) (input : Text) (proposed : TurnTerminal)
    → IsValid state
    → state.active_turn ≡ some a
    → owns a k t ≡ true
    → (s : SessionState) × (lookup k state.sessions ≡ some s)
      × SessionIsValid (t ∷ []) s
      × (complete_turn state k t input proposed ≡ (
        ok (settle state a proposed),
        record state {
          active_turn = none;
          sessions = insert k (stored s t input (settle state a proposed)) state.sessions;
        },
      ))
complete_turn_lem state a k t input proposed v e own =
    let (s, held, fits) = active_session state a k t v e own in
    (
      s,
      held,
      fits,
      complete_turn-owned state a k t input proposed e own
          ∙ finish_turn_lem state s k t input (settle state a proposed) held fits,
    )

-- The drop of the guard that owns the active turn ends the turn.
pub drop_guard-turn :
    (state : AgentState) (a : ActiveTurn) (k t : ℕ) (input : Text)
    → IsValid state
    → state.active_turn ≡ some a
    → owns a k t ≡ true
    → (drop_guard state k t input).1.active_turn ≡ none
unfolding drop_guard
drop_guard-turn state a k t input v e own =
    let (s, held, fits) = active_session state a k t v e own in
    rw (e, drop_guard, own, held)
      (rw (store_terminal_lem (record state { active_turn = none }) k s [] t input cancelled fits)
        refl)

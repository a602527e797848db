-- ===== src/Agent/Transport/Handle.antt =====
-- The handle of crates/paraegox-agent/src/service.rs as the transport uses it: a submission from its
-- checks to its terminal, with the state that the turn is completed in.
use para_egox.Prelude.{
  ℕ, ◌≡◌, refl, subst, Option, Result, ok, err, ◌=?◌, nat_eq, list_eq, is_some, lookup, Bool-cases,
  Option-cases, Result-cases, inl, inr, arith,
}
use para_egox.Text.{Text}
use para_egox.Agent.Types.{TurnResult, CancelResult, WireResponse, TurnTerminal, cancelled, failed}
use para_egox.Agent.State.{
  Abort, rejected, AgentState, CompletedTurn, ActiveProfile, find_completed, ensure_session,
  ensure_turn_slot, require_admission,
}
use para_egox.Agent.Context.{build_model_context}
use para_egox.Agent.Service.{
  Reply, Admission, answered, admitted, turn_result, answer_with, take_pending, replay, open_turn,
  admit_owned, begin_turn, submit_admission, store_terminal, cancel,
}
use para_egox.Agent.System.{
  System, ActiveTurnGuard, Race, upgrade, submitted, submit, resolve, checks,
}
use para_egox.Agent.Transport.{AgentHandle}

abbrev pub IsOwn : ℕ → ℕ → TurnResult → Type 0
IsOwn session_id turn_id result = (result.session_id ≡ session_id) × (result.turn_id ≡ turn_id)

abbrev AdmitsOwn : ℕ → ℕ → Result Abort Admission → Type 0
AdmitsOwn session_id turn_id (ok (answered result)) = IsOwn session_id turn_id result
AdmitsOwn session_id turn_id (ok (admitted context)) = Unit {0}
AdmitsOwn session_id turn_id (err e) = Unit {0}

module _ (k t : ℕ) where
  answer_with-AdmitsOwn : (r : Reply TurnTerminal) → AdmitsOwn k t (answer_with k t r).0
  answer_with-AdmitsOwn (ok terminal, state) = (refl, refl)
  answer_with-AdmitsOwn (err e, state) = tt

  replay-AdmitsOwn :
      (completed : CompletedTurn) (input : Text) → AdmitsOwn k t (replay completed k t input)
  unfolding replay
  replay-AdmitsOwn completed input = elim (Bool-cases (completed.input =? input)) [
    | inl same ↦ rw (same, replay) (refl, refl)
    | inr other ↦ rw (other, replay) tt
  ]

  open_turn-AdmitsOwn :
      (state : AgentState) (profile : ActiveProfile) (input : Text)
      → AdmitsOwn k t (open_turn state profile k t input).0
  unfolding open_turn
  open_turn-AdmitsOwn state profile input = elim (Option-cases (lookup k state.sessions)) [
    | inl e ↦ rw (e, open_turn) tt
    | inr (session, e) ↦
        elim (Result-cases (build_model_context profile.system_prompt session input)) [
          | inl (context, f) ↦ rw (e, open_turn, f) tt
          | inr (reason, f) ↦
              rw (e, open_turn, f)
                (answer_with-AdmitsOwn (store_terminal state k session t input (failed reason)))
        ]
  ]

  admit_owned-AdmitsOwn :
      (owned : AgentState) (input : Text) → AdmitsOwn k t (admit_owned owned k t input).0
  unfolding admit_owned
  admit_owned-AdmitsOwn owned input = elim (Result-cases (ensure_turn_slot owned k)) [
    | inr (e, f) ↦ rw (f, admit_owned) tt
    | inl (_, f) ↦ elim (Option-cases owned.active_profile) [
      | inl e ↦ rw (f, admit_owned, e) tt
      | inr (profile, e) ↦ rw (f, admit_owned, e) (open_turn-AdmitsOwn owned profile input)
    ]
  ]

  begin_turn-AdmitsOwn :
      (state : AgentState) (input : Text) → AdmitsOwn k t (begin_turn state k t input).0
  unfolding begin_turn
  begin_turn-AdmitsOwn state input = elim (Bool-cases (is_some state.active_turn)) [
    | inl busy ↦ rw (busy, begin_turn) tt
    | inr free ↦ elim (Result-cases (ensure_session state k)) [
      | inr (e, f) ↦ rw (free, begin_turn, f) tt
      | inl (owned, f) ↦ rw (free, begin_turn, f) (admit_owned-AdmitsOwn owned input)
    ]
  ]

  submit_admission-AdmitsOwn :
      (state : AgentState) (input : Text) → AdmitsOwn k t (submit_admission state k t input).0
  unfolding submit_admission
  submit_admission-AdmitsOwn state input = elim (Result-cases (require_admission state)) [
    | inr (e, f) ↦ rw (f, submit_admission) tt
    | inl (_, f) ↦ elim (Option-cases (find_completed state k t)) [
      | inr (completed, e) ↦ rw (f, submit_admission, e) (replay-AdmitsOwn completed input)
      | inl e ↦ elim (Option-cases (take_pending state k t)) [
        | inr (session, g) ↦
            rw (f, submit_admission, e, g)
              (answer_with-AdmitsOwn (store_terminal state k session t input cancelled))
        | inl g ↦ rw (f, submit_admission, e, g) (begin_turn-AdmitsOwn state input)
      ]
    ]
  ]

-- What follows the admission of a turn: an answer, or the end of the race, which finds the state
-- `later`.
abbrev pub end_turn :
    (WireResponse → Option ℕ)
    → AgentState
    → ActiveTurnGuard
    → Race
    → Result Abort Admission
    → Result Abort TurnResult
end_turn to_vec later guard race (ok (answered result)) = ok result
end_turn to_vec later guard race (ok (admitted context)) =
    elim (resolve to_vec later guard race).0 [
      | ok terminal ↦ ok (turn_result guard.session_id guard.turn_id terminal)
      | err e ↦ err e
    ]
end_turn to_vec later guard race (err e) = err e

-- `AgentHandle::submit_turn`.
unfoldable pub whole_turn :
    (WireResponse → Option ℕ)
    → System
    → AgentState
    → Race
    → ℕ
    → ℕ
    → Text
    → ℕ
    → Result Abort TurnResult
whole_turn to_vec s later race session_id turn_id input deadline =
    let guard : ActiveTurnGuard = record {
      session_id = session_id;
      turn_id = turn_id;
      input = input;
    } in
    end_turn to_vec later guard race (submit s guard deadline).0

-- `AgentHandle::cancel`.
unfoldable pub handle_cancel : System → ℕ → ℕ → Result Abort CancelResult
handle_cancel s session_id turn_id = elim (upgrade s) [
  | err e ↦ err (rejected e)
  | ok _ ↦ (cancel s.state session_id turn_id).0
]

submitted-AdmitsOwn :
    (s : System) (guard : ActiveTurnGuard) (reply : Reply Admission)
    → AdmitsOwn guard.session_id guard.turn_id reply.0
    → AdmitsOwn guard.session_id guard.turn_id (submitted s guard reply).0
submitted-AdmitsOwn s guard (ok admission, state) h = h
submitted-AdmitsOwn s guard (err e, state) h = h

submit-AdmitsOwn :
    (s : System) (guard : ActiveTurnGuard) (deadline : ℕ)
    → AdmitsOwn guard.session_id guard.turn_id (submit s guard deadline).0
unfolding submit
submit-AdmitsOwn s guard deadline = elim (Result-cases (checks s guard.input deadline)) [
  | inr (e, f) ↦ rw (f, submit) tt
  | inl (_, f) ↦
      rw (f, submit)
        (submitted-AdmitsOwn s guard
          (submit_admission s.state guard.session_id guard.turn_id guard.input)
          (submit_admission-AdmitsOwn guard.session_id guard.turn_id s.state guard.input))
]

end_turn-IsOwn :
    (to_vec : WireResponse → Option ℕ) (later : AgentState) (guard : ActiveTurnGuard) (race : Race)
    (admission : Result Abort Admission) (result : TurnResult)
    → AdmitsOwn guard.session_id guard.turn_id admission
    → end_turn to_vec later guard race admission ≡ ok result
    → IsOwn guard.session_id guard.turn_id result
end_turn-IsOwn to_vec later guard race (ok (answered given)) result h e =
    let same : given ≡ result = ground arith in subst (IsOwn guard.session_id guard.turn_id) same h
end_turn-IsOwn to_vec later guard race (ok (admitted context)) result h e =
    elim (Result-cases (resolve to_vec later guard race).0) [
      | inl (terminal, f) ↦ ground arith
      | inr (error, f) ↦ absurd (ground arith)
    ]
end_turn-IsOwn to_vec later guard race (err error) result h e = absurd (ground arith)

pub whole_turn-IsOwn :
    (to_vec : WireResponse → Option ℕ) (s : System) (later : AgentState) (race : Race)
    (session_id turn_id : ℕ) (input : Text) (deadline : ℕ) (result : TurnResult)
    → whole_turn to_vec s later race session_id turn_id input deadline ≡ ok result
    → IsOwn session_id turn_id result
unfolding whole_turn
whole_turn-IsOwn to_vec s later race session_id turn_id input deadline result e =
    let guard : ActiveTurnGuard = record {
      session_id = session_id;
      turn_id = turn_id;
      input = input;
    } in
    end_turn-IsOwn to_vec later guard race (submit s guard deadline).0 result
      (submit-AdmitsOwn s guard deadline) e

-- The service fills the interface of the transport.
abbrev pub service_handle : (WireResponse → Option ℕ) → System → AgentState → Race → AgentHandle
service_handle to_vec s later race = record {
  submit_turn = whole_turn to_vec s later race;
  cancel_turn = handle_cancel s;
  answers = whole_turn-IsOwn to_vec s later race;
}

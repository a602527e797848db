-- ===== src/Textual/Protocol/Turns.antt =====
-- How `drive_turn` of crates/paraegox/src/textual_stdio.rs answers the turn that it drives.
use para_egox.Prelude.{
  ℕ, zero, suc, ◌≡◌, refl, ap, Option, none, some, ◌∷◌, arith, ◌==◌, Result, ok, err, inl, inr,
  Bool-cases, Result-cases,
}
use para_egox.Text.{Text}
use para_egox.Agent.Types.{
  TurnTerminal, TurnResult, CancelResult, cancellation_requested, already_terminal, not_active,
}
use para_egox.Prelude.Stateful.{and_then, return}
use para_egox.Textual.Protocol.{
  InputFrame, submit, cancel, shutdown, OutputFrame, turn_terminal, turn_error, AdapterError,
  ActiveOutcome, continue, graceful_shutdown, fatal, Submission, Outside, Adapter, version_of, Run,
  send, next_command, cancel_status, ensure_session, ensure_version, turn_failed, submission_ended,
  send_terminal, confirm_terminal, finish_active_shutdown, fail_active_protocol, checked, or_fail,
  cancel_answered, cancel_requested, other_submitted, active_command, active_input, drive_turn,
  protocol_version,
}
use para_egox.Textual.Protocol.Written.{
  send_lem, safe_message_lem, answered, Kept, IsAnswered, Matches, Once-IsAnswered, Kept-IsAnswered,
  NextCommand-cases, at_end, a_command, an_error,
}

module _ (outside : Outside) (session_id turn_id : ℕ) where
  abbrev Answers : Adapter → Result AdapterError ActiveOutcome × Adapter → Type 0
  Answers = IsAnswered (session_id, turn_id)

  -- A frame that is no terminal, and what follows it.
  send-Answers :
      (frame : OutputFrame) (k : Unit {0} → Run ActiveOutcome) (state : Adapter)
      → answered (frame ∷ state.written) ≡ answered state.written
      → ((sent : Adapter) → Kept state sent → Answers sent (k tt sent))
      → Answers state (and_then (send outside frame state) k)
  send-Answers frame k state quiet next =
      send_lem outside (Answers state) frame k state
        (λ writes.
          let sent = record state { written = frame ∷ state.written; writes = writes } in
          let kept : Kept state sent = ((refl, omega arith), quiet) in
          Kept-IsAnswered _ state sent _ kept (next sent kept))
        (λ e after kept. inl kept)

  fatal-Answers : (state : Adapter) → Answers state (ok fatal, state)
  fatal-Answers state = inl ((refl, omega arith), refl)

  turn_failed-Answers :
      (error : Text) (state : Adapter)
      → Answers state (turn_failed outside session_id turn_id error state)
  turn_failed-Answers error state =
      let (message, e) = safe_message_lem outside error state in
      rw e (
        send-Answers (turn_error protocol_version session_id turn_id message) (λ _. return fatal)
          state refl (λ sent kept. fatal-Answers sent))

  submission_ended-Answers :
      (result : Result Text TurnResult) (outcome : ActiveOutcome) (state : Adapter)
      → Matches (session_id, turn_id) result
      → Answers state (submission_ended outside session_id turn_id result outcome state)
  submission_ended-Answers (ok result) outcome state m =
      send_lem outside (Answers state) (turn_terminal protocol_version result) (λ _. return outcome)
        state
        (λ writes.
          Once-IsAnswered _ state _ outcome
            ((refl, omega arith), ap (λ turn. turn ∷ answered state.written) m))
        (λ e after kept. inl kept)
  submission_ended-Answers (err error) outcome state m = turn_failed-Answers error state

  confirm_terminal-Answers :
      (submission : Submission) (terminal : Option TurnTerminal) (state : Adapter)
      → Matches (session_id, turn_id) submission.result
      → Answers state (confirm_terminal outside session_id turn_id submission terminal state)
  confirm_terminal-Answers submission (some terminal) state m =
      submission_ended-Answers
        (ok (record { session_id = session_id; turn_id = turn_id; terminal = terminal }))
        graceful_shutdown state refl
  confirm_terminal-Answers submission none state m = elim (Bool-cases submission.in_time) [
    | inl on_time ↦
        rw on_time (submission_ended-Answers submission.result graceful_shutdown state m)
    | inr late ↦
        rw late (send-Answers _ (λ _. return fatal) state refl (λ sent kept. fatal-Answers sent))
  ]

  finish_active_shutdown-Answers :
      (submission : Submission) (state : Adapter)
      → Matches (session_id, turn_id) submission.result
      → Answers state (finish_active_shutdown outside session_id turn_id submission state)
  unfolding finish_active_shutdown
  finish_active_shutdown-Answers submission state m =
      let called = record state { cancels = suc state.cancels } in
      Kept-IsAnswered _ state called _ ((refl, omega arith), refl)
        (elim (Result-cases (outside.cancel_turn state.cancels turn_id)) [
          | inl (result, e) ↦ rw e (
              send-Answers _
                (λ _.
                  confirm_terminal outside session_id turn_id submission (cancel_status result).1)
                called refl
                (λ sent kept. confirm_terminal-Answers submission (cancel_status result).1 sent m))
          | inr (error, e) ↦ rw e (turn_failed-Answers error called)
        ])

  failed-Answers :
      (e : AdapterError) (state : Adapter) (r : Result AdapterError ActiveOutcome × Adapter)
      → Answers state r
      → Answers state (err e, r.1)
  failed-Answers e state (ok continue, after) h = inr h
  failed-Answers e state (ok graceful_shutdown, after) h = inr h
  failed-Answers e state (ok fatal, after) h = h
  failed-Answers e state (err f, after) h = h

  fail_active_protocol-Answers :
      (submission : Submission) (e : AdapterError) (state : Adapter)
      → Matches (session_id, turn_id) submission.result
      → Answers state (fail_active_protocol outside session_id turn_id submission e state)
  unfolding fail_active_protocol
  fail_active_protocol-Answers submission e state m =
      failed-Answers e state _ (finish_active_shutdown-Answers submission state m)

  -- A check that leaves the state as it is, and what follows it.
  unchanged-Answers :
      {A : Type 0} (submission : Submission) (state : Adapter) (r : Result AdapterError A)
      (next : A → Run ActiveOutcome)
      → Matches (session_id, turn_id) submission.result
      → ((a : A) → Answers state (next a state))
      → Answers state (checked outside session_id turn_id submission (r, state) next)
  unchanged-Answers submission state (ok a) next m h = h a
  unchanged-Answers submission state (err e) next m h =
      fail_active_protocol-Answers submission e state m

  ensure_session-Answers :
      (submission : Submission) (actual : ℕ) (next : Unit {0} → Run ActiveOutcome) (state : Adapter)
      → Matches (session_id, turn_id) submission.result
      → Answers state (next tt state)
      → Answers state (
          or_fail outside session_id turn_id submission
            (ensure_session session_id actual)
            next
            state)
  unfolding ensure_session
  ensure_session-Answers submission actual next state m h =
      elim (Bool-cases (session_id == actual)) [
        | inl same ↦ rw (same, ensure_session) h
        | inr other ↦ rw (other, ensure_session) (fail_active_protocol-Answers submission _ state m)
      ]

  ended-Answers :
      (r : Result AdapterError ActiveOutcome × Adapter) (state : Adapter)
      → Answers state r
      → Answers state (and_then r (λ _. return fatal))
  ended-Answers (ok continue, after) state h = inr h
  ended-Answers (ok graceful_shutdown, after) state h = inr h
  ended-Answers (ok fatal, after) state h = h
  ended-Answers (err e, after) state h = h

  other_submitted-Answers :
      (submission : Submission) (other : ℕ) (state : Adapter)
      → Matches (session_id, turn_id) submission.result
      → Answers state (other_submitted outside session_id turn_id submission other state)
  other_submitted-Answers submission other state m =
      send-Answers _
        (λ _ sent.
          and_then (finish_active_shutdown outside session_id turn_id submission sent)
            (λ _. return fatal))
        state refl
        (λ sent kept. ended-Answers _ sent (finish_active_shutdown-Answers submission sent m))

  cancel_answered-Answers :
      (resume : Run ActiveOutcome) (answer : Result Text CancelResult) (state : Adapter)
      → ((later : Adapter) → Answers later (resume later))
      → Answers state (cancel_answered outside session_id turn_id resume answer state)
  unfolding cancel_status
  cancel_answered-Answers resume (ok cancellation_requested) state h =
      send-Answers _ (λ _. resume) state refl (λ sent kept. h sent)
  cancel_answered-Answers resume (ok not_active) state h =
      send-Answers _ (λ _. resume) state refl (λ sent kept. h sent)
  cancel_answered-Answers resume (ok (already_terminal terminal)) state h =
      send-Answers _ (λ _. send_terminal outside session_id turn_id terminal continue) state refl
        (λ sent kept.
          submission_ended-Answers
            (ok (record { session_id = session_id; turn_id = turn_id; terminal = terminal }))
            continue sent refl)
  cancel_answered-Answers resume (err error) state h = turn_failed-Answers error state

  cancel_requested-Answers :
      (resume : Run ActiveOutcome) (requested : ℕ) (state : Adapter)
      → ((later : Adapter) → Answers later (resume later))
      → Answers state (cancel_requested outside session_id turn_id resume requested state)
  cancel_requested-Answers resume requested state h = elim (Bool-cases (requested == turn_id)) [
    | inl own ↦
        let called = record state { cancels = suc state.cancels } in
        rw own (
          Kept-IsAnswered _ state called _ ((refl, omega arith), refl)
            (cancel_answered-Answers resume (outside.cancel_turn state.cancels turn_id) called h))
    | inr other ↦ rw other (send-Answers _ (λ _. resume) state refl (λ sent kept. h sent))
  ]

  active_command-Answers :
      (resume : Run ActiveOutcome) (submission : Submission) (command : InputFrame)
      (state : Adapter)
      → Matches (session_id, turn_id) submission.result
      → ((later : Adapter) → Answers later (resume later))
      → Answers state (active_command outside session_id turn_id resume submission command state)
  active_command-Answers resume submission (submit v session turn input) state m h =
      ensure_session-Answers submission session _ state m
        (other_submitted-Answers submission turn state m)
  active_command-Answers resume submission (cancel v session turn) state m h =
      ensure_session-Answers submission session _ state m
        (cancel_requested-Answers resume turn state h)
  active_command-Answers resume submission (shutdown v session) state m h =
      ensure_session-Answers submission session _ state m
        (finish_active_shutdown-Answers submission state m)

  active_input-Answers :
      (resume : Run ActiveOutcome) (submission : Submission) (input : Option InputFrame)
      (state : Adapter)
      → Matches (session_id, turn_id) submission.result
      → ((later : Adapter) → Answers later (resume later))
      → Answers state (active_input outside session_id turn_id resume submission input state)
  unfolding ensure_version
  active_input-Answers resume submission none state m h =
      finish_active_shutdown-Answers submission state m
  active_input-Answers resume submission (some command) state m h =
      elim (Bool-cases (version_of command == protocol_version)) [
        | inl current ↦
            rw (current, ensure_version)
              (active_command-Answers resume submission command state m h)
        | inr other ↦ rw (other, ensure_version) (fail_active_protocol-Answers submission _ state m)
      ]

  read-Answers :
      (resume : Run ActiveOutcome) (submission : Submission) (state : Adapter)
      → Matches (session_id, turn_id) submission.result
      → ((later : Adapter) → Answers later (resume later))
      → Answers state (
          or_fail outside session_id turn_id submission next_command
            (active_input outside session_id turn_id resume submission)
            state)
  read-Answers resume submission state m h = elim (NextCommand-cases state) [
    | at_end e ↦ rw e (finish_active_shutdown-Answers submission state m)
    | a_command command rest shorter e ↦
        let read = record state { commands = rest } in
        rw e (
          Kept-IsAnswered _ state read _ ((refl, omega (arith, shorter)), refl)
            (active_input-Answers resume submission (some command) read m h))
    | an_error error rest shorter e ↦
        let read = record state { commands = rest } in
        rw e (
          Kept-IsAnswered _ state read _ ((refl, omega (arith, shorter)), refl)
            (fail_active_protocol-Answers submission error read m))
  ]

  pub drive_turn-IsAnswered :
      (submission : Submission) (before : ℕ) (state : Adapter)
      → Matches (session_id, turn_id) submission.result
      → IsAnswered
          (session_id, turn_id)
          state
          (drive_turn outside session_id turn_id submission before state)
  unfolding drive_turn
  drive_turn-IsAnswered submission zero state m =
      submission_ended-Answers submission.result continue state m
  drive_turn-IsAnswered submission (suc before) state m =
      read-Answers (drive_turn outside session_id turn_id submission before) submission state m
        (λ later. drive_turn-IsAnswered submission before later m)

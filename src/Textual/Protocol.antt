-- ===== src/Textual/Protocol.antt =====
-- crates/paraegox/src/textual_stdio.rs: the conversation over the lines. A run depends on what comes
-- from outside: the commands that are read, how each submission ends and how many commands come before
-- it does, what the client's `cancel` and `close` answer, and which writes succeed in time.
pub mod Written
pub mod Turns
pub mod Answers
use para_egox.Prelude.{
  ℕ, zero, suc, ◌+◌, ◌/◌, ◌^◌, Bool, true, false, Option, none, some, List, [], ◌∷◌, ltb, ◌==◌,
  if◌then◌else◌, length, Result, ok, err,
}
use para_egox.Prelude.Stateful.{and_then, ◌>>=◌, ◌>>◌, return, fail}
use para_egox.Text.{Text, text}
use para_egox.Agent.Types.{
  TurnTerminal, TurnResult, CancelResult, cancellation_requested, already_terminal, not_active,
  max_input_bytes,
}
use para_egox.Textual.Truncate.{truncate_utf8, max_error_bytes}
use para_egox.Textual.Frames.{ReadError}

abbrev pub protocol_version : ℕ
protocol_version = 1

abbrev pub max_output_frame_bytes : ℕ
max_output_frame_bytes = 65536

pub data InputFrame : Type 0 where
  submit : ℕ → ℕ → ℕ → Text → InputFrame
  cancel : ℕ → ℕ → ℕ → InputFrame
  shutdown : ℕ → ℕ → InputFrame

pub data CancelStatus : Type 0 where
  status_requested status_terminal status_not_active : CancelStatus

pub data OutputFrame : Type 0 where
  ready : ℕ → ℕ → ℕ → ℕ → OutputFrame
  cancel_result : ℕ → ℕ → ℕ → CancelStatus → OutputFrame
  turn_terminal : ℕ → TurnResult → OutputFrame
  turn_error : ℕ → ℕ → ℕ → Text → OutputFrame
  stopped : ℕ → ℕ → OutputFrame

-- Why a function of the adapter gives an error; `panicked` is the panic of a slice.
pub data AdapterError : Type 0 where
  invalid_command unsupported_version other_session timeout_too_large : AdapterError
  not_encoded response_too_large not_written : AdapterError
  stopped_fatal panicked out_of_fuel : AdapterError
  unread : ReadError → AdapterError
  client_error : Text → AdapterError

pub data ActiveOutcome : Type 0 where
  continue graceful_shutdown fatal : ActiveOutcome

pub data ProtocolOutcome : Type 0 where
  graceful fatal_turn : ProtocolOutcome

-- A submission: the commands that are read before it ends, its end, and whether it ends within the
-- two seconds that a shutdown waits.
pub record Submission : Type 0 where
  pub commands_before : ℕ
  pub result : Result Text TurnResult
  pub in_time : Bool

-- The encoder of serde_json (the size of the encoding) and the calls that reach out, numbered as they
-- happen.
pub record Outside : Type 0 where
  pub to_vec : OutputFrame → Option ℕ
  pub write : ℕ → Bool
  pub submit_turn : ℕ → ℕ → Text → Submission
  pub cancel_turn : ℕ → ℕ → Result Text CancelResult
  pub close : Result Text (Unit {0})

abbrev pub Commands : Type 0
Commands = List (Result AdapterError InputFrame)

-- The commands still to come, the turns submitted and the frames written, the last first, and the
-- number of writes and of cancellations.
pub record Adapter : Type 0 where
  pub commands : Commands
  pub submitted : List (ℕ × ℕ)
  pub written : List OutputFrame
  pub writes : ℕ
  pub cancels : ℕ

abbrev pub Run : Type 0 → Type 0
Run A = Adapter → Result AdapterError A × Adapter

-- `self.writer.write_all` twice and `flush`, within the timeout.
abbrev pub write_line : Bool → OutputFrame → Run (Unit {0})
write_line true frame state =
    (ok tt, record state { written = frame ∷ state.written; writes = suc state.writes })
write_line false frame state = (err not_written, record state { writes = suc state.writes })

unfoldable pub send : Outside → OutputFrame → Run (Unit {0})
send outside frame state = elim (outside.to_vec frame) [
  | none ↦ (err not_encoded, state)
  | some encoded ↦
      if ltb max_output_frame_bytes encoded
      then (err response_too_large, state)
      else write_line (outside.write state.writes) frame state
]

-- `next_command` at the end of the input, of a command, and of an error.
abbrev pub read_command : Commands → Run (Option InputFrame)
read_command [] state = (ok none, state)
read_command (ok command ∷ rest) state = (ok (some command), record state { commands = rest })
read_command (err e ∷ rest) state = (err e, record state { commands = rest })

unfoldable pub next_command : Run (Option InputFrame)
next_command state = read_command state.commands state

unfoldable pub cancel_status : CancelResult → CancelStatus × Option TurnTerminal
cancel_status cancellation_requested = (status_requested, none)
cancel_status (already_terminal terminal) = (status_terminal, some terminal)
cancel_status not_active = (status_not_active, none)

unfoldable pub ensure_session : ℕ → ℕ → Run (Unit {0})
ensure_session expected actual = if expected == actual then return tt else fail other_session

unfoldable pub version_of : InputFrame → ℕ
version_of (submit v session_id turn_id input) = v
version_of (cancel v session_id turn_id) = v
version_of (shutdown v session_id) = v

unfoldable pub ensure_version : InputFrame → Run (Unit {0})
ensure_version command =
    if version_of command == protocol_version then return tt else fail unsupported_version

unfoldable pub duration_millis : ℕ → Run ℕ
duration_millis duration =
    if ltb (duration / 1000000) (2 ^ 64)
    then return (duration / 1000000)
    else fail timeout_too_large

unfoldable pub safe_message : Text → Run Text
safe_message error state = elim (truncate_utf8 error max_error_bytes) [
  | some message ↦ (ok message, state)
  | none ↦ (err panicked, state)
]

-- `client.cancel`.
abbrev pub cancel_call : Outside → ℕ → Run (Result Text CancelResult)
cancel_call outside turn_id state =
    (ok (outside.cancel_turn state.cancels turn_id), record state { cancels = suc state.cancels })

module _ (outside : Outside) (session_id turn_id : ℕ) where
  abbrev pub turn_failed : Text → Run ActiveOutcome
  turn_failed error = do
    message ← safe_message error
    send outside (turn_error protocol_version session_id turn_id message)
    return fatal

  -- The end of a submission that is awaited, with the outcome after its terminal.
  abbrev pub submission_ended : Result Text TurnResult → ActiveOutcome → Run ActiveOutcome
  submission_ended (ok result) outcome = do
    send outside (turn_terminal protocol_version result)
    return outcome
  submission_ended (err error) outcome = turn_failed error

  abbrev pub send_terminal : TurnTerminal → ActiveOutcome → Run ActiveOutcome
  send_terminal terminal outcome =
      submission_ended
        (ok (record { session_id = session_id; turn_id = turn_id; terminal = terminal })) outcome

  -- Behind the answer to a cancellation, when a shutdown waits for the submission.
  abbrev pub confirm_terminal : Submission → Option TurnTerminal → Run ActiveOutcome
  confirm_terminal submission (some terminal) = send_terminal terminal graceful_shutdown
  confirm_terminal submission none =
      if submission.in_time
      then submission_ended submission.result graceful_shutdown
      else (send outside (
            turn_error protocol_version session_id turn_id
              (text "Agent terminal was not confirmed before shutdown"))
          >> return fatal)

  abbrev pub shutdown_cancelled : Submission → Result Text CancelResult → Run ActiveOutcome
  shutdown_cancelled submission (ok result) =
      let (status, terminal) = cancel_status result in
      send outside (cancel_result protocol_version session_id turn_id status)
      >> confirm_terminal submission terminal
  shutdown_cancelled submission (err error) = turn_failed error

  unfoldable pub finish_active_shutdown : Submission → Run ActiveOutcome
  finish_active_shutdown submission = do
    answer ← cancel_call outside turn_id
    shutdown_cancelled submission answer

  -- Whatever the shutdown gives, the error of the protocol is the result.
  unfoldable pub fail_active_protocol : Submission → AdapterError → Run ActiveOutcome
  fail_active_protocol submission protocol_error state =
      let (outcome, rest) = finish_active_shutdown submission state in (err protocol_error, rest)

  -- `if let Err(error) = check { return fail_active_protocol(...) }`, and what follows.
  abbrev pub checked :
      {A : Type 0}
      → Submission
      → Result AdapterError A × Adapter
      → (A → Run ActiveOutcome)
      → Result AdapterError ActiveOutcome × Adapter
  checked submission (ok a, state) next = next a state
  checked submission (err e, state) next = fail_active_protocol submission e state

  abbrev pub or_fail :
      {A : Type 0} → Submission → Run A → (A → Run ActiveOutcome) → Run ActiveOutcome
  or_fail submission check next state = checked submission (check state) next

  -- A cancellation of the active turn; `resume` is the next turn of the loop.
  abbrev pub cancel_answered : Run ActiveOutcome → Result Text CancelResult → Run ActiveOutcome
  cancel_answered resume (ok result) =
      let (status, terminal) = cancel_status result in
      send outside (cancel_result protocol_version session_id turn_id status)
      >> elim terminal [ some terminal ↦ send_terminal terminal continue | none ↦ resume ]
  cancel_answered resume (err error) = turn_failed error

  abbrev pub cancel_requested : Run ActiveOutcome → ℕ → Run ActiveOutcome
  cancel_requested resume requested_turn =
      if requested_turn == turn_id
      then (cancel_call outside turn_id >>= cancel_answered resume)
      else (send outside
            (cancel_result protocol_version session_id requested_turn status_not_active)
          >> resume)

  abbrev pub other_submitted : Submission → ℕ → Run ActiveOutcome
  other_submitted submission submitted_turn = do
    send outside (
        turn_error protocol_version session_id submitted_turn
          (text "another turn is already active"))
    finish_active_shutdown submission
    return fatal

  abbrev pub active_command : Run ActiveOutcome → Submission → InputFrame → Run ActiveOutcome
  active_command resume submission (cancel v requested_session requested_turn) =
      or_fail submission (ensure_session session_id requested_session)
        (λ _. cancel_requested resume requested_turn)
  active_command resume submission (submit v submitted_session submitted_turn input) =
      or_fail submission (ensure_session session_id submitted_session)
        (λ _. other_submitted submission submitted_turn)
  active_command resume submission (shutdown v requested_session) =
      or_fail submission (ensure_session session_id requested_session)
        (λ _. finish_active_shutdown submission)

  abbrev pub active_input : Run ActiveOutcome → Submission → Option InputFrame → Run ActiveOutcome
  active_input resume submission none = finish_active_shutdown submission
  active_input resume submission (some command) =
      or_fail submission (ensure_version command) (λ _. active_command resume submission command)

  -- `drive_turn` from the commands that are read before the submission ends.
  unfoldable pub drive_turn : Submission → ℕ → Run ActiveOutcome
  drive_turn submission zero = submission_ended submission.result continue
  drive_turn submission (suc before) =
      or_fail submission next_command (active_input (drive_turn submission before) submission)

module _ (outside : Outside) (session_id : ℕ) where
  -- `client.submit_turn`, whose end is awaited together with the commands.
  abbrev pub submitted_turn : ℕ → Text → Run ActiveOutcome
  submitted_turn turn_id input state =
      let submission = outside.submit_turn (length state.submitted) turn_id input in
      drive_turn outside session_id turn_id submission submission.commands_before
        (record state { submitted = (session_id, turn_id) ∷ state.submitted })

  abbrev pub turn_driven :
      Run (Option ProtocolOutcome) → ActiveOutcome → Run (Option ProtocolOutcome)
  turn_driven next continue = next
  turn_driven next graceful_shutdown = return (some graceful)
  turn_driven next fatal = return (some fatal_turn)

  -- One turn of the loop of `run_protocol`, `next` being those that follow.
  abbrev pub idle_command : Run (Option ProtocolOutcome) → InputFrame → Run (Option ProtocolOutcome)
  idle_command next (submit v submitted_session turn_id input) = do
    ensure_session session_id submitted_session
    outcome ← submitted_turn turn_id input
    turn_driven next outcome
  idle_command next (cancel v requested_session turn_id) = do
    ensure_session session_id requested_session
    send outside (cancel_result protocol_version session_id turn_id status_not_active)
    next
  idle_command next (shutdown v requested_session) = do
    ensure_session session_id requested_session
    return (some graceful)

  abbrev pub idle_input :
      Run (Option ProtocolOutcome) → Option InputFrame → Run (Option ProtocolOutcome)
  idle_input next none = return (some graceful)
  idle_input next (some command) = ensure_version command >> idle_command next command

  -- `run_protocol` on fuel, one unit for a turn of its loop; `none` is fuel that ran out.
  unfoldable pub run_protocol : ℕ → Run (Option ProtocolOutcome)
  run_protocol zero = return none
  run_protocol (suc fuel) = next_command >>= idle_input (run_protocol fuel)

  -- What `run_textual_stdio` returns, from the results of the protocol and of `close`.
  abbrev pub close_protocol :
      Result AdapterError (Option ProtocolOutcome) → Result Text (Unit {0}) → Run (Unit {0})
  close_protocol (ok (some graceful)) (ok closed) =
      send outside (stopped protocol_version session_id) >> return tt
  close_protocol (ok (some fatal_turn)) (ok closed) = fail stopped_fatal
  close_protocol (err e) closed = fail e
  close_protocol (ok (some outcome)) (err error) = fail (client_error error)
  close_protocol (ok none) closed = fail out_of_fuel

  abbrev pub run_ready : ℕ → Run (Unit {0})
  run_ready fuel state =
      let (outcome, rest) = run_protocol fuel state in close_protocol outcome outside.close rest

  -- `run_textual_stdio` of a client that has connected.
  unfoldable pub run_textual_stdio : ℕ → Commands → Result AdapterError (Unit {0}) × Adapter
  run_textual_stdio turn_timeout commands =
      (do
        turn_timeout_ms ← duration_millis turn_timeout
        send outside (ready protocol_version session_id turn_timeout_ms max_input_bytes)
        run_ready (suc (length commands)))
        (record { commands = commands; submitted = []; written = []; writes = 0; cancels = 0 })

-- ===== src/Textual/Protocol/Answers.antt =====
-- How crates/paraegox/src/textual_stdio.rs answers the turns of a whole conversation.
use para_egox.Prelude.{
  ℕ, zero, suc, ◌≤◌, ◌<◌, ◌≡◌, refl, sym, ◌∙◌, ap, Option, none, some, List, [], ◌∷◌, arith, ltb,
  ◌==◌, ◌/◌, ◌^◌, length, Result, ok, err, ◌⊎◌, inl, inr, Bool-cases,
}
use para_egox.Text.{Text}
use para_egox.Agent.Types.{max_input_bytes}
use para_egox.Prelude.Stateful.{and_then, return}
use para_egox.Textual.Protocol.{
  InputFrame, submit, cancel, shutdown, OutputFrame, ready, cancel_result, stopped, AdapterError,
  ActiveOutcome, continue, graceful_shutdown, fatal, ProtocolOutcome, graceful, fatal_turn, Outside,
  Adapter, Commands, Run, ensure_session, ensure_version, version_of, submitted_turn, turn_driven,
  idle_command, idle_input, run_protocol, close_protocol, run_ready, run_textual_stdio,
  duration_millis, protocol_version, status_not_active,
}
use para_egox.Textual.Protocol.Written.{
  answered, Kept, Once, IsAnswered, Matches, send_lem, at_end, a_command, an_error,
  NextCommand-cases,
}
use para_egox.Textual.Protocol.Turns.{drive_turn-IsAnswered}

-- Every submission ends with a result of its own turn, or with an error.
abbrev pub Faithful : Outside → ℕ → Type 0
Faithful outside session_id =
    (index turn_id : ℕ) (input : Text)
    → Matches (session_id, turn_id) (outside.submit_turn index turn_id input).result

-- All turns submitted are answered, or all but the last one.
abbrev pub AllAnswered : Adapter → Type 0
AllAnswered state = answered state.written ≡ state.submitted

abbrev pub LastOpen : Adapter → Type 0
LastOpen state = (turn : ℕ × ℕ) × (state.submitted ≡ turn ∷ answered state.written)

-- A protocol that ends well has answered all turns; one that fails, all but perhaps the last. It does
-- not run out of fuel.
abbrev pub IsDone : Result AdapterError (Option ProtocolOutcome) × Adapter → Type 0
IsDone (ok none, state) = ⊥
IsDone (ok (some graceful), state) = AllAnswered state
IsDone (ok (some fatal_turn), state) = AllAnswered state ⊎ LastOpen state
IsDone (err e, state) = AllAnswered state ⊎ LastOpen state

Kept-AllAnswered :
    (before after : Adapter) → Kept before after → AllAnswered before → AllAnswered after
Kept-AllAnswered before after ((s, l), w) h = w ∙ h ∙ sym s

maybe_open :
    (turn : ℕ × ℕ) (before begun after : Adapter)
    → AllAnswered before
    → begun.submitted ≡ turn ∷ before.submitted
    → begun.written ≡ before.written
    → Kept begun after ⊎ Once turn begun after
    → AllAnswered after ⊎ LastOpen after
maybe_open turn before begun after h s w (inl ((t, m), x)) =
    inr (turn, t ∙ s ∙ ap (λ turns. turn ∷ turns) (sym h ∙ sym (ap answered w) ∙ sym x))
maybe_open turn before begun after h s w (inr ((t, m), x)) =
    inl (x ∙ ap (λ frames. turn ∷ answered frames) w ∙ ap (λ turns. turn ∷ turns) h ∙ sym s ∙ sym t)

module _ (outside : Outside) (session_id : ℕ) where
  -- The next turns of the loop, from a state with fewer commands.
  abbrev GoesOn : Run (Option ProtocolOutcome) → Adapter → Type 0
  GoesOn next state =
      (later : Adapter)
      → length later.commands ≤ length state.commands
      → AllAnswered later
      → IsDone (next later)

  turn_driven-IsDone :
      (turn : ℕ × ℕ) (next : Run (Option ProtocolOutcome)) (before begun : Adapter)
      (r : Result AdapterError ActiveOutcome × Adapter)
      → GoesOn next before
      → AllAnswered before
      → length begun.commands ≤ length before.commands
      → begun.submitted ≡ turn ∷ before.submitted
      → begun.written ≡ before.written
      → IsAnswered turn begun r
      → IsDone (and_then r (turn_driven outside session_id next))
  turn_driven-IsDone turn next before begun (ok continue, after) go h l s w ((t, m), x) =
      go after (omega arith)
        (x ∙ ap (λ frames. turn ∷ answered frames) w ∙ ap (λ turns. turn ∷ turns) h ∙ sym s ∙ sym t)
  turn_driven-IsDone turn next before begun (ok graceful_shutdown, after) go h l s w ((t, m), x) =
      x ∙ ap (λ frames. turn ∷ answered frames) w ∙ ap (λ turns. turn ∷ turns) h ∙ sym s ∙ sym t
  turn_driven-IsDone turn next before begun (ok fatal, after) go h l s w x =
      maybe_open turn before begun after h s w x
  turn_driven-IsDone turn next before begun (err e, after) go h l s w x =
      maybe_open turn before begun after h s w x

  session-IsDone :
      (actual : ℕ) (next : Unit {0} → Run (Option ProtocolOutcome)) (state : Adapter)
      → AllAnswered state
      → IsDone (next tt state)
      → IsDone (and_then (ensure_session session_id actual state) next)
  unfolding ensure_session
  session-IsDone actual next state h k = elim (Bool-cases (session_id == actual)) [
    | inl same ↦ rw (same, ensure_session) k
    | inr other ↦ rw (other, ensure_session) (inl h)
  ]

  submitted_turn-IsDone :
      (next : Run (Option ProtocolOutcome)) (turn_id : ℕ) (input : Text) (state : Adapter)
      → Faithful outside session_id
      → GoesOn next state
      → AllAnswered state
      → IsDone (
          and_then
            (submitted_turn outside session_id turn_id input state)
            (turn_driven outside session_id next))
  submitted_turn-IsDone next turn_id input state f go h =
      let turn : ℕ × ℕ = (session_id, turn_id) in
      let submission = outside.submit_turn (length state.submitted) turn_id input in
      let begun = record state { submitted = turn ∷ state.submitted } in
      turn_driven-IsDone turn next state begun _ go h (omega arith) refl refl (
        drive_turn-IsAnswered outside session_id turn_id submission submission.commands_before begun
          (f (length state.submitted) turn_id input))

  idle_command-IsDone :
      (next : Run (Option ProtocolOutcome)) (command : InputFrame) (state : Adapter)
      → Faithful outside session_id
      → GoesOn next state
      → AllAnswered state
      → IsDone (idle_command outside session_id next command state)
  idle_command-IsDone next (submit v session turn_id input) state f go h =
      session-IsDone session _ state h (submitted_turn-IsDone next turn_id input state f go h)
  idle_command-IsDone next (cancel v session turn_id) state f go h =
      session-IsDone session _ state h (
        send_lem outside IsDone
          (cancel_result protocol_version session_id turn_id status_not_active) (λ _. next) state
          (λ writes. go _ (omega arith) h)
          (λ e after kept. inl (Kept-AllAnswered state after kept h)))
  idle_command-IsDone next (shutdown v session) state f go h = session-IsDone session _ state h h

  idle_input-IsDone :
      (next : Run (Option ProtocolOutcome)) (command : InputFrame) (state : Adapter)
      → Faithful outside session_id
      → GoesOn next state
      → AllAnswered state
      → IsDone (idle_input outside session_id next (some command) state)
  unfolding ensure_version
  idle_input-IsDone next command state f go h =
      elim (Bool-cases (version_of command == protocol_version)) [
        | inl current ↦ rw (current, ensure_version) (idle_command-IsDone next command state f go h)
        | inr other ↦ rw (other, ensure_version) (inl h)
      ]

  -- `run_protocol` ends: with more fuel than there are commands it returns. When it ends gracefully,
  -- every turn submitted has one terminal, with its own identity and in the order of the submissions;
  -- when it fails, the last turn may be without one. The condition is that the client gives a
  -- submission no result of another turn.
  pub run_protocol-IsDone :
      (fuel : ℕ) (state : Adapter)
      → Faithful outside session_id
      → length state.commands < fuel
      → AllAnswered state
      → IsDone (run_protocol outside session_id fuel state)
  unfolding run_protocol
  run_protocol-IsDone zero state f enough h = absurd (omega arith)
  run_protocol-IsDone (suc fuel) state f enough h = elim (NextCommand-cases state) [
    | at_end e ↦ rw e h
    | a_command command rest shorter e ↦ rw e (
        idle_input-IsDone (run_protocol outside session_id fuel) command
          (record state { commands = rest }) f
          (λ later l k. run_protocol-IsDone fuel later f (omega arith) k) h)
    | an_error error rest shorter e ↦ rw e (inl h)
  ]

-- A run of the adapter that succeeds wrote `Stopped` last, and one terminal for every turn submitted,
-- in their order.
abbrev pub IsComplete : ℕ → Result AdapterError (Unit {0}) × Adapter → Type 0
IsComplete session_id (ok done, state) =
    (frames : List OutputFrame) × (state.written ≡ stopped protocol_version session_id ∷ frames)
    × AllAnswered state
IsComplete session_id (err e, state) = AllAnswered state ⊎ LastOpen state

module _ (outside : Outside) (session_id : ℕ) where
  done_open :
      (r : Result AdapterError (Option ProtocolOutcome)) (state : Adapter)
      → IsDone (r, state)
      → AllAnswered state ⊎ LastOpen state
  done_open (ok none) state h = absurd h
  done_open (ok (some graceful)) state h = inl h
  done_open (ok (some fatal_turn)) state h = h
  done_open (err e) state h = h

  close_protocol-IsComplete :
      (r : Result AdapterError (Option ProtocolOutcome)) (closed : Result Text (Unit {0}))
      (state : Adapter)
      → IsDone (r, state)
      → IsComplete session_id (close_protocol outside session_id r closed state)
  close_protocol-IsComplete (ok (some graceful)) (ok closed) state h =
      send_lem outside (IsComplete session_id) (stopped protocol_version session_id)
        (λ _. return tt) state (λ writes. (state.written, refl, h))
        (λ e after kept. inl (Kept-AllAnswered state after kept h))
  close_protocol-IsComplete (ok (some fatal_turn)) (ok closed) state h = h
  close_protocol-IsComplete (err e) closed state h = h
  close_protocol-IsComplete (ok (some outcome)) (err error) state h =
      done_open (ok (some outcome)) state h
  close_protocol-IsComplete (ok none) closed state h = absurd h

-- When the adapter succeeds, it wrote `Stopped` last and one terminal for every turn submitted, in
-- their order; when it fails, the last turn may be without a terminal. The condition is that the
-- client gives a submission no result of another turn.
pub run_textual_stdio-IsComplete :
    (outside : Outside) (session_id turn_timeout : ℕ) (commands : Commands)
    → Faithful outside session_id
    → IsComplete session_id (run_textual_stdio outside session_id turn_timeout commands)
unfolding run_textual_stdio duration_millis
run_textual_stdio-IsComplete outside session_id turn_timeout commands f =
    let start : Adapter = record {
      commands = commands;
      submitted = [];
      written = [];
      writes = 0;
      cancels = 0;
    } in
    elim (Bool-cases (ltb (turn_timeout / 1000000) (2 ^ 64))) [
      | inr large ↦ rw (large, run_textual_stdio, duration_millis) (inl refl)
      | inl fits ↦
          rw (fits, run_textual_stdio, duration_millis)
            (send_lem outside (IsComplete session_id)
              (ready protocol_version session_id (turn_timeout / 1000000) max_input_bytes)
              (λ _. run_ready outside session_id (suc (length commands))) start
              (λ writes.
                let begun = record start {
                  written =
                      ready protocol_version session_id (turn_timeout / 1000000) max_input_bytes
                      ∷ [];
                  writes = writes;
                } in
                let r = run_protocol outside session_id (suc (length commands)) begun in
                close_protocol-IsComplete outside session_id r.0 outside.close r.1 (
                  run_protocol-IsDone outside session_id (suc (length commands)) begun f
                    (omega arith) refl))
              (λ e after kept. inl (Kept-AllAnswered start after kept refl)))
    ]

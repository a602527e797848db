-- ===== src/Textual/Protocol/Written.antt =====
-- What the conversation of crates/paraegox/src/textual_stdio.rs has written, and which turns that answers.
use para_egox.Prelude.{
  ℕ, suc, ◌≤◌, ◌<◌, ◌≡◌, refl, ◌∙◌, ap, none, some, List, [], ◌∷◌, arith, ltb, length, Result, ok,
  err, ◌⊎◌, inl, inr, Option-cases, Bool-cases,
}
use para_egox.Text.{Text}
use para_egox.Agent.Types.{TurnResult}
use para_egox.Textual.Truncate.{truncate_utf8_lem, max_error_bytes}
use para_egox.Prelude.Stateful.{and_then}
use para_egox.Textual.Protocol.{
  InputFrame, OutputFrame, ready, cancel_result, turn_terminal, turn_error, stopped, AdapterError,
  ActiveOutcome, continue, graceful_shutdown, fatal, Outside, Adapter, Commands, Run, send,
  next_command, read_command, safe_message, max_output_frame_bytes,
}

-- The turns whose terminal has been written, the last first.
abbrev pub answered : List OutputFrame → List (ℕ × ℕ)
answered [] = []
answered (turn_terminal v result ∷ frames) = (result.session_id, result.turn_id) ∷ answered frames
answered (ready v session_id turn_timeout_ms max_input ∷ frames) = answered frames
answered (cancel_result v session_id turn_id result ∷ frames) = answered frames
answered (turn_error v session_id turn_id message ∷ frames) = answered frames
answered (stopped v session_id ∷ frames) = answered frames

-- The same turns are submitted; no command has come back.
abbrev pub Same : Adapter → Adapter → Type 0
Same before after =
    (after.submitted ≡ before.submitted) × (length after.commands ≤ length before.commands)

abbrev pub Kept : Adapter → Adapter → Type 0
Kept before after = Same before after × (answered after.written ≡ answered before.written)

abbrev pub Once : ℕ × ℕ → Adapter → Adapter → Type 0
Once turn before after =
    Same before after × (answered after.written ≡ turn ∷ answered before.written)

-- A turn that lets the conversation go on or end well has one terminal, written last of its kind.
abbrev pub IsAnswered : ℕ × ℕ → Adapter → Result AdapterError ActiveOutcome × Adapter → Type 0
IsAnswered turn before (ok continue, after) = Once turn before after
IsAnswered turn before (ok graceful_shutdown, after) = Once turn before after
IsAnswered turn before (ok fatal, after) = Kept before after ⊎ Once turn before after
IsAnswered turn before (err e, after) = Kept before after ⊎ Once turn before after

-- A result of the submission is that of its turn: the client checks it.
abbrev pub Matches : ℕ × ℕ → Result Text TurnResult → Type 0
Matches turn (ok result) = (result.session_id, result.turn_id) ≡ turn
Matches turn (err error) = Unit {0}

pub Once-IsAnswered :
    (turn : ℕ × ℕ) (before after : Adapter) (outcome : ActiveOutcome)
    → Once turn before after
    → IsAnswered turn before (ok outcome, after)
Once-IsAnswered turn before after continue once = once
Once-IsAnswered turn before after graceful_shutdown once = once
Once-IsAnswered turn before after fatal once = inr once

Kept-Kept : (a b c : Adapter) → Kept a b → Kept b c → Kept a c
Kept-Kept a b c ((s, l), w) ((t, m), x) = ((t ∙ s, omega arith), x ∙ w)

Kept-Once : (turn : ℕ × ℕ) (a b c : Adapter) → Kept a b → Once turn b c → Once turn a c
Kept-Once turn a b c ((s, l), w) ((t, m), x) =
    ((t ∙ s, omega arith), x ∙ ap (λ frames. turn ∷ frames) w)

Kept-either :
    (turn : ℕ × ℕ) (a b c : Adapter)
    → Kept a b
    → Kept b c ⊎ Once turn b c
    → Kept a c ⊎ Once turn a c
Kept-either turn a b c k (inl l) = inl (Kept-Kept a b c k l)
Kept-either turn a b c k (inr l) = inr (Kept-Once turn a b c k l)

pub Kept-IsAnswered :
    (turn : ℕ × ℕ) (a b : Adapter) (r : Result AdapterError ActiveOutcome × Adapter)
    → Kept a b
    → IsAnswered turn b r
    → IsAnswered turn a r
Kept-IsAnswered turn a b (ok continue, c) k h = Kept-Once turn a b c k h
Kept-IsAnswered turn a b (ok graceful_shutdown, c) k h = Kept-Once turn a b c k h
Kept-IsAnswered turn a b (ok fatal, c) k h = Kept-either turn a b c k h
Kept-IsAnswered turn a b (err e, c) k h = Kept-either turn a b c k h

-- What a read of a command gives.
pub data NextCommand (state : Adapter) : Type 0 where
  at_end : next_command state ≡ (ok none, state) → NextCommand state
  a_command :
      (command : InputFrame) (rest : Commands)
      → length rest < length state.commands
      → next_command state ≡ (ok (some command), record state { commands = rest })
      → NextCommand state
  an_error :
      (e : AdapterError) (rest : Commands)
      → length rest < length state.commands
      → next_command state ≡ (err e, record state { commands = rest })
      → NextCommand state

commands-cases :
    (state : Adapter) (commands : Commands) → state.commands ≡ commands → NextCommand state
unfolding next_command
commands-cases state [] e = at_end (ap (λ commands. read_command commands state) e)
commands-cases state (ok command ∷ rest) e =
    a_command command rest (rw e (omega arith)) (ap (λ commands. read_command commands state) e)
commands-cases state (err error ∷ rest) e =
    an_error error rest (rw e (omega arith)) (ap (λ commands. read_command commands state) e)

pub NextCommand-cases : (state : Adapter) → NextCommand state
NextCommand-cases state = commands-cases state state.commands refl

module _ (outside : Outside) where
  -- What holds after a frame is sent: both when it is written and when it is not.
  pub send_lem :
      {B : Type 0} (P : Result AdapterError B × Adapter → Type 0) (frame : OutputFrame)
      (k : Unit {0} → Run B) (state : Adapter)
      → ((writes : ℕ)
          → P (k tt (record state { written = frame ∷ state.written; writes = writes })))
      → ((e : AdapterError) (after : Adapter) → Kept state after → P (err e, after))
      → P (and_then (send outside frame state) k)
  unfolding send
  send_lem P frame k state sent unsent = elim (Option-cases (outside.to_vec frame)) [
    | inl e ↦ rw (e, send) (unsent _ state ((refl, omega arith), refl))
    | inr (encoded, e) ↦ elim (Bool-cases (ltb max_output_frame_bytes encoded)) [
      | inl large ↦ rw (e, send, large) (unsent _ state ((refl, omega arith), refl))
      | inr fits ↦ elim (Bool-cases (outside.write state.writes)) [
        | inl works ↦ rw (e, send, fits, works) (sent (suc state.writes))
        | inr breaks ↦ rw (e, send, fits, breaks) (unsent _ _ ((refl, omega arith), refl))
      ]
    ]
  ]

  pub safe_message_lem :
      (error : Text) (state : Adapter)
      → (message : Text) × (safe_message error state ≡ (ok message, state))
  unfolding safe_message
  safe_message_lem error state =
      let (message, rest, e, parts, short, longest) = truncate_utf8_lem error max_error_bytes in
      (message, rw (e, safe_message) refl)

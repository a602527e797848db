-- ===== src/Tui/Loop.antt =====
-- crates/paraegox/src/tui/mod.rs: the loops of the conversation on the full screen. A run depends on the
-- events of the terminal, on how each submission ends and how many events come before it does, on what
-- the client's `cancel` answers, and on which drawings succeed.
pub mod Screens
pub mod Soundness
use para_egox.Prelude.{
  ℕ, zero, suc, Bool, true, false, Option, none, some, List, [], ◌∷◌, if◌then◌else◌, length, Result,
  ok, err,
}
use para_egox.Prelude.Stateful.{and_then, ◌>>=◌, ◌>>◌, return, fail}
use para_egox.Text.{Text, text}
use para_egox.Agent.Types.{
  TurnResult, CancelResult, cancellation_requested, already_terminal, not_active,
}
use para_egox.Tui.App.{ChatApp, set_notice, begin_turn, finish_turn}
use para_egox.Tui.App
use para_egox.Tui.Events.{
  Event, IdleAction, go_on, quit, submit, ActiveAction, stay, cancel_turn, leave, handle_idle_event,
  handle_active_event,
}

pub data TuiError : Type 0 where
  draw_failed stream_closed panicked : TuiError
  event_failed agent_failed : Text → TuiError

pub data ActiveOutcome : Type 0 where
  continue quit_after : ActiveOutcome

-- A submission: the events that are read before it ends, and its end.
pub record Submission : Type 0 where
  pub events_before : ℕ
  pub result : Result Text TurnResult

-- The calls that reach out, numbered as they happen.
pub record Outside : Type 0 where
  pub draw : ℕ → Bool
  pub submit_turn : ℕ → Text → Submission
  pub cancel : ℕ → Result Text CancelResult

-- The application, the events still to come, and the texts submitted, the last first.
pub record Screen : Type 0 where
  pub app : ChatApp
  pub events : List (Result Text Event)
  pub submitted : List Text
  pub drawn : ℕ
  pub cancels : ℕ

abbrev pub Run : Type 0 → Type 0
Run A = Screen → Result TuiError A × Screen

abbrev pub drawn_with : Bool → Run (Unit {0})
drawn_with true screen = (ok tt, record screen { drawn = suc screen.drawn })
drawn_with false screen = (err draw_failed, record screen { drawn = suc screen.drawn })

abbrev pub draw : Outside → Run (Unit {0})
draw outside screen = drawn_with (outside.draw screen.drawn) screen

-- `next_terminal_event`.
abbrev pub read_event : List (Result Text Event) → Run Event
read_event [] screen = (err stream_closed, screen)
read_event (ok event ∷ rest) screen = (ok event, record screen { events = rest })
read_event (err e ∷ rest) screen = (err (event_failed e), record screen { events = rest })

unfoldable pub next_terminal_event : Run Event
next_terminal_event screen = read_event screen.events screen

abbrev pub change : (ChatApp → ChatApp) → Run (Unit {0})
change f screen = (ok tt, record screen { app = f screen.app })

-- The handler between two turns.
abbrev pub handled : Option (IdleAction × ChatApp) → Run IdleAction
handled none screen = (err panicked, screen)
handled (some (action, app)) screen = (ok action, record screen { app = app })

abbrev pub idle_event : Event → Run IdleAction
idle_event event screen = handled (handle_idle_event screen.app event) screen

module _ (outside : Outside) where
  -- `client.cancel`.
  abbrev pub answered : {A : Type 0} → Result Text A → Run A
  answered (ok a) screen = (ok a, record screen { cancels = suc screen.cancels })
  answered (err e) screen = (err (agent_failed e), record screen { cancels = suc screen.cancels })

  abbrev pub cancel_call : Run CancelResult
  cancel_call screen = answered (outside.cancel screen.cancels) screen

  -- The end of the submission.
  abbrev pub ended : Result Text TurnResult → Run ActiveOutcome
  ended (ok result) = change (finish_turn result.terminal) >> return continue
  ended (err e) = fail (agent_failed e)

  -- The answer to a cancellation; `resume` is the next turn of the loop.
  abbrev pub cancel_answered : Run ActiveOutcome → CancelResult → Run ActiveOutcome
  cancel_answered resume cancellation_requested = change App.cancellation_requested >> resume
  cancel_answered resume (already_terminal terminal) =
      change (finish_turn terminal) >> return continue
  cancel_answered resume not_active =
      change (set_notice (text "Cancellation is not active yet; still waiting")) >> resume

  abbrev pub quit_answered : CancelResult → Run ActiveOutcome
  quit_answered cancellation_requested = change App.cancellation_requested >> return quit_after
  quit_answered (already_terminal terminal) = change (finish_turn terminal) >> return quit_after
  quit_answered not_active = return quit_after

  abbrev pub active_action : Run ActiveOutcome → ActiveAction → Run ActiveOutcome
  active_action resume stay = resume
  active_action resume cancel_turn = cancel_call >>= cancel_answered resume
  active_action resume leave = cancel_call >>= quit_answered

  -- `drive_active_turn` from the events that are read before the submission ends.
  unfoldable pub drive_active_turn : Submission → ℕ → Run ActiveOutcome
  drive_active_turn submission zero = draw outside >> ended submission.result
  drive_active_turn submission (suc before) = do
    draw outside
    event ← next_terminal_event
    active_action (drive_active_turn submission before) (handle_active_event event)

  abbrev pub after_turn : Run (Option (Unit {0})) → ActiveOutcome → Run (Option (Unit {0}))
  after_turn next continue = next
  after_turn next quit_after = return (some tt)

  abbrev pub submitted_turn : Text → Run ActiveOutcome
  submitted_turn input screen =
      let submission = outside.submit_turn (length screen.submitted) input in
      drive_active_turn submission submission.events_before
        (record screen { app = begin_turn input screen.app; submitted = input ∷ screen.submitted })

  -- What an action between two turns is followed by, `next` being the next turn of the loop.
  abbrev pub idle_action : Run (Option (Unit {0})) → IdleAction → Run (Option (Unit {0}))
  idle_action next go_on = next
  idle_action next quit = return (some tt)
  idle_action next (submit input) = submitted_turn input >>= after_turn next

  -- `fullscreen_event_loop` on fuel, one unit for a turn of its loop; `none` is fuel that ran out.
  unfoldable pub fullscreen_event_loop : ℕ → Run (Option (Unit {0}))
  fullscreen_event_loop zero = return none
  fullscreen_event_loop (suc fuel) = do
    draw outside
    event ← next_terminal_event
    action ← idle_event event
    idle_action (fullscreen_event_loop fuel) action

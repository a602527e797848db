-- ===== src/Tui/Loop/Soundness.antt =====
-- What holds through a conversation on the full screen of crates/paraegox/src/tui/mod.rs.
use para_egox.Prelude.{
  ℕ, zero, suc, ◌≤◌, ◌<◌, refl, Option, none, some, ◌∷◌, arith, length, Result, ok, err, Bool-cases,
  inl, inr, Result-cases,
}
use para_egox.Prelude.Stateful.{and_then}
use para_egox.Text.{Text, text}
use para_egox.Agent.Types.{
  TurnResult, CancelResult, cancellation_requested, already_terminal, not_active,
}
use para_egox.Tui.App.{ChatApp, set_notice, begin_turn, finish_turn, push_message}
use para_egox.Tui.App
use para_egox.Tui.Events.{
  IdleAction, go_on, quit, submit, ActiveAction, stay, cancel_turn, leave, handle_active_event,
}
use para_egox.Tui.Events.Submissions.{IsValid, handle_idle_event-IsHandled}
use para_egox.Tui.Loop.{
  TuiError, draw_failed, stream_closed, panicked, event_failed, agent_failed, ActiveOutcome,
  continue, quit_after, Submission, Outside, Screen, Run, draw, next_terminal_event, idle_event,
  cancel_call, ended, cancel_answered, quit_answered, active_action, drive_active_turn, after_turn,
  idle_action, fullscreen_event_loop,
}
use para_egox.Tui.Loop.Screens.{
  IsGood, Follows, IsFine, later, IsFine-later, and_then-IsFine, events-cases, next_event-IsFine,
  set_notice-IsSound, begin_turn-IsSound, cancellation_requested-IsSound, finish_turn-IsSound,
  IsRun, at_end, an_event, an_error,
}

module _ (outside : Outside) where
  draw-IsFine : (screen : Screen) → IsGood screen → IsFine screen (draw outside screen)
  draw-IsFine screen good = elim (Bool-cases (outside.draw screen.drawn)) [
    | inl works ↦ rw works (good, omega arith)
    | inr breaks ↦ rw breaks (good, omega arith)
  ]

  cancel_call-IsFine :
      (screen : Screen) → IsGood screen → IsFine screen (cancel_call outside screen)
  cancel_call-IsFine screen good = elim (Result-cases (outside.cancel screen.cancels)) [
    | inl (result, e) ↦ rw e (good, omega arith)
    | inr (error, e) ↦ rw e (good, omega arith)
  ]

  ended-IsFine :
      (result : Result Text TurnResult) (screen : Screen)
      → IsGood screen
      → IsFine screen (ended outside result screen)
  ended-IsFine (ok result) screen (sound, s) =
      ((finish_turn-IsSound result.terminal screen.app sound, s), omega arith)
  ended-IsFine (err e) screen good = (good, omega arith)

  cancel_answered-IsFine :
      (resume : Run ActiveOutcome) (answer : CancelResult) (screen : Screen)
      → ((next : Screen) → IsGood next → IsFine next (resume next))
      → IsGood screen
      → IsFine screen (cancel_answered outside resume answer screen)
  cancel_answered-IsFine resume cancellation_requested screen h (sound, s) =
      IsFine-later screen (record screen { app = App.cancellation_requested screen.app }) _
        (omega arith)
        (h (record screen { app = App.cancellation_requested screen.app })
          (cancellation_requested-IsSound screen.app sound, s))
  cancel_answered-IsFine resume (already_terminal terminal) screen h (sound, s) =
      ((finish_turn-IsSound terminal screen.app sound, s), omega arith)
  cancel_answered-IsFine resume not_active screen h (sound, s) =
      let notice = text "Cancellation is not active yet; still waiting" in
      let noticed = record screen { app = set_notice notice screen.app } in
      IsFine-later screen noticed _ (omega arith)
        (h noticed (set_notice-IsSound notice screen.app sound, s))

  quit_answered-IsFine :
      (answer : CancelResult) (screen : Screen)
      → IsGood screen
      → IsFine screen (quit_answered outside answer screen)
  quit_answered-IsFine cancellation_requested screen (sound, s) =
      ((cancellation_requested-IsSound screen.app sound, s), omega arith)
  quit_answered-IsFine (already_terminal terminal) screen (sound, s) =
      ((finish_turn-IsSound terminal screen.app sound, s), omega arith)
  quit_answered-IsFine not_active screen good = (good, omega arith)

  active_action-IsFine :
      (resume : Run ActiveOutcome) (action : ActiveAction) (screen : Screen)
      → ((next : Screen) → IsGood next → IsFine next (resume next))
      → IsGood screen
      → IsFine screen (active_action outside resume action screen)
  active_action-IsFine resume stay screen h good = h screen good
  active_action-IsFine resume cancel_turn screen h good =
      and_then-IsFine screen (cancel_call outside screen) (cancel_answered outside resume)
        (cancel_call-IsFine screen good)
        (λ answer mid good_mid. cancel_answered-IsFine resume answer mid h good_mid)
  active_action-IsFine resume leave screen h good =
      and_then-IsFine screen (cancel_call outside screen) (quit_answered outside)
        (cancel_call-IsFine screen good)
        (λ answer mid good_mid. quit_answered-IsFine answer mid good_mid)

  drive_active_turn-IsFine :
      (submission : Submission) (before : ℕ) (screen : Screen)
      → IsGood screen
      → IsFine screen (drive_active_turn outside submission before screen)
  unfolding drive_active_turn
  drive_active_turn-IsFine submission zero screen good =
      and_then-IsFine screen (draw outside screen) (λ _. ended outside submission.result)
        (draw-IsFine screen good) (λ _ mid good_mid. ended-IsFine submission.result mid good_mid)
  drive_active_turn-IsFine submission (suc before) screen good =
      let resume = drive_active_turn outside submission before in
      and_then-IsFine screen (draw outside screen) _ (draw-IsFine screen good) (λ _ mid good_mid.
        and_then-IsFine mid (next_terminal_event mid)
          (λ event. active_action outside resume (handle_active_event event))
          (next_event-IsFine mid good_mid)
          (λ event next good_next.
            active_action-IsFine resume (handle_active_event event) next
              (λ later. drive_active_turn-IsFine submission before later) good_next))

  -- The rest of the loop, from any screen with no more events than there is fuel for.
  abbrev GoesOn : Run (Option (Unit {0})) → ℕ → Type 0
  GoesOn next fuel =
      (screen : Screen) → length screen.events < fuel → IsGood screen → IsRun screen (next screen)

  IsRun-later :
      (a b : Screen) (r : Result TuiError (Option (Unit {0})) × Screen)
      → length b.events ≤ length a.events
      → IsRun b r
      → IsRun a r
  IsRun-later a b (ok none, c) l h = h
  IsRun-later a b (ok (some done), c) l h = later a b c l h
  IsRun-later a b (err e, c) l h = IsFine-later {A = Unit {0}} a b (err e, c) l h

  and_then-IsRun :
      {A : Type 0} (before : Screen) (r : Result TuiError A × Screen)
      (k : A → Run (Option (Unit {0})))
      → IsFine before r
      → ((a : A) (mid : Screen) → Follows before mid → IsRun mid (k a mid))
      → IsRun before (and_then r k)
  and_then-IsRun before (ok a, mid) k follows next =
      IsRun-later before mid (k a mid) follows.1 (next a mid follows)
  and_then-IsRun before (err panicked, mid) k h next = h
  and_then-IsRun before (err draw_failed, mid) k h next = h
  and_then-IsRun before (err stream_closed, mid) k h next = h
  and_then-IsRun before (err (event_failed e), mid) k h next = h
  and_then-IsRun before (err (agent_failed e), mid) k h next = h

  after_turn-IsRun :
      (next : Run (Option (Unit {0}))) (fuel : ℕ) (outcome : ActiveOutcome) (screen : Screen)
      → GoesOn next fuel
      → length screen.events < fuel
      → IsGood screen
      → IsRun screen (after_turn outside next outcome screen)
  after_turn-IsRun next fuel continue screen go l good = go screen l good
  after_turn-IsRun next fuel quit_after screen go l good = (good, omega arith)

  idle_action-IsRun :
      (next : Run (Option (Unit {0}))) (fuel : ℕ) (action : IdleAction) (screen : Screen)
      → GoesOn next fuel
      → length screen.events < fuel
      → IsGood screen
      → IsValid action
      → IsRun screen (idle_action outside next action screen)
  idle_action-IsRun next fuel go_on screen go l good valid = go screen l good
  idle_action-IsRun next fuel quit screen go l good valid = (good, omega arith)
  idle_action-IsRun next fuel (submit input) screen go l (sound, s) valid =
      let submission = outside.submit_turn (length screen.submitted) input in
      let begun = record screen {
        app = begin_turn input screen.app;
        submitted = input ∷ screen.submitted;
      } in
      IsRun-later screen begun _ (omega arith) (
        and_then-IsRun begun (drive_active_turn outside submission submission.events_before begun)
          (after_turn outside next)
          (drive_active_turn-IsFine submission submission.events_before begun
            (begin_turn-IsSound input screen.app sound, (valid, s)))
          (λ outcome mid follows.
            after_turn-IsRun next fuel outcome mid go (omega (arith, follows.1, l)) follows.0))

  -- The turn of the loop behind its drawing.
  event_turn-IsRun :
      (next : Run (Option (Unit {0}))) (fuel : ℕ) (screen : Screen)
      → GoesOn next fuel
      → length screen.events < suc fuel
      → IsGood screen
      → IsRun screen (
          and_then
            (next_terminal_event screen)
            (λ event read. and_then (idle_event event read) (idle_action outside next)))
  event_turn-IsRun next fuel screen go l (sound, s) =
      elim (events-cases screen screen.events refl) [
        | at_end e ↦ rw e ((sound, s), omega arith)
        | an_error error rest shorter e ↦ rw e ((sound, s), omega (arith, shorter))
        | an_event event rest shorter e ↦
            let (action, app, f, sound_app, valid) =
              handle_idle_event-IsHandled event screen.app sound in
            let handled_screen = record screen { app = app; events = rest } in
            rw e (
              rw f (
                IsRun-later screen handled_screen _ (omega (arith, shorter)) (
                  idle_action-IsRun next fuel action handled_screen go (omega (arith, shorter, l))
                    (sound_app, s) valid)))
      ]

  -- A conversation on the full screen ends: with more fuel than there are events its loop returns. It
  -- does not panic; at its end, however it ends, what is shown is within its bounds, the editor has at
  -- most 4 KiB without characters of control, and every text submitted passes the Agent's check of an
  -- input.
  pub fullscreen_event_loop-IsRun :
      (fuel : ℕ) (screen : Screen)
      → length screen.events < fuel
      → IsGood screen
      → IsRun screen (fullscreen_event_loop outside fuel screen)
  unfolding fullscreen_event_loop
  fullscreen_event_loop-IsRun zero screen l good = absurd (omega arith)
  fullscreen_event_loop-IsRun (suc fuel) screen l good =
      and_then-IsRun screen (draw outside screen) _ (draw-IsFine screen good) (λ _ mid follows.
        event_turn-IsRun (fullscreen_event_loop outside fuel) fuel mid
          (λ next. fullscreen_event_loop-IsRun fuel next) (omega (arith, follows.1, l)) follows.0)

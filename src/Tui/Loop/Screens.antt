-- ===== src/Tui/Loop/Screens.antt =====
-- What stays true of a screen from one act of crates/paraegox/src/tui/mod.rs to the next.
use para_egox.Prelude.{
  ◌≤◌, ◌<◌, ◌≡◌, refl, ap, Option, none, some, List, [], ◌∷◌, arith, length, All, Result, ok, err,
}
use para_egox.Prelude.Stateful.{and_then}
use para_egox.Text.{Text}
use para_egox.Agent.Types.{TurnTerminal, final, cancelled, timed_out, failed, validate_input}
use para_egox.Tui.App.{ChatApp, set_notice, begin_turn, finish_turn, push_message}
use para_egox.Tui.App
use para_egox.Tui.App.Bounds.{
  set_notice-IsBounded, begin_turn-IsBounded, finish_turn-IsBounded,
  cancellation_requested-IsBounded,
}
use para_egox.Tui.Events.{Event}
use para_egox.Tui.Events.Submissions.{IsSound}
use para_egox.Tui.Loop.{
  TuiError, draw_failed, stream_closed, panicked, event_failed, agent_failed, Screen, Run,
  read_event, next_terminal_event,
}

-- What is shown is within its bounds, and every text submitted passes the Agent's check.
abbrev pub IsGood : Screen → Type 0
IsGood screen = IsSound screen.app × All (λ input. validate_input input ≡ ok tt) screen.submitted

abbrev pub Follows : Screen → Screen → Type 0
Follows before after = IsGood after × (length after.events ≤ length before.events)

-- A good screen in every case, and no panic.
abbrev pub IsFine : {A : Type 0} → Screen → Result TuiError A × Screen → Type 0
IsFine before (ok a, after) = Follows before after
IsFine before (err panicked, after) = ⊥
IsFine before (err draw_failed, after) = Follows before after
IsFine before (err stream_closed, after) = Follows before after
IsFine before (err (event_failed e), after) = Follows before after
IsFine before (err (agent_failed e), after) = Follows before after

pub later : (a b c : Screen) → length b.events ≤ length a.events → Follows b c → Follows a c
later a b c l (good, m) = (good, omega arith)

pub IsFine-later :
    {A : Type 0} (a b : Screen) (r : Result TuiError A × Screen)
    → length b.events ≤ length a.events
    → IsFine b r
    → IsFine a r
IsFine-later a b (ok x, c) l h = later a b c l h
IsFine-later a b (err panicked, c) l h = h
IsFine-later a b (err draw_failed, c) l h = later a b c l h
IsFine-later a b (err stream_closed, c) l h = later a b c l h
IsFine-later a b (err (event_failed e), c) l h = later a b c l h
IsFine-later a b (err (agent_failed e), c) l h = later a b c l h

pub and_then-IsFine :
    {A B : Type 0} (before : Screen) (r : Result TuiError A × Screen) (k : A → Run B)
    → IsFine before r
    → ((a : A) (mid : Screen) → IsGood mid → IsFine mid (k a mid))
    → IsFine before (and_then r k)
and_then-IsFine before (ok a, mid) k (good, l) next =
    IsFine-later before mid (k a mid) l (next a mid good)
and_then-IsFine before (err panicked, mid) k h next = h
and_then-IsFine before (err draw_failed, mid) k h next = h
and_then-IsFine before (err stream_closed, mid) k h next = h
and_then-IsFine before (err (event_failed e), mid) k h next = h
and_then-IsFine before (err (agent_failed e), mid) k h next = h

-- The events that a read leaves.
pub data NextEvent (screen : Screen) : Type 0 where
  at_end : next_terminal_event screen ≡ (err stream_closed, screen) → NextEvent screen
  an_event :
      (event : Event) (rest : List (Result Text Event))
      → length rest < length screen.events
      → next_terminal_event screen ≡ (ok event, record screen { events = rest })
      → NextEvent screen
  an_error :
      (e : Text) (rest : List (Result Text Event))
      → length rest < length screen.events
      → next_terminal_event screen ≡ (err (event_failed e), record screen { events = rest })
      → NextEvent screen

pub events-cases :
    (screen : Screen) (events : List (Result Text Event))
    → screen.events ≡ events
    → NextEvent screen
unfolding next_terminal_event
events-cases screen [] e = at_end (ap (λ events. read_event events screen) e)
events-cases screen (ok event ∷ rest) e =
    an_event event rest (rw e (omega arith)) (ap (λ events. read_event events screen) e)
events-cases screen (err error ∷ rest) e =
    an_error error rest (rw e (omega arith)) (ap (λ events. read_event events screen) e)

pub next_event-IsFine :
    (screen : Screen) → IsGood screen → IsFine screen (next_terminal_event screen)
next_event-IsFine screen good = elim (events-cases screen screen.events refl) [
  | at_end e ↦ rw e (good, omega arith)
  | an_event event rest shorter e ↦ rw e (good, omega (arith, shorter))
  | an_error error rest shorter e ↦ rw e (good, omega (arith, shorter))
]

pub set_notice-IsSound :
    (notice : Text) (app : ChatApp) → IsSound app → IsSound (set_notice notice app)
unfolding set_notice
set_notice-IsSound notice app (b, c) = (set_notice-IsBounded notice app b, c)

pub begin_turn-IsSound :
    (input : Text) (app : ChatApp) → IsSound app → IsSound (begin_turn input app)
unfolding begin_turn set_notice push_message
begin_turn-IsSound input app (b, c) = (begin_turn-IsBounded input app b, c)

pub cancellation_requested-IsSound :
    (app : ChatApp) → IsSound app → IsSound (App.cancellation_requested app)
unfolding App.cancellation_requested set_notice push_message
cancellation_requested-IsSound app (b, c) = (cancellation_requested-IsBounded app b, c)

pub finish_turn-IsSound :
    (terminal : TurnTerminal) (app : ChatApp) → IsSound app → IsSound (finish_turn terminal app)
unfolding finish_turn set_notice push_message
finish_turn-IsSound (final content) app (b, c) = (finish_turn-IsBounded (final content) app b, c)
finish_turn-IsSound cancelled app (b, c) = (finish_turn-IsBounded cancelled app b, c)
finish_turn-IsSound timed_out app (b, c) = (finish_turn-IsBounded timed_out app b, c)
finish_turn-IsSound (failed reason) app (b, c) = (finish_turn-IsBounded (failed reason) app b, c)

-- A run of the whole loop does not run out of fuel either.
abbrev pub IsRun : Screen → Result TuiError (Option (Unit {0})) × Screen → Type 0
IsRun before (ok none, after) = ⊥
IsRun before (ok (some done), after) = Follows before after
IsRun before (err e, after) = IsFine {A = Unit {0}} before (err e, after)

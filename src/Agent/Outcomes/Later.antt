-- ===== src/Agent/Outcomes/Later.antt =====
-- A turn that ended, submitted again any time later: crates/paraegox-agent/src/service.rs answers from
-- the session, whatever the other callers did in between.
use para_egox.Prelude.{
  ℕ, ◌≡◌, ◌≢◌, refl, ◌∙◌, ap, inl, inr, true, Option, some, arith, get_elem?, ok, err, Result,
  lookup, is_some, nat_eq, list_eq, Result-cases,
}
use para_egox.Text.{Text}
use para_egox.Agent.Types.{TurnTerminal, WireResponse, different_input, wire_safe_terminal}
use para_egox.Agent.Provider.{CompletionProvider}
use para_egox.Agent.State.{
  CompletedTurn, Abort, rejected, require_admission, find_completed, cancel_active_turn,
}
use para_egox.Agent.Service.{Reply, Admission, answered, turn_result, submit_admission, settle}
use para_egox.Agent.Profile.{finish_stop, drop_service}
use para_egox.Agent.System.{
  ActiveTurnGuard, System, submit, submitted, checks, remove_at, resolve, race_terminal, Race, Step,
  starts, submits, resolves, abandons, cancels, activates, deactivates, begins_stop, finishes_stop,
  drops,
}
use para_egox.Agent.Validity.Turns.{completed}
use para_egox.Agent.Safety.{IsConsistent, Matches-guard, Step-IsConsistent, resolve-IsConsistent}
use para_egox.Agent.Outcomes.Replay.{
  complete_turn-stored, complete_turn-result, submit_admission-replay, replay_same, replay_other,
}
use para_egox.Agent.Outcomes.Retained.{Keeps, same-Keeps, submit_admission-Keeps}
use para_egox.Agent.Outcomes.Endings.{
  complete_turn-Keeps, drop_guard-Keeps, cancel-Keeps, start-sessions, activate_profile-sessions,
  deactivate_profile-sessions, begin_stop-sessions,
}

submitted-Keeps :
    (k t : ℕ) (c : CompletedTurn) (s : System) (g : ActiveTurnGuard) (r : Reply Admission)
    → Keeps k t c r.1
    → Keeps k t c (submitted s g r).1.state
submitted-Keeps k t c s g (ok admission, next) h = h
submitted-Keeps k t c s g (err e, next) h = h

submit-Keeps :
    (k t : ℕ) (c : CompletedTurn) (s : System) (g : ActiveTurnGuard) (d : ℕ)
    → IsConsistent s
    → find_completed s.state k t ≡ some c
    → Keeps k t c (submit s g d).1.state
unfolding submit
submit-Keeps k t c s g d v h = elim (Result-cases (checks s g.input d)) [
  | inr (e, refused) ↦ rw (refused, submit) (inl h)
  | inl (_, passed) ↦
      rw (passed, submit)
        (submitted-Keeps k t c s g _
          (submit_admission-Keeps k t c s.state g.session_id g.turn_id g.input v.valid h))
]

module _ (to_vec : WireResponse → Option ℕ) (provider : CompletionProvider) where
  pub Step-Keeps :
      (k t : ℕ) (c : CompletedTurn) {s w : System}
      → Step to_vec provider s w
      → IsConsistent s
      → find_completed s.state k t ≡ some c
      → Keeps k t c w.state
  unfolding resolve finish_stop drop_service cancel_active_turn
  Step-Keeps k t c (starts s _) v h = same-Keeps k t c s.state _ (start-sessions s.state) (inl h)
  Step-Keeps k t c (submits s g d) v h = submit-Keeps k t c s g d v h
  Step-Keeps k t c (resolves s i g race _ _) v h =
      complete_turn-Keeps k t c s.state g.session_id g.turn_id g.input _ (inl h)
  Step-Keeps k t c (abandons s i g _) v h =
      drop_guard-Keeps k t c s.state g.session_id g.turn_id g.input (inl h)
  Step-Keeps k t c (cancels s j u _) v h = cancel-Keeps k t c s.state j u v.valid h
  Step-Keeps k t c (activates s id definition prompt _) v h =
      same-Keeps k t c s.state _ (activate_profile-sessions provider s.state id definition prompt)
        (inl h)
  Step-Keeps k t c (deactivates s id _) v h =
      same-Keeps k t c s.state _ (deactivate_profile-sessions s.state id) (inl h)
  Step-Keeps k t c (begins_stop s _) v h =
      same-Keeps k t c s.state _ (begin_stop-sessions s.state) (inl h)
  Step-Keeps k t c (finishes_stop s _ _ _) v h = same-Keeps k t c s.state _ refl (inl h)
  Step-Keeps k t c (drops s _) v h = same-Keeps k t c s.state _ refl (inl h)

  -- Critical sections of any callers, the session never being evicted.
  pub data Trail (k : ℕ) (s : System) : System → Type 0 where
    none_yet : Trail k s s
    one_more :
        {u w : System}
        → Trail k s u
        → Step to_vec provider u w
        → is_some (lookup k w.state.sessions) ≡ true
        → Trail k s w

  Trail-find_completed :
      (k t : ℕ) (c : CompletedTurn) {s w : System}
      → Trail k s w
      → IsConsistent s
      → find_completed s.state k t ≡ some c
      → IsConsistent w × (find_completed w.state k t ≡ some c)
  Trail-find_completed k t c none_yet v h = (v, h)
  Trail-find_completed k t c {w = w} (one_more trail step there) v h =
      let (v', h') = Trail-find_completed k t c trail v h in
      (
        Step-IsConsistent to_vec step v',
        elim (Step-Keeps k t c step v' h') [
          | inl stays ↦ stays
          | inr gone ↦ absurd (ground (arith, gone))
        ],
      )

  -- In a consistent state, the end of the race of a guard that is held gives the turn's terminal, and
  -- later, whatever the callers did in between, a service that admits turns answers the turn from its session when it is submitted again: with that
  -- terminal for the same input, with a refusal for any other input, and the state stays as it is. The
  -- condition is that the session has not been evicted in between.
  pub resolve-resubmit :
      (s w : System) (i : ℕ) (g : ActiveTurnGuard) (race : Race) (other : Text)
      → IsConsistent s
      → get_elem? s.in_flight i ≡ some g
      → Trail g.session_id
          (record s {
            state = (resolve to_vec s.state g race).1;
            in_flight = remove_at i s.in_flight;
          })
          w
      → require_admission w.state ≡ ok tt
      → other ≢ g.input
      → (terminal : TurnTerminal) × ((resolve to_vec s.state g race).0 ≡ ok terminal)
        × (submit_admission w.state g.session_id g.turn_id g.input
            ≡ (ok (answered (turn_result g.session_id g.turn_id terminal)), w.state))
        × (submit_admission w.state g.session_id g.turn_id other
            ≡ (err (rejected different_input), w.state))
  unfolding resolve
  resolve-resubmit s w i g race other v held trail admits differ =
      let k = g.session_id in
      let t = g.turn_id in
      let (a, e, own, alone) = Matches-guard s.state.active_turn s.in_flight i g v.matched held in
      let proposed = wire_safe_terminal to_vec k t (race_terminal race) in
      let terminal = settle s.state a proposed in
      let c = completed t g.input terminal in
      let (valid, done) =
        Trail-find_completed k t c trail (resolve-IsConsistent to_vec s i g race v held)
          (complete_turn-stored s.state a k t g.input proposed v.valid e own) in
      let with_state =
        λ (r : Result Abort Admission). let p : Reply Admission = (r, w.state) in p in
      (
        terminal,
        complete_turn-result s.state a k t g.input proposed v.valid e own,
        submit_admission-replay w.state k t g.input c admits done
            ∙ ap with_state (replay_same c k t),
        submit_admission-replay w.state k t other c admits done
            ∙ ap with_state (replay_other c k t other differ),
      )

-- ===== src/Agent/Safety.antt =====
-- The service of crates/paraegox-agent/src/service.rs among its callers: what holds in every state
-- that the interleaved critical sections reach.
pub mod Frames
pub mod Cancels
use para_egox.Prelude.{
  ℕ, zero, suc, ◌≡◌, ◌≢◌, refl, sym, ◌∙◌, ap, subst, inl, inr, ◌⊎◌, Bool, true, false, Option, none,
  some, List, [], ◌∷◌, arith, ◌==◌, Result, ok, err, get_elem?, Result-cases, Option-cases,
}
use para_egox.Text.{Text}
use para_egox.Agent.Types.{AgentError, TurnTerminal, WireResponse, wire_safe_terminal}
use para_egox.Agent.Provider.{CompletionProvider}
use para_egox.Agent.State.{
  ActiveTurn, AgentState, Abort, rejected, panicked, new_state, raise_cancellation,
}
use para_egox.Agent.Service.{
  drop_guard, Reply, Admission, answered, admitted, submit_admission, owns,
}
use para_egox.Agent.System.{
  ActiveTurnGuard, System, new_system, submit, submitted, checks, remove_at, resolve, race_terminal,
  Race, Step, starts, submits, resolves, abandons, cancels, activates, deactivates, begins_stop,
  finishes_stop, drops, Reach, initial, after,
}
use para_egox.Agent.Validity.{IsValid, new_state-IsValid}
use para_egox.Agent.Validity.Operations.{IsSafe, complete_turn-IsSafe}
use para_egox.Agent.Validity.Admission.{submit_admission-IsSafe}
use para_egox.Agent.Validity.Cancel.{cancel-IsSafe, drop_guard-IsSafe}
use para_egox.Agent.Validity.Lifecycle.{
  start-IsSafe, activate_profile-IsSafe, deactivate_profile-IsSafe, begin_stop-IsValid,
  finish_stop-IsValid, drop_service-IsValid,
}
use Frames.{
  Frame, opens, answers, refuses, submit_admission-Frame, complete_turn_lem, drop_guard-turn,
}
use Cancels.{
  SameTurn, cancel-SameTurn, start-SameTurn, activate_profile-SameTurn, deactivate_profile-SameTurn,
  begin_stop-SameTurn, finish_stop-SameTurn, drop_service-SameTurn,
}

-- The guard that is held, if any, is that of the active turn.
abbrev pub Matches : Option ActiveTurn → List ActiveTurnGuard → Type 0
Matches none [] = Unit {0}
Matches none (g ∷ gs) = ⊥
Matches (some a) [] = ⊥
Matches (some a) (g ∷ []) = owns a g.session_id g.turn_id ≡ true
Matches (some a) (g ∷ h ∷ gs) = ⊥

pub record IsConsistent (s : System) : Type 0 where
  pub valid : IsValid s.state
  pub matched : Matches s.state.active_turn s.in_flight

raise-Matches :
    (active : Option ActiveTurn) (gs : List ActiveTurnGuard)
    → Matches active gs
    → Matches (raise_cancellation active) gs
raise-Matches none gs m = m
raise-Matches (some a) [] m = m
raise-Matches (some a) (g ∷ []) m = m
raise-Matches (some a) (g ∷ h ∷ gs) m = m

same-Matches :
    (state next : AgentState) (gs : List ActiveTurnGuard)
    → SameTurn state next
    → Matches state.active_turn gs
    → Matches next.active_turn gs
same-Matches state next gs (inl e) m = subst (λ a. Matches a gs) (sym e) m
same-Matches state next gs (inr e) m =
    subst (λ a. Matches a gs) (sym e) (raise-Matches state.active_turn gs m)

-- A guard in flight is the only one, and it owns the active turn.
pub Matches-guard :
    (active : Option ActiveTurn) (gs : List ActiveTurnGuard) (i : ℕ) (g : ActiveTurnGuard)
    → Matches active gs
    → get_elem? gs i ≡ some g
    → (a : ActiveTurn) × (active ≡ some a)
      × (owns a g.session_id g.turn_id ≡ true)
      × (remove_at i gs ≡ [])
Matches-guard none [] i g m h = cc
Matches-guard none (x ∷ gs) i g m h = absurd m
Matches-guard (some a) [] i g m h = absurd m
Matches-guard (some a) (x ∷ []) zero g m h = (a, refl, ground arith, refl)
Matches-guard (some a) (x ∷ []) (suc i) g m h = cc
Matches-guard (some a) (x ∷ y ∷ gs) i g m h = absurd m

ended-Matches :
    (active : Option ActiveTurn) (gs : List ActiveTurnGuard)
    → active ≡ none
    → gs ≡ []
    → Matches active gs
ended-Matches active gs e f = subst (λ a. Matches a gs) (sym e) (subst (Matches none) (sym f) tt)

opened-Matches :
    (state next : AgentState) (gs : List ActiveTurnGuard) (g : ActiveTurnGuard)
    → state.active_turn ≡ none
    → next.active_turn ≡ some (Frames.opened_turn g.session_id g.turn_id)
    → Matches state.active_turn gs
    → Matches next.active_turn (g ∷ gs)
opened-Matches state next [] g was now m = subst (λ a. Matches a (g ∷ [])) (sym now) (ground arith)
opened-Matches state next (h ∷ gs) g was now m = absurd (subst (λ a. Matches a (h ∷ gs)) was m)

submitted-IsConsistent :
    (s : System) (g : ActiveTurnGuard) (r : Reply Admission)
    → IsConsistent s
    → IsValid r.1
    → Frame s.state g.session_id g.turn_id g.input r
    → IsConsistent (submitted s g r).1
submitted-IsConsistent s g r c v (opens context next profile session was now _ _ _) = record {
  valid = v;
  matched = opened-Matches s.state next s.in_flight g was now c.matched;
}
submitted-IsConsistent s g r c v (answers result next e) = record {
  valid = v;
  matched = same-Matches s.state next s.in_flight (inl e) c.matched;
}
submitted-IsConsistent s g r c v (refuses e next f) = record {
  valid = v;
  matched = same-Matches s.state next s.in_flight (inl f) c.matched;
}

pub submit-IsConsistent :
    (s : System) (g : ActiveTurnGuard) (d : ℕ) → IsConsistent s → IsConsistent (submit s g d).1
unfolding submit
submit-IsConsistent s g d c = elim (Result-cases (checks s g.input d)) [
  | inr (e, refused) ↦ rw (refused, submit) c
  | inl (_, passed) ↦
      rw (passed, submit)
        (submitted-IsConsistent s g _ c
          (submit_admission-IsSafe s.state g.session_id g.turn_id g.input c.valid).0
          (submit_admission-Frame s.state g.session_id g.turn_id g.input c.valid))
]

quiet-IsConsistent :
    (s : System) (owner : Bool) (next : AgentState)
    → IsConsistent s
    → IsValid next
    → SameTurn s.state next
    → IsConsistent (record s { owner = owner; state = next })
quiet-IsConsistent s owner next c v same = record {
  valid = v;
  matched = same-Matches s.state next s.in_flight same c.matched;
}

module _ (to_vec : WireResponse → Option ℕ) where
  -- In a consistent state, the end of the race of a guard that is held is never refused and never
  -- panics: it gives a terminal, no turn is active afterwards and no guard is left.
  pub resolve_lem :
      (s : System) (i : ℕ) (g : ActiveTurnGuard) (race : Race)
      → IsConsistent s
      → get_elem? s.in_flight i ≡ some g
      → ((terminal : TurnTerminal) × ((resolve to_vec s.state g race).0 ≡ ok terminal))
        × ((resolve to_vec s.state g race).1.active_turn ≡ none)
        × (remove_at i s.in_flight ≡ [])
  unfolding resolve
  resolve_lem s i g race c h =
      let (a, e, own, alone) = Matches-guard s.state.active_turn s.in_flight i g c.matched h in
      let (r, held, fits, q) =
        complete_turn_lem s.state a g.session_id g.turn_id g.input
          (wire_safe_terminal to_vec g.session_id g.turn_id (race_terminal race)) c.valid e own in
      (
        (_, ap (λ (x : Reply TurnTerminal). x.0) q),
        ap (λ (x : Reply TurnTerminal). x.1.active_turn) q,
        alone,
      )

  pub resolve-IsConsistent :
      (s : System) (i : ℕ) (g : ActiveTurnGuard) (race : Race)
      → IsConsistent s
      → get_elem? s.in_flight i ≡ some g
      → IsConsistent (record s {
        state = (resolve to_vec s.state g race).1;
        in_flight = remove_at i s.in_flight;
      })
  unfolding resolve
  resolve-IsConsistent s i g race c h =
      let (_, ended, alone) = resolve_lem s i g race c h in
      record {
        valid = (complete_turn-IsSafe s.state g.session_id g.turn_id g.input _ c.valid).0;
        matched = ended-Matches _ _ ended alone;
      }

  abandon-IsConsistent :
      (s : System) (i : ℕ) (g : ActiveTurnGuard)
      → IsConsistent s
      → get_elem? s.in_flight i ≡ some g
      → IsConsistent (record s {
        state = (drop_guard s.state g.session_id g.turn_id g.input).1;
        in_flight = remove_at i s.in_flight;
      })
  abandon-IsConsistent s i g c h =
      let (a, e, own, alone) = Matches-guard s.state.active_turn s.in_flight i g c.matched h in
      record {
        valid = (drop_guard-IsSafe s.state g.session_id g.turn_id g.input c.valid).0;
        matched =
            ended-Matches _ _
              (drop_guard-turn s.state a g.session_id g.turn_id g.input c.valid e own) alone;
      }

  pub Step-IsConsistent :
      {provider : CompletionProvider} {s t : System}
      → Step to_vec provider s t
      → IsConsistent s
      → IsConsistent t
  Step-IsConsistent (starts s _) c =
      quiet-IsConsistent s s.owner _ c (start-IsSafe s.state c.valid).0 (start-SameTurn s.state)
  Step-IsConsistent (submits s g d) c = submit-IsConsistent s g d c
  Step-IsConsistent (resolves s i g race h _) c = resolve-IsConsistent s i g race c h
  Step-IsConsistent (abandons s i g h) c = abandon-IsConsistent s i g c h
  Step-IsConsistent (cancels s k t _) c =
      quiet-IsConsistent s s.owner _ c (cancel-IsSafe s.state k t c.valid).0
        (cancel-SameTurn s.state k t c.valid)
  Step-IsConsistent {provider} (activates s id definition prompt _) c =
      quiet-IsConsistent s s.owner _ c
        (activate_profile-IsSafe provider s.state id definition prompt c.valid).0
        (activate_profile-SameTurn provider s.state id definition prompt)
  Step-IsConsistent (deactivates s id _) c =
      quiet-IsConsistent s s.owner _ c (deactivate_profile-IsSafe s.state id c.valid).0
        (deactivate_profile-SameTurn s.state id)
  Step-IsConsistent (begins_stop s _) c =
      quiet-IsConsistent s s.owner _ c (begin_stop-IsValid s.state c.valid)
        (begin_stop-SameTurn s.state)
  Step-IsConsistent (finishes_stop s _ _ _) c =
      quiet-IsConsistent s s.owner _ c (finish_stop-IsValid s.state c.valid)
        (finish_stop-SameTurn s.state)
  Step-IsConsistent (drops s _) c =
      quiet-IsConsistent s false _ c (drop_service-IsValid s.state c.valid)
        (drop_service-SameTurn s.state)

  -- In every state that any interleaving of the critical sections reaches, the conversation state is
  -- valid, and a guard is held exactly for the active turn, if there is one: never two.
  pub Reach-IsConsistent :
      {provider : CompletionProvider} {s : System} → Reach to_vec provider s → IsConsistent s
  unfolding new_system
  Reach-IsConsistent initial = record {
    valid = new_state-IsValid;
    matched = unfold new_state in tt;
  }
  Reach-IsConsistent (after r step) = Step-IsConsistent step (Reach-IsConsistent r)

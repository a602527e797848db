-- ===== src/Agent/Safety/Cancels.antt =====
-- A cancellation, and every change of the profile or the lifecycle, of
-- crates/paraegox-agent/src/service.rs: the active turn stays, and at most its flag is raised.
use para_egox.Prelude.{
  ℕ, ◌≡◌, refl, ◌∙◌, inl, inr, ◌⊎◌, not, ◌||◌, arith, lookup, is_some, Bool-cases, Option-cases,
  nat_eq, list_eq, Result-cases, elem,
}
use para_egox.Text.{Text}
use para_egox.Agent.Provider.{CompletionProvider}
use para_egox.Agent.State.{
  AgentState, is_running, ensure_turn_slot, find_completed, raise_cancellation, cancel_active_turn,
  ServiceLifecycle, created, running, stopping, stopped,
}
use para_egox.Agent.Service.{add_pending, cancel_ahead, cancel, start, start_from}
use para_egox.Agent.Profile.{
  activate_profile, deactivate_profile, begin_stop, begin_stop_from, finish_stop, drop_service,
}
use para_egox.Agent.Validity.{IsValid}
use para_egox.Agent.Validity.Sessions.{ensure_session_total}

-- The active turn of the second state is that of the first, with its flag raised or not.
abbrev pub SameTurn : AgentState → AgentState → Type 0
SameTurn state next =
    (next.active_turn ≡ state.active_turn)
    ⊎ (next.active_turn ≡ raise_cancellation state.active_turn)

add_pending-turn :
    (state : AgentState) (k t : ℕ) → (add_pending state k t).1.active_turn ≡ state.active_turn
unfolding add_pending
add_pending-turn state k t = elim (Option-cases (lookup k state.sessions)) [
  | inl missing ↦ rw (missing, add_pending) refl
  | inr (s, held) ↦ elim (Bool-cases (elem t s.pending_cancellations)) [
    | inl known ↦ rw (held, add_pending, known) refl
    | inr new ↦ elim (Result-cases (ensure_turn_slot state k)) [
      | inl (_, room) ↦ rw (held, add_pending, new, room) refl
      | inr (e, full) ↦ rw (held, add_pending, new, full) refl
    ]
  ]
]

cancel_ahead-turn :
    (state : AgentState) (k t : ℕ)
    → IsValid state
    → (cancel_ahead state k t).1.active_turn ≡ state.active_turn
unfolding cancel_ahead
cancel_ahead-turn state k t v =
    elim (Bool-cases (not (is_running state.lifecycle) || not (is_some state.active_profile))) [
      | inl off ↦ rw (off, cancel_ahead) refl
      | inr on ↦
          let (after, e, en) = ensure_session_total state k v in
          rw (on, cancel_ahead, e) (add_pending-turn after k t ∙ en.same_turn)
    ]

pub cancel-SameTurn :
    (state : AgentState) (k t : ℕ) → IsValid state → SameTurn state (cancel state k t).1
unfolding cancel cancel_active_turn
cancel-SameTurn state k t v = elim (Option-cases (find_completed state k t)) [
  | inr (c, done) ↦ rw (done, cancel) (inl refl)
  | inl unfinished ↦ ground (arith, cancel_ahead-turn state k t v)
]

pub start-SameTurn : (state : AgentState) → SameTurn state (start state).1
unfolding start
start-SameTurn state = from state.lifecycle
  where
    from : (l : ServiceLifecycle) → SameTurn state (start_from l state).1
    from created = inl refl
    from _ = inl refl

pub activate_profile-SameTurn :
    (provider : CompletionProvider) (state : AgentState) (id : ℕ) (definition prompt : Text)
    → SameTurn state (activate_profile provider state id definition prompt).1
unfolding activate_profile
activate_profile-SameTurn provider state id definition prompt = inl (ground arith)

pub deactivate_profile-SameTurn :
    (state : AgentState) (id : ℕ) → SameTurn state (deactivate_profile state id).1
unfolding deactivate_profile cancel_active_turn
deactivate_profile-SameTurn state id = ground arith

pub begin_stop-SameTurn : (state : AgentState) → SameTurn state (begin_stop state).1
unfolding begin_stop cancel_active_turn
begin_stop-SameTurn state = from state.lifecycle
  where
    from : (l : ServiceLifecycle) → SameTurn state (begin_stop_from l state).1
    from created = inl refl
    from running = inr refl
    from stopping = inr refl
    from stopped = inl refl

pub finish_stop-SameTurn : (state : AgentState) → SameTurn state (finish_stop state)
unfolding finish_stop
finish_stop-SameTurn state = inl refl

pub drop_service-SameTurn : (state : AgentState) → SameTurn state (drop_service state)
unfolding drop_service cancel_active_turn
drop_service-SameTurn state = inr refl

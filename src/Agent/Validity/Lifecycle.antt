-- ===== src/Agent/Validity/Lifecycle.antt =====
-- The start and the stop of the service and the changes of the profile, of
-- crates/paraegox-agent/src/service.rs, keep the invariant of the conversation state.
use para_egox.Prelude.{
  ℕ, inl, inr, not, arith, ◌==◌, ◌=?◌, is_some, Bool-cases, Option-cases, nat_eq, list_eq,
}
use para_egox.Text.{Text}
use para_egox.Agent.Provider.{CompletionProvider, card_definition}
use para_egox.Agent.State.{
  AgentState, is_running, cancel_active_turn, ServiceLifecycle, created, running, stopping, stopped,
}
use para_egox.Agent.Service.{start, start_from}
use para_egox.Agent.Profile.{
  activate_profile, deactivate_profile, begin_stop, begin_stop_from, finish_stop, drop_service,
}
use para_egox.Agent.Validity.{IsValid}
use para_egox.Agent.Validity.Operations.{IsSafe}
use para_egox.Agent.Validity.Cancel.{raise-IsValid}

-- The invariant reads the sessions and the active turn alone.
pub start-IsSafe : (state : AgentState) → IsValid state → IsSafe (start state)
unfolding start
start-IsSafe state v = start_from-IsSafe state.lifecycle
  where
    start_from-IsSafe : (l : ServiceLifecycle) → IsSafe (start_from l state)
    start_from-IsSafe created = (v, λ f. cc)
    start_from-IsSafe _ = (v, λ f. ground arith)

pub activate_profile-IsSafe :
    (provider : CompletionProvider) (state : AgentState) (id : ℕ) (definition prompt : Text)
    → IsValid state
    → IsSafe (activate_profile provider state id definition prompt)
unfolding activate_profile
activate_profile-IsSafe provider state id definition prompt v =
    elim (Bool-cases (not (card_definition provider =? definition))) [
      | inl e ↦ rw e (v, λ f. ground arith)
      | inr e ↦ elim (Bool-cases (not (is_running state.lifecycle))) [
        | inl f ↦ rw (e, f) (v, λ g. ground arith)
        | inr f ↦ elim (Bool-cases (is_some state.active_profile)) [
          | inl g ↦ rw (e, f, g) (v, λ h. ground arith)
          | inr g ↦ rw (e, f, g) (v, λ h. cc)
        ]
      ]
    ]

pub deactivate_profile-IsSafe :
    (state : AgentState) (id : ℕ) → IsValid state → IsSafe (deactivate_profile state id)
unfolding deactivate_profile cancel_active_turn
deactivate_profile-IsSafe state id v = elim (Option-cases state.active_profile) [
  | inl e ↦ rw (e, deactivate_profile) (v, λ f. cc)
  | inr (p, e) ↦ elim (Bool-cases (p.card_instance_id == id)) [
    | inl own ↦
        rw (e, deactivate_profile, own)
          (raise-IsValid state.sessions state.session_order state.active_turn v, λ f. cc)
    | inr other ↦ rw (e, deactivate_profile, other) (v, λ f. ground arith)
  ]
]

pub begin_stop-IsValid : (state : AgentState) → IsValid state → IsValid (begin_stop state).1
unfolding begin_stop cancel_active_turn
begin_stop-IsValid state v = from state.lifecycle
  where
    from : (l : ServiceLifecycle) → IsValid (begin_stop_from l state).1
    from created = v
    from running = raise-IsValid state.sessions state.session_order state.active_turn v
    from stopping = raise-IsValid state.sessions state.session_order state.active_turn v
    from stopped = v

pub finish_stop-IsValid : (state : AgentState) → IsValid state → IsValid (finish_stop state)
unfolding finish_stop
finish_stop-IsValid state v = v

pub drop_service-IsValid : (state : AgentState) → IsValid state → IsValid (drop_service state)
unfolding drop_service cancel_active_turn
drop_service-IsValid state v = raise-IsValid state.sessions state.session_order state.active_turn v

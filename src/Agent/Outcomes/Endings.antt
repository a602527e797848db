-- ===== src/Agent/Outcomes/Endings.antt =====
-- Completed turns stay in their session, in crates/paraegox-agent/src/service.rs, while other turns end
-- or are cancelled, and while the profile or the lifecycle changes.
use para_egox.Prelude.{
  ℕ, ◌≡◌, refl, sym, inl, inr, not, ◌||◌, none, some, [], arith, elem, lookup, is_some, Bool-cases,
  Option-cases, Result-cases, nat_eq, list_eq,
}
use mathlib.Core.List.{append-nil}
use para_egox.Text.{Text}
use para_egox.Agent.Types.{TurnTerminal, cancelled}
use para_egox.Agent.Provider.{CompletionProvider}
use para_egox.Agent.State.{
  CompletedTurn, AgentState, ServiceLifecycle, created, running, stopping, stopped,
  ensure_turn_slot, find_completed, is_running, cancel_active_turn,
}
use para_egox.Agent.Service.{
  owns, settle, finish_turn, complete_turn, drop_guard, add_pending, cancel_ahead, cancel, start,
  start_from,
}
use para_egox.Agent.Profile.{activate_profile, deactivate_profile, begin_stop, begin_stop_from}
use para_egox.Agent.Validity.{IsValid}
use para_egox.Agent.Validity.Evictions.{ensure_session_lem}
use para_egox.Agent.Outcomes.Retained.{
  Keeps, same-Keeps, store_terminal-Keeps, cleared-Keeps, written-Keeps, ensured-Keeps,
}

module _ (k t : ℕ) (c : CompletedTurn) where
  finish_turn-Keeps :
      (state : AgentState) (j u : ℕ) (input : Text) (terminal : TurnTerminal)
      → Keeps k t c state
      → Keeps k t c (finish_turn state j u input terminal).1
  unfolding finish_turn
  finish_turn-Keeps state j u input terminal h =
      let ended = record state { active_turn = none } in
      elim (Option-cases (lookup j state.sessions)) [
        | inl missing ↦ rw (missing, finish_turn) (same-Keeps k t c state _ refl h)
        | inr (s, held) ↦
            rw (held, finish_turn)
              (store_terminal-Keeps k t c ended j s s u input terminal held refl
                (same-Keeps k t c state ended refl h))
      ]

  pub complete_turn-Keeps :
      (state : AgentState) (j u : ℕ) (input : Text) (proposed : TurnTerminal)
      → Keeps k t c state
      → Keeps k t c (complete_turn state j u input proposed).1
  unfolding complete_turn
  complete_turn-Keeps state j u input proposed h = elim (Option-cases state.active_turn) [
    | inl e ↦ rw (e, complete_turn) h
    | inr (a, e) ↦ elim (Bool-cases (owns a j u)) [
      | inl own ↦
          rw (e, complete_turn, own) (finish_turn-Keeps state j u input (settle state a proposed) h)
      | inr other ↦ rw (e, complete_turn, other) h
    ]
  ]

  pub drop_guard-Keeps :
      (state : AgentState) (j u : ℕ) (input : Text)
      → Keeps k t c state
      → Keeps k t c (drop_guard state j u input).1
  unfolding drop_guard
  drop_guard-Keeps state j u input h =
      let ended = record state { active_turn = none } in
      elim (Option-cases state.active_turn) [
        | inl e ↦ rw (e, drop_guard) h
        | inr (a, e) ↦ elim (Bool-cases (owns a j u)) [
          | inr other ↦ rw (e, drop_guard, other) h
          | inl own ↦ elim (Option-cases (lookup j state.sessions)) [
            | inl missing ↦ rw (e, drop_guard, own, missing) (same-Keeps k t c state _ refl h)
            | inr (s, held) ↦
                rw (e, drop_guard, own, held)
                  (cleared-Keeps k t c _ (
                    store_terminal-Keeps k t c ended j s s u input cancelled held refl
                      (same-Keeps k t c state ended refl h)))
          ]
        ]
      ]

  add_pending-Keeps :
      (state : AgentState) (j u : ℕ) → Keeps k t c state → Keeps k t c (add_pending state j u).1
  unfolding add_pending
  add_pending-Keeps state j u h = elim (Option-cases (lookup j state.sessions)) [
    | inl missing ↦ rw (missing, add_pending) h
    | inr (s, held) ↦ elim (Bool-cases (elem u s.pending_cancellations)) [
      | inl there ↦ rw (held, add_pending, there) h
      | inr new ↦ elim (Result-cases (ensure_turn_slot state j)) [
        | inr (e, full) ↦ rw (held, add_pending, new, full) h
        | inl (_, room) ↦
            rw (held, add_pending, new, room)
              (written-Keeps k t c state _ j s _ [] held (sym (append-nil s.turns)) refl h)
      ]
    ]
  ]

  cancel_ahead-Keeps :
      (state : AgentState) (j u : ℕ)
      → IsValid state
      → find_completed state k t ≡ some c
      → Keeps k t c (cancel_ahead state j u).1
  unfolding cancel_ahead
  cancel_ahead-Keeps state j u v h =
      elim (Bool-cases (not (is_running state.lifecycle) || not (is_some state.active_profile))) [
        | inl off ↦ rw (off, cancel_ahead) (inl h)
        | inr on ↦
            let (after, e, en, how) = ensure_session_lem state j v in
            rw (on, cancel_ahead, e)
              (add_pending-Keeps after j u (ensured-Keeps k t c state after j how h))
      ]

  pub cancel-Keeps :
      (state : AgentState) (j u : ℕ)
      → IsValid state
      → find_completed state k t ≡ some c
      → Keeps k t c (cancel state j u).1
  unfolding cancel cancel_active_turn
  cancel-Keeps state j u v h = elim (Option-cases (find_completed state j u)) [
    | inr (d, done) ↦ rw (done, cancel) (inl h)
    | inl unfinished ↦ elim (Option-cases state.active_turn) [
      | inl idle ↦ rw (unfinished, cancel, idle) (cancel_ahead-Keeps state j u v h)
      | inr (a, e) ↦ elim (Bool-cases (owns a j u)) [
        | inl own ↦ rw (unfinished, cancel, e, own) (same-Keeps k t c state _ refl (inl h))
        | inr other ↦ rw (unfinished, cancel, e, other) (cancel_ahead-Keeps state j u v h)
      ]
    ]
  ]

pub start-sessions : (state : AgentState) → (start state).1.sessions ≡ state.sessions
unfolding start
start-sessions state = from state.lifecycle
  where
    from : (l : ServiceLifecycle) → (start_from l state).1.sessions ≡ state.sessions
    from created = refl
    from _ = refl

pub activate_profile-sessions :
    (provider : CompletionProvider) (state : AgentState) (id : ℕ) (definition prompt : Text)
    → (activate_profile provider state id definition prompt).1.sessions ≡ state.sessions
unfolding activate_profile
activate_profile-sessions provider state id definition prompt = ground arith

pub deactivate_profile-sessions :
    (state : AgentState) (id : ℕ) → (deactivate_profile state id).1.sessions ≡ state.sessions
unfolding deactivate_profile cancel_active_turn
deactivate_profile-sessions state id = ground arith

pub begin_stop-sessions : (state : AgentState) → (begin_stop state).1.sessions ≡ state.sessions
unfolding begin_stop cancel_active_turn
begin_stop-sessions state = from state.lifecycle
  where
    from : (l : ServiceLifecycle) → (begin_stop_from l state).1.sessions ≡ state.sessions
    from created = refl
    from running = refl
    from stopping = refl
    from stopped = refl

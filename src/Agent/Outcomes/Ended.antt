-- ===== src/Agent/Outcomes/Ended.antt =====
-- A cancellation that waits for its turn, in crates/paraegox-agent/src/service.rs, while other turns end
-- or are cancelled.
use para_egox.Prelude.{
  ℕ, ◌≡◌, refl, subst, inl, inr, true, not, ◌||◌, none, some, [], ◌∷◌, ◌++◌, arith, elem,
  elem-append, lookup, insert, is_some, Bool-cases, Option-cases, Result-cases, nat_eq, list_eq,
}
use para_egox.Text.{Text}
use para_egox.Agent.Types.{TurnTerminal, cancelled}
use para_egox.Agent.State.{
  SessionState, ActiveTurn, AgentState, ensure_turn_slot, find_completed, is_running,
  cancel_active_turn,
}
use para_egox.Agent.Service.{
  owns, settle, finish_turn, complete_turn, drop_guard, add_pending, cancel_ahead, cancel,
}
use para_egox.Agent.Validity.{IsValid}
use para_egox.Agent.Validity.Operations.{active_session}
use para_egox.Agent.Validity.Evictions.{ensure_session_lem}
use para_egox.Agent.Outcomes.Waiting.{
  Waits, StillWaits, IsOther, written-StillWaits, store_terminal-StillWaits, ensured-StillWaits,
  cleared-StillWaits, once_waiting,
}

module _ (k t : ℕ) where
  -- A turn that ends is another one, since it was active.
  active-IsOther :
      (state : AgentState) (a : ActiveTurn) (j u : ℕ) (s : SessionState)
      → IsValid state
      → state.active_turn ≡ some a
      → owns a j u ≡ true
      → lookup k state.sessions ≡ some s
      → Waits k t s
      → IsOther k t j u
  active-IsOther state a j u s v e own held w same =
      let (active, there, fits) = active_session state a j u v e own in
      let here : lookup k state.sessions ≡ some active =
        subst (λ i. lookup i state.sessions ≡ some active) (ground arith) there in
      let it : s ≡ active = ground arith in once_waiting t u active fits (subst (Waits k t) it w).0

  finish_turn-StillWaits :
      (state : AgentState) (j u : ℕ) (input : Text) (terminal : TurnTerminal)
      → IsOther k t j u
      → StillWaits k t state
      → StillWaits k t (finish_turn state j u input terminal).1
  unfolding finish_turn
  finish_turn-StillWaits state j u input terminal other h =
      elim (Option-cases (lookup j state.sessions)) [
        | inl missing ↦ rw (missing, finish_turn) h
        | inr (s, there) ↦
            rw (there, finish_turn)
              (store_terminal-StillWaits k t (record state { active_turn = none }) j s s u input
                terminal there (λ _ w. w) other h)
      ]

  pub complete_turn-StillWaits :
      (state : AgentState) (j u : ℕ) (input : Text) (proposed : TurnTerminal) (s : SessionState)
      → IsValid state
      → lookup k state.sessions ≡ some s
      → Waits k t s
      → StillWaits k t (complete_turn state j u input proposed).1
  unfolding complete_turn
  complete_turn-StillWaits state j u input proposed s v held w =
      elim (Option-cases state.active_turn) [
        | inl e ↦ rw (e, complete_turn) (inl (s, held, w))
        | inr (a, e) ↦ elim (Bool-cases (owns a j u)) [
          | inr other ↦ rw (e, complete_turn, other) (inl (s, held, w))
          | inl own ↦
              rw (e, complete_turn, own)
                (finish_turn-StillWaits state j u input (settle state a proposed)
                  (active-IsOther state a j u s v e own held w) (inl (s, held, w)))
        ]
      ]

  pub drop_guard-StillWaits :
      (state : AgentState) (j u : ℕ) (input : Text) (s : SessionState)
      → IsValid state
      → lookup k state.sessions ≡ some s
      → Waits k t s
      → StillWaits k t (drop_guard state j u input).1
  unfolding drop_guard
  drop_guard-StillWaits state j u input s v held w = elim (Option-cases state.active_turn) [
    | inl e ↦ rw (e, drop_guard) (inl (s, held, w))
    | inr (a, e) ↦ elim (Bool-cases (owns a j u)) [
      | inr other ↦ rw (e, drop_guard, other) (inl (s, held, w))
      | inl own ↦ elim (Option-cases (lookup j state.sessions)) [
        | inl missing ↦ rw (e, drop_guard, own, missing) (inl (s, held, w))
        | inr (old, there) ↦
            rw (e, drop_guard, own, there)
              (cleared-StillWaits k t _ (
                store_terminal-StillWaits k t (record state { active_turn = none }) j old old u
                  input cancelled there (λ _ x. x) (active-IsOther state a j u s v e own held w)
                  (inl (s, held, w))))
      ]
    ]
  ]

  add_pending-StillWaits :
      (state : AgentState) (j u : ℕ)
      → StillWaits k t state
      → StillWaits k t (add_pending state j u).1
  unfolding add_pending
  add_pending-StillWaits state j u h = elim (Option-cases (lookup j state.sessions)) [
    | inl missing ↦ rw (missing, add_pending) h
    | inr (s, held) ↦ elim (Bool-cases (elem u s.pending_cancellations)) [
      | inl there ↦ rw (held, add_pending, there) h
      | inr new ↦ elim (Result-cases (ensure_turn_slot state j)) [
        | inr (e, full) ↦ rw (held, add_pending, new, full) h
        | inl (_, room) ↦
            let longer = record s { pending_cancellations = s.pending_cancellations ++ u ∷ [] } in
            rw (held, add_pending, new, room)
              (written-StillWaits k t state
                (record state { sessions = insert j longer state.sessions }) j s longer held refl
                (λ _ w. (ground (arith, elem-append t s.pending_cancellations (u ∷ []), w.0), w.1))
                h)
      ]
    ]
  ]

  cancel_ahead-StillWaits :
      (state : AgentState) (j u : ℕ) (s : SessionState)
      → IsValid state
      → lookup k state.sessions ≡ some s
      → Waits k t s
      → StillWaits k t (cancel_ahead state j u).1
  unfolding cancel_ahead
  cancel_ahead-StillWaits state j u s v held w =
      elim (Bool-cases (not (is_running state.lifecycle) || not (is_some state.active_profile))) [
        | inl off ↦ rw (off, cancel_ahead) (inl (s, held, w))
        | inr on ↦
            let (after, e, en, how) = ensure_session_lem state j v in
            rw (on, cancel_ahead, e)
              (add_pending-StillWaits after j u (ensured-StillWaits k t state after j s how held w))
      ]

  pub cancel-StillWaits :
      (state : AgentState) (j u : ℕ) (s : SessionState)
      → IsValid state
      → lookup k state.sessions ≡ some s
      → Waits k t s
      → StillWaits k t (cancel state j u).1
  unfolding cancel cancel_active_turn
  cancel-StillWaits state j u s v held w = elim (Option-cases (find_completed state j u)) [
    | inr (d, done) ↦ rw (done, cancel) (inl (s, held, w))
    | inl unfinished ↦ elim (Option-cases state.active_turn) [
      | inl idle ↦ rw (unfinished, cancel, idle) (cancel_ahead-StillWaits state j u s v held w)
      | inr (a, e) ↦ elim (Bool-cases (owns a j u)) [
        | inl own ↦ rw (unfinished, cancel, e, own) (inl (s, held, w))
        | inr other ↦
            rw (unfinished, cancel, e, other) (cancel_ahead-StillWaits state j u s v held w)
      ]
    ]
  ]

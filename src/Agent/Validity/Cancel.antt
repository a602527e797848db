-- ===== src/Agent/Validity/Cancel.antt =====
-- `AgentHandle::cancel`, the drop of a guard and the changes of the profile and the lifecycle, of
-- crates/paraegox-agent/src/service.rs, keep the invariant.
use para_egox.Prelude.{
  ℕ, ◌≡◌, refl, sym, ◌∙◌, ap, inl, inr, false, ◌||◌, not, Option, none, some, List, [], ◌∷◌, arith,
  lookup, is_some, elem, count, Bool-cases, Option-cases, nat_eq, list_eq, subst, count-eq-zero,
}
use para_egox.Text.{Text}
use para_egox.Agent.Types.{cancelled}
use para_egox.Agent.State.{
  SessionState, ActiveTurn, AgentState, is_running, find_completed, raise_cancellation,
  cancel_active_turn,
}
use para_egox.Agent.Service.{owns, drop_guard, add_pending, cancel_ahead, cancel}
use para_egox.Agent.Validity.{turn_ids, active_ids, SessionIsValid, IsValidOf, IsValid}
use para_egox.Agent.Validity.Sessions.{Ensured, ensure_session_total}
use para_egox.Agent.Validity.Turns.{
  stored, stored-IsValid, slot-IsValid, pending-IsValid, find_turn-none, ensure_turn_slot_cases,
}
use para_egox.Agent.Validity.Operations.{
  IsSafe, with_session-IsValid, store_terminal_lem, without_turn-IsValid, active_session,
}
use para_egox.Agent.Validity.Admission.{find_completed_lem}

-- A guard that is dropped keeps a valid state valid and never panics.
pub drop_guard-IsSafe :
    (state : AgentState) (k t : ℕ) (input : Text)
    → IsValid state
    → IsSafe (drop_guard state k t input)
unfolding drop_guard
drop_guard-IsSafe state k t input v = elim (Option-cases state.active_turn) [
  | inl e ↦ rw (e, drop_guard) (v, λ f. cc)
  | inr (a, e) ↦ elim (Bool-cases (owns a k t)) [
    | inr other ↦ rw (e, drop_guard, other) (v, λ f. cc)
    | inl own ↦
        let (s, held, fits) = active_session state a k t v e own in
        rw (e, drop_guard, own, held)
          (rw
            (store_terminal_lem (record state { active_turn = none }) k s [] t input cancelled fits)
            (
              without_turn-IsValid state a k s (stored s t input cancelled) v e (ground arith) held
                  (stored-IsValid [] s t input cancelled fits),
              λ f. cc,
            ))
  ]
]

active_ids-raise :
    (active : Option ActiveTurn) (k : ℕ)
    → active_ids (raise_cancellation active) k ≡ active_ids active k
active_ids-raise none k = refl
active_ids-raise (some a) k = refl

raise-some :
    (active : Option ActiveTurn) (b : ActiveTurn)
    → raise_cancellation active ≡ some b
    → (a : ActiveTurn) × (active ≡ some a) × (b.session_id ≡ a.session_id)
raise-some none b h = cc
raise-some (some a) b h = (a, refl, ground arith)

-- A raised cancellation, or another profile or lifecycle, changes nothing that the invariant reads.
pub raise-IsValid :
    (sessions : List (ℕ × SessionState)) (order : List ℕ) (active : Option ActiveTurn)
    → IsValidOf sessions order active
    → IsValidOf sessions order (raise_cancellation active)
raise-IsValid sessions order active v = record {
  ordered = v.ordered;
  distinct = v.distinct;
  bounded = v.bounded;
  each = λ k s h. rw (active_ids-raise active k) (v.each k s h);
  owned = λ b h.
      let (a, e, same) = raise-some active b h in
      rw (ap (λ i. is_some (lookup i sessions)) same) (v.owned a e);
}

pub cancel_active_turn-IsValid :
    (state : AgentState) → IsValid state → IsValid (cancel_active_turn state)
unfolding cancel_active_turn
cancel_active_turn-IsValid state v =
    raise-IsValid state.sessions state.session_order state.active_turn v

-- A cancellation is kept for a turn that is neither completed nor active.
add_pending-IsSafe :
    (state : AgentState) (k t : ℕ) (s : SessionState)
    → IsValid state
    → lookup k state.sessions ≡ some s
    → count t (turn_ids s.turns) ≡ 0
    → count t (active_ids state.active_turn k) ≡ 0
    → IsSafe (add_pending state k t)
unfolding add_pending
add_pending-IsSafe state k t s v held unfinished inactive =
    elim (Bool-cases (elem t s.pending_cancellations)) [
      | inl known ↦ rw (held, add_pending, known) (v, λ f. cc)
      | inr new ↦ elim (ensure_turn_slot_cases state k s held (v.each k s held)) [
        | inr (full, _) ↦ rw (held, add_pending, new, full) (v, λ f. cc)
        | inl (room, space) ↦
            let ids = active_ids state.active_turn k in
            let fits : SessionIsValid (t ∷ ids) s =
              slot-IsValid ids s t (v.each k s held)
                (omega (arith, count-eq-zero t s.pending_cancellations new)) space in
            rw (held, add_pending, new, room)
              (with_session-IsValid state k s _ v held (pending-IsValid ids s t fits), λ f. cc)
      ]
    ]

inactive_lem :
    (active : Option ActiveTurn) (k t : ℕ)
    → ((a : ActiveTurn) → active ≡ some a → owns a k t ≡ false)
    → count t (active_ids active k) ≡ 0
unfolding count
inactive_lem none k t h = refl
inactive_lem (some a) k t h = ground (arith, h a refl)

unfinished_lem :
    (state after : AgentState) (k t : ℕ) (s : SessionState)
    → Ensured state k after
    → find_completed state k t ≡ none
    → lookup k after.sessions ≡ some s
    → count t (turn_ids s.turns) ≡ 0
unfolding count
unfinished_lem state after k t s en h held = elim (Option-cases (lookup k state.sessions)) [
  | inl missing ↦ ground (arith, en.fresh missing)
  | inr (old, found) ↦
      let same : after ≡ state = en.unchanged (rw found refl) in
      let e : lookup k state.sessions ≡ some s =
        subst (λ (r : AgentState). lookup k r.sessions ≡ some s) same held in
      find_turn-none t s.turns (sym (find_completed_lem state k t s e) ∙ h)
]

cancel_ahead-IsSafe :
    (state : AgentState) (k t : ℕ)
    → IsValid state
    → find_completed state k t ≡ none
    → ((a : ActiveTurn) → state.active_turn ≡ some a → owns a k t ≡ false)
    → IsSafe (cancel_ahead state k t)
unfolding cancel_ahead
cancel_ahead-IsSafe state k t v unfinished inactive =
    elim (Bool-cases (not (is_running state.lifecycle) || not (is_some state.active_profile))) [
      | inl off ↦ rw (off, cancel_ahead) (v, λ f. cc)
      | inr on ↦
          let (after, e, en) = ensure_session_total state k v in
          rw (on, cancel_ahead, e)
            (elim (Option-cases (lookup k after.sessions)) [
              | inl missing ↦ absurd (ground (arith, en.present))
              | inr (s, held) ↦
                  add_pending-IsSafe after k t s en.valid held
                    (unfinished_lem state after k t s en unfinished held)
                    (rw en.same_turn (inactive_lem state.active_turn k t inactive))
            ])
    ]

-- A cancellation, of a turn completed, active or yet to come, keeps a valid state valid and never
-- panics.
pub cancel-IsSafe : (state : AgentState) (k t : ℕ) → IsValid state → IsSafe (cancel state k t)
unfolding cancel
cancel-IsSafe state k t v = elim (Option-cases (find_completed state k t)) [
  | inr (c, done) ↦ rw (done, cancel) (v, λ f. cc)
  | inl unfinished ↦ elim (Option-cases state.active_turn) [
    | inl idle ↦
        rw (unfinished, cancel, idle) (cancel_ahead-IsSafe state k t v unfinished (λ a e. cc))
    | inr (a, e) ↦ elim (Bool-cases (owns a k t)) [
      | inl own ↦ rw (unfinished, cancel, e, own) (cancel_active_turn-IsValid state v, λ f. cc)
      | inr other ↦
          rw (unfinished, cancel, e, other)
            (cancel_ahead-IsSafe state k t v unfinished (λ b f.
              let same : a ≡ b = ground arith in subst (λ c. owns c k t ≡ false) same other))
    ]
  ]
]

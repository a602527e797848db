-- ===== src/Agent/Outcomes/Ahead.antt =====
-- A cancellation that comes before its turn, in crates/paraegox-agent/src/service.rs.
use para_egox.Prelude.{
  ℕ, ◌≡◌, refl, sym, ◌∙◌, ap, inl, inr, true, false, none, some, [], ◌∷◌, ◌++◌, arith, ◌==◌,
  ==_refl, ok, lookup, lookup-insert, elem, elem-append, find, take_first, take_first-none,
  Bool-cases, Option-cases, Result-cases, nat_eq, subst,
}
use para_egox.Text.{Text}
use para_egox.Agent.Types.{cancelled, CancelResult, cancellation_requested}
use para_egox.Agent.State.{
  SessionState, ActiveTurn, AgentState, require_admission, ensure_turn_slot, find_completed,
  find_turn, default_session,
}
use para_egox.Agent.Service.{
  Reply, answered, turn_result, take_pending, submit_admission, owns, add_pending, cancel_ahead,
  cancel,
}
use para_egox.Agent.Validity.{IsValid, active_ids}
use para_egox.Agent.Validity.Sessions.{Ensured, ensure_session_total}
use para_egox.Agent.Validity.Operations.{store_terminal_lem}
use para_egox.Agent.Validity.Admission.{take_pending-some, find_completed_lem}

-- The session of the key waits for the turn with a cancellation, and has no terminal for it.
abbrev pub Awaits : AgentState → ℕ → ℕ → Type 0
Awaits state k t =
    (s : SessionState) × (lookup k state.sessions ≡ some s)
    × (elem t s.pending_cancellations ≡ true)
    × (find_turn t s.turns ≡ none)

add_pending-Awaits :
    (state : AgentState) (k t : ℕ) (s : SessionState)
    → lookup k state.sessions ≡ some s
    → find_turn t s.turns ≡ none
    → (add_pending state k t).0 ≡ ok cancellation_requested
    → Awaits (add_pending state k t).1 k t
unfolding add_pending elem
add_pending-Awaits state k t s held unfinished h =
    elim (Bool-cases (elem t s.pending_cancellations)) [
      | inl known ↦ rw (held, add_pending, known) (s, held, known, unfinished)
      | inr new ↦ elim (Result-cases (ensure_turn_slot state k)) [
        | inr (e, full) ↦ absurd (ground arith)
        | inl (_, room) ↦
            rw (held, add_pending, new, room)
              (
                record s { pending_cancellations = s.pending_cancellations ++ t ∷ [] },
                lookup-insert k k _ state.sessions ∙ rw (==_refl k) refl,
                elem-append t s.pending_cancellations (t ∷ []) ∙ ground (arith, ==_refl t),
                unfinished,
              )
      ]
    ]

Ensured-unfinished :
    (state after : AgentState) (k t : ℕ)
    → Ensured state k after
    → find_completed state k t ≡ none
    → (s : SessionState) × (lookup k after.sessions ≡ some s) × (find_turn t s.turns ≡ none)
Ensured-unfinished state after k t en unfinished = elim (Option-cases (lookup k state.sessions)) [
  | inl missing ↦ (default_session, en.fresh missing, unfold find_turn find in refl)
  | inr (s, held) ↦ (
    s,
    ap (λ (r : AgentState). lookup k r.sessions) (en.unchanged (rw held refl)) ∙ held,
    sym (find_completed_lem state k t s held) ∙ unfinished,
  )
]

pub take_pending-Awaits :
    (state : AgentState) (k t : ℕ)
    → Awaits state k t
    → (find_completed state k t ≡ none) × ((s : SessionState) × (take_pending state k t ≡ some s))
unfolding take_pending
take_pending-Awaits state k t (s, held, there, unfinished) = (
  find_completed_lem state k t s held ∙ unfinished,
  elim (Option-cases (take_first (λ id. id == t) s.pending_cancellations)) [
    | inl missing ↦ absurd (
        ground (
          arith,
          take_first-none (λ id. id == t) s.pending_cancellations t missing there,
          ==_refl t,
        ))
    | inr ((x, rest), e) ↦
        (record s { pending_cancellations = rest }, rw (held, take_pending, e) refl)
  ],
)

pub submitted_awaiting :
    (state : AgentState) (k t : ℕ) (input : Text)
    → IsValid state
    → require_admission state ≡ ok tt
    → Awaits state k t
    → (submit_admission state k t input).0 ≡ ok (answered (turn_result k t cancelled))
unfolding submit_admission
submitted_awaiting state k t input v admits waits =
    let (unfinished, (s, awaited)) = take_pending-Awaits state k t waits in
    let (old, held, fits) = take_pending-some state k t s v awaited in
    rw (admits, submit_admission, unfinished, awaited)
      (rw (store_terminal_lem state k s (active_ids state.active_turn k) t input cancelled fits)
        refl)

add_pending-admission :
    (state : AgentState) (k t : ℕ)
    → require_admission (add_pending state k t).1 ≡ require_admission state
unfolding add_pending require_admission
add_pending-admission state k t = ground arith

-- Ahead of its turn, a cancellation that is accepted leaves the session waiting for the turn.
module _ (state : AgentState) (k t : ℕ) (v : IsValid state)
    (admits : require_admission state ≡ ok tt) (unfinished : find_completed state k t ≡ none)
    (inactive : (a : ActiveTurn) → state.active_turn ≡ some a → owns a k t ≡ false)
    (accepted : (cancel state k t).0 ≡ ok cancellation_requested) where
  cancels_ahead : cancel state k t ≡ cancel_ahead state k t
  unfolding cancel
  cancels_ahead = elim (Option-cases state.active_turn) [
    | inl idle ↦ ground arith
    | inr (a, e) ↦ ground (arith, inactive a e)
  ]

  after_cancel :
      (after : AgentState) × (cancel state k t ≡ add_pending after k t) × Ensured state k after
  unfolding cancel_ahead require_admission
  after_cancel =
      let (after, e, en) = ensure_session_total state k v in
      (after, cancels_ahead ∙ ground (arith, e), en)

  still_admits : require_admission (cancel state k t).1 ≡ ok tt
  unfolding require_admission
  still_admits =
      let (after, q, en) = after_cancel in
      ap (λ (r : Reply CancelResult). require_admission r.1) q
      ∙ add_pending-admission after k t
      ∙ ground (arith, en.same_lifecycle, en.same_profile)

  pub awaits : Awaits (cancel state k t).1 k t
  awaits =
      let (after, q, en) = after_cancel in
      let (s, held, new) = Ensured-unfinished state after k t en unfinished in
      subst (λ (r : Reply CancelResult). Awaits r.1 k t) (sym q)
        (add_pending-Awaits after k t s held new
          (ap (λ (r : Reply CancelResult). r.0) (sym q) ∙ accepted))

-- ===== src/Agent/Validity/Admission.antt =====
-- `AgentHandle::submit_turn` and `AgentHandle::cancel` of crates/paraegox-agent/src/service.rs keep
-- the invariant, up to the moment when the lock is released.
use para_egox.Prelude.{
  ℕ, ◌+◌, ◌≡◌, ◌≢◌, refl, sym, ◌∙◌, ap, inl, inr, true, false, none, some, [], ◌∷◌, arith, ◌==◌,
  ==_iff, ok, err, length, lookup, is_some, count, take_first, Bool-cases, Option-cases, nat_eq,
  subst, Result-cases,
}
use para_egox.Text.{Text}
use para_egox.Agent.Types.{cancelled, failed}
use para_egox.Agent.Context.{build_model_context}
use para_egox.Agent.State.{
  CompletedTurn, SessionState, ActiveTurn, ActiveProfile, AgentState, panicked, is_running,
  require_admission, find_completed, find_turn, default_session,
}
use para_egox.Agent.Service.{
  take_pending, replay, open_turn, admit_owned, begin_turn, submit_admission,
}
use para_egox.Agent.Validity.{turn_ids, active_ids, SessionIsValid, IsValid}
use para_egox.Agent.Validity.Sessions.{Ensured, ensure_session_total}
use para_egox.Agent.Validity.Turns.{
  taken-IsValid, slot-IsValid, find_turn-none, take_pending-none, ensure_turn_slot_cases,
}
use para_egox.Agent.Validity.Operations.{IsSafe, store_terminal-IsSafe, answer_with-IsSafe}

-- The session has not seen the turn: neither completed nor awaited by a cancellation.
abbrev pub IsNew : ℕ → SessionState → Type 0
IsNew t s = count t (turn_ids s.turns) + count t s.pending_cancellations ≡ 0

abbrev new_turn : ℕ → ℕ → ActiveTurn
new_turn k t = record { session_id = k; turn_id = t; cancellation = false }

opened-IsValid :
    (state : AgentState) (k t : ℕ) (s : SessionState)
    → IsValid state
    → state.active_turn ≡ none
    → lookup k state.sessions ≡ some s
    → SessionIsValid (t ∷ []) s
    → IsValid (record state { active_turn = some (new_turn k t) })
opened-IsValid state k t s v idle held fits = record {
  ordered = v.ordered;
  distinct = v.distinct;
  bounded = v.bounded;
  each = each;
  owned = λ a e. ground arith;
}
  where
    each :
        (j : ℕ) (r : SessionState)
        → lookup j state.sessions ≡ some r
        → SessionIsValid (active_ids (some (new_turn k t)) j) r
    each j r h = elim (Bool-cases (k == j)) [
      | inl same ↦
          let e : k ≡ j = (==_iff k j).0 same in
          let f : s ≡ r = ground (arith, ap (λ i. lookup i state.sessions) e) in
          rw same (subst (SessionIsValid (t ∷ [])) f fits)
      | inr other ↦ rw other (subst (λ a. SessionIsValid (active_ids a j) r) idle (v.each j r h))
    ]

open_turn-IsSafe :
    (state : AgentState) (profile : ActiveProfile) (k t : ℕ) (input : Text) (s : SessionState)
    → IsValid state
    → state.active_turn ≡ none
    → lookup k state.sessions ≡ some s
    → SessionIsValid (t ∷ []) s
    → IsSafe (open_turn state profile k t input)
unfolding open_turn
open_turn-IsSafe state profile k t input s v idle held fits =
    elim (Result-cases (build_model_context profile.system_prompt s input)) [
      | inl (context, e) ↦
          rw (held, open_turn, e) (opened-IsValid state k t s v idle held fits, λ f. cc)
      | inr (reason, e) ↦
          rw (held, open_turn, e)
            (answer_with-IsSafe k t _ (
              store_terminal-IsSafe state k s s t input (failed reason) v held
                (subst (λ a. SessionIsValid (t ∷ active_ids a k) s) (sym idle) fits)))
    ]

pub find_completed_lem :
    (state : AgentState) (k t : ℕ) (s : SessionState)
    → lookup k state.sessions ≡ some s
    → find_completed state k t ≡ find_turn t s.turns
unfolding find_completed
find_completed_lem state k t s held = rw (held, find_completed) refl

unawaited_lem :
    (state : AgentState) (k t : ℕ) (s : SessionState)
    → lookup k state.sessions ≡ some s
    → take_pending state k t ≡ none
    → take_first (λ id. id == t) s.pending_cancellations ≡ none
unfolding take_pending
unawaited_lem state k t s held h =
    elim (Option-cases (take_first (λ id. id == t) s.pending_cancellations)) [
      | inl e ↦ e
      | inr (x, e) ↦ ground arith
    ]

-- A session that knows neither a terminal nor a cancellation of the turn is new to it.
known_IsNew :
    (state : AgentState) (k t : ℕ) (s : SessionState)
    → lookup k state.sessions ≡ some s
    → find_completed state k t ≡ none
    → take_pending state k t ≡ none
    → IsNew t s
known_IsNew state k t s held unfinished unawaited = omega (
  arith,
  find_turn-none t s.turns (sym (find_completed_lem state k t s held) ∙ unfinished),
  take_pending-none t s.pending_cancellations (unawaited_lem state k t s held unawaited),
)

-- After `ensure_session` the session is new to the turn, if it was before.
Ensured-IsNew :
    (state after : AgentState) (k t : ℕ)
    → Ensured state k after
    → find_completed state k t ≡ none
    → take_pending state k t ≡ none
    → (s : SessionState) × (lookup k after.sessions ≡ some s) × IsNew t s
unfolding count
Ensured-IsNew state after k t en unfinished unawaited =
    elim (Option-cases (lookup k state.sessions)) [
      | inl missing ↦ (default_session, en.fresh missing, omega arith)
      | inr (s, held) ↦ (
        s,
        ap (λ r. lookup k (AgentState.sessions r)) (en.unchanged (rw held refl)) ∙ held,
        known_IsNew state k t s held unfinished unawaited,
      )
    ]

-- The rest of the section once the session is there.
admit-IsSafe :
    (state : AgentState) (k t : ℕ) (input : Text) (s : SessionState)
    → IsValid state
    → state.active_turn ≡ none
    → is_some state.active_profile ≡ true
    → lookup k state.sessions ≡ some s
    → IsNew t s
    → IsSafe (admit_owned state k t input)
unfolding admit_owned
admit-IsSafe state k t input s v idle profile held new =
    let fits : SessionIsValid [] s =
      subst (λ a. SessionIsValid (active_ids a k) s) idle (v.each k s held) in
    let none_active : length (active_ids state.active_turn k) ≡ 0 =
      ap (λ a. length (active_ids a k)) idle in
    elim (ensure_turn_slot_cases state k s held (v.each k s held)) [
      | inr (full, _) ↦ rw (full, admit_owned) (v, λ f. cc)
      | inl (room, space) ↦ elim (Option-cases state.active_profile) [
        | inl missing ↦ absurd (ground arith)
        | inr (profile, e) ↦
            rw (room, admit_owned, e)
              (open_turn-IsSafe state profile k t input s v idle held
                (slot-IsValid [] s t fits (unfold count in omega arith) (omega arith)))
      ]
    ]

pub begin_turn-IsSafe :
    (state : AgentState) (k t : ℕ) (input : Text)
    → IsValid state
    → is_some state.active_profile ≡ true
    → find_completed state k t ≡ none
    → take_pending state k t ≡ none
    → IsSafe (begin_turn state k t input)
unfolding begin_turn
begin_turn-IsSafe state k t input v profile unfinished unawaited =
    elim (Option-cases state.active_turn) [
      | inr (a, e) ↦ rw (ap is_some e, begin_turn) (v, λ f. cc)
      | inl idle ↦
          let (after, e, en) = ensure_session_total state k v in
          let (s, held, new) = Ensured-IsNew state after k t en unfinished unawaited in
          rw (ap is_some idle, begin_turn, e)
            (admit-IsSafe after k t input s en.valid (en.same_turn ∙ idle)
              (ap is_some en.same_profile ∙ profile) held new)
    ]

require_admission-profile :
    (state : AgentState)
    → require_admission state ≡ ok tt
    → (is_running state.lifecycle ≡ true) × (is_some state.active_profile ≡ true)
unfolding require_admission
require_admission-profile state h = ground arith

require_admission-no_panic : (state : AgentState) → require_admission state ≢ err panicked
unfolding require_admission
require_admission-no_panic state h = ground arith

replay-no_panic : (c : CompletedTurn) (k t : ℕ) (input : Text) → replay c k t input ≢ err panicked
unfolding replay
replay-no_panic c k t input h = ground arith

-- The session without the awaited cancellation, and what it was.
pub take_pending-some :
    (state : AgentState) (k t : ℕ) (s : SessionState)
    → IsValid state
    → take_pending state k t ≡ some s
    → (old : SessionState) × (lookup k state.sessions ≡ some old)
      × SessionIsValid (t ∷ active_ids state.active_turn k) s
unfolding take_pending
take_pending-some state k t s v h = elim (Option-cases (lookup k state.sessions)) [
  | inl missing ↦ absurd (ground arith)
  | inr (old, held) ↦ elim (Option-cases (take_first (λ id. id == t) old.pending_cancellations)) [
    | inl missing ↦ absurd (ground arith)
    | inr ((found, rest), e) ↦
        let same : record old { pending_cancellations = rest } ≡ s = ground arith in
        (
          old,
          held,
          subst (SessionIsValid (t ∷ active_ids state.active_turn k)) same (
              taken-IsValid (active_ids state.active_turn k) old t found rest (v.each k old held)
                e),
        )
  ]
]

-- The admission of a turn, whatever it answers, keeps a valid state valid and never panics.
pub submit_admission-IsSafe :
    (state : AgentState) (k t : ℕ) (input : Text)
    → IsValid state
    → IsSafe (submit_admission state k t input)
unfolding submit_admission
submit_admission-IsSafe state k t input v = elim (Result-cases (require_admission state)) [
  | inr (e, refused) ↦
      rw (refused, submit_admission) (v, λ f. require_admission-no_panic state (ground arith))
  | inl (_, admits) ↦ elim (Option-cases (find_completed state k t)) [
    | inr (c, done) ↦ rw (admits, submit_admission, done) (v, replay-no_panic c k t input)
    | inl unfinished ↦ elim (Option-cases (take_pending state k t)) [
      | inr (s, awaited) ↦
          let (old, held, fits) = take_pending-some state k t s v awaited in
          rw (admits, submit_admission, unfinished, awaited)
            (answer_with-IsSafe k t _
              (store_terminal-IsSafe state k old s t input cancelled v held fits))
      | inl unawaited ↦
          rw (admits, submit_admission, unfinished, unawaited)
            (begin_turn-IsSafe state k t input v (require_admission-profile state admits).1
              unfinished unawaited)
    ]
  ]
]

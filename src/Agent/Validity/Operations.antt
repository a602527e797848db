-- ===== src/Agent/Validity/Operations.antt =====
-- Every critical section of crates/paraegox-agent/src/service.rs keeps the invariant and meets
-- neither an `expect` nor the assertion that would panic.
use para_egox.Prelude.{
  ℕ, ◌≡◌, ◌≢◌, refl, ap, inl, inr, true, Option, none, some, List, [], ◌∷◌, arith, ◌==◌, ok, err,
  lookup, insert, lookup-insert, Bool-cases, Option-cases, nat_eq, subst,
}
use para_egox.Text.{Text}
use para_egox.Agent.Types.{TurnTerminal}
use para_egox.Agent.State.{SessionState, ActiveTurn, AgentState, panicked}
use para_egox.Agent.Service.{
  Reply, store_terminal, answer_with, owns, settle, finish_turn, complete_turn, cleared,
}
use para_egox.Agent.Validity.{active_ids, SessionIsValid, IsValid, update-IsValid}
use para_egox.Agent.Validity.Turns.{stored, record_completed_turn_lem, stored-IsValid}

-- The state is valid, and the code did not panic.
abbrev pub IsSafe : {A : Type 0} → Reply A → Type 0
IsSafe r = IsValid r.1 × (r.0 ≢ err panicked)

abbrev pub with_session : AgentState → ℕ → SessionState → AgentState
with_session state k s = record state { sessions = insert k s state.sessions }

pub store_terminal_lem :
    (state : AgentState) (k : ℕ) (s : SessionState) (ids : List ℕ) (t : ℕ) (input : Text)
    (terminal : TurnTerminal)
    → SessionIsValid (t ∷ ids) s
    → store_terminal state k s t input terminal
      ≡ (ok terminal, with_session state k (stored s t input terminal))
unfolding store_terminal
store_terminal_lem state k s ids t input terminal v =
    rw (record_completed_turn_lem ids s t input terminal v, store_terminal) refl

-- A session of the map changes while the active turn stays.
module _ (state : AgentState) (k : ℕ) (old s : SessionState) (v : IsValid state)
    (held : lookup k state.sessions ≡ some old) where
  pub with_session-IsValid :
      SessionIsValid (active_ids state.active_turn k) s → IsValid (with_session state k s)
  with_session-IsValid fits =
      update-IsValid v k old s state.active_turn held fits (λ j h. refl)
        (λ a h. ground (arith, lookup-insert k a.session_id s state.sessions, v.owned a h))

pub store_terminal-IsSafe :
    (state : AgentState) (k : ℕ) (old s : SessionState) (t : ℕ) (input : Text)
    (terminal : TurnTerminal)
    → IsValid state
    → lookup k state.sessions ≡ some old
    → SessionIsValid (t ∷ active_ids state.active_turn k) s
    → IsSafe (store_terminal state k s t input terminal)
store_terminal-IsSafe state k old s t input terminal v held fits =
    let ids = active_ids state.active_turn k in
    rw (store_terminal_lem state k s ids t input terminal fits) (
      with_session-IsValid state k old (stored s t input terminal) v held
          (stored-IsValid ids s t input terminal fits),
      λ e. cc,
    )

-- The active turn of the session ends.
pub without_turn-IsValid :
    (state : AgentState) (a : ActiveTurn) (k : ℕ) (old s : SessionState)
    → IsValid state
    → state.active_turn ≡ some a
    → (a.session_id == k) ≡ true
    → lookup k state.sessions ≡ some old
    → SessionIsValid [] s
    → IsValid (record state { active_turn = none; sessions = insert k s state.sessions })
without_turn-IsValid state a k old s v e same held fits =
    update-IsValid v k old s none held fits (λ j h. rw e (ground arith)) (λ b h. cc)

pub answer_with-IsSafe : (k t : ℕ) (r : Reply TurnTerminal) → IsSafe r → IsSafe (answer_with k t r)
answer_with-IsSafe k t (ok terminal, state) h = (h.0, λ e. cc)
answer_with-IsSafe k t (err e, state) h = (h.0, λ f. ground arith)

pub cleared-IsSafe : (r : Reply TurnTerminal) → IsSafe r → IsSafe (cleared r)
cleared-IsSafe (ok terminal, state) h = (h.0, λ e. cc)
cleared-IsSafe (err e, state) h = (h.0, λ f. ground arith)

active_ids-owns :
    (active : Option ActiveTurn) (a : ActiveTurn) (k t : ℕ)
    → active ≡ some a
    → owns a k t ≡ true
    → active_ids active k ≡ t ∷ []
active_ids-owns none a k t e own = cc
active_ids-owns (some b) a k t e own = ground arith

-- The session of the active turn is there, and it has room for the terminal.
pub active_session :
    (state : AgentState) (a : ActiveTurn) (k t : ℕ)
    → IsValid state
    → state.active_turn ≡ some a
    → owns a k t ≡ true
    → (s : SessionState) × (lookup k state.sessions ≡ some s) × SessionIsValid (t ∷ []) s
active_session state a k t v e own = elim (Option-cases (lookup k state.sessions)) [
  | inl missing ↦
      let same : a.session_id ≡ k = ground arith in
      absurd (ground (arith, v.owned a e, ap (λ i. lookup i state.sessions) same))
  | inr (s, held) ↦ (
    s,
    held,
    subst (λ ids. SessionIsValid ids s) (active_ids-owns state.active_turn a k t e own)
        (v.each k s held),
  )
]

-- The turn that a guard stands for ends in every valid state.
pub finish_turn-IsSafe :
    (state : AgentState) (a : ActiveTurn) (k t : ℕ) (input : Text) (terminal : TurnTerminal)
    → IsValid state
    → state.active_turn ≡ some a
    → owns a k t ≡ true
    → IsSafe (finish_turn state k t input terminal)
unfolding finish_turn
finish_turn-IsSafe state a k t input terminal v e own =
    let (s, held, fits) = active_session state a k t v e own in
    rw (held, finish_turn)
      (rw (store_terminal_lem (record state { active_turn = none }) k s [] t input terminal fits) (
        without_turn-IsValid state a k s (stored s t input terminal) v e (ground arith) held
            (stored-IsValid [] s t input terminal fits),
        λ f. cc,
      ))

-- The completion of a turn, the guard's turn active or not, keeps a valid state valid and never
-- panics.
pub complete_turn-IsSafe :
    (state : AgentState) (k t : ℕ) (input : Text) (proposed : TurnTerminal)
    → IsValid state
    → IsSafe (complete_turn state k t input proposed)
unfolding complete_turn
complete_turn-IsSafe state k t input proposed v = elim (Option-cases state.active_turn) [
  | inl e ↦ rw (e, complete_turn) (v, λ f. cc)
  | inr (a, e) ↦ elim (Bool-cases (owns a k t)) [
    | inl own ↦
        rw (e, complete_turn, own)
          (finish_turn-IsSafe state a k t input (settle state a proposed) v e own)
    | inr other ↦ rw (e, complete_turn, other) (v, λ f. cc)
  ]
]

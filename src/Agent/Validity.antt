-- ===== src/Agent/Validity.antt =====
-- The invariant of the conversation state in crates/paraegox-agent/src/service.rs, and the lemma by
-- which each update of a session keeps it.
pub mod Sessions
pub mod Evictions
pub mod Turns
pub mod Operations
pub mod Admission
pub mod Cancel
pub mod Lifecycle
use para_egox.Prelude.{
  ℕ, ◌+◌, ◌≤◌, ◌≡◌, refl, sym, ◌∙◌, ap, Bool, true, false, Option, none, some, List, [], ◌∷◌, ◌++◌,
  map, arith, ◌==◌, if◌then◌else◌, length, lookup, insert, keys, is_some, elem, Distinct, count,
  Bool-cases, ==_iff, subst, inl, inr, lookup-insert, keys-insert, elem-keys, nat_eq,
}
use para_egox.Agent.State.{
  CompletedTurn, SessionState, ActiveTurn, AgentState, max_sessions, max_retained_turns_per_session,
  new_state,
}

abbrev pub turn_ids : List CompletedTurn → List ℕ
turn_ids [] = []
turn_ids (turn ∷ turns) = turn.turn_id ∷ turn_ids turns

-- The identity of the active turn, if it belongs to the session.
abbrev pub active_ids : Option ActiveTurn → ℕ → List ℕ
active_ids none k = []
active_ids (some active) k = if active.session_id == k then active.turn_id ∷ [] else []

-- A turn is completed, awaited by a cancellation or active, at most once, and the capacity holds.
pub record SessionIsValid (ids : List ℕ) (s : SessionState) : Type 0 where
  pub once :
      (t : ℕ) → count t (turn_ids s.turns) + count t s.pending_cancellations + count t ids ≤ 1
  pub capacity :
      length s.turns + length s.pending_cancellations + length ids ≤ max_retained_turns_per_session

pub record IsValidOf (sessions : List (ℕ × SessionState)) (order : List ℕ)
    (active : Option ActiveTurn) : Type 0 where
  pub ordered : keys sessions ≡ order
  pub distinct : Distinct order
  pub bounded : length order ≤ max_sessions
  pub each :
      (k : ℕ) (s : SessionState)
      → lookup k sessions ≡ some s
      → SessionIsValid (active_ids active k) s
  pub owned : (a : ActiveTurn) → active ≡ some a → is_some (lookup a.session_id sessions) ≡ true

abbrev pub IsValid : AgentState → Type 0
IsValid state = IsValidOf state.sessions state.session_order state.active_turn

pub new_state-IsValid : IsValid new_state
unfolding new_state lookup
new_state-IsValid = record {
  ordered = refl;
  distinct = tt;
  bounded = omega arith;
  each = λ k s h. ground arith;
  owned = λ a h. ground arith;
}

-- A session that is there gets a new value, and the active turn changes in it at most.
module _ {sessions : List (ℕ × SessionState)} {order : List ℕ} {active : Option ActiveTurn}
    (v : IsValidOf sessions order active) (k : ℕ) (old new : SessionState)
    (active' : Option ActiveTurn) (held : lookup k sessions ≡ some old)
    (fits : SessionIsValid (active_ids active' k) new)
    (others : (j : ℕ) → (k == j) ≡ false → active_ids active' j ≡ active_ids active j)
    (keeps : (a : ActiveTurn)
      → active' ≡ some a
      → is_some (lookup a.session_id (insert k new sessions)) ≡ true) where
  update_ordered : keys (insert k new sessions) ≡ order
  update_ordered = ground (arith, keys-insert k new sessions, elem-keys k sessions, v.ordered)

  update_each :
      (j : ℕ) (s : SessionState)
      → lookup j (insert k new sessions) ≡ some s
      → SessionIsValid (active_ids active' j) s
  update_each j s h = elim (Bool-cases (k == j)) [
    | inl same ↦
        let e : k ≡ j = (==_iff k j).0 same in
        let f : new ≡ s = ground (arith, lookup-insert k j new sessions) in
        subst (λ i. SessionIsValid (active_ids active' i) s) e
          (subst (SessionIsValid (active_ids active' k)) f fits)
    | inr other ↦ rw (others j other) (v.each j s (ground (arith, lookup-insert k j new sessions)))
  ]

  pub update-IsValid : IsValidOf (insert k new sessions) order active'
  update-IsValid = record {
    ordered = update_ordered;
    distinct = v.distinct;
    bounded = v.bounded;
    each = update_each;
    owned = keeps;
  }

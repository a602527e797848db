-- ===== src/Agent/Validity/Evictions.antt =====
-- What `ensure_session` of crates/paraegox-agent/src/service.rs does to the other sessions.
use para_egox.Prelude.{
  ℕ, ◌<◌, ◌≡◌, refl, sym, ◌∙◌, ap, inl, inr, true, false, Option, none, some, List, [], ◌∷◌, ◌++◌,
  arith, ◌==◌, ok, length, length-keys, lookup, is_some, keys, Distinct, take_first,
  take_first-some, lookup-insert, lookup-erase, Bool-cases, subst, Option-cases, nat_eq, All,
  if◌then◌else◌,
}
use mathlib.Core.List.{append_assoc}
use para_egox.Agent.State.{
  SessionState, ActiveTurn, AgentState, default_session, protected_session, differs, insert_session,
  evict, ensure_session, max_sessions,
}
use para_egox.Agent.Validity.{IsValid}
use para_egox.Agent.Validity.Sessions.{Ensured, ensure_session_total, full_evicts, without}

-- The session with the active turn.
abbrev pub IsActive : Option ActiveTurn → ℕ → Type 0
IsActive none j = ⊥
IsActive (some active) j = j ≡ active.session_id

-- The session of the key was there; or it is new, empty and the last in the order, and either the
-- others are as before, or one of 64 is gone: the oldest that has no active turn.
pub data HowEnsured (state : AgentState) (k : ℕ) (after : AgentState) : Type 0 where
  known : is_some (lookup k state.sessions) ≡ true → after ≡ state → HowEnsured state k after
  added :
      lookup k state.sessions ≡ none
      → length state.session_order < 64
      → after.session_order ≡ state.session_order ++ k ∷ []
      → ((j : ℕ)
          → lookup j after.sessions
            ≡ (if k == j then some default_session else lookup j state.sessions))
      → HowEnsured state k after
  evicted :
      (before behind : List ℕ) (expired : ℕ)
      → lookup k state.sessions ≡ none
      → length state.session_order ≡ 64
      → state.session_order ≡ before ++ expired ∷ behind
      → All (IsActive state.active_turn) before
      → ¬ IsActive state.active_turn expired
      → after.session_order ≡ before ++ (behind ++ k ∷ [])
      → ((j : ℕ)
          → lookup j after.sessions ≡ (
              if k == j
              then some default_session
              else if expired == j
              then none
              else lookup j state.sessions))
      → HowEnsured state k after

take_first-split :
    (active : Option ActiveTurn) (order : List ℕ) (x : ℕ) (rest : List ℕ)
    → take_first (differs (protected_session active)) order ≡ some (x, rest)
    → (before : List ℕ) × (behind : List ℕ) × (order ≡ before ++ x ∷ behind)
      × (rest ≡ before ++ behind)
      × All (IsActive active) before
unfolding take_first
take_first-split active [] x rest h = absurd (ground arith)
take_first-split none (y ∷ ys) x rest h = ([], ys, ground arith, ground arith, tt)
take_first-split (some a) (y ∷ ys) x rest h = elim (Bool-cases (y == a.session_id)) [
  | inr other ↦ ([], ys, ground arith, ground arith, tt)
  | inl own ↦ elim (Option-cases (take_first (differs (some a.session_id)) ys)) [
    | inl missed ↦ absurd (ground arith)
    | inr ((z, others), hit) ↦
        let (before, behind, e, f, all_own) = take_first-split (some a) ys z others hit in
        (y ∷ before, behind, ground arith, ground arith, (ground arith, all_own))
  ]
]

differs-IsActive :
    (active : Option ActiveTurn) (j : ℕ)
    → differs (protected_session active) j ≡ true
    → ¬ IsActive active j
differs-IsActive none j h own = own
differs-IsActive (some a) j h own = ground arith

inserted_lookup :
    (state : AgentState) (k j : ℕ)
    → lookup j (insert_session state k).sessions
      ≡ (if k == j then some default_session else lookup j state.sessions)
unfolding insert_session
inserted_lookup state k j = lookup-insert k j default_session state.sessions

module _ (state : AgentState) (k : ℕ) (v : IsValid state)
    (missing : lookup k state.sessions ≡ none) where
  keys-Distinct : Distinct (keys state.sessions)
  keys-Distinct = subst Distinct (sym v.ordered) v.distinct

  ensure_added :
      (length state.sessions == max_sessions) ≡ false → HowEnsured state k (insert_session state k)
  unfolding insert_session
  ensure_added space =
      added missing (ground (arith, length-keys state.sessions, v.ordered, v.bounded)) refl
        (inserted_lookup state k)

  ensure_evicted :
      (expired : ℕ) (rest : List ℕ)
      → (length state.sessions == max_sessions) ≡ true
      → take_first (differs (protected_session state.active_turn)) state.session_order
        ≡ some (expired, rest)
      → HowEnsured state k (insert_session (without state expired rest) k)
  unfolding insert_session
  ensure_evicted expired rest full hit =
      let room = without state expired rest in
      let (before, behind, e, f, own) =
        take_first-split state.active_turn state.session_order expired rest hit in
      let (passes, there, _) = take_first-some _ state.session_order expired rest hit in
      evicted before behind expired missing (ground (arith, length-keys state.sessions, v.ordered))
        e own (differs-IsActive state.active_turn expired passes)
        (ap (λ order. order ++ k ∷ []) f ∙ append_assoc before behind (k ∷ []))
        (λ j.
          inserted_lookup room k j
          ∙ ap (λ (found : Option SessionState). if k == j then some default_session else found)
              (lookup-erase expired j state.sessions keys-Distinct))

how_ensured :
    (state : AgentState) (k : ℕ)
    → IsValid state
    → (after : AgentState) × (ensure_session state k ≡ ok after) × HowEnsured state k after
unfolding ensure_session evict
how_ensured state k v = elim (Option-cases (lookup k state.sessions)) [
  | inr (s, found) ↦ (state, rw (found, ensure_session) refl, known (rw found refl) refl)
  | inl missing ↦ elim (Bool-cases (length state.sessions == max_sessions)) [
    | inr space ↦
        (insert_session state k, rw (missing, space) refl, ensure_added state k v missing space)
    | inl full ↦
        elim (Option-cases
          (take_first (differs (protected_session state.active_turn)) state.session_order)) [
            | inl none_left ↦ absurd (
                full_evicts state.active_turn state.session_order v.distinct
                  (ground (arith, length-keys state.sessions, v.ordered)) none_left)
            | inr ((expired, rest), hit) ↦ (
              insert_session (without state expired rest) k,
              rw (missing, full, evict, hit) refl,
              ensure_evicted state k v missing expired rest full hit,
            )
          ]
  ]
]

-- A valid state refuses no session. A session that is there changes nothing; a new one is empty and
-- the last in the order, and every other session stays as it was, but for one of a full map of 64: the
-- oldest that has no active turn is gone. The state is valid again, with the active turn, the profile
-- and the lifecycle as before.
pub ensure_session_lem :
    (state : AgentState) (k : ℕ)
    → IsValid state
    → (after : AgentState) × (ensure_session state k ≡ ok after)
      × Ensured state k after
      × HowEnsured state k after
ensure_session_lem state k v =
    let (after, e, en) = ensure_session_total state k v in
    let (other, f, how) = how_ensured state k v in
    (after, e, en, subst (HowEnsured state k) (ground arith) how)

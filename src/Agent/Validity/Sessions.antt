-- ===== src/Agent/Validity/Sessions.antt =====
-- `ensure_session` of crates/paraegox-agent/src/service.rs: it succeeds from every valid state, the
-- session is there afterwards, and the session of the active turn is never the one evicted.
use para_egox.Prelude.{
  ℕ, suc, ◌<◌, ◌≡◌, ◌≢◌, refl, sym, ◌∙◌, ap, inl, inr, true, false, Option, none, some, List, [],
  ◌∷◌, arith, ◌==◌, ok, length, length-append, length-keys, lookup, insert, erase, keys, is_some,
  elem, Distinct, remove, count, take_first, take_first-some, lookup-insert, lookup-erase,
  keys-insert, keys-erase, elem-keys, Distinct-append_one, Distinct-remove, length-remove,
  Bool-cases, subst, Option-cases, nat_eq,
}
use para_egox.Agent.State.{
  SessionState, ActiveTurn, AgentState, default_session, protected_session, differs, insert_session,
  evict, ensure_session, max_sessions,
}
use para_egox.Agent.Validity.{active_ids, SessionIsValid, IsValidOf, IsValid}

default-IsValid :
    (active : Option ActiveTurn) (k : ℕ) → SessionIsValid (active_ids active k) default_session
unfolding count
default-IsValid none k = record { once = λ t. omega arith; capacity = omega arith }
default-IsValid (some a) k = record { once = λ t. ground arith; capacity = ground arith }

-- A new entry at the end of the order.
pub insert_session-IsValid :
    (state : AgentState) (k : ℕ)
    → IsValid state
    → lookup k state.sessions ≡ none
    → length state.session_order < max_sessions
    → IsValid (insert_session state k)
unfolding insert_session
insert_session-IsValid state k v missing room = record {
  ordered =
      ground (
        arith,
        keys-insert k default_session state.sessions,
        elem-keys k state.sessions,
        v.ordered,
      );
  distinct = Distinct-append_one k state.session_order v.distinct absent;
  bounded = omega (arith, length-append state.session_order (k ∷ []));
  each = others;
  owned =
      λ a h. ground (arith, lookup-insert k a.session_id default_session state.sessions, v.owned a);
}
  where
    absent : elem k state.session_order ≡ false
    absent = ground (arith, elem-keys k state.sessions, v.ordered)

    others :
        (j : ℕ) (s : SessionState)
        → lookup j (insert k default_session state.sessions) ≡ some s
        → SessionIsValid (active_ids state.active_turn j) s
    others j s h = elim (Bool-cases (k == j)) [
      | inl same ↦
          let e : default_session ≡ s =
            ground (arith, lookup-insert k j default_session state.sessions) in
          subst (SessionIsValid (active_ids state.active_turn j)) e
            (default-IsValid state.active_turn j)
      | inr other ↦ v.each j s (ground (arith, lookup-insert k j default_session state.sessions))
    ]

pub protected_ne :
    (active : Option ActiveTurn) (a : ActiveTurn) (expired : ℕ)
    → active ≡ some a
    → differs (protected_session active) expired ≡ true
    → (expired == a.session_id) ≡ false
protected_ne none a expired e h = cc
protected_ne (some b) a expired e h = ground arith

-- The entry that goes is not that of the active turn.
module _ (state : AgentState) (expired : ℕ) (rest : List ℕ) (v : IsValid state)
    (h : take_first (differs (protected_session state.active_turn)) state.session_order
      ≡ some (expired, rest)) where
  passes : differs (protected_session state.active_turn) expired ≡ true
  passes = (take_first-some _ state.session_order expired rest h).0

  there : elem expired state.session_order ≡ true
  there = (take_first-some _ state.session_order expired rest h).1

  removed : rest ≡ remove expired state.session_order
  removed = (take_first-some _ state.session_order expired rest h).2

  keys-Distinct : Distinct (keys state.sessions)
  keys-Distinct = subst Distinct (sym v.ordered) v.distinct

  kept :
      (j : ℕ) (s : SessionState)
      → lookup j (erase expired state.sessions) ≡ some s
      → lookup j state.sessions ≡ some s
  kept j s e = ground (arith, lookup-erase expired j state.sessions keys-Distinct)

  pub evict-IsValid : IsValidOf (erase expired state.sessions) rest state.active_turn
  evict-IsValid = record {
    ordered = keys-erase expired state.sessions ∙ ap (remove expired) v.ordered ∙ sym removed;
    distinct =
        subst Distinct (sym removed) (Distinct-remove expired state.session_order v.distinct);
    bounded =
        omega
          (arith, v.bounded, length-remove expired state.session_order there, ap length removed);
    each = λ j s e. v.each j s (kept j s e);
    owned = λ a e. ground (
      arith,
      lookup-erase expired a.session_id state.sessions keys-Distinct,
      v.owned a e,
      protected_ne state.active_turn a expired e passes,
    );
  }

  pub evict_room : suc (length rest) ≡ length state.session_order
  evict_room = omega (arith, length-remove expired state.session_order there, ap length removed)

  pub evict_missing :
      (k : ℕ) → lookup k state.sessions ≡ none → lookup k (erase expired state.sessions) ≡ none
  evict_missing k e = ground (arith, lookup-erase expired k state.sessions keys-Distinct)

-- A full order always has a session that may go.
pub full_evicts :
    (active : Option ActiveTurn) (order : List ℕ)
    → Distinct order
    → 1 < length order
    → take_first (differs (protected_session active)) order ≢ none
unfolding take_first elem
full_evicts none (x ∷ y ∷ order) d h e = cc
full_evicts (some a) (x ∷ y ∷ order) d h e = ground arith
full_evicts active _ d h e = absurd (omega arith)

-- What `ensure_session` gives from a valid state.
pub record Ensured (state : AgentState) (k : ℕ) (after : AgentState) : Type 0 where
  pub valid : IsValid after
  pub present : is_some (lookup k after.sessions) ≡ true
  pub same_turn : after.active_turn ≡ state.active_turn
  pub same_profile : after.active_profile ≡ state.active_profile
  pub same_lifecycle : after.lifecycle ≡ state.lifecycle
  pub unchanged : is_some (lookup k state.sessions) ≡ true → after ≡ state
  pub fresh : lookup k state.sessions ≡ none → lookup k after.sessions ≡ some default_session

inserted-Ensured :
    (state room : AgentState) (k : ℕ)
    → IsValid room
    → lookup k state.sessions ≡ none
    → lookup k room.sessions ≡ none
    → length room.session_order < max_sessions
    → room.active_turn ≡ state.active_turn
    → room.active_profile ≡ state.active_profile
    → room.lifecycle ≡ state.lifecycle
    → Ensured state k (insert_session room k)
unfolding insert_session
inserted-Ensured state room k v missing gone space turn profile lifecycle = record {
  valid = insert_session-IsValid room k v gone space;
  present = ground (arith, lookup-insert k k default_session room.sessions);
  same_turn = turn;
  same_profile = profile;
  same_lifecycle = lifecycle;
  unchanged = λ h. ground arith;
  fresh = λ h. ground (arith, lookup-insert k k default_session room.sessions);
}

abbrev pub without : AgentState → ℕ → List ℕ → AgentState
without state expired rest = record state {
  sessions = erase expired state.sessions;
  session_order = rest;
}

-- From a full map: one entry goes, and the new one comes.
ensure_full :
    (state : AgentState) (k expired : ℕ) (rest : List ℕ)
    → IsValid state
    → lookup k state.sessions ≡ none
    → take_first (differs (protected_session state.active_turn)) state.session_order
      ≡ some (expired, rest)
    → Ensured state k (insert_session (without state expired rest) k)
ensure_full state k expired rest v missing h =
    inserted-Ensured state (without state expired rest) k (evict-IsValid state expired rest v h)
      missing (evict_missing state expired rest v h k missing)
      (omega (arith, evict_room state expired rest v h, v.bounded)) refl refl refl

-- A valid state refuses no session: a full map evicts one that is not active. The state is then
-- valid and holds the session, and the active turn, the profile and the lifecycle are as before.
pub ensure_session_total :
    (state : AgentState) (k : ℕ)
    → IsValid state
    → (after : AgentState) × (ensure_session state k ≡ ok after) × Ensured state k after
unfolding ensure_session evict
ensure_session_total state k v = elim (Option-cases (lookup k state.sessions)) [
  | inr (s, found) ↦ (
    state,
    rw (found, ensure_session) refl,
    record {
      valid = v;
      present = rw found refl;
      same_turn = refl;
      same_profile = refl;
      same_lifecycle = refl;
      unchanged = λ h. refl;
      fresh = λ h. ground arith;
    },
  )
  | inl missing ↦ elim (Bool-cases (length state.sessions == max_sessions)) [
    | inr space ↦ (
      insert_session state k,
      rw (missing, space) refl,
      inserted-Ensured state state k v missing missing
          (ground (arith, length-keys state.sessions, v.ordered, v.bounded)) refl refl refl,
    )
    | inl full ↦
        elim (Option-cases
          (take_first (differs (protected_session state.active_turn)) state.session_order)) [
            | inl none_left ↦ absurd (
                full_evicts state.active_turn state.session_order v.distinct
                  (ground (arith, length-keys state.sessions, v.ordered)) none_left)
            | inr ((expired, rest), hit) ↦ (
              insert_session (without state expired rest) k,
              rw (missing, full, evict, hit) refl,
              ensure_full state k expired rest v missing hit,
            )
          ]
  ]
]

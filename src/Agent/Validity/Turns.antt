-- ===== src/Agent/Validity/Turns.antt =====
-- How a turn moves through a session in crates/paraegox-agent/src/service.rs: from a pending
-- cancellation or a free slot to the active turn, and from there to the completed ones.
use para_egox.Prelude.{
  ℕ, ◌+◌, ◌<◌, ◌≡◌, refl, ap, ◌⊎◌, Option, none, some, List, [], ◌∷◌, ◌++◌, arith, ◌==◌,
  if◌then◌else◌, ok, err, length, length-append, lookup, count, find, take_first, take_first-some,
  count-append, count-remove, length-remove, nat_eq,
}
use para_egox.Text.{Text}
use para_egox.Agent.Types.{terminal_capacity_full, TurnTerminal}
use para_egox.Agent.State.{
  CompletedTurn, SessionState, ActiveTurn, AgentState, rejected, active_reservation,
  ensure_turn_slot, record_completed_turn, find_turn, max_retained_turns_per_session,
}
use para_egox.Agent.Validity.{turn_ids, active_ids, SessionIsValid}

turn_ids-append : (xs ys : List CompletedTurn) → turn_ids (xs ++ ys) ≡ turn_ids xs ++ turn_ids ys
turn_ids-append [] ys = refl
turn_ids-append (x ∷ xs) ys = ap (◌∷◌ x.turn_id) (turn_ids-append xs ys)

abbrev pub completed : ℕ → Text → TurnTerminal → CompletedTurn
completed t input terminal = record { turn_id = t; input = input; terminal = terminal }

abbrev pub stored : SessionState → ℕ → Text → TurnTerminal → SessionState
stored s t input terminal = record s { turns = s.turns ++ completed t input terminal ∷ [] }

module _ (ids : List ℕ) (s : SessionState) (t : ℕ) where
  -- Recording the active turn never meets the assertion.
  pub record_completed_turn_lem :
      (input : Text) (terminal : TurnTerminal)
      → SessionIsValid (t ∷ ids) s
      → record_completed_turn s t input terminal ≡ ok (stored s t input terminal)
  unfolding record_completed_turn
  record_completed_turn_lem input terminal v = ground arith

  pub stored-IsValid :
      (input : Text) (terminal : TurnTerminal)
      → SessionIsValid (t ∷ ids) s
      → SessionIsValid ids (stored s t input terminal)
  unfolding count
  stored-IsValid input terminal v = record {
    once = λ u. omega (
      arith,
      v.once u,
      ap (count u) (turn_ids-append s.turns (completed t input terminal ∷ [])),
      count-append u (turn_ids s.turns) (t ∷ []),
    );
    capacity = omega (arith, v.capacity, length-append s.turns (completed t input terminal ∷ []));
  }

  pub taken-IsValid :
      (found : ℕ) (rest : List ℕ)
      → SessionIsValid ids s
      → take_first (λ id. id == t) s.pending_cancellations ≡ some (found, rest)
      → SessionIsValid (t ∷ ids) (record s { pending_cancellations = rest })
  unfolding count
  taken-IsValid found rest v h =
      let (hit, there, gone) =
        take_first-some (λ id. id == t) s.pending_cancellations found rest h in
      let e : found ≡ t = ground arith in
      record {
        once = λ u. omega (
          arith,
          v.once u,
          ap (count u) gone,
          ap {B = ℕ} (λ (x : ℕ). if x == u then 1 else 0) e,
          count-remove found u s.pending_cancellations there,
        );
        capacity =
            omega (
              arith,
              v.capacity,
              ap length gone,
              length-remove found s.pending_cancellations there,
            );
      }

  -- A free slot takes a turn that the session does not know.
  pub slot-IsValid :
      SessionIsValid ids s
      → count t (turn_ids s.turns) + count t s.pending_cancellations + count t ids ≡ 0
      → length s.turns + length s.pending_cancellations + length ids
        < max_retained_turns_per_session
      → SessionIsValid (t ∷ ids) s
  unfolding count
  slot-IsValid v absent room = record {
    once = λ u. ground (arith, v.once u);
    capacity = omega arith;
  }

  pub pending-IsValid :
      SessionIsValid (t ∷ ids) s
      → SessionIsValid ids (record s { pending_cancellations = s.pending_cancellations ++ t ∷ [] })
  unfolding count
  pending-IsValid v = record {
    once = λ u. omega (arith, v.once u, count-append u s.pending_cancellations (t ∷ []));
    capacity = omega (arith, v.capacity, length-append s.pending_cancellations (t ∷ []));
  }

-- A turn that is not found among the completed ones does not stand there.
pub find_turn-none :
    (t : ℕ) (turns : List CompletedTurn) → find_turn t turns ≡ none → count t (turn_ids turns) ≡ 0
unfolding find_turn find count
find_turn-none t [] h = refl
find_turn-none t (x ∷ xs) h = ground (arith, find_turn-none t xs)

pub take_pending-none :
    (t : ℕ) (xs : List ℕ) → take_first (λ id. id == t) xs ≡ none → count t xs ≡ 0
unfolding take_first count
take_pending-none t [] h = refl
take_pending-none t (x ∷ xs) h = ground (arith, take_pending-none t xs)

reservation_lem :
    (active : Option ActiveTurn) (k : ℕ)
    → active_reservation active k ≡ length (active_ids active k)
reservation_lem none k = refl
reservation_lem (some a) k = ground arith

-- The check of the slot, in a session that is there.
pub ensure_turn_slot_cases :
    (state : AgentState) (k : ℕ) (s : SessionState)
    → lookup k state.sessions ≡ some s
    → SessionIsValid (active_ids state.active_turn k) s
    → ((ensure_turn_slot state k ≡ ok tt)
        × (length s.turns + length s.pending_cancellations + length (active_ids state.active_turn k)
            < max_retained_turns_per_session))
      ⊎ ((ensure_turn_slot state k ≡ err (rejected terminal_capacity_full))
          × (length s.turns
                + length s.pending_cancellations
                + length (active_ids state.active_turn k)
              ≡ max_retained_turns_per_session))
unfolding ensure_turn_slot
ensure_turn_slot_cases state k s h v =
    rw (h, ensure_turn_slot) (ground (arith, reservation_lem state.active_turn k))

-- ===== src/Agent/Outcomes/Foretold.antt =====
-- A cancellation that comes before its turn, and the turn any time later:
-- crates/paraegox-agent/src/service.rs answers it as cancelled, whatever the other callers did.
use para_egox.Prelude.{
  ℕ, ◌≡◌, ◌≢◌, ◌⊎◌, refl, sym, ◌∙◌, ap, inl, inr, false, Option, none, some, arith, ◌==◌, ==_refl,
  ◌=?◌, ok, err, lookup, insert, lookup-insert, count, subst, nat_eq, list_eq, list_beq_iff,
  Bool-cases, Result-cases,
}
use para_egox.Text.{Text}
use para_egox.Agent.Types.{
  TurnTerminal, cancelled, WireResponse, different_input, cancellation_requested,
}
use para_egox.Agent.Provider.{CompletionProvider}
use para_egox.Agent.State.{
  CompletedTurn, ActiveTurn, AgentState, rejected, require_admission, find_completed,
  cancel_active_turn,
}
use para_egox.Agent.Service.{
  Reply, Admission, answered, turn_result, submit_admission, replay, owns, cancel, start,
}
use para_egox.Agent.Profile.{
  activate_profile, deactivate_profile, begin_stop, finish_stop, drop_service,
}
use para_egox.Agent.System.{
  ActiveTurnGuard, System, upgrade, submit, submitted, checks, resolve, Step, starts, submits,
  resolves, abandons, cancels, activates, deactivates, begins_stop, finishes_stop, drops,
}
use para_egox.Agent.Validity.{IsValid, active_ids}
use para_egox.Agent.Validity.Turns.{completed, stored}
use para_egox.Agent.Validity.Operations.{store_terminal_lem}
use para_egox.Agent.Validity.Admission.{find_completed_lem, take_pending-some}
use para_egox.Agent.Safety.{IsConsistent, Step-IsConsistent}
use para_egox.Agent.Outcomes.Replay.{
  find_turn-append_one, submit_admission-replay, replay_same, replay_other,
}
use para_egox.Agent.Outcomes.Ahead.{Awaits, awaits, take_pending-Awaits, submitted_awaiting}
use para_egox.Agent.Outcomes.Endings.{
  start-sessions, activate_profile-sessions, deactivate_profile-sessions, begin_stop-sessions,
}
use para_egox.Agent.Outcomes.Waiting.{StillWaits, same-StillWaits, submit_admission-StillWaits}
use para_egox.Agent.Outcomes.Ended.{
  complete_turn-StillWaits, drop_guard-StillWaits, cancel-StillWaits,
}
use para_egox.Agent.Outcomes.Later.{Trail, none_yet, one_more, Step-Keeps}

module _ (k t : ℕ) where
  -- The turn is awaited by its cancellation, or it is completed as cancelled.
  abbrev pub IsForetold : AgentState → Type 0
  IsForetold state =
      Awaits state k t
      ⊎ ((c : CompletedTurn) × (find_completed state k t ≡ some c) × (c.terminal ≡ cancelled))

  submit_own :
      (state : AgentState) (input : Text)
      → IsValid state
      → Awaits state k t
      → IsForetold (submit_admission state k t input).1
  unfolding submit_admission count
  submit_own state input v waits = elim (Result-cases (require_admission state)) [
    | inr (e, refused) ↦ rw (refused, submit_admission) (inl waits)
    | inl (_, admits) ↦
        let (unfinished, (s, awaited)) = take_pending-Awaits state k t waits in
        let (old, held, fits) = take_pending-some state k t s v awaited in
        let after = stored s t input cancelled in
        let next = record state { sessions = insert k after state.sessions } in
        rw (admits, submit_admission, unfinished, awaited)
          (rw (store_terminal_lem state k s (active_ids state.active_turn k) t input cancelled fits)
            (inr (
              completed t input cancelled,
              find_completed_lem next k t after
                    (lookup-insert k k after state.sessions ∙ rw (==_refl k) refl)
                  ∙ find_turn-append_one t s.turns input cancelled
                      (ground (arith, fits.once t, ==_refl t)),
              refl,
            )))
  ]

  settled :
      (state : AgentState)
      → StillWaits k t state
      → IsForetold state ⊎ (lookup k state.sessions ≡ none)
  settled state (inl (s, held, (there, unfinished))) = inl (inl (s, held, there, unfinished))
  settled state (inr gone) = inr gone

  submit_admission-IsForetold :
      (state : AgentState) (j u : ℕ) (input : Text)
      → IsValid state
      → Awaits state k t
      → let next = (submit_admission state j u input).1 in
        IsForetold next ⊎ (lookup k next.sessions ≡ none)
  submit_admission-IsForetold state j u input v (s, held, there, unfinished) =
      elim (Bool-cases (u == t)) [
        | inr other ↦ settled _ (
            submit_admission-StillWaits k t state j u input s v (λ _. other) held
              (there, unfinished))
        | inl same_turn ↦ elim (Bool-cases (j == k)) [
          | inr other ↦ settled _ (
              submit_admission-StillWaits k t state j u input s v
                (λ here. absurd (ground (arith, here))) held (there, unfinished))
          | inl same_session ↦
              let i : j ≡ k = ground arith in
              let l : u ≡ t = ground arith in
              rw (i, l) (inl (submit_own state input v (s, held, there, unfinished)))
        ]
      ]

  waiting : (state : AgentState) → Awaits state k t → StillWaits k t state
  waiting state (s, held, there, unfinished) = inl (s, held, (there, unfinished))

  submitted-state :
      (s : System) (g : ActiveTurnGuard) (r : Reply Admission) → (submitted s g r).1.state ≡ r.1
  submitted-state s g (ok admission, next) = refl
  submitted-state s g (err e, next) = refl

  submit-IsForetold :
      (s : System) (g : ActiveTurnGuard) (d : ℕ)
      → IsConsistent s
      → Awaits s.state k t
      → let next = (submit s g d).1.state in IsForetold next ⊎ (lookup k next.sessions ≡ none)
  unfolding submit
  submit-IsForetold s g d v waits = elim (Result-cases (checks s g.input d)) [
    | inr (e, refused) ↦ rw (refused, submit) (inl (inl waits))
    | inl (_, passed) ↦
        rw (passed, submit)
          (subst (λ next. IsForetold next ⊎ (lookup k next.sessions ≡ none))
            (sym (submitted-state s g (submit_admission s.state g.session_id g.turn_id g.input)))
            (submit_admission-IsForetold s.state g.session_id g.turn_id g.input v.valid waits))
  ]

  answered_before :
      (state : AgentState) (c : CompletedTurn) (input : Text)
      → require_admission state ≡ ok tt
      → find_completed state k t ≡ some c
      → c.terminal ≡ cancelled
      → ((submit_admission state k t input).0 ≡ ok (answered (turn_result k t cancelled)))
        ⊎ ((d : CompletedTurn) × (find_completed state k t ≡ some d)
            × (input ≢ d.input)
            × ((submit_admission state k t input).0 ≡ err (rejected different_input)))
  answered_before state c input admits done off =
      let gives =
        ap (λ (p : Reply Admission). p.0) (submit_admission-replay state k t input c admits done) in
      elim (Bool-cases (c.input =? input)) [
        | inl same ↦
            let e : c.input ≡ input = (list_beq_iff c.input input).0 same in
            inl (
              gives
              ∙ ap (λ (x : Text). replay c k t x) (sym e)
              ∙ replay_same c k t
              ∙ ap (λ (x : TurnTerminal). ok (answered (turn_result k t x))) off)
        | inr other ↦
            let differ : input ≢ c.input = λ e. ground (arith, list_beq_iff c.input input, sym e) in
            inr (c, done, differ, gives ∙ replay_other c k t input differ)
      ]

module _ (to_vec : WireResponse → Option ℕ) (provider : CompletionProvider) (k t : ℕ) where
  Step-Awaits :
      {s w : System}
      → Step to_vec provider s w
      → IsConsistent s
      → Awaits s.state k t
      → IsForetold k t w.state ⊎ (lookup k w.state.sessions ≡ none)
  unfolding resolve finish_stop drop_service cancel_active_turn
  Step-Awaits (starts s _) v waits = settled k t (start s.state).1 (
      same-StillWaits k t s.state (start s.state).1 (ap (λ m. lookup k m) (start-sessions s.state))
        (waiting k t s.state waits))
  Step-Awaits (submits s g d) v waits = submit-IsForetold k t s g d v waits
  Step-Awaits (resolves s i g race _ _) v (x, held, there, unfinished) = settled k t _ (
      complete_turn-StillWaits k t s.state g.session_id g.turn_id g.input _ x v.valid held
        (there, unfinished))
  Step-Awaits (abandons s i g _) v (x, held, there, unfinished) = settled k t _ (
      drop_guard-StillWaits k t s.state g.session_id g.turn_id g.input x v.valid held
        (there, unfinished))
  Step-Awaits (cancels s j u _) v (x, held, there, unfinished) =
      settled k t _ (cancel-StillWaits k t s.state j u x v.valid held (there, unfinished))
  Step-Awaits (activates s id definition prompt _) v waits =
      settled k t (activate_profile provider s.state id definition prompt).1 (
        same-StillWaits k t s.state (activate_profile provider s.state id definition prompt).1
          (ap (λ m. lookup k m) (activate_profile-sessions provider s.state id definition prompt))
          (waiting k t s.state waits))
  Step-Awaits (deactivates s id _) v waits = settled k t (deactivate_profile s.state id).1 (
      same-StillWaits k t s.state (deactivate_profile s.state id).1
        (ap (λ m. lookup k m) (deactivate_profile-sessions s.state id)) (waiting k t s.state waits))
  Step-Awaits (begins_stop s _) v waits = settled k t (begin_stop s.state).1 (
      same-StillWaits k t s.state (begin_stop s.state).1
        (ap (λ m. lookup k m) (begin_stop-sessions s.state)) (waiting k t s.state waits))
  Step-Awaits (finishes_stop s _ _ _) v waits = inl (inl waits)
  Step-Awaits (drops s _) v waits = inl (inl waits)

  Step-IsForetold :
      {s w : System}
      → Step to_vec provider s w
      → IsConsistent s
      → IsForetold k t s.state
      → IsForetold k t w.state ⊎ (lookup k w.state.sessions ≡ none)
  Step-IsForetold step v (inl waits) = Step-Awaits step v waits
  Step-IsForetold step v (inr (c, done, off)) =
      elim (Step-Keeps to_vec provider k t c step v done) [
        | inl stays ↦ inl (inr (c, stays, off))
        | inr gone ↦ inr gone
      ]

  Trail-IsForetold :
      {s w : System}
      → Trail to_vec provider k s w
      → IsConsistent s
      → IsForetold k t s.state
      → IsConsistent w × IsForetold k t w.state
  Trail-IsForetold none_yet v h = (v, h)
  Trail-IsForetold {w = w} (one_more trail step there) v h =
      let (v', h') = Trail-IsForetold trail v h in
      (
        Step-IsConsistent to_vec step v',
        elim (Step-IsForetold step v' h') [
          | inl stays ↦ stays
          | inr gone ↦ absurd (ground (arith, gone))
        ],
      )

  -- A cancellation that is accepted ahead of its turn, which is neither completed nor active, in a
  -- consistent state that admits turns, decides the turn: whatever the callers do in between, a service that admits turns answers the turn, when it
  -- is submitted, as cancelled, or refuses it since it was completed before with another input. It is
  -- not admitted to the provider. The condition is that the session has not been evicted in between.
  pub cancel-submit_admission :
      (s w : System) (input : Text)
      → IsConsistent s
      → upgrade s ≡ ok tt
      → require_admission s.state ≡ ok tt
      → find_completed s.state k t ≡ none
      → ((a : ActiveTurn) → s.state.active_turn ≡ some a → owns a k t ≡ false)
      → (cancel s.state k t).0 ≡ ok cancellation_requested
      → Trail to_vec provider k (record s { state = (cancel s.state k t).1 }) w
      → require_admission w.state ≡ ok tt
      → ((submit_admission w.state k t input).0 ≡ ok (answered (turn_result k t cancelled)))
        ⊎ ((c : CompletedTurn) × (find_completed w.state k t ≡ some c)
            × (input ≢ c.input)
            × ((submit_admission w.state k t input).0 ≡ err (rejected different_input)))
  cancel-submit_admission s w input v alive admits unfinished inactive accepted trail open_still =
      let (valid, foretold) =
        Trail-IsForetold trail
          (Step-IsConsistent to_vec {provider = provider} (cancels s k t alive) v)
          (inl (awaits s.state k t v.valid admits unfinished inactive accepted)) in
      elim foretold [
        | inl waits ↦ inl (submitted_awaiting w.state k t input valid.valid open_still waits)
        | inr (c, done, off) ↦ answered_before k t w.state c input open_still done off
      ]

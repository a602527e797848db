-- ===== src/Runtime/Starts.antt =====
-- The two loops by which crates/paraegox-runtime/src/host.rs starts its owners.
use para_egox.Prelude.{
  ℕ, zero, suc, ◌+◌, ◌≤◌, ◌≡◌, refl, sym, ◌∙◌, ap, ap₂, some, List, [], ◌∷◌, ◌++◌, arith, ok, err,
  length, inl, inr, subst, Result-cases,
}
use mathlib.Core.List.{append_assoc, append-nil}
use para_egox.Runtime.Status.{
  RuntimeHostState, DeckRunState, CardInstanceState, set_card_state, set_deck_run_state,
  set_runtime_host_state,
}
use para_egox.Runtime.Deck.{CardContext, DeckOwner, context}
use para_egox.Runtime.Host.{
  LifecycleFailure, Call, service_start, card_start, Outcome, finished, elapsed, refused, Event,
  Run, Behaviour, verdict, invoke_owner, card_state, run_state,
}
use para_egox.Runtime.Lifecycle.{
  Started, start_services, fail_service, start_cards, fail_card, stop_timed_out_service,
  stop_timed_out_card,
}
use para_egox.Runtime.Trace.{
  calls, service_starts, service_stops, card_starts, card_stops, stops_of, stop_if, needs_stop,
  AllFinished, calls-append, AllFinished-append, stops_of-append, stops_of-service_starts,
  Trace-append,
}
use para_egox.Runtime.Stops.{
  event, stop_started_services_lem, stop_started_cards_lem, stop_timed_out_service_lem,
  stop_timed_out_card_lem,
}
use para_egox.Runtime.Undo.{
  Undone, Undone-failed, service_starts-split, card_starts-split, context-some,
  stops_of-card_starts,
}

pub verdict-ok : (d : ℕ) (call : Call) (o : Outcome) → verdict d call o ≡ ok tt → o ≡ finished
unfolding verdict
verdict-ok d call finished h = refl
verdict-ok d call elapsed h = absurd (ground arith)
verdict-ok d call (refused source) h = absurd (ground arith)

-- All starts of the plan succeeded.
pub record AllStarted (base next : Run) (plan : List Call) : Type 0 where
  pub events : List Event
  pub extended : next.events ≡ base.events ++ events
  pub made : calls events ≡ plan
  pub succeeded : AllFinished events

pub AllStarted-next :
    {base run called : Run} {plan : List Call} (call : Call) (o : Outcome)
    → AllStarted base run plan
    → called.events ≡ run.events ++ event call o ∷ []
    → o ≡ finished
    → AllStarted base called (plan ++ call ∷ [])
AllStarted-next {base} {run} {called} {plan} call o a h f = record {
  events = a.events ++ event call o ∷ [];
  extended =
      h
      ∙ ap (λ es. es ++ event call o ∷ []) a.extended
      ∙ append_assoc base.events a.events (event call o ∷ []);
  made = calls-append a.events (event call o ∷ []) ∙ ap (λ cs. cs ++ call ∷ []) a.made;
  succeeded = AllFinished-append a.events (event call o ∷ []) a.succeeded (f, tt);
}

-- How a loop of starts ends, with the state of the host that a failure leaves.
abbrev pub Ends :
    (d : ℕ) (behaviour : Behaviour) (base : Run) (plan left : List Call) (state : RuntimeHostState)
    → Started behaviour d
    → Type 0
Ends d behaviour base plan left state (ok _, next) = AllStarted base next plan
Ends d behaviour base plan left state (err (f, failed), next) =
    Undone d base next plan left f failed × (next.snapshot.state ≡ state)

module _ (behaviour : Behaviour) (d : ℕ) (base : Run) where
  fail_service_lem :
      (index remaining : ℕ) (run : Run) (o : Outcome) (f : LifecycleFailure)
      → AllStarted base run (service_starts index)
      → verdict d (service_start index) o ≡ err f
      → let called : Run = record run {
        events = run.events ++ event (service_start index) o ∷ [];
      } in
        let (failed, next) = fail_service behaviour d f index called in
        Undone d base next (service_starts (index + suc remaining)) [] f failed
        × (next.snapshot.state ≡ RuntimeHostState.failed)
  unfolding fail_service set_runtime_host_state
  fail_service_lem index remaining run o f a v =
      let called : Run = record run { events = run.events ++ event (service_start index) o ∷ [] } in
      let (first, cleaned) = stop_timed_out_service behaviour d f index called in
      let (t, _) = stop_timed_out_service_lem behaviour d index o called f v in
      let (u, _) = stop_started_services_lem behaviour d index cleaned in
      let all = Trace-append t u in
      let (rest, e) = service_starts-split (suc index) remaining in
      (
        Undone-failed {called = called} a.events (service_start index) o rest
            (ap (λ es. es ++ event (service_start index) o ∷ []) a.extended
              ∙ append_assoc base.events a.events (event (service_start index) o ∷ []))
            (ap (λ cs. cs ++ service_start index ∷ rest) a.made
              ∙ sym (append_assoc (service_starts index) (service_start index ∷ []) rest)
              ∙ e
              ∙ ap service_starts
                  (let q : suc index + remaining ≡ index + suc remaining = omega arith in q))
            a.succeeded v
            (record {
              events = all.events;
              extended = all.extended;
              made = all.made;
              reported = all.reported;
            })
            (append-nil _
              ∙ ap (λ cs. stop_if (needs_stop o) (service_start index) ++ cs)
                  (sym (stops_of-service_starts index) ∙ ap stops_of (sym a.made))),
        refl,
      )

  pub start_services_lem :
      (remaining index : ℕ) (run : Run)
      → AllStarted base run (service_starts index)
      → Ends d behaviour base
          (service_starts (index + remaining))
          []
          RuntimeHostState.failed
          (start_services behaviour d remaining index run)
  unfolding start_services invoke_owner
  start_services_lem zero index run a =
      subst (AllStarted base run) (ap service_starts (let q : index ≡ index + 0 = omega arith in q))
        a
  start_services_lem (suc remaining) index run a =
      let o = behaviour run (service_start index) in
      let called : Run = record run { events = run.events ++ event (service_start index) o ∷ [] } in
      elim (Result-cases (verdict d (service_start index) o)) [
        | inl (_, e) ↦
            rw (e, start_services)
              (subst
                (λ plan.
                  Ends d behaviour base plan [] RuntimeHostState.failed
                    (start_services behaviour d remaining (suc index) called))
                (ap service_starts
                  (let q : suc index + remaining ≡ index + suc remaining = omega arith in q))
                (start_services_lem remaining (suc index) called
                  (AllStarted-next (service_start index) o a refl (verdict-ok d _ o e))))
        | inr (f, e) ↦ rw (e, start_services) (fail_service_lem index remaining run o f a e)
      ]

-- The Cards of one Deck, once all services run.
module _ (behaviour : Behaviour) (d : ℕ) (base : Run) (services : ℕ) (deck : DeckOwner)
    (same : length deck.card_instance_ids ≡ length deck.lock.cards) (state : RuntimeHostState) where
  abbrev card_plan : ℕ → List Call
  card_plan n = service_starts services ++ card_starts deck n

  stops_of-plan :
      (n : ℕ)
      → n ≤ length deck.lock.cards
      → stops_of (card_plan n) ≡ card_stops deck.lock.cards n ++ service_stops services
  stops_of-plan n h =
      stops_of-append (service_starts services) (card_starts deck n)
      ∙ ap₂ (λ x y. x ++ y) (stops_of-card_starts deck n h same) (stops_of-service_starts services)

  -- The next start of the plan.
  card_plan-suc :
      (index : ℕ) (c : CardContext)
      → context deck index ≡ some c
      → card_plan index ++ card_start index c ∷ [] ≡ card_plan (suc index)
  card_plan-suc index c e =
      append_assoc (service_starts services) (card_starts deck index) (card_start index c ∷ [])
      ∙ rw e refl

  fail_card_lem :
      (index remaining : ℕ) (c : CardContext) (run called : Run) (o : Outcome)
      (f : LifecycleFailure)
      → suc index + remaining ≤ length deck.lock.cards
      → context deck index ≡ some c
      → AllStarted base run (card_plan index)
      → called.events ≡ run.events ++ event (card_start index c) o ∷ []
      → called.snapshot.state ≡ state
      → verdict d (card_start index c) o ≡ err f
      → (started : Started behaviour d) × (fail_card behaviour d deck f index c.card_key called
          ≡ some started)
        × Ends d behaviour base
            (card_plan (index + suc remaining))
            (service_stops services)
            state
            started
  unfolding fail_card set_deck_run_state set_card_state
  fail_card_lem index remaining c run called o f h at a extended kept v =
      let marked = card_state index CardInstanceState.failed called in
      let (first, cleaned) = stop_timed_out_card behaviour d f index c.card_key marked in
      let (t, kept_first) = stop_timed_out_card_lem behaviour d index c o marked f v in
      let (failed, last, q, u, kept_last) =
        stop_started_cards_lem behaviour d deck.lock.cards index cleaned (omega arith) in
      let all = Trace-append t u in
      let (rest, e) = card_starts-split deck (suc index) remaining in
      (
        (err (f, first ++ failed), run_state DeckRunState.failed last),
        rw (q, fail_card) refl,
        (
          Undone-failed {called = called} a.events (card_start index c) o rest
              (extended
                ∙ ap (λ es. es ++ event (card_start index c) o ∷ []) a.extended
                ∙ append_assoc base.events a.events (event (card_start index c) o ∷ []))
              (ap (λ cs. cs ++ card_start index c ∷ rest) a.made
                ∙ sym (append_assoc (card_plan index) (card_start index c ∷ []) rest)
                ∙ ap (λ cs. cs ++ rest) (card_plan-suc index c at)
                ∙ append_assoc (service_starts services) (card_starts deck (suc index)) rest
                ∙ ap (λ cs. service_starts services ++ cs) e
                ∙ ap card_plan
                    (let q : suc index + remaining ≡ index + suc remaining = omega arith in q))
              a.succeeded v
              (record {
                events = all.events;
                extended = all.extended;
                made = all.made;
                reported = all.reported;
              })
              (append_assoc (stop_if (needs_stop o) (card_start index c))
                  (card_stops deck.lock.cards index) (service_stops services)
                ∙ ap (λ cs. stop_if (needs_stop o) (card_start index c) ++ cs)
                    (sym (stops_of-plan index (omega arith)) ∙ ap stops_of (sym a.made))),
          kept_last ∙ kept_first ∙ kept,
        ),
      )

  pub start_cards_lem :
      (remaining index : ℕ) (run : Run)
      → index + remaining ≤ length deck.lock.cards
      → run.snapshot.state ≡ state
      → AllStarted base run (card_plan index)
      → (started : Started behaviour d) × (start_cards behaviour d deck remaining index run
          ≡ some started)
        × Ends d behaviour base
            (card_plan (index + remaining))
            (service_stops services)
            state
            started
  unfolding start_cards invoke_owner set_card_state
  start_cards_lem zero index run h kept a = (
    (ok tt, run),
    refl,
    subst (AllStarted base run) (ap card_plan (let q : index ≡ index + 0 = omega arith in q)) a,
  )
  start_cards_lem (suc remaining) index run h kept a =
      let (card, id, e, at) = context-some deck index (omega arith) same in
      let c : CardContext = record {
        card_instance_id = id;
        card_key = card.key;
        definition = card.definition;
      } in
      let starting = card_state index CardInstanceState.starting run in
      let o = behaviour starting (card_start index c) in
      let called : Run = record starting {
        events = run.events ++ event (card_start index c) o ∷ [];
      } in
      elim (Result-cases (verdict d (card_start index c) o)) [
        | inl (_, fine) ↦
            rw (at, start_cards, fine)
              (subst
                (λ plan.
                  (started : Started behaviour d) × (start_cards behaviour d deck remaining
                      (suc index) (card_state index CardInstanceState.ready called)
                    ≡ some started)
                  × Ends d behaviour base plan (service_stops services) state started)
                (ap card_plan
                  (let q : suc index + remaining ≡ index + suc remaining = omega arith in q))
                (start_cards_lem remaining (suc index)
                  (card_state index CardInstanceState.ready called) (omega arith) kept
                  (subst (AllStarted base (card_state index CardInstanceState.ready called))
                    (card_plan-suc index c at)
                    (AllStarted-next (card_start index c) o a refl (verdict-ok d _ o fine)))))
        | inr (f, wrong) ↦
            rw (at, start_cards, wrong)
              (fail_card_lem index remaining c run called o f (omega arith) at a refl kept wrong)
      ]

-- ===== src/Runtime/Order.antt =====
-- The order in which the host of crates/paraegox-runtime/src/host.rs starts and stops what it owns.
use para_egox.Prelude.{
  ℕ, ◌+◌, ◌≡◌, ◌≢◌, refl, sym, ◌∙◌, ap, Option, none, some, List, [], ◌++◌, arith, ok, err, length,
  inl, inr, subst, Option-cases,
}
use mathlib.Core.List.{append-nil}
use para_egox.Runtime.Status.{
  RuntimeHostState, DeckRunState, set_runtime_host_state, set_deck_run_state,
}
use para_egox.Runtime.Deck.{DeckOwner}
use para_egox.Runtime.Host.{
  LifecycleFailure, invalid_transition, start_failed, stop_failed, Call, Run, Behaviour,
  RuntimeHost, host_state, run_state,
}
use para_egox.Runtime.Lifecycle.{
  Started, Ended, start, start_from, services_started, start_owners, start_services, start_deck,
  deck_started, stop_started_services,
}
use para_egox.Runtime.Trace.{Trace, service_starts, service_stops, card_starts, card_stops}
use para_egox.Runtime.Stops.{stop_started_services_lem}
use para_egox.Runtime.Undo.{Undone, Undone-plan, Undone-rest}
use para_egox.Runtime.Starts.{AllStarted, Ends, start_services_lem, start_cards_lem}

-- One implementation and one instance for each Card.
abbrev pub IsWhole : Option DeckOwner → Type 0
IsWhole none = Unit {0}
IsWhole (some deck) =
    (length deck.implementations ≡ length deck.lock.cards)
    × (length deck.card_instance_ids ≡ length deck.lock.cards)

abbrev pub deck_starts : Option DeckOwner → List Call
deck_starts none = []
deck_starts (some deck) = card_starts deck (length deck.implementations)

abbrev pub deck_stops : Option DeckOwner → List Call
deck_stops none = []
deck_stops (some deck) = card_stops deck.lock.cards (length deck.implementations)

-- The services in order, and then the Cards in order.
abbrev pub start_plan : RuntimeHost → List Call
start_plan host = service_starts host.core_services ++ deck_starts host.deck

-- The Cards from the last to the first, and then the services from the last to the first.
abbrev pub stop_plan : RuntimeHost → List Call
stop_plan host = deck_stops host.deck ++ service_stops host.core_services

abbrev pub StartEnds : RuntimeHost → Ended → Type 0
StartEnds host (ok _, next) =
    AllStarted host.run next (start_plan host) × (next.snapshot.state ≡ RuntimeHostState.ready)
StartEnds host (err (start_failed f failed), next) =
    Undone host.lifecycle_timeout host.run next (start_plan host) [] f failed
    × (next.snapshot.state ≡ RuntimeHostState.failed)
StartEnds host (err (stop_failed failed), next) = ⊥
StartEnds host (err (invalid_transition action state), next) = ⊥

abbrev pub StopEnds : RuntimeHost → Ended → Type 0
StopEnds host (ok _, next) =
    Trace host.lifecycle_timeout host.run next (stop_plan host) []
    × (next.snapshot.state ≡ RuntimeHostState.stopped)
StopEnds host (err (stop_failed failed), next) =
    Trace host.lifecycle_timeout host.run next (stop_plan host) failed
    × (failed ≢ [])
    × (next.snapshot.state ≡ RuntimeHostState.failed)
StopEnds host (err (start_failed f failed), next) = ⊥
StopEnds host (err (invalid_transition action state), next) = ⊥

-- The same calls, from and to runs with other snapshots.
AllStarted-run :
    {base run next : Run} {plan : List Call}
    → next.events ≡ run.events
    → AllStarted base run plan
    → AllStarted base next plan
AllStarted-run {base} {run} {next} {plan} h a = record {
  events = a.events;
  extended = h ∙ a.extended;
  made = a.made;
  succeeded = a.succeeded;
}

Undone-run :
    {d : ℕ} {base run next : Run} {plan left : List Call} {f : LifecycleFailure}
    {fs : List LifecycleFailure}
    → next.events ≡ run.events
    → Undone d base run plan left f fs
    → Undone d base next plan left f fs
Undone-run {d} {base} {run} {next} {plan} {left} {f} {fs} h u = record {
  before = u.before;
  last_start = u.last_start;
  stops = u.stops;
  rest = u.rest;
  extended = h ∙ u.extended;
  planned = u.planned;
  succeeded = u.succeeded;
  refusal = u.refusal;
  undone = u.undone;
  reported = u.reported;
}

module _ (behaviour : Behaviour) (host : RuntimeHost) where
  deck_started_lem :
      (deck : DeckOwner) (state : RuntimeHostState)
      (started : Started behaviour host.lifecycle_timeout)
      → host.deck ≡ some deck
      → Ends host.lifecycle_timeout behaviour host.run
          (service_starts host.core_services ++ card_starts deck (length deck.implementations))
          (service_stops host.core_services)
          state
          started
      → StartEnds host (deck_started behaviour host started)
  unfolding set_runtime_host_state set_deck_run_state
  deck_started_lem deck state (ok _, run) e a = (rw e (AllStarted-run {run = run} refl a), refl)
  deck_started_lem deck state (err (f, failed), run) e (u, kept) =
      let (t, _) =
        stop_started_services_lem behaviour host.lifecycle_timeout host.core_services run in
      (
        rw e (
            Undone-run
              {run = (stop_started_services behaviour host.lifecycle_timeout host.core_services
                run).1}
              refl (Undone-rest u t)),
        refl,
      )

  start_deck_lem :
      (run : Run)
      → IsWhole host.deck
      → AllStarted host.run run (service_starts host.core_services)
      → (ended : Ended) × (start_deck behaviour host run ≡ some ended) × StartEnds host ended
  unfolding start_deck set_runtime_host_state set_deck_run_state
  start_deck_lem run whole a = elim (Option-cases host.deck) [
    | inl e ↦ (
      (ok tt, host_state RuntimeHostState.ready run),
      rw (e, start_deck) refl,
      (
        rw e (
            subst (AllStarted host.run (host_state RuntimeHostState.ready run))
              (sym (append-nil (service_starts host.core_services)))
              (AllStarted-run {run = run} refl a)),
        refl,
      ),
    )
    | inr (deck, e) ↦
        let (many, same) = subst IsWhole e whole in
        let (started, q, ends) =
          start_cards_lem behaviour host.lifecycle_timeout host.run host.core_services deck same
            run.snapshot.state (length deck.implementations) 0 (run_state DeckRunState.starting run)
            (omega arith) refl
            (AllStarted-run {run = run} refl (
              subst (AllStarted host.run run) (sym (append-nil (service_starts host.core_services)))
                a)) in
        (
          deck_started behaviour host started,
          rw (e, start_deck, q) refl,
          deck_started_lem deck run.snapshot.state started e (
              subst
                (λ n.
                  Ends host.lifecycle_timeout behaviour host.run
                    (service_starts host.core_services ++ card_starts deck n)
                    (service_stops host.core_services) run.snapshot.state started)
                (let z : 0 + length deck.implementations ≡ length deck.implementations =
                    omega arith in
                  z)
                ends),
        )
  ]

  services_started_lem :
      (started : Started behaviour host.lifecycle_timeout)
      → IsWhole host.deck
      → Ends host.lifecycle_timeout behaviour host.run
          (service_starts host.core_services)
          []
          RuntimeHostState.failed
          started
      → (ended : Ended) × (services_started behaviour host started ≡ some ended)
        × StartEnds host ended
  unfolding services_started
  services_started_lem (ok _, run) whole a = start_deck_lem run whole a
  services_started_lem (err (f, failed), run) whole (u, marked) =
      ((err (start_failed f failed), run), refl, (Undone-plan (deck_starts host.deck) u, marked))

  start_owners_lem :
      (run : Run)
      → IsWhole host.deck
      → run.events ≡ host.run.events
      → (ended : Ended) × (start_owners behaviour host run ≡ some ended) × StartEnds host ended
  unfolding start_owners
  start_owners_lem run whole same =
      let none_yet : AllStarted host.run run [] = record {
        events = [];
        extended = same ∙ sym (append-nil host.run.events);
        made = refl;
        succeeded = tt;
      } in
      services_started_lem
        (start_services behaviour host.lifecycle_timeout host.core_services 0 run) whole
        (subst
          (λ n.
            Ends host.lifecycle_timeout behaviour host.run (service_starts n) []
              RuntimeHostState.failed
              (start_services behaviour host.lifecycle_timeout host.core_services 0 run))
          (let z : 0 + host.core_services ≡ host.core_services = omega arith in z)
          (start_services_lem behaviour host.lifecycle_timeout host.run host.core_services 0 run
            none_yet))

  -- A host that was created and whose Deck is whole starts without a panic. Either every start, of the
  -- services in order and then of the Cards in order, succeeded, and the host is ready; or one start
  -- failed, those before it succeeded, none after it was made, the host stopped, the last one first,
  -- each owner that started and the one that timed out, the error reports that failure and those of
  -- the stops, and the host has failed.
  pub start_lem :
      IsWhole host.deck
      → host.run.snapshot.state ≡ RuntimeHostState.created
      → (ended : Ended) × (start behaviour host ≡ some ended) × StartEnds host ended
  unfolding start
  start_lem whole created =
      let (ended, q, ends) =
        start_owners_lem (host_state RuntimeHostState.starting host.run) whole refl in
      (ended, ap (start_from behaviour host) created ∙ q, ends)

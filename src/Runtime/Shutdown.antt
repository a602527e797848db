-- ===== src/Runtime/Shutdown.antt =====
-- How the host of crates/paraegox-runtime/src/host.rs stops all that it owns.
use para_egox.Prelude.{
  ◌≡◌, refl, sym, ◌∙◌, ap, some, List, [], ◌∷◌, ◌++◌, arith, length, inl, inr, subst, Option-cases,
}
use mathlib.Core.List.{append-nil}
use para_egox.Runtime.Status.{
  RuntimeHostState, DeckRunState, set_runtime_host_state, set_deck_run_state,
}
use para_egox.Runtime.Host.{LifecycleFailure, Run, Behaviour, RuntimeHost, host_state, run_state}
use para_egox.Runtime.Lifecycle.{
  Ended, stop, stop_from, stop_owners, stop_deck, stop_result, state_of_failures,
  stop_started_services,
}
use para_egox.Runtime.Trace.{Trace, Trace-append}
use para_egox.Runtime.Stops.{stop_started_services_lem, stop_started_cards_lem}
use para_egox.Runtime.Order.{IsWhole, StopEnds, deck_stops, stop_plan}

module _ (behaviour : Behaviour) (host : RuntimeHost) where
  stop_result_lem :
      (failed : List LifecycleFailure) (run : Run)
      → Trace host.lifecycle_timeout host.run run (stop_plan host) failed
      → StopEnds host (stop_result behaviour host failed run)
  unfolding set_runtime_host_state
  stop_result_lem [] run t = (
    record { events = t.events; extended = t.extended; made = t.made; reported = t.reported },
    refl,
  )
  stop_result_lem (f ∷ failed) run t = (
    record { events = t.events; extended = t.extended; made = t.made; reported = t.reported },
    (λ h. ground arith),
    refl,
  )

  stop_deck_lem :
      (run : Run)
      → IsWhole host.deck
      → run.events ≡ host.run.events
      → (failed : List LifecycleFailure) × (last : Run) × (stop_deck behaviour host run
          ≡ some (failed, last))
        × Trace host.lifecycle_timeout host.run last (deck_stops host.deck) failed
  unfolding stop_deck set_deck_run_state
  stop_deck_lem run whole same = elim (Option-cases host.deck) [
    | inl e ↦ (
      [],
      run,
      rw (e, stop_deck) refl,
      rw e (record {
        events = [];
        extended = same ∙ sym (append-nil host.run.events);
        made = refl;
        reported = refl;
      }),
    )
    | inr (deck, e) ↦
        let (many, instances) = subst IsWhole e whole in
        let (failed, last, q, t, kept) =
          stop_started_cards_lem behaviour host.lifecycle_timeout deck.lock.cards
            (length deck.implementations) (run_state DeckRunState.stopping run) (omega arith) in
        (
          failed,
          run_state (state_of_failures behaviour host failed) last,
          rw (e, stop_deck, q) refl,
          record {
            events = t.events;
            extended = t.extended ∙ ap (λ es. es ++ t.events) same;
            made = t.made ∙ ap deck_stops (sym e);
            reported = t.reported;
          },
        )
  ]

  stop_owners_lem :
      (run : Run)
      → IsWhole host.deck
      → run.events ≡ host.run.events
      → (ended : Ended) × (stop_owners behaviour host run ≡ some ended) × StopEnds host ended
  unfolding stop_owners
  stop_owners_lem run whole same =
      let (failed, stopped, q, t) = stop_deck_lem run whole same in
      let (more, last) =
        stop_started_services behaviour host.lifecycle_timeout host.core_services stopped in
      let (u, _) =
        stop_started_services_lem behaviour host.lifecycle_timeout host.core_services stopped in
      (
        stop_result behaviour host (failed ++ more) last,
        rw (q, stop_owners) refl,
        stop_result_lem (failed ++ more) last (Trace-append t u),
      )

  -- A host that is ready and whose Deck is whole stops without a panic: whatever the owners answer, it
  -- stops the Cards from the last to the first and then the services from the last to the first, each
  -- once, and makes no other call. It ends as stopped if none of these stops failed; otherwise it has
  -- failed, and the error has their failures in order.
  pub stop_lem :
      IsWhole host.deck
      → host.run.snapshot.state ≡ RuntimeHostState.ready
      → (ended : Ended) × (stop behaviour host ≡ some ended) × StopEnds host ended
  unfolding stop
  stop_lem whole ready =
      let (ended, q, ends) =
        stop_owners_lem (host_state RuntimeHostState.stopping host.run) whole refl in
      (ended, ap (stop_from behaviour host) ready ∙ q, ends)

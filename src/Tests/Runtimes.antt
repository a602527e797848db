-- ===== src/Tests/Runtimes.antt =====
-- Runs of the host of crates/paraegox-runtime.
use para_egox.Prelude.{◌≡◌, ◌≤◌, ◌↔◌, refl, some, List, [], ◌∷◌, ok, list_beq, nat_eq, list_eq}
use para_egox.Text.{text}
use para_egox.Deck.{Card, DeckLock}
use para_egox.Runtime.Status.{
  RuntimeHostState, RuntimeHostIdentity, DeckRunState, CardInstanceState, set_runtime_host_state,
  set_deck_run_state, set_card_state, set_state_at,
}
use para_egox.Runtime.Deck.{
  CardImplementation, DeckLaunch, new_launch, check_implementations, context,
}
use para_egox.Runtime.Host.{
  Behaviour, RuntimeHost, Run, finished, elapsed, service_start, card_start, max_core_services,
  invoke_owner, verdict,
}
use para_egox.Runtime.Lifecycle.{
  build, built, Ended, start, stop, start_owners, services_started, start_services, start_deck,
  start_cards,
}
use para_egox.Runtime.Trace.{stops_of}
use para_egox.Runtime.Order.{IsWhole, StartEnds, StopEnds, start_plan, stop_plan, start_lem}
use para_egox.Runtime.Shutdown.{stop_lem}
use para_egox.Runtime.Launch.{cards_of, new_launch_iff, build-IsWhole, start-stop}

abbrev alice : Card
alice = record { key = text "alice"; definition = text "agent@1" }

abbrev lock : DeckLock
lock = record { key = text "solo"; cards = alice ∷ []; digest = text "00" }

abbrev implementations : List CardImplementation
implementations = record { card_key = text "alice"; definition = text "agent@1" } ∷ []

abbrev launch : DeckLaunch
launch = record { lock = lock; implementations = implementations }

abbrev identity : RuntimeHostIdentity
identity = record { runtime_host_id = text "host"; epoch = 1 }

abbrev host : RuntimeHost
host = built 7 (λ i. i) identity 2 (some launch)

-- The Card does not answer its start in time.
abbrev slow_card : Behaviour
slow_card run (card_start i c) = elapsed
slow_card run call = finished

abbrev willing : Behaviour
willing run call = finished

new_launch_iff_example :
    (new_launch lock implementations ≡ ok launch) ↔ (cards_of implementations ≡ lock.cards)
new_launch_iff_example = new_launch_iff lock implementations

accepted : new_launch lock implementations ≡ ok launch
unfolding new_launch check_implementations list_beq
accepted = refl

builds : build 7 (λ i. i) identity 2 (some launch) ≡ ok host
unfolding build
builds = refl

build-IsWhole_example :
    IsWhole host.deck
    × (host.core_services ≤ max_core_services)
    × (host.run.events ≡ [])
    × (host.run.snapshot.state ≡ RuntimeHostState.created)
build-IsWhole_example =
    build-IsWhole 7 (λ i. i) identity 2 lock implementations launch host accepted builds

start_lem_example : (ended : Ended) × (start slow_card host ≡ some ended) × StartEnds host ended
start_lem_example = start_lem slow_card host (refl, refl) refl

abbrev ready_host : RuntimeHost
ready_host = record host {
  run = record host.run { snapshot = record host.run.snapshot { state = RuntimeHostState.ready } };
}

stop_lem_example :
    (ended : Ended) × (stop willing ready_host ≡ some ended) × StopEnds ready_host ended
stop_lem_example = stop_lem willing ready_host (refl, refl) refl

-- What the host leaves behind when all of its owners start.
abbrev run_of_ready : Run
run_of_ready = record {
  snapshot = record {
    identity = identity;
    state = RuntimeHostState.ready;
    deck_run = some (record {
      deck_run_id = 7;
      deck_key = text "solo";
      lock_digest = text "00";
      generation = 1;
      state = DeckRunState.ready;
      cards =
          record {
            card_instance_id = 0;
            key = text "alice";
            definition = text "agent@1";
            generation = 1;
            state = CardInstanceState.ready;
          }
          ∷ [];
    });
  };
  events =
      record { call = service_start 0; outcome = finished }
      ∷ record { call = service_start 1; outcome = finished }
      ∷ record {
        call =
            card_start 0 (record {
              card_instance_id = 0;
              card_key = text "alice";
              definition = text "agent@1";
            });
        outcome = finished;
      }
      ∷ [];
}

host_starts : start willing host ≡ some (ok tt, run_of_ready)
unfolding start start_owners start_services services_started start_deck start_cards invoke_owner
    verdict context set_runtime_host_state set_deck_run_state set_card_state set_state_at
host_starts = refl

start-stop_example :
    ((ended : Ended) × (stop willing (record host { run = run_of_ready }) ≡ some ended)
      × StopEnds (record host { run = run_of_ready }) ended)
    × (stop_plan host ≡ stops_of (start_plan host))
start-stop_example = start-stop willing host run_of_ready (refl, refl) refl host_starts

-- ===== src/Runtime/Lifecycle.antt =====
-- crates/paraegox-runtime/src/host.rs: how the host builds, starts and stops what it owns. `none` is
-- the panic of an index out of range.
use para_egox.Prelude.{
  ℕ, zero, suc, Option, none, some, List, [], ◌∷◌, ◌++◌, ltb, if◌then◌else◌, Result, ok, err,
  length, get_elem?,
}
use para_egox.Text.{Text}
use para_egox.Deck.{Card}
use para_egox.Runtime.Status.{
  RuntimeHostState, RuntimeHostIdentity, DeckRunState, CardInstanceState, CardInstanceSnapshot,
  DeckRunSnapshot,
}
use para_egox.Runtime.Deck.{DeckLaunch, DeckOwner, context}
use para_egox.Runtime.Host.{
  max_core_services, owner_lifecycle_timeout, first_generation, start_action, stop_action,
  LifecycleFailure, RuntimeHostError, invalid_transition, start_failed, stop_failed,
  RuntimeHostBuildError, too_many_core_services, service_start, service_stop, card_start, card_stop,
  Run, Behaviour, RuntimeHost, invoke_owner, is_timeout, pushed, host_state, run_state, card_state,
  after_stop,
}

-- `new_id` gives the fresh identity of each Card's instance.
abbrev pub snapshot_cards : (ℕ → ℕ) → ℕ → List Card → List CardInstanceSnapshot
snapshot_cards new_id index [] = []
snapshot_cards new_id index (card ∷ cards) =
    record {
      card_instance_id = new_id index;
      key = card.key;
      definition = card.definition;
      generation = first_generation;
      state = CardInstanceState.created;
    }
    ∷ snapshot_cards new_id (suc index) cards

abbrev pub instance_ids : (ℕ → ℕ) → ℕ → List Card → List ℕ
instance_ids new_id index [] = []
instance_ids new_id index (card ∷ cards) = new_id index ∷ instance_ids new_id (suc index) cards

abbrev pub deck_owner : (ℕ → ℕ) → Option DeckLaunch → Option DeckOwner
deck_owner new_id none = none
deck_owner new_id (some launch) = some (record {
  lock = launch.lock;
  implementations = launch.implementations;
  card_instance_ids = instance_ids new_id 0 launch.lock.cards;
})

abbrev pub first_run : ℕ → (ℕ → ℕ) → Option DeckLaunch → Option DeckRunSnapshot
first_run deck_run_id new_id none = none
first_run deck_run_id new_id (some launch) = some (record {
  deck_run_id = deck_run_id;
  deck_key = launch.lock.key;
  lock_digest = launch.lock.digest;
  generation = first_generation;
  state = DeckRunState.created;
  cards = snapshot_cards new_id 0 launch.lock.cards;
})

abbrev pub built : ℕ → (ℕ → ℕ) → RuntimeHostIdentity → ℕ → Option DeckLaunch → RuntimeHost
built deck_run_id new_id identity core_services deck_launch = record {
  core_services = core_services;
  deck = deck_owner new_id deck_launch;
  lifecycle_timeout = owner_lifecycle_timeout;
  run = record {
    snapshot = record {
      identity = identity;
      state = RuntimeHostState.created;
      deck_run = first_run deck_run_id new_id deck_launch;
    };
    events = [];
  };
}

-- `RuntimeHost::build`.
unfoldable pub build :
    ℕ
    → (ℕ → ℕ)
    → RuntimeHostIdentity
    → ℕ
    → Option DeckLaunch
    → Result RuntimeHostBuildError RuntimeHost
build deck_run_id new_id identity core_services deck_launch =
    if ltb max_core_services core_services
    then err (too_many_core_services core_services max_core_services)
    else ok (built deck_run_id new_id identity core_services deck_launch)

module _ (behaviour : Behaviour) (deadline : ℕ) where
  unfoldable pub stop_started_services : ℕ → Run → List LifecycleFailure × Run
  stop_started_services zero run = ([], run)
  stop_started_services (suc index) run =
      let (result, called) = invoke_owner behaviour deadline (service_stop index) run in
      let (failures, last) = stop_started_services index called in (pushed result failures, last)

  unfoldable pub stop_started_cards : List Card → ℕ → Run → Option (List LifecycleFailure × Run)
  stop_started_cards cards zero run = some ([], run)
  stop_started_cards cards (suc index) run = elim (get_elem? cards index) [
    | none ↦ none
    | some c ↦
        let (result, called) =
          invoke_owner behaviour deadline (card_stop index c.key)
            (card_state index CardInstanceState.stopping run) in
        elim (stop_started_cards cards index (card_state index (after_stop result) called)) [
          | none ↦ none
          | some (failures, last) ↦ some (pushed result failures, last)
        ]
  ]

  -- An owner whose start timed out is stopped itself.
  unfoldable pub stop_timed_out_service : LifecycleFailure → ℕ → Run → List LifecycleFailure × Run
  stop_timed_out_service f index run =
      if is_timeout f.kind
      then (let (result, called) = invoke_owner behaviour deadline (service_stop index) run in
          (pushed result [], called))
      else ([], run)

  unfoldable pub stop_timed_out_card :
      LifecycleFailure → ℕ → Text → Run → List LifecycleFailure × Run
  stop_timed_out_card f index key run =
      if is_timeout f.kind
      then (let (result, called) =
            invoke_owner behaviour deadline (card_stop index key)
              (card_state index CardInstanceState.stopping run) in
          (pushed result [], card_state index (after_stop result) called))
      else ([], run)

  -- What follows the failure of a service's start.
  unfoldable pub fail_service : LifecycleFailure → ℕ → Run → List LifecycleFailure × Run
  fail_service f index run =
      let (first, cleaned) = stop_timed_out_service f index run in
      let (failures, last) = stop_started_services index cleaned in
      (first ++ failures, host_state RuntimeHostState.failed (run_state DeckRunState.failed last))

  abbrev pub Started : Type 0
  Started = Result (LifecycleFailure × List LifecycleFailure) (Unit {0}) × Run

  -- The services from `index`, as many as the first number.
  unfoldable pub start_services : ℕ → ℕ → Run → Started
  start_services zero index run = (ok tt, run)
  start_services (suc remaining) index run =
      let (result, called) = invoke_owner behaviour deadline (service_start index) run in
      elim result [
        | ok _ ↦ start_services remaining (suc index) called
        | err f ↦ let (failures, last) = fail_service f index called in (err (f, failures), last)
      ]

  -- What follows the failure of a Card's start.
  unfoldable pub fail_card : DeckOwner → LifecycleFailure → ℕ → Text → Run → Option Started
  fail_card deck f index key run =
      let (first, cleaned) =
        stop_timed_out_card f index key (card_state index CardInstanceState.failed run) in
      elim (stop_started_cards deck.lock.cards index cleaned) [
        | none ↦ none
        | some (failures, last) ↦
            some (err (f, first ++ failures), run_state DeckRunState.failed last)
      ]

  unfoldable pub start_cards : DeckOwner → ℕ → ℕ → Run → Option Started
  start_cards deck zero index run = some (ok tt, run)
  start_cards deck (suc remaining) index run = elim (context deck index) [
    | none ↦ none
    | some c ↦
        let (result, called) =
          invoke_owner behaviour deadline (card_start index c)
            (card_state index CardInstanceState.starting run) in
        elim result [
          | ok _ ↦
              start_cards deck remaining (suc index)
                (card_state index CardInstanceState.ready called)
          | err f ↦ fail_card deck f index c.card_key called
        ]
  ]

abbrev pub Ended : Type 0
Ended = Result RuntimeHostError (Unit {0}) × Run

module _ (behaviour : Behaviour) (host : RuntimeHost) where
  abbrev pub deck_started : Started behaviour host.lifecycle_timeout → Ended
  deck_started (ok _, run) =
      (ok tt, host_state RuntimeHostState.ready (run_state DeckRunState.ready run))
  deck_started (err (f, failures), run) =
      let (more, last) =
        stop_started_services behaviour host.lifecycle_timeout host.core_services run in
      (err (start_failed f (failures ++ more)), host_state RuntimeHostState.failed last)

  unfoldable pub start_deck : Run → Option Ended
  start_deck run = elim host.deck [
    | none ↦ some (ok tt, host_state RuntimeHostState.ready run)
    | some deck ↦
        elim (start_cards behaviour host.lifecycle_timeout deck (length deck.implementations) 0
          (run_state DeckRunState.starting run)) [
            | none ↦ none
            | some started ↦ some (deck_started started)
          ]
  ]

  unfoldable pub services_started : Started behaviour host.lifecycle_timeout → Option Ended
  services_started (ok _, run) = start_deck run
  services_started (err (f, failures), run) = some (err (start_failed f failures), run)

  unfoldable pub start_owners : Run → Option Ended
  start_owners run =
      services_started (start_services behaviour host.lifecycle_timeout host.core_services 0 run)

  abbrev pub start_from : RuntimeHostState → Option Ended
  start_from RuntimeHostState.created = start_owners (host_state RuntimeHostState.starting host.run)
  start_from state = some (err (invalid_transition start_action state), host.run)

  -- `RuntimeHost::start`.
  unfoldable pub start : Option Ended
  start = start_from host.run.snapshot.state

  abbrev pub state_of_failures : List LifecycleFailure → DeckRunState
  state_of_failures [] = DeckRunState.stopped
  state_of_failures (f ∷ failures) = DeckRunState.failed

  unfoldable pub stop_deck : Run → Option (List LifecycleFailure × Run)
  stop_deck run = elim host.deck [
    | none ↦ some ([], run)
    | some deck ↦
        elim (stop_started_cards behaviour host.lifecycle_timeout deck.lock.cards
          (length deck.implementations) (run_state DeckRunState.stopping run)) [
            | none ↦ none
            | some (failures, last) ↦ some (failures, run_state (state_of_failures failures) last)
          ]
  ]

  abbrev pub stop_result : List LifecycleFailure → Run → Ended
  stop_result [] run = (ok tt, host_state RuntimeHostState.stopped run)
  stop_result (f ∷ failures) run =
      (err (stop_failed (f ∷ failures)), host_state RuntimeHostState.failed run)

  unfoldable pub stop_owners : Run → Option Ended
  stop_owners run = elim (stop_deck run) [
    | none ↦ none
    | some (failures, stopped) ↦
        let (more, last) =
          stop_started_services behaviour host.lifecycle_timeout host.core_services stopped in
        some (stop_result (failures ++ more) last)
  ]

  abbrev pub stop_from : RuntimeHostState → Option Ended
  stop_from RuntimeHostState.ready = stop_owners (host_state RuntimeHostState.stopping host.run)
  stop_from state = some (err (invalid_transition stop_action state), host.run)

  -- `RuntimeHost::stop`.
  unfoldable pub stop : Option Ended
  stop = stop_from host.run.snapshot.state

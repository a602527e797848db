-- ===== src/Runtime/Host.antt =====
-- crates/paraegox-runtime/src/host.rs: building, starting and stopping the host. What an owner does
-- when it is called is the environment: any function of what happened so far, and of the snapshot.
use para_egox.Prelude.{ℕ, Bool, true, false, Option, List, [], ◌∷◌, ◌++◌, Result, ok, err}
use para_egox.Text.{Text}
use para_egox.Runtime.Status.{
  RuntimeHostState, DeckRunState, CardInstanceState, RuntimeHostSnapshot, set_runtime_host_state,
  set_deck_run_state, set_card_state,
}
use para_egox.Runtime.Deck.{CardContext, DeckOwner}

abbrev pub max_core_services : ℕ
max_core_services = 16

-- In nanoseconds.
abbrev pub owner_lifecycle_timeout : ℕ
owner_lifecycle_timeout = 10000000000

abbrev pub first_generation : ℕ
first_generation = 1

pub data LifecycleOwner : Type 0 where
  core_service : ℕ → LifecycleOwner
  card : Text → LifecycleOwner

pub data LifecycleAction : Type 0 where
  start_action stop_action : LifecycleAction

pub data LifecycleFailureKind : Type 0 where
  timed_out : ℕ → LifecycleFailureKind
  owner_error : Text → LifecycleFailureKind

pub record LifecycleFailure : Type 0 where
  pub owner : LifecycleOwner
  pub action : LifecycleAction
  pub kind : LifecycleFailureKind

pub data RuntimeHostError : Type 0 where
  invalid_transition : LifecycleAction → RuntimeHostState → RuntimeHostError
  start_failed : LifecycleFailure → List LifecycleFailure → RuntimeHostError
  stop_failed : List LifecycleFailure → RuntimeHostError

pub data RuntimeHostBuildError : Type 0 where
  too_many_core_services : ℕ → ℕ → RuntimeHostBuildError

-- A call of an owner, by its place among the services or the implementations.
pub data Call : Type 0 where
  service_start service_stop : ℕ → Call
  card_start : ℕ → CardContext → Call
  card_stop : ℕ → Text → Call

-- What `timeout` gives: the owner's answer, or that the deadline passed.
pub data Outcome : Type 0 where
  finished elapsed : Outcome
  refused : Text → Outcome

pub record Event : Type 0 where
  pub call : Call
  pub outcome : Outcome

-- The shared snapshot, and the calls made so far.
pub record Run : Type 0 where
  pub snapshot : RuntimeHostSnapshot
  pub events : List Event

abbrev pub Behaviour : Type 0
Behaviour = Run → Call → Outcome

pub record RuntimeHost : Type 0 where
  pub core_services : ℕ
  pub deck : Option DeckOwner
  pub lifecycle_timeout : ℕ
  pub run : Run

abbrev pub owner_of : Call → LifecycleOwner
owner_of (service_start i) = core_service i
owner_of (service_stop i) = core_service i
owner_of (card_start i c) = card c.card_key
owner_of (card_stop i key) = card key

abbrev pub action_of : Call → LifecycleAction
action_of (service_start i) = start_action
action_of (service_stop i) = stop_action
action_of (card_start i c) = start_action
action_of (card_stop i key) = stop_action

abbrev pub failure : Call → LifecycleFailureKind → LifecycleFailure
failure call kind = record { owner = owner_of call; action = action_of call; kind = kind }

unfoldable pub verdict : ℕ → Call → Outcome → Result LifecycleFailure (Unit {0})
verdict deadline call finished = ok tt
verdict deadline call (refused source) = err (failure call (owner_error source))
verdict deadline call elapsed = err (failure call (timed_out deadline))

unfoldable pub invoke_owner : Behaviour → ℕ → Call → Run → Result LifecycleFailure (Unit {0}) × Run
invoke_owner behaviour deadline call run =
    let outcome = behaviour run call in
    (
      verdict deadline call outcome,
      record run { events = run.events ++ record { call = call; outcome = outcome } ∷ [] },
    )

abbrev pub is_timeout : LifecycleFailureKind → Bool
is_timeout (timed_out deadline) = true
is_timeout (owner_error source) = false

-- The failure of a call before those of the later ones.
abbrev pub pushed :
    Result LifecycleFailure (Unit {0}) → List LifecycleFailure → List LifecycleFailure
pushed (ok _) failures = failures
pushed (err f) failures = f ∷ failures

abbrev pub host_state : RuntimeHostState → Run → Run
host_state state run = record run { snapshot = set_runtime_host_state state run.snapshot }

abbrev pub run_state : DeckRunState → Run → Run
run_state state run = record run { snapshot = set_deck_run_state state run.snapshot }

abbrev pub card_state : ℕ → CardInstanceState → Run → Run
card_state index state run = record run { snapshot = set_card_state index state run.snapshot }

abbrev pub after_stop : Result LifecycleFailure (Unit {0}) → CardInstanceState
after_stop (ok _) = CardInstanceState.stopped
after_stop (err f) = CardInstanceState.failed

-- ===== src/Runtime/Launch.antt =====
-- Which Decks crates/paraegox-runtime launches, and the life of a host from its construction on.
use para_egox.Prelude.{
  ℕ, suc, ◌≤◌, ◌≡◌, ◌↔◌, refl, sym, ◌∙◌, ap, ap₂, Option, none, some, List, [], ◌∷◌, ◌++◌, arith,
  ok, length, subst, list_beq_iff, list_eq, nat_eq, ==_iff,
}
use mathlib.Core.List.{append-nil}
use para_egox.Deck.{Card, DeckLock}
use para_egox.Runtime.Status.{RuntimeHostState, RuntimeHostIdentity}
use para_egox.Runtime.Deck.{
  CardImplementation, DeckLaunch, DeckOwner, check_implementations, new_launch,
}
use para_egox.Runtime.Host.{Behaviour, RuntimeHost, Run, max_core_services}
use para_egox.Runtime.Lifecycle.{build, built, deck_owner, instance_ids, Ended, start, stop}
use para_egox.Runtime.Trace.{
  service_stops, stops_of, stops_of-append, stops_of-service_starts, service_starts, card_starts,
}
use para_egox.Runtime.Shutdown.{stop_lem}
use para_egox.Runtime.Undo.{stops_of-card_starts}
use para_egox.Runtime.Order.{
  IsWhole, StartEnds, StopEnds, start_plan, stop_plan, deck_starts, deck_stops, start_lem,
}

-- What an implementation says of the Card it is for.
abbrev pub cards_of : List CardImplementation → List Card
cards_of [] = []
cards_of (i ∷ is) = record { key = i.card_key; definition = i.definition } ∷ cards_of is

length-cards_of : (is : List CardImplementation) → length (cards_of is) ≡ length is
length-cards_of [] = refl
length-cards_of (i ∷ is) = ap suc (length-cards_of is)

checked :
    (n : ℕ) (cards : List Card) (is : List CardImplementation)
    → length is ≡ length cards
    → check_implementations n cards is ≡ ok tt
    → cards_of is ≡ cards
unfolding check_implementations
checked n [] [] e h = refl
checked n [] (i ∷ is) e h = absurd (omega arith)
checked n (c ∷ cards) [] e h = absurd (omega arith)
checked n (c ∷ cards) (i ∷ is) e h =
    ap₂ (λ x xs. x ∷ xs)
      (ap₂ (λ k d. let x : Card = record { key = k; definition = d } in x)
        (ground (arith, list_beq_iff i.card_key c.key))
        (ground (arith, list_beq_iff i.definition c.definition)))
      (checked (suc n) cards is (omega arith) (ground arith))

checks : (n : ℕ) (is : List CardImplementation) → check_implementations n (cards_of is) is ≡ ok tt
unfolding check_implementations
checks n [] = refl
checks n (i ∷ is) = ground (
  arith,
  checks (suc n) is,
  list_beq_iff i.card_key i.card_key,
  list_beq_iff i.definition i.definition,
)

-- A launch is accepted exactly when the implementations are, in order, for the Cards of the lock.
pub new_launch_iff :
    (lock : DeckLock) (is : List CardImplementation)
    → (new_launch lock is ≡ ok (record { lock = lock; implementations = is }))
      ↔ (cards_of is ≡ lock.cards)
unfolding new_launch
new_launch_iff lock is = (
  λ h.
      checked 0 lock.cards is (ground (arith, ==_iff (length is) (length lock.cards)))
        (ground arith),
  λ e.
      let agree = subst (λ cards. check_implementations 0 cards is ≡ ok tt) e (checks 0 is) in
      let count : length is ≡ length lock.cards = sym (length-cards_of is) ∙ ap length e in
      ground (arith, ==_iff (length is) (length lock.cards)),
)

length-instance_ids :
    (new_id : ℕ → ℕ) (n : ℕ) (cards : List Card)
    → length (instance_ids new_id n cards) ≡ length cards
length-instance_ids new_id n [] = refl
length-instance_ids new_id n (c ∷ cards) = ap suc (length-instance_ids new_id (suc n) cards)

-- A host that is built for an accepted launch has its Deck whole, at most 16 CoreServices, no call
-- made, and the state that a start wants.
pub build-IsWhole :
    (deck_run_id : ℕ) (new_id : ℕ → ℕ) (identity : RuntimeHostIdentity) (services : ℕ)
    (lock : DeckLock) (is : List CardImplementation) (launch : DeckLaunch) (host : RuntimeHost)
    → new_launch lock is ≡ ok launch
    → build deck_run_id new_id identity services (some launch) ≡ ok host
    → IsWhole host.deck
      × (host.core_services ≤ max_core_services)
      × (host.run.events ≡ [])
      × (host.run.snapshot.state ≡ RuntimeHostState.created)
unfolding build new_launch
build-IsWhole deck_run_id new_id identity services lock is launch host h b =
    let count : length is ≡ length lock.cards =
      ground (arith, ==_iff (length is) (length lock.cards)) in
    let given : (let l : DeckLaunch = record { lock = lock; implementations = is } in l) ≡ launch =
      ground arith in
    let few : services ≤ max_core_services = ground arith in
    let it : built deck_run_id new_id identity services (some launch) ≡ host = ground arith in
    subst
      (λ (x : RuntimeHost).
        IsWhole x.deck
        × (x.core_services ≤ max_core_services)
        × (x.run.events ≡ [])
        × (x.run.snapshot.state ≡ RuntimeHostState.created))
      it
      (
        subst (λ (l : DeckLaunch). IsWhole (deck_owner new_id (some l))) given
            (count, length-instance_ids new_id 0 lock.cards),
        few,
        refl,
        refl,
      )

undone_plan :
    (n : ℕ) (deck : Option DeckOwner)
    → IsWhole deck
    → deck_stops deck ++ service_stops n ≡ stops_of (service_starts n ++ deck_starts deck)
undone_plan n none whole =
    sym (stops_of-service_starts n) ∙ ap stops_of (sym (append-nil (service_starts n)))
undone_plan n (some deck) (many, same) = sym (
    stops_of-append (service_starts n) (card_starts deck (length deck.implementations))
    ∙ ap₂ (λ x y. x ++ y)
        (stops_of-card_starts deck (length deck.implementations) (omega arith) same)
        (stops_of-service_starts n))

-- A host that started without a failure can be stopped, and the stops are the starts undone in
-- reverse.
pub start-stop :
    (behaviour : Behaviour) (host : RuntimeHost) (next : Run)
    → IsWhole host.deck
    → host.run.snapshot.state ≡ RuntimeHostState.created
    → start behaviour host ≡ some (ok tt, next)
    → ((ended : Ended) × (stop behaviour (record host { run = next }) ≡ some ended)
        × StopEnds (record host { run = next }) ended)
      × (stop_plan host ≡ stops_of (start_plan host))
start-stop behaviour host next whole created h =
    let (ended, q, ends) = start_lem behaviour host whole created in
    let same : ended ≡ (ok tt, next) = ground arith in
    let (_, ready) = subst (StartEnds host) same ends in
    (
      stop_lem behaviour (record host { run = next }) whole ready,
      undone_plan host.core_services host.deck whole,
    )

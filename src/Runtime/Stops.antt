-- ===== src/Runtime/Stops.antt =====
-- How crates/paraegox-runtime/src/host.rs stops what was started: each owner once, the last started
-- one first, and on past an owner that fails.
use para_egox.Prelude.{
  ℕ, zero, suc, ◌≤◌, ◌<◌, ◌≡◌, refl, ◌∙◌, ap, some, List, [], ◌∷◌, ◌++◌, arith, err, length,
  get_elem?, subst,
}
use mathlib.Core.List.{append_assoc}
use para_egox.Deck.{Card}
use para_egox.Runtime.Status.{CardInstanceState, set_card_state}
use para_egox.Runtime.Deck.{CardContext}
use para_egox.Runtime.Host.{
  LifecycleFailure, timed_out, owner_error, Call, service_start, service_stop, card_start,
  card_stop, Outcome, finished, elapsed, refused, Event, Run, Behaviour, verdict, invoke_owner,
  pushed, card_state, after_stop, failure,
}
use para_egox.Runtime.Lifecycle.{
  stop_started_services, stop_started_cards, stop_timed_out_service, stop_timed_out_card,
}
use para_egox.Runtime.Trace.{Trace, service_stops, card_stops, Trace-none, stop_if, needs_stop}

abbrev pub event : Call → Outcome → Event
event call outcome = record { call = call; outcome = outcome }

pub Trace-cons :
    {d : ℕ} {run called next : Run} {xs : List Call} {fs : List LifecycleFailure} (call : Call)
    (o : Outcome)
    → called.events ≡ run.events ++ event call o ∷ []
    → Trace d called next xs fs
    → Trace d run next (call ∷ xs) (pushed (verdict d call o) fs)
Trace-cons {d} {run} {called} {next} {xs} {fs} call o h t = record {
  events = event call o ∷ t.events;
  extended =
      t.extended
      ∙ ap (λ es. es ++ t.events) h
      ∙ append_assoc run.events (event call o ∷ []) t.events;
  made = ap (λ cs. call ∷ cs) t.made;
  reported = ap (pushed (verdict d call o)) t.reported;
}

pub get_elem?-some :
    {A : Type 0} (xs : List A) (i : ℕ) → i < length xs → (x : A) × (get_elem? xs i ≡ some x)
get_elem?-some [] i h = absurd (omega arith)
get_elem?-some (x ∷ xs) zero h = (x, refl)
get_elem?-some (x ∷ xs) (suc i) h = get_elem?-some xs i (omega arith)

pub cleanup_Trace :
    {d : ℕ} (call : Call) (o : Outcome) (run next : Run)
    → next.events ≡ run.events ++ event call o ∷ []
    → Trace d run next (call ∷ []) (pushed (verdict d call o) [])
cleanup_Trace {d} call o run next h = record {
  events = event call o ∷ [];
  extended = h;
  made = refl;
  reported = refl;
}

module _ (behaviour : Behaviour) (d : ℕ) where
  pub stop_started_services_lem :
      (n : ℕ) (run : Run)
      → let (fs, last) = stop_started_services behaviour d n run in
        Trace d run last (service_stops n) fs × (last.snapshot ≡ run.snapshot)
  unfolding stop_started_services invoke_owner
  stop_started_services_lem zero run = (Trace-none d run, refl)
  stop_started_services_lem (suc n) run =
      let (t, same) = stop_started_services_lem n _ in
      (Trace-cons (service_stop n) (behaviour run (service_stop n)) refl t, same)

  pub stop_started_cards_lem :
      (cards : List Card) (n : ℕ) (run : Run)
      → n ≤ length cards
      → (fs : List LifecycleFailure) × (last : Run) × (stop_started_cards behaviour d cards n run
          ≡ some (fs, last))
        × Trace d run last (card_stops cards n) fs
        × (last.snapshot.state ≡ run.snapshot.state)
  unfolding stop_started_cards invoke_owner set_card_state
  stop_started_cards_lem cards zero run h = ([], run, refl, Trace-none d run, refl)
  stop_started_cards_lem cards (suc n) run h =
      let (c, e) = get_elem?-some cards n (omega arith) in
      let stopping = card_state n CardInstanceState.stopping run in
      let o = behaviour stopping (card_stop n c.key) in
      let (result, called) = invoke_owner behaviour d (card_stop n c.key) stopping in
      let (fs, last, q, t, same) =
        stop_started_cards_lem cards n (card_state n (after_stop result) called) (omega arith) in
      (
        pushed (verdict d (card_stop n c.key) o) fs,
        last,
        rw (e, stop_started_cards, q) refl,
        rw e (Trace-cons (card_stop n c.key) o refl t),
        same,
      )

  -- The calls that stop an owner whose start gave this outcome.
  pub stop_timed_out_service_lem :
      (index : ℕ) (o : Outcome) (run : Run) (f : LifecycleFailure)
      → verdict d (service_start index) o ≡ err f
      → let (fs, last) = stop_timed_out_service behaviour d f index run in
        Trace d run last (stop_if (needs_stop o) (service_start index)) fs
        × (last.snapshot ≡ run.snapshot)
  unfolding stop_timed_out_service invoke_owner verdict
  stop_timed_out_service_lem index finished run f h = absurd (ground arith)
  stop_timed_out_service_lem index elapsed run f h =
      let e : failure (service_start index) (timed_out d) ≡ f = ground arith in
      subst
        (λ (g : LifecycleFailure).
          let (fs, last) = stop_timed_out_service behaviour d g index run in
          Trace d run last (service_stop index ∷ []) fs × (last.snapshot ≡ run.snapshot))
        e
        (
          Trace-cons (service_stop index) (behaviour run (service_stop index)) refl
              (Trace-none d _),
          refl,
        )
  stop_timed_out_service_lem index (refused source) run f h =
      let e : failure (service_start index) (owner_error source) ≡ f = ground arith in
      subst
        (λ (g : LifecycleFailure).
          let (fs, last) = stop_timed_out_service behaviour d g index run in
          Trace d run last [] fs × (last.snapshot ≡ run.snapshot))
        e (Trace-none d run, refl)

  pub stop_timed_out_card_lem :
      (index : ℕ) (c : CardContext) (o : Outcome) (run : Run) (f : LifecycleFailure)
      → verdict d (card_start index c) o ≡ err f
      → let (fs, last) = stop_timed_out_card behaviour d f index c.card_key run in
        Trace d run last (stop_if (needs_stop o) (card_start index c)) fs
        × (last.snapshot.state ≡ run.snapshot.state)
  unfolding stop_timed_out_card invoke_owner verdict set_card_state
  stop_timed_out_card_lem index c finished run f h = absurd (ground arith)
  stop_timed_out_card_lem index c elapsed run f h =
      let e : failure (card_start index c) (timed_out d) ≡ f = ground arith in
      let stop = card_stop index c.card_key in
      let stopping = card_state index CardInstanceState.stopping run in
      subst
        (λ (g : LifecycleFailure).
          let (fs, last) = stop_timed_out_card behaviour d g index c.card_key run in
          Trace d run last (stop ∷ []) fs × (last.snapshot.state ≡ run.snapshot.state))
        e (cleanup_Trace stop (behaviour stopping stop) run _ refl, refl)
  stop_timed_out_card_lem index c (refused source) run f h =
      let e : failure (card_start index c) (owner_error source) ≡ f = ground arith in
      subst
        (λ (g : LifecycleFailure).
          let (fs, last) = stop_timed_out_card behaviour d g index c.card_key run in
          Trace d run last [] fs × (last.snapshot.state ≡ run.snapshot.state))
        e (Trace-none d run, refl)

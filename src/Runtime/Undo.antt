-- ===== src/Runtime/Undo.antt =====
-- A failed start of the host in crates/paraegox-runtime/src/host.rs: how far it came, and what of it
-- was undone.
use para_egox.Prelude.{
  ℕ, zero, suc, ◌+◌, ◌≤◌, ◌<◌, ◌≡◌, refl, sym, ◌∙◌, ap, ap₂, some, List, [], ◌∷◌, ◌++◌, arith, err,
  length, get_elem?,
}
use mathlib.Core.List.{append_assoc, append-nil}
use para_egox.Deck.{Card}
use para_egox.Runtime.Deck.{DeckOwner, context}
use para_egox.Runtime.Host.{
  LifecycleFailure, Call, service_start, card_stop, Outcome, Event, Run, verdict,
}
use para_egox.Runtime.Trace.{
  Trace, calls, failures, service_starts, card_starts, card_stops, stops_of, stop_if, needs_stop,
  undo, undo-append, undo_finished, AllFinished, calls-append, failures-append, stops_of-append,
  start_of,
}
use para_egox.Runtime.Stops.{event, get_elem?-some}

-- Some starts of the plan succeeded, the next one failed, and then came stops; what is `left` has
-- still to be stopped.
pub record Undone (d : ℕ) (base next : Run) (plan left : List Call) (f : LifecycleFailure)
    (failed : List LifecycleFailure) : Type 0 where
  pub before : List Event
  pub last_start : Event
  pub stops : List Event
  pub rest : List Call
  pub extended : next.events ≡ base.events ++ ((before ++ last_start ∷ []) ++ stops)
  pub planned : calls before ++ last_start.call ∷ rest ≡ plan
  pub succeeded : AllFinished before
  pub refusal : verdict d last_start.call last_start.outcome ≡ err f
  pub undone : calls stops ++ left ≡ undo (before ++ last_start ∷ [])
  pub reported : failed ≡ failures d stops

pub Undone-failed :
    {d : ℕ} {base called next : Run} {plan left xs : List Call} {f : LifecycleFailure}
    {fs : List LifecycleFailure} (before : List Event) (call : Call) (o : Outcome)
    (rest : List Call)
    → called.events ≡ base.events ++ (before ++ event call o ∷ [])
    → calls before ++ call ∷ rest ≡ plan
    → AllFinished before
    → verdict d call o ≡ err f
    → Trace d called next xs fs
    → xs ++ left ≡ stop_if (needs_stop o) call ++ stops_of (calls before)
    → Undone d base next plan left f fs
Undone-failed {d} {base} {called} {next} {plan} {left} {xs} {f} {fs} before call o rest h p s v t
      u =
    record {
      before = before;
      last_start = event call o;
      stops = t.events;
      rest = rest;
      extended =
          t.extended
          ∙ ap (λ es. es ++ t.events) h
          ∙ append_assoc base.events (before ++ event call o ∷ []) t.events;
      planned = p;
      succeeded = s;
      refusal = v;
      undone =
          ap (λ cs. cs ++ left) t.made
          ∙ u
          ∙ ap (λ cs. stop_if (needs_stop o) call ++ cs) (sym (undo_finished before s))
          ∙ sym (undo-append before (event call o ∷ []));
      reported = t.reported;
    }

pub Undone-plan :
    {d : ℕ} {base next : Run} {plan left : List Call} {f : LifecycleFailure}
    {fs : List LifecycleFailure} (more : List Call)
    → Undone d base next plan left f fs
    → Undone d base next (plan ++ more) left f fs
Undone-plan {d} {base} {next} {plan} {left} {f} {fs} more u = record {
  before = u.before;
  last_start = u.last_start;
  stops = u.stops;
  rest = u.rest ++ more;
  extended = u.extended;
  planned =
      sym (append_assoc (calls u.before) (u.last_start.call ∷ u.rest) more)
      ∙ ap (λ cs. cs ++ more) u.planned;
  succeeded = u.succeeded;
  refusal = u.refusal;
  undone = u.undone;
  reported = u.reported;
}

-- The stops that were left are made.
pub Undone-rest :
    {d : ℕ} {base next last : Run} {plan left : List Call} {f : LifecycleFailure}
    {fs gs : List LifecycleFailure}
    → Undone d base next plan left f fs
    → Trace d next last left gs
    → Undone d base last plan [] f (fs ++ gs)
Undone-rest {d} {base} {next} {last} {plan} {left} {f} {fs} {gs} u t = record {
  before = u.before;
  last_start = u.last_start;
  stops = u.stops ++ t.events;
  rest = u.rest;
  extended =
      t.extended
      ∙ ap (λ es. es ++ t.events) u.extended
      ∙ append_assoc base.events ((u.before ++ u.last_start ∷ []) ++ u.stops) t.events
      ∙ ap (λ es. base.events ++ es)
          (append_assoc (u.before ++ u.last_start ∷ []) u.stops t.events);
  planned = u.planned;
  succeeded = u.succeeded;
  refusal = u.refusal;
  undone =
      append-nil (calls (u.stops ++ t.events))
      ∙ calls-append u.stops t.events
      ∙ ap (λ cs. calls u.stops ++ cs) t.made
      ∙ u.undone;
  reported = ap₂ (λ x y. x ++ y) u.reported t.reported ∙ sym (failures-append d u.stops t.events);
}

pub service_starts-split :
    (m n : ℕ) → (rest : List Call) × (service_starts m ++ rest ≡ service_starts (m + n))
service_starts-split m zero =
    ([], append-nil (service_starts m) ∙ ap service_starts (let q : m ≡ m + 0 = omega arith in q))
service_starts-split m (suc n) =
    let (rest, e) = service_starts-split m n in
    (
      rest ++ service_start (m + n) ∷ [],
      sym (append_assoc (service_starts m) rest (service_start (m + n) ∷ []))
          ∙ ap (λ cs. cs ++ service_start (m + n) ∷ []) e
          ∙ ap service_starts (let q : suc (m + n) ≡ m + suc n = omega arith in q),
    )

pub card_starts-split :
    (deck : DeckOwner) (m n : ℕ)
    → (rest : List Call) × (card_starts deck m ++ rest ≡ card_starts deck (m + n))
card_starts-split deck m zero = (
  [],
  append-nil (card_starts deck m) ∙ ap (card_starts deck) (let q : m ≡ m + 0 = omega arith in q),
)
card_starts-split deck m (suc n) =
    let (rest, e) = card_starts-split deck m n in
    let more = start_of (m + n) (context deck (m + n)) in
    (
      rest ++ more,
      sym (append_assoc (card_starts deck m) rest more)
          ∙ ap (λ cs. cs ++ more) e
          ∙ ap (card_starts deck) (let q : suc (m + n) ≡ m + suc n = omega arith in q),
    )

-- The instances are as many as the Cards.
pub context-some :
    (deck : DeckOwner) (i : ℕ)
    → i < length deck.lock.cards
    → length deck.card_instance_ids ≡ length deck.lock.cards
    → (c : Card) × (id : ℕ) × (get_elem? deck.lock.cards i ≡ some c)
      × (context deck i
          ≡ some (record { card_instance_id = id; card_key = c.key; definition = c.definition }))
unfolding context
context-some deck i h same =
    let (c, e) = get_elem?-some deck.lock.cards i h in
    let (id, q) = get_elem?-some deck.card_instance_ids i (omega arith) in
    (c, id, e, rw (e, context, q) refl)

pub stops_of-card_starts :
    (deck : DeckOwner) (n : ℕ)
    → n ≤ length deck.lock.cards
    → length deck.card_instance_ids ≡ length deck.lock.cards
    → stops_of (card_starts deck n) ≡ card_stops deck.lock.cards n
stops_of-card_starts deck zero h same = refl
stops_of-card_starts deck (suc n) h same =
    let (c, id, e, q) = context-some deck n (omega arith) same in
    stops_of-append (card_starts deck n) (start_of n (context deck n))
    ∙ rw (e, q) (ap (λ cs. card_stop n c.key ∷ cs) (stops_of-card_starts deck n (omega arith) same))

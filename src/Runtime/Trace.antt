-- ===== src/Runtime/Trace.antt =====
-- The calls that the host of crates/paraegox-runtime/src/host.rs makes: their order, and what undoes
-- those that started something.
use para_egox.Prelude.{
  inl, inr, ℕ, zero, suc, ◌≡◌, refl, sym, ◌∙◌, ap, ap₂, Bool, true, false, Option, none, some, List,
  [], ◌∷◌, ◌++◌, get_elem?, Result-cases,
}
use mathlib.Core.List.{append_assoc, append-nil}
use para_egox.Deck.{Card}
use para_egox.Runtime.Deck.{CardContext, DeckOwner, context}
use para_egox.Runtime.Host.{
  LifecycleFailure, Call, service_start, service_stop, card_start, card_stop, Outcome, finished,
  elapsed, refused, Event, Run, verdict, pushed,
}

abbrev pub calls : List Event → List Call
calls [] = []
calls (e ∷ es) = e.call ∷ calls es

-- The failures among the calls, in their order.
abbrev pub failures : ℕ → List Event → List LifecycleFailure
failures deadline [] = []
failures deadline (e ∷ es) = pushed (verdict deadline e.call e.outcome) (failures deadline es)

abbrev pub needs_stop : Outcome → Bool
needs_stop finished = true
needs_stop elapsed = true
needs_stop (refused source) = false

abbrev pub stop_of : Call → Call
stop_of (service_start i) = service_stop i
stop_of (card_start i c) = card_stop i c.card_key
stop_of call = call

abbrev pub stop_if : Bool → Call → List Call
stop_if true call = stop_of call ∷ []
stop_if false call = []

-- What stops the owners that these calls may have started, the last one first: an owner that answered
-- with an error has nothing to stop, one that did not answer has.
abbrev pub undo : List Event → List Call
undo [] = []
undo (e ∷ es) = undo es ++ stop_if (needs_stop e.outcome) e.call

abbrev pub AllFinished : List Event → Type 0
AllFinished [] = Unit {0}
AllFinished (e ∷ es) = (e.outcome ≡ finished) × AllFinished es

abbrev pub service_starts : ℕ → List Call
service_starts zero = []
service_starts (suc n) = service_starts n ++ service_start n ∷ []

abbrev pub service_stops : ℕ → List Call
service_stops zero = []
service_stops (suc n) = service_stop n ∷ service_stops n

abbrev pub start_of : ℕ → Option CardContext → List Call
start_of i none = []
start_of i (some c) = card_start i c ∷ []

abbrev pub stop_at : ℕ → Option Card → List Call
stop_at i none = []
stop_at i (some c) = card_stop i c.key ∷ []

abbrev pub card_starts : DeckOwner → ℕ → List Call
card_starts deck zero = []
card_starts deck (suc n) = card_starts deck n ++ start_of n (context deck n)

abbrev pub card_stops : List Card → ℕ → List Call
card_stops cards zero = []
card_stops cards (suc n) = stop_at n (get_elem? cards n) ++ card_stops cards n

pub calls-append : (xs ys : List Event) → calls (xs ++ ys) ≡ calls xs ++ calls ys
calls-append [] ys = refl
calls-append (x ∷ xs) ys = ap (λ cs. x.call ∷ cs) (calls-append xs ys)

pub failures-append :
    (d : ℕ) (xs ys : List Event) → failures d (xs ++ ys) ≡ failures d xs ++ failures d ys
failures-append d [] ys = refl
failures-append d (x ∷ xs) ys = elim (Result-cases (verdict d x.call x.outcome)) [
  | inl (_, e) ↦ rw e (failures-append d xs ys)
  | inr (f, e) ↦ rw e (ap (λ fs. f ∷ fs) (failures-append d xs ys))
]

pub undo-append : (xs ys : List Event) → undo (xs ++ ys) ≡ undo ys ++ undo xs
undo-append [] ys = sym (append-nil (undo ys))
undo-append (x ∷ xs) ys =
    ap (λ cs. cs ++ stop_if (needs_stop x.outcome) x.call) (undo-append xs ys)
    ∙ append_assoc (undo ys) (undo xs) (stop_if (needs_stop x.outcome) x.call)

abbrev pub stops_of : List Call → List Call
stops_of [] = []
stops_of (c ∷ cs) = stops_of cs ++ stop_of c ∷ []

pub undo_finished : (es : List Event) → AllFinished es → undo es ≡ stops_of (calls es)
undo_finished [] f = refl
undo_finished (e ∷ es) (f, fs) =
    ap₂ (λ cs o. cs ++ stop_if (needs_stop o) e.call) (undo_finished es fs) f

pub stops_of-append : (xs ys : List Call) → stops_of (xs ++ ys) ≡ stops_of ys ++ stops_of xs
stops_of-append [] ys = sym (append-nil (stops_of ys))
stops_of-append (x ∷ xs) ys =
    ap (λ cs. cs ++ stop_of x ∷ []) (stops_of-append xs ys)
    ∙ append_assoc (stops_of ys) (stops_of xs) (stop_of x ∷ [])

pub stops_of-service_starts : (n : ℕ) → stops_of (service_starts n) ≡ service_stops n
stops_of-service_starts zero = refl
stops_of-service_starts (suc n) =
    stops_of-append (service_starts n) (service_start n ∷ [])
    ∙ ap (λ cs. service_stop n ∷ cs) (stops_of-service_starts n)

pub AllFinished-append :
    (xs ys : List Event) → AllFinished xs → AllFinished ys → AllFinished (xs ++ ys)
AllFinished-append [] ys f g = g
AllFinished-append (x ∷ xs) ys (e, f) g = (e, AllFinished-append xs ys f g)

-- From one run to a later one the host made the calls that are expected, and these failures of them.
pub record Trace (d : ℕ) (run next : Run) (expected : List Call) (failed : List LifecycleFailure)
    : Type 0 where
  pub events : List Event
  pub extended : next.events ≡ run.events ++ events
  pub made : calls events ≡ expected
  pub reported : failed ≡ failures d events

pub Trace-none : (d : ℕ) (run : Run) → Trace d run run [] []
Trace-none d run = record {
  events = [];
  extended = sym (append-nil run.events);
  made = refl;
  reported = refl;
}

pub Trace-append :
    {d : ℕ} {a b c : Run} {xs ys : List Call} {fs gs : List LifecycleFailure}
    → Trace d a b xs fs
    → Trace d b c ys gs
    → Trace d a c (xs ++ ys) (fs ++ gs)
Trace-append {d} {a} {b} {c} {xs} {ys} {fs} {gs} t u = record {
  events = t.events ++ u.events;
  extended =
      u.extended ∙ ap (λ es. es ++ u.events) t.extended ∙ append_assoc a.events t.events u.events;
  made = calls-append t.events u.events ∙ ap₂ (λ x y. x ++ y) t.made u.made;
  reported = ap₂ (λ x y. x ++ y) t.reported u.reported ∙ sym (failures-append d t.events u.events);
}

-- ===== src/Fabric/Accounts.antt =====
-- What becomes of the queries of crates/paraegox-fabric/src/service.rs, in every order of the acts of
-- callbacks, dispatcher and handlers.
use para_egox.Prelude.{
  ℕ, zero, suc, ◌+◌, ◌≤◌, ◌<◌, ◌≡◌, refl, sym, ◌∙◌, ap, subst, Bool, true, false, none, some, List,
  [], ◌∷◌, ◌++◌, arith, leb, length, length-append, get_elem?, count, count-append, nat_eq,
  Option-cases, inl, inr,
}
use mathlib.Core.List.{append-nil}
use para_egox.Runtime.Status.{RuntimeHostSnapshot}
use para_egox.Fabric.Queue.{
  Query, AdmittedQuery, QueryReply, Serving, Ingress, Handlers, new_ingress, admit_query, refusal,
  reply_err, dispatch, complete_request, serve_request, without, queued_ids, serving_ids, abort,
  Step, opens, arrives, dispatches, completes, closes, ends, aborts, Reach, initial, after,
  ingress_capacity, max_in_flight_requests,
}

abbrev pub reply_ids : List (ℕ × QueryReply) → List ℕ
reply_ids [] = []
reply_ids ((id, r) ∷ replies) = id ∷ reply_ids replies

-- How often a query is in the queue, with a handler, answered or dropped.
abbrev pub places : ℕ → Ingress → ℕ
places id s =
    count id (queued_ids s.queue)
    + count id (serving_ids s.in_flight)
    + count id (reply_ids s.replies)
    + count id s.dropped

-- The bounds hold, and each query that arrived is in one place.
pub record Accounted (s : Ingress) (arrived : List ℕ) : Type 0 where
  pub few_queued : length s.queue ≤ ingress_capacity
  pub few_in_flight : length s.in_flight ≤ max_in_flight_requests
  pub once : (id : ℕ) → places id s ≡ count id arrived

queued_ids-append :
    (xs ys : List AdmittedQuery) → queued_ids (xs ++ ys) ≡ queued_ids xs ++ queued_ids ys
queued_ids-append [] ys = refl
queued_ids-append (x ∷ xs) ys = ap (λ ids. x.query.id ∷ ids) (queued_ids-append xs ys)

serving_ids-append :
    (xs ys : List Serving) → serving_ids (xs ++ ys) ≡ serving_ids xs ++ serving_ids ys
serving_ids-append [] ys = refl
serving_ids-append (x ∷ xs) ys = ap (λ ids. x.admitted.query.id ∷ ids) (serving_ids-append xs ys)

reply_ids-append :
    (xs ys : List (ℕ × QueryReply)) → reply_ids (xs ++ ys) ≡ reply_ids xs ++ reply_ids ys
reply_ids-append [] ys = refl
reply_ids-append ((id, r) ∷ xs) ys = ap (λ ids. id ∷ ids) (reply_ids-append xs ys)

-- An answer adds one place.
count-answered :
    (id : ℕ) (replies : List (ℕ × QueryReply)) (q : ℕ) (r : QueryReply)
    → count id (reply_ids (replies ++ (q, r) ∷ []))
      ≡ count id (reply_ids replies) + count id (q ∷ [])
count-answered id replies q r =
    ap (count id) (reply_ids-append replies ((q, r) ∷ []))
    ∙ count-append id (reply_ids replies) (q ∷ [])

length-without : (i : ℕ) (ss : List Serving) → length (without i ss) ≤ length ss
length-without i [] = omega arith
length-without zero (s ∷ ss) = omega arith
length-without (suc i) (s ∷ ss) = omega (arith, length-without i ss)

count-without :
    (id i : ℕ) (ss : List Serving) (s : Serving)
    → get_elem? ss i ≡ some s
    → count id (serving_ids (without i ss)) + count id (s.admitted.query.id ∷ [])
      ≡ count id (serving_ids ss)
unfolding count
count-without id i [] s h = absurd (ground arith)
count-without id zero (t ∷ ss) s h =
    let e : t ≡ s = ground arith in
    subst
      (λ (u : Serving).
        count id (serving_ids ss) + count id (u.admitted.query.id ∷ [])
        ≡ count id (serving_ids (t ∷ ss)))
      e (omega arith)
count-without id (suc i) (t ∷ ss) s h = omega (arith, count-without id i ss s h)

answered-Accounted :
    (s : Ingress) (arrived : List ℕ) (q : Query) (r : QueryReply)
    → Accounted s arrived
    → Accounted (record s { replies = s.replies ++ (q.id, r) ∷ [] }) (arrived ++ q.id ∷ [])
answered-Accounted s arrived q r a = record {
  few_queued = a.few_queued;
  few_in_flight = a.few_in_flight;
  once = λ id.
      omega
        (arith, a.once id, count-answered id s.replies q.id r, count-append id arrived (q.id ∷ []));
}

queued-Accounted :
    (s : Ingress) (arrived : List ℕ) (i : ℕ) (q : Query)
    → leb ingress_capacity (length s.queue) ≡ false
    → Accounted s arrived
    → Accounted
        (record s { queue = s.queue ++ record { binding_index = i; query = q } ∷ [] })
        (arrived ++ q.id ∷ [])
queued-Accounted s arrived i q room a =
    let new : AdmittedQuery = record { binding_index = i; query = q } in
    let short : length s.queue < ingress_capacity = ground arith in
    record {
      few_queued = omega (arith, length-append s.queue (new ∷ []));
      few_in_flight = a.few_in_flight;
      once = λ id. omega (
        arith,
        a.once id,
        ap (count id) (queued_ids-append s.queue (new ∷ [])),
        count-append id (queued_ids s.queue) (q.id ∷ []),
        count-append id arrived (q.id ∷ []),
      );
    }

refusal-none :
    (s : Ingress) (q : Query) → refusal s q ≡ none → leb ingress_capacity (length s.queue) ≡ false
unfolding refusal
refusal-none s q h = ground arith

admit_query-Accounted :
    (s : Ingress) (arrived : List ℕ) (i : ℕ) (q : Query)
    → Accounted s arrived
    → Accounted (admit_query s i q) (arrived ++ q.id ∷ [])
unfolding admit_query
admit_query-Accounted s arrived i q a = elim (Option-cases (refusal s q)) [
  | inr (message, e) ↦ rw (e, admit_query) (answered-Accounted s arrived q (reply_err message) a)
  | inl e ↦ rw (e, admit_query) (queued-Accounted s arrived i q (refusal-none s q e) a)
]

dispatch-Accounted :
    (s : Ingress) (arrived : List ℕ) (admitted : AdmittedQuery) (rest : List AdmittedQuery)
    (snapshot : RuntimeHostSnapshot)
    → s.queue ≡ admitted ∷ rest
    → length s.in_flight < max_in_flight_requests
    → Accounted s arrived
    → Accounted (dispatch s admitted rest snapshot) arrived
unfolding dispatch count
dispatch-Accounted s arrived admitted rest snapshot e room a =
    let new : Serving = record { admitted = admitted; runtime_snapshot = snapshot } in
    record {
      few_queued = omega (arith, ap length e, a.few_queued);
      few_in_flight = omega (arith, length-append s.in_flight (new ∷ []));
      once = λ id. omega (
        arith,
        a.once id,
        ap (λ queue. count id (queued_ids queue)) e,
        ap (count id) (serving_ids-append s.in_flight (new ∷ [])),
        count-append id (serving_ids s.in_flight) (admitted.query.id ∷ []),
      );
    }

complete_request-Accounted :
    (handlers : Handlers) (s : Ingress) (arrived : List ℕ) (i : ℕ) (serving : Serving)
    → get_elem? s.in_flight i ≡ some serving
    → Accounted s arrived
    → Accounted (complete_request handlers s i serving) arrived
unfolding complete_request
complete_request-Accounted handlers s arrived i serving e a = record {
  few_queued = a.few_queued;
  few_in_flight = omega (arith, length-without i s.in_flight, a.few_in_flight);
  once = λ id. omega (
    arith,
    a.once id,
    count-without id i s.in_flight serving e,
    count-answered id s.replies serving.admitted.query.id (serve_request handlers serving),
  );
}

abort-Accounted :
    (s : Ingress) (arrived : List ℕ) → Accounted s arrived → Accounted (abort s) arrived
unfolding abort count
abort-Accounted s arrived a = record {
  few_queued = omega arith;
  few_in_flight = omega arith;
  once = λ id. omega (
    arith,
    a.once id,
    count-append id s.dropped (queued_ids s.queue ++ serving_ids s.in_flight),
    count-append id (queued_ids s.queue) (serving_ids s.in_flight),
  );
}

-- A change of the two flags.
flags-Accounted :
    (s : Ingress) (arrived : List ℕ) (admission_open receiving : Bool)
    → Accounted s arrived
    → Accounted (record s { admission_open = admission_open; receiving = receiving }) arrived
flags-Accounted s arrived admission_open receiving a = record {
  few_queued = a.few_queued;
  few_in_flight = a.few_in_flight;
  once = a.once;
}

Step-Accounted :
    {handlers : Handlers} {s t : Ingress} {arrived more : List ℕ}
    → Step handlers s t more
    → Accounted s arrived
    → Accounted t (arrived ++ more)
Step-Accounted {arrived = arrived} (opens s) a =
    subst (Accounted _) (sym (append-nil arrived)) (flags-Accounted s arrived true s.receiving a)
Step-Accounted {arrived = arrived} (arrives s i q) a = admit_query-Accounted s arrived i q a
Step-Accounted {arrived = arrived} (dispatches s admitted rest snapshot _ e room) a =
    subst (Accounted _) (sym (append-nil arrived))
      (dispatch-Accounted s arrived admitted rest snapshot e room a)
Step-Accounted {handlers = handlers} {arrived = arrived} (completes s i serving e) a =
    subst (Accounted _) (sym (append-nil arrived))
      (complete_request-Accounted handlers s arrived i serving e a)
Step-Accounted {arrived = arrived} (closes s) a =
    subst (Accounted _) (sym (append-nil arrived)) (flags-Accounted s arrived false s.receiving a)
Step-Accounted {arrived = arrived} (ends s _ _) a =
    subst (Accounted _) (sym (append-nil arrived))
      (flags-Accounted s arrived s.admission_open false a)
Step-Accounted {arrived = arrived} (aborts s) a =
    subst (Accounted _) (sym (append-nil arrived)) (abort-Accounted s arrived a)

-- In every state that the callbacks, the dispatcher and the handlers reach, at most 16 queries wait
-- and at most 8 are served, and each query that arrived is in one place for each time it arrived: it
-- waits, is served, was answered, or was dropped when the dispatcher was aborted.
pub Reach-Accounted :
    {handlers : Handlers} {s : Ingress} {arrived : List ℕ}
    → Reach handlers s arrived
    → Accounted s arrived
unfolding new_ingress count
Reach-Accounted initial = record {
  few_queued = omega arith;
  few_in_flight = omega arith;
  once = λ id. refl;
}
Reach-Accounted (after r step) = Step-Accounted step (Reach-Accounted r)

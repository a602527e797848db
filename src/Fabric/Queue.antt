-- ===== src/Fabric/Queue.antt =====
-- crates/paraegox-fabric/src/service.rs: the queries between Zenoh's callbacks and the handlers of
-- the bindings. Callbacks, dispatcher and handlers run at once; a step is one atomic act of one.
use para_egox.Prelude.{
  ℕ, zero, suc, ◌<◌, ◌≡◌, Bool, true, false, not, Option, none, some, List, [], ◌∷◌, ◌++◌, ltb, leb,
  if◌then◌else◌, Result, ok, err, length, get_elem?,
}
use para_egox.Text.{Text, text, len}
use para_egox.Fabric.{max_payload_bytes}
use para_egox.Runtime.Status.{RuntimeHostState, RuntimeHostSnapshot}

abbrev pub ingress_capacity : ℕ
ingress_capacity = 16

abbrev pub max_in_flight_requests : ℕ
max_in_flight_requests = 8

-- A query of Zenoh; its identity tells queries apart.
pub record Query : Type 0 where
  pub id : ℕ
  pub payload : Option (List ℕ)

pub record AdmittedQuery : Type 0 where
  pub binding_index : ℕ
  pub query : Query

pub data QueryReply : Type 0 where
  reply : List ℕ → QueryReply
  reply_err : Text → QueryReply

-- A request that is served, with the snapshot that was taken when it was dispatched.
pub record Serving : Type 0 where
  pub admitted : AdmittedQuery
  pub runtime_snapshot : RuntimeHostSnapshot

-- `receiving`: the dispatcher still has its end of the channel.
pub record Ingress : Type 0 where
  pub admission_open : Bool
  pub receiving : Bool
  pub queue : List AdmittedQuery
  pub in_flight : List Serving
  pub replies : List (ℕ × QueryReply)
  pub dropped : List ℕ

-- Before the start of the service opens the admission.
unfoldable pub new_ingress : Ingress
new_ingress = record {
  admission_open = false;
  receiving = true;
  queue = [];
  in_flight = [];
  replies = [];
  dropped = [];
}

abbrev pub is_too_long : Option (List ℕ) → Bool
is_too_long none = false
is_too_long (some payload) = ltb max_payload_bytes (length payload)

abbrev pub answer_query : Query → QueryReply → Ingress → Ingress
answer_query query r ingress = record ingress { replies = ingress.replies ++ (query.id, r) ∷ [] }

-- Why a query is not admitted, if it is not.
unfoldable pub refusal : Ingress → Query → Option Text
refusal ingress query =
    if not ingress.admission_open
    then some (text "FabricService is stopping")
    else if is_too_long query.payload
    then some (text "Fabric request exceeds 64 KiB")
    else if not ingress.receiving
    then some (text "FabricService is stopping")
    else if leb ingress_capacity (length ingress.queue)
    then some (text "FabricService is busy")
    else none

unfoldable pub admit_query : Ingress → ℕ → Query → Ingress
admit_query ingress binding_index query = elim (refusal ingress query) [
  | some message ↦ answer_query query (reply_err message) ingress
  | none ↦ record ingress {
    queue = ingress.queue ++ record { binding_index = binding_index; query = query } ∷ [];
  }
]

abbrev pub is_ready : RuntimeHostState → Bool
is_ready RuntimeHostState.ready = true
is_ready _ = false

abbrev pub payload_of : Option (List ℕ) → List ℕ
payload_of none = []
payload_of (some payload) = payload

abbrev pub bounded_reply : Result Text (List ℕ) → QueryReply
bounded_reply (ok payload) =
    if leb (length payload) max_payload_bytes
    then reply payload
    else reply_err (text "Fabric response exceeds 64 KiB")
bounded_reply (err error) =
    if leb (len error) max_payload_bytes
    then reply_err error
    else reply_err (text "Fabric handler error exceeds 64 KiB")

-- The handlers of the bindings are arguments.
abbrev pub Handlers : Type 0
Handlers = ℕ → RuntimeHostSnapshot → List ℕ → Result Text (List ℕ)

unfoldable pub serve_request : Handlers → Serving → QueryReply
serve_request handlers s =
    if not (is_ready s.runtime_snapshot.state)
    then reply_err (text "RuntimeHost is not ready")
    else bounded_reply
        (handlers s.admitted.binding_index s.runtime_snapshot (payload_of s.admitted.query.payload))

-- One turn of the loop of `dispatch_requests`, once it may take a request and there is one.
unfoldable pub dispatch :
    Ingress → AdmittedQuery → List AdmittedQuery → RuntimeHostSnapshot → Ingress
dispatch ingress admitted rest snapshot = record ingress {
  queue = rest;
  in_flight = ingress.in_flight ++ record { admitted = admitted; runtime_snapshot = snapshot } ∷ [];
}

abbrev pub without : ℕ → List Serving → List Serving
without i [] = []
without zero (s ∷ ss) = ss
without (suc i) (s ∷ ss) = s ∷ without i ss

-- A reply is issued; whether it arrives, or its time runs out, is not looked at.
unfoldable pub complete_request : Handlers → Ingress → ℕ → Serving → Ingress
complete_request handlers ingress i s =
    answer_query s.admitted.query (serve_request handlers s)
      (record ingress { in_flight = without i ingress.in_flight })

abbrev pub queued_ids : List AdmittedQuery → List ℕ
queued_ids [] = []
queued_ids (a ∷ queue) = a.query.id ∷ queued_ids queue

abbrev pub serving_ids : List Serving → List ℕ
serving_ids [] = []
serving_ids (s ∷ ss) = s.admitted.query.id ∷ serving_ids ss

-- The dispatcher's task is aborted: what it holds is dropped without an answer.
unfoldable pub abort : Ingress → Ingress
abort ingress = record ingress {
  admission_open = false;
  receiving = false;
  queue = [];
  in_flight = [];
  dropped = ingress.dropped ++ (queued_ids ingress.queue ++ serving_ids ingress.in_flight);
}

pub data Step (handlers : Handlers) : Ingress → Ingress → List ℕ → Type 0 where
  opens : (s : Ingress) → Step handlers s (record s { admission_open = true }) []
  arrives :
      (s : Ingress) (binding_index : ℕ) (query : Query)
      → Step handlers s (admit_query s binding_index query) (query.id ∷ [])
  dispatches :
      (s : Ingress) (admitted : AdmittedQuery) (rest : List AdmittedQuery)
      (snapshot : RuntimeHostSnapshot)
      → s.receiving ≡ true
      → s.queue ≡ admitted ∷ rest
      → length s.in_flight < max_in_flight_requests
      → Step handlers s (dispatch s admitted rest snapshot) []
  completes :
      (s : Ingress) (i : ℕ) (serving : Serving)
      → get_elem? s.in_flight i ≡ some serving
      → Step handlers s (complete_request handlers s i serving) []
  closes : (s : Ingress) → Step handlers s (record s { admission_open = false }) []
  ends :
      (s : Ingress)
      → s.admission_open ≡ false
      → s.queue ≡ []
      → Step handlers s (record s { receiving = false }) []
  aborts : (s : Ingress) → Step handlers s (abort s) []

-- The queries that arrived on the way are listed.
pub data Reach (handlers : Handlers) : Ingress → List ℕ → Type 0 where
  initial : Reach handlers new_ingress []
  after :
      {s t : Ingress} {arrived more : List ℕ}
      → Reach handlers s arrived
      → Step handlers s t more
      → Reach handlers t (arrived ++ more)

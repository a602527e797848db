-- ===== src/Agent/Transport/Conversation.antt =====
-- The client and the server of crates/paraegox-agent/src/transport.rs together.
use para_egox.Prelude.{
  ℕ, ◌+◌, ◌*◌, ◌≤◌, ◌≡◌, refl, sym, ◌∙◌, subst, true, ◌&&◌, some, arith, ltb, ◌==◌, Result, ok, err,
  ◌>>=◌, Option-cases, Result-cases, Bool-cases, inl, inr,
}
use para_egox.Text.{Text}
use para_egox.Agent.Types.{
  TurnResult, CancelResult, WireResponse, turn, cancel, validate_input, validate_turn_deadline,
}
use para_egox.Agent.Transport.{
  WireRequest, submit_request, cancel_request, TransportError, abort_error, response_not_encoded,
  response_not_decoded, turn_mismatch, cancel_for_turn, cancel_mismatch, turn_for_cancel, Bytes,
  Codec, AgentHandle, max_duration, client_reply_grace, or_error, wire_deadline_ms,
  client_reply_deadline, serve, serve_wire_request, request, accept_turn, submit_turn,
  accept_cancel, cancel_turn,
}

-- What is encoded is decoded as itself.
abbrev pub RoundTrips : Codec → Type 0
RoundTrips codec =
    ((r : WireRequest) (b : Bytes)
      → codec.encode_request r ≡ some b
      → codec.decode_request b ≡ some r)
    × ((r : WireResponse) (b : Bytes)
        → codec.encode_response r ≡ some b
        → codec.decode_response b ≡ some r)

-- What comes back is what the server of the handle sends for the same bytes.
abbrev pub Carries : Codec → AgentHandle → (Bytes → ℕ → Result Text Bytes) → Type 0
Carries codec handle ask =
    (payload : Bytes) (deadline : ℕ) (reply : Bytes)
    → ask payload deadline ≡ ok reply
    → serve_wire_request codec handle payload ≡ ok reply

-- An error that is no response of the wrong kind or of another turn.
abbrev pub IsProper : TransportError → Type 0
IsProper turn_mismatch = ⊥
IsProper cancel_for_turn = ⊥
IsProper cancel_mismatch = ⊥
IsProper turn_for_cancel = ⊥
IsProper e = Unit {0}

-- A submission's result is the handle's, for a deadline that it accepts and that is not behind the
-- client's.
abbrev pub IsSubmitted : AgentHandle → ℕ → ℕ → Text → ℕ → Result TransportError TurnResult → Type 0
IsSubmitted handle session_id turn_id input deadline (ok result) =
    (ms : ℕ) × (handle.submit_turn session_id turn_id input (ms * 1000000) ≡ ok result)
    × (validate_turn_deadline (ms * 1000000) ≡ ok tt)
    × (ms * 1000000 ≤ deadline)
IsSubmitted handle session_id turn_id input deadline (err e) = IsProper e

abbrev pub IsCancelled : AgentHandle → ℕ → ℕ → Result TransportError CancelResult → Type 0
IsCancelled handle session_id turn_id (ok result) =
    handle.cancel_turn session_id turn_id ≡ ok result
IsCancelled handle session_id turn_id (err e) = IsProper e

wire_deadline_ms_lem :
    (deadline ms : ℕ)
    → wire_deadline_ms deadline ≡ ok ms
    → (validate_turn_deadline (ms * 1000000) ≡ ok tt) × (ms * 1000000 ≤ deadline)
unfolding wire_deadline_ms validate_turn_deadline
wire_deadline_ms_lem deadline ms h = ground arith

wire_deadline_ms-IsProper :
    (deadline : ℕ) (e : TransportError) → wire_deadline_ms deadline ≡ err e → IsProper e
unfolding wire_deadline_ms validate_turn_deadline
wire_deadline_ms-IsProper deadline turn_mismatch h = ground arith
wire_deadline_ms-IsProper deadline cancel_for_turn h = ground arith
wire_deadline_ms-IsProper deadline cancel_mismatch h = ground arith
wire_deadline_ms-IsProper deadline turn_for_cancel h = ground arith
wire_deadline_ms-IsProper deadline e h = tt

module _ (codec : Codec) (handle : AgentHandle) (ask : Bytes → ℕ → Result Text Bytes) where
  abbrev IsResponse : WireRequest → Result TransportError WireResponse → Type 0
  IsResponse wire_request (ok response) = serve codec handle wire_request ≡ ok response
  IsResponse wire_request (err e) = IsProper e

  served-IsResponse :
      (wire_request : WireRequest) (payload reply : Bytes)
      → RoundTrips codec
      → codec.encode_request wire_request ≡ some payload
      → serve_wire_request codec handle payload ≡ ok reply
      → IsResponse wire_request (or_error (codec.decode_response reply) response_not_decoded)
  unfolding serve_wire_request
  served-IsResponse wire_request payload reply (requests, responses) e h =
      let decoded = requests wire_request payload e in
      elim (Result-cases (serve codec handle wire_request)) [
        | inr (error, f) ↦
            let computed : serve_wire_request codec handle payload ≡ err error =
              rw (decoded, serve_wire_request, f) refl in
            absurd (ground (arith, sym computed ∙ h))
        | inl (response, f) ↦ elim (Option-cases (codec.encode_response response)) [
          | inl g ↦
              let computed : serve_wire_request codec handle payload ≡ err response_not_encoded =
                rw (decoded, serve_wire_request, f, g) refl in
              absurd (ground (arith, sym computed ∙ h))
          | inr (b, g) ↦
              let computed : serve_wire_request codec handle payload ≡ ok b =
                rw (decoded, serve_wire_request, f, g) refl in
              let same : b ≡ reply = ground (arith, sym computed ∙ h) in
              subst
                (λ bytes.
                  IsResponse wire_request
                    (or_error (codec.decode_response bytes) response_not_decoded))
                same (rw (responses response b g) f)
        ]
      ]

  request-IsResponse :
      (wire_request : WireRequest) (deadline : ℕ)
      → RoundTrips codec
      → Carries codec handle ask
      → IsResponse wire_request (request codec ask wire_request deadline)
  unfolding request
  request-IsResponse wire_request deadline trips carried =
      elim (Option-cases (codec.encode_request wire_request)) [
        | inl e ↦ rw (e, request) tt
        | inr (payload, e) ↦ elim (Result-cases (ask payload deadline)) [
          | inr (error, f) ↦ rw (e, request, f) tt
          | inl (reply, f) ↦
              rw (e, request, f)
                (served-IsResponse wire_request payload reply trips e
                  (carried payload deadline reply f))
        ]
      ]

  accept_turn-IsSubmitted :
      (session_id turn_id : ℕ) (input : Text) (deadline ms : ℕ) (response : WireResponse)
      → wire_deadline_ms deadline ≡ ok ms
      → serve codec handle (submit_request session_id turn_id input ms) ≡ ok response
      → IsSubmitted handle session_id turn_id input deadline
          (accept_turn codec ask session_id turn_id response)
  accept_turn-IsSubmitted session_id turn_id input deadline ms response d h =
      elim (Result-cases (handle.submit_turn session_id turn_id input (ms * 1000000))) [
        | inr (e, f) ↦
            let computed : serve codec handle (submit_request session_id turn_id input ms)
                ≡ err (abort_error e) =
              rw f refl in
            absurd (ground (arith, sym computed ∙ h))
        | inl (result, f) ↦
            let computed : serve codec handle (submit_request session_id turn_id input ms)
                ≡ ok (turn result) =
              rw f refl in
            let same : turn result ≡ response = ground (arith, sym computed ∙ h) in
            let (own_session, own_turn) =
              handle.answers session_id turn_id input (ms * 1000000) result f in
            let own : ((result.session_id == session_id) && (result.turn_id == turn_id)) ≡ true =
              ground arith in
            subst
              (λ r.
                IsSubmitted handle session_id turn_id input deadline
                  (accept_turn codec ask session_id turn_id r))
              same
              (rw own (
                let (accepted, shorter) = wire_deadline_ms_lem deadline ms d in
                (ms, f, accepted, shorter)))
      ]

  accept_cancel-IsCancelled :
      (session_id turn_id : ℕ) (response : WireResponse)
      → serve codec handle (cancel_request session_id turn_id) ≡ ok response
      → IsCancelled handle session_id turn_id (accept_cancel codec ask session_id turn_id response)
  accept_cancel-IsCancelled session_id turn_id response h =
      elim (Result-cases (handle.cancel_turn session_id turn_id)) [
        | inr (e, f) ↦
            let computed : serve codec handle (cancel_request session_id turn_id)
                ≡ err (abort_error e) =
              rw f refl in
            absurd (ground (arith, sym computed ∙ h))
        | inl (result, f) ↦
            let computed : serve codec handle (cancel_request session_id turn_id)
                ≡ ok (cancel session_id turn_id result) =
              rw f refl in
            let same : cancel session_id turn_id result ≡ response =
              ground (arith, sym computed ∙ h) in
            let own : ((session_id == session_id) && (turn_id == turn_id)) ≡ true = ground arith in
            subst
              (λ r.
                IsCancelled handle session_id turn_id
                  (accept_cancel codec ask session_id turn_id r))
              same (rw own f)
      ]

  -- Behind a request, what is done with its response.
  answered_request :
      {A : Type 0} (P : Result TransportError A → Type 0) (wire_request : WireRequest)
      (deadline : ℕ) (k : WireResponse → Result TransportError A)
      → RoundTrips codec
      → Carries codec handle ask
      → ((e : TransportError) → IsProper e → P (err e))
      → ((response : WireResponse) → serve codec handle wire_request ≡ ok response → P (k response))
      → P (request codec ask wire_request deadline >>= k)
  answered_request P wire_request deadline k trips carried failed next =
      let h = request-IsResponse wire_request deadline trips carried in
      elim (Result-cases (request codec ask wire_request deadline)) [
        | inl (response, e) ↦ rw e (next response (subst (IsResponse wire_request) e h))
        | inr (error, e) ↦ rw e (failed error (subst (IsResponse wire_request) e h))
      ]

  submit_turn-IsSubmitted :
      (session_id turn_id : ℕ) (input : Text) (deadline : ℕ)
      → RoundTrips codec
      → Carries codec handle ask
      → IsSubmitted handle session_id turn_id input deadline
          (submit_turn codec ask session_id turn_id input deadline)
  unfolding submit_turn client_reply_deadline
  submit_turn-IsSubmitted session_id turn_id input deadline trips carried =
      elim (Result-cases (validate_input input)) [
        | inr (e, f) ↦ rw (f, submit_turn) tt
        | inl (_, f) ↦ elim (Result-cases (wire_deadline_ms deadline)) [
          | inr (e, g) ↦ rw (f, submit_turn, g) (wire_deadline_ms-IsProper deadline e g)
          | inl (ms, g) ↦ elim (Bool-cases (ltb max_duration (deadline + client_reply_grace))) [
            | inl large ↦ rw (f, submit_turn, g, large) tt
            | inr fits ↦
                rw (f, submit_turn, g, fits)
                  (answered_request (IsSubmitted handle session_id turn_id input deadline)
                    (submit_request session_id turn_id input ms) (deadline + client_reply_grace)
                    (accept_turn codec ask session_id turn_id) trips carried (λ e proper. proper)
                    (λ response h.
                      accept_turn-IsSubmitted session_id turn_id input deadline ms response g h))
          ]
        ]
      ]

  cancel_turn-IsCancelled :
      (session_id turn_id deadline : ℕ)
      → RoundTrips codec
      → Carries codec handle ask
      → IsCancelled handle session_id turn_id (cancel_turn codec ask session_id turn_id deadline)
  unfolding cancel_turn
  cancel_turn-IsCancelled session_id turn_id deadline trips carried =
      answered_request (IsCancelled handle session_id turn_id) (cancel_request session_id turn_id)
        deadline (accept_cancel codec ask session_id turn_id) trips carried (λ e proper. proper)
        (λ response h. accept_cancel-IsCancelled session_id turn_id response h)

-- What the client returns for a submission or a cancellation is what the handle at the other end
-- returned for it; the deadline that the handle gets is one it accepts and not behind the client's. No
-- response is of another turn or of the wrong kind. The conditions are that the encodings round-trip
-- and that what is carried back is what the server sent for the same bytes.
pub conversation_lem :
    (codec : Codec) (handle : AgentHandle) (ask : Bytes → ℕ → Result Text Bytes)
    (session_id turn_id : ℕ) (input : Text) (deadline : ℕ)
    → RoundTrips codec
    → Carries codec handle ask
    → IsSubmitted handle session_id turn_id input deadline
        (submit_turn codec ask session_id turn_id input deadline)
      × IsCancelled handle session_id turn_id (cancel_turn codec ask session_id turn_id deadline)
conversation_lem codec handle ask session_id turn_id input deadline trips carried = (
  submit_turn-IsSubmitted codec handle ask session_id turn_id input deadline trips carried,
  cancel_turn-IsCancelled codec handle ask session_id turn_id deadline trips carried,
)

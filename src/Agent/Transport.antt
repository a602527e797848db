-- ===== src/Agent/Transport.antt =====
-- crates/paraegox-agent/src/transport.rs: a conversation over Fabric. The encodings of serde_json are
-- parameters; the client asks through `ask`, which stands for `FabricClient::request_one`.
pub mod Conversation
pub mod Handle
use para_egox.Prelude.{
  ℕ, zero, suc, ◌+◌, ◌*◌, ◌/◌, ◌^◌, ◌-◌, ◌≡◌, Bool, true, false, ◌&&◌, Option, none, some, List, [],
  ◌∷◌, ◌++◌, ltb, ◌==◌, if◌then◌else◌, Result, ok, err, ◌>>=◌, ◌>>◌, reject_if,
}
use para_egox.Text.{Text, text}
use para_egox.Agent.State.{Abort, rejected, panicked}
use para_egox.Agent.Types.{
  AgentError, TurnResult, CancelResult, WireResponse, turn, cancel, validate_input,
  validate_turn_deadline,
}

-- 250 milliseconds, and `Duration::MAX`, in nanoseconds.
abbrev pub client_reply_grace : ℕ
client_reply_grace = 250000000

abbrev pub max_duration : ℕ
max_duration = 2 ^ 64 * 1000000000 - 1

pub data WireRequest : Type 0 where
  submit_request : ℕ → ℕ → Text → ℕ → WireRequest
  cancel_request : ℕ → ℕ → WireRequest

pub data TransportError : Type 0 where
  refused : AgentError → TransportError
  handle_panicked : TransportError
  request_not_encoded request_not_decoded response_not_encoded response_not_decoded : TransportError
  deadline_too_large deadline_too_small reply_deadline_too_large : TransportError
  turn_mismatch cancel_for_turn cancel_mismatch turn_for_cancel : TransportError
  request_failed : Text → TransportError

abbrev pub Bytes : Type 0
Bytes = List ℕ

-- The encodings of requests and responses.
pub record Codec : Type 0 where
  pub encode_request : WireRequest → Option Bytes
  pub decode_request : Bytes → Option WireRequest
  pub encode_response : WireResponse → Option Bytes
  pub decode_response : Bytes → Option WireResponse

-- What the adapter asks of an `AgentHandle`: a submission until its terminal, and a cancellation. A
-- result is that of the turn submitted.
pub record AgentHandle : Type 0 where
  pub submit_turn : ℕ → ℕ → Text → ℕ → Result Abort TurnResult
  pub cancel_turn : ℕ → ℕ → Result Abort CancelResult
  pub answers :
      (session_id turn_id : ℕ) (input : Text) (deadline : ℕ) (result : TurnResult)
      → submit_turn session_id turn_id input deadline ≡ ok result
      → (result.session_id ≡ session_id) × (result.turn_id ≡ turn_id)

abbrev pub or_error {ℓ} : {A : Type ℓ} → Option A → TransportError → Result TransportError A
or_error (some a) e = ok a
or_error none e = err e

abbrev pub refusing {ℓ} : {A : Type ℓ} → Result AgentError A → Result TransportError A
refusing (ok a) = ok a
refusing (err e) = err (refused e)

abbrev pub abort_error : Abort → TransportError
abort_error (rejected e) = refused e
abort_error panicked = handle_panicked

abbrev pub aborting {ℓ} : {A : Type ℓ} → Result Abort A → Result TransportError A
aborting (ok a) = ok a
aborting (err e) = err (abort_error e)

abbrev pub failing {ℓ} : {A : Type ℓ} → Result Text A → Result TransportError A
failing (ok a) = ok a
failing (err e) = err (request_failed e)

unfoldable pub agent_query_key : Text → Text
agent_query_key node_id = text "paraegox/v1/nodes/" ++ node_id ++ text "/agent/conversation"

unfoldable pub wire_deadline_ms : ℕ → Result TransportError ℕ
wire_deadline_ms deadline = do
  refusing (validate_turn_deadline deadline)
  reject_if (ltb (2 ^ 64 - 1) (deadline / 1000000)) deadline_too_large
  reject_if (deadline / 1000000 == 0) deadline_too_small
  ok (deadline / 1000000)

unfoldable pub client_reply_deadline : ℕ → Result TransportError ℕ
client_reply_deadline deadline =
    if ltb max_duration (deadline + client_reply_grace)
    then err reply_deadline_too_large
    else ok (deadline + client_reply_grace)

module _ (codec : Codec) where
  -- `serve_wire_request`, behind its decoding.
  abbrev pub serve : AgentHandle → WireRequest → Result TransportError WireResponse
  serve handle (submit_request session_id turn_id input deadline_ms) = do
    result ← aborting (handle.submit_turn session_id turn_id input (deadline_ms * 1000000))
    ok (turn result)
  serve handle (cancel_request session_id turn_id) = do
    result ← aborting (handle.cancel_turn session_id turn_id)
    ok (cancel session_id turn_id result)

  unfoldable pub serve_wire_request : AgentHandle → Bytes → Result TransportError Bytes
  serve_wire_request handle payload = do
    request ← or_error (codec.decode_request payload) request_not_decoded
    response ← serve handle request
    or_error (codec.encode_response response) response_not_encoded

  module _ (ask : Bytes → ℕ → Result Text Bytes) where
    -- `AgentConversationClient::request`.
    unfoldable pub request : WireRequest → ℕ → Result TransportError WireResponse
    request wire_request deadline = do
      payload ← or_error (codec.encode_request wire_request) request_not_encoded
      response ← failing (ask payload deadline)
      or_error (codec.decode_response response) response_not_decoded

    abbrev pub accept_turn : ℕ → ℕ → WireResponse → Result TransportError TurnResult
    accept_turn session_id turn_id (turn result) =
        if (result.session_id == session_id) && (result.turn_id == turn_id)
        then ok result
        else err turn_mismatch
    accept_turn session_id turn_id (cancel s t result) = err cancel_for_turn

    unfoldable pub submit_turn : ℕ → ℕ → Text → ℕ → Result TransportError TurnResult
    submit_turn session_id turn_id input deadline = do
      refusing (validate_input input)
      deadline_ms ← wire_deadline_ms deadline
      reply_deadline ← client_reply_deadline deadline
      response ← request (submit_request session_id turn_id input deadline_ms) reply_deadline
      accept_turn session_id turn_id response

    abbrev pub accept_cancel : ℕ → ℕ → WireResponse → Result TransportError CancelResult
    accept_cancel session_id turn_id (cancel s t result) =
        if (s == session_id) && (t == turn_id) then ok result else err cancel_mismatch
    accept_cancel session_id turn_id (turn result) = err turn_for_cancel

    unfoldable pub cancel_turn : ℕ → ℕ → ℕ → Result TransportError CancelResult
    cancel_turn session_id turn_id deadline = do
      response ← request (cancel_request session_id turn_id) deadline
      accept_cancel session_id turn_id response

-- ===== src/Tests/Nodes.antt =====
-- Runs of a Node of crates/paraegox-node and of the conversation of crates/paraegox-agent with it.
use para_egox.Prelude.{
  ℕ, zero, suc, ◌≡◌, ◌≢◌, refl, sym, ◌∙◌, ap, true, not, Option, none, some, [], ◌∷◌, arith, Result,
  ok, err, list_beq, Result-cases, inl, inr,
}
use para_egox.Text.{
  Text, text, len, len_utf8, as_bytes, encode_utf8, is_empty, is_ascii_alphanumeric,
}
use para_egox.Kernel.{parse_node_id, is_node_id_byte}
use para_egox.Fabric.{validate_loopback_endpoint, parse_u16}
use para_egox.Runtime.Status.{RuntimeHostIdentity, RuntimeHostState}
use para_egox.Agent.Types.{
  TurnTerminal, final, cancelled, timed_out, failed, cancellation_requested, already_terminal,
  not_active, WireResponse, turn, cancel, builtin_agent_definition,
  deepseek_v4_flash_agent_definition,
}
use para_egox.Agent.Transport.{
  WireRequest, submit_request, cancel_request, Bytes, Codec, AgentHandle, serve_wire_request,
  submit_turn, agent_query_key, cancel_turn,
}
use para_egox.Agent.System.{System, replied}
use para_egox.Agent.Transport.Handle.{service_handle}
use para_egox.Tests.Agent.{idle, busy_state, size_of}
use para_egox.Agent.Transport.Conversation.{Carries, IsSubmitted, IsCancelled, conversation_lem}
use para_egox.Node.{
  NodeIdentity, NodeRuntimeStatus, World, probe_peer, runtime_status_key, decode_runtime_status,
  new_with_builtin_agent, new_with_deepseek_v4_flash_agent,
}
use para_egox.Node.Building.{TakesKeys, IsAgentNode, new_with_agent-IsAgentNode}
use para_egox.Node.Status.{IsProbed, probe_peer_lem}

abbrev world : World
world = record {
  key_expr_valid = λ key. not (is_empty key);
  sha256 = λ bytes. 1 ∷ [];
  deck_run_id = 40;
  new_id = λ n. n;
}

abbrev node_a : NodeIdentity
node_a = record { node_id = text "node-a"; incarnation = 3 }

abbrev runtime_a : RuntimeHostIdentity
runtime_a = record { runtime_host_id = text "node-a:runtime-0"; epoch = 5 }

node_a_parsed : parse_node_id (text "node-a") ≡ ok (text "node-a")
unfolding parse_node_id len len_utf8 as_bytes encode_utf8 is_node_id_byte is_ascii_alphanumeric
node_a_parsed = refl

keys_taken : TakesKeys world (text "node-a")
unfolding runtime_status_key agent_query_key
keys_taken = (refl, refl)

endpoint_here : validate_loopback_endpoint (text "tcp/127.0.0.1:7447") ≡ ok tt
unfolding validate_loopback_endpoint parse_u16
endpoint_here = refl

new_with_agent-IsAgentNode_example :
    IsAgentNode world node_a runtime_a builtin_agent_definition
      (new_with_builtin_agent world node_a runtime_a (text "tcp/127.0.0.1:7447") none)
    × IsAgentNode world node_a runtime_a deepseek_v4_flash_agent_definition (
        new_with_deepseek_v4_flash_agent world node_a runtime_a
          (ok tt)
          (text "tcp/127.0.0.1:7447")
          none)
new_with_agent-IsAgentNode_example =
    new_with_agent-IsAgentNode world node_a runtime_a (text "tcp/127.0.0.1:7447") none node_a_parsed
      keys_taken endpoint_here refl

abbrev status_b : NodeRuntimeStatus
status_b = record {
  node = record { node_id = text "node-b"; incarnation = 4 };
  runtime = record { identity = runtime_a; state = RuntimeHostState.ready; deck_run = none };
  fabric_ready = true;
}

abbrev read_b : Bytes → Option NodeRuntimeStatus
read_b bytes = some status_b

abbrev write_b : NodeRuntimeStatus → Option Bytes
write_b status = some (9 ∷ [])

abbrev asked : Text → Result Text Bytes
asked key = ok (9 ∷ [])

probed_b : probe_peer read_b write_b asked node_a (text "node-b") ≡ ok status_b
unfolding probe_peer decode_runtime_status list_beq
probed_b = refl

probe_peer_lem_example :
    (text "node-b" ≢ text "node-a") × IsProbed read_b asked (text "node-b") status_b
probe_peer_lem_example =
    probe_peer_lem read_b write_b asked node_a (text "node-b") status_b probed_b

-- Encodings of what the conversation below sends.
abbrev write_request : WireRequest → Option Bytes
write_request (submit_request s t input ms) = some (0 ∷ s ∷ t ∷ ms ∷ input)
write_request (cancel_request s t) = some (1 ∷ s ∷ t ∷ [])

abbrev read_request : Bytes → Option WireRequest
read_request (zero ∷ s ∷ t ∷ ms ∷ input) = some (submit_request s t input ms)
read_request (suc zero ∷ s ∷ t ∷ []) = some (cancel_request s t)
read_request _ = none

abbrev write_turn : ℕ → ℕ → TurnTerminal → Option Bytes
write_turn s t (final content) = some (0 ∷ s ∷ t ∷ content)
write_turn s t cancelled = none
write_turn s t timed_out = none
write_turn s t (failed reason) = none

abbrev write_response : WireResponse → Option Bytes
write_response (turn result) = write_turn result.session_id result.turn_id result.terminal
write_response (cancel s t cancellation_requested) = some (1 ∷ s ∷ t ∷ [])
write_response (cancel s t (already_terminal terminal)) = none
write_response (cancel s t not_active) = none

abbrev read_response : Bytes → Option WireResponse
read_response (zero ∷ s ∷ t ∷ content) =
    some (turn (record { session_id = s; turn_id = t; terminal = final content }))
read_response (suc zero ∷ s ∷ t ∷ []) = some (cancel s t cancellation_requested)
read_response _ = none

abbrev codec : Codec
codec = record {
  encode_request = write_request;
  decode_request = read_request;
  encode_response = write_response;
  decode_response = read_response;
}

request_trip : (r : WireRequest) (b : Bytes) → write_request r ≡ some b → read_request b ≡ some r
request_trip (submit_request s t input ms) b e =
    let same : 0 ∷ s ∷ t ∷ ms ∷ input ≡ b = ground arith in sym (ap read_request same)
request_trip (cancel_request s t) b e =
    let same : 1 ∷ s ∷ t ∷ [] ≡ b = ground arith in sym (ap read_request same)

turn_trip :
    (s t : ℕ) (terminal : TurnTerminal) (b : Bytes)
    → write_turn s t terminal ≡ some b
    → read_response b ≡ some (turn (record { session_id = s; turn_id = t; terminal = terminal }))
turn_trip s t (final content) b e =
    let same : 0 ∷ s ∷ t ∷ content ≡ b = ground arith in sym (ap read_response same)
turn_trip s t cancelled b e = absurd (ground arith)
turn_trip s t timed_out b e = absurd (ground arith)
turn_trip s t (failed reason) b e = absurd (ground arith)

response_trip :
    (r : WireResponse) (b : Bytes) → write_response r ≡ some b → read_response b ≡ some r
response_trip (turn result) b e = turn_trip result.session_id result.turn_id result.terminal b e
response_trip (cancel s t cancellation_requested) b e =
    let same : 1 ∷ s ∷ t ∷ [] ≡ b = ground arith in sym (ap read_response same)
response_trip (cancel s t (already_terminal terminal)) b e = absurd (ground arith)
response_trip (cancel s t not_active) b e = absurd (ground arith)

-- The service with an idle conversation, whose next turn is completed with the provider's answer.
abbrev idle_system : System
idle_system = record { owner = true; state = idle; in_flight = [] }

abbrev answering : AgentHandle
answering = service_handle size_of idle_system busy_state (replied (text "fine"))

abbrev bytes_or_failure : {E : Type 0} → Result E Bytes → Result Text Bytes
bytes_or_failure (ok bytes) = ok bytes
bytes_or_failure (err e) = err (text "no reply")

abbrev ask : Bytes → ℕ → Result Text Bytes
ask payload deadline = bytes_or_failure (serve_wire_request codec answering payload)

ask-Carries : Carries codec answering ask
ask-Carries payload deadline reply e =
    elim (Result-cases (serve_wire_request codec answering payload)) [
      | inl (bytes, f) ↦
          let same : bytes ≡ reply = ground (arith, sym (ap bytes_or_failure f) ∙ e) in
          f ∙ ap ok same
      | inr (error, f) ↦ absurd (ground (arith, sym (ap bytes_or_failure f) ∙ e))
    ]

conversation_lem_example :
    IsSubmitted answering 5 2
      (text "again")
      2500000000
      (submit_turn codec ask 5 2 (text "again") 2500000000)
    × IsCancelled answering 5 2 (cancel_turn codec ask 5 2 2500000000)
conversation_lem_example =
    conversation_lem codec answering ask 5 2 (text "again") 2500000000 (request_trip, response_trip)
      ask-Carries

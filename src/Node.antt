-- ===== src/Node.antt =====
-- crates/paraegox-node/src/lib.rs: a Node, which puts the Deck, the RuntimeHost, the Fabric and the
-- Agent together, and the status that it reports and probes. `key_expr_valid` is Zenoh's check of a key,
-- `sha256` the hash of a Deck's lock, and the identities are those of `Uuid::new_v4`.
pub mod Building
pub mod Status
use para_egox.Prelude.{
  ℕ, Bool, true, false, ◌&&◌, ◌||◌, not, Option, none, some, List, [], ◌∷◌, ◌++◌, ◌==◌, ◌=?◌,
  nat_eq, list_eq, if◌then◌else◌, Result, ok, err, ◌>>=◌, ◌>>◌, reject_if,
}
use para_egox.Text.{Text, text}
use para_egox.Deck.{Card, DeckSpec, DeckLock, DeckCompiler, DeckCompileError, new_compiler, compile}
use para_egox.Fabric.{FabricError, validate_exact_binding_key, new_with_bindings}
use para_egox.Runtime.Status.{RuntimeHostIdentity, RuntimeHostSnapshot, RuntimeHostState, ready}
use para_egox.Runtime.Deck.{CardImplementation, DeckLaunch, DeckLaunchError, new_launch}
use para_egox.Runtime.Host.{RuntimeHost, RuntimeHostBuildError}
use para_egox.Runtime.Lifecycle.{build}
use para_egox.Agent.Types.{AgentError, builtin_agent_definition, deepseek_v4_flash_agent_definition}
use para_egox.Agent.Transport.{agent_query_key}

pub record NodeIdentity : Type 0 where
  pub node_id : Text
  pub incarnation : ℕ

pub record NodeRuntimeStatus : Type 0 where
  pub node : NodeIdentity
  pub runtime : RuntimeHostSnapshot
  pub fabric_ready : Bool

pub data NodeStatusError : Type 0 where
  not_ready self_probe identity_mismatch invalid_json not_encoded : NodeStatusError
  query_failed : Text → NodeStatusError

pub data NodeBuildError : Type 0 where
  fabric_error : FabricError → NodeBuildError
  compile_error : DeckCompileError → NodeBuildError
  launch_error : DeckLaunchError → NodeBuildError
  host_error : RuntimeHostBuildError → NodeBuildError
  agent_error : AgentError → NodeBuildError

-- The keys of the Fabric's bindings stand for the Fabric's handle.
pub record Node : Type 0 where
  pub identity : NodeIdentity
  pub runtime : RuntimeHost
  pub bindings : List Text

abbrev pub context {ℓ κ} :
    {A : Type ℓ} {E : Type κ} → (E → NodeBuildError) → Result E A → Result NodeBuildError A
context wrap (ok a) = ok a
context wrap (err e) = err (wrap e)

unfoldable pub runtime_status_key : Text → Text
runtime_status_key node_id = text "paraegox/v1/nodes/" ++ node_id ++ text "/runtime/status"

abbrev pub is_ready : RuntimeHostState → Bool
is_ready ready = true
is_ready _ = false

-- `NodeRuntimeStatus::ready`.
unfoldable pub ready_status :
    NodeIdentity → RuntimeHostSnapshot → Result NodeStatusError NodeRuntimeStatus
ready_status node runtime = do
  reject_if (not (is_ready runtime.state)) not_ready
  ok (record { node = node; runtime = runtime; fabric_ready = true })

-- The identities that are drawn, and what is not under this code.
pub record World : Type 0 where
  pub key_expr_valid : Text → Bool
  pub sha256 : List ℕ → List ℕ
  pub deck_run_id : ℕ
  pub new_id : ℕ → ℕ

module _ (world : World) (identity : NodeIdentity) (runtime_identity : RuntimeHostIdentity) where
  -- `FabricQueryBinding::new`, which keeps the key.
  abbrev pub query_binding : Text → Result NodeBuildError Text
  query_binding key = do
    context fabric_error (validate_exact_binding_key world.key_expr_valid key)
    ok key

  unfoldable pub new : Text → Option Text → Result NodeBuildError Node
  new listen_endpoint connect_endpoint = do
    status ← query_binding (runtime_status_key identity.node_id)
    context fabric_error
        (new_with_bindings world.key_expr_valid listen_endpoint connect_endpoint (status ∷ []))
    runtime ← context host_error (build world.deck_run_id world.new_id runtime_identity 1 none)
    ok (record { identity = identity; runtime = runtime; bindings = status ∷ [] })

  -- From the compiler on: the Deck of one Agent Card, and the host of Fabric and Agent.
  abbrev pub host_of : Text → Result NodeBuildError RuntimeHost
  host_of definition = do
    compiler ← context compile_error (new_compiler (definition ∷ []))
    lock ← context compile_error (
        compile world.sha256 compiler (record {
          key = text "builtin-agent";
          cards = record { key = text "agent"; definition = definition } ∷ [];
        }))
    launch ←
        context launch_error
          (new_launch lock (record { card_key = text "agent"; definition = definition } ∷ []))
    context host_error (build world.deck_run_id world.new_id runtime_identity 2 (some launch))

  abbrev pub agent_node : Text → Text → Option Text → Result NodeBuildError Node
  agent_node definition listen_endpoint connect_endpoint = do
    status ← query_binding (runtime_status_key identity.node_id)
    conversation ← query_binding (agent_query_key identity.node_id)
    context fabric_error (
        new_with_bindings world.key_expr_valid listen_endpoint connect_endpoint
          (status ∷ conversation ∷ []))
    runtime ← host_of definition
    ok (record { identity = identity; runtime = runtime; bindings = status ∷ conversation ∷ [] })

  unfoldable pub new_with_builtin_agent : Text → Option Text → Result NodeBuildError Node
  new_with_builtin_agent listen_endpoint connect_endpoint =
      agent_node builtin_agent_definition listen_endpoint connect_endpoint

  -- The result of `AgentService::with_deepseek_v4_flash` comes first.
  unfoldable pub new_with_deepseek_v4_flash_agent :
      Result AgentError (Unit {0}) → Text → Option Text → Result NodeBuildError Node
  new_with_deepseek_v4_flash_agent agent_service listen_endpoint connect_endpoint = do
    context agent_error agent_service
    agent_node deepseek_v4_flash_agent_definition listen_endpoint connect_endpoint

module _ (from_slice : List ℕ → Option NodeRuntimeStatus)
    (to_vec : NodeRuntimeStatus → Option (List ℕ)) where
  unfoldable pub encode_runtime_status :
      NodeIdentity → RuntimeHostSnapshot → Result NodeStatusError (List ℕ)
  encode_runtime_status node runtime = do
    status ← ready_status node runtime
    elim (to_vec status) [ some payload ↦ ok payload | none ↦ err not_encoded ]

  abbrev pub check_status : Text → NodeRuntimeStatus → Result NodeStatusError NodeRuntimeStatus
  check_status target status = do
    reject_if (not (status.node.node_id =? target)) identity_mismatch
    reject_if (not (is_ready status.runtime.state) || not status.fabric_ready) not_ready
    ok status

  unfoldable pub decode_runtime_status : Text → List ℕ → Result NodeStatusError NodeRuntimeStatus
  decode_runtime_status target payload = elim (from_slice payload) [
    | some status ↦ check_status target status
    | none ↦ err invalid_json
  ]

  abbrev pub received : Text → Result Text (List ℕ) → Result NodeStatusError NodeRuntimeStatus
  received target (ok payload) = decode_runtime_status target payload
  received target (err e) = err (query_failed e)

  -- `query` is `FabricHandle::query_one` for a key; the second is `query_one` of a new client.
  unfoldable pub probe_peer :
      (Text → Result Text (List ℕ)) → NodeIdentity → Text → Result NodeStatusError NodeRuntimeStatus
  probe_peer query identity target = do
    reject_if (target =? identity.node_id) self_probe
    received target (query (runtime_status_key target))

  unfoldable pub probe_node :
      (Text → Result Text (List ℕ)) → Text → Result NodeStatusError NodeRuntimeStatus
  probe_node query target = received target (query (runtime_status_key target))

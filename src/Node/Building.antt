-- ===== src/Node/Building.antt =====
-- Whether a Node of crates/paraegox-node/src/lib.rs is built.
use para_egox.Prelude.{
  ℕ, ◌≡◌, ◌≢◌, refl, sym, Bool, true, false, ◌||◌, Option, none, some, List, [], ◌∷◌, ◌++◌, ◌==◌,
  nat_eq, list_eq, list_beq, list_beq_iff, arith, Result, ok, Bool-cases, inl, inr, any, all, elem,
}
use para_egox.Text.{
  Text, text, is_ascii_alphanumeric, is_whitespace, is_control, len, len_utf8, trim, trim_start,
}
use para_egox.Kernel.{parse_node_id, is_node_id_byte}
use para_egox.Kernel.NodeId.{IsNodeId, parse_node_id_iff}
use para_egox.Fabric.{
  validate_exact_binding_key, validate_loopback_endpoint, validate_connect, new_with_bindings,
}
use para_egox.Fabric.Acceptance.{
  new_with_bindings_iff, validate_loopback_endpoint_iff, validate_connect_iff,
  validate_exact_binding_key_iff,
}
use para_egox.Runtime.Status.{RuntimeHostIdentity, RuntimeHostState}
use para_egox.Runtime.Deck.{DeckOwner, new_launch, check_implementations}
use para_egox.Runtime.Host.{RuntimeHost}
use para_egox.Runtime.Lifecycle.{build}
use para_egox.Runtime.Order.{IsWhole}
use para_egox.Deck.{
  Card, new_compiler, accept_definitions, validate_field, compile, resolve_cards, check_card,
  sort_cards, insert_card,
}
use para_egox.Agent.Types.{builtin_agent_definition, deepseek_v4_flash_agent_definition}
use para_egox.Agent.Transport.{agent_query_key}
use para_egox.Node.{
  NodeIdentity, Node, NodeBuildError, World, runtime_status_key, host_of, agent_node,
  new_with_builtin_agent, new_with_deepseek_v4_flash_agent,
}

any-append : (p : ℕ → Bool) (s t : Text) → any p (s ++ t) ≡ (any p s || any p t)
any-append p [] t = refl
any-append p (c ∷ s) t = ground (arith, any-append p s t)

abbrev star : ℕ → Bool
star c = c == 42

not_star : (t : Text) → all is_node_id_byte t ≡ true → any star t ≡ false
unfolding is_node_id_byte is_ascii_alphanumeric
not_star [] h = refl
not_star (c ∷ t) h = ground (arith, not_star t)

same_prefix : (p s t : Text) → p ++ s ≡ p ++ t → s ≡ t
same_prefix [] s t h = h
same_prefix (c ∷ p) s t h = same_prefix p s t (ground arith)

-- The two keys of a Node differ.
keys_differ : (id : Text) → runtime_status_key id ≢ agent_query_key id
unfolding runtime_status_key agent_query_key
keys_differ id h =
    absurd (ground (arith, same_prefix id _ _ (same_prefix (text "paraegox/v1/nodes/") _ _ h)))

-- Zenoh takes the two keys of the Node for valid expressions.
abbrev pub TakesKeys : World → Text → Type 0
TakesKeys world id =
    (world.key_expr_valid (runtime_status_key id) ≡ true)
    × (world.key_expr_valid (agent_query_key id) ≡ true)

status_key-exact :
    (world : World) (id : Text)
    → IsNodeId id
    → TakesKeys world id
    → validate_exact_binding_key world.key_expr_valid (runtime_status_key id) ≡ ok tt
unfolding validate_exact_binding_key runtime_status_key
status_key-exact world id v (valid, _) =
    let plain : any star (runtime_status_key id) ≡ false =
      ground (arith, any-append star id (text "/runtime/status"), not_star id v.every) in
    rw (valid, validate_exact_binding_key, plain) refl

conversation_key-exact :
    (world : World) (id : Text)
    → IsNodeId id
    → TakesKeys world id
    → validate_exact_binding_key world.key_expr_valid (agent_query_key id) ≡ ok tt
unfolding validate_exact_binding_key agent_query_key
conversation_key-exact world id v (_, valid) =
    let plain : any star (agent_query_key id) ≡ false =
      ground (arith, any-append star id (text "/agent/conversation"), not_star id v.every) in
    rw (valid, validate_exact_binding_key, plain) refl

abbrev deck_cards : Option DeckOwner → List Card
deck_cards none = []
deck_cards (some deck) = deck.lock.cards

-- A host of the two services and of the Deck with the one Agent Card, created and with no call of an
-- owner in its trace.
abbrev pub HostsAgent : Text → RuntimeHost → Type 0
HostsAgent definition host =
    (host.core_services ≡ 2)
    × (host.run.snapshot.state ≡ RuntimeHostState.created)
    × (host.run.events ≡ [])
    × IsWhole host.deck
    × (deck_cards host.deck ≡ record { key = text "agent"; definition = definition } ∷ [])

module _ (world : World) (identity : NodeIdentity) (runtime_identity : RuntimeHostIdentity) where
  abbrev IsHosting : Text → Result NodeBuildError RuntimeHost → Type 0
  IsHosting definition r = (host : RuntimeHost) × (r ≡ ok host) × HostsAgent definition host

  builtin_host :
      IsHosting builtin_agent_definition
        (host_of world identity runtime_identity builtin_agent_definition)
  unfolding new_compiler accept_definitions validate_field compile resolve_cards check_card
      sort_cards insert_card new_launch check_implementations build is_whitespace is_control len
      len_utf8 trim trim_start list_beq elem
  builtin_host = (_, refl, (refl, refl, refl, (refl, refl), refl))

  deepseek_host :
      IsHosting deepseek_v4_flash_agent_definition
        (host_of world identity runtime_identity deepseek_v4_flash_agent_definition)
  unfolding new_compiler accept_definitions validate_field compile resolve_cards check_card
      sort_cards insert_card new_launch check_implementations build is_whitespace is_control len
      len_utf8 trim trim_start list_beq elem
  deepseek_host = (_, refl, (refl, refl, refl, (refl, refl), refl))

  -- A Node with the Agent, which answers for its status and for its conversation.
  abbrev pub IsAgentNode : Text → Result NodeBuildError Node → Type 0
  IsAgentNode definition r =
      (node : Node) × (r ≡ ok node)
      × (node.identity ≡ identity)
      × (node.bindings
          ≡ runtime_status_key identity.node_id ∷ agent_query_key identity.node_id ∷ [])
      × HostsAgent definition node.runtime

  keys_built :
      (listen : Text) (connect : Option Text)
      → IsNodeId identity.node_id
      → TakesKeys world identity.node_id
      → validate_loopback_endpoint listen ≡ ok tt
      → validate_connect connect ≡ ok tt
      → new_with_bindings world.key_expr_valid listen connect
          (runtime_status_key identity.node_id ∷ agent_query_key identity.node_id ∷ [])
        ≡ ok tt
  unfolding elem
  keys_built listen connect v takes here there =
      let id = identity.node_id in
      let unlisted : elem (runtime_status_key id) (agent_query_key id ∷ []) ≡ false =
        elim (Bool-cases (list_beq (agent_query_key id) (runtime_status_key id))) [
          | inl same ↦ absurd (
              keys_differ id
                (sym ((list_beq_iff (agent_query_key id) (runtime_status_key id)).0 same)))
          | inr other ↦ ground arith
        ] in
      (new_with_bindings_iff world.key_expr_valid listen connect
          (runtime_status_key id ∷ agent_query_key id ∷ [])).1
        (record {
          listens_here = (validate_loopback_endpoint_iff listen).0 here;
          connects_here = (validate_connect_iff connect).0 there;
          nonempty = omega arith;
          few = omega arith;
          exact = (
            (validate_exact_binding_key_iff world.key_expr_valid (runtime_status_key id)).0
                (status_key-exact world id v takes),
            (
              (validate_exact_binding_key_iff world.key_expr_valid (agent_query_key id)).0
                  (conversation_key-exact world id v takes),
              tt,
            ),
          );
          distinct = (unlisted, (refl, tt));
        })

  agent_node-IsAgentNode :
      (definition listen : Text) (connect : Option Text)
      → IsHosting definition (host_of world identity runtime_identity definition)
      → IsNodeId identity.node_id
      → TakesKeys world identity.node_id
      → validate_loopback_endpoint listen ≡ ok tt
      → validate_connect connect ≡ ok tt
      → IsAgentNode definition
          (agent_node world identity runtime_identity definition listen connect)
  agent_node-IsAgentNode definition listen connect (host, e, h) v takes here there =
      let id = identity.node_id in
      let bindings = runtime_status_key id ∷ agent_query_key id ∷ [] in
      (
        record { identity = identity; runtime = host; bindings = bindings },
        rw
            (
              status_key-exact world id v takes,
              conversation_key-exact world id v takes,
              keys_built listen connect v takes here there,
              e,
            )
            refl,
        refl,
        refl,
        h,
      )

-- For every identity of a Node and endpoints on this machine, the constructors of a Node with an Agent
-- succeed, the second when its AgentService was built: the Fabric takes the two bindings, the Deck
-- compiles, its launch is accepted, and the host has two services, the one Agent Card, the state created
-- and no call of an owner in its trace.
-- The condition on Zenoh is that the two keys are valid expressions.
pub new_with_agent-IsAgentNode :
    (world : World) (identity : NodeIdentity) (runtime_identity : RuntimeHostIdentity)
    (listen : Text) (connect : Option Text)
    → parse_node_id identity.node_id ≡ ok identity.node_id
    → TakesKeys world identity.node_id
    → validate_loopback_endpoint listen ≡ ok tt
    → validate_connect connect ≡ ok tt
    → IsAgentNode world identity runtime_identity builtin_agent_definition
        (new_with_builtin_agent world identity runtime_identity listen connect)
      × IsAgentNode world identity runtime_identity deepseek_v4_flash_agent_definition
          (new_with_deepseek_v4_flash_agent world identity runtime_identity (ok tt) listen connect)
unfolding new_with_builtin_agent new_with_deepseek_v4_flash_agent
new_with_agent-IsAgentNode world identity runtime_identity listen connect id takes here there =
    let v = (parse_node_id_iff identity.node_id).0 id in
    (
      agent_node-IsAgentNode world identity runtime_identity builtin_agent_definition listen connect
          (builtin_host world identity runtime_identity) v takes here there,
      agent_node-IsAgentNode world identity runtime_identity deepseek_v4_flash_agent_definition
          listen connect (deepseek_host world identity runtime_identity) v takes here there,
    )

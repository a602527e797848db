-- ===== src/Node/Status.antt =====
-- What a probe of crates/paraegox-node/src/lib.rs returns.
use para_egox.Prelude.{
  ℕ, ◌≡◌, ◌≢◌, refl, sym, ◌∙◌, subst, true, Option, some, List, ◌=?◌, nat_eq, list_eq, list_beq_iff,
  arith, Result, ok, err, Option-cases, Bool-cases, inl, inr,
}
use para_egox.Text.{Text}
use para_egox.Runtime.Status.{RuntimeHostState, created, starting, ready, stopping, stopped, failed}
use para_egox.Node.{
  NodeIdentity, NodeRuntimeStatus, is_ready, check_status, decode_runtime_status, probe_peer,
  runtime_status_key, received,
}

-- A status that came from the Node asked for, which was ready.
abbrev pub IsProbed :
    (List ℕ → Option NodeRuntimeStatus)
    → (Text → Result Text (List ℕ))
    → Text
    → NodeRuntimeStatus
    → Type 0
IsProbed from_slice query target status =
    (payload : List ℕ) × (query (runtime_status_key target) ≡ ok payload)
    × (from_slice payload ≡ some status)
    × (status.node.node_id ≡ target)
    × (status.runtime.state ≡ RuntimeHostState.ready)
    × (status.fabric_ready ≡ true)

is_ready_lem : (state : RuntimeHostState) → is_ready state ≡ true → state ≡ RuntimeHostState.ready
is_ready_lem created h = absurd (ground arith)
is_ready_lem starting h = absurd (ground arith)
is_ready_lem ready h = refl
is_ready_lem stopping h = absurd (ground arith)
is_ready_lem stopped h = absurd (ground arith)
is_ready_lem failed h = absurd (ground arith)

module _ (from_slice : List ℕ → Option NodeRuntimeStatus)
    (to_vec : NodeRuntimeStatus → Option (List ℕ)) where
  check_status_lem :
      (target : Text) (given status : NodeRuntimeStatus)
      → check_status from_slice to_vec target given ≡ ok status
      → (given ≡ status)
        × (given.node.node_id ≡ target)
        × (given.runtime.state ≡ RuntimeHostState.ready)
        × (given.fabric_ready ≡ true)
  check_status_lem target given status h =
      ground (arith, list_beq_iff given.node.node_id target, is_ready_lem given.runtime.state)

  decoded :
      (target : Text) (payload : List ℕ) (status : NodeRuntimeStatus)
      → decode_runtime_status from_slice to_vec target payload ≡ ok status
      → (from_slice payload ≡ some status)
        × (status.node.node_id ≡ target)
        × (status.runtime.state ≡ RuntimeHostState.ready)
        × (status.fabric_ready ≡ true)
  unfolding decode_runtime_status
  decoded target payload status h = elim (Option-cases (from_slice payload)) [
    | inl f ↦ absurd (ground arith)
    | inr (given, f) ↦
        let checked : check_status from_slice to_vec target given ≡ ok status =
          sym (rw (f, decode_runtime_status) refl) ∙ h in
        let (same, from_target, is_up, fabric) = check_status_lem target given status checked in
        subst
          (λ s.
            (from_slice payload ≡ some s)
            × (s.node.node_id ≡ target)
            × (s.runtime.state ≡ RuntimeHostState.ready)
            × (s.fabric_ready ≡ true))
          same (f, from_target, is_up, fabric)
  ]

  received_lem :
      (query : Text → Result Text (List ℕ)) (target : Text) (status : NodeRuntimeStatus)
      (answer : Result Text (List ℕ))
      → query (runtime_status_key target) ≡ answer
      → received from_slice to_vec target answer ≡ ok status
      → IsProbed from_slice query target status
  received_lem query target status (err e) f h = absurd (ground arith)
  received_lem query target status (ok payload) f h =
      let (read, from_target, is_up, fabric) = decoded target payload status h in
      (payload, f, read, from_target, is_up, fabric)

  -- A probe of a peer that succeeds names another Node than the one that probes, and its result is what
  -- came back for the target's key: the status of the target, with its RuntimeHost and its Fabric ready.
  pub probe_peer_lem :
      (query : Text → Result Text (List ℕ)) (identity : NodeIdentity) (target : Text)
      (status : NodeRuntimeStatus)
      → probe_peer from_slice to_vec query identity target ≡ ok status
      → (target ≢ identity.node_id) × IsProbed from_slice query target status
  unfolding probe_peer
  probe_peer_lem query identity target status h = elim (Bool-cases (target =? identity.node_id)) [
    | inl same ↦ absurd (ground arith)
    | inr other ↦
        let answered : received from_slice to_vec target (query (runtime_status_key target))
            ≡ ok status =
          ground arith in
        (
          λ same. absurd (ground (arith, (list_beq_iff target identity.node_id).1 same)),
          received_lem query target status (query (runtime_status_key target)) refl answered,
        )
  ]

-- ===== src/Kernel.antt =====
-- crates/paraegox-kernel/src/lib.rs: the identities of a Node and of a RuntimeHost.
pub mod NodeId
use para_egox.Prelude.{
  ℕ, ◌≡◌, Bool, true, false, ◌&&◌, ◌||◌, not, List, [], ◌∷◌, leb, ◌==◌, if◌then◌else◌, Result, ok,
  err, all, any,
}
use para_egox.Text.{Text, len, as_bytes, is_empty, is_control, is_ascii_alphanumeric}

abbrev pub max_node_id_bytes : ℕ
max_node_id_bytes = 64

pub data InvalidNodeId : Type 0 where
  invalid_node_id : InvalidNodeId

pub data InvalidRuntimeHostId : Type 0 where
  invalid_runtime_host_id : InvalidRuntimeHostId

-- A letter, a digit, `-` or `_`.
unfoldable pub is_node_id_byte : ℕ → Bool
is_node_id_byte byte = is_ascii_alphanumeric byte || (byte == 45 || byte == 95)

abbrev pub first_is_alphanumeric : List ℕ → Bool
first_is_alphanumeric [] = false
first_is_alphanumeric (byte ∷ bytes) = is_ascii_alphanumeric byte

-- `NodeId::from_str`; the identity is its text.
unfoldable pub parse_node_id : Text → Result InvalidNodeId Text
parse_node_id value =
    if not (is_empty value)
      && leb (len value) max_node_id_bytes
      && (first_is_alphanumeric (as_bytes value) && all is_node_id_byte (as_bytes value))
    then ok value
    else err invalid_node_id

-- `RuntimeHostId::new`.
unfoldable pub new_runtime_host_id : Text → Result InvalidRuntimeHostId Text
new_runtime_host_id value =
    if not (is_empty value) && (leb (len value) 128 && all (λ c. not (is_control c)) value)
    then ok value
    else err invalid_runtime_host_id

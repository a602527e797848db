-- ===== src/Kernel/NodeId.antt =====
-- Which texts crates/paraegox-kernel/src/lib.rs takes for a Node's identity, character by character.
use para_egox.Prelude.{
  ℕ, ◌≤◌, ◌<◌, ◌≡◌, ◌↔◌, refl, ◌∙◌, ap, Bool, true, false, ◌&&◌, List, [], ◌∷◌, ◌++◌, arith, ok,
  all, length,
}
use para_egox.Text.{Text, len, len_utf8, as_bytes, encode_utf8, is_empty, is_ascii_alphanumeric}
use para_egox.Kernel.{is_node_id_byte, parse_node_id, max_node_id_bytes, first_is_alphanumeric}

all-append : (p : ℕ → Bool) (xs ys : List ℕ) → all p (xs ++ ys) ≡ (all p xs && all p ys)
all-append p [] ys = refl
all-append p (x ∷ xs) ys = ground (arith, all-append p xs ys)

-- A character beyond ASCII has no byte of an identity.
encode_utf8-node_id : (c : ℕ) → all is_node_id_byte (encode_utf8 c) ≡ is_node_id_byte c
unfolding encode_utf8 is_node_id_byte is_ascii_alphanumeric
encode_utf8-node_id c = ground arith

node_id_byte-ascii : (c : ℕ) → is_node_id_byte c ≡ true → c < 128
unfolding is_node_id_byte is_ascii_alphanumeric
node_id_byte-ascii c h = ground arith

all-as_bytes : (t : Text) → all is_node_id_byte (as_bytes t) ≡ all is_node_id_byte t
unfolding as_bytes
all-as_bytes [] = refl
all-as_bytes (c ∷ t) =
    all-append is_node_id_byte (encode_utf8 c) (as_bytes t)
    ∙ ground (arith, encode_utf8-node_id c, all-as_bytes t)

len-ascii : (t : Text) → all is_node_id_byte t ≡ true → len t ≡ length t
unfolding len len_utf8
len-ascii [] h = refl
len-ascii (c ∷ t) h = ground (arith, len-ascii t, node_id_byte-ascii c)

first-as_bytes :
    (t : Text)
    → all is_node_id_byte t ≡ true
    → first_is_alphanumeric (as_bytes t) ≡ first_is_alphanumeric t
unfolding as_bytes encode_utf8
first-as_bytes [] h = refl
first-as_bytes (c ∷ t) h = ground (arith, node_id_byte-ascii c)

-- A Node's identity: 1 to 64 letters, digits, `-` and `_`, the first a letter or a digit.
pub record IsNodeId (t : Text) : Type 0 where
  pub first : first_is_alphanumeric t ≡ true
  pub every : all is_node_id_byte t ≡ true
  pub short : length t ≤ max_node_id_bytes

accepted : (t : Text) → parse_node_id t ≡ ok t → IsNodeId t
unfolding parse_node_id
accepted t h = ground (arith, all-as_bytes t, first-as_bytes t, len-ascii t)

not_empty : (t : Text) → first_is_alphanumeric t ≡ true → is_empty t ≡ false
not_empty [] h = ground arith
not_empty (c ∷ t) h = refl

complete : (t : Text) → IsNodeId t → parse_node_id t ≡ ok t
unfolding parse_node_id
complete t v = ground (arith, all-as_bytes t, first-as_bytes t, len-ascii t, not_empty t)

-- The parser accepts exactly the identities: its bytes, its length in bytes and its first byte say of
-- any text, of ASCII or not, what the characters say.
pub parse_node_id_iff : (t : Text) → (parse_node_id t ≡ ok t) ↔ IsNodeId t
parse_node_id_iff t = (accepted t, complete t)

pub parse_node_id-ok : (t u : Text) → parse_node_id t ≡ ok u → (u ≡ t) × IsNodeId t
unfolding parse_node_id
parse_node_id-ok t u h = let e : u ≡ t = ground arith in (e, accepted t (h ∙ ap ok e))

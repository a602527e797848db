-- ===== src/Fabric.antt =====
-- crates/paraegox-fabric/src: query bindings. Zenoh's check of a key expression is an argument.
pub mod Queue
pub mod Accounts
pub mod Acceptance
use para_egox.Prelude.{
  ℕ, ◌+◌, ◌-◌, ◌*◌, Bool, true, false, not, ◌&&◌, ◌||◌, Option, none, some, List, [], ◌∷◌, ltb, leb,
  ◌==◌, ◌=?◌, if◌then◌else◌, Result, ok, err, ◌>>=◌, ◌>>◌, reject_if, any, all, length, elem,
  nat_eq, list_eq,
}
use para_egox.Text.{Text, text, is_empty}

abbrev pub max_query_bindings : ℕ
max_query_bindings = 8

abbrev pub max_payload_bytes : ℕ
max_payload_bytes = 65536

pub data FabricError : Type 0 where
  not_loopback binding_key_empty binding_key_invalid binding_key_wildcard : FabricError
  request_too_long deadline_zero no_bindings too_many_bindings : FabricError
  duplicate_binding : Text → FabricError

abbrev pub strip_prefix : Text → Text → Option Text
strip_prefix [] t = some t
strip_prefix (p ∷ ps) [] = none
strip_prefix (p ∷ ps) (c ∷ t) = if p == c then strip_prefix ps t else none

abbrev pub is_digit : ℕ → Bool
is_digit c = leb 48 c && leb c 57

abbrev pub digits_value : ℕ → Text → ℕ
digits_value n [] = n
digits_value n (c ∷ t) = digits_value (10 * n + (c - 48)) t

abbrev pub parse_digits : Text → Option ℕ
parse_digits t =
    if is_empty t || not (all is_digit t)
    then none
    else if ltb (digits_value 0 t) 65536
    then some (digits_value 0 t)
    else none

-- `str::parse::<u16>`: digits, after a `+` or not, of a value below 2 ^ 16.
unfoldable pub parse_u16 : Text → Option ℕ
parse_u16 [] = none
parse_u16 (c ∷ t) = if c == 43 then parse_digits t else parse_digits (c ∷ t)

abbrev pub nonzero : Option ℕ → Bool
nonzero none = false
nonzero (some port) = not (port == 0)

abbrev pub port_of : Option Text → Option ℕ
port_of none = none
port_of (some port) = parse_u16 port

unfoldable pub validate_loopback_endpoint : Text → Result FabricError (Unit {0})
validate_loopback_endpoint endpoint =
    if nonzero (port_of (strip_prefix (text "tcp/127.0.0.1:") endpoint))
    then ok tt
    else err not_loopback

unfoldable pub validate_exact_binding_key : (Text → Bool) → Text → Result FabricError (Unit {0})
validate_exact_binding_key key_expr_valid binding_key = do
  reject_if (is_empty binding_key) binding_key_empty
  reject_if (not (key_expr_valid binding_key)) binding_key_invalid
  reject_if (any (λ c. c == 42) binding_key) binding_key_wildcard

unfoldable pub validate_request : (Text → Bool) → Text → List ℕ → ℕ → Result FabricError (Unit {0})
validate_request key_expr_valid binding_key payload deadline = do
  validate_exact_binding_key key_expr_valid binding_key
  reject_if (ltb max_payload_bytes (length payload)) request_too_long
  reject_if (deadline == 0) deadline_zero

abbrev pub validate_connect : Option Text → Result FabricError (Unit {0})
validate_connect none = ok tt
validate_connect (some endpoint) = validate_loopback_endpoint endpoint

-- The loop over the keys of the bindings, with those seen so far.
unfoldable pub check_bindings :
    (Text → Bool) → List Text → List Text → Result FabricError (Unit {0})
check_bindings key_expr_valid binding_keys [] = ok tt
check_bindings key_expr_valid binding_keys (key ∷ keys) =
    let rest = check_bindings key_expr_valid (key ∷ binding_keys) keys in
    validate_exact_binding_key key_expr_valid key
    >> (reject_if (elem key binding_keys) (duplicate_binding key) >> rest)

-- `FabricService::new_with_bindings`: whether the service is built.
unfoldable pub new_with_bindings :
    (Text → Bool) → Text → Option Text → List Text → Result FabricError (Unit {0})
new_with_bindings key_expr_valid listen_endpoint connect_endpoint bindings = do
  validate_loopback_endpoint listen_endpoint
  validate_connect connect_endpoint
  reject_if (length bindings == 0) no_bindings
  reject_if (ltb max_query_bindings (length bindings)) too_many_bindings
  check_bindings key_expr_valid [] bindings

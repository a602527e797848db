-- ===== src/Command.antt =====
-- crates/paraegox/src/main.rs: the command line.
pub mod Runs
pub mod Wellformed
pub mod Rendering
use para_egox.Prelude.{
  ℕ, zero, suc, ◌+◌, ◌-◌, ◌*◌, ◌^◌, Bool, true, false, ◌&&◌, ◌||◌, not, Option, none, some, is_some,
  List, [], ◌∷◌, ltb, leb, ◌==◌, ◌=?◌, nat_eq, list_eq, if◌then◌else◌, Result, ok, err, ◌>>=◌, ◌>>◌,
  reject_if,
}
use para_egox.Text.{Text, text, between}
use para_egox.Kernel.{parse_node_id}

abbrev pub default_endpoint : Text
default_endpoint = text "tcp/127.0.0.1:7447"

abbrev pub default_probe_timeout_ms : ℕ
default_probe_timeout_ms = 2000

abbrev pub default_tui_timeout_ms : ℕ
default_tui_timeout_ms = 30000

pub data DeckSelection : Type 0 where
  builtin_agent : DeckSelection

pub data AgentProvider : Type 0 where
  deterministic deep_seek_v4_flash : AgentProvider

pub record RunCommand : Type 0 where
  pub node_id : Text
  pub listen_endpoint : Text
  pub connect_endpoint : Option Text
  pub peer : Option Text
  pub timeout_ms : ℕ
  pub deck : Option DeckSelection
  pub provider : AgentProvider

pub data Command : Type 0 where
  help version : Command
  run : RunCommand → Command
  probe : Text → Text → ℕ → Command
  tui : Text → Text → ℕ → Bool → Command

pub data CommandError : Type 0 where
  unknown_command requires_value duplicate_option unknown_option unknown_deck unknown_provider :
      Text → CommandError
  invalid_node_id not_an_integer timeout_out_of_range node_id_required target_required :
      CommandError
  provider_without_deck timeout_without_peer connect_without_peer same_node : CommandError

-- `value.parse::<u64>()`: digits, after a sign `+` if there is one.
abbrev pub digits_from : ℕ → Text → Option ℕ
digits_from n [] = some n
digits_from n (c ∷ t) =
    let rest = digits_from (10 * n + (c - 48)) t in
    if between 48 57 c && ltb (10 * n + (c - 48)) (2 ^ 64) then rest else none

abbrev pub digits : Text → Option ℕ
digits [] = none
digits (c ∷ t) = digits_from 0 (c ∷ t)

unfoldable pub parse_u64 : Text → Option ℕ
parse_u64 [] = none
parse_u64 (c ∷ t) = if c == 43 then digits t else digits (c ∷ t)

unfoldable pub parse_timeout_ms : Text → Result CommandError ℕ
parse_timeout_ms value = elim (parse_u64 value) [
  | none ↦ err not_an_integer
  | some timeout_ms ↦
      if leb 100 timeout_ms && leb timeout_ms 60000 then ok timeout_ms else err timeout_out_of_range
]

-- `NodeId::from_str`, with its error as a text.
unfoldable pub parse_id : Text → Result CommandError Text
parse_id value = elim (parse_node_id value) [ ok id ↦ ok id | err e ↦ err invalid_node_id ]

-- The names of the options, and the local variables of the loops over them.
pub data OptionName : Type 0 where
  node_id_name listen_name connect_name probe_peer_name timeout_name deck_name provider_name :
      OptionName
  target_name : OptionName

unfoldable pub run_option : Text → Option OptionName
run_option name =
    if name =? text "--node-id"
    then some node_id_name
    else if name =? text "--listen"
    then some listen_name
    else if name =? text "--connect"
    then some connect_name
    else if name =? text "--probe-peer"
    then some probe_peer_name
    else if name =? text "--timeout-ms"
    then some timeout_name
    else if name =? text "--deck"
    then some deck_name
    else if name =? text "--provider"
    then some provider_name
    else none

unfoldable pub client_option : Text → Option OptionName
client_option name =
    if name =? text "--target"
    then some target_name
    else if name =? text "--connect"
    then some connect_name
    else if name =? text "--timeout-ms"
    then some timeout_name
    else none

pub record RunOptions : Type 0 where
  pub node_id : Option Text
  pub listen_endpoint : Text
  pub listen_was_set : Bool
  pub connect_endpoint : Option Text
  pub peer : Option Text
  pub timeout_ms : ℕ
  pub timeout_was_set : Bool
  pub deck : Option DeckSelection
  pub provider : AgentProvider
  pub provider_was_set : Bool

abbrev pub run_defaults : RunOptions
run_defaults = record {
  node_id = none;
  listen_endpoint = default_endpoint;
  listen_was_set = false;
  connect_endpoint = none;
  peer = none;
  timeout_ms = default_probe_timeout_ms;
  timeout_was_set = false;
  deck = none;
  provider = deterministic;
  provider_was_set = false;
}

unfoldable pub parse_deck : Text → Result CommandError DeckSelection
parse_deck value =
    if value =? text "builtin-agent" then ok builtin_agent else err (unknown_deck value)

unfoldable pub parse_provider : Text → Result CommandError AgentProvider
parse_provider value =
    if value =? text "deterministic"
    then ok deterministic
    else if value =? text "deepseek-v4-flash"
    then ok deep_seek_v4_flash
    else err (unknown_provider value)

-- One turn of the loop of `parse_run`; the first text is the option as it is written.
unfoldable pub set_run_option :
    Option OptionName → Text → Text → RunOptions → Result CommandError RunOptions
set_run_option (some node_id_name) name value o = do
  reject_if (is_some o.node_id) (duplicate_option name)
  id ← parse_id value
  ok (record o { node_id = some id })
set_run_option (some listen_name) name value o = do
  reject_if o.listen_was_set (duplicate_option name)
  ok (record o { listen_endpoint = value; listen_was_set = true })
set_run_option (some connect_name) name value o = do
  reject_if (is_some o.connect_endpoint) (duplicate_option name)
  ok (record o { connect_endpoint = some value })
set_run_option (some probe_peer_name) name value o = do
  reject_if (is_some o.peer) (duplicate_option name)
  id ← parse_id value
  ok (record o { peer = some id })
set_run_option (some timeout_name) name value o = do
  reject_if o.timeout_was_set (duplicate_option name)
  ms ← parse_timeout_ms value
  ok (record o { timeout_ms = ms; timeout_was_set = true })
set_run_option (some deck_name) name value o = do
  reject_if (is_some o.deck) (duplicate_option name)
  selected ← parse_deck value
  ok (record o { deck = some selected })
set_run_option (some provider_name) name value o = do
  reject_if o.provider_was_set (duplicate_option name)
  selected ← parse_provider value
  ok (record o { provider = selected; provider_was_set = true })
set_run_option (some target_name) name value o = err (unknown_option name)
set_run_option none name value o = err (unknown_option name)

unfoldable pub run_options : List Text → RunOptions → Result CommandError RunOptions
run_options [] o = ok o
run_options (name ∷ []) o = err (requires_value name)
run_options (name ∷ value ∷ rest) o =
    set_run_option (run_option name) name value o >>= run_options rest

-- The checks of `parse_run` behind its loop.
abbrev pub paired : Option Text → Option Text → Bool → Result CommandError (Unit {0})
paired (some connect) (some peer) timeout_was_set = ok tt
paired none none timeout_was_set = reject_if timeout_was_set timeout_without_peer
paired (some connect) none timeout_was_set = err connect_without_peer
paired none (some peer) timeout_was_set = err connect_without_peer

abbrev pub is_node : Option Text → Text → Bool
is_node none id = false
is_node (some peer) id = peer =? id

abbrev pub required : Option Text → CommandError → Result CommandError Text
required (some id) e = ok id
required none e = err e

unfoldable pub finish_run : RunOptions → Result CommandError Command
finish_run o = do
  id ← required o.node_id node_id_required
  reject_if (o.provider_was_set && not (is_some o.deck)) provider_without_deck
  paired o.connect_endpoint o.peer o.timeout_was_set
  reject_if (is_node o.peer id) same_node
  ok (
      run (record {
        node_id = id;
        listen_endpoint = o.listen_endpoint;
        connect_endpoint = o.connect_endpoint;
        peer = o.peer;
        timeout_ms = o.timeout_ms;
        deck = o.deck;
        provider = o.provider;
      }))

unfoldable pub parse_run : List Text → Result CommandError Command
parse_run arguments = run_options arguments run_defaults >>= finish_run

-- The local variables of the loops of `parse_probe` and `parse_tui`.
pub record ClientOptions : Type 0 where
  pub target : Option Text
  pub connect_endpoint : Text
  pub connect_was_set : Bool
  pub timeout_ms : ℕ
  pub timeout_was_set : Bool
  pub stdio_jsonl : Bool

abbrev pub client_defaults : ℕ → ClientOptions
client_defaults timeout_ms = record {
  target = none;
  connect_endpoint = default_endpoint;
  connect_was_set = false;
  timeout_ms = timeout_ms;
  timeout_was_set = false;
  stdio_jsonl = false;
}

unfoldable pub set_client_option :
    Option OptionName → Text → Text → ClientOptions → Result CommandError ClientOptions
set_client_option (some target_name) name value o = do
  reject_if (is_some o.target) (duplicate_option name)
  id ← parse_id value
  ok (record o { target = some id })
set_client_option (some connect_name) name value o = do
  reject_if o.connect_was_set (duplicate_option name)
  ok (record o { connect_endpoint = value; connect_was_set = true })
set_client_option (some timeout_name) name value o = do
  reject_if o.timeout_was_set (duplicate_option name)
  ms ← parse_timeout_ms value
  ok (record o { timeout_ms = ms; timeout_was_set = true })
set_client_option (some other) name value o = err (unknown_option name)
set_client_option none name value o = err (unknown_option name)

unfoldable pub probe_options : List Text → ClientOptions → Result CommandError ClientOptions
probe_options [] o = ok o
probe_options (name ∷ []) o = err (requires_value name)
probe_options (name ∷ value ∷ rest) o =
    set_client_option (client_option name) name value o >>= probe_options rest

unfoldable pub parse_probe : List Text → Result CommandError Command
parse_probe arguments = do
  o ← probe_options arguments (client_defaults default_probe_timeout_ms)
  target ← required o.target target_required
  ok (probe target o.connect_endpoint o.timeout_ms)

-- The option that takes no value.
abbrev pub set_stdio : ClientOptions → Result CommandError ClientOptions
set_stdio o =
    reject_if o.stdio_jsonl (duplicate_option (text "--stdio-jsonl"))
    >> ok (record o { stdio_jsonl = true })

unfoldable pub tui_options : List Text → ClientOptions → Result CommandError ClientOptions
tui_options [] o = ok o
tui_options (name ∷ []) o =
    if name =? text "--stdio-jsonl" then set_stdio o else err (requires_value name)
tui_options (name ∷ value ∷ rest) o =
    if name =? text "--stdio-jsonl"
    then (set_stdio o >>= tui_options (value ∷ rest))
    else (set_client_option (client_option name) name value o >>= tui_options rest)

unfoldable pub parse_tui : List Text → Result CommandError Command
parse_tui arguments = do
  o ← tui_options arguments (client_defaults default_tui_timeout_ms)
  target ← required o.target target_required
  ok (tui target o.connect_endpoint o.timeout_ms o.stdio_jsonl)

unfoldable pub parse_command : List Text → Result CommandError Command
parse_command [] = ok help
parse_command (flag ∷ []) =
    if (flag =? text "--help") || (flag =? text "-h")
    then ok help
    else if (flag =? text "--version") || (flag =? text "-V")
    then ok version
    else if flag =? text "tui"
    then parse_tui []
    else err (unknown_command flag)
parse_command (scope ∷ operation ∷ rest) =
    if (scope =? text "node") && (operation =? text "run")
    then parse_run rest
    else if (scope =? text "node") && (operation =? text "probe")
    then parse_probe rest
    else if scope =? text "tui"
    then parse_tui (operation ∷ rest)
    else err (unknown_command scope)

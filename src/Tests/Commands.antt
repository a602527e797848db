-- ===== src/Tests/Commands.antt =====
-- Runs of the command line of crates/paraegox/src/main.rs.
use para_egox.Prelude.{◌≡◌, ◌≢◌, refl, some, List, [], ◌∷◌, arith, ok, list_beq}
use para_egox.Text.{Text, text, len, len_utf8, as_bytes, encode_utf8, is_ascii_alphanumeric}
use para_egox.Kernel.{parse_node_id, is_node_id_byte}
use para_egox.Command.{
  Command, RunCommand, run, probe, deep_seek_v4_flash, builtin_agent, parse_command,
  parse_timeout_ms, parse_u64, parse_id, parse_probe, probe_options, set_client_option,
  client_option,
}
use para_egox.Command.Runs.{IsWellFormed, IsId}
use para_egox.Command.Wellformed.{parse_command-IsWellFormed}
use para_egox.Command.Rendering.{render, parse_command-render}

abbrev probe_arguments : List Text
probe_arguments =
    text "node"
    ∷ text "probe"
    ∷ text "--timeout-ms"
    ∷ text "250"
    ∷ text "--target"
    ∷ text "node-b"
    ∷ []

abbrev probe_b : Command
probe_b = probe (text "node-b") (text "tcp/127.0.0.1:7447") 250

probe_b_parsed : parse_command probe_arguments ≡ ok probe_b
unfolding parse_command parse_probe probe_options set_client_option client_option parse_timeout_ms
    parse_u64 parse_id parse_node_id list_beq len len_utf8 as_bytes encode_utf8 is_node_id_byte
    is_ascii_alphanumeric
probe_b_parsed = refl

parse_command-IsWellFormed_example : IsWellFormed probe_b
parse_command-IsWellFormed_example =
    parse_command-IsWellFormed probe_arguments probe_b probe_b_parsed

abbrev run_a : RunCommand
run_a = record {
  node_id = text "node-a";
  listen_endpoint = text "tcp/127.0.0.1:7448";
  connect_endpoint = some (text "tcp/127.0.0.1:7447");
  peer = some (text "node-b");
  timeout_ms = 2500;
  deck = some builtin_agent;
  provider = deep_seek_v4_flash;
}

node_a-IsId : IsId (text "node-a")
unfolding parse_node_id len len_utf8 as_bytes encode_utf8 is_node_id_byte is_ascii_alphanumeric
node_a-IsId = refl

node_b-IsId : IsId (text "node-b")
unfolding parse_node_id len len_utf8 as_bytes encode_utf8 is_node_id_byte is_ascii_alphanumeric
node_b-IsId = refl

nodes_differ : text "node-b" ≢ text "node-a"
nodes_differ e = absurd (ground (arith, e))

timeout_read : parse_timeout_ms (text "2500") ≡ ok 2500
unfolding parse_timeout_ms parse_u64
timeout_read = refl

parse_command-render_example : parse_command (render (run run_a) (text "2500")) ≡ ok (run run_a)
parse_command-render_example =
    parse_command-render (run run_a) (text "2500")
      (node_a-IsId, (node_b-IsId, nodes_differ), (omega arith, omega arith), tt) timeout_read

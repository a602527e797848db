-- ===== src/Command/Rendering.antt =====
-- A command written out is the command that crates/paraegox/src/main.rs reads.
use para_egox.Prelude.{
  ℕ, ◌≡◌, ◌≢◌, refl, Bool, true, false, Option, none, some, List, [], ◌∷◌, ◌++◌, ◌=?◌, nat_eq,
  list_eq, list_beq, list_beq_iff, ok, Bool-cases, inl, inr,
}
use para_egox.Text.{Text, text}
use para_egox.Command.{
  DeckSelection, builtin_agent, AgentProvider, deterministic, deep_seek_v4_flash, RunCommand,
  Command, help, version, run, probe, tui, parse_timeout_ms, parse_id, run_option, client_option,
  parse_deck, parse_provider, set_run_option, run_options, finish_run, parse_run, set_client_option,
  probe_options, parse_probe, tui_options, parse_tui, parse_command,
}
use para_egox.Command.Runs.{IsId, IsPaired, IsProvided, IsWellFormed}

abbrev pub provider_text : AgentProvider → Text
provider_text deterministic = text "deterministic"
provider_text deep_seek_v4_flash = text "deepseek-v4-flash"

-- The options of a peer to probe, with the timeout as it is written.
abbrev pub peer_options : Option Text → Option Text → Text → List Text
peer_options (some connect) (some peer) ms =
    text "--connect" ∷ connect ∷ text "--probe-peer" ∷ peer ∷ text "--timeout-ms" ∷ ms ∷ []
peer_options connect peer ms = []

abbrev pub deck_options : Option DeckSelection → AgentProvider → List Text
deck_options none provider = []
deck_options (some builtin_agent) provider =
    text "--deck" ∷ text "builtin-agent" ∷ text "--provider" ∷ provider_text provider ∷ []

abbrev pub run_arguments : RunCommand → Text → List Text
run_arguments c ms =
    text "--node-id"
    ∷ c.node_id
    ∷ (deck_options c.deck c.provider
        ++ (text "--listen" ∷ c.listen_endpoint ∷ peer_options c.connect_endpoint c.peer ms))

abbrev pub client_arguments : Text → Text → Text → List Text
client_arguments target connect_endpoint ms =
    text "--target" ∷ target ∷ text "--connect" ∷ connect_endpoint ∷ text "--timeout-ms" ∷ ms ∷ []

-- The command line of a command whose timeout is written `ms`.
abbrev pub render : Command → Text → List Text
render help ms = text "--help" ∷ []
render version ms = text "--version" ∷ []
render (run c) ms = text "node" ∷ text "run" ∷ run_arguments c ms
render (probe target connect_endpoint timeout_ms) ms =
    text "node" ∷ text "probe" ∷ client_arguments target connect_endpoint ms
render (tui target connect_endpoint timeout_ms true) ms =
    text "tui" ∷ text "--stdio-jsonl" ∷ client_arguments target connect_endpoint ms
render (tui target connect_endpoint timeout_ms false) ms =
    text "tui" ∷ client_arguments target connect_endpoint ms

-- The timeout of a command; that of a command without one is never read.
abbrev pub timeout_of : Command → ℕ
timeout_of help = 100
timeout_of version = 100
timeout_of (run c) = c.timeout_ms
timeout_of (probe target connect_endpoint timeout_ms) = timeout_ms
timeout_of (tui target connect_endpoint timeout_ms stdio_jsonl) = timeout_ms

parse_id_lem : (id : Text) → IsId id → parse_id id ≡ ok id
unfolding parse_id
parse_id_lem id h = rw (h, parse_id) refl

probe_lem :
    (target connect_endpoint ms : Text) (timeout_ms : ℕ)
    → IsId target
    → parse_timeout_ms ms ≡ ok timeout_ms
    → parse_probe (client_arguments target connect_endpoint ms)
      ≡ ok (probe target connect_endpoint timeout_ms)
unfolding parse_probe probe_options set_client_option client_option list_beq
probe_lem target connect_endpoint ms timeout_ms h e =
    rw (parse_id_lem target h, e, parse_probe, probe_options, set_client_option, client_option) refl

tui_lem :
    (target connect_endpoint ms : Text) (timeout_ms : ℕ) (stdio_jsonl : Bool)
    → IsId target
    → parse_timeout_ms ms ≡ ok timeout_ms
    → parse_command (render (tui target connect_endpoint timeout_ms stdio_jsonl) ms)
      ≡ ok (tui target connect_endpoint timeout_ms stdio_jsonl)
unfolding parse_command parse_tui tui_options set_client_option client_option list_beq
tui_lem target connect_endpoint ms timeout_ms true h e =
    rw
      (
        parse_id_lem target h,
        e,
        parse_command,
        parse_tui,
        tui_options,
        set_client_option,
        client_option,
      )
      refl
tui_lem target connect_endpoint ms timeout_ms false h e =
    rw
      (
        parse_id_lem target h,
        e,
        parse_command,
        parse_tui,
        tui_options,
        set_client_option,
        client_option,
      )
      refl

other_node : (peer id : Text) → peer ≢ id → (peer =? id) ≡ false
other_node peer id differ = elim (Bool-cases (peer =? id)) [
  | inl same ↦ absurd (differ ((list_beq_iff peer id).0 same))
  | inr other ↦ other
]

-- The options of `node run`, in every combination that a well-formed command has.
deck_lem :
    (id listen ms : Text) (connect peer : Option Text) (timeout_ms : ℕ)
    (deck : Option DeckSelection) (provider : AgentProvider)
    → IsId id
    → IsPaired id connect peer timeout_ms
    → IsProvided deck provider
    → parse_timeout_ms ms ≡ ok timeout_ms
    → parse_run (
        run_arguments
          (record {
            node_id = id;
            listen_endpoint = listen;
            connect_endpoint = connect;
            peer = peer;
            timeout_ms = timeout_ms;
            deck = deck;
            provider = provider;
          })
          ms)
      ≡ ok (
          run (record {
            node_id = id;
            listen_endpoint = listen;
            connect_endpoint = connect;
            peer = peer;
            timeout_ms = timeout_ms;
            deck = deck;
            provider = provider;
          }))
unfolding parse_run run_options set_run_option run_option finish_run parse_deck parse_provider
    list_beq
deck_lem id listen ms none none timeout_ms none provider h p q e =
    rw (parse_id_lem id h, p, q, parse_run, run_options, set_run_option, run_option, finish_run)
      refl
deck_lem id listen ms none none timeout_ms (some builtin_agent) deterministic h p q e =
    rw (parse_id_lem id h, p, parse_run, run_options, set_run_option, run_option, finish_run) refl
deck_lem id listen ms none none timeout_ms (some builtin_agent) deep_seek_v4_flash h p q e =
    rw (parse_id_lem id h, p, parse_run, run_options, set_run_option, run_option, finish_run) refl
deck_lem id listen ms (some connect) none timeout_ms deck provider h p q e = absurd p
deck_lem id listen ms none (some peer) timeout_ms deck provider h p q e = absurd p
deck_lem id listen ms (some connect) (some peer) timeout_ms none provider h p q e =
    rw
      (
        parse_id_lem id h,
        parse_id_lem peer p.0,
        q,
        e,
        parse_run,
        run_options,
        set_run_option,
        run_option,
        finish_run,
        other_node peer id p.1,
      )
      refl
deck_lem id listen ms (some connect) (some peer) timeout_ms (some builtin_agent) deterministic h p q
      e =
    rw
      (
        parse_id_lem id h,
        parse_id_lem peer p.0,
        e,
        parse_run,
        run_options,
        set_run_option,
        run_option,
        finish_run,
        other_node peer id p.1,
      )
      refl
deck_lem id listen ms (some connect) (some peer) timeout_ms (some builtin_agent) deep_seek_v4_flash
      h p q e =
    rw
      (
        parse_id_lem id h,
        parse_id_lem peer p.0,
        e,
        parse_run,
        run_options,
        set_run_option,
        run_option,
        finish_run,
        other_node peer id p.1,
      )
      refl

-- Every well-formed command can be written on the command line: written with all its options, in the
-- order of the help, it is read as itself. `--stdio-jsonl`, which the help does not name, stands before
-- the options of `tui`. The condition is on the text of its timeout, which is read as that timeout.
pub parse_command-render :
    (command : Command) (ms : Text)
    → IsWellFormed command
    → parse_timeout_ms ms ≡ ok (timeout_of command)
    → parse_command (render command ms) ≡ ok command
unfolding parse_command list_beq
parse_command-render help ms h e = refl
parse_command-render version ms h e = refl
parse_command-render (run c) ms (i, p, r, q) e =
    deck_lem c.node_id c.listen_endpoint ms c.connect_endpoint c.peer c.timeout_ms c.deck c.provider
      i p q e
parse_command-render (probe target connect_endpoint timeout_ms) ms (i, r) e =
    probe_lem target connect_endpoint ms timeout_ms i e
parse_command-render (tui target connect_endpoint timeout_ms stdio_jsonl) ms (i, r) e =
    tui_lem target connect_endpoint ms timeout_ms stdio_jsonl i e

-- ===== src/Lib.antt =====
-- Paraegox runs conversational Agents on a small host: a Deck of Cards is compiled to a lock, a
-- RuntimeHost owns CoreServices and Cards, the Agent CoreService keeps the conversations, and Cards
-- give it a profile. This library models the parts that decide.
--
-- Which file is about which part (paths from the root of the repository):
--   Text, Text/Utf8: Rust strings as lists of code points, with their UTF-8 bytes and lengths.
--   Kernel, Kernel/NodeId: crates/paraegox-kernel/src/lib.rs.
--   Deck, Deck/*: crates/paraegox-deck/src/lib.rs. `compile` is `DeckCompiler::compile`; its loop is
--     `resolve_cards`. SHA-256 is an argument.
--   Agent/Types: crates/paraegox-agent/src/lib.rs.
--   Agent/Provider: crates/paraegox-agent/src/provider.rs. serde_json and the HTTP exchange are
--     arguments.
--   Agent/State, Service, Context, Profile: crates/paraegox-agent/src/service.rs, a function for each
--     critical section under the service's lock. `submit_admission` is the section of
--     `AgentHandle::submit_turn`, `complete_turn` is `ActiveTurnGuard::complete`, `drop_guard` its
--     `Drop`, `cancel` is `AgentHandle::cancel`.
--   Agent/System: the same file, its callers interleaved: a step is one critical section.
--   Agent/Validity, Safety, Outcomes: what holds of them.
--   Runtime/Status, Runtime/Deck: crates/paraegox-runtime/src/status.rs and deck.rs.
--   Runtime/Host, Runtime/Lifecycle: crates/paraegox-runtime/src/host.rs. `start` and `stop` are those
--     of `RuntimeHost`; the loops over the owners are `start_services`, `start_cards`,
--     `stop_started_services` and `stop_started_cards`. A `Run` is the shared snapshot with the calls
--     made so far, and what an owner answers is any function of it.
--   Runtime/Trace, Stops, Undo, Starts, Order, Shutdown, Launch: what holds of them.
--   Fabric, Fabric/Queue: crates/paraegox-fabric/src/lib.rs and service.rs. `admit_query`, `dispatch`
--     and `serve_request` are the acts on the bounded channel and the set of requests in flight; Zenoh's
--     check of a key expression and the handlers are arguments.
--   Fabric/Accounts, Fabric/Acceptance: what holds of them.
--   Agent/Transport: crates/paraegox-agent/src/transport.rs. `submit_turn` and `cancel_turn` are those of
--     `AgentConversationClient`; serde_json, the handle and the Fabric client are arguments.
--     Agent/Transport/Handle gives the service's handle, from the checks of a turn to its terminal.
--   Node, Node/*: crates/paraegox-node/src/lib.rs. `agent_node` is what the two constructors of a Node
--     with an Agent share.
--   Textual/Truncate, Frames, Protocol: crates/paraegox/src/textual_stdio.rs. `next_frame` is that of
--     `BoundedJsonlReader`; `run_protocol`, `drive_turn` and `finish_active_shutdown` have their names.
--     An `Adapter` has the commands still to come and the frames written.
--   Tui/Editor, App: crates/paraegox/src/tui/app.rs. Tui/Events, Loop: the handlers and the
--     loops of tui/mod.rs.
--   Command: the arguments of crates/paraegox/src/main.rs; a loop over them is `run_options`,
--     `probe_options` or `tui_options`.
--   Textual/Protocol/Written, Turns, Answers, Textual/Frames/Stream, Lines, Bounds,
--     Tui/Editor/Zipper, Tui/App/Bounds, Tui/Events/Submissions, Tui/Loop/Screens, Soundness, Command/Runs, Wellformed, Rendering: what holds of them.
--   Tests: concrete runs.
--
-- A function returns its result and the state that it leaves. A refusal is `rejected` with the
-- AgentError, whose constructors stand for its messages, and a failed `expect` or `debug_assert` is
-- `panicked`, so that a theorem can say that it does not happen. Maps are association lists in order
-- of insertion. Identities are the numbers of their UUIDs. An index out of range is
-- `none`. Three loops run on fuel. `next_frame` has 16,386 units: a turn of its loop takes at least one
-- byte into a buffer of at most 16,385. `run_protocol` has one unit more than there are commands: a turn
-- of its loop reads one; `fullscreen_event_loop` has one unit more than there are events. The select of
-- `drive_turn` and `drive_active_turn` is the number of commands or events that are read before the
-- submission ends, so that they recur on it. The
-- lock serialises the sections, and what a caller waits for (`wait_until_idle`, the cancellation
-- channel) is a condition of its step.
--
-- Not modelled: Zenoh, the start and stop of the Fabric service and its client, which are mostly calls
-- of it; the drawing of the terminal (tui/view.rs), the conversation without a terminal and the order in which
-- the terminal is restored; the wiring of main.rs
-- behind the parsing; serde_json, reqwest and tokio, whose documented behaviour is an argument or, for a
-- read and a write, the environment's choice.
pub mod Agent
pub mod Command
pub mod Deck
pub mod Fabric
pub mod Kernel
pub mod Node
pub mod Prelude
pub mod Runtime
pub mod Tests
pub mod Text
pub mod Textual
pub mod Tui

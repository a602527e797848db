-- ===== src/Runtime.antt =====
-- crates/paraegox-runtime: the host that owns CoreServices and the Cards of a Deck.
pub mod Status
pub mod Deck
pub mod Host
pub mod Lifecycle
pub mod Trace
pub mod Stops
pub mod Undo
pub mod Starts
pub mod Order
pub mod Shutdown
pub mod Launch

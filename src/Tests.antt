-- ===== src/Tests.antt =====
-- Concrete runs of the development: each applies a theorem where its conditions hold.
pub mod Agent
pub mod Later
pub mod Decks
pub mod Runtimes
pub mod Fabrics
pub mod Textuals
pub mod Terminals
pub mod Commands
pub mod Nodes

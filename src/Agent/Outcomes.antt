-- ===== src/Agent/Outcomes.antt =====
-- What a caller of crates/paraegox-agent/src/service.rs observes.
pub mod Replay
pub mod Retained
pub mod Endings
pub mod Waiting
pub mod Ended
pub mod Later
pub mod Foretold
pub mod Cancelled
pub mod Ahead
pub mod Refusals
pub mod Answers

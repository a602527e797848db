-- ===== src/Agent.antt =====
-- crates/paraegox-agent: the conversation service, its Card and its client.
pub mod Types
pub mod Provider
pub mod State
pub mod Context
pub mod Service
pub mod Profile
pub mod Validity
pub mod System
pub mod Transport
pub mod Safety
pub mod Outcomes

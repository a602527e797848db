-- ===== src/Textual.antt =====
-- crates/paraegox/src/textual_stdio.rs: the adapter between a line protocol on the standard streams
-- and a conversation.
pub mod Truncate
pub mod Frames
pub mod Protocol

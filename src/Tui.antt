-- ===== src/Tui.antt =====
-- crates/paraegox/src/tui: the conversation on a terminal.
pub mod Editor
pub mod App
pub mod Events
pub mod Loop

-- ===== src/Agent/Outcomes/Cancelled.antt =====
-- Cancellation in crates/paraegox-agent/src/service.rs: during the turn, and ahead of it.
use para_egox.Prelude.{true, nat_eq}
use para_egox.Text.{Text}
use para_egox.Agent.State.{ActiveTurn}

flag : ActiveTurn → ActiveTurn
flag a = record a { cancellation = true }

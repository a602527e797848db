-- ===== src/Agent/Context.antt =====
-- crates/paraegox-agent/src/service.rs, `build_model_context`: the messages sent to the model, and
-- the limit on their bytes.
pub mod Laws
use para_egox.Prelude.{
  ℕ, ◌+◌, ◌^◌, Option, none, some, List, [], ◌∷◌, ◌++◌, ltb, leb, if◌then◌else◌, Result, ok, err,
  ◌>>=◌,
}
use para_egox.Text.{Text, len}
use para_egox.Agent.Types.{
  TurnFailure, context_limit, TurnTerminal, final, cancelled, timed_out, failed,
}
use para_egox.Agent.Provider.{ModelRole, system, user, assistant, ModelMessage, ModelContext}
use para_egox.Agent.State.{CompletedTurn, SessionState}

abbrev pub max_model_context_bytes : ℕ
max_model_context_bytes = 262144

-- `usize::checked_add` on a 64-bit machine.
unfoldable pub checked_add : ℕ → ℕ → Option ℕ
checked_add a b = if ltb (a + b) (2 ^ 64) then some (a + b) else none

-- The messages so far and their bytes.
abbrev pub Draft : Type 0
Draft = List ModelMessage × ℕ

unfoldable pub push_context_message : Draft → ModelRole → Text → Result TurnFailure Draft
unfolding checked_add
push_context_message (messages, context_bytes) role content =
    elim (checked_add context_bytes (len content)) [
      | none ↦ err context_limit
      | some total ↦
          if leb total max_model_context_bytes
          then ok (messages ++ record { role = role; content = content } ∷ [], total)
          else err context_limit
    ]

unfoldable pub push_turn : Draft → Text → TurnTerminal → Result TurnFailure Draft
push_turn draft input (final content) = do
  asked ← push_context_message draft user input
  push_context_message asked assistant content
push_turn draft input cancelled = ok draft
push_turn draft input timed_out = ok draft
push_turn draft input (failed reason) = ok draft

unfoldable pub push_turns : Draft → List CompletedTurn → Result TurnFailure Draft
push_turns draft [] = ok draft
push_turns draft (turn ∷ turns) =
    push_turn draft turn.input turn.terminal >>= λ d. push_turns d turns

unfoldable pub build_model_context : Text → SessionState → Text → Result TurnFailure ModelContext
build_model_context system_prompt session current_input = do
  opened ← push_context_message ([], 0) system system_prompt
  filled ← push_turns opened session.turns
  closed ← push_context_message filled user current_input
  ok (record { messages = closed.0 })

-- ===== src/Agent/Types.antt =====
-- crates/paraegox-agent/src/lib.rs: the vocabulary of a conversation and the checks of what enters
-- it. An `AgentError` is its message; durations are nanoseconds; an identity is its UUID's number.
use para_egox.Prelude.{
  ℕ, ◌||◌, Option, none, some, ltb, leb, ◌==◌, if◌then◌else◌, Result, ok, err, ◌>>◌, reject_if, any,
}
use para_egox.Text.{Text, text, len, trim, is_empty, is_control}

abbrev pub builtin_agent_definition : Text
builtin_agent_definition = text "builtin.agent.deterministic@1"

abbrev pub deepseek_v4_flash_agent_definition : Text
deepseek_v4_flash_agent_definition = text "builtin.agent.deepseek-v4-flash@1"

abbrev pub max_input_bytes : ℕ
max_input_bytes = 4096

abbrev pub max_agent_wire_response_bytes : ℕ
max_agent_wire_response_bytes = 61440

abbrev pub max_turn_deadline : ℕ
max_turn_deadline = 60000000000

pub data AgentError : Type 0 where
  input_empty input_too_long input_control deadline_out_of_range : AgentError
  owner_unavailable not_running only_from_created : AgentError
  no_card_active profile_already_active other_card_active : AgentError
  definition_mismatch context_mismatch : AgentError
  different_input busy no_evictable_session terminal_capacity_full : AgentError
  lost_active_turn active_turn_changed : AgentError

pub data TurnFailure : Type 0 where
  provider_rejected provider_unavailable invalid_provider_response context_limit : TurnFailure

pub data TurnTerminal : Type 0 where
  final : Text → TurnTerminal
  cancelled timed_out : TurnTerminal
  failed : TurnFailure → TurnTerminal

pub record TurnResult : Type 0 where
  pub session_id : ℕ
  pub turn_id : ℕ
  pub terminal : TurnTerminal

pub data CancelResult : Type 0 where
  cancellation_requested : CancelResult
  already_terminal : TurnTerminal → CancelResult
  not_active : CancelResult

pub data WireResponse : Type 0 where
  turn : TurnResult → WireResponse
  cancel : ℕ → ℕ → CancelResult → WireResponse

unfoldable pub validate_input : Text → Result AgentError (Unit {0})
validate_input input = do
  reject_if (is_empty (trim input)) input_empty
  reject_if (ltb max_input_bytes (len input)) input_too_long
  reject_if (any is_control input) input_control

unfoldable pub validate_turn_deadline : ℕ → Result AgentError (Unit {0})
validate_turn_deadline deadline =
    if deadline == 0 || ltb max_turn_deadline deadline then err deadline_out_of_range else ok tt

-- `to_vec` is serde_json's encoder: the size of the encoding, if it succeeds.
unfoldable pub wire_safe_terminal : (WireResponse → Option ℕ) → ℕ → ℕ → TurnTerminal → TurnTerminal
wire_safe_terminal to_vec session_id turn_id terminal =
    elim (to_vec
      (turn (record { session_id = session_id; turn_id = turn_id; terminal = terminal }))) [
        | some encoded ↦
            if leb encoded max_agent_wire_response_bytes
            then terminal
            else failed invalid_provider_response
        | none ↦ failed invalid_provider_response
      ]

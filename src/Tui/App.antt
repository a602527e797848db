-- ===== src/Tui/App.antt =====
-- crates/paraegox/src/tui/app.rs: `ChatApp`, what the terminal shows of a conversation.
pub mod Bounds
use para_egox.Prelude.{
  ℕ, zero, suc, ◌+◌, ◌-◌, ◌^◌, Bool, true, false, Option, none, some, List, [], ◌∷◌, ◌++◌, ltb,
  ◌==◌, if◌then◌else◌, length,
}
use para_egox.Text.{Text, text, len, len_utf8, is_control}
use para_egox.Agent.Types.{
  TurnFailure, provider_rejected, provider_unavailable, invalid_provider_response, context_limit,
  TurnTerminal, final, cancelled, timed_out, failed,
}
use para_egox.Tui.Editor.{InputEditor}

abbrev pub max_ui_messages : ℕ
max_ui_messages = 64

abbrev pub max_message_bytes : ℕ
max_message_bytes = 16384

abbrev pub max_notice_bytes : ℕ
max_notice_bytes = 512

abbrev pub max_endpoint_bytes : ℕ
max_endpoint_bytes = 256

pub data MessageRole : Type 0 where
  by_user by_agent by_system : MessageRole

pub record ChatMessage : Type 0 where
  pub role : MessageRole
  pub content : Text

pub data AgentState : Type 0 where
  idle waiting error : AgentState

pub record ChatApp : Type 0 where
  pub target : Text
  pub endpoint : Text
  pub session_id : ℕ
  pub messages : List ChatMessage
  pub editor : InputEditor
  pub agent_state : AgentState
  pub submitted_turns : ℕ
  pub notice : Text

-- A character as it is displayed: a line feed is, and one of control is U+FFFD.
abbrev pub shown : ℕ → ℕ
shown c = if c == 10 then c else if is_control c then 65533 else c

-- The loop of `bounded_display_text`, which has put out so many bytes; U+2026 marks the cut.
unfoldable pub display_from : ℕ → ℕ → Text → Text
display_from max_bytes written [] = []
display_from max_bytes written (c ∷ t) =
    let rest = display_from max_bytes (written + len_utf8 (shown c)) t in
    if ltb (max_bytes - 3) (written + len_utf8 (shown c)) then 8230 ∷ [] else shown c ∷ rest

unfoldable pub bounded_display_text : Text → ℕ → Text
bounded_display_text value max_bytes = display_from max_bytes 0 value

-- `VecDeque::pop_front`.
abbrev pub pop_front : List ChatMessage → List ChatMessage
pop_front [] = []
pop_front (message ∷ messages) = messages

unfoldable pub push_message : MessageRole → Text → ChatApp → ChatApp
push_message role content app =
    let kept =
      if length app.messages == max_ui_messages then pop_front app.messages else app.messages in
    let message : ChatMessage = record {
      role = role;
      content = bounded_display_text content max_message_bytes;
    } in
    record app { messages = kept ++ message ∷ [] }

unfoldable pub set_notice : Text → ChatApp → ChatApp
set_notice notice app = record app { notice = bounded_display_text notice max_notice_bytes }

unfoldable pub new : Text → Text → ℕ → ChatApp
new target endpoint session_id = record {
  target = bounded_display_text target 64;
  endpoint = bounded_display_text endpoint max_endpoint_bytes;
  session_id = session_id;
  messages = [];
  editor = record { text = []; cursor = 0 };
  agent_state = idle;
  submitted_turns = 0;
  notice = text "Fabric session open; Agent availability is confirmed by a reply";
}

-- `u64::saturating_add(1)`.
abbrev pub saturating_suc : ℕ → ℕ
saturating_suc n = if ltb (suc n) (2 ^ 64) then suc n else 2 ^ 64 - 1

abbrev pub with_state : AgentState → ChatApp → ChatApp
with_state agent_state app = record app { agent_state = agent_state }

unfoldable pub begin_turn : Text → ChatApp → ChatApp
begin_turn input app =
    let waiting_app = with_state waiting (push_message by_user input app) in
    set_notice (text "Waiting for the Agent response")
      (record waiting_app { submitted_turns = saturating_suc waiting_app.submitted_turns })

-- `TurnFailure`'s `Display`.
unfoldable pub failure_text : TurnFailure → Text
failure_text provider_rejected = text "model provider rejected the request"
failure_text provider_unavailable = text "model provider is unavailable"
failure_text invalid_provider_response = text "model provider returned an invalid response"
failure_text context_limit = text "Agent session context limit was reached"

unfoldable pub finish_turn : TurnTerminal → ChatApp → ChatApp
finish_turn (final content) app =
    set_notice (text "Agent reply received") (with_state idle (push_message by_agent content app))
finish_turn cancelled app =
    set_notice (text "The active turn was cancelled")
      (with_state idle (push_message by_system (text "Turn cancelled") app))
finish_turn timed_out app =
    set_notice (text "The last turn timed out")
      (with_state error (push_message by_system (text "Turn timed out") app))
finish_turn (failed reason) app =
    set_notice (text "The last turn failed")
      (with_state error (push_message by_system (text "Turn failed: " ++ failure_text reason) app))

unfoldable pub cancellation_requested : ChatApp → ChatApp
cancellation_requested app =
    set_notice (text "The active turn cancellation was accepted")
      (push_message by_system (text "Cancellation requested") app)

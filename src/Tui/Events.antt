-- ===== src/Tui/Events.antt =====
-- crates/paraegox/src/tui/mod.rs: what the events of the terminal do, between turns and during one.
pub mod Submissions
use para_egox.Prelude.{
  ℕ, zero, suc, Bool, true, false, ◌&&◌, ◌||◌, not, Option, none, some, List, [], ◌∷◌, ltb, ◌==◌,
  ◌=?◌, nat_eq, list_eq, if◌then◌else◌, length, Result, ok, err,
}
use para_egox.Text.{Text, text, trim, is_empty}
use para_egox.Agent.Types.{
  TurnResult, CancelResult, cancellation_requested, already_terminal, not_active,
}
use para_egox.Tui.Editor.{
  InputEditor, insert, insert_text, backspace, delete, move_left, move_right, move_home, move_end,
  clear, take,
}
use para_egox.Tui.App.{ChatApp, set_notice, begin_turn, finish_turn}

pub data KeyCode : Type 0 where
  enter esc key_backspace key_delete left right home end_key : KeyCode
  char : ℕ → KeyCode
  other_code : KeyCode

pub data KeyEventKind : Type 0 where
  press repeat release : KeyEventKind

pub record KeyEvent : Type 0 where
  pub code : KeyCode
  pub control : Bool
  pub alt : Bool
  pub kind : KeyEventKind

pub data Event : Type 0 where
  key : KeyEvent → Event
  paste : Text → Event
  other_event : Event

pub data IdleAction : Type 0 where
  go_on quit : IdleAction
  submit : Text → IdleAction

pub data ActiveAction : Type 0 where
  stay cancel_turn leave : ActiveAction

unfoldable pub control_timeout : ℕ → ℕ
control_timeout turn_timeout = if ltb turn_timeout 2000000000 then turn_timeout else 2000000000

unfoldable pub is_key_input : KeyEvent → Bool
is_key_input event = elim event.kind [ press ↦ true | repeat ↦ true | release ↦ false ]

abbrev pub is_c : KeyCode → Bool
is_c (char c) = c == 99 || c == 67
is_c _ = false

unfoldable pub is_ctrl_c : KeyEvent → Bool
is_ctrl_c event = event.control && is_c event.code

abbrev pub with_editor : Option InputEditor → ChatApp → Option (IdleAction × ChatApp)
with_editor none app = none
with_editor (some editor) app = some (go_on, record app { editor = editor })

-- After an insertion, with the notice that one that does not fit gives.
abbrev pub inserted : Option (Bool × InputEditor) → ChatApp → Option (IdleAction × ChatApp)
inserted none app = none
inserted (some (true, editor)) app = some (go_on, record app { editor = editor })
inserted (some (false, editor)) app =
    some (go_on, set_notice (text "Input is limited to 4 KiB") (record app { editor = editor }))

unfoldable pub enter_pressed : ChatApp → IdleAction × ChatApp
enter_pressed app =
    if app.editor.text =? text "/quit"
    then (quit, app)
    else if is_empty (trim app.editor.text)
    then (go_on, app)
    else let (input, editor) = take app.editor in (submit input, record app { editor = editor })

unfoldable pub idle_key : ChatApp → KeyEvent → KeyCode → Option (IdleAction × ChatApp)
idle_key app event enter = some (enter_pressed app)
idle_key app event esc =
    some (go_on, set_notice (text "Input cleared") (record app { editor = clear app.editor }))
idle_key app event key_backspace = with_editor (backspace app.editor) app
idle_key app event key_delete = with_editor (delete app.editor) app
idle_key app event left = with_editor (some (move_left app.editor)) app
idle_key app event right = with_editor (some (move_right app.editor)) app
idle_key app event home = with_editor (some (move_home app.editor)) app
idle_key app event end_key = with_editor (some (move_end app.editor)) app
idle_key app event (char character) =
    if event.control || event.alt
    then some (go_on, app)
    else inserted (insert app.editor character) app
idle_key app event other_code = some (go_on, app)

unfoldable pub handle_idle_event : ChatApp → Event → Option (IdleAction × ChatApp)
handle_idle_event app (key event) =
    if is_key_input event
    then (if is_ctrl_c event then some (quit, app) else idle_key app event event.code)
    else some (go_on, app)
handle_idle_event app (paste t) = inserted (insert_text app.editor t) app
handle_idle_event app other_event = some (go_on, app)

abbrev pub is_esc : KeyCode → Bool
is_esc esc = true
is_esc _ = false

unfoldable pub handle_active_event : Event → ActiveAction
handle_active_event (key event) =
    if is_key_input event && is_ctrl_c event
    then leave
    else if is_key_input event && is_esc event.code
    then cancel_turn
    else stay
handle_active_event (paste t) = stay
handle_active_event other_event = stay

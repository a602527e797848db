-- ===== src/Tests/Terminals.antt =====
-- Runs of the terminal's conversation of crates/paraegox/src/tui.
use para_egox.Prelude.{ok, ◌≤◌, ◌-◌, ◌≡◌, refl, true, false, some, List, [], ◌∷◌, map, all, arith}
use para_egox.Text.{text, len, len_utf8, is_control}
use para_egox.Tui.Editor.Zipper.{
  Edit, type_char, paste, erase_left, go_left, Line, as_editor, edits, edits_gap, edits-as_editor,
}
use para_egox.Tui.App.{bounded_display_text, shown, ChatApp, new}
use para_egox.Tui.App.Bounds.{displayable, IsCut, bounded_display_text_lem, new-IsBounded}
use para_egox.Tui.Events.{KeyCode, enter, esc, press, Event, key}
use para_egox.Tui.Events.Submissions.{Clean}
use para_egox.Agent.Types.{final, cancellation_requested}
use para_egox.Tui.Loop.{Outside, Screen, fullscreen_event_loop}
use para_egox.Tui.Loop.Screens.{IsGood, IsRun}
use para_egox.Tui.Loop.Soundness.{fullscreen_event_loop-IsRun}

-- `aé`, its second character removed from behind a `b`.
abbrev typed : List Edit
typed = type_char 97 ∷ type_char 233 ∷ paste (98 ∷ 10 ∷ []) ∷ go_left ∷ erase_left ∷ []

abbrev empty_line : Line
empty_line = ([], [])

edits-as_editor_example :
    edits typed (as_editor empty_line)
    ≡ some ((edits_gap typed empty_line).0, as_editor (edits_gap typed empty_line).1)
edits-as_editor_example = edits-as_editor typed empty_line

bounded_display_text_lem_example :
    (len (bounded_display_text (97 ∷ 7 ∷ 98 ∷ []) 6) ≤ 6)
    × (all displayable (bounded_display_text (97 ∷ 7 ∷ 98 ∷ []) 6) ≡ true)
    × IsCut (6 - 3) (map shown (97 ∷ 7 ∷ 98 ∷ [])) (bounded_display_text (97 ∷ 7 ∷ 98 ∷ []) 6)
bounded_display_text_lem_example = bounded_display_text_lem (97 ∷ 7 ∷ 98 ∷ []) 6 (omega arith)

abbrev written_app : ChatApp
written_app = record (new (text "node-a") (text "tcp/127.0.0.1:7447") 7) {
  editor = as_editor (105 ∷ 104 ∷ [], []);
}

ih-Clean : Clean (105 ∷ 104 ∷ [], [])
unfolding len len_utf8 is_control
ih-Clean = (omega arith, refl, refl)

-- Enter submits the text; Escape then cancels the turn, which ends after that.
abbrev pressed : KeyCode → Event
pressed code = key (record { code = code; control = false; alt = false; kind = press })

abbrev opened : Screen
opened = record {
  app = written_app;
  events = ok (pressed enter) ∷ ok (pressed esc) ∷ [];
  submitted = [];
  drawn = 0;
  cancels = 0;
}

abbrev answering : Outside
answering = record {
  draw = λ index. true;
  submit_turn = λ index input. record {
    events_before = 1;
    result = ok (record { session_id = 7; turn_id = 20; terminal = final input });
  };
  cancel = λ index. ok cancellation_requested;
}

opened-IsGood : IsGood opened
opened-IsGood = (
  (
    new-IsBounded (text "node-a") (text "tcp/127.0.0.1:7447") 7,
    ((105 ∷ 104 ∷ [], []), refl, ih-Clean),
  ),
  tt,
)

fullscreen_event_loop-IsRun_example : IsRun opened (fullscreen_event_loop answering 3 opened)
fullscreen_event_loop-IsRun_example =
    fullscreen_event_loop-IsRun answering 3 opened (omega arith) opened-IsGood

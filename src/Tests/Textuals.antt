-- ===== src/Tests/Textuals.antt =====
-- Runs of the line protocol of crates/paraegox/src/textual_stdio.rs.
use para_egox.Prelude.{◌≤◌, ◌≡◌, refl, true, some, [], ◌∷◌, ◌++◌, arith, ok}
use para_egox.Text.{Text, text, len}
use para_egox.Agent.Types.{final, cancellation_requested}
use para_egox.Textual.Truncate.{truncate_utf8, Overflows, truncate_utf8_lem}
use para_egox.Textual.Frames.{piece, BoundedJsonlReader, next_frame}
use para_egox.Textual.Frames.Lines.{IsNext, next_frame_lem}
use para_egox.Textual.Frames.Bounds.{IsBounded, next_frame-IsBounded}
use para_egox.Textual.Protocol.{
  submit, cancel, shutdown, Outside, Adapter, Commands, run_protocol, run_textual_stdio,
}
use para_egox.Textual.Protocol.Answers.{
  Faithful, IsDone, IsComplete, run_protocol-IsDone, run_textual_stdio-IsComplete,
}

-- The third byte is inside of the second character.
truncate_utf8_lem_example :
    (p : Text) × (rest : Text) × (truncate_utf8 (97 ∷ 233 ∷ []) 2 ≡ some p)
    × (97 ∷ 233 ∷ [] ≡ p ++ rest)
    × (len p ≤ 2)
    × Overflows 2 p rest
truncate_utf8_lem_example = truncate_utf8_lem (97 ∷ 233 ∷ []) 2

-- The line `ab` in two pieces, with bytes of the next one.
abbrev two_pieces : BoundedJsonlReader
two_pieces = record { source = piece 97 [] ∷ piece 98 (10 ∷ 99 ∷ []) ∷ []; buffered = [] }

next_frame_lem_example : IsNext (97 ∷ 98 ∷ 10 ∷ 99 ∷ []) (next_frame two_pieces)
next_frame_lem_example = next_frame_lem two_pieces tt

next_frame-IsBounded_example : IsBounded (next_frame two_pieces)
next_frame-IsBounded_example = next_frame-IsBounded two_pieces (omega arith)

-- A client whose submissions end after one command with the turn's own result.
abbrev client : Outside
client = record {
  to_vec = λ frame. some 100;
  write = λ index. true;
  submit_turn = λ index turn_id input. record {
    commands_before = 1;
    result = ok (record { session_id = 7; turn_id = turn_id; terminal = final input });
    in_time = true;
  };
  cancel_turn = λ index turn_id. ok cancellation_requested;
  close = ok tt;
}

client-Faithful : Faithful client 7
client-Faithful index turn_id input = refl

-- A turn, its cancellation while it is active, another turn, and the end.
abbrev two_turns : Commands
two_turns =
    ok (submit 1 7 20 (text "one"))
    ∷ ok (cancel 1 7 20)
    ∷ ok (submit 1 7 21 (text "two"))
    ∷ ok (cancel 1 7 20)
    ∷ ok (shutdown 1 7)
    ∷ []

abbrev begun : Adapter
begun = record { commands = two_turns; submitted = []; written = []; writes = 0; cancels = 0 }

run_protocol-IsDone_example : IsDone (run_protocol client 7 6 begun)
run_protocol-IsDone_example =
    run_protocol-IsDone client 7 6 begun client-Faithful (omega arith) refl

run_textual_stdio-IsComplete_example :
    IsComplete 7 (run_textual_stdio client 7 30000000000 two_turns)
run_textual_stdio-IsComplete_example =
    run_textual_stdio-IsComplete client 7 30000000000 two_turns client-Faithful

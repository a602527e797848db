-- ===== src/Tui/Editor/Zipper.antt =====
-- The `InputEditor` of crates/paraegox/src/tui/app.rs against a line with a gap: the characters before
-- the cursor, the nearest first, and those behind it.
use para_egox.Prelude.{
  ℕ, suc, ◌+◌, ◌-◌, ◌≡◌, refl, sym, ◌∙◌, ap, Bool, true, false, ◌||◌, Option, none, some, List, [],
  ◌∷◌, ◌++◌, arith, ltb, ◌==◌, if◌then◌else◌, length, ap₂, Bool-cases, inl, inr,
}
use mathlib.Core.List.{append_assoc, append-nil}
use para_egox.Text.{Text, len, len_utf8, is_control}
use para_egox.Tui.Editor.{
  InputEditor, max_editor_bytes, insert, insert_text, backspace, delete, move_left, move_right,
  move_home, move_end, clear, byte_index, char_count, insert_at, remove_range, accepted,
}
use para_egox.Tui.Editor.Positions.{insert_at_lem, remove_range_lem}

abbrev pub rev_onto : Text → Text → Text
rev_onto [] behind = behind
rev_onto (c ∷ before) behind = rev_onto before (c ∷ behind)

-- The operations of the editor.
pub data Edit : Type 0 where
  type_char : ℕ → Edit
  paste : Text → Edit
  erase_left erase_right go_left go_right go_home go_end wipe : Edit

-- One operation, with its answer; the operations without one answer `true`.
unfoldable pub edit : Edit → InputEditor → Option (Bool × InputEditor)
edit (type_char c) editor = insert editor c
edit (paste t) editor = insert_text editor t
edit erase_left editor = accepted (backspace editor)
edit erase_right editor = accepted (delete editor)
edit go_left editor = some (true, move_left editor)
edit go_right editor = some (true, move_right editor)
edit go_home editor = some (true, move_home editor)
edit go_end editor = some (true, move_end editor)
edit wipe editor = some (true, clear editor)

abbrev pub Line : Type 0
Line = Text × Text

abbrev pub as_editor : Line → InputEditor
as_editor (before, behind) = record { text = rev_onto before behind; cursor = length before }

-- What the operations do to the line with a gap.
unfoldable pub type_gap : ℕ → Line → Bool × Line
type_gap c (before, behind) =
    if is_control c || ltb max_editor_bytes (len before + len behind + len_utf8 c)
    then (false, (before, behind))
    else (true, (c ∷ before, behind))

unfoldable pub paste_gap : Text → Line → Bool × Line
paste_gap [] line = (true, line)
paste_gap (c ∷ t) line =
    if is_control c
    then paste_gap t line
    else let (fits, next) = type_gap c line in
      elim fits [ true ↦ paste_gap t next | false ↦ (false, next) ]

abbrev pub left_gap : Line → Line
left_gap ([], behind) = ([], behind)
left_gap (c ∷ before, behind) = (before, c ∷ behind)

abbrev pub right_gap : Line → Line
right_gap (before, []) = (before, [])
right_gap (before, c ∷ behind) = (c ∷ before, behind)

abbrev pub erase_left_gap : Line → Line
erase_left_gap ([], behind) = ([], behind)
erase_left_gap (c ∷ before, behind) = (before, behind)

abbrev pub erase_right_gap : Line → Line
erase_right_gap (before, []) = (before, [])
erase_right_gap (before, c ∷ behind) = (before, behind)

unfoldable pub edit_gap : Edit → Line → Bool × Line
edit_gap (type_char c) line = type_gap c line
edit_gap (paste t) line = paste_gap t line
edit_gap erase_left line = (true, erase_left_gap line)
edit_gap erase_right line = (true, erase_right_gap line)
edit_gap go_left line = (true, left_gap line)
edit_gap go_right line = (true, right_gap line)
edit_gap go_home (before, behind) = (true, ([], rev_onto before behind))
edit_gap go_end (before, behind) = (true, (rev_onto behind before, []))
edit_gap wipe line = (true, ([], []))

rev_onto-append : (before behind : Text) → rev_onto before behind ≡ rev_onto before [] ++ behind
rev_onto-append [] behind = refl
rev_onto-append (c ∷ before) behind =
    rev_onto-append before (c ∷ behind)
    ∙ sym (append_assoc (rev_onto before []) (c ∷ []) behind)
    ∙ ap (λ t. t ++ behind) (sym (rev_onto-append before (c ∷ [])))

pub length-rev_onto :
    (before behind : Text) → length (rev_onto before behind) ≡ length before + length behind
length-rev_onto [] behind = omega arith
length-rev_onto (c ∷ before) behind = omega (arith, length-rev_onto before (c ∷ behind))

pub len-rev_onto : (before behind : Text) → len (rev_onto before behind) ≡ len before + len behind
unfolding len
len-rev_onto [] behind = omega arith
len-rev_onto (c ∷ before) behind = omega (arith, len-rev_onto before (c ∷ behind))

insert_gap :
    (c : ℕ) (before behind : Text)
    → insert_at (rev_onto before behind) (byte_index (rev_onto before behind) (length before)) c
      ≡ some (rev_onto (c ∷ before) behind)
insert_gap c before behind =
    ap₂ (λ t n. insert_at t (byte_index t n) c) (rev_onto-append before behind)
      (omega (arith, length-rev_onto before []))
    ∙ insert_at_lem (rev_onto before []) behind c
    ∙ ap some (sym (rev_onto-append before (c ∷ behind)))

remove_gap :
    (before : Text) (c : ℕ) (behind : Text)
    → remove_range
        (rev_onto before (c ∷ behind))
        (byte_index (rev_onto before (c ∷ behind)) (length before))
        (byte_index (rev_onto before (c ∷ behind)) (suc (length before)))
      ≡ some (rev_onto before behind)
remove_gap before c behind =
    ap₂ (λ t n. remove_range t (byte_index t n) (byte_index t (suc n)))
      (rev_onto-append before (c ∷ behind)) (omega (arith, length-rev_onto before []))
    ∙ remove_range_lem (rev_onto before []) c behind
    ∙ ap some (sym (rev_onto-append before behind))

abbrev pub as_answer : Bool × Line → Option (Bool × InputEditor)
as_answer (answer, line) = some (answer, as_editor line)

insert-as_editor : (c : ℕ) (line : Line) → insert (as_editor line) c ≡ as_answer (type_gap c line)
unfolding insert type_gap
insert-as_editor c (before, behind) =
    let same =
      ap (λ n. is_control c || ltb max_editor_bytes (n + len_utf8 c))
        (len-rev_onto before behind) in
    elim (Bool-cases
      (is_control c || ltb max_editor_bytes (len before + len behind + len_utf8 c))) [
        | inl over ↦ rw (same ∙ over, insert, over, type_gap) refl
        | inr fits ↦ rw (same ∙ fits, insert, fits, type_gap, insert_gap c before behind) refl
      ]

insert_text-as_editor :
    (t : Text) (line : Line) → insert_text (as_editor line) t ≡ as_answer (paste_gap t line)
unfolding insert_text paste_gap
insert_text-as_editor [] line = refl
insert_text-as_editor (c ∷ t) line = elim (Bool-cases (is_control c)) [
  | inl skipped ↦ rw (skipped, insert_text, paste_gap) (insert_text-as_editor t line)
  | inr typed ↦ elim (Bool-cases (type_gap c line).0) [
    | inl fits ↦
        rw (typed, insert_text, paste_gap, insert-as_editor c line, fits)
          (insert_text-as_editor t (type_gap c line).1)
    | inr over ↦ rw (typed, insert_text, paste_gap, insert-as_editor c line, over) refl
  ]
]

rev_onto-rev_onto :
    (before behind t : Text) → rev_onto (rev_onto behind before) t ≡ rev_onto before (behind ++ t)
rev_onto-rev_onto before [] t = refl
rev_onto-rev_onto before (c ∷ behind) t = rev_onto-rev_onto (c ∷ before) behind t

-- The answer `true` with a text and a cursor.
abbrev done : Text → ℕ → Option (Bool × InputEditor)
done t cursor = some (true, record { text = t; cursor = cursor })

pub edit-as_editor :
    (op : Edit) (line : Line) → edit op (as_editor line) ≡ as_answer (edit_gap op line)
unfolding edit edit_gap backspace delete move_left move_right move_home move_end clear char_count
edit-as_editor (type_char c) line = insert-as_editor c line
edit-as_editor (paste t) line = insert_text-as_editor t line
edit-as_editor erase_left ([], behind) = refl
edit-as_editor erase_left (c ∷ before, behind) =
    let some_left : (suc (length before) == 0) ≡ false = ground arith in
    let one_less : suc (length before) - 1 ≡ length before = omega arith in
    rw (some_left, backspace, one_less, remove_gap before c behind) refl
edit-as_editor erase_right (before, []) =
    let at_end : (length before == length (rev_onto before [])) ≡ true =
      ground (arith, length-rev_onto before []) in
    rw (at_end, delete, char_count) refl
edit-as_editor erase_right (before, c ∷ behind) =
    let inside : (length before == length (rev_onto before (c ∷ behind))) ≡ false =
      ground (arith, length-rev_onto before (c ∷ behind)) in
    rw (inside, delete, char_count, remove_gap before c behind) refl
edit-as_editor go_left ([], behind) = ap (done behind) (omega arith)
edit-as_editor go_left (c ∷ before, behind) = ap (done (rev_onto before (c ∷ behind))) (omega arith)
edit-as_editor go_right (before, []) =
    ap (done (rev_onto before [])) (ground (arith, length-rev_onto before []))
edit-as_editor go_right (before, c ∷ behind) =
    ap (done (rev_onto before (c ∷ behind))) (ground (arith, length-rev_onto before (c ∷ behind)))
edit-as_editor go_home line = refl
edit-as_editor go_end (before, behind) =
    ap₂ done
      (ap (rev_onto before) (sym (append-nil behind)) ∙ sym (rev_onto-rev_onto before behind []))
      (omega (arith, length-rev_onto before behind, length-rev_onto behind before))
edit-as_editor wipe line = refl

-- A sequence of operations, with their answers.
unfoldable pub edits : List Edit → InputEditor → Option (List Bool × InputEditor)
edits [] editor = some ([], editor)
edits (op ∷ ops) editor = elim (edit op editor) [
  | none ↦ none
  | some (answer, next) ↦ elim (edits ops next) [
    | none ↦ none
    | some (answers, last) ↦ some (answer ∷ answers, last)
  ]
]

unfoldable pub edits_gap : List Edit → Line → List Bool × Line
edits_gap [] line = ([], line)
edits_gap (op ∷ ops) line =
    let (answer, next) = edit_gap op line in
    let (answers, last) = edits_gap ops next in (answer ∷ answers, last)

-- However the operations of the editor follow each other, none panics: no position in bytes is inside
-- of a character. Their answers, the text and the cursor are those of a line with a gap, on which a
-- character is typed, removed or passed at the gap.
pub edits-as_editor :
    (ops : List Edit) (line : Line)
    → edits ops (as_editor line) ≡ some ((edits_gap ops line).0, as_editor (edits_gap ops line).1)
unfolding edits edits_gap
edits-as_editor [] line = refl
edits-as_editor (op ∷ ops) line =
    rw (edit-as_editor op line, edits, edits-as_editor ops (edit_gap op line).1) refl

-- ===== src/Tui/Editor.antt =====
-- crates/paraegox/src/tui/app.rs: `InputEditor`, a line of text with a cursor that counts characters.
-- Positions in a `String` are bytes; `none` is the panic of an index that is no boundary of characters.
pub mod Zipper
pub mod Positions
use para_egox.Prelude.{
  ℕ, zero, suc, ◌+◌, ◌-◌, Bool, true, false, ◌||◌, Option, none, some, List, [], ◌∷◌, ◌++◌, ltb,
  ◌==◌, if◌then◌else◌, length, get_elem?,
}
use para_egox.Text.{Text, len, len_utf8, is_control}

abbrev pub max_editor_bytes : ℕ
max_editor_bytes = 4096

pub record InputEditor : Type 0 where
  pub text : Text
  pub cursor : ℕ

-- `str::split_at` at a byte.
unfoldable pub split_bytes : Text → ℕ → Option (Text × Text)
split_bytes t zero = some ([], t)
split_bytes [] (suc n) = none
split_bytes (c ∷ t) (suc n) =
    let rest = split_bytes t (suc n - len_utf8 c) in
    if ltb (suc n) (len_utf8 c)
    then none
    else elim rest [ none ↦ none | some (before, behind) ↦ some (c ∷ before, behind) ]

-- `str::char_indices`, from an offset.
abbrev pub char_indices : ℕ → Text → List (ℕ × ℕ)
char_indices offset [] = []
char_indices offset (c ∷ t) = (offset, c) ∷ char_indices (offset + len_utf8 c) t

unfoldable pub byte_index : Text → ℕ → ℕ
byte_index t character_index = elim (get_elem? (char_indices 0 t) character_index) [
  | some (index, c) ↦ index
  | none ↦ len t
]

unfoldable pub char_count : Text → ℕ
char_count t = length t

-- `String::insert` and `String::replace_range` with the empty text.
unfoldable pub insert_at : Text → ℕ → ℕ → Option Text
insert_at t index c = elim (split_bytes t index) [
  | none ↦ none
  | some (before, behind) ↦ some (before ++ c ∷ behind)
]

unfoldable pub remove_range : Text → ℕ → ℕ → Option Text
remove_range t start end = elim (split_bytes t start) [
  | none ↦ none
  | some (before, _) ↦ elim (split_bytes t end) [
    | none ↦ none
    | some (_, behind) ↦ some (before ++ behind)
  ]
]

abbrev pub with_text : Option Text → ℕ → Option InputEditor
with_text none cursor = none
with_text (some text) cursor = some (record { text = text; cursor = cursor })

abbrev pub refused : InputEditor → Option (Bool × InputEditor)
refused editor = some (false, editor)

abbrev pub accepted : Option InputEditor → Option (Bool × InputEditor)
accepted none = none
accepted (some editor) = some (true, editor)

unfoldable pub insert : InputEditor → ℕ → Option (Bool × InputEditor)
insert editor character =
    if is_control character || ltb max_editor_bytes (len editor.text + len_utf8 character)
    then refused editor
    else accepted (
        with_text (insert_at editor.text (byte_index editor.text editor.cursor) character)
          (suc editor.cursor))

-- The characters of a paste; those of control are left out, and the first that does not fit ends it.
unfoldable pub insert_text : InputEditor → Text → Option (Bool × InputEditor)
insert_text editor [] = some (true, editor)
insert_text editor (c ∷ t) = if is_control c then insert_text editor t else elim (insert editor c) [
  | none ↦ none
  | some (true, next) ↦ insert_text next t
  | some (false, next) ↦ some (false, next)
]

unfoldable pub backspace : InputEditor → Option InputEditor
backspace editor =
    if editor.cursor == 0
    then some editor
    else with_text
        (remove_range editor.text (byte_index editor.text (editor.cursor - 1))
          (byte_index editor.text editor.cursor))
        (editor.cursor - 1)

unfoldable pub delete : InputEditor → Option InputEditor
delete editor =
    if editor.cursor == char_count editor.text
    then some editor
    else with_text
        (remove_range editor.text (byte_index editor.text editor.cursor)
          (byte_index editor.text (suc editor.cursor)))
        editor.cursor

unfoldable pub move_left : InputEditor → InputEditor
move_left editor = record editor { cursor = editor.cursor - 1 }

unfoldable pub move_right : InputEditor → InputEditor
move_right editor = record editor {
  cursor =
      if ltb (suc editor.cursor) (char_count editor.text)
      then suc editor.cursor
      else char_count editor.text;
}

unfoldable pub move_home : InputEditor → InputEditor
move_home editor = record editor { cursor = 0 }

unfoldable pub move_end : InputEditor → InputEditor
move_end editor = record editor { cursor = char_count editor.text }

unfoldable pub clear : InputEditor → InputEditor
clear editor = record { text = []; cursor = 0 }

unfoldable pub take : InputEditor → Text × InputEditor
take editor = (editor.text, record { text = []; cursor = 0 })

-- The text before the cursor, which places the cursor on the screen.
unfoldable pub prefix : InputEditor → Option Text
prefix editor = elim (split_bytes editor.text (byte_index editor.text editor.cursor)) [
  | none ↦ none
  | some (before, _) ↦ some before
]

-- ===== src/Tui/Events/Submissions.antt =====
-- What the events between two turns leave in the editor and submit, by crates/paraegox/src/tui/mod.rs.
use para_egox.Prelude.{
  ℕ, ◌+◌, ◌≤◌, ◌≡◌, refl, sym, ◌∙◌, ap, subst, nat_eq, list_eq, Bool, true, false, ◌||◌, Option,
  none, some, [], ◌∷◌, arith, ltb, ◌=?◌, any, Bool-cases, inl, inr, ok,
}
use para_egox.Text.{Text, text, len, len_utf8, trim, is_empty, is_control}
use para_egox.Agent.Types.{validate_input, max_input_bytes}
use para_egox.Tui.Editor.{
  InputEditor, max_editor_bytes, backspace, delete, move_left, move_right, move_home, move_end,
  clear, take, accepted,
}
use para_egox.Tui.Editor.Zipper.{
  Line, as_editor, rev_onto, len-rev_onto, Edit, type_char, erase_left, erase_right, go_left,
  go_right, go_home, go_end, wipe, edit, edit_gap, type_gap, paste_gap, edit-as_editor,
}
use para_egox.Tui.Editor.Zipper
use para_egox.Tui.App.{ChatApp, set_notice}
use para_egox.Tui.App.Bounds.{IsBounded, set_notice-IsBounded}
use para_egox.Tui.Events.{
  KeyCode, enter, esc, key_backspace, key_delete, left, right, home, end_key, char, other_code,
  KeyEvent, Event, key, paste, other_event, IdleAction, go_on, quit, submit, is_key_input,
  is_ctrl_c, with_editor, inserted, enter_pressed, idle_key, handle_idle_event,
}

-- At most 4 KiB and no character of control.
abbrev pub Clean : Line → Type 0
Clean (before, behind) =
    (len before + len behind ≤ max_editor_bytes)
    × (any is_control before ≡ false)
    × (any is_control behind ≡ false)

abbrev pub IsClean : InputEditor → Type 0
IsClean editor = (line : Line) × (editor ≡ as_editor line) × Clean line

any-rev_onto :
    (before behind : Text)
    → any is_control (rev_onto before behind) ≡ (any is_control before || any is_control behind)
any-rev_onto [] behind = refl
any-rev_onto (c ∷ before) behind = ground (arith, any-rev_onto before (c ∷ behind))

type_gap-Clean : (c : ℕ) (line : Line) → Clean line → Clean (type_gap c line).1
unfolding type_gap len
type_gap-Clean c (before, behind) h = elim (Bool-cases (is_control c)) [
  | inl bad ↦ rw (bad, type_gap) h
  | inr good ↦ elim (Bool-cases (ltb max_editor_bytes (len before + len behind + len_utf8 c))) [
    | inl over ↦ rw (good, type_gap, over) h
    | inr fits ↦ rw (good, type_gap, fits) (ground arith)
  ]
]

paste_gap-Clean : (t : Text) (line : Line) → Clean line → Clean (paste_gap t line).1
unfolding paste_gap
paste_gap-Clean [] line h = h
paste_gap-Clean (c ∷ t) line h = elim (Bool-cases (is_control c)) [
  | inl skipped ↦ rw (skipped, paste_gap) (paste_gap-Clean t line h)
  | inr typed ↦ elim (Bool-cases (type_gap c line).0) [
    | inl fits ↦
        rw (typed, paste_gap, fits)
          (paste_gap-Clean t (type_gap c line).1 (type_gap-Clean c line h))
    | inr over ↦ rw (typed, paste_gap, over) (type_gap-Clean c line h)
  ]
]

edit_gap-Clean : (op : Edit) (line : Line) → Clean line → Clean (edit_gap op line).1
unfolding edit_gap len
edit_gap-Clean (type_char c) line h = type_gap-Clean c line h
edit_gap-Clean (Zipper.paste t) line h = paste_gap-Clean t line h
edit_gap-Clean erase_left ([], behind) h = h
edit_gap-Clean erase_left (c ∷ before, behind) h = ground arith
edit_gap-Clean erase_right (before, []) h = h
edit_gap-Clean erase_right (before, c ∷ behind) h = ground arith
edit_gap-Clean go_left ([], behind) h = h
edit_gap-Clean go_left (c ∷ before, behind) h = ground arith
edit_gap-Clean go_right (before, []) h = h
edit_gap-Clean go_right (before, c ∷ behind) h = ground arith
edit_gap-Clean go_home (before, behind) h =
    ground (arith, len-rev_onto before behind, any-rev_onto before behind)
edit_gap-Clean go_end (before, behind) h =
    ground (arith, len-rev_onto behind before, any-rev_onto behind before)
edit_gap-Clean wipe line h = (omega arith, refl, refl)

edit-IsClean :
    (op : Edit) (editor : InputEditor)
    → IsClean editor
    → (answer : Bool) × (next : InputEditor) × (edit op editor ≡ some (answer, next)) × IsClean next
edit-IsClean op editor (line, same, clean) = (
  (edit_gap op line).0,
  as_editor (edit_gap op line).1,
  ap (edit op) same ∙ edit-as_editor op line,
  ((edit_gap op line).1, refl, edit_gap-Clean op line clean),
)

abbrev pub IsValid : IdleAction → Type 0
IsValid go_on = Unit {0}
IsValid quit = Unit {0}
IsValid (submit input) = validate_input input ≡ ok tt

abbrev pub IsSound : ChatApp → Type 0
IsSound app = IsBounded app × IsClean app.editor

-- A handler that does not panic, keeps the bounds, and submits only what the Agent's check accepts.
abbrev pub IsHandled : Option (IdleAction × ChatApp) → Type 0
IsHandled o =
    (action : IdleAction) × (app : ChatApp) × (o ≡ some (action, app))
    × IsSound app
    × IsValid action

answered-IsHandled :
    (app : ChatApp) (answer : Bool) (next : InputEditor)
    → IsSound app
    → IsClean next
    → IsHandled (inserted (some (answer, next)) app)
unfolding set_notice
answered-IsHandled app true next (b, c) clean =
    (go_on, record app { editor = next }, refl, (b, clean), tt)
answered-IsHandled app false next (b, c) clean =
    (go_on, _, refl, (set_notice-IsBounded _ (record app { editor = next }) b, clean), tt)

inserted-IsHandled :
    (op : Edit) (app : ChatApp) → IsSound app → IsHandled (inserted (edit op app.editor) app)
inserted-IsHandled op app (b, c) =
    let (answer, next, e, clean) = edit-IsClean op app.editor c in
    rw e (answered-IsHandled app answer next (b, c) clean)

with_editor-IsHandled :
    (o : Option InputEditor) (answer : Bool) (next : InputEditor) (app : ChatApp)
    → accepted o ≡ some (answer, next)
    → IsClean next
    → IsSound app
    → IsHandled (with_editor o app)
with_editor-IsHandled none answer next app e clean sound = absurd (ground arith)
with_editor-IsHandled (some editor) answer next app e clean (b, c) =
    let same : editor ≡ next = ground arith in
    (go_on, record app { editor = editor }, refl, (b, subst IsClean (sym same) clean), tt)

moved-IsHandled :
    (op : Edit) (o : Option InputEditor) (app : ChatApp)
    → accepted o ≡ edit op app.editor
    → IsSound app
    → IsHandled (with_editor o app)
moved-IsHandled op o app same sound =
    let (answer, next, e, clean) = edit-IsClean op app.editor sound.1 in
    with_editor-IsHandled o answer next app (same ∙ e) clean sound

validate_input_lem :
    (line : Line)
    → Clean line
    → is_empty (trim (as_editor line).text) ≡ false
    → validate_input (as_editor line).text ≡ ok tt
unfolding validate_input
validate_input_lem (before, behind) (fits, c, d) full =
    let short : ltb max_input_bytes (len (rev_onto before behind)) ≡ false =
      ground (arith, len-rev_onto before behind) in
    let printable : any is_control (rev_onto before behind) ≡ false =
      ground (arith, any-rev_onto before behind) in
    rw (full, validate_input, short, printable) refl

enter_pressed-IsHandled : (app : ChatApp) → IsSound app → IsHandled (some (enter_pressed app))
unfolding enter_pressed take len
enter_pressed-IsHandled app (b, (line, same, clean)) =
    elim (Bool-cases (app.editor.text =? text "/quit")) [
      | inl quits ↦ rw (quits, enter_pressed) (quit, app, refl, (b, (line, same, clean)), tt)
      | inr other ↦ elim (Bool-cases (is_empty (trim app.editor.text))) [
        | inl blank ↦
            rw (other, enter_pressed, blank) (go_on, app, refl, (b, (line, same, clean)), tt)
        | inr full ↦
            rw (other, enter_pressed, full)
              (
                submit app.editor.text,
                record app { editor = record { text = []; cursor = 0 } },
                refl,
                (b, (([], []), refl, (omega arith, refl, refl))),
                subst (λ t. validate_input t ≡ ok tt) (sym (ap (λ editor. editor.text) same))
                    (validate_input_lem line clean
                      (ap (λ t. is_empty (trim t)) (sym (ap (λ editor. editor.text) same)) ∙ full)),
              )
      ]
    ]

idle_key-IsHandled :
    (event : KeyEvent) (code : KeyCode) (app : ChatApp)
    → IsSound app
    → IsHandled (idle_key app event code)
unfolding idle_key edit set_notice clear len
idle_key-IsHandled event enter app sound = enter_pressed-IsHandled app sound
idle_key-IsHandled event esc app (b, c) =
    let wiped : ChatApp = record app { editor = record { text = []; cursor = 0 } } in
    (
      go_on,
      set_notice (text "Input cleared") wiped,
      refl,
      (set_notice-IsBounded _ wiped b, (([], []), refl, (omega arith, refl, refl))),
      tt,
    )
idle_key-IsHandled event key_backspace app sound =
    moved-IsHandled erase_left (backspace app.editor) app refl sound
idle_key-IsHandled event key_delete app sound =
    moved-IsHandled erase_right (delete app.editor) app refl sound
idle_key-IsHandled event left app sound =
    moved-IsHandled go_left (some (move_left app.editor)) app refl sound
idle_key-IsHandled event right app sound =
    moved-IsHandled go_right (some (move_right app.editor)) app refl sound
idle_key-IsHandled event home app sound =
    moved-IsHandled go_home (some (move_home app.editor)) app refl sound
idle_key-IsHandled event end_key app sound =
    moved-IsHandled go_end (some (move_end app.editor)) app refl sound
idle_key-IsHandled event (char c) app sound = elim (Bool-cases (event.control || event.alt)) [
  | inl shortcut ↦ rw (shortcut, idle_key) (go_on, app, refl, sound, tt)
  | inr typed ↦ rw (typed, idle_key) (inserted-IsHandled (type_char c) app sound)
]
idle_key-IsHandled event other_code app sound = (go_on, app, refl, sound, tt)

-- Whatever the terminal reports between two turns, its handler does not panic, what is shown stays
-- within its bounds, the editor keeps a text of at most 4 KiB without characters of control, and a text
-- that it submits passes the Agent's check of an input.
pub handle_idle_event-IsHandled :
    (event : Event) (app : ChatApp) → IsSound app → IsHandled (handle_idle_event app event)
unfolding handle_idle_event idle_key edit set_notice clear
handle_idle_event-IsHandled (key event) app sound = elim (Bool-cases (is_key_input event)) [
  | inr ignored ↦ rw (ignored, handle_idle_event) (go_on, app, refl, sound, tt)
  | inl pressed ↦ elim (Bool-cases (is_ctrl_c event)) [
    | inl interrupt ↦ rw (pressed, handle_idle_event, interrupt) (quit, app, refl, sound, tt)
    | inr other ↦
        rw (pressed, handle_idle_event, other) (idle_key-IsHandled event event.code app sound)
  ]
]
handle_idle_event-IsHandled (paste t) app sound = inserted-IsHandled (Zipper.paste t) app sound
handle_idle_event-IsHandled other_event app sound = (go_on, app, refl, sound, tt)

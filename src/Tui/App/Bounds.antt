-- ===== src/Tui/App/Bounds.antt =====
-- How much `ChatApp` of crates/paraegox/src/tui/app.rs holds, and what its texts are made of.
use para_egox.Prelude.{
  ℕ, ◌+◌, ◌-◌, ◌≤◌, ◌<◌, ◌≡◌, refl, ap, subst, Bool, true, ◌||◌, not, List, [], ◌∷◌, ◌++◌, arith,
  ltb, ◌==◌, length, length-append, All, All-append, map, all, ◌⊎◌, inl, inr, Bool-cases,
}
use para_egox.Text.{Text, text, len, len_utf8, len-append, is_control}
use para_egox.Agent.Types.{TurnTerminal, final, cancelled, timed_out, failed}
use para_egox.Tui.App.{
  failure_text, by_user, by_agent, by_system, ChatMessage, MessageRole, ChatApp, display_from,
  bounded_display_text, shown, push_message, set_notice, pop_front, new, begin_turn, finish_turn,
  cancellation_requested, max_message_bytes, max_notice_bytes, max_endpoint_bytes, max_ui_messages,
}

abbrev pub displayable : ℕ → Bool
displayable c = c == 10 || not (is_control c)

-- The whole text as it is displayed, or a beginning of it that fills the room and the mark of the cut.
abbrev pub IsCut : ℕ → Text → Text → Type 0
IsCut room shown_text output =
    ((output ≡ shown_text) × (len shown_text ≤ room))
    ⊎ ((p : Text) × (rest : Text) × (shown_text ≡ p ++ rest)
        × (output ≡ p ++ 8230 ∷ [])
        × (len p ≤ room)
        × (room < len p + len rest))

shown-displayable : (c : ℕ) → displayable (shown c) ≡ true
unfolding is_control
shown-displayable c = ground arith

all-display_from :
    (max_bytes written : ℕ) (t : Text) → all displayable (display_from max_bytes written t) ≡ true
unfolding display_from is_control
all-display_from max_bytes written [] = refl
all-display_from max_bytes written (c ∷ t) =
    elim (Bool-cases (ltb (max_bytes - 3) (written + len_utf8 (shown c)))) [
      | inl over ↦ rw (over, display_from) refl
      | inr fits ↦
          rw (fits, display_from, shown-displayable c)
            (all-display_from max_bytes (written + len_utf8 (shown c)) t)
    ]

IsCut-cons :
    (room n c : ℕ) (t output : Text)
    → room ≡ len_utf8 c + n
    → IsCut n t output
    → IsCut room (c ∷ t) (c ∷ output)
unfolding len
IsCut-cons room n c t output e (inl (same, fits)) = inl (ap (λ s. c ∷ s) same, omega arith)
IsCut-cons room n c t output e (inr (p, rest, parts, cut, fits, over)) =
    inr (c ∷ p, rest, ap (λ s. c ∷ s) parts, ap (λ s. c ∷ s) cut, omega arith, omega arith)

display_from-IsCut :
    (max_bytes written : ℕ) (t : Text)
    → written ≤ max_bytes - 3
    → IsCut (max_bytes - 3 - written) (map shown t) (display_from max_bytes written t)
unfolding display_from len
display_from-IsCut max_bytes written [] h = inl (refl, omega arith)
display_from-IsCut max_bytes written (c ∷ t) h =
    elim (Bool-cases (ltb (max_bytes - 3) (written + len_utf8 (shown c)))) [
      | inl over ↦
          rw (over, display_from)
            (inr ([], shown c ∷ map shown t, refl, refl, omega arith, ground arith))
      | inr fits ↦
          rw (fits, display_from)
            (IsCut-cons (max_bytes - 3 - written) (max_bytes - 3 - (written + len_utf8 (shown c)))
              (shown c) (map shown t) _ (ground arith)
              (display_from-IsCut max_bytes (written + len_utf8 (shown c)) t (ground arith)))
    ]

len-display :
    (room : ℕ) (shown_text output : Text) → IsCut room shown_text output → len output ≤ room + 3
unfolding len len_utf8
len-display room shown_text output (inl (same, fits)) = rw same (omega arith)
len-display room shown_text output (inr (p, rest, parts, cut, fits, over)) =
    rw cut (rw (len-append p (8230 ∷ [])) (let mark : len (8230 ∷ []) ≡ 3 = refl in omega arith))

-- `bounded_display_text` gives at most the bytes allowed, of characters that are no control or a line
-- feed: the text with its characters of control replaced, when that has three bytes to spare, and
-- otherwise a beginning of it and the mark of the cut. The bytes allowed are at least three.
pub bounded_display_text_lem :
    (value : Text) (max_bytes : ℕ)
    → 3 ≤ max_bytes
    → (len (bounded_display_text value max_bytes) ≤ max_bytes)
      × (all displayable (bounded_display_text value max_bytes) ≡ true)
      × IsCut (max_bytes - 3) (map shown value) (bounded_display_text value max_bytes)
unfolding bounded_display_text
bounded_display_text_lem value max_bytes h =
    let cut = display_from-IsCut max_bytes 0 value (omega arith) in
    let none_written : max_bytes - 3 - 0 ≡ max_bytes - 3 = omega arith in
    (
      omega (arith, len-display (max_bytes - 3 - 0) (map shown value) _ cut),
      all-display_from max_bytes 0 value,
      subst (λ room. IsCut room (map shown value) (display_from max_bytes 0 value)) none_written
          cut,
    )

abbrev pub MessageFits : ChatMessage → Type 0
MessageFits message = len message.content ≤ max_message_bytes

-- The bounds of what is shown.
abbrev pub IsBounded : ChatApp → Type 0
IsBounded app =
    (len app.target ≤ 64)
    × (len app.endpoint ≤ max_endpoint_bytes)
    × (len app.notice ≤ max_notice_bytes)
    × (length app.messages ≤ max_ui_messages)
    × All MessageFits app.messages

display_fits :
    (value : Text) (max_bytes : ℕ)
    → 3 ≤ max_bytes
    → len (bounded_display_text value max_bytes) ≤ max_bytes
display_fits value max_bytes h = (bounded_display_text_lem value max_bytes h).0

pub set_notice-IsBounded :
    (notice : Text) (app : ChatApp) → IsBounded app → IsBounded (set_notice notice app)
unfolding set_notice
set_notice-IsBounded notice app (t, e, n, m, a) =
    (t, e, display_fits notice max_notice_bytes (omega arith), m, a)

All-pop_front :
    (messages : List ChatMessage) → All MessageFits messages → All MessageFits (pop_front messages)
All-pop_front [] a = tt
All-pop_front (message ∷ messages) a = a.1

length-pop_front : (messages : List ChatMessage) → length (pop_front messages) ≡ length messages - 1
length-pop_front [] = omega arith
length-pop_front (message ∷ messages) = omega arith

push_message-IsBounded :
    (role : MessageRole) (content : Text) (app : ChatApp)
    → IsBounded app
    → IsBounded (push_message role content app)
unfolding push_message
push_message-IsBounded role content app (t, e, n, m, a) =
    let fits = display_fits content max_message_bytes (omega arith) in
    let message : ChatMessage = record {
      role = role;
      content = bounded_display_text content max_message_bytes;
    } in
    elim (Bool-cases (length app.messages == max_ui_messages)) [
      | inl full ↦
          rw (full, push_message)
            (
              t,
              e,
              n,
              ground (
                arith,
                length-append (pop_front app.messages) (message ∷ []),
                length-pop_front app.messages,
              ),
              All-append MessageFits (pop_front app.messages) _ (All-pop_front app.messages a)
                  (fits, tt),
            )
      | inr roomy ↦
          rw (roomy, push_message)
            (
              t,
              e,
              n,
              ground (arith, length-append app.messages (message ∷ [])),
              All-append MessageFits app.messages _ a (fits, tt),
            )
    ]

pub new-IsBounded :
    (target endpoint : Text) (session_id : ℕ) → IsBounded (new target endpoint session_id)
unfolding new len len_utf8
new-IsBounded target endpoint session_id = (
  display_fits target 64 (omega arith),
  display_fits endpoint max_endpoint_bytes (omega arith),
  omega arith,
  omega arith,
  tt,
)

pub begin_turn-IsBounded :
    (input : Text) (app : ChatApp) → IsBounded app → IsBounded (begin_turn input app)
unfolding begin_turn
begin_turn-IsBounded input app h =
    set_notice-IsBounded _ _ (push_message-IsBounded by_user input app h)

pub finish_turn-IsBounded :
    (terminal : TurnTerminal) (app : ChatApp) → IsBounded app → IsBounded (finish_turn terminal app)
unfolding finish_turn
finish_turn-IsBounded (final content) app h =
    set_notice-IsBounded _ _ (push_message-IsBounded by_agent content app h)
finish_turn-IsBounded cancelled app h =
    set_notice-IsBounded _ _ (push_message-IsBounded by_system (text "Turn cancelled") app h)
finish_turn-IsBounded timed_out app h =
    set_notice-IsBounded _ _ (push_message-IsBounded by_system (text "Turn timed out") app h)
finish_turn-IsBounded (failed reason) app h =
    set_notice-IsBounded _ _
      (push_message-IsBounded by_system (text "Turn failed: " ++ failure_text reason) app h)

pub cancellation_requested-IsBounded :
    (app : ChatApp) → IsBounded app → IsBounded (cancellation_requested app)
unfolding cancellation_requested
cancellation_requested-IsBounded app h =
    set_notice-IsBounded _ _
      (push_message-IsBounded by_system (text "Cancellation requested") app h)

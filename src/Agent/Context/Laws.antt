-- ===== src/Agent/Context/Laws.antt =====
-- What `build_model_context` of crates/paraegox-agent/src/service.rs sends: the prompt, the
-- successful exchanges of the session in their order, and the input; or nothing, past the limit.
use para_egox.Prelude.{
  ℕ, ◌+◌, ◌≤◌, ◌≡◌, refl, sym, ◌∙◌, ap, List, [], ◌∷◌, ◌++◌, arith, leb, if◌then◌else◌, Result, ok,
  err, ◌>>=◌, fun_ext,
}
use mathlib.Core.List.{append_assoc, append-nil}
use native.Mathlib.Nat.{add_assoc}
use para_egox.Text.{Text, len}
use para_egox.Agent.Types.{
  TurnFailure, context_limit, TurnTerminal, final, cancelled, timed_out, failed,
}
use para_egox.Agent.Provider.{ModelRole, system, user, assistant, ModelMessage, ModelContext}
use para_egox.Agent.State.{CompletedTurn, SessionState}
use para_egox.Agent.Context.{
  max_model_context_bytes, Draft, push_context_message, push_turn, push_turns, build_model_context,
}

abbrev pub message : ModelRole → Text → ModelMessage
message role content = record { role = role; content = content }

-- A turn leaves its two messages if it has an answer.
abbrev pub exchange : Text → TurnTerminal → List ModelMessage
exchange input (final content) = message user input ∷ message assistant content ∷ []
exchange input cancelled = []
exchange input timed_out = []
exchange input (failed reason) = []

abbrev pub history : List CompletedTurn → List ModelMessage
history [] = []
history (turn ∷ turns) = exchange turn.input turn.terminal ++ history turns

abbrev pub context_messages : Text → SessionState → Text → List ModelMessage
context_messages system_prompt session input =
    message system system_prompt ∷ (history session.turns ++ message user input ∷ [])

abbrev pub bytes : List ModelMessage → ℕ
bytes [] = 0
bytes (m ∷ ms) = len m.content + bytes ms

bytes-append : (xs ys : List ModelMessage) → bytes (xs ++ ys) ≡ bytes xs + bytes ys
bytes-append [] ys = omega arith
bytes-append (x ∷ xs) ys = omega (arith, bytes-append xs ys)

-- The draft with more messages, if they fit.
pushed : Draft → List ModelMessage → Result TurnFailure Draft
pushed d ms =
    if leb (d.1 + bytes ms) max_model_context_bytes
    then ok (d.0 ++ ms, d.1 + bytes ms)
    else err context_limit

pushed-nil : (d : Draft) → d.1 ≤ max_model_context_bytes → pushed d [] ≡ ok d
unfolding pushed
pushed-nil d h = ground (arith, append-nil d.0)

pushed-append :
    (d : Draft) (xs ys : List ModelMessage)
    → (pushed d xs >>= λ e. pushed e ys) ≡ pushed d (xs ++ ys)
unfolding pushed
pushed-append d xs ys =
    ground (arith, bytes-append xs ys, append_assoc d.0 xs ys, add_assoc d.1 (bytes xs) (bytes ys))

push_context_message_lem :
    (d : Draft) (role : ModelRole) (content : Text)
    → d.1 ≤ max_model_context_bytes
    → push_context_message d role content ≡ pushed d (message role content ∷ [])
unfolding push_context_message pushed
push_context_message_lem d role content h = ground arith

pushed-fits :
    (d e : Draft) (ms : List ModelMessage) → pushed d ms ≡ ok e → e.1 ≤ max_model_context_bytes
unfolding pushed
pushed-fits d e ms h = ground arith

-- A step after a draft that fits.
pushed-then :
    (d : Draft) (xs ys : List ModelMessage) (f : Draft → Result TurnFailure Draft)
    → ((e : Draft) → e.1 ≤ max_model_context_bytes → f e ≡ pushed e ys)
    → (pushed d xs >>= f) ≡ pushed d (xs ++ ys)
pushed-then d xs ys f h = go (pushed d xs) refl ∙ pushed-append d xs ys
  where
    go : (r : Result TurnFailure Draft) → pushed d xs ≡ r → (r >>= f) ≡ (r >>= λ e. pushed e ys)
    go (ok e) q = h e (pushed-fits d e xs q)
    go (err x) q = refl

>>=-assoc :
    {A B C : Type 0} (m : Result TurnFailure A) (f : A → Result TurnFailure B)
    (g : B → Result TurnFailure C)
    → (m >>= λ a. (f a >>= g)) ≡ ((m >>= f) >>= g)
>>=-assoc (ok a) f g = refl
>>=-assoc (err e) f g = refl

push_turn_lem :
    (d : Draft) (input : Text) (terminal : TurnTerminal)
    → d.1 ≤ max_model_context_bytes
    → push_turn d input terminal ≡ pushed d (exchange input terminal)
unfolding push_turn
push_turn_lem d input (final content) h =
    rw (push_context_message_lem d user input h, push_turn)
      (pushed-then d (message user input ∷ []) (message assistant content ∷ []) _
        (λ e. push_context_message_lem e assistant content))
push_turn_lem d input cancelled h = sym (pushed-nil d h)
push_turn_lem d input timed_out h = sym (pushed-nil d h)
push_turn_lem d input (failed reason) h = sym (pushed-nil d h)

push_turns_lem :
    (d : Draft) (turns : List CompletedTurn)
    → d.1 ≤ max_model_context_bytes
    → push_turns d turns ≡ pushed d (history turns)
unfolding push_turns
push_turns_lem d [] h = sym (pushed-nil d h)
push_turns_lem d (turn ∷ turns) h = rw (push_turn_lem d turn.input turn.terminal h) (
    pushed-then d (exchange turn.input turn.terminal) (history turns) _
      (λ e. push_turns_lem e turns))

-- The steps of the draft in one.
draft_lem :
    (prompt : Text) (s : SessionState) (input : Text)
    → (push_context_message ([], 0) system prompt >>= λ o.
        (push_turns o s.turns >>= λ f. push_context_message f user input))
      ≡ pushed ([], 0) (context_messages prompt s input)
draft_lem prompt s input = rw (push_context_message_lem ([], 0) system prompt (omega arith)) (
    pushed-then ([], 0) (message system prompt ∷ []) (history s.turns ++ message user input ∷ []) _
      (λ e h. rw (push_turns_lem e s.turns h) (
        pushed-then e (history s.turns) (message user input ∷ []) _
          (λ f. push_context_message_lem f user input))))

closed_lem :
    (ms : List ModelMessage)
    → (pushed ([], 0) ms >>= λ c. ok (let m : ModelContext = record { messages = c.0 } in m)) ≡ (
        if leb (bytes ms) max_model_context_bytes
        then ok (record { messages = ms })
        else err context_limit)
unfolding pushed
closed_lem ms = ground arith

-- The context is the prompt, the answered exchanges of the session in their order and the input, if
-- their bytes are within the limit; past the limit it is refused.
pub build_model_context_lem :
    (prompt : Text) (s : SessionState) (input : Text)
    → build_model_context prompt s input ≡ (
        if leb (bytes (context_messages prompt s input)) max_model_context_bytes
        then ok (record { messages = context_messages prompt s input })
        else err context_limit)
unfolding build_model_context
build_model_context_lem prompt s input =
    ap (λ m. push_context_message ([], 0) system prompt >>= m)
      (fun_ext λ o. >>=-assoc (push_turns o s.turns) (λ f. push_context_message f user input) _)
    ∙ >>=-assoc (push_context_message ([], 0) system prompt) _ _
    ∙ ap (λ m. m >>= λ c. ok (let m : ModelContext = record { messages = c.0 } in m))
        (draft_lem prompt s input)
    ∙ closed_lem (context_messages prompt s input)

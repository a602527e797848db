-- ===== src/Agent/Outcomes/Answers.antt =====
-- What the provider is asked, and what the deterministic provider of
-- crates/paraegox-agent/src/provider.rs answers to it.
use para_egox.Prelude.{
  ℕ, ◌≤◌, ◌≡◌, refl, ◌∙◌, ap, Option, none, some, List, [], ◌∷◌, ◌++◌, reverse, arith, ok, lookup,
  nat_eq, ap₂,
}
use mathlib.Core.List.{reverse-append, reverse-cons, append-nil}
use para_egox.Text.{Text, text}
use para_egox.Agent.Types.{TurnTerminal, final, cancelled, timed_out, failed}
use para_egox.Agent.Provider.{
  user, ModelMessage, ModelContext, user_inputs, answer, deterministic_final,
}
use para_egox.Agent.Context.{build_model_context, max_model_context_bytes}
use para_egox.Agent.Context.Laws.{
  message, exchange, history, context_messages, bytes, build_model_context_lem,
}
use para_egox.Agent.State.{CompletedTurn, SessionState, ActiveProfile, AgentState}
use para_egox.Agent.Service.{Reply, Admission, admitted, submit_admission}
use para_egox.Agent.Safety.Frames.{
  Frame, opens, answers, refuses, opened_turn, submit_admission-Frame,
}
use para_egox.Agent.Validity.{IsValid}

user_inputs-append :
    (xs ys : List ModelMessage) → user_inputs (xs ++ ys) ≡ user_inputs xs ++ user_inputs ys
unfolding user_inputs
user_inputs-append [] ys = refl
user_inputs-append (x ∷ xs) ys = ground (arith, user_inputs-append xs ys)

user_inputs-reverse : (ms : List ModelMessage) → user_inputs (reverse ms) ≡ reverse (user_inputs ms)
unfolding user_inputs
user_inputs-reverse [] = refl
user_inputs-reverse (m ∷ ms) =
    ap user_inputs (reverse-cons m ms)
    ∙ user_inputs-append (reverse ms) (m ∷ [])
    ∙ ground (
      arith,
      user_inputs-reverse ms,
      reverse-cons m.content (user_inputs ms),
      append-nil (reverse (user_inputs ms)),
    )

abbrev pub or_else : Option Text → Option Text → Option Text
or_else none o = o
or_else (some x) o = some x

abbrev pub answered_input : Text → TurnTerminal → Option Text
answered_input input (final content) = some input
answered_input input cancelled = none
answered_input input timed_out = none
answered_input input (failed reason) = none

-- The input of the newest turn that was answered.
abbrev pub latest_input : List CompletedTurn → Option Text
latest_input [] = none
latest_input (turn ∷ turns) = or_else (latest_input turns) (answered_input turn.input turn.terminal)

abbrev pub reply_to : Option Text → Text → Text
reply_to none current = text "current: " ++ current
reply_to (some previous) current =
    text "previous: " ++ (previous ++ (text "; current: " ++ current))

abbrev first : List Text → Option Text
first [] = none
first (x ∷ xs) = some x

first-append : (xs ys : List Text) → first (xs ++ ys) ≡ or_else (first xs) (first ys)
first-append [] ys = refl
first-append (x ∷ xs) ys = refl

answer_lem :
    (current : Text) (xs : List Text) → answer (current ∷ xs) ≡ some (reply_to (first xs) current)
unfolding answer
answer_lem current [] = refl
answer_lem current (x ∷ xs) = refl

first-exchange :
    (input : Text) (terminal : TurnTerminal)
    → first (reverse (user_inputs (exchange input terminal))) ≡ answered_input input terminal
unfolding user_inputs
first-exchange input (final content) = refl
first-exchange input cancelled = refl
first-exchange input timed_out = refl
first-exchange input (failed reason) = refl

first-history :
    (turns : List CompletedTurn)
    → first (reverse (user_inputs (history turns))) ≡ latest_input turns
unfolding user_inputs
first-history [] = refl
first-history (turn ∷ turns) =
    let ex = exchange turn.input turn.terminal in
    ap (λ xs. first (reverse xs)) (user_inputs-append ex (history turns))
    ∙ ap first (reverse-append (user_inputs ex) (user_inputs (history turns)))
    ∙ first-append (reverse (user_inputs (history turns))) (reverse (user_inputs ex))
    ∙ ap₂ or_else (first-history turns) (first-exchange turn.input turn.terminal)

-- The deterministic provider never panics on a context of the service, and answers with the input and
-- with that of the newest turn that was answered.
pub deterministic_final_lem :
    (prompt : Text) (s : SessionState) (input : Text)
    → deterministic_final (record { messages = context_messages prompt s input })
      ≡ some (reply_to (latest_input s.turns) input)
unfolding deterministic_final user_inputs
deterministic_final_lem prompt s input =
    ap answer (user_inputs-reverse (context_messages prompt s input))
    ∙ ap (λ xs. answer (reverse xs))
        (user_inputs-append (history s.turns) (message user input ∷ []))
    ∙ ap answer (reverse-append (user_inputs (history s.turns)) (input ∷ []))
    ∙ answer_lem input (reverse (user_inputs (history s.turns)))
    ∙ ap (λ o. some (reply_to o input)) (first-history s.turns)

context_bounded :
    (prompt : Text) (s : SessionState) (input : Text) (context : ModelContext)
    → build_model_context prompt s input ≡ ok context
    → (context ≡ record { messages = context_messages prompt s input })
      × (bytes (context_messages prompt s input) ≤ max_model_context_bytes)
context_bounded prompt s input context h = ground (arith, build_model_context_lem prompt s input)

-- What a submission that goes to the provider has found and done.
pub record Asks (state next : AgentState) (k t : ℕ) (input : Text) (context : ModelContext)
    : Type 0 where
  pub profile : ActiveProfile
  pub session : SessionState
  pub was_idle : state.active_turn ≡ none
  pub opened : next.active_turn ≡ some (opened_turn k t)
  pub prompted : next.active_profile ≡ some profile
  pub held : lookup k next.sessions ≡ some session
  pub sent : context.messages ≡ context_messages profile.system_prompt session input
  pub within : bytes context.messages ≤ max_model_context_bytes
  pub deterministic :
      deterministic_final context ≡ some (reply_to (latest_input session.turns) input)

Frame-Asks :
    (state : AgentState) (k t : ℕ) (input : Text) (context : ModelContext) (r : Reply Admission)
    → Frame state k t input r
    → r.0 ≡ ok (admitted context)
    → Asks state r.1 k t input context
Frame-Asks state k t input context r (opens c next profile s was now prompted held built) h =
    let same : c ≡ context = ground arith in
    let (e, fits) = context_bounded profile.system_prompt s input context (built ∙ ap ok same) in
    record {
      profile = profile;
      session = s;
      was_idle = was;
      opened = now;
      prompted = prompted;
      held = held;
      sent = ap (λ (x : ModelContext). x.messages) e;
      within = rw (ap (λ (x : ModelContext). x.messages) e) fits;
      deterministic =
          ap deterministic_final e ∙ deterministic_final_lem profile.system_prompt s input;
    }
Frame-Asks state k t input context r (answers result next _) h = absurd (ground arith)
Frame-Asks state k t input context r (refuses x next _) h = absurd (ground arith)

-- A submission that goes to the provider found no turn active and makes its own the active one. It
-- sends the profile's prompt, the answered exchanges of the session and the input, within the limit of
-- bytes; the deterministic provider answers by the newest answered input.
pub submit_admission-Asks :
    (state : AgentState) (k t : ℕ) (input : Text) (context : ModelContext)
    → IsValid state
    → (submit_admission state k t input).0 ≡ ok (admitted context)
    → Asks state (submit_admission state k t input).1 k t input context
submit_admission-Asks state k t input context v h =
    Frame-Asks state k t input context (submit_admission state k t input)
      (submit_admission-Frame state k t input v) h

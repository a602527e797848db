-- ===== src/Agent/Outcomes/Retained.antt =====
-- Completed turns stay in their session, in crates/paraegox-agent/src/service.rs: what each critical
-- section does to a terminal that is stored.
use para_egox.Prelude.{
  ℕ, ◌≡◌, refl, sym, ◌∙◌, ap, subst, inl, inr, ◌⊎◌, none, some, List, [], ◌∷◌, ◌++◌, arith, ◌==◌,
  ok, err, ltb, length, find, take_first, lookup, insert, lookup-insert, is_some, Bool-cases,
  Option-cases, Result-cases, nat_eq, list_eq,
}
use para_egox.Text.{Text}
use para_egox.Agent.Types.{TurnTerminal, cancelled, failed}
use para_egox.Agent.Context.{build_model_context}
use para_egox.Agent.State.{
  CompletedTurn, SessionState, ActiveProfile, AgentState, require_admission, ensure_turn_slot,
  record_completed_turn, find_completed, find_turn, max_retained_turns_per_session,
}
use para_egox.Agent.Service.{
  Reply, store_terminal, answer_with, take_pending, open_turn, admit_owned, begin_turn,
  submit_admission, cleared,
}
use para_egox.Agent.Validity.{IsValid}
use para_egox.Agent.Validity.Admission.{find_completed_lem}
use para_egox.Agent.Validity.Turns.{completed}
use para_egox.Agent.Validity.Evictions.{HowEnsured, known, added, evicted, ensure_session_lem}

find_turn-append :
    (t : ℕ) (turns more : List CompletedTurn) (c : CompletedTurn)
    → find_turn t turns ≡ some c
    → find_turn t (turns ++ more) ≡ some c
unfolding find_turn find
find_turn-append t [] more c h = absurd (ground arith)
find_turn-append t (x ∷ xs) more c h = ground (arith, find_turn-append t xs more c)

-- One completed turn of one session.
module _ (k t : ℕ) (c : CompletedTurn) where
  -- The session is gone, or it has the turn.
  abbrev pub Keeps : AgentState → Type 0
  Keeps state = (find_completed state k t ≡ some c) ⊎ (lookup k state.sessions ≡ none)

  same_lookup :
      (state next : AgentState)
      → lookup k next.sessions ≡ lookup k state.sessions
      → find_completed state k t ≡ some c
      → find_completed next k t ≡ some c
  unfolding find_completed
  same_lookup state next e h = ground (arith, e)

  pub same-Keeps :
      (state next : AgentState) → next.sessions ≡ state.sessions → Keeps state → Keeps next
  same-Keeps state next e (inl h) = inl (same_lookup state next (ap (λ m. lookup k m) e) h)
  same-Keeps state next e (inr h) = inr (ap (λ m. lookup k m) e ∙ h)

  -- A session that is there is written, with at least its turns.
  pub written-Keeps :
      (state next : AgentState) (j : ℕ) (old s : SessionState) (more : List CompletedTurn)
      → lookup j state.sessions ≡ some old
      → s.turns ≡ old.turns ++ more
      → next.sessions ≡ insert j s state.sessions
      → Keeps state
      → Keeps next
  written-Keeps state next j old s more held grown e h =
      let there = ap (λ m. lookup k m) e ∙ lookup-insert j k s state.sessions in
      elim (Bool-cases (j == k)) [
        | inr other ↦
            let same : lookup k next.sessions ≡ lookup k state.sessions = there ∙ rw other refl in
            elim h [
              | inl stays ↦ inl (same_lookup state next same stays)
              | inr gone ↦ inr (same ∙ gone)
            ]
        | inl same ↦
            let here : lookup k state.sessions ≡ some old =
              subst (λ i. lookup i state.sessions ≡ some old) (ground arith) held in
            elim h [
              | inr gone ↦ absurd (ground arith)
              | inl stays ↦ inl (
                  find_completed_lem next k t s (there ∙ rw same refl)
                  ∙ ap (λ turns. find_turn t turns) grown
                  ∙ find_turn-append t old.turns more c
                      (sym (find_completed_lem state k t old here) ∙ stays))
            ]
      ]

  pub store_terminal-Keeps :
      (state : AgentState) (j : ℕ) (old s : SessionState) (u : ℕ) (input : Text)
      (terminal : TurnTerminal)
      → lookup j state.sessions ≡ some old
      → s.turns ≡ old.turns
      → Keeps state
      → Keeps (store_terminal state j s u input terminal).1
  unfolding store_terminal record_completed_turn
  store_terminal-Keeps state j old s u input terminal held e h =
      elim (Bool-cases (ltb (length s.turns) max_retained_turns_per_session)) [
        | inr full ↦ rw (full, store_terminal) h
        | inl room ↦
            rw (room, store_terminal)
              (written-Keeps state _ j old _ _ held
                (ap (λ (turns : List CompletedTurn). turns ++ completed u input terminal ∷ []) e)
                refl h)
      ]

  answer_with-Keeps : (j u : ℕ) (r : Reply TurnTerminal) → Keeps r.1 → Keeps (answer_with j u r).1
  answer_with-Keeps j u (ok terminal, next) h = h
  answer_with-Keeps j u (err e, next) h = h

  pub cleared-Keeps : (r : Reply TurnTerminal) → Keeps r.1 → Keeps (cleared r).1
  cleared-Keeps (ok terminal, next) h = h
  cleared-Keeps (err e, next) h = h

  pub ensured-Keeps :
      (state after : AgentState) (j : ℕ)
      → HowEnsured state j after
      → find_completed state k t ≡ some c
      → Keeps after
  unfolding find_completed
  ensured-Keeps state after j (known there same) h = inl (ground (arith, same))
  ensured-Keeps state after j (added missing room order others) h =
      inl (same_lookup state after (ground (arith, others k)) h)
  ensured-Keeps state after j (evicted _ _ expired missing _ _ _ _ _ others) h =
      elim (Bool-cases (expired == k)) [
        | inl it ↦ inr (ground (arith, others k))
        | inr other ↦ inl (same_lookup state after (ground (arith, others k)) h)
      ]

  open_turn-Keeps :
      (state : AgentState) (profile : ActiveProfile) (j u : ℕ) (input : Text)
      → Keeps state
      → Keeps (open_turn state profile j u input).1
  unfolding open_turn
  open_turn-Keeps state profile j u input h = elim (Option-cases (lookup j state.sessions)) [
    | inl missing ↦ rw (missing, open_turn) h
    | inr (s, held) ↦ elim (Result-cases (build_model_context profile.system_prompt s input)) [
      | inl (context, e) ↦ rw (held, open_turn, e) (same-Keeps state _ refl h)
      | inr (reason, e) ↦
          rw (held, open_turn, e)
            (answer_with-Keeps j u _
              (store_terminal-Keeps state j s s u input (failed reason) held refl h))
    ]
  ]

  admit_owned-Keeps :
      (state : AgentState) (j u : ℕ) (input : Text)
      → Keeps state
      → Keeps (admit_owned state j u input).1
  unfolding admit_owned
  admit_owned-Keeps state j u input h = elim (Result-cases (ensure_turn_slot state j)) [
    | inr (e, full) ↦ rw (full, admit_owned) h
    | inl (_, room) ↦ elim (Option-cases state.active_profile) [
      | inl e ↦ rw (room, admit_owned, e) h
      | inr (profile, e) ↦ rw (room, admit_owned, e) (open_turn-Keeps state profile j u input h)
    ]
  ]

  begin_turn-Keeps :
      (state : AgentState) (j u : ℕ) (input : Text)
      → IsValid state
      → find_completed state k t ≡ some c
      → Keeps (begin_turn state j u input).1
  unfolding begin_turn
  begin_turn-Keeps state j u input v h = elim (Option-cases state.active_turn) [
    | inr (a, e) ↦ rw (ap is_some e, begin_turn) (inl h)
    | inl idle ↦
        let (owned, e, en, how) = ensure_session_lem state j v in
        rw (ap is_some idle, begin_turn, e)
          (admit_owned-Keeps owned j u input (ensured-Keeps state owned j how h))
  ]

  take_pending-turns :
      (state : AgentState) (j u : ℕ) (s : SessionState)
      → take_pending state j u ≡ some s
      → (old : SessionState) × (lookup j state.sessions ≡ some old) × (s.turns ≡ old.turns)
  unfolding take_pending
  take_pending-turns state j u s h = elim (Option-cases (lookup j state.sessions)) [
    | inl missing ↦ absurd (ground arith)
    | inr (old, held) ↦ elim (Option-cases (take_first (λ id. id == u) old.pending_cancellations)) [
      | inl missing ↦ absurd (ground arith)
      | inr (p, e) ↦ (old, held, ground arith)
    ]
  ]

  pub submit_admission-Keeps :
      (state : AgentState) (j u : ℕ) (input : Text)
      → IsValid state
      → find_completed state k t ≡ some c
      → Keeps (submit_admission state j u input).1
  unfolding submit_admission
  submit_admission-Keeps state j u input v h = elim (Result-cases (require_admission state)) [
    | inr (e, refused) ↦ rw (refused, submit_admission) (inl h)
    | inl (_, admits) ↦ elim (Option-cases (find_completed state j u)) [
      | inr (d, done) ↦ rw (admits, submit_admission, done) (inl h)
      | inl unfinished ↦ elim (Option-cases (take_pending state j u)) [
        | inr (s, awaited) ↦
            let (old, held, e) = take_pending-turns state j u s awaited in
            rw (admits, submit_admission, unfinished, awaited)
              (answer_with-Keeps j u _
                (store_terminal-Keeps state j old s u input cancelled held e (inl h)))
        | inl unawaited ↦
            rw (admits, submit_admission, unfinished, unawaited)
              (begin_turn-Keeps state j u input v h)
      ]
    ]
  ]

-- ===== src/Agent/Outcomes/Waiting.antt =====
-- A cancellation that waits for its turn, in crates/paraegox-agent/src/service.rs: what each critical
-- section does to it.
use para_egox.Prelude.{
  ℕ, ◌≡◌, refl, ◌∙◌, ap, subst, inl, inr, ◌⊎◌, true, false, none, some, List, [], ◌∷◌, ◌++◌, arith,
  ◌==◌, ok, err, ltb, length, elem, elem-of-count, find, count, take_first, lookup, insert,
  lookup-insert, is_some, Bool-cases, Option-cases, Result-cases, nat_eq, list_eq,
}
use para_egox.Text.{Text}
use para_egox.Agent.Types.{TurnTerminal, cancelled, failed}
use para_egox.Agent.Context.{build_model_context}
use para_egox.Agent.State.{
  CompletedTurn, SessionState, ActiveProfile, AgentState, require_admission, ensure_turn_slot,
  record_completed_turn, find_completed, find_turn, max_retained_turns_per_session,
}
use para_egox.Agent.Service.{
  Reply, store_terminal, answer_with, take_pending, open_turn, admit_owned, begin_turn,
  submit_admission, cleared,
}
use para_egox.Agent.Validity.{IsValid, SessionIsValid}
use para_egox.Agent.Validity.Turns.{completed, stored}
use para_egox.Agent.Validity.Evictions.{HowEnsured, known, added, evicted, ensure_session_lem}

find_turn-other :
    (t u : ℕ) (turns : List CompletedTurn) (input : Text) (terminal : TurnTerminal)
    → (u == t) ≡ false
    → find_turn t turns ≡ none
    → find_turn t (turns ++ completed u input terminal ∷ []) ≡ none
unfolding find_turn find
find_turn-other t u [] input terminal other h = ground arith
find_turn-other t u (x ∷ xs) input terminal other h =
    ground (arith, find_turn-other t u xs input terminal other)

take_first-keeps :
    (t u : ℕ) (ids : List ℕ) (found : ℕ) (rest : List ℕ)
    → take_first (λ id. id == u) ids ≡ some (found, rest)
    → (u == t) ≡ false
    → elem t ids ≡ true
    → elem t rest ≡ true
unfolding take_first elem
take_first-keeps t u [] found rest h other there = absurd (ground arith)
take_first-keeps t u (x ∷ xs) found rest h other there =
    elim (Option-cases (take_first (λ id. id == u) xs)) [
      | inl missed ↦ ground arith
      | inr (p, e) ↦ ground (arith, take_first-keeps t u xs p.0 p.1 e other)
    ]

pub once_waiting :
    (t u : ℕ) (s : SessionState)
    → SessionIsValid (u ∷ []) s
    → elem t s.pending_cancellations ≡ true
    → (u == t) ≡ false
unfolding count
once_waiting t u s v there = ground (arith, v.once t, elem-of-count t s.pending_cancellations there)

module _ (k t : ℕ) where
  -- The session waits for the turn with a cancellation.
  abbrev pub Waits : SessionState → Type 0
  Waits s = (elem t s.pending_cancellations ≡ true) × (find_turn t s.turns ≡ none)

  -- The session of the key waits for the turn, or is gone.
  abbrev pub StillWaits : AgentState → Type 0
  StillWaits state =
      ((s : SessionState) × (lookup k state.sessions ≡ some s) × Waits s)
      ⊎ (lookup k state.sessions ≡ none)

  pub same-StillWaits :
      (state next : AgentState)
      → lookup k next.sessions ≡ lookup k state.sessions
      → StillWaits state
      → StillWaits next
  same-StillWaits state next e (inl (s, held, w)) = inl (s, e ∙ held, w)
  same-StillWaits state next e (inr gone) = inr (e ∙ gone)

  pub written-StillWaits :
      (state next : AgentState) (j : ℕ) (old s : SessionState)
      → lookup j state.sessions ≡ some old
      → next.sessions ≡ insert j s state.sessions
      → ((j == k) ≡ true → Waits old → Waits s)
      → StillWaits state
      → StillWaits next
  written-StillWaits state next j old s held e keeps h =
      let there = ap (λ m. lookup k m) e ∙ lookup-insert j k s state.sessions in
      elim (Bool-cases (j == k)) [
        | inr other ↦ same-StillWaits state next (there ∙ rw other refl) h
        | inl same ↦
            let here : lookup k state.sessions ≡ some old =
              subst (λ i. lookup i state.sessions ≡ some old) (ground arith) held in
            elim h [
              | inr gone ↦ absurd (ground arith)
              | inl (s', held', w) ↦
                  inl (s, there ∙ rw same refl, keeps same (subst Waits (ground arith) w))
            ]
      ]

  -- The turn (j, u) is another one.
  abbrev pub IsOther : ℕ → ℕ → Type 0
  IsOther j u = (j == k) ≡ true → (u == t) ≡ false

  pub store_terminal-StillWaits :
      (state : AgentState) (j : ℕ) (old s : SessionState) (u : ℕ) (input : Text)
      (terminal : TurnTerminal)
      → lookup j state.sessions ≡ some old
      → ((j == k) ≡ true → Waits old → Waits s)
      → IsOther j u
      → StillWaits state
      → StillWaits (store_terminal state j s u input terminal).1
  unfolding store_terminal record_completed_turn
  store_terminal-StillWaits state j old s u input terminal held keeps other h =
      elim (Bool-cases (ltb (length s.turns) max_retained_turns_per_session)) [
        | inr full ↦ rw (full, store_terminal) h
        | inl room ↦
            rw (room, store_terminal)
              (written-StillWaits state
                (record state { sessions = insert j (stored s u input terminal) state.sessions }) j
                old (stored s u input terminal) held refl
                (λ same w.
                  let (there, unfinished) = keeps same w in
                  (there, find_turn-other t u s.turns input terminal (other same) unfinished))
                h)
      ]

  pub ensured-StillWaits :
      (state after : AgentState) (j : ℕ) (s : SessionState)
      → HowEnsured state j after
      → lookup k state.sessions ≡ some s
      → Waits s
      → StillWaits after
  ensured-StillWaits state after j s (known there same) held w =
      inl (s, ap (λ (a : AgentState). lookup k a.sessions) same ∙ held, w)
  ensured-StillWaits state after j s (added missing room order others) held w =
      inl (s, ground (arith, others k), w)
  ensured-StillWaits state after j s (evicted _ _ expired missing _ _ _ _ _ others) held w =
      elim (Bool-cases (expired == k)) [
        | inl it ↦ inr (ground (arith, others k))
        | inr other ↦ inl (s, ground (arith, others k), w)
      ]

  answer_with-StillWaits :
      (j u : ℕ) (r : Reply TurnTerminal) → StillWaits r.1 → StillWaits (answer_with j u r).1
  answer_with-StillWaits j u (ok terminal, next) h = h
  answer_with-StillWaits j u (err e, next) h = h

  pub cleared-StillWaits : (r : Reply TurnTerminal) → StillWaits r.1 → StillWaits (cleared r).1
  cleared-StillWaits (ok terminal, next) h = h
  cleared-StillWaits (err e, next) h = h

  open_turn-StillWaits :
      (state : AgentState) (profile : ActiveProfile) (j u : ℕ) (input : Text)
      → IsOther j u
      → StillWaits state
      → StillWaits (open_turn state profile j u input).1
  unfolding open_turn
  open_turn-StillWaits state profile j u input other h =
      elim (Option-cases (lookup j state.sessions)) [
        | inl missing ↦ rw (missing, open_turn) h
        | inr (s, held) ↦ elim (Result-cases (build_model_context profile.system_prompt s input)) [
          | inl (context, e) ↦ rw (held, open_turn, e) h
          | inr (reason, e) ↦
              rw (held, open_turn, e)
                (answer_with-StillWaits j u _ (
                  store_terminal-StillWaits state j s s u input (failed reason) held (λ _ w. w)
                    other h))
        ]
      ]

  begin_turn-StillWaits :
      (state : AgentState) (j u : ℕ) (input : Text) (s : SessionState)
      → IsValid state
      → IsOther j u
      → lookup k state.sessions ≡ some s
      → Waits s
      → StillWaits (begin_turn state j u input).1
  unfolding begin_turn admit_owned
  begin_turn-StillWaits state j u input s v other held w = elim (Option-cases state.active_turn) [
    | inr (a, e) ↦ rw (ap is_some e, begin_turn) (inl (s, held, w))
    | inl idle ↦
        let (owned, e, en, how) = ensure_session_lem state j v in
        let still = ensured-StillWaits state owned j s how held w in
        rw (ap is_some idle, begin_turn, e)
          (elim (Result-cases (ensure_turn_slot owned j)) [
            | inr (f, full) ↦ rw (full, admit_owned) still
            | inl (_, room) ↦ elim (Option-cases owned.active_profile) [
              | inl f ↦ rw (room, admit_owned, f) still
              | inr (profile, f) ↦
                  rw (room, admit_owned, f)
                    (open_turn-StillWaits owned profile j u input other still)
            ]
          ])
  ]

  -- Another turn's cancellation is taken: the session waits as before.
  take_pending-Waits :
      (state : AgentState) (j u : ℕ) (s : SessionState)
      → take_pending state j u ≡ some s
      → IsOther j u
      → (old : SessionState) × (lookup j state.sessions ≡ some old)
        × ((j == k) ≡ true → Waits old → Waits s)
  unfolding take_pending
  take_pending-Waits state j u s h other = elim (Option-cases (lookup j state.sessions)) [
    | inl missing ↦ absurd (ground arith)
    | inr (old, held) ↦ elim (Option-cases (take_first (λ id. id == u) old.pending_cancellations)) [
      | inl missing ↦ absurd (ground arith)
      | inr ((found, rest), e) ↦
          let same : record old { pending_cancellations = rest } ≡ s = ground arith in
          (
            old,
            held,
            λ here w.
                subst Waits same (
                  take_first-keeps t u old.pending_cancellations found rest e (other here) w.0,
                  w.1,
                ),
          )
    ]
  ]

  pub submit_admission-StillWaits :
      (state : AgentState) (j u : ℕ) (input : Text) (s : SessionState)
      → IsValid state
      → IsOther j u
      → lookup k state.sessions ≡ some s
      → Waits s
      → StillWaits (submit_admission state j u input).1
  unfolding submit_admission
  submit_admission-StillWaits state j u input s v other held w =
      elim (Result-cases (require_admission state)) [
        | inr (e, refused) ↦ rw (refused, submit_admission) (inl (s, held, w))
        | inl (_, admits) ↦ elim (Option-cases (find_completed state j u)) [
          | inr (d, done) ↦ rw (admits, submit_admission, done) (inl (s, held, w))
          | inl unfinished ↦ elim (Option-cases (take_pending state j u)) [
            | inr (taken, awaited) ↦
                let (old, there, keeps) = take_pending-Waits state j u taken awaited other in
                rw (admits, submit_admission, unfinished, awaited)
                  (answer_with-StillWaits j u _ (
                    store_terminal-StillWaits state j old taken u input cancelled there keeps other
                      (inl (s, held, w))))
            | inl unawaited ↦
                rw (admits, submit_admission, unfinished, unawaited)
                  (begin_turn-StillWaits state j u input s v other held w)
          ]
        ]
      ]

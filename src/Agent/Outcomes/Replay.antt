-- ===== src/Agent/Outcomes/Replay.antt =====
-- A turn that ended, submitted again: crates/paraegox-agent/src/service.rs answers from the session.
use para_egox.Prelude.{
  ℕ, ◌≡◌, ◌≢◌, refl, ◌∙◌, ap, true, Option, none, some, List, [], ◌∷◌, ◌++◌, arith, ==_refl, ok,
  err, insert, lookup-insert, count, find, nat_eq, list_eq, list_beq_iff,
}
use para_egox.Text.{Text}
use para_egox.Agent.Types.{TurnTerminal, different_input}
use para_egox.Agent.State.{
  CompletedTurn, SessionState, ActiveTurn, AgentState, rejected, require_admission, find_completed,
  find_turn,
}
use para_egox.Agent.Service.{
  Reply, answered, turn_result, replay, submit_admission, owns, settle, complete_turn,
}
use para_egox.Agent.Validity.{turn_ids, IsValid}
use para_egox.Agent.Validity.Turns.{completed, stored}
use para_egox.Agent.Safety.Frames.{complete_turn_lem}

pub find_turn-append_one :
    (t : ℕ) (turns : List CompletedTurn) (input : Text) (terminal : TurnTerminal)
    → count t (turn_ids turns) ≡ 0
    → find_turn t (turns ++ completed t input terminal ∷ []) ≡ some (completed t input terminal)
unfolding find_turn find count
find_turn-append_one t [] input terminal h = rw (==_refl t)
find_turn-append_one t (x ∷ xs) input terminal h =
    ground (arith, find_turn-append_one t xs input terminal)

pub submit_admission-replay :
    (state : AgentState) (k t : ℕ) (input : Text) (c : CompletedTurn)
    → require_admission state ≡ ok tt
    → find_completed state k t ≡ some c
    → submit_admission state k t input ≡ (replay c k t input, state)
unfolding submit_admission
submit_admission-replay state k t input c admits done = ground arith

find_completed-insert :
    (state : AgentState) (k t : ℕ) (s : SessionState) (active : Option ActiveTurn)
    → find_completed
        (record state { active_turn = active; sessions = insert k s state.sessions })
        k
        t
      ≡ find_turn t s.turns
unfolding find_completed
find_completed-insert state k t s active =
    ground (arith, lookup-insert k k s state.sessions, ==_refl k)

-- The terminal of a completion is the one that the session holds afterwards.
pub complete_turn-stored :
    (state : AgentState) (a : ActiveTurn) (k t : ℕ) (input : Text) (proposed : TurnTerminal)
    → IsValid state
    → state.active_turn ≡ some a
    → owns a k t ≡ true
    → find_completed (complete_turn state k t input proposed).1 k t
      ≡ some (completed t input (settle state a proposed))
unfolding count
complete_turn-stored state a k t input proposed v e own =
    let (s, held, fits, q) = complete_turn_lem state a k t input proposed v e own in
    let terminal = settle state a proposed in
    ap (λ (x : Reply TurnTerminal). find_completed x.1 k t) q
    ∙ find_completed-insert state k t (stored s t input terminal) none
    ∙ find_turn-append_one t s.turns input terminal (ground (arith, fits.once t, ==_refl t))

pub complete_turn-result :
    (state : AgentState) (a : ActiveTurn) (k t : ℕ) (input : Text) (proposed : TurnTerminal)
    → IsValid state
    → state.active_turn ≡ some a
    → owns a k t ≡ true
    → (complete_turn state k t input proposed).0 ≡ ok (settle state a proposed)
complete_turn-result state a k t input proposed v e own =
    let (s, held, fits, q) = complete_turn_lem state a k t input proposed v e own in
    ap (λ (x : Reply TurnTerminal). x.0) q

pub replay_same :
    (c : CompletedTurn) (k t : ℕ)
    → replay c k t c.input ≡ ok (answered (turn_result k t c.terminal))
unfolding replay
replay_same c k t = rw ((list_beq_iff c.input c.input).1 refl)

pub replay_other :
    (c : CompletedTurn) (k t : ℕ) (other : Text)
    → other ≢ c.input
    → replay c k t other ≡ err (rejected different_input)
unfolding replay
replay_other c k t other differ = ground (arith, list_beq_iff c.input other)

-- ===== src/Command/Runs.antt =====
-- Which commands to run a Node crates/paraegox/src/main.rs takes from its arguments.
use para_egox.Prelude.{
  ℕ, ◌≤◌, ◌≡◌, ◌≢◌, refl, Bool, true, false, ◌&&◌, not, Option, none, some, is_some, List, [], ◌∷◌,
  arith, leb, ◌=?◌, =?-refl, nat_eq, list_eq, Result, ok, err, Result-cases, Option-cases,
  Bool-cases, subst, inl, inr, ◌>>=◌, ◌>>◌, reject_if,
}
use para_egox.Text.{Text}
use para_egox.Kernel.{parse_node_id}
use para_egox.Command.{
  DeckSelection, AgentProvider, deterministic, Command, help, version, run, probe, tui,
  CommandError, duplicate_option, node_id_required, provider_without_deck, same_node, parse_u64,
  parse_timeout_ms, parse_id, OptionName, node_id_name, listen_name, connect_name, probe_peer_name,
  timeout_name, deck_name, provider_name, target_name, run_option, RunOptions, parse_deck,
  parse_provider, set_run_option, run_options, finish_run, default_probe_timeout_ms, paired,
  is_node, required,
}

abbrev pub IsId : Text → Type 0
IsId id = parse_node_id id ≡ ok id

abbrev pub InRange : ℕ → Type 0
InRange timeout_ms = (100 ≤ timeout_ms) × (timeout_ms ≤ 60000)

-- A peer to probe comes with an endpoint to connect to, and is another Node; alone, the timeout is the
-- default.
abbrev pub IsPaired : Text → Option Text → Option Text → ℕ → Type 0
IsPaired id none none timeout_ms = timeout_ms ≡ default_probe_timeout_ms
IsPaired id (some connect) none timeout_ms = ⊥
IsPaired id none (some peer) timeout_ms = ⊥
IsPaired id (some connect) (some peer) timeout_ms = IsId peer × (peer ≢ id)

-- Without a Deck there is the default provider.
abbrev pub IsProvided : Option DeckSelection → AgentProvider → Type 0
IsProvided none provider = provider ≡ deterministic
IsProvided (some deck) provider = Unit {0}

abbrev pub IsWellFormed : Command → Type 0
IsWellFormed help = Unit {0}
IsWellFormed version = Unit {0}
IsWellFormed (run c) =
    IsId c.node_id
    × IsPaired c.node_id c.connect_endpoint c.peer c.timeout_ms
    × InRange c.timeout_ms
    × IsProvided c.deck c.provider
IsWellFormed (probe target connect_endpoint timeout_ms) = IsId target × InRange timeout_ms
IsWellFormed (tui target connect_endpoint timeout_ms stdio_jsonl) = IsId target × InRange timeout_ms

abbrev pub IsParsed : {A : Type 0} → (A → Type 0) → Result CommandError A → Type 0
IsParsed P (ok a) = P a
IsParsed P (err e) = Unit {0}

pub then-IsParsed :
    {A B : Type 0} (P : A → Type 0) (Q : B → Type 0) (m : Result CommandError A)
    (k : A → Result CommandError B)
    → IsParsed P m
    → ((a : A) → P a → IsParsed Q (k a))
    → IsParsed Q (m >>= k)
then-IsParsed P Q (ok a) k h next = next a h
then-IsParsed P Q (err e) k h next = tt

-- An option that has not been set is set to the value that is parsed.
pub set-IsParsed :
    {A O : Type 0} (P : A → Type 0) (Q : O → Type 0) (was_set : Bool) (name : Text)
    (m : Result CommandError A) (f : A → O)
    → IsParsed P m
    → ((a : A) → P a → Q (f a))
    → IsParsed Q (reject_if was_set (duplicate_option name) >> (m >>= λ a. ok (f a)))
set-IsParsed P Q true name m f h next = tt
set-IsParsed P Q false name (ok a) f h next = next a h
set-IsParsed P Q false name (err e) f h next = tt

pub set_kept-IsParsed :
    {O : Type 0} (Q : O → Type 0) (was_set : Bool) (name : Text) (o : O)
    → Q o
    → IsParsed Q (reject_if was_set (duplicate_option name) >> ok o)
set_kept-IsParsed Q true name o h = tt
set_kept-IsParsed Q false name o h = h

unchanged-IsId : (value id : Text) → parse_node_id value ≡ ok id → IsId id
unfolding parse_node_id
unchanged-IsId value id e =
    let same : value ≡ id = ground arith in subst (λ t. parse_node_id t ≡ ok id) same e

pub parse_id-IsParsed : (value : Text) → IsParsed IsId (parse_id value)
unfolding parse_id
parse_id-IsParsed value = elim (Result-cases (parse_node_id value)) [
  | inl (id, e) ↦ rw (e, parse_id) (unchanged-IsId value id e)
  | inr (error, e) ↦ rw (e, parse_id) tt
]

pub parse_timeout_ms-IsParsed : (value : Text) → IsParsed InRange (parse_timeout_ms value)
unfolding parse_timeout_ms
parse_timeout_ms-IsParsed value = elim (Option-cases (parse_u64 value)) [
  | inl e ↦ rw (e, parse_timeout_ms) tt
  | inr (ms, e) ↦ elim (Bool-cases (leb 100 ms && leb ms 60000)) [
    | inl inside ↦ rw (e, parse_timeout_ms, inside) (ground arith)
    | inr outside ↦ rw (e, parse_timeout_ms, outside) tt
  ]
]

abbrev pub IsIdOr : Option Text → Type 0
IsIdOr none = Unit {0}
IsIdOr (some id) = IsId id

-- A variable that was not set has its default.
abbrev Unless : {A : Type 0} → Bool → A → A → Type 0
Unless true default a = Unit {0}
Unless false default a = a ≡ default

abbrev pub IsFine : RunOptions → Type 0
IsFine o =
    IsIdOr o.node_id
    × IsIdOr o.peer
    × InRange o.timeout_ms
    × Unless o.timeout_was_set default_probe_timeout_ms o.timeout_ms
    × Unless o.provider_was_set deterministic o.provider

anything : {A : Type 0} (m : Result CommandError A) → IsParsed (λ _. Unit {0}) m
anything (ok a) = tt
anything (err e) = tt

set_run_option-IsFine :
    (option : Option OptionName) (name value : Text) (o : RunOptions)
    → IsFine o
    → IsParsed IsFine (set_run_option option name value o)
unfolding set_run_option
set_run_option-IsFine (some node_id_name) name value o (i, p, r, t, q) =
    set-IsParsed IsId IsFine (is_some o.node_id) name (parse_id value)
      (λ id. record o { node_id = some id }) (parse_id-IsParsed value) (λ id h. (h, p, r, t, q))
set_run_option-IsFine (some listen_name) name value o h =
    set_kept-IsParsed IsFine o.listen_was_set name
      (record o { listen_endpoint = value; listen_was_set = true }) h
set_run_option-IsFine (some connect_name) name value o h =
    set_kept-IsParsed IsFine (is_some o.connect_endpoint) name
      (record o { connect_endpoint = some value }) h
set_run_option-IsFine (some probe_peer_name) name value o (i, p, r, t, q) =
    set-IsParsed IsId IsFine (is_some o.peer) name (parse_id value)
      (λ id. record o { peer = some id }) (parse_id-IsParsed value) (λ id h. (i, h, r, t, q))
set_run_option-IsFine (some timeout_name) name value o (i, p, r, t, q) =
    set-IsParsed InRange IsFine o.timeout_was_set name (parse_timeout_ms value)
      (λ ms. record o { timeout_ms = ms; timeout_was_set = true }) (parse_timeout_ms-IsParsed value)
      (λ ms h. (i, p, h, tt, q))
set_run_option-IsFine (some deck_name) name value o (i, p, r, t, q) =
    set-IsParsed (λ _. Unit {0}) IsFine (is_some o.deck) name (parse_deck value)
      (λ selected. record o { deck = some selected }) (anything (parse_deck value))
      (λ selected h. (i, p, r, t, q))
set_run_option-IsFine (some provider_name) name value o (i, p, r, t, q) =
    set-IsParsed (λ _. Unit {0}) IsFine o.provider_was_set name (parse_provider value)
      (λ selected. record o { provider = selected; provider_was_set = true })
      (anything (parse_provider value)) (λ selected h. (i, p, r, t, tt))
set_run_option-IsFine (some target_name) name value o h = tt
set_run_option-IsFine none name value o h = tt

pub run_options-IsFine :
    (arguments : List Text) (o : RunOptions) → IsFine o → IsParsed IsFine (run_options arguments o)
unfolding run_options
run_options-IsFine [] o h = h
run_options-IsFine (name ∷ []) o h = tt
run_options-IsFine (name ∷ value ∷ rest) o h =
    then-IsParsed IsFine IsFine (set_run_option (run_option name) name value o) (run_options rest)
      (set_run_option-IsFine (run_option name) name value o h)
      (λ p fine. run_options-IsFine rest p fine)

pub required-IsParsed :
    (id : Option Text) (e : CommandError) → IsIdOr id → IsParsed IsId (required id e)
required-IsParsed none e h = tt
required-IsParsed (some id) e h = h

IsProvided-IsParsed :
    (was_set : Bool) (deck : Option DeckSelection) (provider : AgentProvider) (e : CommandError)
    → Unless was_set deterministic provider
    → IsParsed (λ _. IsProvided deck provider) (reject_if (was_set && not (is_some deck)) e)
IsProvided-IsParsed true none provider e h = tt
IsProvided-IsParsed false none provider e h = h
IsProvided-IsParsed true (some deck) provider e h = tt
IsProvided-IsParsed false (some deck) provider e h = tt

abbrev IsTogether : Option Text → Option Text → ℕ → Type 0
IsTogether none none timeout_ms = timeout_ms ≡ default_probe_timeout_ms
IsTogether (some connect) (some peer) timeout_ms = Unit {0}
IsTogether (some connect) none timeout_ms = ⊥
IsTogether none (some peer) timeout_ms = ⊥

paired-IsParsed :
    (connect peer : Option Text) (was_set : Bool) (timeout_ms : ℕ)
    → Unless was_set default_probe_timeout_ms timeout_ms
    → IsParsed (λ _. IsTogether connect peer timeout_ms) (paired connect peer was_set)
paired-IsParsed none none true timeout_ms h = tt
paired-IsParsed none none false timeout_ms h = h
paired-IsParsed (some connect) (some peer) was_set timeout_ms h = tt
paired-IsParsed (some connect) none was_set timeout_ms h = tt
paired-IsParsed none (some peer) was_set timeout_ms h = tt

accepted-IsParsed : (b : Bool) (e : CommandError) → IsParsed (λ _. b ≡ false) (reject_if b e)
accepted-IsParsed true e = tt
accepted-IsParsed false e = refl

pairs_up :
    (id : Text) (connect peer : Option Text) (timeout_ms : ℕ)
    → IsIdOr peer
    → IsTogether connect peer timeout_ms
    → is_node peer id ≡ false
    → IsPaired id connect peer timeout_ms
pairs_up id none none timeout_ms i h other = h
pairs_up id (some connect) none timeout_ms i h other = h
pairs_up id none (some peer) timeout_ms i h other = h
pairs_up id (some connect) (some peer) timeout_ms i h other =
    (i, λ same. absurd (ground (arith, other, subst (λ t. (peer =? t) ≡ true) same (=?-refl peer))))

pub finish_run-IsParsed : (o : RunOptions) → IsFine o → IsParsed IsWellFormed (finish_run o)
unfolding finish_run
finish_run-IsParsed o (i, p, r, t, q) =
    then-IsParsed IsId IsWellFormed (required o.node_id node_id_required) _
      (required-IsParsed o.node_id node_id_required i)
      (λ id is_id.
        then-IsParsed (λ _. IsProvided o.deck o.provider) IsWellFormed
          (reject_if (o.provider_was_set && not (is_some o.deck)) provider_without_deck) _
          (IsProvided-IsParsed o.provider_was_set o.deck o.provider provider_without_deck q)
          (λ _ provided.
            then-IsParsed (λ _. IsTogether o.connect_endpoint o.peer o.timeout_ms) IsWellFormed
              (paired o.connect_endpoint o.peer o.timeout_was_set) _
              (paired-IsParsed o.connect_endpoint o.peer o.timeout_was_set o.timeout_ms t)
              (λ _ together.
                then-IsParsed (λ _. is_node o.peer id ≡ false) IsWellFormed
                  (reject_if (is_node o.peer id) same_node) _
                  (accepted-IsParsed (is_node o.peer id) same_node)
                  (λ _ other. (
                    is_id,
                    pairs_up id o.connect_endpoint o.peer o.timeout_ms p together other,
                    r,
                    provided,
                  )))))

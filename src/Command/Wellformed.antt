-- ===== src/Command/Wellformed.antt =====
-- Which commands crates/paraegox/src/main.rs takes from a command line.
use para_egox.Prelude.{
  ◌≡◌, refl, Bool, true, false, ◌&&◌, ◌||◌, Option, none, some, is_some, List, [], ◌∷◌, arith, ◌=?◌,
  nat_eq, list_eq, if◌then◌else◌, Result, ok, Bool-cases, subst, inl, inr,
}
use para_egox.Text.{Text, text}
use para_egox.Command.{
  Command, CommandError, target_required, parse_timeout_ms, parse_id, OptionName, node_id_name,
  listen_name, connect_name, probe_peer_name, timeout_name, deck_name, provider_name, target_name,
  client_option, run_defaults, run_options, finish_run, parse_run, ClientOptions, client_defaults,
  set_client_option, probe_options, parse_probe, set_stdio, tui_options, parse_tui, parse_command,
  default_probe_timeout_ms, default_tui_timeout_ms, required,
}
use para_egox.Command.Runs.{
  IsId, InRange, IsWellFormed, IsParsed, then-IsParsed, set-IsParsed, set_kept-IsParsed,
  parse_id-IsParsed, parse_timeout_ms-IsParsed, IsIdOr, IsFine, run_options-IsFine,
  required-IsParsed, finish_run-IsParsed,
}

abbrev IsClientFine : ClientOptions → Type 0
IsClientFine o = IsIdOr o.target × InRange o.timeout_ms

set_client_option-IsClientFine :
    (option : Option OptionName) (name value : Text) (o : ClientOptions)
    → IsClientFine o
    → IsParsed IsClientFine (set_client_option option name value o)
unfolding set_client_option
set_client_option-IsClientFine (some target_name) name value o (i, r) =
    set-IsParsed IsId IsClientFine (is_some o.target) name (parse_id value)
      (λ id. record o { target = some id }) (parse_id-IsParsed value) (λ id h. (h, r))
set_client_option-IsClientFine (some connect_name) name value o h =
    set_kept-IsParsed IsClientFine o.connect_was_set name
      (record o { connect_endpoint = value; connect_was_set = true }) h
set_client_option-IsClientFine (some timeout_name) name value o (i, r) =
    set-IsParsed InRange IsClientFine o.timeout_was_set name (parse_timeout_ms value)
      (λ ms. record o { timeout_ms = ms; timeout_was_set = true }) (parse_timeout_ms-IsParsed value)
      (λ ms h. (i, h))
set_client_option-IsClientFine (some node_id_name) name value o h = tt
set_client_option-IsClientFine (some listen_name) name value o h = tt
set_client_option-IsClientFine (some probe_peer_name) name value o h = tt
set_client_option-IsClientFine (some deck_name) name value o h = tt
set_client_option-IsClientFine (some provider_name) name value o h = tt
set_client_option-IsClientFine none name value o h = tt

probe_options-IsClientFine :
    (arguments : List Text) (o : ClientOptions)
    → IsClientFine o
    → IsParsed IsClientFine (probe_options arguments o)
unfolding probe_options
probe_options-IsClientFine [] o h = h
probe_options-IsClientFine (name ∷ []) o h = tt
probe_options-IsClientFine (name ∷ value ∷ rest) o h =
    then-IsParsed IsClientFine IsClientFine (set_client_option (client_option name) name value o)
      (probe_options rest) (set_client_option-IsClientFine (client_option name) name value o h)
      (λ p fine. probe_options-IsClientFine rest p fine)

set_stdio-IsClientFine : (o : ClientOptions) → IsClientFine o → IsParsed IsClientFine (set_stdio o)
set_stdio-IsClientFine o h =
    set_kept-IsParsed IsClientFine o.stdio_jsonl (text "--stdio-jsonl")
      (record o { stdio_jsonl = true }) h

tui_options-IsClientFine :
    (arguments : List Text) (o : ClientOptions)
    → IsClientFine o
    → IsParsed IsClientFine (tui_options arguments o)
unfolding tui_options
tui_options-IsClientFine [] o h = h
tui_options-IsClientFine (name ∷ []) o h = elim (Bool-cases (name =? text "--stdio-jsonl")) [
  | inl flag ↦ rw (flag, tui_options) (set_stdio-IsClientFine o h)
  | inr other ↦ rw (other, tui_options) tt
]
tui_options-IsClientFine (name ∷ value ∷ rest) o h =
    elim (Bool-cases (name =? text "--stdio-jsonl")) [
      | inl flag ↦
          rw (flag, tui_options)
            (then-IsParsed IsClientFine IsClientFine (set_stdio o) (tui_options (value ∷ rest))
              (set_stdio-IsClientFine o h)
              (λ p fine. tui_options-IsClientFine (value ∷ rest) p fine))
      | inr other ↦
          rw (other, tui_options)
            (then-IsParsed IsClientFine IsClientFine
              (set_client_option (client_option name) name value o) (tui_options rest)
              (set_client_option-IsClientFine (client_option name) name value o h)
              (λ p fine. tui_options-IsClientFine rest p fine))
    ]

parse_run-IsParsed : (arguments : List Text) → IsParsed IsWellFormed (parse_run arguments)
unfolding parse_run
parse_run-IsParsed arguments =
    then-IsParsed IsFine IsWellFormed (run_options arguments run_defaults) finish_run
      (run_options-IsFine arguments run_defaults (tt, tt, (omega arith, omega arith), refl, refl))
      finish_run-IsParsed

parse_probe-IsParsed : (arguments : List Text) → IsParsed IsWellFormed (parse_probe arguments)
unfolding parse_probe
parse_probe-IsParsed arguments =
    then-IsParsed IsClientFine IsWellFormed
      (probe_options arguments (client_defaults default_probe_timeout_ms)) _
      (probe_options-IsClientFine arguments _ (tt, (omega arith, omega arith)))
      (λ o fine.
        then-IsParsed IsId IsWellFormed (required o.target target_required) _
          (required-IsParsed o.target target_required fine.0) (λ target is_id. (is_id, fine.1)))

parse_tui-IsParsed : (arguments : List Text) → IsParsed IsWellFormed (parse_tui arguments)
unfolding parse_tui
parse_tui-IsParsed arguments =
    then-IsParsed IsClientFine IsWellFormed
      (tui_options arguments (client_defaults default_tui_timeout_ms)) _
      (tui_options-IsClientFine arguments _ (tt, (omega arith, omega arith)))
      (λ o fine.
        then-IsParsed IsId IsWellFormed (required o.target target_required) _
          (required-IsParsed o.target target_required fine.0) (λ target is_id. (is_id, fine.1)))

-- A choice between two results.
if_IsParsed :
    (b : Bool) (m n : Result CommandError Command)
    → IsParsed IsWellFormed m
    → IsParsed IsWellFormed n
    → IsParsed IsWellFormed (if b then m else n)
if_IsParsed true m n h k = h
if_IsParsed false m n h k = k

parse_command-IsParsed : (arguments : List Text) → IsParsed IsWellFormed (parse_command arguments)
unfolding parse_command
parse_command-IsParsed [] = tt
parse_command-IsParsed (flag ∷ []) =
    if_IsParsed ((flag =? text "--help") || (flag =? text "-h")) _ _ tt (
      if_IsParsed ((flag =? text "--version") || (flag =? text "-V")) _ _ tt
        (if_IsParsed (flag =? text "tui") _ _ (parse_tui-IsParsed []) tt))
parse_command-IsParsed (scope ∷ operation ∷ rest) =
    if_IsParsed ((scope =? text "node") && (operation =? text "run")) _ _ (parse_run-IsParsed rest)
      (if_IsParsed ((scope =? text "node") && (operation =? text "probe")) _ _
        (parse_probe-IsParsed rest)
        (if_IsParsed (scope =? text "tui") _ _ (parse_tui-IsParsed (operation ∷ rest)) tt))

-- A command that is taken from a command line has identities of Nodes and a timeout between 100 and
-- 60,000 milliseconds. One that runs a Node has a peer to probe exactly when it has an endpoint to
-- connect to, the peer is another Node, the timeout of a Node without one is the default, and a Node
-- without a Deck has the default provider.
pub parse_command-IsWellFormed :
    (arguments : List Text) (command : Command)
    → parse_command arguments ≡ ok command
    → IsWellFormed command
parse_command-IsWellFormed arguments command e =
    subst (IsParsed IsWellFormed) e (parse_command-IsParsed arguments)

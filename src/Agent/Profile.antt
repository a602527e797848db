-- ===== src/Agent/Profile.antt =====
-- crates/paraegox-agent/src/service.rs: the Card's profile, and the end of the service. A section
-- that the source follows by `wait_until_idle` says so by the Boolean that it returns.
use para_egox.Prelude.{
  ℕ, Bool, true, false, not, Option, none, some, ◌||◌, ◌==◌, ◌=?◌, if◌then◌else◌, ok, err, is_some,
  nat_eq, list_eq,
}
use para_egox.Text.{Text, text}
use para_egox.Agent.Types.{
  not_running, profile_already_active, other_card_active, definition_mismatch, context_mismatch,
  builtin_agent_definition, deepseek_v4_flash_agent_definition,
}
use para_egox.Agent.Provider.{CompletionProvider, card_definition}
use para_egox.Agent.State.{
  ServiceLifecycle, created, running, stopping, stopped, AgentState, rejected, is_running,
  cancel_active_turn,
}
use para_egox.Agent.Service.{Reply}
use para_egox.Runtime.Deck.{CardContext}

-- `AgentHandle::activate_profile`.
unfoldable pub activate_profile :
    CompletionProvider → AgentState → ℕ → Text → Text → Reply (Unit {0})
activate_profile provider state card_instance_id definition system_prompt =
    if not (card_definition provider =? definition)
    then (err (rejected definition_mismatch), state)
    else if not (is_running state.lifecycle)
    then (err (rejected not_running), state)
    else if is_some state.active_profile
    then (err (rejected profile_already_active), state)
    else (
      ok tt,
      record state {
        active_profile =
            some (record { card_instance_id = card_instance_id; system_prompt = system_prompt });
      },
    )

-- The critical section of `AgentHandle::deactivate_profile`.
unfoldable pub deactivate_profile : AgentState → ℕ → Reply Bool
deactivate_profile state card_instance_id = elim state.active_profile [
  | none ↦ (ok false, state)
  | some active ↦
      if active.card_instance_id == card_instance_id
      then (ok true, cancel_active_turn (record state { active_profile = none }))
      else (err (rejected other_card_active), state)
]

abbrev close_profile : AgentState → AgentState
close_profile state = cancel_active_turn (record state { active_profile = none })

-- The first critical section of `AgentService::stop_inner`.
unfoldable pub begin_stop_from : ServiceLifecycle → AgentState → Bool × AgentState
begin_stop_from created state = (false, record state { lifecycle = stopped })
begin_stop_from running state = (true, close_profile (record state { lifecycle = stopping }))
begin_stop_from stopping state = (true, close_profile state)
begin_stop_from stopped state = (false, state)

unfoldable pub begin_stop : AgentState → Bool × AgentState
unfolding begin_stop_from
begin_stop state = begin_stop_from state.lifecycle state

-- The second one, after `wait_until_idle`.
unfoldable pub finish_stop : AgentState → AgentState
finish_stop state = record state { lifecycle = stopped }

-- `Drop for AgentService`.
unfoldable pub drop_service : AgentState → AgentState
drop_service state =
    cancel_active_turn (record state { active_profile = none; lifecycle = stopped })

pub record AgentCard : Type 0 where
  pub key : Text
  pub definition : Text
  pub system_prompt : Text
  pub active_instance : Option ℕ

abbrev builtin_agent_system_prompt : Text
builtin_agent_system_prompt =
    text "You are Paraegox, a concise embodied-intelligence agent. Answer the user directly."

unfoldable pub new_card : Text → AgentCard
new_card key = record {
  key = key;
  definition = builtin_agent_definition;
  system_prompt = builtin_agent_system_prompt;
  active_instance = none;
}

unfoldable pub new_deepseek_v4_flash_card : Text → AgentCard
new_deepseek_v4_flash_card key = record {
  key = key;
  definition = deepseek_v4_flash_agent_definition;
  system_prompt = builtin_agent_system_prompt;
  active_instance = none;
}

-- The instance that the Card notes once its profile is active.
abbrev note_instance : AgentCard → ℕ → Reply (Unit {0}) → AgentCard × Reply (Unit {0})
note_instance card id (ok _, state) = (record card { active_instance = some id }, (ok tt, state))
note_instance card id (err e, state) = (card, (err e, state))

-- `CardImplementation::start` of the Agent Card.
unfoldable pub start_card :
    CompletionProvider → AgentCard → CardContext → AgentState → AgentCard × Reply (Unit {0})
start_card provider card context state =
    if not (context.card_key =? card.key) || not (context.definition =? card.definition)
    then (card, (err (rejected context_mismatch), state))
    else note_instance card context.card_instance_id (
        activate_profile provider state context.card_instance_id card.definition card.system_prompt)

-- `CardImplementation::stop`, up to the wait.
unfoldable pub stop_card : AgentCard → AgentState → AgentCard × Reply Bool
stop_card card state = elim card.active_instance [
  | none ↦ (card, (ok false, state))
  | some id ↦ (record card { active_instance = none }, deactivate_profile state id)
]

-- ===== src/StateMutation.antt =====
-- crates/niuma-core/src/state_mutation.rs: the service that changes the store and publishes what it
-- changed. The configuration file of `NiumaStore` is the field `config`: a read of it is taken to
-- succeed, and the outcome of a write is an argument. A poisoned lock is not modelled.
pub mod Keys
pub mod Once
pub mod Listening
use niu_ma_notifier.Prelude.BtreeMap
use niu_ma_notifier.Prelude.{
  String, Bool, true, false, not, ◌&&◌, ◌||◌, Option, none, some, List, [], ◌∷◌, ltb, if◌then◌else◌,
  filter_map, Result, ok, err, discrete_of_eq, string_eq,
}
use niu_ma_notifier.Models.{ToolId, from_id, DateTime, Duration, NiumaEvent, StoredState}
use niu_ma_notifier.Models.{StoredState-discrete}
use niu_ma_notifier.ListenerConfig.{
  ListenerConfig, is_tool_enabled, with_tool_enabled, tool_enabled_map,
}
use niu_ma_notifier.EventBus.{
  EventBus, StateChangeReason, publish_niuma_events, publish_attention_dismissed,
  publish_state_reset, publish_state_changed,
}
use niu_ma_notifier.Store

pub record StateMutationService : Type 0 where
  pub store : Store.RuntimeState
  pub config : ListenerConfig
  pub runtime_events : EventBus

pub record ListenerConfigUpdateResult : Type 0 where
  pub config : ListenerConfig
  pub state : Option StoredState

unfoldable pub append_events :
    StateMutationService → List NiumaEvent → StateMutationService × Store.AppendEventsResult
append_events service events =
    let (store, result) = Store.append_events_with_result service.store events in
    (
      record service {
        store = store;
        runtime_events = publish_niuma_events service.runtime_events result.applied_events;
      },
      result,
    )

-- The `if let Some(result)` of `dismiss_active_blocker`.
unfoldable pub publish_dismissed : EventBus → Option Store.DismissAttentionResult → EventBus
publish_dismissed bus none = bus
publish_dismissed bus (some result) = publish_attention_dismissed bus result.dismissed_count

unfoldable pub dismiss_active_blocker :
    StateMutationService → DateTime → StateMutationService × Option Store.DismissAttentionResult
dismiss_active_blocker service now =
    let (store, result) = Store.dismiss_active_blocker service.store now in
    (
      record service {
        store = store;
        runtime_events = publish_dismissed service.runtime_events result;
      },
      result,
    )

unfoldable pub reset : StateMutationService → StateMutationService × StoredState
reset service =
    let (store, state) = Store.reset service.store in
    (
      record service { store = store; runtime_events = publish_state_reset service.runtime_events },
      state,
    )

unfoldable pub mark_stale_running_sessions :
    StateMutationService → DateTime → Duration → StateMutationService × Store.StaleSweepResult
mark_stale_running_sessions service now timeout =
    let (store, result) = Store.mark_stale_running_sessions_with_result service.store now timeout in
    (
      record service {
        store = store;
        runtime_events =
            if ltb 0 result.staled_count
            then publish_state_changed service.runtime_events StateChangeReason.stale_sweep
            else service.runtime_events;
      },
      result,
    )

String-discrete : Discrete String
String-discrete = discrete_of_eq

pub ListenerConfig-discrete : Discrete ListenerConfig
ListenerConfig-discrete = hlevel (String-discrete)

-- `left != right`.
abbrev differs {ℓ} : {A : Type ℓ} → Discrete A → A → A → Bool
differs d left right = elim (d left right) [ yes e ↦ false | no ne ↦ true ]

-- The variables of the loop over the disabled tools.
pub record ClearLoop : Type 0 where
  pub store : Store.RuntimeState
  pub changed : Bool
  pub state : Option StoredState

unfoldable pub clear_tool : ClearLoop → ToolId → ClearLoop
clear_tool loop tool =
    let (store, after) = Store.clear_tool_state loop.store tool in
    record {
      store = store;
      changed = differs StoredState-discrete loop.store.state after || loop.changed;
      state = some after;
    }

unfoldable pub clear_tools : ClearLoop → List ToolId → ClearLoop
clear_tools loop [] = loop
clear_tools loop (tool ∷ tools) = clear_tools (clear_tool loop tool) tools

-- `written` is the outcome of writing the configuration.
unfoldable pub apply_listener_config_update :
    StateMutationService
    → Result (Unit {0})
    → ListenerConfig
    → ListenerConfig
    → List ToolId
    → StateMutationService × Result ListenerConfigUpdateResult
apply_listener_config_update service (err message) previous config disabled_tools =
    (service, err message)
apply_listener_config_update service (ok u) previous config disabled_tools =
    let start : ClearLoop = record {
      store = service.store;
      changed = differs ListenerConfig-discrete previous config;
      state = none;
    } in
    let done = clear_tools start disabled_tools in
    (
      record {
        store = done.store;
        config = config;
        runtime_events =
            if done.changed
            then publish_state_changed service.runtime_events
                StateChangeReason.listener_config_changed
            else service.runtime_events;
      },
      ok (record { config = config; state = done.state }),
    )

unfoldable pub set_tool_listening_enabled :
    StateMutationService
    → Result (Unit {0})
    → ToolId
    → Bool
    → StateMutationService × Result ListenerConfigUpdateResult
set_tool_listening_enabled service written tool enabled =
    apply_listener_config_update service written service.config
      (with_tool_enabled service.config tool enabled) (if enabled then [] else tool ∷ [])

unfoldable pub set_codex_listening_enabled :
    StateMutationService
    → Result (Unit {0})
    → Bool
    → StateMutationService × Result ListenerConfigUpdateResult
set_codex_listening_enabled service written enabled =
    set_tool_listening_enabled service written ToolId.codex enabled

-- The closure of `set_listener_config`.
unfoldable pub newly_disabled : ListenerConfig → String × Bool → Option ToolId
newly_disabled config (tool_id, was_enabled) =
    if was_enabled && not (is_tool_enabled config (from_id tool_id))
    then some (from_id tool_id)
    else none

unfoldable pub set_listener_config :
    StateMutationService
    → Result (Unit {0})
    → ListenerConfig
    → StateMutationService × Result ListenerConfigUpdateResult
set_listener_config service written config =
    apply_listener_config_update service written service.config config
      (filter_map (newly_disabled config) (tool_enabled_map service.config))

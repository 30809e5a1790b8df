-- ===== src/Witnesses/Services.antt =====
-- The switches, the service that changes the state, the bus and the main state.
use niu_ma_notifier.Prelude.BtreeMap
use niu_ma_notifier.Prelude.{◌≡◌, refl, false, not, ◌&&◌, List, [], ◌∷◌, arith, any, ok, eq_iff}
use niu_ma_notifier.Models.{ToolId, as_str, from_id, from_id-as_str, approval_status_eq}
use niu_ma_notifier.Store.{default_runtime}
use niu_ma_notifier.Store.Append.{FreshKeys}
use niu_ma_notifier.Store.Clear.{IsCleared, SameTool}
use niu_ma_notifier.Store.History.{StoreCall, store_run}
use niu_ma_notifier.ListenerConfig.{
  default_config, is_tool_enabled, is_any_ai_listening_enabled, legacy_tool_enabled,
}
use niu_ma_notifier.EventBus.{new_bus}
use niu_ma_notifier.EventBus.Versions.{Message, send_all, IsNumbered, send_all-IsNumbered}
use niu_ma_notifier.StateMutation.{set_tool_listening_enabled, set_listener_config}
use niu_ma_notifier.StateMutation.Once.{
  ServiceCall, service_run, new_service, announced, announced_once,
}
use niu_ma_notifier.StateMutation.Listening.{disable_lem, set_listener_config_lem}
use niu_ma_notifier.MainState.{is_waiting_item, is_error_item, current_state}
use niu_ma_notifier.MainState.Shown.{shows_waiting, shows_error, shows_lem}
use niu_ma_notifier.Witnesses.Data.{started, asked, resolved, both_on, service}

abbrev service_calls : List ServiceCall
service_calls =
    ServiceCall.append (started ∷ asked ∷ [])
    ∷ ServiceCall.append (asked ∷ resolved ∷ [])
    ∷ ServiceCall.set_tool (ok tt) ToolId.codex false
    ∷ ServiceCall.append (asked ∷ [])
    ∷ []

announced_once_example :
    FreshKeys [] (announced (service_run (new_service both_on) service_calls).runtime_events.sent)
announced_once_example = announced_once both_on service_calls

disable_lem_example :
    let after = (set_tool_listening_enabled service (ok tt) ToolId.codex false).0 in
    (is_tool_enabled after.config ToolId.codex ≡ false)
    × IsCleared ToolId.codex after.store.state
    × (is_tool_enabled after.config ToolId.claude_code
        ≡ is_tool_enabled service.config ToolId.claude_code)
    × SameTool ToolId.claude_code service.store.state after.store.state
unfolding as_str
disable_lem_example =
    disable_lem service ToolId.codex ToolId.claude_code
      (λ e. ground (arith, eq_iff "claude_code" "codex"))

set_listener_config_lem_example :
    let after = (set_listener_config service (ok tt) default_config).0 in
    (after.config ≡ default_config) × IsCleared ToolId.claude_code after.store.state
unfolding is_tool_enabled default_config legacy_tool_enabled BtreeMap.get as_str
set_listener_config_lem_example =
    set_listener_config_lem service default_config ToolId.claude_code tt refl refl

send_all-IsNumbered_example :
    IsNumbered
      (send_all new_bus (Message.events_message (started ∷ []) ∷ Message.reset_message ∷ []))
unfolding new_bus
send_all-IsNumbered_example =
    send_all-IsNumbered new_bus (Message.events_message (started ∷ []) ∷ Message.reset_message ∷ [])
      (record { events = tt; count = refl }) (omega arith)

from_id-as_str_example : from_id (as_str (ToolId.custom "aider")) ≡ ToolId.custom "aider"
from_id-as_str_example =
    from_id-as_str (ToolId.custom "aider") (
      λ e. ground (arith, eq_iff "aider" "codex"),
      λ e. ground (arith, eq_iff "aider" "claude_code"),
    )

abbrev store_calls : List StoreCall
store_calls = StoreCall.append (started ∷ asked ∷ []) ∷ []

shows_lem_example :
    let r = store_run default_runtime store_calls in
    let shown = (current_state r both_on 100).status in
    let items = r.state.attention_items in
    (shows_waiting shown ≡ (is_any_ai_listening_enabled both_on && any is_waiting_item items))
    × (shows_error shown ≡ (
        is_any_ai_listening_enabled both_on
        && not (any is_waiting_item items)
        && any is_error_item items))
shows_lem_example = shows_lem store_calls both_on 100

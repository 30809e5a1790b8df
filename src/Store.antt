-- ===== src/Store.antt =====
-- crates/niuma-core/src/store.rs: the state that `NiumaStore` keeps in memory behind its lock. Each
-- method locks, works on one `RuntimeState` and unlocks, so it is a function from the state before
-- to the state after and its result. A poisoned lock and the SQLite file are not modelled.
pub mod Events
pub mod Invariant
pub mod Append
pub mod Sweep
pub mod Cache
pub mod Clear
pub mod History
mod State
mod Appending
mod Sweeping
mod Reading
mod Requests
unfoldable pub use State.*
unfoldable pub use Appending.*
unfoldable pub use Sweeping.*
unfoldable pub use Reading.*
unfoldable pub use Requests.*
use niu_ma_notifier.Prelude.HashMap
use niu_ma_notifier.Prelude.Text.{format, decimal}
use niu_ma_notifier.Prelude.{
  ℕ, String, Bool, false, not, Option, none, some, [], ◌∷◌, if◌then◌else◌, retain, length,
  is_some_and, ◌==◌, nat_eq, string_eq,
}
use niu_ma_notifier.Models.{
  ToolId, tool_eq, EventType, DateTime, NiumaEvent, LatestActivity, idle_activity, StoredState,
  default_state,
}
use niu_ma_notifier.Plugin.RuntimeState.{PluginRuntimeState}

unfoldable pub save_plugin_runtime_state : RuntimeState → String → PluginRuntimeState → RuntimeState
save_plugin_runtime_state runtime plugin_id runtime_state = record runtime {
  plugin_runtime_states = HashMap.insert runtime.plugin_runtime_states plugin_id runtime_state;
}

unfoldable pub remove_plugin_runtime_state : RuntimeState → String → RuntimeState
remove_plugin_runtime_state runtime plugin_id = record runtime {
  plugin_runtime_states = HashMap.remove runtime.plugin_runtime_states plugin_id;
}

-- The latest activity belongs to the tool.
unfoldable pub activity_of_tool : Option LatestActivity → ToolId → Bool
activity_of_tool none tool = false
activity_of_tool (some activity) tool = is_some_and activity.tool (λ t. t == tool)

unfoldable pub cleared_of_tool : StoredState → ToolId → StoredState
cleared_of_tool state tool = record state {
  runtime_states = retain (λ session. not (session.tool == tool)) state.runtime_states;
  approval_requests = retain (λ request. not (request.tool == tool)) state.approval_requests;
  attention_items = retain (λ item. not (item.tool == tool)) state.attention_items;
  latest_activity =
      if activity_of_tool state.latest_activity tool
      then some idle_activity
      else state.latest_activity;
}

unfoldable pub clear_tool_state : RuntimeState → ToolId → RuntimeState × StoredState
clear_tool_state runtime tool =
    let state : StoredState = cleared_of_tool runtime.state tool in
    (record runtime { state = state }, state)

unfoldable pub reset : RuntimeState → RuntimeState × StoredState
reset runtime = (default_runtime, default_state)

pub record DismissAttentionResult : Type 0 where
  pub dismissed_count : ℕ
  pub event : NiumaEvent

unfoldable pub dismissed_event : DateTime → NiumaEvent
dismissed_event now = record {
  id = format ("event_manual_dismissed_" ∷ decimal (timestamp_millis now) ∷ []);
  dedupe_key = format ("manual_dismissed:" ∷ decimal (timestamp_millis now) ∷ []);
  source = "user";
  tool = ToolId.codex;
  session_id = "all-attention-items";
  parent_session_id = none;
  normalized_session_id = none;
  session_scope = none;
  agent_nickname = none;
  agent_role = none;
  tool_call_id = none;
  project_path = "";
  project_name = "NiumaNotifier";
  event_type = EventType.manual_dismissed;
  severity = "info";
  summary = "User marked all attention items as handled";
  content = none;
  error_message = none;
  attention_resolve_key = none;
  completion_reason = none;
  failure_reason = none;
  payload_ref = none;
  interaction = none;
  created_at = now;
}

-- `now` is the clock's answer.
unfoldable pub dismiss_active_blocker :
    RuntimeState → DateTime → RuntimeState × Option DismissAttentionResult
dismiss_active_blocker runtime now =
    if length runtime.state.attention_items == 0 then (runtime, none) else (
      record runtime { state = record runtime.state { attention_items = [] } },
      some (record {
        dismissed_count = length runtime.state.attention_items;
        event = dismissed_event now;
      }),
    )

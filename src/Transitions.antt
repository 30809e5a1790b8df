-- ===== src/Transitions.antt =====
-- crates/niuma-core/src/store/transitions.rs: how one event changes the stored state.
-- A `&mut` argument is the value before, and the result is the value after.
pub mod Runs
pub mod Isolation
pub mod Resolution
pub mod Inputs
pub mod Shown
use text.Mathlib.Text.{starts_with}
use niu_ma_notifier.Prelude.Text.{is_blank}
use niu_ma_notifier.Prelude.{
  String, Bool, true, false, not, ◌&&◌, ◌||◌, none, some, List, [], ◌∷◌, ◌++◌, if◌then◌else◌,
  is_some, is_none, is_some_and, any, find?, retain, update_first, ◌==◌, string_eq, option_eq,
}
use niu_ma_notifier.Models.{
  ToolId, tool_eq, RuntimeStateStatus, status_eq, EventType, event_type_eq, EventSessionScope,
  session_scope_eq, NiumaEvent, RuntimeStateItem, AttentionItem, attention_from_event,
  LatestActivity, idle_activity, activity_from_event, StoredState,
}

-- The identity of a run: `item.tool == tool && item.session_id == session_id`.
unfoldable pub same_run : ToolId → String → ToolId → String → Bool
same_run t s tool session_id = t == tool && s == session_id

-- The test of the searches in `runtime_states`.
abbrev pub runtime_matches : ToolId → String → RuntimeStateItem → Bool
runtime_matches tool session_id item = same_run item.tool item.session_id tool session_id

abbrev pub attention_matches : ToolId → String → AttentionItem → Bool
attention_matches tool session_id item = same_run item.tool item.session_id tool session_id

unfoldable pub already_applied : StoredState → NiumaEvent → Bool
already_applied state event =
    any (λ session. session.last_event_id == some event.id) state.runtime_states
    || (any (λ item. item.event_id == event.id) state.attention_items
        || is_some_and state.latest_activity (λ activity. activity.event_id == some event.id))

abbrev pub is_terminal : RuntimeStateStatus → Bool
is_terminal RuntimeStateStatus.completed = true
is_terminal RuntimeStateStatus.error = true
is_terminal RuntimeStateStatus.stale = true
is_terminal RuntimeStateStatus.idle = true
is_terminal _ = false

unfoldable pub is_late_terminal_activity : List RuntimeStateItem → NiumaEvent → Bool
is_late_terminal_activity runtime_states event =
    if not (event.event_type == EventType.session_activity)
    then false
    else is_some_and (find? (runtime_matches event.tool event.session_id) runtime_states)
        (λ item. is_terminal item.status)

unfoldable pub status_from_event : EventType → RuntimeStateStatus
status_from_event EventType.session_started = RuntimeStateStatus.running
status_from_event EventType.session_idled = RuntimeStateStatus.idle
status_from_event EventType.approval_requested = RuntimeStateStatus.waiting_approval
status_from_event EventType.approval_returned_to_codex = RuntimeStateStatus.waiting_approval
status_from_event EventType.approval_returned_to_tool = RuntimeStateStatus.waiting_approval
status_from_event EventType.approval_resolved = RuntimeStateStatus.running
status_from_event EventType.input_requested = RuntimeStateStatus.waiting_input
status_from_event EventType.task_failed = RuntimeStateStatus.error
status_from_event EventType.assistant_message_completed = RuntimeStateStatus.completed
status_from_event EventType.manual_dismissed = RuntimeStateStatus.completed
status_from_event EventType.session_staled = RuntimeStateStatus.stale
status_from_event EventType.session_activity = RuntimeStateStatus.running

-- The item that `upsert_runtime_state` changes in place.
unfoldable pub refresh_runtime_state : NiumaEvent → RuntimeStateItem → RuntimeStateItem
refresh_runtime_state event item = record item {
  status = status_from_event event.event_type;
  project_path =
      if not (is_blank event.project_path) then event.project_path else item.project_path;
  project_name =
      if not (is_blank event.project_path) then event.project_name else item.project_name;
  tool = event.tool;
  last_event_id = some event.id;
  last_activity_at = event.created_at;
}

-- The item that `upsert_runtime_state` appends.
unfoldable pub new_runtime_state : NiumaEvent → RuntimeStateItem
new_runtime_state event = record {
  tool = event.tool;
  session_id = event.session_id;
  project_path = event.project_path;
  project_name = event.project_name;
  status = status_from_event event.event_type;
  last_event_id = some event.id;
  last_activity_at = event.created_at;
}

unfoldable pub upsert_runtime_state : List RuntimeStateItem → NiumaEvent → List RuntimeStateItem
upsert_runtime_state runtime_states event =
    if any (runtime_matches event.tool event.session_id) runtime_states
    then update_first (runtime_matches event.tool event.session_id) (refresh_runtime_state event)
        runtime_states
    else runtime_states ++ new_runtime_state event ∷ []

-- A subagent's completion does not become the latest activity.
unfoldable pub should_update_latest_activity : NiumaEvent → Bool
should_update_latest_activity event = not (
    event.event_type == EventType.assistant_message_completed
    && event.session_scope == some EventSessionScope.subagent)

unfoldable pub attention_item_matches_event : AttentionItem → NiumaEvent → Bool
attention_item_matches_event item event = attention_matches event.tool event.session_id item

unfoldable pub latest_activity_matches_event : LatestActivity → NiumaEvent → Bool
latest_activity_matches_event activity event =
    activity.tool == some event.tool && activity.session_id == some event.session_id

unfoldable pub is_unkeyed_approval_for_session : AttentionItem → ToolId → String → Bool
is_unkeyed_approval_for_session item tool session_id =
    attention_matches tool session_id item
    && (item.status == RuntimeStateStatus.waiting_approval && is_none item.attention_resolve_key)

unfoldable pub is_unkeyed_input_for_session : AttentionItem → ToolId → String → Bool
is_unkeyed_input_for_session item tool session_id =
    attention_matches tool session_id item
    && (item.status == RuntimeStateStatus.waiting_input && is_none item.attention_resolve_key)

unfoldable pub is_keyed_approval : AttentionItem → Bool
is_keyed_approval item =
    item.status == RuntimeStateStatus.waiting_approval && is_some item.attention_resolve_key

unfoldable pub is_input_resolve_key : String → Bool
is_input_resolve_key resolve_key = starts_with resolve_key "input:"

unfoldable pub is_approval_resolve_key : String → Bool
is_approval_resolve_key resolve_key =
    starts_with resolve_key "approval:"
    || (starts_with resolve_key "codex_permission:" || starts_with resolve_key "claude_permission:")

unfoldable pub is_keyed_input : AttentionItem → Bool
is_keyed_input item =
    item.status == RuntimeStateStatus.waiting_input
    && is_some_and item.attention_resolve_key is_input_resolve_key

unfoldable pub is_keyed_relay_input_event : NiumaEvent → Bool
is_keyed_relay_input_event event =
    event.event_type == EventType.input_requested
    && is_some_and event.attention_resolve_key is_input_resolve_key

unfoldable pub should_skip_unkeyed_input_fallback : StoredState → NiumaEvent → Bool
should_skip_unkeyed_input_fallback state event =
    event.event_type == EventType.input_requested
    && (is_none event.attention_resolve_key
        && any (λ item. attention_item_matches_event item event && is_keyed_input item)
            state.attention_items)

unfoldable pub attention_item_resolved_by_key : AttentionItem → NiumaEvent → String → Bool
attention_item_resolved_by_key item event resolve_key =
    item.attention_resolve_key == some resolve_key
    || ((is_approval_resolve_key resolve_key
          && is_unkeyed_approval_for_session item event.tool event.session_id)
        || (is_input_resolve_key resolve_key
            && is_unkeyed_input_for_session item event.tool event.session_id))

-- The runtime state of a run with open attention items shows the status of the first of them.
unfoldable pub restore_session_attention_status : StoredState → ToolId → String → StoredState
restore_session_attention_status state tool session_id =
    elim (find? (attention_matches tool session_id) state.attention_items) [
      | none ↦ state
      | some item ↦ record state {
        runtime_states =
            update_first (runtime_matches tool session_id)
              (λ session. record session { status = item.status }) state.runtime_states;
      }
    ]

-- The waiting and error arm of `apply_attention_transition`.
unfoldable pub push_attention : StoredState → NiumaEvent → RuntimeStateStatus → StoredState
push_attention state event status =
    if should_skip_unkeyed_input_fallback state event then state else record state {
      attention_items =
          (if is_keyed_relay_input_event event
            then retain
                (λ item. not (is_unkeyed_input_for_session item event.tool event.session_id))
                state.attention_items
            else state.attention_items)
          ++ attention_from_event event status ∷ [];
    }

-- The test of the two `retain` calls of the running and completed arm.
unfoldable pub keeps_after_resume : NiumaEvent → AttentionItem → Bool
keeps_after_resume event item = elim event.attention_resolve_key [
  | some resolve_key ↦
      not (attention_item_matches_event item event)
      || not (attention_item_resolved_by_key item event resolve_key)
  | none ↦ not (attention_item_matches_event item event) || is_keyed_approval item
]

-- The running and completed arm.
unfoldable pub resume_attention : StoredState → NiumaEvent → RuntimeStateStatus → StoredState
resume_attention state event status =
    let kept : StoredState = record state {
      attention_items = retain (keeps_after_resume event) state.attention_items;
    } in
    let restored : StoredState =
      restore_session_attention_status kept event.tool event.session_id in
    if should_update_latest_activity event
    then record restored { latest_activity = some (activity_from_event event status) }
    else restored

-- The stale arm and the idle arm, which are the same code.
unfoldable pub clear_run : StoredState → NiumaEvent → StoredState
clear_run state event = record state {
  attention_items =
      retain (λ item. not (attention_item_matches_event item event)) state.attention_items;
  latest_activity =
      if is_some_and state.latest_activity
        (λ activity. latest_activity_matches_event activity event)
      then some idle_activity
      else state.latest_activity;
}

-- The arms of the last `match` of `apply_attention_transition`.
unfoldable pub transition_for_status : RuntimeStateStatus → StoredState → NiumaEvent → StoredState
transition_for_status RuntimeStateStatus.waiting_approval state event =
    push_attention state event RuntimeStateStatus.waiting_approval
transition_for_status RuntimeStateStatus.waiting_input state event =
    push_attention state event RuntimeStateStatus.waiting_input
transition_for_status RuntimeStateStatus.error state event =
    push_attention state event RuntimeStateStatus.error
transition_for_status RuntimeStateStatus.running state event =
    resume_attention state event RuntimeStateStatus.running
transition_for_status RuntimeStateStatus.completed state event =
    resume_attention state event RuntimeStateStatus.completed
transition_for_status RuntimeStateStatus.stale state event = clear_run state event
transition_for_status RuntimeStateStatus.idle state event = clear_run state event

abbrev pub is_returned_approval : EventType → Bool
is_returned_approval EventType.approval_returned_to_codex = true
is_returned_approval EventType.approval_returned_to_tool = true
is_returned_approval _ = false

unfoldable pub apply_attention_transition : StoredState → NiumaEvent → StoredState
apply_attention_transition state event =
    if event.event_type == EventType.manual_dismissed
    then record state { attention_items = [] }
    else (if is_returned_approval event.event_type
        then restore_session_attention_status state event.tool event.session_id
        else transition_for_status (status_from_event event.event_type) state event)

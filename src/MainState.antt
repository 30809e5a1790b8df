-- ===== src/MainState.antt =====
-- crates/niuma-core/src/main_state.rs: the one status that the program shows. The store's
-- `listener_config` is an argument; the asynchronous `MainStateWatcher` is not modelled.
pub mod Shown
mod Detail
unfoldable pub use Detail.*
use niu_ma_notifier.Prelude.HashMap
use niu_ma_notifier.Prelude.{
  ℕ, ◌+◌, String, Bool, false, not, ◌||◌, Option, none, some, List, [], ◌∷◌, leb, if◌then◌else◌,
  find?, ◌==◌, string_eq,
}
use niu_ma_notifier.Models.{
  ToolId, RuntimeStateStatus, status_eq, DateTime, Duration, NiumaEvent, RuntimeStateItem,
  AttentionItem, LatestActivity, ApprovalRequest,
}
use niu_ma_notifier.Transitions.{runtime_matches}
use niu_ma_notifier.ListenerConfig.{ListenerConfig, is_any_ai_listening_enabled}
use niu_ma_notifier.Store.{RuntimeState, MainStateInput, main_state_input}

abbrev pub completed_retention : Duration
completed_retention = 60_000_000_000

pub data MainStateStatus : Type 0 where
  waiting_approval waiting_input running completed error idle : MainStateStatus

pub record StateSession : Type 0 where
  pub id : String
  pub tool : ToolId
  pub project_name : String
  pub project_path : String

pub record MainStatePayload : Type 0 where
  pub version : ℕ  -- u64
  pub status : MainStateStatus
  pub updated_at : Option DateTime
  pub session : Option StateSession
  pub detail : Option StateDetail

unfoldable pub idle_payload : MainStatePayload
idle_payload = record {
  version = 0;
  status = idle;
  updated_at = none;
  session = none;
  detail = none;
}

-- `MainStateStatus::from`.
unfoldable pub shown_status : RuntimeStateStatus → MainStateStatus
shown_status RuntimeStateStatus.waiting_approval = waiting_approval
shown_status RuntimeStateStatus.waiting_input = waiting_input
shown_status RuntimeStateStatus.running = running
shown_status RuntimeStateStatus.completed = completed
shown_status RuntimeStateStatus.error = error
shown_status RuntimeStateStatus.idle = idle
shown_status RuntimeStateStatus.stale = idle

-- `StateSession::from`.
unfoldable pub shown_session : RuntimeStateItem → StateSession
shown_session session = record {
  id = session.session_id;
  tool = session.tool;
  project_name = session.project_name;
  project_path = session.project_path;
}

unfoldable pub session_of : List RuntimeStateItem → ToolId → String → Option StateSession
session_of runtime_states tool session_id =
    elim (find? (runtime_matches tool session_id) runtime_states) [
      | none ↦ none
      | some session ↦ some (shown_session session)
    ]

-- `event_map` with a later event in the place of an earlier one of the same id.
unfoldable pub event_map_from :
    List (String × NiumaEvent) → List NiumaEvent → List (String × NiumaEvent)
event_map_from m [] = m
event_map_from m (event ∷ events) = event_map_from (HashMap.insert m event.id event) events

unfoldable pub event_map : List NiumaEvent → List (String × NiumaEvent)
event_map events = event_map_from [] events

unfoldable pub is_waiting_item : AttentionItem → Bool
is_waiting_item item =
    item.status == RuntimeStateStatus.waiting_approval
    || item.status == RuntimeStateStatus.waiting_input

unfoldable pub is_error_item : AttentionItem → Bool
is_error_item item = item.status == RuntimeStateStatus.error

abbrev pub first_waiting_item : List AttentionItem → Option AttentionItem
first_waiting_item items = find? is_waiting_item items

abbrev pub first_error_item : List AttentionItem → Option AttentionItem
first_error_item items = find? is_error_item items

unfoldable pub state_from_attention_item :
    AttentionItem
    → MainStateStatus
    → List RuntimeStateItem
    → List (String × NiumaEvent)
    → List ApprovalRequest
    → MainStatePayload
state_from_attention_item item status runtime_states public_events approval_requests = record {
  version = 0;
  status = status;
  updated_at = some item.created_at;
  session = session_of runtime_states item.tool item.session_id;
  detail =
      some (
        detail_from_attention_item item (HashMap.get public_events item.event_id)
          approval_requests);
}

-- `activity.tool.zip(activity.session_id)` and the search of the run.
unfoldable pub activity_session :
    List RuntimeStateItem → Option ToolId → Option String → Option StateSession
activity_session runtime_states (some tool) (some session_id) =
    session_of runtime_states tool session_id
activity_session runtime_states _ _ = none

unfoldable pub activity_event : List (String × NiumaEvent) → Option String → Option NiumaEvent
activity_event public_events none = none
activity_event public_events (some event_id) = HashMap.get public_events event_id

-- `now - updated_at > COMPLETED_RETENTION`, a signed difference.
unfoldable pub is_expired : Option DateTime → DateTime → Bool
is_expired none now = false
is_expired (some updated_at) now = not (leb now (updated_at + completed_retention))

unfoldable pub state_from_latest_activity :
    LatestActivity
    → List RuntimeStateItem
    → List (String × NiumaEvent)
    → DateTime
    → MainStatePayload
state_from_latest_activity activity runtime_states public_events now =
    let shown : MainStatePayload = record {
      version = 0;
      status = shown_status activity.status;
      updated_at = activity.updated_at;
      session = activity_session runtime_states activity.tool activity.session_id;
      detail = activity_detail activity (activity_event public_events activity.event_id);
    } in
    elim (shown_status activity.status) [
      | idle ↦ idle_payload
      | completed ↦ if is_expired activity.updated_at now then idle_payload else shown
      | _ ↦ shown
    ]

-- The end of `current_state`, when no item asks for attention.
unfoldable pub state_without_items :
    Option LatestActivity
    → List RuntimeStateItem
    → List (String × NiumaEvent)
    → DateTime
    → MainStatePayload
state_without_items none runtime_states public_events now = idle_payload
state_without_items (some activity) runtime_states public_events now =
    state_from_latest_activity activity runtime_states public_events now

unfoldable pub current_state : RuntimeState → ListenerConfig → DateTime → MainStatePayload
current_state runtime config now =
    let input : MainStateInput = main_state_input runtime in
    let public_events = event_map input.public_events in
    let resting =
      state_without_items input.state.latest_activity input.state.runtime_states public_events
        now in
    if is_any_ai_listening_enabled config
    then elim (first_waiting_item input.state.attention_items) [
      | some item ↦
          state_from_attention_item item (shown_status item.status) input.state.runtime_states
            public_events input.state.approval_requests
      | none ↦ elim (first_error_item input.state.attention_items) [
        | some item ↦
            state_from_attention_item item error input.state.runtime_states public_events
              input.state.approval_requests
        | none ↦ resting
      ]
    ]
    else idle_payload

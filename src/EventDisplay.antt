-- ===== src/EventDisplay.antt =====
-- crates/niuma-core/src/event_display.rs: what is shown of an event.
use niu_ma_notifier.Prelude.Text.{is_blank, take_chars}
use niu_ma_notifier.Prelude.{ℕ, String, Option, none, some, ◌≡◌, arith, if◌then◌else◌, ◌==◌}
use niu_ma_notifier.Models.{
  RuntimeStateStatus, status_eq, EventType, CompletionReason, FailureReason, EventInteractionDetail,
  NiumaEvent,
}
use niu_ma_notifier.Transitions.{status_from_event}

pub record EventDisplayDetail : Type 0 where
  pub event_id : String
  pub event_type : String
  pub severity : String
  pub summary : String
  pub content : Option String
  pub error_message : Option String
  pub payload_ref : Option String
  pub completion_reason : Option String
  pub failure_reason : Option String
  pub interaction : Option EventInteractionDetail

abbrev pub truncate : String → ℕ → String
truncate value max_chars = take_chars max_chars value

-- `value.filter(|value| !value.trim().is_empty())`.
unfoldable pub not_blank : Option String → Option String
not_blank none = none
not_blank (some value) = if is_blank value then none else some value

abbrev pub unwrap_or : Option String → String → String
unwrap_or none default = default
unwrap_or (some value) default = value

unfoldable pub fallback_content_for_status :
    RuntimeStateStatus → Option String → String → Option String
fallback_content_for_status RuntimeStateStatus.waiting_approval content summary =
    some (truncate (unwrap_or (not_blank content) summary) 8000)
fallback_content_for_status RuntimeStateStatus.waiting_input content summary =
    some (truncate (unwrap_or (not_blank content) summary) 8000)
fallback_content_for_status RuntimeStateStatus.completed content summary =
    some (truncate (unwrap_or (not_blank content) summary) 8000)
fallback_content_for_status RuntimeStateStatus.running content summary = elim (not_blank content) [
  | none ↦ none
  | some value ↦ some (truncate value 8000)
]
fallback_content_for_status _ content summary = none

unfoldable pub fallback_error_for_status :
    RuntimeStateStatus → Option String → String → Option String
fallback_error_for_status status error_message summary =
    if status == RuntimeStateStatus.error
    then some (truncate (unwrap_or (not_blank error_message) summary) 4000)
    else none

unfoldable pub status_for_event_type : EventType → RuntimeStateStatus
status_for_event_type event_type = elim event_type [
  | EventType.session_started ↦ RuntimeStateStatus.running
  | EventType.session_activity ↦ RuntimeStateStatus.running
  | EventType.approval_resolved ↦ RuntimeStateStatus.running
  | EventType.approval_requested ↦ RuntimeStateStatus.waiting_approval
  | EventType.approval_returned_to_codex ↦ RuntimeStateStatus.waiting_approval
  | EventType.approval_returned_to_tool ↦ RuntimeStateStatus.waiting_approval
  | EventType.input_requested ↦ RuntimeStateStatus.waiting_input
  | EventType.task_failed ↦ RuntimeStateStatus.error
  | EventType.assistant_message_completed ↦ RuntimeStateStatus.completed
  | EventType.manual_dismissed ↦ RuntimeStateStatus.completed
  | EventType.session_idled ↦ RuntimeStateStatus.idle
  | EventType.session_staled ↦ RuntimeStateStatus.stale
]

unfoldable pub event_type_name : EventType → String
event_type_name EventType.session_started = "session_started"
event_type_name EventType.session_idled = "session_idled"
event_type_name EventType.approval_requested = "approval_requested"
event_type_name EventType.approval_resolved = "approval_resolved"
event_type_name EventType.approval_returned_to_codex = "approval_returned_to_codex"
event_type_name EventType.approval_returned_to_tool = "approval_returned_to_tool"
event_type_name EventType.input_requested = "input_requested"
event_type_name EventType.task_failed = "task_failed"
event_type_name EventType.assistant_message_completed = "assistant_message_completed"
event_type_name EventType.manual_dismissed = "manual_dismissed"
event_type_name EventType.session_staled = "session_staled"
event_type_name EventType.session_activity = "session_activity"

unfoldable pub event_type_name_for_status : RuntimeStateStatus → String
event_type_name_for_status RuntimeStateStatus.waiting_approval = "approval_requested"
event_type_name_for_status RuntimeStateStatus.waiting_input = "input_requested"
event_type_name_for_status RuntimeStateStatus.running = "session_activity"
event_type_name_for_status RuntimeStateStatus.completed = "assistant_message_completed"
event_type_name_for_status RuntimeStateStatus.error = "task_failed"
event_type_name_for_status RuntimeStateStatus.idle = "session_idled"
event_type_name_for_status RuntimeStateStatus.stale = "session_staled"

unfoldable pub status_summary : RuntimeStateStatus → String
status_summary RuntimeStateStatus.waiting_approval = "waiting approval"
status_summary RuntimeStateStatus.waiting_input = "waiting input"
status_summary RuntimeStateStatus.running = "running"
status_summary RuntimeStateStatus.completed = "completed"
status_summary RuntimeStateStatus.error = "error"
status_summary RuntimeStateStatus.idle = "idle"
status_summary RuntimeStateStatus.stale = "stale"

-- `enum_to_snake_string`: the serialised name of a variant.
unfoldable pub completion_reason_name : CompletionReason → String
completion_reason_name CompletionReason.normal = "normal"
completion_reason_name CompletionReason.interrupted = "interrupted"
completion_reason_name CompletionReason.rolled_back = "rolled_back"
completion_reason_name CompletionReason.aborted_unknown = "aborted_unknown"

unfoldable pub failure_reason_name : FailureReason → String
failure_reason_name FailureReason.timeout = "timeout"
failure_reason_name FailureReason.context_window_exceeded = "context_window_exceeded"
failure_reason_name FailureReason.usage_limit_reached = "usage_limit_reached"
failure_reason_name FailureReason.server_overloaded = "server_overloaded"
failure_reason_name FailureReason.policy_blocked = "policy_blocked"
failure_reason_name FailureReason.response_stream_failed = "response_stream_failed"
failure_reason_name FailureReason.connection_failed = "connection_failed"
failure_reason_name FailureReason.quota_exceeded = "quota_exceeded"
failure_reason_name FailureReason.internal_server_error = "internal_server_error"
failure_reason_name FailureReason.retry_limit = "retry_limit"
failure_reason_name FailureReason.sandbox_error = "sandbox_error"
failure_reason_name FailureReason.fatal = "fatal"
failure_reason_name FailureReason.unknown = "unknown"

unfoldable pub fallback_content_for_event : NiumaEvent → Option String
fallback_content_for_event event =
    fallback_content_for_status (status_for_event_type event.event_type) event.content event.summary

unfoldable pub fallback_error_for_event : NiumaEvent → Option String
fallback_error_for_event event =
    fallback_error_for_status (status_for_event_type event.event_type) event.error_message
      event.summary

unfoldable pub detail_from_event : NiumaEvent → EventDisplayDetail
detail_from_event event = record {
  event_id = event.id;
  event_type = event_type_name event.event_type;
  severity = event.severity;
  summary = truncate event.summary 200;
  content = fallback_content_for_event event;
  error_message = fallback_error_for_event event;
  payload_ref = event.payload_ref;
  completion_reason = elim event.completion_reason [
    | none ↦ none
    | some reason ↦ some (completion_reason_name reason)
  ];
  failure_reason = elim event.failure_reason [
    | none ↦ none
    | some reason ↦ some (failure_reason_name reason)
  ];
  interaction = event.interaction;
}

-- The status that is shown of an event is the one that the store gives its run.
pub status_for_event_type_lem : (t : EventType) → status_for_event_type t ≡ status_from_event t
unfolding status_for_event_type status_from_event
status_for_event_type_lem t = ground arith

-- ===== src/MainState/Detail.antt =====
-- The details that crates/niuma-core/src/main_state.rs shows of an item or an activity, and of the
-- approval behind it.
use niu_ma_notifier.Prelude.Text.{strip_prefix, format}
use niu_ma_notifier.Prelude.{
  String, ◌||◌, Option, none, some, List, [], ◌∷◌, if◌then◌else◌, find?, ◌==◌, string_eq,
}
use niu_ma_notifier.Models.{
  ToolId, RuntimeStateStatus, status_eq, ApprovalStatus, EventInteractionDetail, niuma_approval,
  tool_approval, NiumaEvent, AttentionItem, LatestActivity, ApprovalRequest,
}
use niu_ma_notifier.Approval.{has_id}
use niu_ma_notifier.EventDisplay
use niu_ma_notifier.EventDisplay.{
  EventDisplayDetail, truncate, event_type_name_for_status, fallback_content_for_status,
  fallback_error_for_status, status_summary,
}

pub record StateDetail : Type 0 where
  pub event_id : String
  pub event_type : String
  pub severity : String
  pub summary : String
  pub content : Option String
  pub error_message : Option String
  pub payload_ref : Option String
  pub completion_reason : Option String
  pub failure_reason : Option String
  pub interaction : Option EventInteractionDetail

unfoldable pub approval_tool_display_name : ToolId → String
approval_tool_display_name ToolId.codex = "Codex"
approval_tool_display_name ToolId.claude_code = "Claude Code"
approval_tool_display_name (ToolId.custom value) = value

unfoldable pub interaction_from_approval_request : ApprovalRequest → EventInteractionDetail
interaction_from_approval_request request =
    let name = approval_tool_display_name request.tool in
    elim request.status [
      | ApprovalStatus.pending ↦ record (niuma_approval request.id) {
        control_ref = request.control_ref;
      }
      | ApprovalStatus.allowed ↦ tool_approval (format ("已同意，等待 " ∷ name ∷ " 继续" ∷ []))
      | ApprovalStatus.denied ↦ tool_approval (format ("已拒绝，等待 " ∷ name ∷ " 继续" ∷ []))
      | ApprovalStatus.returned_to_codex ↦
          tool_approval (format ("Niuma 已停止代处理，请回到 " ∷ name ∷ " 中同意或拒绝" ∷ []))
      | ApprovalStatus.returned_to_tool ↦
          tool_approval (format ("Niuma 已停止代处理，请回到 " ∷ name ∷ " 中同意或拒绝" ∷ []))
      | ApprovalStatus.resolved_in_tool ↦ tool_approval (format ("已在 " ∷ name ∷ " 中处理" ∷ []))
    ]

unfoldable pub approval_request_id_from_ref : Option String → Option String
approval_request_id_from_ref none = none
approval_request_id_from_ref (some value) = strip_prefix value "approval:"

-- The id that the first of two references names.
unfoldable pub referenced_request : Option String → Option String → Option String
referenced_request payload_ref attention_resolve_key =
    elim (approval_request_id_from_ref payload_ref) [
      | none ↦ approval_request_id_from_ref attention_resolve_key
      | some request_id ↦ some request_id
    ]

-- The lookup that ends `interaction_from_approval_refs`.
unfoldable pub interaction_of_request :
    String → List ApprovalRequest → Option EventInteractionDetail
interaction_of_request request_id requests = elim (find? (has_id request_id) requests) [
  | none ↦ none
  | some request ↦ some (interaction_from_approval_request request)
]

unfoldable pub interaction_from_approval_refs :
    Option String → Option String → List ApprovalRequest → Option EventInteractionDetail
interaction_from_approval_refs payload_ref attention_resolve_key requests =
    elim (referenced_request payload_ref attention_resolve_key) [
      | none ↦ none
      | some request_id ↦ interaction_of_request request_id requests
    ]

-- `detail_from_event`, through `From<EventDisplayDetail>`.
unfoldable pub detail_from_event : NiumaEvent → StateDetail
detail_from_event event =
    let detail : EventDisplayDetail = EventDisplay.detail_from_event event in
    record {
      event_id = detail.event_id;
      event_type = detail.event_type;
      severity = detail.severity;
      summary = detail.summary;
      content = detail.content;
      error_message = detail.error_message;
      payload_ref = detail.payload_ref;
      completion_reason = detail.completion_reason;
      failure_reason = detail.failure_reason;
      interaction = detail.interaction;
    }

-- The detail of an event with the interaction of its approval, when there is one.
unfoldable pub with_interaction : StateDetail → Option EventInteractionDetail → StateDetail
with_interaction detail none = detail
with_interaction detail (some interaction) = record detail { interaction = some interaction }

unfoldable pub detail_from_attention_item :
    AttentionItem → Option NiumaEvent → List ApprovalRequest → StateDetail
detail_from_attention_item item (some event) approval_requests =
    with_interaction (detail_from_event event) (
      interaction_from_approval_refs event.payload_ref item.attention_resolve_key approval_requests)
detail_from_attention_item item none approval_requests = record {
  event_id = item.event_id;
  event_type = event_type_name_for_status item.status;
  severity = if item.status == RuntimeStateStatus.error then "error" else "urgent";
  summary = truncate item.summary 200;
  content = fallback_content_for_status item.status none item.summary;
  error_message = fallback_error_for_status item.status none item.summary;
  payload_ref = none;
  completion_reason = none;
  failure_reason = none;
  interaction = interaction_from_approval_refs none item.attention_resolve_key approval_requests;
}

-- The detail of an activity whose event is not cached.
unfoldable pub fallback_detail : RuntimeStateStatus → String → StateDetail
fallback_detail status event_id = record {
  event_id = event_id;
  event_type = event_type_name_for_status status;
  severity = "info";
  summary = status_summary status;
  content = fallback_content_for_status status none (status_summary status);
  error_message = fallback_error_for_status status none (status_summary status);
  payload_ref = none;
  completion_reason = none;
  failure_reason = none;
  interaction = none;
}

unfoldable pub activity_detail : LatestActivity → Option NiumaEvent → Option StateDetail
activity_detail activity (some event) = some (detail_from_event event)
activity_detail activity none =
    if activity.status == RuntimeStateStatus.idle || activity.status == RuntimeStateStatus.stale
    then none
    else elim activity.event_id [
      | none ↦ none
      | some event_id ↦ some (fallback_detail activity.status event_id)
    ]

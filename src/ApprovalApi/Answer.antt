-- ===== src/ApprovalApi/Answer.antt =====
-- crates/niuma-core/src/api_response.rs and the checks of crates/niuma-api/src/handlers/approval.rs:
-- what the handlers answer, and what they make of the texts of a request.
use Prim.Native.Char.{Char, code}
use niu_ma_notifier.Prelude.Text.{is_blank, trim, strip_prefix, format}
use niu_ma_notifier.Prelude.{
  ℕ, String, Bool, ◌&&◌, ◌||◌, Option, none, some, [], ◌∷◌, leb, if◌then◌else◌, ◌==◌, string_eq,
  Result, ok, err,
}
use niu_ma_notifier.Models.{
  ApprovalStatus, ApprovalDecisionKind, ApprovalChannel, ApprovalProxyStatus, ApprovalRequest,
  EventType,
}

pub data ApiErrorCode : Type 0 where
  protocol_parameter missing_required_parameter parameter_type parameter_format business_validation
        system database service_unavailable route_not_found :
      ApiErrorCode

unfoldable pub code_of : ApiErrorCode → ℕ
code_of ApiErrorCode.protocol_parameter = 100001
code_of ApiErrorCode.missing_required_parameter = 100002
code_of ApiErrorCode.parameter_type = 100003
code_of ApiErrorCode.parameter_format = 100004
code_of ApiErrorCode.business_validation = 100101
code_of ApiErrorCode.system = 900001
code_of ApiErrorCode.database = 900002
code_of ApiErrorCode.service_unavailable = 900004
code_of ApiErrorCode.route_not_found = 900005

-- `ApiResponse` with the HTTP status of `json_response`; `none` stands for the JSON value null.
pub record Response (Data : Type 0) : Type 0 where
  pub http_status : ℕ
  pub response_code : ℕ
  pub message : String
  pub payload : Option Data

module _ {Data : Type 0} where
  -- `json_response(200, ApiResponse::ok(data))`.
  unfoldable pub succeed : Data → Response Data
  succeed value = record {
    http_status = 200;
    response_code = 0;
    message = "ok";
    payload = some value;
  }

  -- `json_response(status, ApiResponse::fail(code, message))`.
  unfoldable pub fail : ℕ → ApiErrorCode → String → Response Data
  fail http_status error_code message = record {
    http_status = http_status;
    response_code = code_of error_code;
    message = message;
    payload = none;
  }

-- `approval_response`.
pub record ApprovalAnswer : Type 0 where
  pub request_id : String
  pub status : ApprovalStatus
  pub decision : Option String
  pub decided_by : Option String
  pub decided_source : Option String
  pub reason : Option String
  pub proxy_status : ApprovalProxyStatus
  pub accepted : Option Bool

unfoldable pub decision_value_for_status : ApprovalStatus → Option String
decision_value_for_status ApprovalStatus.allowed = some "allow"
decision_value_for_status ApprovalStatus.denied = some "deny"
decision_value_for_status _ = none

unfoldable pub approval_response : ApprovalRequest → Option Bool → ApprovalAnswer
approval_response request accepted = record {
  request_id = request.id;
  status = request.status;
  decision = decision_value_for_status request.status;
  decided_by = request.decided_by;
  decided_source = request.decided_source;
  reason = request.reason;
  proxy_status = request.proxy_status;
  accepted = accepted;
}

unfoldable pub required_trimmed : String → String → Result String
required_trimmed value field =
    if is_blank value then err (format (field ∷ " 不能为空" ∷ [])) else ok (trim value)

-- `shared::trim_optional_string`.
unfoldable pub trim_optional_string : Option String → Option String
trim_optional_string none = none
trim_optional_string (some value) = if is_blank value then none else some (trim value)

unfoldable pub parse_approval_decision : String → Result ApprovalDecisionKind
parse_approval_decision value =
    let value = trim value in
    if value == "allow"
    then ok ApprovalDecisionKind.allow
    else if value == "deny"
    then ok ApprovalDecisionKind.deny
    else err "decision 仅支持 allow 或 deny"

unfoldable pub parse_approval_status : String → Result ApprovalStatus
parse_approval_status value =
    let value = trim value in
    if value == "pending"
    then ok ApprovalStatus.pending
    else if value == "allowed"
    then ok ApprovalStatus.allowed
    else if value == "denied"
    then ok ApprovalStatus.denied
    else if value == "returned_to_codex"
    then ok ApprovalStatus.returned_to_codex
    else if value == "returned_to_tool"
    then ok ApprovalStatus.returned_to_tool
    else if value == "resolved_in_tool"
    then ok ApprovalStatus.resolved_in_tool
    else err
        "status 仅支持 pending、allowed、denied、returned_to_codex、returned_to_tool 或 resolved_in_tool"

abbrev pub or_default : Option String → String → String
or_default none default = default
or_default (some value) default = value

unfoldable pub parse_approval_channel : Option String → Result ApprovalChannel
parse_approval_channel value =
    let channel = or_default value "hook_proxy" in
    if channel == "hook_proxy"
    then ok ApprovalChannel.hook_proxy
    else if channel == "niuma_codex_relay"
    then ok ApprovalChannel.niuma_codex_relay
    else err (format ("未知授权渠道：" ∷ channel ∷ []))

unfoldable pub approval_ownership : ApprovalChannel → String
approval_ownership ApprovalChannel.hook_proxy = "hook"
approval_ownership ApprovalChannel.niuma_codex_relay = "niuma_codex_relay"

unfoldable pub relay_decision_value : ApprovalDecisionKind → String
relay_decision_value ApprovalDecisionKind.allow = "accept"
relay_decision_value ApprovalDecisionKind.deny = "reject"

unfoldable pub event_type_key : EventType → String
event_type_key EventType.approval_requested = "approval_requested"
event_type_key EventType.approval_resolved = "approval_resolved"
event_type_key EventType.approval_returned_to_codex = "approval_returned_to_codex"
event_type_key EventType.approval_returned_to_tool = "approval_returned_to_tool"
event_type_key _ = "approval_event"

unfoldable pub returned_event_type_for_status : ApprovalStatus → EventType
returned_event_type_for_status ApprovalStatus.returned_to_tool = EventType.approval_returned_to_tool
returned_event_type_for_status _ = EventType.approval_returned_to_codex

unfoldable pub returned_event_type_for_request : ApprovalRequest → EventType
returned_event_type_for_request request = returned_event_type_for_status request.status

unfoldable pub approval_ref : String → String
approval_ref request_id = format ("approval:" ∷ request_id ∷ [])

-- `char::is_ascii_alphanumeric`.
unfoldable pub is_ascii_alphanumeric : ℕ → Bool
is_ascii_alphanumeric c =
    (leb b'0' c && leb c b'9') || ((leb b'A' c && leb c b'Z') || (leb b'a' c && leb c b'z'))

abbrev pub underscore : Char
underscore = "_"

unfoldable pub sanitize_event_id_part : String → String
sanitize_event_id_part String.[] = String.[]
sanitize_event_id_part (String.◌∷◌ c s) =
    let rest = sanitize_event_id_part s in
    String.◌∷◌ (if is_ascii_alphanumeric (code c) then c else underscore) rest

abbrev pub managed_codex_channel_prefix : String
managed_codex_channel_prefix = "niuma_codex_managed:"

-- Of crates/niuma-core/src/codex_managed_session.rs.
unfoldable pub managed_codex_channel_id : String → String
managed_codex_channel_id wrapper_session_id =
    format (managed_codex_channel_prefix ∷ wrapper_session_id ∷ [])

unfoldable pub wrapper_session_id_from_channel_id : String → Option String
wrapper_session_id_from_channel_id channel_id =
    trim_optional_string (strip_prefix channel_id managed_codex_channel_prefix)

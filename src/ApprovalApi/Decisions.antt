-- ===== src/ApprovalApi/Decisions.antt =====
-- crates/niuma-api/src/handlers/approval.rs: the handlers that settle a request or read it. Parsing a
-- body is given, as its outcome; so are the registry file of the managed sessions and the socket of a
-- relay. The times are the clock's answers.
use niu_ma_notifier.Prelude.Text.{format}
use niu_ma_notifier.Prelude.{
  if◌then◌else◌, String, ◌&&◌, Option, none, some, List, [], ◌∷◌, find?, retain, ◌==◌, string_eq,
  Result, ok, err, ◌>>=◌,
}
use niu_ma_notifier.Models.{
  ApprovalStatus, approval_status_eq, ApprovalDecisionKind, ApprovalChannel, channel_eq, EventType,
  DateTime, ApprovalControlRef, ApprovalRequest,
}
use niu_ma_notifier.Approval.{ApprovalMutationResult}
use niu_ma_notifier.Store.{
  RuntimeState, approval_request, decide_approval, return_approval_to_codex,
  resolve_approval_in_tool, heartbeat_approval_proxy,
}
use niu_ma_notifier.ApprovalApi.Answer.{
  ApiErrorCode, Response, succeed, fail, ApprovalAnswer, approval_response, required_trimmed,
  trim_optional_string, parse_approval_decision, parse_approval_status, relay_decision_value,
  returned_event_type_for_request, wrapper_session_id_from_channel_id,
}
use niu_ma_notifier.ApprovalApi.Events.{approval_event}
use niu_ma_notifier.ApprovalApi.State.{AppState, store_of, with_store, append, parsed, checked}

pub record ApprovalDecisionBody : Type 0 where
  pub request_id : String
  pub decision : String
  pub decided_by : String
  pub decided_source : String
  pub reason : Option String

pub record ApprovalReturnBody : Type 0 where
  pub request_id : String
  pub returned_by : String
  pub reason : String

pub record ApprovalToolResolvedBody : Type 0 where
  pub request_id : String
  pub resolved_by : String
  pub reason : Option String

pub record ApprovalHeartbeatBody : Type 0 where
  pub request_id : String
  pub source : Option String

-- The end of the three handlers below, after the call of the store.
unfoldable pub answer_mutation :
    AppState
    → RuntimeState × Result ApprovalMutationResult
    → (ApprovalRequest → EventType)
    → DateTime
    → AppState × Response ApprovalAnswer
answer_mutation state (store, err error) event_type now =
    (with_store state store, fail 200 ApiErrorCode.business_validation error)
answer_mutation state (store, ok result) event_type now = (
  if result.accepted
      then append (with_store state store)
          (approval_event result.request (event_type result.request) "info" "approval-api" now ∷ [])
      else with_store state store,
  succeed (approval_response result.request (some result.accepted)),
)

-- The registry of the managed sessions, as the control sockets of the wrapper sessions, and the
-- exchange with a control socket.
pub record Relay : Type 0 where
  pub read_registry : Result (List (String × String))
  pub send : String → String → String → Result (Unit {0})

unfoldable pub missing_request : String → String
missing_request request_id = format ("授权请求不存在：" ∷ request_id ∷ [])

unfoldable pub control_socket_of :
    List (String × String) → String → ApprovalControlRef → Result String
control_socket_of sessions wrapper_session_id control_ref =
    elim (find? (λ (session : String × String). session.0 == wrapper_session_id) sessions) [
      | some session ↦ ok session.1
      | none ↦ err (format ("找不到 session control channel：" ∷ control_ref.channel_id ∷ []))
    ]

unfoldable pub relay_control_socket_from_registry : Relay → ApprovalControlRef → Result String
relay_control_socket_from_registry relay control_ref = relay.read_registry >>= λ sessions.
    elim (wrapper_session_id_from_channel_id control_ref.channel_id) [
      | none ↦ err (format ("不支持的 session control channel：" ∷ control_ref.channel_id ∷ []))
      | some wrapper_session_id ↦ control_socket_of sessions wrapper_session_id control_ref
    ]

unfoldable pub send_relay_approval_decision :
    Relay → ApprovalRequest → ApprovalDecisionKind → Result (Unit {0})
send_relay_approval_decision relay request decision = elim request.control_ref [
  | none ↦ err "relay 授权缺少 control_ref，无法回写 Codex"
  | some control_ref ↦ relay_control_socket_from_registry relay control_ref >>= λ control_socket.
      relay.send control_socket request.id (relay_decision_value decision)
]

-- The exchange with the relay before a decision is stored.
unfoldable pub notify_relay : Relay → ApprovalRequest → ApprovalDecisionKind → Result (Unit {0})
notify_relay relay request decision =
    if (request.channel == ApprovalChannel.niuma_codex_relay)
      && (request.status == ApprovalStatus.pending)
    then send_relay_approval_decision relay request decision
    else ok tt

unfoldable pub find_stored : AppState → String → Result ApprovalRequest
find_stored state request_id = elim (approval_request (store_of state) request_id) [
  | none ↦ err (missing_request request_id)
  | some request ↦ ok request
]

unfoldable pub post_approval_decision :
    AppState
    → Relay
    → Result ApprovalDecisionBody
    → DateTime
    → DateTime
    → AppState × Response ApprovalAnswer
post_approval_decision state relay body decided_at event_at = parsed state body (λ request.
    checked state (parse_approval_decision request.decision) (λ decision.
      checked state (required_trimmed request.request_id "request_id") (λ request_id.
        checked state (required_trimmed request.decided_by "decided_by") (λ decided_by.
          checked state (required_trimmed request.decided_source "decided_source")
            (λ decided_source. checked state (find_stored state request_id) (λ existing.
              checked state (notify_relay relay existing decision) (λ sent.
                answer_mutation state
                  (decide_approval (store_of state) request_id decision decided_by decided_source
                    (trim_optional_string request.reason) decided_at)
                  (λ decided. EventType.approval_resolved) event_at)))))))

unfoldable pub post_approval_return_to_codex :
    AppState → Result ApprovalReturnBody → DateTime → DateTime → AppState × Response ApprovalAnswer
post_approval_return_to_codex state body returned_at event_at = parsed state body (λ request.
    checked state (required_trimmed request.request_id "request_id") (λ request_id.
      checked state (required_trimmed request.returned_by "returned_by") (λ returned_by.
        checked state (required_trimmed request.reason "reason") (λ reason.
          answer_mutation state
            (return_approval_to_codex (store_of state) request_id returned_by "timeout" reason
              returned_at)
            returned_event_type_for_request event_at))))

unfoldable pub post_approval_tool_resolved :
    AppState
    → Result ApprovalToolResolvedBody
    → DateTime
    → DateTime
    → AppState × Response ApprovalAnswer
post_approval_tool_resolved state body resolved_at event_at = parsed state body (λ request.
    checked state (required_trimmed request.request_id "request_id") (λ request_id.
      checked state (required_trimmed request.resolved_by "resolved_by") (λ resolved_by.
        answer_mutation state
          (resolve_approval_in_tool (store_of state) request_id resolved_by
            (trim_optional_string request.reason) resolved_at)
          (λ resolved. EventType.approval_resolved) event_at)))

unfoldable pub heartbeat_answer :
    AppState → RuntimeState × Result ApprovalMutationResult → AppState × Response ApprovalAnswer
heartbeat_answer state (store, err error) =
    (with_store state store, fail 200 ApiErrorCode.business_validation error)
heartbeat_answer state (store, ok result) =
    (with_store state store, succeed (approval_response result.request (some result.accepted)))

unfoldable pub post_approval_heartbeat :
    AppState → Result ApprovalHeartbeatBody → DateTime → AppState × Response ApprovalAnswer
post_approval_heartbeat state body now = parsed state body (λ request.
    checked state (required_trimmed request.request_id "request_id") (λ request_id.
      heartbeat_answer state (heartbeat_approval_proxy (store_of state) request_id now)))

unfoldable pub get_approval_requests : AppState → Option String → Response (List ApprovalRequest)
get_approval_requests state none = succeed (store_of state).state.approval_requests
get_approval_requests state (some value) = elim (parse_approval_status value) [
  | err message ↦ fail 200 ApiErrorCode.business_validation message
  | ok status ↦ succeed (
      retain (λ (request : ApprovalRequest). request.status == status)
        (store_of state).state.approval_requests)
]

unfoldable pub get_approval_decision : AppState → Option String → Response ApprovalAnswer
get_approval_decision state request_id = elim (trim_optional_string request_id) [
  | none ↦ fail 200 ApiErrorCode.business_validation "request_id 不能为空"
  | some request_id ↦ elim (approval_request (store_of state) request_id) [
    | some request ↦ succeed (approval_response request none)
    | none ↦ fail 200 ApiErrorCode.business_validation (missing_request request_id)
  ]
]

-- ===== src/ApprovalApi/Events.antt =====
-- crates/niuma-api/src/handlers/approval.rs: the events of an approval request, and the
-- fingerprints under which a request and a watcher's event meet.
use niu_ma_notifier.Prelude.Text.{is_blank, strip_prefix, format, decimal}
use niu_ma_notifier.Prelude.{
  String, Bool, not, ◌&&◌, Option, none, some, List, [], ◌∷◌, ◌++◌, if◌then◌else◌, any, find?,
  is_some, is_some_and, ◌==◌, string_eq,
}
use niu_ma_notifier.Models.{
  tool_eq, ApprovalStatus, EventType, DateTime, NiumaEvent, EventInteractionDetail, niuma_approval,
  tool_approval, ApprovalRequest, AttentionItem, RuntimeStateStatus, status_eq, StoredState,
}
use niu_ma_notifier.Approval.{approval_tool_display_name}
use niu_ma_notifier.Store.{timestamp_millis}
use niu_ma_notifier.Arbiter.{ApprovalFingerprint}
use niu_ma_notifier.Arbiter.Fingerprint.{from_parts}
use niu_ma_notifier.ApprovalApi.Answer.{
  event_type_key, approval_ref, sanitize_event_id_part, or_default,
}

abbrev pub or_other {ℓ} : {A : Type ℓ} → Option A → Option A → Option A
or_other none other = other
or_other (some a) other = some a

unfoldable pub approval_summary : ApprovalRequest → String
approval_summary request =
    let described = or_default request.description request.tool_name in
    elim request.command [
      | none ↦ described
      | some command ↦
          if not (is_blank command)
          then format (request.tool_name ∷ ": " ∷ command ∷ [])
          else described
    ]

-- The interaction of an event on a request that is resolved.
unfoldable pub resolved_interaction : ApprovalRequest → Option EventInteractionDetail
resolved_interaction request =
    let tool = approval_tool_display_name request.tool in
    elim request.status [
      | ApprovalStatus.allowed ↦ some (tool_approval (format ("已同意，等待 " ∷ tool ∷ " 继续" ∷ [])))
      | ApprovalStatus.denied ↦ some (tool_approval (format ("已拒绝，等待 " ∷ tool ∷ " 继续" ∷ [])))
      | ApprovalStatus.resolved_in_tool ↦ some (tool_approval (format ("已在 " ∷ tool ∷ " 中处理" ∷ [])))
      | _ ↦ none
    ]

-- The interaction of an event on a request that goes back to its tool.
unfoldable pub returned_interaction : ApprovalRequest → EventInteractionDetail
returned_interaction request =
    tool_approval (format ("请回到 " ∷ approval_tool_display_name request.tool ∷ " 中同意或拒绝" ∷ []))

unfoldable pub approval_interaction : ApprovalRequest → EventType → Option EventInteractionDetail
approval_interaction request EventType.approval_requested =
    some (record (niuma_approval request.id) { control_ref = request.control_ref })
approval_interaction request EventType.approval_returned_to_codex =
    some (returned_interaction request)
approval_interaction request EventType.approval_returned_to_tool =
    some (returned_interaction request)
approval_interaction request EventType.approval_resolved = resolved_interaction request
approval_interaction request _ = none

unfoldable pub approval_event :
    ApprovalRequest → EventType → String → String → DateTime → NiumaEvent
approval_event request event_type severity source now = record {
  id = format (
      "event_"
      ∷ event_type_key event_type
      ∷ "_"
      ∷ sanitize_event_id_part request.id
      ∷ "_"
      ∷ decimal (timestamp_millis now)
      ∷ []);
  dedupe_key = format (event_type_key event_type ∷ ":" ∷ request.id ∷ []);
  source = source;
  tool = request.tool;
  session_id = request.session_id;
  parent_session_id = none;
  normalized_session_id = none;
  session_scope = none;
  agent_nickname = none;
  agent_role = none;
  tool_call_id = request.tool_call_id;
  project_path = request.project_path;
  project_name = request.project_name;
  event_type = event_type;
  severity = severity;
  summary = approval_summary request;
  content = or_other request.description (or_other request.command (some request.tool_name));
  error_message = none;
  attention_resolve_key = some (approval_ref request.id);
  completion_reason = none;
  failure_reason = none;
  payload_ref = some (approval_ref request.id);
  interaction = approval_interaction request event_type;
  created_at = now;
}

-- The command of a text of the session watcher.
unfoldable pub watcher_command : String → String
watcher_command content = or_default (strip_prefix content "exec_command: ") content

unfoldable pub watcher_approval_fingerprint : NiumaEvent → Option ApprovalFingerprint
watcher_approval_fingerprint event =
    from_parts event.project_path
      (some (
        or_default (or_other event.normalized_session_id event.parent_session_id) event.session_id))
      (some (watcher_command (or_default event.content event.summary))) none

-- The fingerprints contain the key.
unfoldable pub has_key : String → List ApprovalFingerprint → Bool
has_key key = any (λ (fingerprint : ApprovalFingerprint). fingerprint.key == key)

-- One turn of the loop over the texts.
unfoldable pub add_fingerprint :
    List ApprovalFingerprint → Option ApprovalFingerprint → List ApprovalFingerprint
add_fingerprint fingerprints none = fingerprints
add_fingerprint fingerprints (some fingerprint) =
    if has_key fingerprint.key fingerprints then fingerprints else fingerprints ++ fingerprint ∷ []

-- The fingerprint of one text of a request.
unfoldable pub text_fingerprint : ApprovalRequest → Option String → Option ApprovalFingerprint
text_fingerprint request text = from_parts request.project_path (some request.session_id) text none

unfoldable pub hook_approval_fingerprints : ApprovalRequest → List ApprovalFingerprint
hook_approval_fingerprints request =
    add_fingerprint (add_fingerprint [] (text_fingerprint request request.description))
      (text_fingerprint request request.command)

-- The two requests have a fingerprint in common.
unfoldable pub share_key : List ApprovalFingerprint → List ApprovalFingerprint → Bool
share_key fingerprints others =
    any (λ (fingerprint : ApprovalFingerprint). has_key fingerprint.key others) fingerprints

unfoldable pub watcher_attention_fingerprint :
    AttentionItem → ApprovalRequest → Option ApprovalFingerprint
watcher_attention_fingerprint item request =
    from_parts request.project_path (some item.session_id) (some (watcher_command item.summary))
      none

abbrev pub starts_with : String → String → Bool
starts_with prefix value = is_some (strip_prefix value prefix)

-- The item is the watcher's fallback for the request.
unfoldable pub is_watcher_item : ApprovalRequest → AttentionItem → Bool
is_watcher_item request item =
    (item.status == RuntimeStateStatus.waiting_approval)
    && ((item.tool == request.tool)
        && (is_some_and item.attention_resolve_key (starts_with "codex_permission:")
            && is_some_and (watcher_attention_fingerprint item request)
                (λ fingerprint. has_key fingerprint.key (hook_approval_fingerprints request))))

-- The event that takes the watcher's item away.
unfoldable pub watcher_replaced_event :
    ApprovalRequest → DateTime → AttentionItem → String → NiumaEvent
watcher_replaced_event request now item resolve_key = record {
  id = format (
      "event_watcher_replaced_"
      ∷ sanitize_event_id_part request.id
      ∷ "_"
      ∷ decimal (timestamp_millis now)
      ∷ []);
  dedupe_key = format ("watcher_replaced:" ∷ request.id ∷ []);
  source = "approval-api";
  tool = request.tool;
  session_id = item.session_id;
  parent_session_id = none;
  normalized_session_id = none;
  session_scope = none;
  agent_nickname = none;
  agent_role = none;
  tool_call_id = request.tool_call_id;
  project_path = request.project_path;
  project_name = request.project_name;
  event_type = EventType.approval_resolved;
  severity = "info";
  summary = "Niuma 已接管 Codex 授权";
  content = or_other request.description request.command;
  error_message = none;
  attention_resolve_key = some resolve_key;
  completion_reason = none;
  failure_reason = none;
  payload_ref = none;
  interaction = none;
  created_at = now;
}

unfoldable pub watcher_fallback_resolved_event :
    StoredState → ApprovalRequest → DateTime → Option NiumaEvent
watcher_fallback_resolved_event stored request now = elim (hook_approval_fingerprints request) [
  | [] ↦ none
  | _ ∷ _ ↦ elim (find? (is_watcher_item request) stored.attention_items) [
    | none ↦ none
    | some item ↦ elim item.attention_resolve_key [
      | none ↦ none
      | some resolve_key ↦ some (watcher_replaced_event request now item resolve_key)
    ]
  ]
]

-- ===== src/ApprovalApi/Requests.antt =====
-- crates/niuma-api/src/handlers/approval.rs: `post_approval_request`. Parsing a body is given, as its
-- outcome, and the times are the clock's answers.
use niu_ma_notifier.Prelude.{
  if◌then◌else◌, ℕ, ◌+◌, String, Bool, ◌&&◌, Option, none, some, List, [], ◌∷◌, ◌++◌, find?, ◌==◌,
  string_eq, Result, ok, ◌>>=◌,
}
use niu_ma_notifier.Models.{
  from_id, ApprovalStatus, approval_status_eq, ApprovalProxyStatus, ApprovalChannel, channel_eq,
  EventType, DateTime, NiumaEvent, ApprovalControlRef, ApprovalRequest,
}
use niu_ma_notifier.Store.{RuntimeState, upsert_approval_request}
use niu_ma_notifier.Arbiter.{
  ApprovalArbiter, ApprovalFingerprint, HookApprovalDecision, accept_hook, replace_watcher,
  on_hook_approval, on_relay_approval,
}
use niu_ma_notifier.ApprovalApi.Answer.{
  Response, succeed, required_trimmed, trim_optional_string, parse_approval_channel,
  approval_ownership,
}
use niu_ma_notifier.ApprovalApi.Events.{
  approval_event, hook_approval_fingerprints, share_key, watcher_fallback_resolved_event,
}
use niu_ma_notifier.ApprovalApi.State.{AppState, store_of, with_store, append, parsed, checked}

pub record ApprovalRequestBody : Type 0 where
  pub request_id : String
  pub tool : String
  pub session_id : String
  pub turn_id : String
  pub tool_name : String
  pub tool_call_id : Option String
  pub command : Option String
  pub description : Option String
  pub project_path : String
  pub project_name : String
  pub timeout_seconds : Option ℕ
  pub channel : Option String
  pub control_ref : Option ApprovalControlRef

-- What the three fields say of the proxy of a new request.
abbrev pub proxy_of_channel : ApprovalChannel → DateTime → ApprovalProxyStatus × Option DateTime
proxy_of_channel ApprovalChannel.hook_proxy now = (ApprovalProxyStatus.active, some now)
proxy_of_channel ApprovalChannel.niuma_codex_relay now = (ApprovalProxyStatus.none, none)

abbrev pub timeout_or_default : Option ℕ → ℕ
timeout_or_default none = 600
timeout_or_default (some seconds) = seconds

unfoldable pub build_approval_request : ApprovalRequestBody → DateTime → Result ApprovalRequest
build_approval_request body now = parse_approval_channel body.channel >>= λ channel.
    required_trimmed body.request_id "request_id" >>= λ id.
    required_trimmed body.tool "tool" >>= λ tool.
    required_trimmed body.session_id "session_id" >>= λ session_id.
    required_trimmed body.turn_id "turn_id" >>= λ turn_id.
    required_trimmed body.tool_name "tool_name" >>= λ tool_name.
    required_trimmed body.project_path "project_path" >>= λ project_path.
    required_trimmed body.project_name "project_name" >>= λ project_name. ok (record {
      id = id;
      tool = from_id tool;
      session_id = session_id;
      turn_id = turn_id;
      tool_name = tool_name;
      tool_call_id = trim_optional_string body.tool_call_id;
      command = trim_optional_string body.command;
      description = trim_optional_string body.description;
      project_path = project_path;
      project_name = project_name;
      status = ApprovalStatus.pending;
      decided_by = none;
      decided_source = none;
      reason = none;
      created_at = now;
      updated_at = now;
      proxy_timeout_seconds = timeout_or_default body.timeout_seconds;
      proxy_status = (proxy_of_channel channel now).0;
      last_heartbeat_at = (proxy_of_channel channel now).1;
      proxy_lost_at = none;
      channel = channel;
      control_ref = body.control_ref;
    })

-- The closure of `existing_pending_hook_approval_for_relay`.
unfoldable pub is_pending_hook_approval : ApprovalRequest → ApprovalRequest → Bool
is_pending_hook_approval relay_request existing =
    (existing.status == ApprovalStatus.pending)
    && ((existing.channel == ApprovalChannel.hook_proxy)
        && share_key (hook_approval_fingerprints existing)
            (hook_approval_fingerprints relay_request))

unfoldable pub existing_pending_hook_approval_for_relay :
    RuntimeState → ApprovalRequest → Option ApprovalRequest
existing_pending_hook_approval_for_relay store relay_request =
    elim (hook_approval_fingerprints relay_request) [
      | [] ↦ none
      | _ ∷ _ ↦ find? (is_pending_hook_approval relay_request) store.state.approval_requests
    ]

-- The call of the arbiter for one fingerprint.
unfoldable pub arbitrate_fingerprint :
    ApprovalChannel
    → ApprovalArbiter
    → ApprovalFingerprint
    → DateTime
    → ApprovalArbiter × HookApprovalDecision
arbitrate_fingerprint ApprovalChannel.hook_proxy arbiter fingerprint now =
    on_hook_approval arbiter fingerprint now
arbitrate_fingerprint ApprovalChannel.niuma_codex_relay arbiter fingerprint now =
    on_relay_approval arbiter fingerprint now

abbrev pub replaces : HookApprovalDecision → HookApprovalDecision → HookApprovalDecision
replaces accept_hook decision = decision
replaces replace_watcher decision = replace_watcher

-- The loop over the fingerprints; the clock answers at the n-th turn.
unfoldable pub arbitrate_fingerprints :
    ApprovalChannel
    → (ℕ → DateTime)
    → ApprovalArbiter
    → HookApprovalDecision
    → List ApprovalFingerprint
    → ℕ
    → ApprovalArbiter × HookApprovalDecision
arbitrate_fingerprints channel clock arbiter proxy_decision [] n = (arbiter, proxy_decision)
arbitrate_fingerprints channel clock arbiter proxy_decision (fingerprint ∷ fingerprints) n =
    let (after, decision) = arbitrate_fingerprint channel arbiter fingerprint (clock n) in
    arbitrate_fingerprints channel clock after (replaces decision proxy_decision) fingerprints
      (n + 1)

pub data ApprovalRequestAnswer : Type 0 where
  -- Answered by the hook's own request, which is named with its status.
  deduped : (request_id : String) (status : ApprovalStatus) → ApprovalRequestAnswer
  registered :
      (request_id ownership : String) (status : ApprovalStatus) (replaced_channel : Option String)
      → ApprovalRequestAnswer

abbrev pub replaced_channel_of : HookApprovalDecision → Option String
replaced_channel_of accept_hook = none
replaced_channel_of replace_watcher = some "session_watch"

abbrev pub option_list {ℓ} : {A : Type ℓ} → Option A → List A
option_list none = []
option_list (some a) = a ∷ []

-- The event that takes the watcher's item away, where the arbiter says so.
unfoldable pub replaced_events :
    HookApprovalDecision → RuntimeState → ApprovalRequest → DateTime → List NiumaEvent
replaced_events accept_hook store request replaced_at = []
replaced_events replace_watcher store request replaced_at =
    option_list (watcher_fallback_resolved_event store.state request replaced_at)

-- The clock's answers during `post_approval_request`.
pub record RequestTimes : Type 0 where
  pub built_at : DateTime
  pub arbitrated_at : ℕ → DateTime
  pub replaced_at : DateTime
  pub requested_at : DateTime

-- `post_approval_request` from the arbitration on.
unfoldable pub register_approval_request :
    AppState → ApprovalRequest → RequestTimes → AppState × Response ApprovalRequestAnswer
register_approval_request state request times =
    let (arbiter, proxy_decision) =
      arbitrate_fingerprints request.channel times.arbitrated_at state.approval_arbiter accept_hook
        (hook_approval_fingerprints request) 0 in
    let stored = (upsert_approval_request (store_of state) request).0 in
    let arbitrated : AppState = record (with_store state stored) { approval_arbiter = arbiter } in
    (
      append arbitrated (
          replaced_events proxy_decision stored request times.replaced_at
          ++ approval_event request EventType.approval_requested "urgent" "approval-api"
              times.requested_at
            ∷ []),
      succeed (
          registered request.id (approval_ownership request.channel) request.status
            (replaced_channel_of proxy_decision)),
    )

unfoldable pub post_approval_request :
    AppState → Result ApprovalRequestBody → RequestTimes → AppState × Response ApprovalRequestAnswer
post_approval_request state body times = parsed state body (λ body.
    checked state (build_approval_request body times.built_at) (λ request.
      if request.channel == ApprovalChannel.niuma_codex_relay
      then elim (existing_pending_hook_approval_for_relay (store_of state) request) [
        | some existing ↦ (state, succeed (deduped existing.id existing.status))
        | none ↦ register_approval_request state request times
      ]
      else register_approval_request state request times))

-- ===== src/Approval.antt =====
-- crates/niuma-core/src/approval.rs: the life of an approval request. A `&mut` list is the list
-- before, and the result holds the list after beside what the function returns.
pub mod Lifecycle
pub mod Frame
pub mod Proxies
pub mod Sweep
use niu_ma_notifier.Prelude.Text.{format}
use niu_ma_notifier.Prelude.{
  ◌+◌, String, Bool, true, false, not, ◌&&◌, Option, none, some, List, [], ◌∷◌, ◌++◌, leb,
  if◌then◌else◌, find?, any, update_first, ◌==◌, string_eq, Result, ok, err,
}
use niu_ma_notifier.Models.{
  ToolId, ApprovalStatus, approval_status_eq, ApprovalProxyStatus, proxy_status_eq,
  ApprovalDecisionKind, ApprovalChannel, channel_eq, DateTime, Duration, ApprovalRequest,
}

pub record ApprovalMutationResult : Type 0 where
  pub accepted : Bool
  pub request : ApprovalRequest

abbrev pub has_id : String → ApprovalRequest → Bool
has_id id request = request.id == id

-- Replaces an existing request only while that is pending.
unfoldable pub upsert_request : List ApprovalRequest → ApprovalRequest → List ApprovalRequest
upsert_request requests request =
    if any (has_id request.id) requests
    then update_first (has_id request.id)
        (λ existing. if existing.status == ApprovalStatus.pending then request else existing)
        requests
    else requests ++ request ∷ []

-- The statuses in which a request can still be decided, here or in the tool.
abbrev pub is_open : ApprovalStatus → Bool
is_open ApprovalStatus.pending = true
is_open ApprovalStatus.returned_to_codex = true
is_open ApprovalStatus.returned_to_tool = true
is_open _ = false

unfoldable pub returned_status_for_tool : ToolId → ApprovalStatus
returned_status_for_tool ToolId.codex = ApprovalStatus.returned_to_codex
returned_status_for_tool ToolId.claude_code = ApprovalStatus.returned_to_tool
returned_status_for_tool (ToolId.custom value) = ApprovalStatus.returned_to_tool

unfoldable pub approval_tool_display_name : ToolId → String
approval_tool_display_name ToolId.codex = "Codex"
approval_tool_display_name ToolId.claude_code = "Claude Code"
approval_tool_display_name (ToolId.custom value) = value

-- `find_request_mut`: the request with the id, or the error of a missing one.
unfoldable pub find_request : List ApprovalRequest → String → Result ApprovalRequest
find_request requests request_id = elim (find? (has_id request_id) requests) [
  | none ↦ err (format ("授权请求不存在：" ∷ request_id ∷ []))
  | some request ↦ ok request
]

-- What the functions below share: change the request that `find_request_mut` borrows, in place.
unfoldable pub mutate_request :
    (ApprovalRequest → ApprovalMutationResult)
    → List ApprovalRequest
    → String
    → Result (List ApprovalRequest × ApprovalMutationResult)
mutate_request change requests request_id = elim (find_request requests request_id) [
  | err message ↦ err message
  | ok request ↦
      ok (
        update_first (has_id request_id) (λ found. (change found).request) requests,
        change request,
      )
]

abbrev pub refused : ApprovalRequest → ApprovalMutationResult
refused request = record { accepted = false; request = request }

abbrev pub accept : ApprovalRequest → ApprovalMutationResult
accept request = record { accepted = true; request = request }

abbrev pub decided_status : ApprovalDecisionKind → ApprovalStatus
decided_status ApprovalDecisionKind.allow = ApprovalStatus.allowed
decided_status ApprovalDecisionKind.deny = ApprovalStatus.denied

unfoldable pub decide_request :
    ApprovalDecisionKind
    → String
    → String
    → Option String
    → DateTime
    → ApprovalRequest
    → ApprovalMutationResult
decide_request decision decided_by decided_source reason now request =
    if not (is_open request.status)
    then refused request
    else accept (record request {
      status = decided_status decision;
      decided_by = some decided_by;
      decided_source = some decided_source;
      reason = reason;
      updated_at = now;
    })

unfoldable pub decide :
    List ApprovalRequest
    → String
    → ApprovalDecisionKind
    → String
    → String
    → Option String
    → DateTime
    → Result (List ApprovalRequest × ApprovalMutationResult)
decide requests request_id decision decided_by decided_source reason now =
    mutate_request (decide_request decision decided_by decided_source reason now) requests
      request_id

unfoldable pub return_request :
    String → String → String → DateTime → ApprovalRequest → ApprovalMutationResult
return_request returned_by returned_source reason now request =
    if not (request.status == ApprovalStatus.pending)
    then refused request
    else accept (record request {
      status = returned_status_for_tool request.tool;
      decided_by = some returned_by;
      decided_source = some returned_source;
      reason = some reason;
      updated_at = now;
    })

unfoldable pub return_to_codex :
    List ApprovalRequest
    → String
    → String
    → String
    → String
    → DateTime
    → Result (List ApprovalRequest × ApprovalMutationResult)
return_to_codex requests request_id returned_by returned_source reason now =
    mutate_request (return_request returned_by returned_source reason now) requests request_id

unfoldable pub resolve_request :
    String → Option String → DateTime → ApprovalRequest → ApprovalMutationResult
resolve_request resolved_by reason now request =
    if not (is_open request.status)
    then refused request
    else accept (record request {
      status = ApprovalStatus.resolved_in_tool;
      decided_by = some resolved_by;
      decided_source = some "tool_resolved";
      reason = reason;
      updated_at = now;
    })

unfoldable pub resolve_in_tool :
    List ApprovalRequest
    → String
    → String
    → Option String
    → DateTime
    → Result (List ApprovalRequest × ApprovalMutationResult)
resolve_in_tool requests request_id resolved_by reason now =
    mutate_request (resolve_request resolved_by reason now) requests request_id

unfoldable pub heartbeat_request : DateTime → ApprovalRequest → ApprovalMutationResult
heartbeat_request now request =
    if not (request.status == ApprovalStatus.pending)
    then refused request
    else accept (record request {
      proxy_status = ApprovalProxyStatus.active;
      last_heartbeat_at = some now;
      updated_at = now;
    })

unfoldable pub heartbeat_proxy :
    List ApprovalRequest
    → String
    → DateTime
    → Result (List ApprovalRequest × ApprovalMutationResult)
heartbeat_proxy requests request_id now = mutate_request (heartbeat_request now) requests request_id

-- The early returns of `return_stale_proxies_to_codex`: the proxy of the request is lost.
unfoldable pub is_stale_proxy : DateTime → Duration → ApprovalRequest → Bool
is_stale_proxy now stale_after request = elim request.last_heartbeat_at [
  | none ↦ false
  | some last_seen ↦
      request.status == ApprovalStatus.pending
      && (request.channel == ApprovalChannel.hook_proxy
          && (request.proxy_status == ApprovalProxyStatus.active
              && not (leb now (last_seen + stale_after))))
]

unfoldable pub lose_proxy : DateTime → ApprovalRequest → ApprovalRequest
lose_proxy now request = record request {
  status = returned_status_for_tool request.tool;
  proxy_status = ApprovalProxyStatus.lost;
  proxy_lost_at = some now;
  decided_by = some "hook-helper";
  decided_source = some "proxy_lost";
  reason =
      some (format ("hook 代理已失联，请回到 " ∷ approval_tool_display_name request.tool ∷ " 中操作" ∷ []));
  updated_at = now;
}

-- The loop over the requests: the list after, and the results in its order.
unfoldable pub return_stale_proxies_to_codex :
    List ApprovalRequest → DateTime → Duration → List ApprovalRequest × List ApprovalMutationResult
return_stale_proxies_to_codex [] now stale_after = ([], [])
return_stale_proxies_to_codex (request ∷ requests) now stale_after =
    let (rest, results) = return_stale_proxies_to_codex requests now stale_after in
    if is_stale_proxy now stale_after request
    then (lose_proxy now request ∷ rest, accept (lose_proxy now request) ∷ results)
    else (request ∷ rest, results)

-- ===== src/Store/Requests.antt =====
-- The methods of crates/niuma-core/src/store.rs that keep the approval requests.
use niu_ma_notifier.Prelude.{
  String, Option, List, find?, nat_eq, string_eq, option_eq, Result, ok, err,
}
use niu_ma_notifier.Models.{
  tool_eq, status_eq, ApprovalDecisionKind, DateTime, Duration, ApprovalRequest, StoredState,
}
use niu_ma_notifier.Approval.{
  ApprovalMutationResult, has_id, upsert_request, decide, return_to_codex, resolve_in_tool,
  heartbeat_proxy, return_stale_proxies_to_codex,
}
use niu_ma_notifier.Store.State.{RuntimeState}

unfoldable pub approval_request : RuntimeState → String → Option ApprovalRequest
approval_request runtime request_id = find? (has_id request_id) runtime.state.approval_requests

-- `runtime.state = state` with the requests of `state` replaced.
abbrev pub with_requests : RuntimeState → List ApprovalRequest → RuntimeState
with_requests runtime requests = record runtime {
  state = record runtime.state { approval_requests = requests };
}

unfoldable pub upsert_approval_request : RuntimeState → ApprovalRequest → RuntimeState × StoredState
upsert_approval_request runtime request =
    let after : RuntimeState =
      with_requests runtime (upsert_request runtime.state.approval_requests request) in
    (after, after.state)

-- The end of the four methods below: the error returns before the state is written.
abbrev pub store_requests :
    RuntimeState
    → Result (List ApprovalRequest × ApprovalMutationResult)
    → RuntimeState × Result ApprovalMutationResult
store_requests runtime (ok (requests, result)) = (with_requests runtime requests, ok result)
store_requests runtime (err message) = (runtime, err message)

unfoldable pub decide_approval :
    RuntimeState
    → String
    → ApprovalDecisionKind
    → String
    → String
    → Option String
    → DateTime
    → RuntimeState × Result ApprovalMutationResult
decide_approval runtime request_id decision decided_by decided_source reason now =
    store_requests runtime (
      decide runtime.state.approval_requests request_id decision decided_by decided_source reason
        now)

unfoldable pub return_approval_to_codex :
    RuntimeState
    → String
    → String
    → String
    → String
    → DateTime
    → RuntimeState × Result ApprovalMutationResult
return_approval_to_codex runtime request_id returned_by returned_source reason now =
    store_requests runtime (
      return_to_codex runtime.state.approval_requests request_id returned_by returned_source reason
        now)

unfoldable pub resolve_approval_in_tool :
    RuntimeState
    → String
    → String
    → Option String
    → DateTime
    → RuntimeState × Result ApprovalMutationResult
resolve_approval_in_tool runtime request_id resolved_by reason now =
    store_requests runtime
      (resolve_in_tool runtime.state.approval_requests request_id resolved_by reason now)

unfoldable pub heartbeat_approval_proxy :
    RuntimeState → String → DateTime → RuntimeState × Result ApprovalMutationResult
heartbeat_approval_proxy runtime request_id now =
    store_requests runtime (heartbeat_proxy runtime.state.approval_requests request_id now)

unfoldable pub return_stale_approval_proxies_to_codex :
    RuntimeState → DateTime → Duration → RuntimeState × List ApprovalMutationResult
return_stale_approval_proxies_to_codex runtime now stale_after =
    let (requests, results) =
      return_stale_proxies_to_codex runtime.state.approval_requests now stale_after in
    (with_requests runtime requests, results)

-- ===== src/Approval/Frame.antt =====
-- The operations on a list of requests: what they do to the request that they name, and that they
-- leave every other request alone.
use niu_ma_notifier.Prelude.Text.{format}
use niu_ma_notifier.Prelude.{
  String, ◌≡◌, ◌≢◌, refl, true, false, Option, none, some, List, [], ◌∷◌, map, arith, find?,
  update_first, Result, ok, err, find?-holds, find?-update_first, find?-update_first_ne,
  map-update_first, string_eq, eq_iff,
}
use niu_ma_notifier.Models.{approval_status_eq, ApprovalDecisionKind, DateTime, ApprovalRequest}
use niu_ma_notifier.Approval.{
  ApprovalMutationResult, has_id, find_request, mutate_request, decide_request, decide,
  return_request, return_to_codex, resolve_request, resolve_in_tool, heartbeat_request,
  heartbeat_proxy,
}
use niu_ma_notifier.Approval.Lifecycle.{
  ◌⟶◌, IsLawful, decide_request-IsLawful, return_request-IsLawful, resolve_request-IsLawful,
  heartbeat_request-IsLawful,
}

-- The operations that name a request.
pub data Operation : Type 0 where
  decides : ApprovalDecisionKind → String → String → Option String → DateTime → Operation
  returns : String → String → String → DateTime → Operation
  resolves : String → Option String → DateTime → Operation
  beats : DateTime → Operation

unfoldable pub change_of : Operation → ApprovalRequest → ApprovalMutationResult
change_of (decides d by source reason now) = decide_request d by source reason now
change_of (returns by source reason now) = return_request by source reason now
change_of (resolves by reason now) = resolve_request by reason now
change_of (beats now) = heartbeat_request now

unfoldable pub perform :
    Operation
    → List ApprovalRequest
    → String
    → Result (List ApprovalRequest × ApprovalMutationResult)
perform (decides d by source reason now) requests id = decide requests id d by source reason now
perform (returns by source reason now) requests id =
    return_to_codex requests id by source reason now
perform (resolves by reason now) requests id = resolve_in_tool requests id by reason now
perform (beats now) requests id = heartbeat_proxy requests id now

pub change_of-IsLawful : (op : Operation) → IsLawful (change_of op)
unfolding change_of
change_of-IsLawful (decides d by source reason now) = decide_request-IsLawful d by source reason now
change_of-IsLawful (returns by source reason now) = return_request-IsLawful by source reason now
change_of-IsLawful (resolves by reason now) = resolve_request-IsLawful by reason now
change_of-IsLawful (beats now) = heartbeat_request-IsLawful now

perform-mutate :
    (op : Operation) (requests : List ApprovalRequest) (id : String)
    → perform op requests id ≡ mutate_request (change_of op) requests id
unfolding perform change_of decide return_to_codex resolve_in_tool heartbeat_proxy
perform-mutate (decides d by source reason now) requests id = refl
perform-mutate (returns by source reason now) requests id = refl
perform-mutate (resolves by reason now) requests id = refl
perform-mutate (beats now) requests id = refl

-- The list after an operation that found its request.
abbrev pub changed : Operation → String → List ApprovalRequest → List ApprovalRequest
changed op id = update_first (has_id id) (λ found. (change_of op found).request)

-- An operation on a missing id fails with the id in its message.
pub perform_missing :
    (op : Operation) (requests : List ApprovalRequest) (id : String)
    → find? (has_id id) requests ≡ none
    → perform op requests id ≡ err (format ("授权请求不存在：" ∷ id ∷ []))
unfolding mutate_request find_request
perform_missing op requests id h =
    rw (perform-mutate op requests id) (rw (h, mutate_request, find_request))

pub perform_found :
    (op : Operation) (requests : List ApprovalRequest) (id : String) (r : ApprovalRequest)
    → find? (has_id id) requests ≡ some r
    → perform op requests id ≡ ok (changed op id requests, change_of op r)
unfolding mutate_request find_request
perform_found op requests id r h =
    rw (perform-mutate op requests id) (rw (h, mutate_request, find_request))

pub found_after :
    (op : Operation) (requests : List ApprovalRequest) (id : String) (r : ApprovalRequest)
    → find? (has_id id) requests ≡ some r
    → find? (has_id id) (changed op id requests) ≡ some (change_of op r).request
found_after op requests id r h =
    find?-update_first (has_id id) (λ found. (change_of op found).request) requests h
      (rw ((change_of-IsLawful op).identity r) (find?-holds (has_id id) requests h))

pub other_after :
    (op : Operation) (requests : List ApprovalRequest) (id j : String)
    → id ≢ j
    → find? (has_id j) (changed op id requests) ≡ find? (has_id j) requests
other_after op requests id j ne =
    find?-update_first_ne (has_id j) (has_id id) (λ found. (change_of op found).request) requests
      (λ x m. other x m) (λ x m. rw ((change_of-IsLawful op).identity x) (other x m))
  where
    other : (x : ApprovalRequest) → has_id id x ≡ true → has_id j x ≡ false
    other x m = ground (arith, eq_iff x.id id, eq_iff x.id j)

-- An operation on a request that is there succeeds. It answers with the request as it is
-- afterwards, which has moved along the state machine and is the one found under its id; any other
-- id `j` finds what it found before, and the ids of the list are the same.
pub perform_frame :
    (op : Operation) (requests : List ApprovalRequest) (id j : String) (r : ApprovalRequest)
    → find? (has_id id) requests ≡ some r
    → id ≢ j
    → (after : List ApprovalRequest) × (result : ApprovalMutationResult) × (perform op requests id
        ≡ ok (after, result))
      × (r.status ⟶ result.request.status)
      × (find? (has_id id) after ≡ some result.request)
      × (find? (has_id j) after ≡ find? (has_id j) requests)
      × (map (λ (x : ApprovalRequest). x.id) after ≡ map (λ (x : ApprovalRequest). x.id) requests)
perform_frame op requests id j r h ne = (
  changed op id requests,
  change_of op r,
  perform_found op requests id r h,
  (change_of-IsLawful op).moves r,
  found_after op requests id r h,
  other_after op requests id j ne,
  map-update_first (λ x. x.id) (has_id id) _ requests (λ x m. (change_of-IsLawful op).identity x),
)

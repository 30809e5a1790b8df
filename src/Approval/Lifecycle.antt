-- ===== src/Approval/Lifecycle.antt =====
-- The statuses of a request as a state machine, and what each operation may do in it.
use niu_ma_notifier.Prelude.{
  String, ◌≡◌, ◌≢◌, refl, Bool, true, false, not, Option, arith, if◌then◌else◌, ◌==◌, string_eq,
}
use niu_ma_notifier.Models.{
  ToolId, ApprovalStatus, approval_status_eq, ApprovalDecisionKind, DateTime, ApprovalRequest,
}
use niu_ma_notifier.Approval.{
  ApprovalMutationResult, is_open, returned_status_for_tool, refused, accept, decided_status,
  decide_request, return_request, resolve_request, heartbeat_request,
}

-- The moves of a request. Allowed, denied and resolved requests have none but `stay`.
infix 40 ◌⟶◌
pub data ◌⟶◌ : ApprovalStatus → ApprovalStatus → Type 0 where
  stay : {s : ApprovalStatus} → s ⟶ s
  close : (s u : ApprovalStatus) → is_open s ≡ true → is_open u ≡ false → s ⟶ u
  hand_back :
      (u : ApprovalStatus)
      → is_open u ≡ true
      → u ≢ ApprovalStatus.pending
      → ApprovalStatus.pending ⟶ u

pub final_stays : {s u : ApprovalStatus} → s ⟶ u → is_open s ≡ false → u ≡ s
final_stays stay h = refl
final_stays (close s u o c) h = ground arith
final_stays (hand_back u o n) h = cc

-- What an operation does to the request that it names: a move, made exactly if it is accepted,
-- with the fields that say which request it is unchanged.
pub record IsLawful (change : ApprovalRequest → ApprovalMutationResult) : Type 0 where
  pub moves : (r : ApprovalRequest) → r.status ⟶ (change r).request.status
  pub refusal : (r : ApprovalRequest) → (change r).accepted ≡ false → (change r).request ≡ r
  pub identity : (r : ApprovalRequest) → (change r).request.id ≡ r.id
  pub final : (r : ApprovalRequest) → is_open r.status ≡ false → (change r).accepted ≡ false

if_moves :
    (b : Bool) (r q : ApprovalRequest)
    → (b ≡ false → r.status ⟶ q.status)
    → r.status ⟶ (if b then refused r else accept q).request.status
if_moves true r q h = stay
if_moves false r q h = h refl

pub decide_request-IsLawful :
    (d : ApprovalDecisionKind) (by source : String) (reason : Option String) (now : DateTime)
    → IsLawful (decide_request d by source reason now)
unfolding decide_request
decide_request-IsLawful d by source reason now = record {
  moves = λ r.
      if_moves (not (is_open r.status)) r _
        (λ h. close r.status (decided_status d) (ground arith) (ground arith));
  refusal = λ r h. ground arith;
  identity = λ r. ground arith;
  final = λ r h. ground arith;
}

pub resolve_request-IsLawful :
    (by : String) (reason : Option String) (now : DateTime)
    → IsLawful (resolve_request by reason now)
unfolding resolve_request
resolve_request-IsLawful by reason now = record {
  moves = λ r.
      if_moves (not (is_open r.status)) r _
        (λ h. close r.status ApprovalStatus.resolved_in_tool (ground arith) (ground arith));
  refusal = λ r h. ground arith;
  identity = λ r. ground arith;
  final = λ r h. ground arith;
}

hand_back_at :
    (s u : ApprovalStatus)
    → s ≡ ApprovalStatus.pending
    → is_open u ≡ true
    → u ≢ ApprovalStatus.pending
    → s ⟶ u
hand_back_at s u e o n = rw e (hand_back u o n)

returned_is_open : (t : ToolId) → is_open (returned_status_for_tool t) ≡ true
unfolding returned_status_for_tool
returned_is_open t = ground arith

returned_ne_pending : (t : ToolId) → returned_status_for_tool t ≢ ApprovalStatus.pending
unfolding returned_status_for_tool
returned_ne_pending t h = ground arith

pub return_request-IsLawful :
    (by source reason : String) (now : DateTime) → IsLawful (return_request by source reason now)
unfolding return_request
return_request-IsLawful by source reason now = record {
  moves = λ r. if_moves (not (r.status == ApprovalStatus.pending)) r _ (λ h.
      hand_back_at r.status (returned_status_for_tool r.tool) (ground arith)
        (returned_is_open r.tool) (returned_ne_pending r.tool));
  refusal = λ r h. ground arith;
  identity = λ r. ground arith;
  final = λ r h. ground arith;
}

same_status : {s u : ApprovalStatus} → u ≡ s → s ⟶ u
same_status e = rw e stay

pub heartbeat_request-IsLawful : (now : DateTime) → IsLawful (heartbeat_request now)
unfolding heartbeat_request
heartbeat_request-IsLawful now = record {
  moves = λ r. same_status (ground arith);
  refusal = λ r h. ground arith;
  identity = λ r. ground arith;
  final = λ r h. ground arith;
}

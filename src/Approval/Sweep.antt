-- ===== src/Approval/Sweep.antt =====
-- What the sweep takes back from lost hook proxies, told apart from how it tests for them.
use niu_ma_notifier.Prelude.{
  ◌+◌, ◌<◌, ◌≡◌, refl, ◌⊎◌, inl, inr, true, some, List, [], ◌∷◌, arith, Bool-cases, Option-cases,
}
use niu_ma_notifier.Models.{
  ToolId, ApprovalStatus, approval_status_eq, ApprovalChannel, ApprovalProxyStatus, DateTime,
  Duration, ApprovalRequest,
}
use niu_ma_notifier.Approval.{
  ApprovalMutationResult, is_stale_proxy, lose_proxy, return_stale_proxies_to_codex,
  returned_status_for_tool,
}

-- The request still waits for its hook, and the hook was last heard from too long ago.
pub record IsLost (now : DateTime) (stale_after : Duration) (r : ApprovalRequest) : Type 0 where
  pub last_seen : DateTime
  pub heard : r.last_heartbeat_at ≡ some last_seen
  pub waits : r.status ≡ ApprovalStatus.pending
  pub hooked : r.channel ≡ ApprovalChannel.hook_proxy
  pub active : r.proxy_status ≡ ApprovalProxyStatus.active
  pub silent : last_seen + stale_after < now

-- The status of a request that is back with its tool.
abbrev pub back_with : ToolId → ApprovalStatus
back_with ToolId.codex = ApprovalStatus.returned_to_codex
back_with _ = ApprovalStatus.returned_to_tool

-- The request `q` is `r` after it was taken back at `now`, with some reason.
abbrev pub IsTakenBack : DateTime → ApprovalRequest → ApprovalRequest → Type 0
IsTakenBack now r q = q ≡ record r {
  status = back_with r.tool;
  proxy_status = ApprovalProxyStatus.lost;
  proxy_lost_at = some now;
  decided_by = some "hook-helper";
  decided_source = some "proxy_lost";
  reason = q.reason;
  updated_at = now;
}

-- Request by request: one that is not lost is kept and not answered with; one that is lost is taken
-- back and answered with.
abbrev pub IsSwept :
    DateTime
    → Duration
    → List ApprovalRequest
    → List ApprovalRequest
    → List ApprovalMutationResult
    → Type 0
IsSwept now stale_after [] after results = (after ≡ []) × (results ≡ [])
IsSwept now stale_after (r ∷ rs) after results =
    (q : ApprovalRequest) × (rest : List ApprovalRequest) × (after ≡ q ∷ rest)
    × (((¬ IsLost now stale_after r) × (q ≡ r) × IsSwept now stale_after rs rest results)
        ⊎ ((more : List ApprovalMutationResult) × IsLost now stale_after r
            × IsTakenBack now r q
            × (results ≡ record { accepted = true; request = q } ∷ more)
            × IsSwept now stale_after rs rest more))

module _ (now : DateTime) (stale_after : Duration) where
  IsLost-of_stale :
      (r : ApprovalRequest) → is_stale_proxy now stale_after r ≡ true → IsLost now stale_after r
  unfolding is_stale_proxy
  IsLost-of_stale r h = elim (Option-cases r.last_heartbeat_at) [
    | inl e ↦ absurd (ground (arith, e, h))
    | inr (seen, e) ↦ record {
      last_seen = seen;
      heard = e;
      waits = ground (arith, e, h);
      hooked = ground (arith, e, h);
      active = ground (arith, e, h);
      silent = ground (arith, e, h);
    }
  ]

  stale-of_lost :
      (r : ApprovalRequest) → IsLost now stale_after r → is_stale_proxy now stale_after r ≡ true
  unfolding is_stale_proxy
  stale-of_lost r v =
      rw (v.heard, is_stale_proxy) (rw (v.waits, v.hooked, v.active) (ground (arith, v.silent)))

  taken_back : (r : ApprovalRequest) → IsTakenBack now r (lose_proxy now r)
  unfolding lose_proxy returned_status_for_tool
  taken_back r = ground arith

  -- The sweep keeps the order of the requests. It leaves a request as it is and does not answer with
  -- it, unless the request is pending in an active hook proxy that was last heard from longer ago
  -- than `stale_after`; such a request gets the returned status of its tool, its proxy becomes lost
  -- at `now`, and the answers hold it as accepted, in the order of the requests. Of a request that
  -- is taken back nothing else changes but who decided it, the reason and the time of the update.
  pub sweep_lem :
      (requests : List ApprovalRequest)
      → let (after, results) = return_stale_proxies_to_codex requests now stale_after in
        IsSwept now stale_after requests after results
  unfolding return_stale_proxies_to_codex
  sweep_lem [] = (refl, refl)
  sweep_lem (r ∷ rs) = elim (Bool-cases (is_stale_proxy now stale_after r)) [
    | inl h ↦
        rw (h, return_stale_proxies_to_codex)
          (
            lose_proxy now r,
            (return_stale_proxies_to_codex rs now stale_after).0,
            refl,
            inr (
              (return_stale_proxies_to_codex rs now stale_after).1,
              IsLost-of_stale r h,
              taken_back r,
              refl,
              sweep_lem rs,
            ),
          )
    | inr h ↦
        rw (h, return_stale_proxies_to_codex)
          (
            r,
            (return_stale_proxies_to_codex rs now stale_after).0,
            refl,
            inl (λ v. ground (arith, h, stale-of_lost r v), refl, sweep_lem rs),
          )
  ]

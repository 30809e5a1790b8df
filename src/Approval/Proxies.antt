-- ===== src/Approval/Proxies.antt =====
-- The sweep that takes requests back from lost hook proxies, and the finality of a decision over
-- every history of calls.
use niu_ma_notifier.Prelude.{
  ◌+◌, ◌≤◌, String, ◌≡◌, refl, ap, ◌∙◌, inl, inr, true, false, some, List, [], ◌∷◌, ◌++◌, map,
  arith, if◌then◌else◌, find?, any, retain, update_first, Option-cases, Bool-cases, ◌==◌, Result,
  ok, err, find?-holds, find?-map, find?-update_first, find?-update_first_ne, find?-append_ne,
  string_eq, eq_iff, is_some-find?,
}
use niu_ma_notifier.Models.{ApprovalStatus, approval_status_eq, DateTime, Duration, ApprovalRequest}
use niu_ma_notifier.Approval.{
  ApprovalMutationResult, has_id, is_open, accept, upsert_request, is_stale_proxy, lose_proxy,
  return_stale_proxies_to_codex, returned_status_for_tool,
}
use niu_ma_notifier.Approval.Frame.{
  Operation, perform, perform_missing, change_of-IsLawful, changed, perform_found, found_after,
  other_after,
}

abbrev pub swept : DateTime → Duration → ApprovalRequest → ApprovalRequest
swept now stale_after r = if is_stale_proxy now stale_after r then lose_proxy now r else r

module _ (now : DateTime) (stale_after : Duration) where
  -- The loop as a map and a filter.
  sweep-map :
      (requests : List ApprovalRequest)
      → return_stale_proxies_to_codex requests now stale_after ≡ (
        map (swept now stale_after) requests,
        map (λ r. accept (lose_proxy now r)) (retain (is_stale_proxy now stale_after) requests),
      )
  unfolding return_stale_proxies_to_codex retain
  sweep-map [] = refl
  sweep-map (r ∷ rs) = ground (arith, sweep-map rs)

  lost_not_stale :
      (later : DateTime) (d : Duration) (r : ApprovalRequest)
      → is_stale_proxy later d (lose_proxy now r) ≡ false
  unfolding is_stale_proxy lose_proxy returned_status_for_tool
  lost_not_stale later d r = ground arith

  -- A second sweep at the same time finds nothing and changes nothing.
  pub sweep_twice :
      (requests : List ApprovalRequest)
      → return_stale_proxies_to_codex
          (return_stale_proxies_to_codex requests now stale_after).0
          now
          stale_after
        ≡ ((return_stale_proxies_to_codex requests now stale_after).0, [])
  unfolding return_stale_proxies_to_codex
  sweep_twice [] = refl
  sweep_twice (r ∷ rs) = ground (arith, sweep_twice rs, lost_not_stale now stale_after r)

  pub sweep_final : (r : ApprovalRequest) → is_open r.status ≡ false → swept now stale_after r ≡ r
  unfolding is_stale_proxy
  sweep_final r h = ground arith

  swept_id : (id : String) (r : ApprovalRequest) → has_id id (swept now stale_after r) ≡ has_id id r
  unfolding lose_proxy
  swept_id id r = ground arith

  find?-sweep :
      (id : String) (requests : List ApprovalRequest) (r : ApprovalRequest)
      → find? (has_id id) requests ≡ some r
      → is_open r.status ≡ false
      → find? (has_id id) (return_stale_proxies_to_codex requests now stale_after).0 ≡ some r
  find?-sweep id requests r h c = rw (sweep-map requests) (
      rw (find?-map (has_id id) (has_id id) (swept now stale_after) requests (swept_id id), h)
        (ap some (sweep_final r c)))

-- A request that was heard from within `stale_after` is never taken from its proxy.
pub fresh_proxy_kept :
    (now : DateTime) (stale_after : Duration) (r : ApprovalRequest) (seen : DateTime)
    → r.last_heartbeat_at ≡ some seen
    → now ≤ seen + stale_after
    → is_stale_proxy now stale_after r ≡ false
unfolding is_stale_proxy
fresh_proxy_kept now stale_after r seen e h = ground arith

-- What the store does with its requests. A call that fails leaves them as they were.
pub data Call : Type 0 where
  operation : Operation → String → Call
  upserts : ApprovalRequest → Call
  sweeps : DateTime → Duration → Call

abbrev pub after_operation :
    List ApprovalRequest
    → Result (List ApprovalRequest × ApprovalMutationResult)
    → List ApprovalRequest
after_operation requests (ok (after, result)) = after
after_operation requests (err message) = requests

unfoldable pub call : List ApprovalRequest → Call → List ApprovalRequest
call requests (operation op id) = after_operation requests (perform op requests id)
call requests (upserts request) = upsert_request requests request
call requests (sweeps now stale_after) = (return_stale_proxies_to_codex requests now stale_after).0

unfoldable pub run_calls : List ApprovalRequest → List Call → List ApprovalRequest
run_calls requests [] = requests
run_calls requests (c ∷ cs) = run_calls (call requests c) cs

module _ (id : String) (r : ApprovalRequest) (closed : is_open r.status ≡ false) where
  operation_final :
      (requests : List ApprovalRequest) (op : Operation) (j : String) (q : ApprovalRequest)
      → find? (has_id id) requests ≡ some r
      → find? (has_id j) requests ≡ some q
      → find? (has_id id) (changed op j requests) ≡ some r
  operation_final requests op j q h k = elim (Bool-cases (j == id)) [
    | inr ne ↦ other_after op requests j id (λ e. ground (arith, eq_iff j id)) ∙ h
    | inl eq ↦
        let e : j ≡ id = (eq_iff j id).0 eq in
        rw e (
          found_after op requests id r h
          ∙ ap some ((change_of-IsLawful op).refusal r ((change_of-IsLawful op).final r closed)))
  ]

  not_pending :
      (request : ApprovalRequest) → (if r.status == ApprovalStatus.pending then request else r) ≡ r
  not_pending request = ground arith

  replace : ApprovalRequest → ApprovalRequest → ApprovalRequest
  replace request existing = if existing.status == ApprovalStatus.pending then request else existing

  upsert_self :
      (requests : List ApprovalRequest) (request : ApprovalRequest) (key : String)
      → key ≡ id
      → find? (has_id id) requests ≡ some r
      → find? (has_id id) (
          if any (has_id key) requests
          then update_first (has_id key) (replace request) requests
          else requests ++ request ∷ [])
        ≡ some r
  unfolding replace
  upsert_self requests request key e h =
      let k : any (has_id id) requests ≡ true =
        ground (arith, is_some-find? (has_id id) requests) in
      rw (e, k)
        (find?-update_first (has_id id) (replace request) requests h
            (rw (not_pending request) (find?-holds (has_id id) requests h))
          ∙ ap some (not_pending request))

  upsert_ne :
      (requests : List ApprovalRequest) (request : ApprovalRequest)
      → (request.id == id) ≡ false
      → find? (has_id id) requests ≡ some r
      → find? (has_id id) (upsert_request requests request) ≡ some r
  unfolding upsert_request any replace
  upsert_ne requests request ne h = ground (
    arith,
    find?-update_first_ne (has_id id) (has_id request.id) (replace request) requests other
        (λ x m. ground (arith, other x)),
    find?-append_ne (has_id id) requests (request ∷ []),
  )
    where
      other : (x : ApprovalRequest) → has_id request.id x ≡ true → has_id id x ≡ false
      other x m = ground (arith, eq_iff x.id request.id, eq_iff x.id id, eq_iff request.id id)

  upsert_final :
      (requests : List ApprovalRequest) (request : ApprovalRequest)
      → find? (has_id id) requests ≡ some r
      → find? (has_id id) (upsert_request requests request) ≡ some r
  unfolding upsert_request replace
  upsert_final requests request h = elim (Bool-cases (request.id == id)) [
    | inl eq ↦ upsert_self requests request request.id ((eq_iff request.id id).0 eq) h
    | inr ne ↦ upsert_ne requests request ne h
  ]

  call_final :
      (requests : List ApprovalRequest) (c : Call)
      → find? (has_id id) requests ≡ some r
      → find? (has_id id) (call requests c) ≡ some r
  unfolding call
  call_final requests (operation op j) h = elim (Option-cases (find? (has_id j) requests)) [
    | inl k ↦ rw (perform_missing op requests j k) h
    | inr (q, k) ↦ rw (perform_found op requests j q k) (operation_final requests op j q h k)
  ]
  call_final requests (upserts request) h = upsert_final requests request h
  call_final requests (sweeps now stale_after) h =
      find?-sweep now stale_after id requests r h closed

  -- Once the request found under an id is allowed, denied or resolved in the tool, no history of
  -- decisions, returns, resolutions, heartbeats, upserts and sweeps changes what is found there.
  pub decision_final :
      (requests : List ApprovalRequest) (cs : List Call)
      → find? (has_id id) requests ≡ some r
      → find? (has_id id) (run_calls requests cs) ≡ some r
  unfolding run_calls
  decision_final requests [] h = h
  decision_final requests (c ∷ cs) h = decision_final (call requests c) cs (call_final requests c h)

-- ===== src/Witnesses/Approvals.antt =====
-- The approvals, and the arbitration between hooks and watchers.
use niu_ma_notifier.Prelude.HashMap
use niu_ma_notifier.Prelude.{
  String, ◌≡◌, refl, false, none, some, List, [], ◌∷◌, map, arith, find?, retain, ok, string_eq,
  eq_iff, any,
}
use niu_ma_notifier.Models.{
  ApprovalStatus, approval_status_eq, ApprovalDecisionKind, ApprovalRequest, DateTime,
}
use niu_ma_notifier.Approval.{ApprovalMutationResult, has_id, return_stale_proxies_to_codex}
use niu_ma_notifier.Approval.Lifecycle.{◌⟶◌}
use niu_ma_notifier.Approval.Frame.{Operation, perform, perform_frame}
use niu_ma_notifier.Approval.Proxies.{Call, run_calls, decision_final}
use niu_ma_notifier.Approval.Sweep.{IsSwept, sweep_lem}
use niu_ma_notifier.Arbiter.{
  default_arbiter, on_hook_approval, missed, ApprovalArbiter, ApprovalFingerprint,
  ApprovalFingerprintBasis, ApprovalEmissionSource, HookCapability, PendingWatcherApproval,
  WatcherApprovalDecision, ExpiredWatcherApproval, is_proxy, taken_over, prune_recent, is_recent,
  record_emission, capability_for_scope, effective_capability, watcher_by_capability,
  on_proxy_approval, on_watcher_approval, expire_candidate,
}
use niu_ma_notifier.Arbiter.Calls.{announced}
use niu_ma_notifier.Arbiter.Calls
use niu_ma_notifier.Arbiter.Takeover.{no_fallback_after_takeover}
use niu_ma_notifier.Arbiter.Fallback.{delayed_is_announced}
use niu_ma_notifier.Arbiter.Calls.{run}
use niu_ma_notifier.Arbiter.GivenUp.{missed_twice}
use niu_ma_notifier.Witnesses.Data.{request_of, requests, asked, started}

abbrev allow : Operation
allow = Operation.decides ApprovalDecisionKind.allow "me" "ui" none 7

decision_final_example :
    find? (has_id "d") (
      run_calls requests (
        Call.operation allow "d"
        ∷ Call.upserts (request_of "d" ApprovalStatus.pending)
        ∷ Call.sweeps 1000 10
        ∷ []))
    ≡ some (request_of "d" ApprovalStatus.denied)
unfolding find?
decision_final_example =
    decision_final "d" (request_of "d" ApprovalStatus.denied) refl requests
      (Call.operation allow "d"
        ∷ Call.upserts (request_of "d" ApprovalStatus.pending)
        ∷ Call.sweeps 1000 10
        ∷ [])
      refl

perform_frame_example :
    (after : List ApprovalRequest) × (result : ApprovalMutationResult) × (perform allow requests "p"
      ≡ ok (after, result))
    × (ApprovalStatus.pending ⟶ result.request.status)
    × (find? (has_id "p") after ≡ some result.request)
    × (find? (has_id "d") after ≡ find? (has_id "d") requests)
    × (map (λ (x : ApprovalRequest). x.id) after ≡ map (λ (x : ApprovalRequest). x.id) requests)
unfolding find?
perform_frame_example =
    perform_frame allow requests "p" "d" (request_of "p" ApprovalStatus.pending) refl
      (λ e. ground (arith, eq_iff "p" "d"))

sweep_lem_example :
    let (after, results) = return_stale_proxies_to_codex requests 1000 10 in
    IsSwept 1000 10 requests after results
sweep_lem_example = sweep_lem 1000 10 requests

abbrev fingerprint : String → ApprovalFingerprint
fingerprint key = record {
  key = key;
  project_path = "/work";
  session_id = some "s";
  basis = ApprovalFingerprintBasis.command;
}

abbrev new_arbiter : ApprovalArbiter
new_arbiter = record { capabilities = []; pending_candidates = []; recent_emissions = [] }

no_fallback_after_takeover_example :
    announced "k"
      (on_proxy_approval new_arbiter (fingerprint "k") ApprovalEmissionSource.hook 100).0
      ((Calls.watcher_call (fingerprint "k") asked, 200)
        ∷ (Calls.expire_call (fingerprint "k"), 300)
        ∷ [])
    ≡ false
unfolding is_proxy
no_fallback_after_takeover_example =
    no_fallback_after_takeover new_arbiter (fingerprint "k") ApprovalEmissionSource.hook 100
      ((Calls.watcher_call (fingerprint "k") asked, 200)
        ∷ (Calls.expire_call (fingerprint "k"), 300)
        ∷ [])
      refl (omega arith, (omega arith, tt))

abbrev earlier : List (Calls.Call × DateTime)
earlier = (Calls.watcher_call (fingerprint "old") started, 50) ∷ []

-- Another approval is taken over, and another one is cancelled.
abbrev meanwhile : List (Calls.Call × DateTime)
meanwhile =
    (Calls.hook_call (fingerprint "other"), 200) ∷ (Calls.cancel_call "approval:old", 250) ∷ []

delayed_is_announced_example :
    (expire_candidate
      (run
        (on_watcher_approval (run default_arbiter earlier) (fingerprint "k") asked 100).0
        meanwhile)
      (fingerprint "k")
      300).1
    ≡ some (ExpiredWatcherApproval.emit asked)
unfolding on_watcher_approval taken_over any prune_recent retain watcher_by_capability
    capability_for_scope effective_capability HashMap.get HashMap.insert run default_arbiter
    Calls.call
delayed_is_announced_example =
    delayed_is_announced earlier (fingerprint "k") asked 100 300 meanwhile refl (refl, (refl, tt))

abbrev pending_approval : String → PendingWatcherApproval
pending_approval key = record { fingerprint = fingerprint key; event = asked; created_at = 100 }

abbrev missing_arbiter : ApprovalArbiter
missing_arbiter = record {
  capabilities = ("/work", HookCapability.active 50 0) ∷ [];
  pending_candidates = ("k", pending_approval "k") ∷ ("l", pending_approval "l") ∷ [];
  recent_emissions = [];
}

-- A hook of another project is seen meanwhile, and the watcher sees another approval.
abbrev spared : List (Calls.Call × DateTime)
spared =
    (Calls.watcher_call (fingerprint "n") asked, 350)
    ∷ (Calls.hook_call (record (fingerprint "o") { project_path = "/other" }), 360)
    ∷ []

missed_twice_example :
    (on_watcher_approval
      (run
        (expire_candidate
          (expire_candidate missing_arbiter (fingerprint "k") 200).0
          (fingerprint "l")
          300).0
        spared)
      (fingerprint "m")
      asked
      400).1
    ≡ WatcherApprovalDecision.emit_now asked
unfolding HashMap.get expire_candidate prune_recent record_emission capability_for_scope
    HashMap.remove taken_over any retain is_recent run Calls.call on_watcher_approval
    watcher_by_capability effective_capability missed HashMap.insert on_hook_approval
    on_proxy_approval is_proxy
missed_twice_example =
    missed_twice missing_arbiter (fingerprint "k") (fingerprint "l") (fingerprint "m")
      (pending_approval "k") (pending_approval "l") asked 50 200 300 400 spared refl refl refl refl
      refl (omega arith) (omega arith) (omega arith)
      ((refl, omega arith, omega arith), ((refl, omega arith, omega arith), tt)) refl

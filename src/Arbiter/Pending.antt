-- ===== src/Arbiter/Pending.antt =====
-- The keys of the map of the approvals that wait for their expiry.
use niu_ma_notifier.Prelude.HashMap
use niu_ma_notifier.Prelude.HashMap.{
  get-insert, get-remove, UniqueKeys, insert-UniqueKeys, remove-UniqueKeys, found-get,
}
use niu_ma_notifier.Prelude.{
  String, inl, inr, Bool-cases, Option-cases, option_eq, find?, List, [], ◌∷◌, string_eq,
}
use niu_ma_notifier.Models.{NiumaEvent, DateTime}
use niu_ma_notifier.Arbiter.{
  unknown, has_resolve_key, cancel_pending_by_attention_resolve_key, ApprovalArbiter,
  ApprovalFingerprint, HookCapability, active, inactive, prune_recent, record_emission,
  capability_for_scope, effective_capability, missed, taken_over, watcher_by_capability,
  on_watcher_approval, on_proxy_approval, on_hook_approval, on_relay_approval, expire_candidate,
}
use niu_ma_notifier.Arbiter.Calls.{
  run, Call, watcher_call, hook_call, relay_call, expire_call, cancel_call, call,
}

pub watcher-UniqueKeys :
    (a : ApprovalArbiter) (fp : ApprovalFingerprint) (ev : NiumaEvent) (now : DateTime)
    → UniqueKeys a.pending_candidates
    → UniqueKeys (on_watcher_approval a fp ev now).0.pending_candidates
unfolding on_watcher_approval prune_recent watcher_by_capability record_emission
    capability_for_scope
watcher-UniqueKeys a fp ev now u =
    elim (Bool-cases (taken_over fp.key (prune_recent a now).recent_emissions)) [
      | inl t ↦ rw t u
      | inr t ↦
          rw t
            (by_capability (effective_capability (HashMap.get a.capabilities fp.project_path) now))
    ]
  where
    checked : ApprovalArbiter
    checked = (capability_for_scope (prune_recent a now) fp.project_path now).0

    by_capability :
        (c : HookCapability)
        → UniqueKeys (watcher_by_capability checked c fp ev now).0.pending_candidates
    by_capability unknown = insert-UniqueKeys a.pending_candidates fp.key _ u
    by_capability (active seen missed) = insert-UniqueKeys a.pending_candidates fp.key _ u
    by_capability (inactive since) = u

expire-UniqueKeys :
    (a : ApprovalArbiter) (fp : ApprovalFingerprint) (now : DateTime)
    → UniqueKeys a.pending_candidates
    → UniqueKeys (expire_candidate a fp now).0.pending_candidates
unfolding expire_candidate prune_recent record_emission capability_for_scope
expire-UniqueKeys a fp now u = elim (Option-cases (HashMap.get a.pending_candidates fp.key)) [
  | inl e ↦ rw (e, expire_candidate) u
  | inr (p, e) ↦ rw (e, expire_candidate) (remove-UniqueKeys a.pending_candidates fp.key u)
]

cancel-UniqueKeys :
    (a : ApprovalArbiter) (k : String)
    → UniqueKeys a.pending_candidates
    → UniqueKeys (cancel_pending_by_attention_resolve_key a k).0.pending_candidates
unfolding cancel_pending_by_attention_resolve_key
cancel-UniqueKeys a k u = elim (Option-cases (find? (has_resolve_key k) a.pending_candidates)) [
  | inl e ↦ rw (e, cancel_pending_by_attention_resolve_key) u
  | inr (entry, e) ↦
      rw (e, cancel_pending_by_attention_resolve_key)
        (remove-UniqueKeys a.pending_candidates entry.0 u)
]

-- No call gives a key of the pending approvals two entries.
pub call-UniqueKeys :
    (a : ApprovalArbiter) (c : Call) (now : DateTime)
    → UniqueKeys a.pending_candidates
    → UniqueKeys (call a c now).pending_candidates
unfolding call on_hook_approval on_relay_approval on_proxy_approval prune_recent record_emission
call-UniqueKeys a (watcher_call fp ev) now u = watcher-UniqueKeys a fp ev now u
call-UniqueKeys a (hook_call fp) now u = remove-UniqueKeys a.pending_candidates fp.key u
call-UniqueKeys a (relay_call fp) now u = remove-UniqueKeys a.pending_candidates fp.key u
call-UniqueKeys a (expire_call fp) now u = expire-UniqueKeys a fp now u
call-UniqueKeys a (cancel_call k) now u = cancel-UniqueKeys a k u

pub run-UniqueKeys :
    (a : ApprovalArbiter) (cs : List (Call × DateTime))
    → UniqueKeys a.pending_candidates
    → UniqueKeys (run a cs).pending_candidates
unfolding run
run-UniqueKeys a [] u = u
run-UniqueKeys a ((c, now) ∷ cs) u = run-UniqueKeys (call a c now) cs (call-UniqueKeys a c now u)

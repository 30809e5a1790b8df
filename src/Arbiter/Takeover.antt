-- ===== src/Arbiter/Takeover.antt =====
-- The approvals that a hook or a relay takes over.
use niu_ma_notifier.Prelude.HashMap.{get-remove}
use niu_ma_notifier.Prelude.{
  ◌+◌, ◌≤◌, String, ◌≡◌, refl, inl, inr, true, false, ◌&&◌, List, [], ◌∷◌, ◌++◌, arith, any, retain,
  Bool-cases, ◌==◌, string_eq, eq_iff, All, any-append, eq_refl,
}
use niu_ma_notifier.Models.{NiumaEvent, DateTime}
use niu_ma_notifier.Arbiter.{
  ApprovalArbiter, ApprovalFingerprint, ApprovalEmissionSource, RecentApprovalEmission,
  recent_emission_ttl, is_recent, prune_recent, record_emission, is_proxy, taken_over,
  on_watcher_approval, on_proxy_approval, expire_candidate,
}
use niu_ma_notifier.Arbiter.Calls.{
  Call, watcher_call, hook_call, relay_call, expire_call, cancel_call, watcher_emits, expiry_emits,
  announces, call, announced,
}
use niu_ma_notifier.Arbiter.Covered.{
  covers, IsCovered, covers-prune, taken_over_of_covers, call-IsCovered,
}

module _ (key : String) (deadline : DateTime) where
  watcher_suppressed :
      (a : ApprovalArbiter) (fp : ApprovalFingerprint) (ev : NiumaEvent) (now : DateTime)
      → fp.key ≡ key
      → now ≤ deadline
      → IsCovered key deadline a
      → (fp.key == key && watcher_emits (on_watcher_approval a fp ev now).1) ≡ false
  unfolding on_watcher_approval prune_recent
  watcher_suppressed a fp ev now e le v =
      let g : taken_over key (retain (is_recent now) a.recent_emissions) ≡ true =
        taken_over_of_covers key deadline _
          (covers-prune key deadline now a.recent_emissions le v.emission) in
      ground arith

  expiry_empty :
      (a : ApprovalArbiter) (fp : ApprovalFingerprint) (now : DateTime)
      → fp.key ≡ key
      → IsCovered key deadline a
      → (fp.key == key && expiry_emits (expire_candidate a fp now).1) ≡ false
  unfolding expire_candidate prune_recent
  expiry_empty a fp now e v = ground (arith, v.pending)

  covered_silent :
      (a : ApprovalArbiter) (c : Call) (now : DateTime)
      → now ≤ deadline
      → IsCovered key deadline a
      → announces key a c now ≡ false
  unfolding announces
  covered_silent a (watcher_call fp ev) now le v = elim (Bool-cases (fp.key == key)) [
    | inr ne ↦ ground arith
    | inl eq ↦ watcher_suppressed a fp ev now ((eq_iff fp.key key).0 eq) le v
  ]
  covered_silent a (expire_call fp) now le v = elim (Bool-cases (fp.key == key)) [
    | inr ne ↦ ground arith
    | inl eq ↦ expiry_empty a fp now ((eq_iff fp.key key).0 eq) v
  ]
  covered_silent a (hook_call fp) now le v = refl
  covered_silent a (relay_call fp) now le v = refl
  covered_silent a (cancel_call k) now le v = refl

  covered_run :
      (a : ApprovalArbiter) (cs : List (Call × DateTime))
      → All (λ c. c.1 ≤ deadline) cs
      → IsCovered key deadline a
      → announced key a cs ≡ false
  unfolding announced
  covered_run a [] by v = refl
  covered_run a ((c, now) ∷ cs) by v = ground (
    arith,
    covered_silent a c now by.0 v,
    covered_run (call a c now) cs by.1 (call-IsCovered key deadline a c now by.0 v),
  )

-- After a hook or a relay announces an approval, no history of calls within the next ten seconds
-- announces the same approval for the watcher, neither at once nor when its delay expires.
pub no_fallback_after_takeover :
    (a : ApprovalArbiter) (fp : ApprovalFingerprint) (source : ApprovalEmissionSource)
    (now : DateTime) (cs : List (Call × DateTime))
    → is_proxy source ≡ true
    → All (λ c. c.1 ≤ now + recent_emission_ttl) cs
    → announced fp.key (on_proxy_approval a fp source now).0 cs ≡ false
unfolding on_proxy_approval prune_recent record_emission covers any
no_fallback_after_takeover a fp source now cs proxy by =
    covered_run fp.key (now + recent_emission_ttl) _ cs by (record {
      emission = taken_now (retain (is_recent now) a.recent_emissions);
      pending = ground (arith, get-remove a.pending_candidates fp.key fp.key, eq_refl fp.key);
    })
  where
    e : RecentApprovalEmission
    e = record { fingerprint = fp; source = source; emitted_at = now }

    here : covers fp.key (now + recent_emission_ttl) e ≡ true
    here = ground (arith, proxy, eq_refl fp.key)

    taken_now :
        (es : List RecentApprovalEmission)
        → any (covers fp.key (now + recent_emission_ttl)) (es ++ e ∷ []) ≡ true
    taken_now es =
        ground (arith, any-append (covers fp.key (now + recent_emission_ttl)) es (e ∷ []), here)

-- ===== src/ApprovalApi/Takeover.antt =====
-- A posted approval request keeps the session watcher from announcing the same approval.
use niu_ma_notifier.Prelude.{
  ℕ, ◌+◌, ◌≤◌, String, ◌≡◌, refl, ap, inl, inr, true, some, List, [], ◌∷◌, arith, any, any-append,
  retain, Bool-cases, ◌==◌, string_eq,
}
use niu_ma_notifier.Models.{DateTime, NiumaEvent, ApprovalChannel, ApprovalRequest}
use niu_ma_notifier.Arbiter.{
  ApprovalArbiter, ApprovalFingerprint, ApprovalEmissionSource, hook, relay, HookApprovalDecision,
  accept_hook, recent_emission_ttl, is_recent, prune_recent, record_emission, is_proxy,
  on_watcher_approval, on_proxy_approval, on_hook_approval, on_relay_approval, suppress,
}
use niu_ma_notifier.Arbiter.Covered.{covers, covers-prune, covers-record, taken_over_of_covers}
use niu_ma_notifier.ApprovalApi.{
  AppState, RequestTimes, has_key, hook_approval_fingerprints, watcher_approval_fingerprint,
  arbitrate_fingerprint, arbitrate_fingerprints, replaces, register_approval_request,
  arbitrate_watcher_approval_event, with_interaction, suppressed, outcome_of, append,
}

module _ (key : String) (later : DateTime) where
  proxy_keeps :
      (a : ApprovalArbiter) (fp : ApprovalFingerprint) (source : ApprovalEmissionSource)
      (now : DateTime)
      → now ≤ later
      → any (covers key later) a.recent_emissions ≡ true
      → any (covers key later) (on_proxy_approval a fp source now).0.recent_emissions ≡ true
  unfolding on_proxy_approval prune_recent record_emission
  proxy_keeps a fp source now le h =
      covers-record key later (retain (is_recent now) a.recent_emissions) _
        (covers-prune key later now a.recent_emissions le h)

  proxy_covers :
      (a : ApprovalArbiter) (fp : ApprovalFingerprint) (source : ApprovalEmissionSource)
      (now : DateTime)
      → is_proxy source ≡ true
      → (fp.key == key) ≡ true
      → later ≤ now + recent_emission_ttl
      → any (covers key later) (on_proxy_approval a fp source now).0.recent_emissions ≡ true
  unfolding on_proxy_approval prune_recent record_emission covers any
  proxy_covers a fp source now p k le = ground (
    arith,
    any-append (covers key later) (retain (is_recent now) a.recent_emissions)
        (record { fingerprint = fp; source = source; emitted_at = now } ∷ []),
  )

  channel_keeps :
      (c : ApprovalChannel) (a : ApprovalArbiter) (fp : ApprovalFingerprint) (now : DateTime)
      → now ≤ later
      → any (covers key later) a.recent_emissions ≡ true
      → any (covers key later) (arbitrate_fingerprint c a fp now).0.recent_emissions ≡ true
  unfolding arbitrate_fingerprint on_hook_approval on_relay_approval
  channel_keeps ApprovalChannel.hook_proxy a fp now le h = proxy_keeps a fp hook now le h
  channel_keeps ApprovalChannel.niuma_codex_relay a fp now le h = proxy_keeps a fp relay now le h

  channel_covers :
      (c : ApprovalChannel) (a : ApprovalArbiter) (fp : ApprovalFingerprint) (now : DateTime)
      → (fp.key == key) ≡ true
      → later ≤ now + recent_emission_ttl
      → any (covers key later) (arbitrate_fingerprint c a fp now).0.recent_emissions ≡ true
  unfolding arbitrate_fingerprint on_hook_approval on_relay_approval is_proxy
  channel_covers ApprovalChannel.hook_proxy a fp now k le = proxy_covers a fp hook now refl k le
  channel_covers ApprovalChannel.niuma_codex_relay a fp now k le =
      proxy_covers a fp relay now refl k le

  module _ (channel : ApprovalChannel) (clock : ℕ → DateTime) (before : (n : ℕ) → clock n ≤ later)
      (soon : (n : ℕ) → later ≤ clock n + recent_emission_ttl) where
    loop_keeps :
        (fps : List ApprovalFingerprint) (a : ApprovalArbiter) (d : HookApprovalDecision) (n : ℕ)
        → any (covers key later) a.recent_emissions ≡ true
        → any (covers key later) (arbitrate_fingerprints channel clock a d fps n).0.recent_emissions
          ≡ true
    unfolding arbitrate_fingerprints
    loop_keeps [] a d n h = h
    loop_keeps (fp ∷ fps) a d n h =
        loop_keeps fps (arbitrate_fingerprint channel a fp (clock n)).0
          (replaces (arbitrate_fingerprint channel a fp (clock n)).1 d) (n + 1)
          (channel_keeps channel a fp (clock n) (before n) h)

    loop_covers :
        (fps : List ApprovalFingerprint) (a : ApprovalArbiter) (d : HookApprovalDecision) (n : ℕ)
        → has_key key fps ≡ true
        → any (covers key later) (arbitrate_fingerprints channel clock a d fps n).0.recent_emissions
          ≡ true
    unfolding arbitrate_fingerprints has_key any
    loop_covers [] a d n h = absurd (ground arith)
    loop_covers (fp ∷ fps) a d n h = elim (Bool-cases (fp.key == key)) [
      | inl k ↦
          loop_keeps fps (arbitrate_fingerprint channel a fp (clock n)).0
            (replaces (arbitrate_fingerprint channel a fp (clock n)).1 d) (n + 1)
            (channel_covers channel a fp (clock n) k (soon n))
      | inr k ↦
          loop_covers fps (arbitrate_fingerprint channel a fp (clock n)).0
            (replaces (arbitrate_fingerprint channel a fp (clock n)).1 d) (n + 1)
            (ground (arith, k))
    ]

covered_suppresses :
    (a : ApprovalArbiter) (fp : ApprovalFingerprint) (event : NiumaEvent) (later : DateTime)
    → any (covers fp.key later) a.recent_emissions ≡ true
    → (on_watcher_approval a fp event later).1 ≡ suppress
unfolding on_watcher_approval prune_recent
covered_suppresses a fp event later c =
    let refl_le : later ≤ later = omega arith in
    rw
      (taken_over_of_covers fp.key later (retain (is_recent later) a.recent_emissions)
        (covers-prune fp.key later later a.recent_emissions refl_le c))
      refl

arbitrate_suppressed :
    (state : AppState) (event : NiumaEvent) (fp : ApprovalFingerprint) (later : DateTime)
    → watcher_approval_fingerprint (with_interaction event) ≡ some fp
    → any (covers fp.key later) state.approval_arbiter.recent_emissions ≡ true
    → (arbitrate_watcher_approval_event state event later).1
      ≡ suppressed "hook_approval_already_emitted"
unfolding arbitrate_watcher_approval_event outcome_of
arbitrate_suppressed state event fp later h c =
    rw (h, arbitrate_watcher_approval_event)
      (ap outcome_of
        (covered_suppresses state.approval_arbiter fp (with_interaction event) later c))

-- After a request was registered, an event of the session watcher that has a fingerprint in common
-- with it is suppressed, if it comes no earlier than the request's fingerprints were taken over and
-- no later than the time for which the arbiter remembers this.
pub register_approval_request_suppresses :
    (state : AppState) (request : ApprovalRequest) (times : RequestTimes) (event : NiumaEvent)
    (fingerprint : ApprovalFingerprint) (later : DateTime)
    → watcher_approval_fingerprint (with_interaction event) ≡ some fingerprint
    → has_key fingerprint.key (hook_approval_fingerprints request) ≡ true
    → ((n : ℕ) → times.arbitrated_at n ≤ later)
    → ((n : ℕ) → later ≤ times.arbitrated_at n + recent_emission_ttl)
    → (arbitrate_watcher_approval_event
        (register_approval_request state request times).0
        event
        later).1
      ≡ suppressed "hook_approval_already_emitted"
unfolding register_approval_request append
register_approval_request_suppresses state request times event fp later h k before soon =
    arbitrate_suppressed (register_approval_request state request times).0 event fp later h (
      loop_covers fp.key later request.channel times.arbitrated_at before soon
        (hook_approval_fingerprints request) state.approval_arbiter accept_hook 0 k)

-- ===== src/Arbiter/Covered.antt =====
-- The approvals that stay taken over until a deadline.
use niu_ma_notifier.Prelude.HashMap
use niu_ma_notifier.Prelude.HashMap.{get-insert, get-remove}
use niu_ma_notifier.Prelude.{
  ◌+◌, ◌≤◌, String, ◌≡◌, inl, inr, Bool, true, false, ◌&&◌, none, List, [], ◌∷◌, ◌++◌, arith, leb,
  any, find?, retain, Option-cases, Bool-cases, ◌==◌, string_eq, eq_iff, any-append,
}
use niu_ma_notifier.Models.{NiumaEvent, DateTime}
use niu_ma_notifier.Arbiter.{
  ApprovalArbiter, ApprovalFingerprint, ApprovalEmissionSource, hook, relay, RecentApprovalEmission,
  PendingWatcherApproval, HookCapability, unknown, active, inactive, recent_emission_ttl, is_recent,
  prune_recent, record_emission, capability_for_scope, is_proxy, taken_over, watcher_by_capability,
  on_watcher_approval, on_proxy_approval, on_hook_approval, on_relay_approval, expire_candidate,
  has_resolve_key, cancel_pending_by_attention_resolve_key,
}
use niu_ma_notifier.Arbiter.Calls.{
  Call, watcher_call, hook_call, relay_call, expire_call, cancel_call, call,
}

module _ (key : String) (deadline : DateTime) where
  -- The emission is a hook's or a relay's for the key and is remembered until the deadline.
  unfoldable pub covers : RecentApprovalEmission → Bool
  covers emission =
      emission.fingerprint.key == key
      && is_proxy emission.source
      && leb deadline (emission.emitted_at + recent_emission_ttl)

  -- The approval is taken over until the deadline: an emission covers it, and the watcher has
  -- nothing pending for it.
  pub record IsCovered (arbiter : ApprovalArbiter) : Type 0 where
    pub emission : any covers arbiter.recent_emissions ≡ true
    pub pending : HashMap.get arbiter.pending_candidates key ≡ none

  pub covers-prune :
      (now : DateTime) (es : List RecentApprovalEmission)
      → now ≤ deadline
      → any covers es ≡ true
      → any covers (retain (is_recent now) es) ≡ true
  unfolding any retain covers is_recent
  covers-prune now [] le h = h
  covers-prune now (e ∷ es) le h =
      ground (arith, λ (g : any covers es ≡ true). covers-prune now es le g)

  pub taken_over_of_covers :
      (es : List RecentApprovalEmission) → any covers es ≡ true → taken_over key es ≡ true
  unfolding any covers taken_over
  taken_over_of_covers [] h = h
  taken_over_of_covers (e ∷ es) h =
      ground (arith, λ (g : any covers es ≡ true). taken_over_of_covers es g)

  pub covers-record :
      (es : List RecentApprovalEmission) (e : RecentApprovalEmission)
      → any covers es ≡ true
      → any covers (es ++ e ∷ []) ≡ true
  covers-record es e h = ground (arith, any-append covers es (e ∷ []))

  remove-none :
      (m : List (String × PendingWatcherApproval)) (k : String)
      → HashMap.get m key ≡ none
      → HashMap.get (HashMap.remove m k) key ≡ none
  remove-none m k h = ground (arith, get-remove m k key)

  pruned-IsCovered :
      (a : ApprovalArbiter) (now : DateTime)
      → now ≤ deadline
      → IsCovered a
      → IsCovered (prune_recent a now)
  unfolding prune_recent
  pruned-IsCovered a now le v = record {
    emission = covers-prune now a.recent_emissions le v.emission;
    pending = v.pending;
  }

  checked-IsCovered :
      (a : ApprovalArbiter) (scope : String) (now : DateTime)
      → IsCovered a
      → IsCovered (capability_for_scope a scope now).0
  unfolding capability_for_scope
  checked-IsCovered a scope now v = record { emission = v.emission; pending = v.pending }

  insert_other :
      (m : List (String × PendingWatcherApproval)) (k : String) (p : PendingWatcherApproval)
      → (k == key) ≡ false
      → HashMap.get m key ≡ none
      → HashMap.get (HashMap.insert m k p) key ≡ none
  insert_other m k p ne h = ground (arith, get-insert m k p key)

  by_capability-IsCovered :
      (a : ApprovalArbiter) (c : HookCapability) (fp : ApprovalFingerprint) (ev : NiumaEvent)
      (now : DateTime)
      → (fp.key == key) ≡ false
      → IsCovered a
      → IsCovered (watcher_by_capability a c fp ev now).0
  unfolding watcher_by_capability record_emission
  by_capability-IsCovered a (inactive t) fp ev now ne v = record {
    emission = covers-record a.recent_emissions _ v.emission;
    pending = v.pending;
  }
  by_capability-IsCovered a unknown fp ev now ne v = record {
    emission = v.emission;
    pending = insert_other a.pending_candidates fp.key _ ne v.pending;
  }
  by_capability-IsCovered a (active t n) fp ev now ne v = record {
    emission = v.emission;
    pending = insert_other a.pending_candidates fp.key _ ne v.pending;
  }

  key_differs :
      (a : ApprovalArbiter) (fp : ApprovalFingerprint) (now : DateTime)
      → now ≤ deadline
      → IsCovered a
      → taken_over fp.key (retain (is_recent now) a.recent_emissions) ≡ false
      → (fp.key == key) ≡ false
  key_differs a fp now le v t = elim (Bool-cases (fp.key == key)) [
    | inr ne ↦ ne
    | inl eq ↦
        let e : fp.key ≡ key = (eq_iff fp.key key).0 eq in
        let g : taken_over key (retain (is_recent now) a.recent_emissions) ≡ true =
          taken_over_of_covers _ (covers-prune now a.recent_emissions le v.emission) in
        ground arith
  ]

  watcher-IsCovered :
      (a : ApprovalArbiter) (fp : ApprovalFingerprint) (ev : NiumaEvent) (now : DateTime)
      → now ≤ deadline
      → IsCovered a
      → IsCovered (on_watcher_approval a fp ev now).0
  unfolding on_watcher_approval prune_recent
  watcher-IsCovered a fp ev now le v =
      elim (Bool-cases (taken_over fp.key (retain (is_recent now) a.recent_emissions))) [
        | inl t ↦ rw t (pruned-IsCovered a now le v)
        | inr t ↦ rw t (
            by_capability-IsCovered _ _ fp ev now (key_differs a fp now le v t)
              (checked-IsCovered _ _ now (pruned-IsCovered a now le v)))
      ]

  proxy-IsCovered :
      (a : ApprovalArbiter) (fp : ApprovalFingerprint) (source : ApprovalEmissionSource)
      (now : DateTime)
      → now ≤ deadline
      → IsCovered a
      → IsCovered (on_proxy_approval a fp source now).0
  unfolding on_proxy_approval prune_recent record_emission
  proxy-IsCovered a fp source now le v = record {
    emission = covers-record _ _ (covers-prune now a.recent_emissions le v.emission);
    pending = remove-none a.pending_candidates fp.key v.pending;
  }

  expire-IsCovered :
      (a : ApprovalArbiter) (fp : ApprovalFingerprint) (now : DateTime)
      → now ≤ deadline
      → IsCovered a
      → IsCovered (expire_candidate a fp now).0
  unfolding expire_candidate prune_recent record_emission capability_for_scope
  expire-IsCovered a fp now le v = elim (Option-cases (HashMap.get a.pending_candidates fp.key)) [
    | inl e ↦
        rw (e, expire_candidate)
          (record {
            emission = covers-prune now a.recent_emissions le v.emission;
            pending = v.pending;
          })
    | inr (p, e) ↦
        rw (e, expire_candidate)
          (record {
            emission = covers-record _ _ (covers-prune now a.recent_emissions le v.emission);
            pending = remove-none a.pending_candidates fp.key v.pending;
          })
  ]

  cancel-IsCovered :
      (a : ApprovalArbiter) (k : String)
      → IsCovered a
      → IsCovered (cancel_pending_by_attention_resolve_key a k).0
  unfolding cancel_pending_by_attention_resolve_key
  cancel-IsCovered a k v = elim (Option-cases (find? (has_resolve_key k) a.pending_candidates)) [
    | inl e ↦ rw (e, cancel_pending_by_attention_resolve_key) v
    | inr (p, e) ↦
        rw (e, cancel_pending_by_attention_resolve_key)
          (record {
            emission = v.emission;
            pending = remove-none a.pending_candidates p.0 v.pending;
          })
  ]

  pub call-IsCovered :
      (a : ApprovalArbiter) (c : Call) (now : DateTime)
      → now ≤ deadline
      → IsCovered a
      → IsCovered (call a c now)
  unfolding call on_hook_approval on_relay_approval
  call-IsCovered a (watcher_call fp ev) now le v = watcher-IsCovered a fp ev now le v
  call-IsCovered a (hook_call fp) now le v = proxy-IsCovered a fp hook now le v
  call-IsCovered a (relay_call fp) now le v = proxy-IsCovered a fp relay now le v
  call-IsCovered a (expire_call fp) now le v = expire-IsCovered a fp now le v
  call-IsCovered a (cancel_call k) now le v = cancel-IsCovered a k v

-- ===== src/Arbiter/Fallback.antt =====
-- The approvals that no hook takes over.
use niu_ma_notifier.Prelude.HashMap
use niu_ma_notifier.Prelude.HashMap.{
  get-insert, get-remove, UniqueKeys, insert-UniqueKeys, remove-UniqueKeys, found-get,
}
use niu_ma_notifier.Prelude.{
  String, ◌≡◌, ap, sym, subst, inl, inr, Bool-cases, Option-cases, option_eq, find?, find?-holds,
  ◌∙◌, Bool, true, not, none, some, List, [], ◌∷◌, arith, ◌==◌, string_eq, All, eq_refl,
}
use niu_ma_notifier.Models.{NiumaEvent, DateTime}
use niu_ma_notifier.Arbiter.{
  default_arbiter, has_resolve_key, cancel_pending_by_attention_resolve_key, ApprovalArbiter,
  ApprovalFingerprint, PendingWatcherApproval, delay, emit, watcher_approval_delay, prune_recent,
  record_emission, capability_for_scope, watcher_by_capability, on_watcher_approval,
  on_proxy_approval, on_hook_approval, on_relay_approval, expire_candidate,
}
use niu_ma_notifier.Arbiter.Pending.{watcher-UniqueKeys, call-UniqueKeys, run-UniqueKeys}
use niu_ma_notifier.Arbiter.Calls.{
  run, Call, watcher_call, hook_call, relay_call, expire_call, cancel_call, call,
}

-- The call is about another approval than the one with this key and event; a cancellation is so if it
-- names another resolve key than the event has.
abbrev pub is_about_other : String → NiumaEvent → Call → Bool
is_about_other key ev (watcher_call fp event) = not (fp.key == key)
is_about_other key ev (hook_call fp) = not (fp.key == key)
is_about_other key ev (relay_call fp) = not (fp.key == key)
is_about_other key ev (expire_call fp) = not (fp.key == key)
is_about_other key ev (cancel_call resolve_key) = not (ev.attention_resolve_key == some resolve_key)

module _ (key : String) where
  insert_ne :
      (m : List (String × PendingWatcherApproval)) (k : String) (p : PendingWatcherApproval)
      → not (k == key) ≡ true
      → HashMap.get (HashMap.insert m k p) key ≡ HashMap.get m key
  insert_ne m k p ne = ground (arith, get-insert m k p key)

  remove_ne :
      (m : List (String × PendingWatcherApproval)) (k : String)
      → not (k == key) ≡ true
      → HashMap.get (HashMap.remove m k) key ≡ HashMap.get m key
  remove_ne m k ne = ground (arith, get-remove m k key)

  watcher_other :
      (a : ApprovalArbiter) (fp : ApprovalFingerprint) (ev : NiumaEvent) (now : DateTime)
      → not (fp.key == key) ≡ true
      → HashMap.get (on_watcher_approval a fp ev now).0.pending_candidates key
        ≡ HashMap.get a.pending_candidates key
  unfolding on_watcher_approval prune_recent watcher_by_capability record_emission
      capability_for_scope
  watcher_other a fp ev now ne = ground (
    arith,
    insert_ne a.pending_candidates fp.key
        (record { fingerprint = fp; event = ev; created_at = now }) ne,
  )

  expire_other :
      (a : ApprovalArbiter) (fp : ApprovalFingerprint) (now : DateTime)
      → not (fp.key == key) ≡ true
      → HashMap.get (expire_candidate a fp now).0.pending_candidates key
        ≡ HashMap.get a.pending_candidates key
  unfolding expire_candidate prune_recent record_emission capability_for_scope
  expire_other a fp now ne = ground (arith, remove_ne a.pending_candidates fp.key ne)

  -- A cancellation takes another entry away, since the entry under the key has another resolve key.
  cancel_other :
      (a : ApprovalArbiter) (resolve_key : String) (p : PendingWatcherApproval)
      → UniqueKeys a.pending_candidates
      → HashMap.get a.pending_candidates key ≡ some p
      → not (p.event.attention_resolve_key == some resolve_key) ≡ true
      → HashMap.get (cancel_pending_by_attention_resolve_key a resolve_key).0.pending_candidates key
        ≡ some p
  unfolding cancel_pending_by_attention_resolve_key has_resolve_key
  cancel_other a k p u g ne = elim (Option-cases (find? (has_resolve_key k) a.pending_candidates)) [
    | inl e ↦ rw (e, cancel_pending_by_attention_resolve_key) g
    | inr (entry, e) ↦
        let there = found-get (has_resolve_key k) a.pending_candidates entry u e in
        let held = find?-holds (has_resolve_key k) a.pending_candidates e in
        elim (Bool-cases (entry.0 == key)) [
          | inr n ↦
              rw (e, cancel_pending_by_attention_resolve_key)
                (get-remove a.pending_candidates entry.0 key ∙ rw n g)
          | inl y ↦
              let i : entry.0 ≡ key = (string_eq.decides entry.0 key).0 y in
              let same : some entry.1 ≡ some p =
                sym there ∙ ap (HashMap.get a.pending_candidates) i ∙ g in
              let q : entry.1 ≡ p = cc same in
              absurd (
                ground (
                  arith,
                  ne,
                  subst
                      (λ (x : PendingWatcherApproval).
                        (x.event.attention_resolve_key == some k) ≡ true)
                      q held,
                ))
        ]
  ]

  call_other :
      (a : ApprovalArbiter) (c : Call) (now : DateTime) (p : PendingWatcherApproval)
      → UniqueKeys a.pending_candidates
      → HashMap.get a.pending_candidates key ≡ some p
      → is_about_other key p.event c ≡ true
      → HashMap.get (call a c now).pending_candidates key ≡ some p
  unfolding call on_hook_approval on_relay_approval on_proxy_approval prune_recent record_emission
  call_other a (watcher_call fp ev) now p u g ne = watcher_other a fp ev now ne ∙ g
  call_other a (hook_call fp) now p u g ne = remove_ne a.pending_candidates fp.key ne ∙ g
  call_other a (relay_call fp) now p u g ne = remove_ne a.pending_candidates fp.key ne ∙ g
  call_other a (expire_call fp) now p u g ne = expire_other a fp now ne ∙ g
  call_other a (cancel_call k) now p u g ne = cancel_other a k p u g ne

  run_other :
      (a : ApprovalArbiter) (cs : List (Call × DateTime)) (p : PendingWatcherApproval)
      → UniqueKeys a.pending_candidates
      → HashMap.get a.pending_candidates key ≡ some p
      → All (λ c. is_about_other key p.event c.0 ≡ true) cs
      → HashMap.get (run a cs).pending_candidates key ≡ some p
  unfolding run
  run_other a [] p u g other = g
  run_other a ((c, now) ∷ cs) p u g other =
      run_other (call a c now) cs p (call-UniqueKeys a c now u) (call_other a c now p u g other.0)
        other.1

delayed_is_pending :
    (a : ApprovalArbiter) (fp : ApprovalFingerprint) (ev : NiumaEvent) (now : DateTime)
    → (on_watcher_approval a fp ev now).1 ≡ delay watcher_approval_delay
    → HashMap.get (on_watcher_approval a fp ev now).0.pending_candidates fp.key
      ≡ some (record { fingerprint = fp; event = ev; created_at = now })
unfolding on_watcher_approval prune_recent watcher_by_capability capability_for_scope
delayed_is_pending a fp ev now h = ground (
  arith,
  get-insert a.pending_candidates fp.key (record { fingerprint = fp; event = ev; created_at = now })
      fp.key,
  eq_refl fp.key,
)

expire_pending :
    (a : ApprovalArbiter) (fp : ApprovalFingerprint) (p : PendingWatcherApproval) (now : DateTime)
    → HashMap.get a.pending_candidates fp.key ≡ some p
    → (expire_candidate a fp now).1 ≡ some (emit p.event)
unfolding expire_candidate prune_recent
expire_pending a fp p now h = ground (arith, h)

-- An approval that the watcher was told to delay is not lost, whatever calls the arbiter had before:
-- after any history of calls about other approvals, its expiry announces exactly the event that was
-- delayed. A cancellation is about another approval if it names another resolve key than the event.
pub delayed_is_announced :
    (before : List (Call × DateTime)) (fp : ApprovalFingerprint) (ev : NiumaEvent)
    (now later : DateTime) (cs : List (Call × DateTime))
    → (on_watcher_approval (run default_arbiter before) fp ev now).1 ≡ delay watcher_approval_delay
    → All (λ c. is_about_other fp.key ev c.0 ≡ true) cs
    → (expire_candidate
        (run (on_watcher_approval (run default_arbiter before) fp ev now).0 cs)
        fp
        later).1
      ≡ some (emit ev)
unfolding default_arbiter
delayed_is_announced before fp ev now later cs h other =
    let a = run default_arbiter before in
    let p : PendingWatcherApproval = record { fingerprint = fp; event = ev; created_at = now } in
    expire_pending _ fp p later (
      run_other fp.key _ cs p
        (watcher-UniqueKeys a fp ev now (run-UniqueKeys default_arbiter before tt))
        (delayed_is_pending a fp ev now h) other)

-- An approval's expiry takes the pending candidate away: whatever it answered, a second expiry of
-- the same approval announces nothing.
pub expire_twice :
    (a : ApprovalArbiter) (fp : ApprovalFingerprint) (now later : DateTime)
    → (expire_candidate (expire_candidate a fp now).0 fp later).1 ≡ none
unfolding expire_candidate prune_recent record_emission capability_for_scope
expire_twice a fp now later =
    ground (arith, get-remove a.pending_candidates fp.key fp.key, eq_refl fp.key)

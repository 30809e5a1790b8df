-- ===== src/Arbiter/GivenUp.antt =====
-- The projects whose hook the arbiter gives up.
use niu_ma_notifier.Prelude.HashMap
use niu_ma_notifier.Prelude.HashMap.{get-insert}
use niu_ma_notifier.Prelude.{
  ◌+◌, ◌≤◌, String, ◌≡◌, ap, ◌∙◌, subst, inl, inr, Bool, true, false, not, some, List, [], ◌∷◌,
  arith, ◌==◌, string_eq, All, Bool-cases, Option-cases,
}
use niu_ma_notifier.Models.{NiumaEvent, DateTime}
use niu_ma_notifier.Arbiter.{
  ApprovalArbiter, ApprovalFingerprint, PendingWatcherApproval, ApprovalEmissionSource, active,
  inactive, emit_now, active_ttl, inactive_ttl, prune_recent, record_emission, effective_capability,
  taken_over, on_watcher_approval, on_proxy_approval, on_hook_approval, on_relay_approval,
  expire_candidate, cancel_pending_by_attention_resolve_key,
}
use niu_ma_notifier.Arbiter.Missed.{
  watcher_inactive, expire_capability, after_two_misses, watcher_capabilities, still_inactive,
  missed_inactive, le_refl, expire_missing, expire_elsewhere,
}
use niu_ma_notifier.Arbiter.Calls.{
  run, Call, watcher_call, hook_call, relay_call, expire_call, cancel_call, call,
}

-- The call is not one of a hook or a relay of the project.
abbrev pub spares : String → Call → Bool
spares project (hook_call fp) = not (fp.project_path == project)
spares project (relay_call fp) = not (fp.project_path == project)
spares project _ = true

-- The hook of the project has been given up at `since` or later.
abbrev IsGivenUp : ApprovalArbiter → String → DateTime → Type 0
IsGivenUp a project since =
    (t : DateTime) × (since ≤ t) × (HashMap.get a.capabilities project ≡ some (inactive t))

module _ (project : String) (since : DateTime) where
  watcher-IsGivenUp :
      (a : ApprovalArbiter) (fp : ApprovalFingerprint) (ev : NiumaEvent) (now : DateTime)
      → now ≤ since + inactive_ttl
      → IsGivenUp a project since
      → IsGivenUp (on_watcher_approval a fp ev now).0 project since
  watcher-IsGivenUp a fp ev now le (t, from, g) = elim (Bool-cases (fp.project_path == project)) [
    | inl y ↦
        let i : fp.project_path ≡ project = (string_eq.decides fp.project_path project).0 y in
        let own : HashMap.get a.capabilities fp.project_path ≡ some (inactive t) =
          ap (HashMap.get a.capabilities) i ∙ g in
        (
          t,
          from,
          ground (
            arith,
            watcher_capabilities a fp ev now,
            own,
            still_inactive since t now from le,
            get-insert a.capabilities fp.project_path
                (effective_capability (HashMap.get a.capabilities fp.project_path) now) project,
          ),
        )
    | inr n ↦ (
      t,
      from,
      ground (
        arith,
        watcher_capabilities a fp ev now,
        get-insert a.capabilities fp.project_path
            (effective_capability (HashMap.get a.capabilities fp.project_path) now) project,
      ),
    )
  ]

  proxy-IsGivenUp :
      (a : ApprovalArbiter) (fp : ApprovalFingerprint) (source : ApprovalEmissionSource)
      (now : DateTime)
      → not (fp.project_path == project) ≡ true
      → IsGivenUp a project since
      → IsGivenUp (on_proxy_approval a fp source now).0 project since
  unfolding on_proxy_approval prune_recent record_emission
  proxy-IsGivenUp a fp source now ne (t, from, g) =
      (t, from, ground (arith, get-insert a.capabilities fp.project_path (active now 0) project))

  expire-IsGivenUp :
      (a : ApprovalArbiter) (fp : ApprovalFingerprint) (now : DateTime)
      → since ≤ now
      → now ≤ since + inactive_ttl
      → IsGivenUp a project since
      → IsGivenUp (expire_candidate a fp now).0 project since
  expire-IsGivenUp a fp now later le (t, from, g) =
      elim (Option-cases (HashMap.get a.pending_candidates fp.key)) [
        | inl e ↦ (t, from, ap (λ m. HashMap.get m project) (expire_missing a fp now e) ∙ g)
        | inr (p, e) ↦ elim (Bool-cases (fp.project_path == project)) [
          | inl y ↦
              let i : fp.project_path ≡ project = (string_eq.decides fp.project_path project).0 y in
              let own : HashMap.get a.capabilities fp.project_path ≡ some (inactive t) =
                ap (HashMap.get a.capabilities) i ∙ g in
              let again : HashMap.get (expire_candidate a fp now).0.capabilities fp.project_path
                  ≡ some (inactive now) =
                ground (
                  arith,
                  expire_capability a fp p now e,
                  own,
                  still_inactive since t now from le,
                  missed_inactive t now,
                ) in
              (
                now,
                later,
                subst
                    (λ k.
                      HashMap.get (expire_candidate a fp now).0.capabilities k
                      ≡ some (inactive now))
                    i again,
              )
          | inr n ↦ (t, from, expire_elsewhere a fp p now project e n ∙ g)
        ]
      ]

  call-IsGivenUp :
      (a : ApprovalArbiter) (c : Call) (now : DateTime)
      → spares project c ≡ true
      → since ≤ now
      → now ≤ since + inactive_ttl
      → IsGivenUp a project since
      → IsGivenUp (call a c now) project since
  unfolding call on_hook_approval on_relay_approval cancel_pending_by_attention_resolve_key
  call-IsGivenUp a (watcher_call fp ev) now s later le v = watcher-IsGivenUp a fp ev now le v
  call-IsGivenUp a (hook_call fp) now s later le v = proxy-IsGivenUp a fp _ now s v
  call-IsGivenUp a (relay_call fp) now s later le v = proxy-IsGivenUp a fp _ now s v
  call-IsGivenUp a (expire_call fp) now s later le v = expire-IsGivenUp a fp now later le v
  call-IsGivenUp a (cancel_call k) now s later le (t, from, g) = (t, from, ground arith)

  run-IsGivenUp :
      (a : ApprovalArbiter) (cs : List (Call × DateTime))
      → All (λ c. (spares project c.0 ≡ true) × (since ≤ c.1) × (c.1 ≤ since + inactive_ttl)) cs
      → IsGivenUp a project since
      → IsGivenUp (run a cs) project since
  unfolding run
  run-IsGivenUp a [] h v = v
  run-IsGivenUp a ((c, now) ∷ cs) h v =
      run-IsGivenUp (call a c now) cs h.1 (call-IsGivenUp a c now h.0.0 h.0.1 h.0.2 v)

pub missed_twice :
    (a : ApprovalArbiter) (first second fp : ApprovalFingerprint) (p q : PendingWatcherApproval)
    (ev : NiumaEvent) (seen t1 t2 now : DateTime) (cs : List (Call × DateTime))
    → first.project_path ≡ fp.project_path
    → second.project_path ≡ fp.project_path
    → HashMap.get a.capabilities fp.project_path ≡ some (active seen 0)
    → HashMap.get a.pending_candidates first.key ≡ some p
    → HashMap.get (expire_candidate a first t1).0.pending_candidates second.key ≡ some q
    → t1 ≤ seen + active_ttl
    → t2 ≤ seen + active_ttl
    → now ≤ t2 + inactive_ttl
    → All (λ c. (spares fp.project_path c.0 ≡ true) × (t2 ≤ c.1) × (c.1 ≤ t2 + inactive_ttl)) cs
    → taken_over fp.key
        (prune_recent
          (run (expire_candidate (expire_candidate a first t1).0 second t2).0 cs)
          now).recent_emissions
      ≡ false
    → (on_watcher_approval
        (run (expire_candidate (expire_candidate a first t1).0 second t2).0 cs)
        fp
        ev
        now).1
      ≡ emit_now ev
missed_twice a first second fp p q ev seen t1 t2 now cs e1 e2 c h1 h2 le1 le2 le spared t =
    let given_up =
      after_two_misses a first second fp.project_path p q seen t1 t2 e1 e2 c h1 h2 le1 le2 in
    let (since, from, g) =
      run-IsGivenUp fp.project_path t2
        (expire_candidate (expire_candidate a first t1).0 second t2).0 cs spared
        (t2, le_refl t2, given_up) in
    watcher_inactive _ fp ev since now g (omega arith) t

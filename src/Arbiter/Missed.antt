-- ===== src/Arbiter/Missed.antt =====
-- What the arbiter knows of the hook of a project after the calls of the watcher.
use niu_ma_notifier.Prelude.HashMap
use niu_ma_notifier.Prelude.HashMap.{get-insert}
use niu_ma_notifier.Prelude.{
  ◌+◌, ◌≤◌, String, ◌≡◌, refl, ◌∙◌, false, none, some, List, arith, ◌==◌, string_eq, eq_refl,
  if◌then◌else◌,
}
use niu_ma_notifier.Models.{NiumaEvent, DateTime}
use niu_ma_notifier.Arbiter.{
  ApprovalArbiter, ApprovalFingerprint, PendingWatcherApproval, HookCapability, active, inactive,
  emit_now, active_ttl, inactive_ttl, prune_recent, record_emission, capability_for_scope,
  effective_capability, missed, taken_over, watcher_by_capability, on_watcher_approval,
  expire_candidate,
}

capability_twice :
    (m : List (String × HookCapability)) (k : String) (c d : HookCapability)
    → HashMap.get (HashMap.insert (HashMap.insert m k c) k d) k ≡ some d
capability_twice m k c d = ground (arith, get-insert (HashMap.insert m k c) k d k, eq_refl k)

pub watcher_inactive :
    (a : ApprovalArbiter) (fp : ApprovalFingerprint) (ev : NiumaEvent) (since now : DateTime)
    → HashMap.get a.capabilities fp.project_path ≡ some (inactive since)
    → now ≤ since + inactive_ttl
    → taken_over fp.key (prune_recent a now).recent_emissions ≡ false
    → (on_watcher_approval a fp ev now).1 ≡ emit_now ev
unfolding on_watcher_approval capability_for_scope watcher_by_capability effective_capability
    prune_recent
watcher_inactive a fp ev since now h le t = ground (arith, h)

-- The capability of the project after an expiry that announces its event.
pub expire_capability :
    (a : ApprovalArbiter) (fp : ApprovalFingerprint) (p : PendingWatcherApproval) (now : DateTime)
    → HashMap.get a.pending_candidates fp.key ≡ some p
    → HashMap.get (expire_candidate a fp now).0.capabilities fp.project_path
      ≡ some (missed (effective_capability (HashMap.get a.capabilities fp.project_path) now) now)
unfolding expire_candidate prune_recent record_emission capability_for_scope
expire_capability a fp p now h =
    rw (h, expire_candidate) (capability_twice a.capabilities fp.project_path _ _)

missed_once :
    (seen now : DateTime)
    → now ≤ seen + active_ttl
    → missed (effective_capability (some (active seen 0)) now) now ≡ active seen 1
unfolding missed effective_capability
missed_once seen now le = ground arith

missed_again :
    (seen now : DateTime)
    → now ≤ seen + active_ttl
    → missed (effective_capability (some (active seen 1)) now) now ≡ inactive now
unfolding missed effective_capability
missed_again seen now le = ground arith

pub after_two_misses :
    (a : ApprovalArbiter) (first second : ApprovalFingerprint) (project : String)
    (p q : PendingWatcherApproval) (seen t1 t2 : DateTime)
    → first.project_path ≡ project
    → second.project_path ≡ project
    → HashMap.get a.capabilities project ≡ some (active seen 0)
    → HashMap.get a.pending_candidates first.key ≡ some p
    → HashMap.get (expire_candidate a first t1).0.pending_candidates second.key ≡ some q
    → t1 ≤ seen + active_ttl
    → t2 ≤ seen + active_ttl
    → HashMap.get
        (expire_candidate (expire_candidate a first t1).0 second t2).0.capabilities
        project
      ≡ some (inactive t2)
after_two_misses a first second project p q seen t1 t2 e1 e2 c h1 h2 le1 le2 =
    ground (arith, expire_capability b second q t2 h2, missed_again seen t2 le2, after_first)
  where
    b : ApprovalArbiter
    b = (expire_candidate a first t1).0

    after_first : HashMap.get b.capabilities project ≡ some (active seen 1)
    after_first = ground (arith, expire_capability a first p t1 h1, missed_once seen t1 le1)

pub watcher_capabilities :
    (a : ApprovalArbiter) (fp : ApprovalFingerprint) (ev : NiumaEvent) (now : DateTime)
    → (on_watcher_approval a fp ev now).0.capabilities ≡ (
        if taken_over fp.key (prune_recent a now).recent_emissions
        then a.capabilities
        else HashMap.insert a.capabilities fp.project_path
            (effective_capability (HashMap.get a.capabilities fp.project_path) now))
unfolding on_watcher_approval prune_recent watcher_by_capability record_emission
    capability_for_scope
watcher_capabilities a fp ev now = ground arith

pub still_inactive :
    (since t now : DateTime)
    → since ≤ t
    → now ≤ since + inactive_ttl
    → effective_capability (some (inactive t)) now ≡ inactive t
unfolding effective_capability
still_inactive since t now le h = ground arith

pub missed_inactive : (t now : DateTime) → missed (inactive t) now ≡ inactive now
unfolding missed
missed_inactive t now = refl

pub le_refl : (t : DateTime) → t ≤ t
le_refl t = omega arith

pub expire_missing :
    (a : ApprovalArbiter) (fp : ApprovalFingerprint) (now : DateTime)
    → HashMap.get a.pending_candidates fp.key ≡ none
    → (expire_candidate a fp now).0.capabilities ≡ a.capabilities
unfolding expire_candidate prune_recent
expire_missing a fp now e = rw (e, expire_candidate) refl

insert_elsewhere :
    (m : List (String × HookCapability)) (k j : String) (c : HookCapability)
    → (k == j) ≡ false
    → HashMap.get (HashMap.insert m k c) j ≡ HashMap.get m j
insert_elsewhere m k j c n = get-insert m k c j ∙ rw n refl

pub expire_elsewhere :
    (a : ApprovalArbiter) (fp : ApprovalFingerprint) (p : PendingWatcherApproval) (now : DateTime)
    (project : String)
    → HashMap.get a.pending_candidates fp.key ≡ some p
    → (fp.project_path == project) ≡ false
    → HashMap.get (expire_candidate a fp now).0.capabilities project
      ≡ HashMap.get a.capabilities project
unfolding expire_candidate prune_recent record_emission capability_for_scope
expire_elsewhere a fp p now project e n =
    rw (e, expire_candidate)
      (insert_elsewhere _ fp.project_path project _ n
        ∙ insert_elsewhere a.capabilities fp.project_path project _ n)

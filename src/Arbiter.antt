-- ===== src/Arbiter.antt =====
-- crates/niuma-core/src/approval_arbitration.rs: whether an approval that a log watcher has seen is
-- announced, delayed or dropped because the tool's hook announces it. Times are nanoseconds.
pub mod Calls
pub mod Covered
pub mod Takeover
pub mod Fingerprint
pub mod Fallback
pub mod GivenUp
pub mod Pending
pub mod Missed
use niu_ma_notifier.Prelude.HashMap
use niu_ma_notifier.Prelude.{
  ℕ, ◌+◌, String, Bool, true, false, not, ◌&&◌, Option, none, some, List, [], ◌∷◌, ◌++◌, leb,
  if◌then◌else◌, any, find?, retain, ◌==◌, string_eq, option_eq,
}
use niu_ma_notifier.Models.{NiumaEvent, DateTime, Duration}

abbrev pub watcher_approval_delay : Duration
watcher_approval_delay = 2_000_000_000

abbrev pub active_ttl : Duration
active_ttl = 600_000_000_000

abbrev pub inactive_ttl : Duration
inactive_ttl = 300_000_000_000

abbrev pub recent_emission_ttl : Duration
recent_emission_ttl = 10_000_000_000

abbrev pub active_missed_threshold : ℕ
active_missed_threshold = 2

pub data ApprovalFingerprintBasis : Type 0 where
  command description : ApprovalFingerprintBasis

pub record ApprovalFingerprint : Type 0 where
  pub key : String
  pub project_path : String
  pub session_id : Option String
  pub basis : ApprovalFingerprintBasis

pub data HookCapability : Type 0 where
  unknown : HookCapability
  active : (last_seen_at : DateTime) (missed_count : ℕ) → HookCapability
  inactive : (last_fallback_at : DateTime) → HookCapability

pub record PendingWatcherApproval : Type 0 where
  pub fingerprint : ApprovalFingerprint
  pub event : NiumaEvent
  pub created_at : DateTime

pub data ApprovalEmissionSource : Type 0 where
  hook relay watcher : ApprovalEmissionSource

pub record RecentApprovalEmission : Type 0 where
  pub fingerprint : ApprovalFingerprint
  pub source : ApprovalEmissionSource
  pub emitted_at : DateTime

pub data WatcherApprovalDecision : Type 0 where
  delay : Duration → WatcherApprovalDecision
  emit_now : NiumaEvent → WatcherApprovalDecision
  suppress : WatcherApprovalDecision

pub data HookApprovalDecision : Type 0 where
  accept_hook replace_watcher : HookApprovalDecision

pub data ExpiredWatcherApproval : Type 0 where
  emit : NiumaEvent → ExpiredWatcherApproval

-- An `ApprovalScope` is its project path.
pub record ApprovalArbiter : Type 0 where
  pub capabilities : List (String × HookCapability)
  pub pending_candidates : List (String × PendingWatcherApproval)
  pub recent_emissions : List RecentApprovalEmission

-- `ApprovalArbiter::default`.
unfoldable pub default_arbiter : ApprovalArbiter
default_arbiter = record { capabilities = []; pending_candidates = []; recent_emissions = [] }

-- `now - emission.emitted_at <= RECENT_EMISSION_TTL`, a signed difference.
unfoldable pub is_recent : DateTime → RecentApprovalEmission → Bool
is_recent now emission = leb now (emission.emitted_at + recent_emission_ttl)

unfoldable pub prune_recent : ApprovalArbiter → DateTime → ApprovalArbiter
prune_recent arbiter now = record arbiter {
  recent_emissions = retain (is_recent now) arbiter.recent_emissions;
}

unfoldable pub record_emission :
    ApprovalArbiter → ApprovalFingerprint → ApprovalEmissionSource → DateTime → ApprovalArbiter
record_emission arbiter fingerprint source now = record arbiter {
  recent_emissions =
      arbiter.recent_emissions
      ++ record { fingerprint = fingerprint; source = source; emitted_at = now } ∷ [];
}

-- The capability that still counts at `now`.
unfoldable pub effective_capability : Option HookCapability → DateTime → HookCapability
effective_capability none now = unknown
effective_capability (some unknown) now = unknown
effective_capability (some (active last_seen_at missed_count)) now =
    if leb now (last_seen_at + active_ttl) then active last_seen_at missed_count else unknown
effective_capability (some (inactive last_fallback_at)) now =
    if leb now (last_fallback_at + inactive_ttl) then inactive last_fallback_at else unknown

abbrev pub with_capability : ApprovalArbiter → String → HookCapability → ApprovalArbiter
with_capability arbiter scope capability = record arbiter {
  capabilities = HashMap.insert arbiter.capabilities scope capability;
}

unfoldable pub capability_for_scope :
    ApprovalArbiter → String → DateTime → ApprovalArbiter × HookCapability
capability_for_scope arbiter scope now =
    let effective = effective_capability (HashMap.get arbiter.capabilities scope) now in
    (with_capability arbiter scope effective, effective)

unfoldable pub is_proxy : ApprovalEmissionSource → Bool
is_proxy hook = true
is_proxy relay = true
is_proxy watcher = false

-- A hook or a relay has announced the approval with this key.
unfoldable pub taken_over : String → List RecentApprovalEmission → Bool
taken_over key = any (λ emission. emission.fingerprint.key == key && is_proxy emission.source)

-- The watcher has announced the approval with this key.
unfoldable pub fell_back : String → List RecentApprovalEmission → Bool
fell_back key = any (λ emission. emission.fingerprint.key == key && not (is_proxy emission.source))

-- The `match` of `on_watcher_approval`.
unfoldable pub watcher_by_capability :
    ApprovalArbiter
    → HookCapability
    → ApprovalFingerprint
    → NiumaEvent
    → DateTime
    → ApprovalArbiter × WatcherApprovalDecision
watcher_by_capability arbiter (inactive last_fallback_at) fingerprint event now =
    (record_emission arbiter fingerprint watcher now, emit_now event)
watcher_by_capability arbiter _ fingerprint event now = (
  record arbiter {
    pending_candidates =
        HashMap.insert arbiter.pending_candidates fingerprint.key
          (record { fingerprint = fingerprint; event = event; created_at = now });
  },
  delay watcher_approval_delay,
)

unfoldable pub on_watcher_approval :
    ApprovalArbiter
    → ApprovalFingerprint
    → NiumaEvent
    → DateTime
    → ApprovalArbiter × WatcherApprovalDecision
on_watcher_approval arbiter fingerprint event now =
    let pruned : ApprovalArbiter = prune_recent arbiter now in
    let (checked, capability) = capability_for_scope pruned fingerprint.project_path now in
    if taken_over fingerprint.key pruned.recent_emissions
    then (pruned, suppress)
    else watcher_by_capability checked capability fingerprint event now

unfoldable pub on_proxy_approval :
    ApprovalArbiter
    → ApprovalFingerprint
    → ApprovalEmissionSource
    → DateTime
    → ApprovalArbiter × HookApprovalDecision
on_proxy_approval arbiter fingerprint source now =
    let pruned : ApprovalArbiter = prune_recent arbiter now in
    (
      record_emission
          (record (with_capability pruned fingerprint.project_path (active now 0)) {
            pending_candidates = HashMap.remove pruned.pending_candidates fingerprint.key;
          })
          fingerprint source now,
      if fell_back fingerprint.key pruned.recent_emissions then replace_watcher else accept_hook,
    )

unfoldable pub on_hook_approval :
    ApprovalArbiter → ApprovalFingerprint → DateTime → ApprovalArbiter × HookApprovalDecision
on_hook_approval arbiter fingerprint now = on_proxy_approval arbiter fingerprint hook now

unfoldable pub on_relay_approval :
    ApprovalArbiter → ApprovalFingerprint → DateTime → ApprovalArbiter × HookApprovalDecision
on_relay_approval arbiter fingerprint now = on_proxy_approval arbiter fingerprint relay now

-- The capability after a watcher's approval was announced in the place of the hook's.
unfoldable pub missed : HookCapability → DateTime → HookCapability
missed unknown now = inactive now
missed (inactive last_fallback_at) now = inactive now
missed (active last_seen_at missed_count) now =
    if leb active_missed_threshold (missed_count + 1)
    then inactive now
    else active last_seen_at (missed_count + 1)

unfoldable pub expire_candidate :
    ApprovalArbiter
    → ApprovalFingerprint
    → DateTime
    → ApprovalArbiter × Option ExpiredWatcherApproval
expire_candidate arbiter fingerprint now =
    let pruned : ApprovalArbiter = prune_recent arbiter now in
    let scope = fingerprint.project_path in
    elim (HashMap.get pruned.pending_candidates fingerprint.key) [
      | none ↦ (pruned, none)
      | some pending ↦
          let taken : ApprovalArbiter = record pruned {
            pending_candidates = HashMap.remove pruned.pending_candidates fingerprint.key;
          } in
          let (checked, capability) = capability_for_scope taken scope now in
          (
            record_emission (with_capability checked scope (missed capability now)) fingerprint
                watcher now,
            some (emit pending.event),
          )
    ]

-- The entry that the search of `cancel_pending_by_attention_resolve_key` finds: the first one in
-- the map's order.
unfoldable pub has_resolve_key : String → String × PendingWatcherApproval → Bool
has_resolve_key resolve_key (key, pending) = pending.event.attention_resolve_key == some resolve_key

unfoldable pub cancel_pending_by_attention_resolve_key :
    ApprovalArbiter → String → ApprovalArbiter × Bool
cancel_pending_by_attention_resolve_key arbiter resolve_key =
    elim (find? (has_resolve_key resolve_key) arbiter.pending_candidates) [
      | none ↦ (arbiter, false)
      | some entry ↦ (
        record arbiter { pending_candidates = HashMap.remove arbiter.pending_candidates entry.0 },
        true,
      )
    ]

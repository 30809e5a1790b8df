-- ===== src/Arbiter/Calls.antt =====
-- Histories of calls of the arbiter, and what they announce.
use niu_ma_notifier.Prelude.{
  String, Bool, true, false, ◌&&◌, Option, none, some, List, [], ◌∷◌, if◌then◌else◌, ◌==◌,
  string_eq,
}
use niu_ma_notifier.Models.{NiumaEvent, DateTime}
use niu_ma_notifier.Arbiter.{
  ApprovalArbiter, ApprovalFingerprint, WatcherApprovalDecision, delay, emit_now, suppress,
  ExpiredWatcherApproval, emit, on_watcher_approval, on_hook_approval, on_relay_approval,
  expire_candidate, cancel_pending_by_attention_resolve_key,
}

-- The calls of the arbiter.
pub data Call : Type 0 where
  watcher_call : ApprovalFingerprint → NiumaEvent → Call
  hook_call relay_call expire_call : ApprovalFingerprint → Call
  cancel_call : String → Call

abbrev pub watcher_emits : WatcherApprovalDecision → Bool
watcher_emits (delay d) = false
watcher_emits (emit_now event) = true
watcher_emits suppress = false

abbrev pub expiry_emits : Option ExpiredWatcherApproval → Bool
expiry_emits none = false
expiry_emits (some (emit event)) = true

-- The call is one of the watcher for the approval with this key, and it announces it.
unfoldable pub announces : String → ApprovalArbiter → Call → DateTime → Bool
announces key arbiter (watcher_call fingerprint event) now =
    fingerprint.key == key && watcher_emits (on_watcher_approval arbiter fingerprint event now).1
announces key arbiter (expire_call fingerprint) now =
    fingerprint.key == key && expiry_emits (expire_candidate arbiter fingerprint now).1
announces key arbiter _ now = false

unfoldable pub call : ApprovalArbiter → Call → DateTime → ApprovalArbiter
call arbiter (watcher_call fingerprint event) now =
    (on_watcher_approval arbiter fingerprint event now).0
call arbiter (hook_call fingerprint) now = (on_hook_approval arbiter fingerprint now).0
call arbiter (relay_call fingerprint) now = (on_relay_approval arbiter fingerprint now).0
call arbiter (expire_call fingerprint) now = (expire_candidate arbiter fingerprint now).0
call arbiter (cancel_call resolve_key) now =
    (cancel_pending_by_attention_resolve_key arbiter resolve_key).0

-- Some call of the history announces the approval with this key for the watcher.
unfoldable pub announced : String → ApprovalArbiter → List (Call × DateTime) → Bool
announced key arbiter [] = false
announced key arbiter ((c, now) ∷ cs) =
    let rest = announced key (call arbiter c now) cs in
    if announces key arbiter c now then true else rest

unfoldable pub run : ApprovalArbiter → List (Call × DateTime) → ApprovalArbiter
run arbiter [] = arbiter
run arbiter ((c, now) ∷ cs) = run (call arbiter c now) cs

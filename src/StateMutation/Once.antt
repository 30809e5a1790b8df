-- ===== src/StateMutation/Once.antt =====
-- What the service announces over its bus, across histories of calls.
use niu_ma_notifier.Prelude.{
  ℕ, ◌+◌, ◌≡◌, refl, sym, ◌∙◌, Bool, true, false, Option, none, some, List, [], ◌∷◌, ◌++◌, arith,
  if◌then◌else◌, any, string_eq, Result, ok, err,
}
use niu_ma_notifier.Models.{ToolId, DateTime, Duration, NiumaEvent, StoredState}
use niu_ma_notifier.ListenerConfig.{ListenerConfig}
use niu_ma_notifier.EventBus.{
  EventBus, new_bus, RuntimeEvent, niuma_events_appended, attention_dismissed, state_reset,
  state_changed, tool_session_control_changed, plugin_notification_test_requested,
  StateChangeReason, publish, publish_niuma_events, publish_attention_dismissed,
  publish_state_changed,
}
use niu_ma_notifier.Store
use niu_ma_notifier.Store.{RuntimeState, has_dedupe_key}
use niu_ma_notifier.Store.Append.{FreshKeys, known_after, append_events_fresh}
use niu_ma_notifier.StateMutation.{
  StateMutationService, append_events, publish_dismissed, dismiss_active_blocker,
  mark_stale_running_sessions, ClearLoop, clear_tool, clear_tools, apply_listener_config_update,
  set_tool_listening_enabled, set_listener_config,
}
use niu_ma_notifier.StateMutation.Keys.{
  KnownIn, FreshKeys-mono, FreshKeys-append, known_after-append, known_after_mono,
}

-- The calls of the service, without the reset.
pub data ServiceCall : Type 0 where
  append : List NiumaEvent → ServiceCall
  dismiss : DateTime → ServiceCall
  sweep : DateTime → Duration → ServiceCall
  set_tool : Result (Unit {0}) → ToolId → Bool → ServiceCall
  set_config : Result (Unit {0}) → ListenerConfig → ServiceCall

unfoldable pub service_step : StateMutationService → ServiceCall → StateMutationService
service_step s (append events) = (append_events s events).0
service_step s (dismiss now) = (dismiss_active_blocker s now).0
service_step s (sweep now timeout) = (mark_stale_running_sessions s now timeout).0
service_step s (set_tool written tool enabled) =
    (set_tool_listening_enabled s written tool enabled).0
service_step s (set_config written config) = (set_listener_config s written config).0

unfoldable pub service_run : StateMutationService → List ServiceCall → StateMutationService
service_run s [] = s
service_run s (c ∷ cs) = service_run (service_step s c) cs

-- The tool events that a message announces, and those of all messages.
abbrev pub events_of : RuntimeEvent → List NiumaEvent
events_of (niuma_events_appended version events) = events
events_of (attention_dismissed version count) = []
events_of (state_reset version) = []
events_of (state_changed version reason) = []
events_of (tool_session_control_changed version tool session normalized channel reason) = []
events_of (plugin_notification_test_requested version request) = []

unfoldable pub announced : List RuntimeEvent → List NiumaEvent
announced [] = []
announced (m ∷ ms) = events_of m ++ announced ms

-- The announced events have distinct keys, and the store remembers them.
record IsOnce (s : StateMutationService) : Type 0 where
  fresh : FreshKeys [] (announced s.runtime_events.sent)
  known : KnownIn (known_after [] (announced s.runtime_events.sent)) s.store.dedupe_keys

append_assoc {ℓ} : {A : Type ℓ} (xs ys zs : List A) → (xs ++ ys) ++ zs ≡ xs ++ (ys ++ zs)
append_assoc [] ys zs = refl
append_assoc (x ∷ xs) ys zs = rw (append_assoc xs ys zs) refl

append_nil {ℓ} : {A : Type ℓ} (xs : List A) → xs ++ [] ≡ xs
append_nil [] = refl
append_nil (x ∷ xs) = rw (append_nil xs) refl

announced-append :
    (ms : List RuntimeEvent) (m : RuntimeEvent)
    → announced (ms ++ m ∷ []) ≡ announced ms ++ events_of m
unfolding announced
announced-append [] m = append_nil (events_of m)
announced-append (x ∷ xs) m =
    rw (announced-append xs m) (sym (append_assoc (events_of x) (announced xs) (events_of m)))

announced-events :
    (bus : EventBus) (es : List NiumaEvent)
    → announced (publish_niuma_events bus es).sent ≡ announced bus.sent ++ es
unfolding publish_niuma_events publish
announced-events bus [] = sym (append_nil (announced bus.sent))
announced-events bus (e ∷ es) = announced-append bus.sent _

append-IsOnce :
    (s : StateMutationService) (es : List NiumaEvent) → IsOnce s → IsOnce (append_events s es).0
unfolding append_events
append-IsOnce s es v =
    let result = Store.append_events_with_result s.store es in
    let (fresh, keys) = append_events_fresh s.store es in
    let old = announced s.runtime_events.sent in
    let e = announced-events s.runtime_events result.1.applied_events in
    record {
      fresh = rw e (
          FreshKeys-append [] old _ v.fresh (FreshKeys-mono _ s.store.dedupe_keys _ v.known fresh));
      known =
          rw (e, known_after-append [] old result.1.applied_events, keys)
            (known_after_mono _ s.store.dedupe_keys result.1.applied_events v.known);
    }

-- A message that announces no event changes nothing announced.
announced-other :
    (bus : EventBus) (build : ℕ → RuntimeEvent)
    → ((v : ℕ) → events_of (build v) ≡ [])
    → announced (publish bus build).sent ≡ announced bus.sent
unfolding publish
announced-other bus build silent =
    announced-append bus.sent _ ∙ rw (silent _) (append_nil (announced bus.sent))

-- Keeping what is announced and forgetting no key keeps the invariant.
silent-IsOnce :
    (s s' : StateMutationService)
    → announced s'.runtime_events.sent ≡ announced s.runtime_events.sent
    → KnownIn s.store.dedupe_keys s'.store.dedupe_keys
    → IsOnce s
    → IsOnce s'
silent-IsOnce s s' e sub v = record {
  fresh = rw e v.fresh;
  known = rw e (λ k h. sub k (v.known k h));
}

dismiss_keys :
    (r : RuntimeState) (now : DateTime)
    → (Store.dismiss_active_blocker r now).0.dedupe_keys ≡ r.dedupe_keys
unfolding Store.dismiss_active_blocker
dismiss_keys r now = ground arith

dismissed_silent :
    (bus : EventBus) (result : Option Store.DismissAttentionResult)
    → announced (publish_dismissed bus result).sent ≡ announced bus.sent
unfolding publish_dismissed publish_attention_dismissed
dismissed_silent bus none = refl
dismissed_silent bus (some result) = announced-other bus _ (λ v. refl)

dismiss-IsOnce :
    (s : StateMutationService) (now : DateTime) → IsOnce s → IsOnce (dismiss_active_blocker s now).0
unfolding dismiss_active_blocker
dismiss-IsOnce s now v =
    silent-IsOnce s _ (dismissed_silent s.runtime_events _) (λ k h. rw (dismiss_keys s.store now) h)
      v

sweep_loop_keys :
    (r : RuntimeState) (st : StoredState) (n : ℕ) (es : List NiumaEvent)
    → KnownIn r.dedupe_keys (Store.sweep_loop r st n es).0.dedupe_keys
unfolding Store.sweep_loop any
sweep_loop_keys r st n [] k h = h
sweep_loop_keys r st n (e ∷ es) k h = ground (
  arith,
  sweep_loop_keys r st n es k h,
  λ (g : has_dedupe_key (e.dedupe_key ∷ r.dedupe_keys) k ≡ true).
      sweep_loop_keys (record r { dedupe_keys = e.dedupe_key ∷ r.dedupe_keys })
        (Store.apply_event st e) (n + 1) es k g,
)

changed_silent :
    (bus : EventBus) (b : Bool) (reason : StateChangeReason)
    → announced (if b then publish_state_changed bus reason else bus).sent ≡ announced bus.sent
unfolding publish_state_changed
changed_silent bus true reason = announced-other bus _ (λ v. refl)
changed_silent bus false reason = refl

sweep-IsOnce :
    (s : StateMutationService) (now : DateTime) (timeout : Duration)
    → IsOnce s
    → IsOnce (mark_stale_running_sessions s now timeout).0
unfolding mark_stale_running_sessions Store.mark_stale_running_sessions_with_result
sweep-IsOnce s now timeout v =
    silent-IsOnce s _ (changed_silent s.runtime_events _ _)
      (λ k h. sweep_loop_keys s.store s.store.state 0 _ k h) v

clear_tools_keys :
    (l : ClearLoop) (tools : List ToolId)
    → (clear_tools l tools).store.dedupe_keys ≡ l.store.dedupe_keys
unfolding clear_tools clear_tool Store.clear_tool_state
clear_tools_keys l [] = refl
clear_tools_keys l (t ∷ ts) = clear_tools_keys (clear_tool l t) ts

update-IsOnce :
    (s : StateMutationService) (written : Result (Unit {0})) (previous config : ListenerConfig)
    (tools : List ToolId)
    → IsOnce s
    → IsOnce (apply_listener_config_update s written previous config tools).0
unfolding apply_listener_config_update
update-IsOnce s (err message) previous config tools v = v
update-IsOnce s (ok u) previous config tools v =
    silent-IsOnce s _ (changed_silent s.runtime_events _ _) (λ k h. rw (clear_tools_keys _ tools) h)
      v

service_step-IsOnce :
    (s : StateMutationService) (c : ServiceCall) → IsOnce s → IsOnce (service_step s c)
unfolding service_step set_tool_listening_enabled set_listener_config
service_step-IsOnce s (append events) v = append-IsOnce s events v
service_step-IsOnce s (dismiss now) v = dismiss-IsOnce s now v
service_step-IsOnce s (sweep now timeout) v = sweep-IsOnce s now timeout v
service_step-IsOnce s (set_tool written tool enabled) v = update-IsOnce s written _ _ _ v
service_step-IsOnce s (set_config written config) v = update-IsOnce s written _ _ _ v

service_run-IsOnce :
    (s : StateMutationService) (cs : List ServiceCall) → IsOnce s → IsOnce (service_run s cs)
unfolding service_run
service_run-IsOnce s [] v = v
service_run-IsOnce s (c ∷ cs) v =
    service_run-IsOnce (service_step s c) cs (service_step-IsOnce s c v)

abbrev pub new_service : ListenerConfig → StateMutationService
new_service config = record {
  store = Store.default_runtime;
  config = config;
  runtime_events = new_bus;
}

-- In any history of calls of a new service that contains no reset, the events announced over the
-- bus have pairwise distinct dedupe keys: none is announced twice.
pub announced_once :
    (config : ListenerConfig) (cs : List ServiceCall)
    → FreshKeys [] (announced (service_run (new_service config) cs).runtime_events.sent)
unfolding announced new_bus known_after Store.default_runtime
announced_once config cs =
    (service_run-IsOnce (new_service config) cs (record { fresh = tt; known = λ k h. h })).fresh

-- ===== src/MainState/Shown.antt =====
-- When the program shows that something waits, that something failed, and that nothing happens.
use niu_ma_notifier.Prelude.{
  ℕ, ◌+◌, ◌≤◌, ◌≡◌, refl, inl, inr, Bool, true, false, not, ◌&&◌, Option, none, some, List, [], ◌∷◌,
  arith, if◌then◌else◌, any, find?, Bool-cases, Option-cases, ◌==◌, is_some-find?, find?-holds,
  Result, ok, err,
}
use niu_ma_notifier.Models.{
  RuntimeStateStatus, status_eq, ApprovalStatus, approval_status_eq, NiumaEvent, DateTime,
  LatestActivity, AttentionItem, ApprovalRequest, StoredState, default_state, idle_activity,
  activity_from_event, niuma_approval, tool_approval,
}
use niu_ma_notifier.Transitions.{
  apply_attention_transition, transition_for_status, status_from_event, push_attention,
  resume_attention, restore_session_attention_status, clear_run,
}
use niu_ma_notifier.ListenerConfig.{ListenerConfig, is_any_ai_listening_enabled}
use niu_ma_notifier.Store.{RuntimeState, main_state_input, default_runtime, apply_event}
use niu_ma_notifier.Store
use niu_ma_notifier.Approval
use niu_ma_notifier.Store.History.{StoreCall, store_step, store_run}
use niu_ma_notifier.MainState.{
  event_map, MainStateStatus, idle_payload, shown_status, is_waiting_item, is_error_item,
  current_state, state_without_items, state_from_latest_activity, state_from_attention_item,
  is_expired, interaction_from_approval_request,
}

abbrev pub shows_waiting : MainStateStatus → Bool
shows_waiting MainStateStatus.waiting_approval = true
shows_waiting MainStateStatus.waiting_input = true
shows_waiting _ = false

abbrev pub shows_error : MainStateStatus → Bool
shows_error MainStateStatus.error = true
shows_error _ = false

-- The latest activity is a run that goes on or has completed, or none.
abbrev quiet : Option LatestActivity → Bool
quiet none = true
quiet (some activity) = elim activity.status [
  | RuntimeStateStatus.running ↦ true
  | RuntimeStateStatus.completed ↦ true
  | RuntimeStateStatus.idle ↦ true
  | _ ↦ false
]

resting_waits :
    (r : RuntimeState) (now : DateTime)
    → quiet r.state.latest_activity ≡ true
    → (m : _)
    → (shows_waiting
          (state_without_items r.state.latest_activity r.state.runtime_states m now).status
        ≡ false)
      × (shows_error
            (state_without_items r.state.latest_activity r.state.runtime_states m now).status
          ≡ false)
unfolding state_without_items state_from_latest_activity shown_status idle_payload
resting_waits r now q m = ground arith

apply-quiet :
    (st : StoredState) (e : NiumaEvent)
    → quiet st.latest_activity ≡ true
    → quiet (apply_event st e).latest_activity ≡ true
unfolding apply_event apply_attention_transition transition_for_status status_from_event
    push_attention resume_attention restore_session_attention_status clear_run activity_from_event
    idle_activity
apply-quiet st e q = ground arith

step-quiet :
    (l : Store.AppendLoop) (e : NiumaEvent)
    → quiet l.state.latest_activity ≡ true
    → quiet (Store.append_event_step l e).state.latest_activity ≡ true
unfolding Store.append_event_step Store.append_applied
step-quiet l e q = elim (Bool-cases (Store.is_skipped l e)) [
  | inl h ↦ rw h q
  | inr h ↦ rw h (apply-quiet l.state e q)
]

loop-quiet :
    (l : Store.AppendLoop) (es : List NiumaEvent)
    → quiet l.state.latest_activity ≡ true
    → quiet (Store.append_events_loop l es).state.latest_activity ≡ true
unfolding Store.append_events_loop
loop-quiet l [] q = q
loop-quiet l (e ∷ es) q = loop-quiet (Store.append_event_step l e) es (step-quiet l e q)

trim-quiet :
    (r : RuntimeState)
    → quiet r.state.latest_activity ≡ true
    → quiet (Store.trim_public_event_cache r).state.latest_activity ≡ true
unfolding Store.trim_public_event_cache
trim-quiet r q = ground arith

sweep-quiet :
    (r : RuntimeState) (st : StoredState) (n : ℕ) (es : List NiumaEvent)
    → quiet st.latest_activity ≡ true
    → quiet (Store.sweep_loop r st n es).1.latest_activity ≡ true
unfolding Store.sweep_loop
sweep-quiet r st n [] q = q
sweep-quiet r st n (e ∷ es) q = ground (
  arith,
  sweep-quiet r st n es q,
  sweep-quiet (record r { dedupe_keys = e.dedupe_key ∷ r.dedupe_keys }) (apply_event st e) (n + 1)
      es (apply-quiet st e q),
)

requests-quiet :
    (r : RuntimeState) (result : Result (List ApprovalRequest × Approval.ApprovalMutationResult))
    → quiet r.state.latest_activity ≡ true
    → quiet (Store.store_requests r result).0.state.latest_activity ≡ true
requests-quiet r (ok (requests, result)) q = q
requests-quiet r (err message) q = q

dismiss-quiet :
    (r : RuntimeState) (now : DateTime)
    → quiet r.state.latest_activity ≡ true
    → quiet (Store.dismiss_active_blocker r now).0.state.latest_activity ≡ true
unfolding Store.dismiss_active_blocker
dismiss-quiet r now q = ground arith

clear-quiet :
    (st : StoredState) (tool : _)
    → quiet st.latest_activity ≡ true
    → quiet (Store.cleared_of_tool st tool).latest_activity ≡ true
unfolding Store.cleared_of_tool idle_activity
clear-quiet st tool q = ground arith

store_step-quiet :
    (r : RuntimeState) (c : StoreCall)
    → quiet r.state.latest_activity ≡ true
    → quiet (store_step r c).state.latest_activity ≡ true
unfolding store_step Store.upsert_approval_request Store.decide_approval
    Store.return_approval_to_codex Store.resolve_approval_in_tool Store.heartbeat_approval_proxy
    Store.return_stale_approval_proxies_to_codex Store.save_plugin_runtime_state
    Store.remove_plugin_runtime_state Store.clear_tool_state Store.reset default_runtime
    default_state idle_activity Store.append_events_with_result
    Store.mark_stale_running_sessions_with_result
store_step-quiet r (StoreCall.append events) q =
    trim-quiet _ (loop-quiet (Store.start_loop r) events q)
store_step-quiet r (StoreCall.sweep_sessions now timeout) q = sweep-quiet r r.state 0 _ q
store_step-quiet r (StoreCall.upsert request) q = q
store_step-quiet r (StoreCall.decide id decision by source reason now) q = requests-quiet r _ q
store_step-quiet r (StoreCall.return_request id by source reason now) q = requests-quiet r _ q
store_step-quiet r (StoreCall.resolve id by reason now) q = requests-quiet r _ q
store_step-quiet r (StoreCall.heartbeat id now) q = requests-quiet r _ q
store_step-quiet r (StoreCall.sweep_proxies now stale_after) q = q
store_step-quiet r (StoreCall.save_plugin_state id state) q = q
store_step-quiet r (StoreCall.remove_plugin_state id) q = q
store_step-quiet r (StoreCall.clear_tool tool) q = clear-quiet r.state tool q
store_step-quiet r StoreCall.reset_all q = refl
store_step-quiet r (StoreCall.dismiss now) q = dismiss-quiet r now q

store_run-quiet :
    (r : RuntimeState) (cs : List StoreCall)
    → quiet r.state.latest_activity ≡ true
    → quiet (store_run r cs).state.latest_activity ≡ true
unfolding store_run
store_run-quiet r [] q = q
store_run-quiet r (c ∷ cs) q = store_run-quiet (store_step r c) cs (store_step-quiet r c q)

waiting_item_waits :
    (item : AttentionItem)
    → is_waiting_item item ≡ true
    → (shows_waiting (shown_status item.status) ≡ true)
      × (shows_error (shown_status item.status) ≡ false)
unfolding is_waiting_item shown_status
waiting_item_waits item h = ground arith

quiet_shows :
    (r : RuntimeState) (config : ListenerConfig) (now : DateTime)
    → quiet r.state.latest_activity ≡ true
    → let shown = (current_state r config now).status in
      let items = r.state.attention_items in
      (shows_waiting shown ≡ (is_any_ai_listening_enabled config && any is_waiting_item items))
      × (shows_error shown ≡ (
          is_any_ai_listening_enabled config
          && not (any is_waiting_item items)
          && any is_error_item items))
unfolding current_state main_state_input state_from_attention_item idle_payload
quiet_shows r config now q = elim (Option-cases (find? is_waiting_item r.state.attention_items)) [
  | inr (item, h) ↦ ground (
    arith,
    h,
    waiting_item_waits item (find?-holds is_waiting_item r.state.attention_items h),
    is_some-find? is_waiting_item r.state.attention_items,
  )
  | inl h ↦ ground (
    arith,
    h,
    is_some-find? is_waiting_item r.state.attention_items,
    is_some-find? is_error_item r.state.attention_items,
    resting_waits r now q (event_map (main_state_input r).public_events),
  )
]

-- After any calls on a new store, and with any switches, the program shows that something waits
-- exactly when some tool is listened to and some open item waits, and an error exactly when some
-- tool is listened to, no open item waits and some open item is an error.
pub shows_lem :
    (cs : List StoreCall) (config : ListenerConfig) (now : DateTime)
    → let r = store_run default_runtime cs in
      let shown = (current_state r config now).status in
      let items = r.state.attention_items in
      (shows_waiting shown ≡ (is_any_ai_listening_enabled config && any is_waiting_item items))
      × (shows_error shown ≡ (
          is_any_ai_listening_enabled config
          && not (any is_waiting_item items)
          && any is_error_item items))
unfolding default_runtime default_state idle_activity
shows_lem cs config now =
    quiet_shows (store_run default_runtime cs) config now (store_run-quiet default_runtime cs refl)

-- While the store and the switches stay as they are, a program that shows idle shows idle at every
-- later time.
pub idle_lasts :
    (r : RuntimeState) (config : ListenerConfig) (now later : DateTime)
    → now ≤ later
    → current_state r config now ≡ idle_payload
    → current_state r config later ≡ idle_payload
unfolding current_state state_without_items state_from_latest_activity is_expired idle_payload
    state_from_attention_item
idle_lasts r config now later le h = ground arith

-- Of an approval request, Niuma offers a decision exactly while the request is pending, and the
-- decision is on that request over the request's own channel.
pub actionable_lem :
    (request : ApprovalRequest)
    → let shown = interaction_from_approval_request request in
      (shown.actionable ≡ (request.status == ApprovalStatus.pending))
      × (shown.request_id
          ≡ (if request.status == ApprovalStatus.pending then some request.id else none))
      × (shown.control_ref
          ≡ (if request.status == ApprovalStatus.pending then request.control_ref else none))
unfolding interaction_from_approval_request niuma_approval tool_approval
actionable_lem request = ground arith

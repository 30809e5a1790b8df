-- ===== src/Store/History.antt =====
-- Every history of store calls, from the empty store.
use niu_ma_notifier.Prelude.{
  String, refl, inl, inr, length, any, Bool-cases, ◌==◌, nat_eq, Option, List, [], ◌∷◌, Result, ok,
  err,
}
use niu_ma_notifier.Models.{
  ToolId, ApprovalDecisionKind, DateTime, Duration, NiumaEvent, ApprovalRequest,
}
use niu_ma_notifier.Approval.{ApprovalMutationResult}
use niu_ma_notifier.Plugin.RuntimeState.{PluginRuntimeState}
use niu_ma_notifier.Store.{
  RuntimeState, default_runtime, append_events_with_result, mark_stale_running_sessions_with_result,
  upsert_approval_request, store_requests, decide_approval, return_approval_to_codex,
  resolve_approval_in_tool, heartbeat_approval_proxy, return_stale_approval_proxies_to_codex,
  save_plugin_runtime_state, remove_plugin_runtime_state, clear_tool_state, reset,
  dismiss_active_blocker,
}
use niu_ma_notifier.Store.Invariant.{IsValid, default_state-IsValid}
use niu_ma_notifier.Store.Append.{append_events-IsValid}
use niu_ma_notifier.Store.Sweep.{sweep-IsValid}
use niu_ma_notifier.Store.Clear.{cleared-IsValid}

-- The methods of the store that change its state.
pub data StoreCall : Type 0 where
  append : List NiumaEvent → StoreCall
  sweep_sessions : DateTime → Duration → StoreCall
  upsert : ApprovalRequest → StoreCall
  decide : String → ApprovalDecisionKind → String → String → Option String → DateTime → StoreCall
  return_request : String → String → String → String → DateTime → StoreCall
  resolve : String → String → Option String → DateTime → StoreCall
  heartbeat : String → DateTime → StoreCall
  sweep_proxies : DateTime → Duration → StoreCall
  save_plugin_state : String → PluginRuntimeState → StoreCall
  remove_plugin_state : String → StoreCall
  clear_tool : ToolId → StoreCall
  reset_all : StoreCall
  dismiss : DateTime → StoreCall

unfoldable pub store_step : RuntimeState → StoreCall → RuntimeState
store_step r (append events) = (append_events_with_result r events).0
store_step r (sweep_sessions now timeout) =
    (mark_stale_running_sessions_with_result r now timeout).0
store_step r (upsert request) = (upsert_approval_request r request).0
store_step r (decide id decision by source reason now) =
    (decide_approval r id decision by source reason now).0
store_step r (return_request id by source reason now) =
    (return_approval_to_codex r id by source reason now).0
store_step r (resolve id by reason now) = (resolve_approval_in_tool r id by reason now).0
store_step r (heartbeat id now) = (heartbeat_approval_proxy r id now).0
store_step r (sweep_proxies now stale_after) =
    (return_stale_approval_proxies_to_codex r now stale_after).0
store_step r (save_plugin_state id state) = save_plugin_runtime_state r id state
store_step r (remove_plugin_state id) = remove_plugin_runtime_state r id
store_step r (clear_tool tool) = (clear_tool_state r tool).0
store_step r reset_all = (reset r).0
store_step r (dismiss now) = (dismiss_active_blocker r now).0

unfoldable pub store_run : RuntimeState → List StoreCall → RuntimeState
store_run r [] = r
store_run r (c ∷ cs) = store_run (store_step r c) cs

requests-IsValid :
    (r : RuntimeState) (result : Result (List ApprovalRequest × ApprovalMutationResult))
    → IsValid r.state
    → IsValid (store_requests r result).0.state
requests-IsValid r (ok (requests, result)) v = record {
  runs = v.runs;
  events = v.events;
  inputs = v.inputs;
}
requests-IsValid r (err message) v = v

dismiss-IsValid :
    (r : RuntimeState) (now : DateTime)
    → IsValid r.state
    → IsValid (dismiss_active_blocker r now).0.state
unfolding dismiss_active_blocker any
dismiss-IsValid r now v = elim (Bool-cases (length r.state.attention_items == 0)) [
  | inl e ↦ rw e v
  | inr e ↦ rw e (record { runs = v.runs; events = tt; inputs = λ t s. refl })
]

pub store_step-IsValid :
    (r : RuntimeState) (c : StoreCall) → IsValid r.state → IsValid (store_step r c).state
unfolding store_step upsert_approval_request decide_approval return_approval_to_codex
    resolve_approval_in_tool heartbeat_approval_proxy return_stale_approval_proxies_to_codex
    save_plugin_runtime_state remove_plugin_runtime_state clear_tool_state reset default_runtime
store_step-IsValid r (append events) v = (append_events-IsValid r events v).0
store_step-IsValid r (sweep_sessions now timeout) v = sweep-IsValid r now timeout v
store_step-IsValid r (upsert request) v = record {
  runs = v.runs;
  events = v.events;
  inputs = v.inputs;
}
store_step-IsValid r (decide id decision by source reason now) v = requests-IsValid r _ v
store_step-IsValid r (return_request id by source reason now) v = requests-IsValid r _ v
store_step-IsValid r (resolve id by reason now) v = requests-IsValid r _ v
store_step-IsValid r (heartbeat id now) v = requests-IsValid r _ v
store_step-IsValid r (sweep_proxies now stale_after) v = record {
  runs = v.runs;
  events = v.events;
  inputs = v.inputs;
}
store_step-IsValid r (save_plugin_state id state) v = v
store_step-IsValid r (remove_plugin_state id) v = v
store_step-IsValid r (clear_tool tool) v = cleared-IsValid r.state tool v
store_step-IsValid r reset_all v = default_state-IsValid
store_step-IsValid r (dismiss now) v = dismiss-IsValid r now v

store_run-IsValid :
    (r : RuntimeState) (cs : List StoreCall) → IsValid r.state → IsValid (store_run r cs).state
unfolding store_run
store_run-IsValid r [] v = v
store_run-IsValid r (c ∷ cs) v = store_run-IsValid (store_step r c) cs (store_step-IsValid r c v)

-- After any calls on a new store, no run has two items, no event has two attention items, and no
-- run waits for an input both through the relay and as a fallback.
pub store_always-IsValid : (cs : List StoreCall) → IsValid (store_run default_runtime cs).state
unfolding default_runtime
store_always-IsValid cs = store_run-IsValid default_runtime cs default_state-IsValid

-- ===== src/Witnesses/Stores.antt =====
-- The store.
use niu_ma_notifier.Prelude.{
  ◌≤◌, String, ◌≡◌, refl, false, not, ◌&&◌, none, some, List, [], ◌∷◌, arith, find?, any, retain,
  length, ◌==◌, string_eq, eq_iff,
}
use niu_ma_notifier.Models.{
  ToolId, tool_beq, RuntimeStateStatus, EventType, RuntimeStateItem, activity_from_event,
}
use niu_ma_notifier.Transitions.{
  runtime_matches, attention_matches, attention_item_matches_event, is_keyed_approval,
  is_keyed_input, is_unkeyed_input_for_session, same_run, apply_attention_transition,
}
use niu_ma_notifier.Transitions.Isolation.{items_of_run}
use niu_ma_notifier.Transitions.Shown.{status_shown, own_status, shows_open_item}
use niu_ma_notifier.Transitions.Resolution.{
  has_key, keyed_resume_settles, keyed_resume_keeps_other_keys, unkeyed_resume,
}
use niu_ma_notifier.Store.{
  default_runtime, apply_event, append_events_with_result, is_stale_session,
  mark_stale_running_sessions_with_result, max_public_event_cache_size, trim_public_event_cache,
  clear_tool_state, RuntimeState,
}
use niu_ma_notifier.Store.Events.{main_state_event_ids}
use niu_ma_notifier.Store.Invariant.{IsValid, apply_event_isolated}
use niu_ma_notifier.Store.Append.{FreshKeys, known_after, append_events_fresh}
use niu_ma_notifier.Store.Sweep.{KeptOrStale, sweep_only_stales, sweep_keeps_active}
use niu_ma_notifier.Store.Cache.{idle_events, is_active, trim_public_event_cache_lem}
use niu_ma_notifier.Store.Clear.{IsCleared, SameTool, clear_tool_isolated}
use niu_ma_notifier.Store.History.{StoreCall, store_run, store_always-IsValid}
use niu_ma_notifier.Witnesses.Data.{
  event, started, asked, resolved, resumed, run_of, waiting_state, waiting_store,
}

abbrev calls : List StoreCall
calls =
    StoreCall.append (started ∷ asked ∷ resolved ∷ [])
    ∷ StoreCall.clear_tool ToolId.codex
    ∷ StoreCall.dismiss 60
    ∷ []

store_always-IsValid_example : IsValid (store_run default_runtime calls).state
store_always-IsValid_example = store_always-IsValid calls

apply_event_isolated_example :
    (find?
        (runtime_matches ToolId.claude_code "c")
        (apply_event waiting_state resolved).runtime_states
      ≡ find? (runtime_matches ToolId.claude_code "c") waiting_state.runtime_states)
    × (items_of_run ToolId.claude_code "c" (apply_event waiting_state resolved).attention_items
        ≡ items_of_run ToolId.claude_code "c" waiting_state.attention_items)
unfolding same_run tool_beq
apply_event_isolated_example =
    apply_event_isolated waiting_state resolved ToolId.claude_code "c" refl (λ e. ground arith)

keyed_resume_settles_example :
    any
      (λ item. attention_item_matches_event item resolved && has_key "approval:a" item)
      (apply_attention_transition waiting_state resolved).attention_items
    ≡ false
keyed_resume_settles_example = keyed_resume_settles waiting_state resolved refl "approval:a" refl

keyed_resume_keeps_other_keys_example :
    retain
      (has_key "approval:b")
      (apply_attention_transition waiting_state resolved).attention_items
    ≡ retain (has_key "approval:b") waiting_state.attention_items
keyed_resume_keeps_other_keys_example =
    keyed_resume_keeps_other_keys waiting_state resolved refl "approval:a" refl "approval:b"
      (λ e. ground (arith, eq_iff "approval:b" "approval:a"))

unkeyed_resume_example :
    retain
      (λ item. attention_item_matches_event item resumed)
      (apply_attention_transition waiting_state resumed).attention_items
    ≡ retain
        (λ item. attention_item_matches_event item resumed && is_keyed_approval item)
        waiting_state.attention_items
unkeyed_resume_example = unkeyed_resume waiting_state resumed refl refl

shows_open_item_example :
    let st' = apply_event waiting_state resolved in
    (run : RuntimeStateItem) × (find? (runtime_matches ToolId.codex "s") st'.runtime_states
      ≡ some run)
    × (run.status
        ≡ status_shown
            (find? (attention_matches ToolId.codex "s") st'.attention_items)
            (own_status EventType.approval_resolved))
    × (run.last_event_id ≡ some "e3")
    × (run.last_activity_at ≡ 30)
shows_open_item_example = shows_open_item waiting_state resolved refl

append_events_fresh_example :
    let (after, result) =
      append_events_with_result waiting_store (resolved ∷ resolved ∷ asked ∷ []) in
    FreshKeys waiting_store.dedupe_keys result.applied_events
    × (after.dedupe_keys ≡ known_after waiting_store.dedupe_keys result.applied_events)
append_events_fresh_example = append_events_fresh waiting_store (resolved ∷ resolved ∷ asked ∷ [])

sweep_only_stales_example :
    let (after, result) = mark_stale_running_sessions_with_result waiting_store 1000 10 in
    ((t : ToolId) (s : String) → KeptOrStale t s waiting_store.state after.state)
    × (result.staled_count
        ≤ length (retain (is_stale_session 1000 10) waiting_store.state.runtime_states))
    × (after.public_events ≡ waiting_store.public_events)
sweep_only_stales_example = sweep_only_stales waiting_store 1000 10

waiting-IsValid : IsValid waiting_state
unfolding any same_run tool_beq is_keyed_input is_unkeyed_input_for_session
waiting-IsValid = record {
  runs = (refl, (refl, tt));
  events = (refl, (refl, tt));
  inputs = λ t s. ground arith;
}

sweep_keeps_active_example :
    find?
      (runtime_matches ToolId.claude_code "c")
      (mark_stale_running_sessions_with_result waiting_store 12 10).0.state.runtime_states
    ≡ some (run_of ToolId.claude_code "c" RuntimeStateStatus.running 6)
unfolding find? same_run tool_beq is_stale_session
sweep_keeps_active_example =
    sweep_keeps_active waiting_store 12 10 ToolId.claude_code "c"
      (run_of ToolId.claude_code "c" RuntimeStateStatus.running 6) waiting-IsValid refl refl

trim_public_event_cache_lem_example :
    (idle_events (trim_public_event_cache waiting_store) ≤ max_public_event_cache_size)
    × (any
          (λ e. is_active (main_state_event_ids waiting_state) e)
          (trim_public_event_cache waiting_store).public_events
        ≡ any (λ e. is_active (main_state_event_ids waiting_state) e) waiting_store.public_events)
    × ((any (λ e. e.id == "e9") (trim_public_event_cache waiting_store).public_events
          && not (any (λ e. e.id == "e9") waiting_store.public_events))
        ≡ false)
trim_public_event_cache_lem_example =
    trim_public_event_cache_lem waiting_store
      (λ e. is_active (main_state_event_ids waiting_state) e) (λ e. e.id == "e9") (λ e h. h)

-- The latest activity is one of the tool that is not cleared.
abbrev active_store : RuntimeState
active_store = record waiting_store {
  state = record waiting_state {
    latest_activity = some (
        activity_from_event (event "e8" ToolId.claude_code "c" EventType.session_activity none 50)
          RuntimeStateStatus.running);
  };
}

clear_tool_isolated_example :
    let after = (clear_tool_state active_store ToolId.codex).0 in
    IsCleared ToolId.codex after.state
    × SameTool ToolId.claude_code active_store.state after.state
    × (after.state.events ≡ active_store.state.events)
    × (after.public_events ≡ active_store.public_events)
    × (after.dedupe_keys ≡ active_store.dedupe_keys)
    × (after.plugin_runtime_states ≡ active_store.plugin_runtime_states)
clear_tool_isolated_example =
    clear_tool_isolated active_store ToolId.codex ToolId.claude_code (λ e. ground arith)

-- ===== src/Store/Sweeping.antt =====
-- `mark_stale_running_sessions_with_result` of crates/niuma-core/src/store.rs.
use niu_ma_notifier.Prelude.Text.{format, decimal}
use niu_ma_notifier.Prelude.{
  ℕ, ◌+◌, Bool, ◌&&◌, none, List, [], ◌∷◌, map, leb, if◌then◌else◌, retain, ◌==◌, nat_eq, string_eq,
  option_eq,
}
use niu_ma_notifier.Models.{
  tool_eq, as_str, RuntimeStateStatus, status_eq, EventType, DateTime, Duration, NiumaEvent,
  RuntimeStateItem, StoredState,
}
use niu_ma_notifier.Store.State.{
  RuntimeState, event_already_applied, apply_event, timestamp_millis, timestamp,
}

pub record StaleSweepResult : Type 0 where
  pub state : StoredState
  pub staled_count : ℕ

unfoldable pub stale_event : DateTime → RuntimeStateItem → NiumaEvent
stale_event now session = record {
  id = format (
      "event_stale_"
      ∷ as_str session.tool
      ∷ "_"
      ∷ session.session_id
      ∷ "_"
      ∷ decimal (timestamp_millis now)
      ∷ []);
  dedupe_key = format (
      "stale:"
      ∷ as_str session.tool
      ∷ ":"
      ∷ session.session_id
      ∷ ":"
      ∷ decimal (timestamp now)
      ∷ []);
  source = "niuma-session-stale-sweeper";
  tool = session.tool;
  session_id = session.session_id;
  parent_session_id = none;
  normalized_session_id = none;
  session_scope = none;
  agent_nickname = none;
  agent_role = none;
  tool_call_id = none;
  project_path = session.project_path;
  project_name = session.project_name;
  event_type = EventType.session_staled;
  severity = "info";
  summary = format (as_str session.tool ∷ " session became stale" ∷ []);
  content = none;
  error_message = none;
  attention_resolve_key = none;
  completion_reason = none;
  failure_reason = none;
  payload_ref = none;
  interaction = none;
  created_at = now;
}

-- The two `filter`s of the sweep.
unfoldable pub is_stale_session : DateTime → Duration → RuntimeStateItem → Bool
is_stale_session now timeout session =
    session.status == RuntimeStateStatus.running && leb (session.last_activity_at + timeout) now

-- The loop over the stale events.
unfoldable pub sweep_loop :
    RuntimeState → StoredState → ℕ → List NiumaEvent → RuntimeState × StoredState × ℕ
sweep_loop runtime state staled_count [] = (runtime, state, staled_count)
sweep_loop runtime state staled_count (event ∷ events) =
    let swept =
      sweep_loop (record runtime { dedupe_keys = event.dedupe_key ∷ runtime.dedupe_keys })
        (apply_event state event) (staled_count + 1) events in
    let skipped = sweep_loop runtime state staled_count events in
    if event_already_applied runtime state event then skipped else swept

unfoldable pub mark_stale_running_sessions_with_result :
    RuntimeState → DateTime → Duration → RuntimeState × StaleSweepResult
mark_stale_running_sessions_with_result runtime now timeout =
    let (swept, state, staled_count) = sweep_loop runtime runtime.state 0 (
      map (stale_event now) (retain (is_stale_session now timeout) runtime.state.runtime_states)) in
    (record swept { state = state }, record { state = state; staled_count = staled_count })

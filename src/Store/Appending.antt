-- ===== src/Store/Appending.antt =====
-- `append_events_with_result` of crates/niuma-core/src/store.rs, and the cache of public events.
use niu_ma_notifier.Prelude.{
  ℕ, String, Bool, true, false, not, ◌||◌, List, [], ◌∷◌, ◌++◌, leb, if◌then◌else◌, any, length,
  ◌==◌, nat_eq, string_eq, option_eq,
}
use niu_ma_notifier.Models.{tool_eq, status_eq, EventType, NiumaEvent, StoredState}
use niu_ma_notifier.Transitions.{is_late_terminal_activity}
use niu_ma_notifier.Store.Events.{sort_events_newest_first, main_state_event_ids}
use niu_ma_notifier.Store.State.{RuntimeState, event_already_applied, apply_event}

abbrev pub max_public_event_cache_size : ℕ
max_public_event_cache_size = 200

unfoldable pub is_public_event : NiumaEvent → Bool
is_public_event event = elim event.event_type [
  | EventType.session_activity ↦ false
  | EventType.session_staled ↦ false
  | _ ↦ true
]

pub record AppendEventsResult : Type 0 where
  pub state : StoredState
  pub applied_events : List NiumaEvent

-- The variables of the loop of `append_events_with_result`.
pub record AppendLoop : Type 0 where
  pub runtime : RuntimeState
  pub state : StoredState
  pub applied_events : List NiumaEvent

-- What the loop body does with an event that it does not skip.
unfoldable pub append_applied : AppendLoop → NiumaEvent → AppendLoop
append_applied loop event = record {
  runtime = record loop.runtime {
    dedupe_keys = event.dedupe_key ∷ loop.runtime.dedupe_keys;
    public_events =
        if is_public_event event
        then loop.runtime.public_events ++ event ∷ []
        else loop.runtime.public_events;
  };
  state = apply_event loop.state event;
  applied_events = loop.applied_events ++ event ∷ [];
}

-- The two `continue`s of the loop body.
unfoldable pub is_skipped : AppendLoop → NiumaEvent → Bool
is_skipped loop event =
    event_already_applied loop.runtime loop.state event
    || is_late_terminal_activity loop.state.runtime_states event

unfoldable pub append_event_step : AppendLoop → NiumaEvent → AppendLoop
append_event_step loop event = if is_skipped loop event then loop else append_applied loop event

unfoldable pub append_events_loop : AppendLoop → List NiumaEvent → AppendLoop
append_events_loop loop [] = loop
append_events_loop loop (event ∷ events) = append_events_loop (append_event_step loop event) events

-- The loop body of `trim_public_event_cache`.
unfoldable pub trim_step : List String → List NiumaEvent → NiumaEvent → List NiumaEvent
trim_step active kept event =
    if not (leb max_public_event_cache_size (length kept)) || any (λ id. id == event.id) active
    then kept ++ event ∷ []
    else kept

-- The loop, over the sorted events.
unfoldable pub trim_loop : List String → List NiumaEvent → List NiumaEvent → List NiumaEvent
unfolding trim_step
trim_loop active kept [] = kept
trim_loop active kept (event ∷ events) = trim_loop active (trim_step active kept event) events

unfoldable pub trim_public_event_cache : RuntimeState → RuntimeState
trim_public_event_cache runtime =
    if leb (length runtime.public_events) max_public_event_cache_size
    then runtime
    else record runtime {
      public_events =
          trim_loop (main_state_event_ids runtime.state) []
            (sort_events_newest_first runtime.public_events);
    }

abbrev pub start_loop : RuntimeState → AppendLoop
start_loop runtime = record { runtime = runtime; state = runtime.state; applied_events = [] }

abbrev pub finish_loop : AppendLoop → RuntimeState × AppendEventsResult
finish_loop loop = (
  trim_public_event_cache (record loop.runtime { state = loop.state }),
  record { state = loop.state; applied_events = loop.applied_events },
)

unfoldable pub append_events_with_result :
    RuntimeState → List NiumaEvent → RuntimeState × AppendEventsResult
append_events_with_result runtime events =
    finish_loop (append_events_loop (start_loop runtime) events)

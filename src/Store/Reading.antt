-- ===== src/Store/Reading.antt =====
-- The methods of crates/niuma-core/src/store.rs that read the cache of public events.
use niu_ma_notifier.Prelude.{
  ℕ, String, Option, none, some, List, [], ◌∷◌, if◌then◌else◌, find?, take, ◌==◌, nat_eq, string_eq,
  option_eq,
}
use niu_ma_notifier.Models.{tool_eq, status_eq, NiumaEvent, StoredState}
use niu_ma_notifier.Store.Events.{sort_events_newest_first, main_state_event_ids}
use niu_ma_notifier.Store.State.{RuntimeState}

pub record MainStateInput : Type 0 where
  pub state : StoredState
  pub public_events : List NiumaEvent

-- `iter().find(|event| event.id == event_id)`.
abbrev pub event_with_id : String → List NiumaEvent → Option NiumaEvent
event_with_id event_id = find? (λ event. event.id == event_id)

-- The loop over `main_state_event_ids`: the cached events among them, in the order of the ids.
unfoldable pub referenced_events : List NiumaEvent → List String → List NiumaEvent
referenced_events public_events [] = []
referenced_events public_events (event_id ∷ ids) =
    let rest = referenced_events public_events ids in
    elim (event_with_id event_id public_events) [ none ↦ rest | some event ↦ event ∷ rest ]

unfoldable pub main_state_input : RuntimeState → MainStateInput
main_state_input runtime = record {
  state = runtime.state;
  public_events = referenced_events runtime.public_events (main_state_event_ids runtime.state);
}

unfoldable pub public_recent_events : RuntimeState → ℕ → List NiumaEvent
public_recent_events runtime limit =
    if limit == 0 then [] else take limit (sort_events_newest_first runtime.public_events)

unfoldable pub public_event_by_id : RuntimeState → String → Option NiumaEvent
public_event_by_id runtime event_id = event_with_id event_id runtime.public_events

-- ===== src/Store/State.antt =====
-- The in-memory state of crates/niuma-core/src/store.rs, and what its methods share.
use niu_ma_notifier.Prelude.{
  ℕ, ◌/◌, String, Bool, ◌||◌, List, [], any, ◌==◌, nat_eq, string_eq, option_eq,
}
use niu_ma_notifier.Models.{tool_eq, status_eq, DateTime, NiumaEvent, StoredState, default_state}
use niu_ma_notifier.Transitions.{already_applied, upsert_runtime_state, apply_attention_transition}
use niu_ma_notifier.Plugin.RuntimeState.{PluginRuntimeState}

pub record RuntimeState : Type 0 where
  pub state : StoredState
  pub public_events : List NiumaEvent
  pub dedupe_keys : List String
  pub plugin_runtime_states : List (String × PluginRuntimeState)

-- `RuntimeState::default`.
unfoldable pub default_runtime : RuntimeState
default_runtime = record {
  state = default_state;
  public_events = [];
  dedupe_keys = [];
  plugin_runtime_states = [];
}

-- `HashSet::contains` of the dedupe keys.
abbrev pub has_dedupe_key : List String → String → Bool
has_dedupe_key keys key = any (λ k. k == key) keys

unfoldable pub event_already_applied : RuntimeState → StoredState → NiumaEvent → Bool
event_already_applied runtime state event =
    already_applied state event || has_dedupe_key runtime.dedupe_keys event.dedupe_key

-- The two calls that bring an event into the state.
unfoldable pub apply_event : StoredState → NiumaEvent → StoredState
apply_event state event =
    apply_attention_transition
      (record state { runtime_states = upsert_runtime_state state.runtime_states event }) event

-- `timestamp_millis` and `timestamp` of a time in nanoseconds.
abbrev pub timestamp_millis : DateTime → ℕ
timestamp_millis now = now / 1_000_000

abbrev pub timestamp : DateTime → ℕ
timestamp now = now / 1_000_000_000

-- ===== src/EventBus.antt =====
-- crates/niuma-core/src/runtime_event.rs: the bus that numbers and publishes state changes. The
-- broadcast channel is a library's; here it is the list of everything sent, oldest first.
pub mod Versions
use niu_ma_notifier.Prelude.{ℕ, ◌+◌, ◌%◌, ◌^◌, String, Option, List, [], ◌∷◌, ◌++◌}
use niu_ma_notifier.Models.{ToolId, DateTime, NiumaEvent}

pub data StateChangeReason : Type 0 where
  stale_sweep listener_config_changed plugin_config_changed : StateChangeReason

pub data ToolSessionControlChangeReason : Type 0 where
  channel_registered channel_available channel_unavailable channel_removed snapshot_refreshed :
      ToolSessionControlChangeReason

pub record PluginNotificationTestRequest : Type 0 where
  pub test_id : String
  pub plugin_id : String
  pub title : String
  pub body : String
  pub created_at : DateTime

pub data RuntimeEvent : Type 0 where
  niuma_events_appended : ℕ → List NiumaEvent → RuntimeEvent
  attention_dismissed : ℕ → ℕ → RuntimeEvent
  state_reset : ℕ → RuntimeEvent
  state_changed : ℕ → StateChangeReason → RuntimeEvent
  tool_session_control_changed :
      ℕ
      → ToolId
      → Option String
      → Option String
      → Option String
      → ToolSessionControlChangeReason
      → RuntimeEvent
  plugin_notification_test_requested : ℕ → PluginNotificationTestRequest → RuntimeEvent

pub record EventBus : Type 0 where
  pub sent : List RuntimeEvent
  pub version : ℕ  -- AtomicU64

-- `RuntimeEventBus::new`.
unfoldable pub new_bus : EventBus
new_bus = record { sent = []; version = 0 }

-- `fetch_add` wraps around, and so does the `+ 1` on its answer.
unfoldable pub publish : EventBus → (ℕ → RuntimeEvent) → EventBus
publish bus build = record {
  sent = bus.sent ++ build ((bus.version + 1) % 2 ^ 64) ∷ [];
  version = (bus.version + 1) % 2 ^ 64;
}

unfoldable pub publish_niuma_events : EventBus → List NiumaEvent → EventBus
publish_niuma_events bus [] = bus
publish_niuma_events bus (event ∷ events) =
    publish bus (λ version. niuma_events_appended version (event ∷ events))

unfoldable pub publish_attention_dismissed : EventBus → ℕ → EventBus
publish_attention_dismissed bus dismissed_count =
    publish bus (λ version. attention_dismissed version dismissed_count)

unfoldable pub publish_state_reset : EventBus → EventBus
publish_state_reset bus = publish bus state_reset

unfoldable pub publish_state_changed : EventBus → StateChangeReason → EventBus
publish_state_changed bus reason = publish bus (λ version. state_changed version reason)

unfoldable pub publish_tool_session_control_changed :
    EventBus
    → ToolId
    → Option String
    → Option String
    → Option String
    → ToolSessionControlChangeReason
    → EventBus
publish_tool_session_control_changed bus tool session_id normalized_session_id channel_id reason =
    publish bus (λ version.
      tool_session_control_changed version tool session_id normalized_session_id channel_id reason)

unfoldable pub publish_plugin_notification_test :
    EventBus → PluginNotificationTestRequest → EventBus
publish_plugin_notification_test bus request =
    publish bus (λ version. plugin_notification_test_requested version request)

-- ===== src/EventBus/Versions.antt =====
-- The versions of the sent events.
use niu_ma_notifier.Prelude.{
  ℕ, ◌+◌, ◌%◌, ◌^◌, ◌≤◌, ◌<◌, String, ◌≡◌, refl, Option, List, [], ◌∷◌, ◌++◌, arith, length,
  length-append,
}
use niu_ma_notifier.Models.{ToolId, NiumaEvent}
use niu_ma_notifier.EventBus.{
  RuntimeEvent, niuma_events_appended, attention_dismissed, state_reset, state_changed,
  tool_session_control_changed, plugin_notification_test_requested, StateChangeReason,
  ToolSessionControlChangeReason, PluginNotificationTestRequest, EventBus, publish,
  publish_niuma_events, publish_attention_dismissed, publish_state_reset, publish_state_changed,
  publish_tool_session_control_changed, publish_plugin_notification_test,
}

abbrev pub version_of : RuntimeEvent → ℕ
version_of (niuma_events_appended version events) = version
version_of (attention_dismissed version count) = version
version_of (state_reset version) = version
version_of (state_changed version reason) = version
version_of (tool_session_control_changed version tool session normalized channel reason) = version
version_of (plugin_notification_test_requested version request) = version

-- What is published.
pub data Message : Type 0 where
  events_message : List NiumaEvent → Message
  dismissed_message : ℕ → Message
  reset_message : Message
  changed_message : StateChangeReason → Message
  control_message :
      ToolId
      → Option String
      → Option String
      → Option String
      → ToolSessionControlChangeReason
      → Message
  test_message : PluginNotificationTestRequest → Message

unfoldable pub send : EventBus → Message → EventBus
send bus (events_message events) = publish_niuma_events bus events
send bus (dismissed_message count) = publish_attention_dismissed bus count
send bus reset_message = publish_state_reset bus
send bus (changed_message reason) = publish_state_changed bus reason
send bus (control_message tool session normalized channel reason) =
    publish_tool_session_control_changed bus tool session normalized channel reason
send bus (test_message request) = publish_plugin_notification_test bus request

unfoldable pub send_all : EventBus → List Message → EventBus
send_all bus [] = bus
send_all bus (message ∷ messages) = send_all (send bus message) messages

-- The events after `version` are numbered one by one.
abbrev pub Numbered : ℕ → List RuntimeEvent → Type 0
Numbered version [] = Unit {0}
Numbered version (event ∷ events) = (version_of event ≡ version + 1) × Numbered (version + 1) events

-- The bus has numbered all it sent from 1, and its version is their number.
pub record IsNumbered (bus : EventBus) : Type 0 where
  pub events : Numbered 0 bus.sent
  pub count : bus.version ≡ length bus.sent

Numbered-append :
    (n : ℕ) (xs : List RuntimeEvent) (y : RuntimeEvent)
    → Numbered n xs
    → version_of y ≡ n + length xs + 1
    → Numbered n (xs ++ y ∷ [])
Numbered-append n [] y h e = (omega arith, tt)
Numbered-append n (x ∷ xs) y h e = (h.0, Numbered-append (n + 1) xs y h.1 (omega arith))

publish-IsNumbered :
    (bus : EventBus) (build : ℕ → RuntimeEvent)
    → ((v : ℕ) → version_of (build v) ≡ v)
    → length bus.sent + 1 < 2 ^ 64
    → IsNumbered bus
    → IsNumbered (publish bus build)
unfolding publish
publish-IsNumbered bus build h bound v =
    let e : (bus.version + 1) % 2 ^ 64 ≡ bus.version + 1 = omega (arith, v.count) in
    record {
      events =
          Numbered-append 0 bus.sent _ v.events
            (omega (arith, h ((bus.version + 1) % 2 ^ 64), v.count));
      count =
          omega (
            arith,
            e,
            v.count,
            length-append {0} bus.sent (build ((bus.version + 1) % 2 ^ 64) ∷ []),
          );
    }

send-IsNumbered :
    (bus : EventBus) (message : Message)
    → length bus.sent + 1 < 2 ^ 64
    → IsNumbered bus
    → IsNumbered (send bus message)
unfolding send publish_niuma_events publish_attention_dismissed publish_state_reset
    publish_state_changed publish_tool_session_control_changed publish_plugin_notification_test
send-IsNumbered bus (events_message []) bound v = v
send-IsNumbered bus (events_message (e ∷ es)) bound v = publish-IsNumbered bus _ (λ w. refl) bound v
send-IsNumbered bus (dismissed_message count) bound v = publish-IsNumbered bus _ (λ w. refl) bound v
send-IsNumbered bus reset_message bound v = publish-IsNumbered bus _ (λ w. refl) bound v
send-IsNumbered bus (changed_message reason) bound v = publish-IsNumbered bus _ (λ w. refl) bound v
send-IsNumbered bus (control_message tool session normalized channel reason) bound v =
    publish-IsNumbered bus _ (λ w. refl) bound v
send-IsNumbered bus (test_message request) bound v = publish-IsNumbered bus _ (λ w. refl) bound v

length-send-le :
    (bus : EventBus) (message : Message) → length (send bus message).sent ≤ length bus.sent + 1
unfolding send publish publish_niuma_events publish_attention_dismissed publish_state_reset
    publish_state_changed publish_tool_session_control_changed publish_plugin_notification_test
length-send-le bus (events_message []) = omega arith
length-send-le bus (events_message (e ∷ es)) = omega (arith, length-append {0} bus.sent (_ ∷ []))
length-send-le bus (dismissed_message count) = omega (arith, length-append {0} bus.sent (_ ∷ []))
length-send-le bus reset_message = omega (arith, length-append {0} bus.sent (_ ∷ []))
length-send-le bus (changed_message reason) = omega (arith, length-append {0} bus.sent (_ ∷ []))
length-send-le bus (control_message tool session normalized channel reason) =
    omega (arith, length-append {0} bus.sent (_ ∷ []))
length-send-le bus (test_message request) = omega (arith, length-append {0} bus.sent (_ ∷ []))

-- A bus that has numbered all it sent 1, 2, 3 and so on, with no gap and no repetition, still has
-- after it sends more, as long as fewer than 2^64 messages are sent.
pub send_all-IsNumbered :
    (bus : EventBus) (messages : List Message)
    → IsNumbered bus
    → length bus.sent + length messages < 2 ^ 64
    → IsNumbered (send_all bus messages)
unfolding send_all
send_all-IsNumbered bus [] v bound = v
send_all-IsNumbered bus (m ∷ ms) v bound =
    send_all-IsNumbered (send bus m) ms (send-IsNumbered bus m (omega arith) v)
      (omega (arith, length-send-le bus m))

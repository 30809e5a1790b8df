-- ===== src/Sessions/Channels.antt =====
-- crates/niuma-api/src/tool_sessions.rs: the control channels of a session, merged from its raw
-- sessions.
use Prim.Native.Nat.{compare}
use Prim.Native.String as Text
use niu_ma_notifier.Prelude.HashMap
use niu_ma_notifier.Prelude.{
  ℕ, String, Bool, not, ◌&&◌, ◌||◌, Option, none, some, List, [], ◌∷◌, ltb, if◌then◌else◌, any,
  find?, filter_map, ◌==◌, nat_eq, string_eq,
}
use niu_ma_notifier.Prelude.Order.{Comparator, on, descending, then_by}
use niu_ma_notifier.Prelude.Sort.{sort_by}
use niu_ma_notifier.ToolSession.{
  ToolSessionControl, ToolSessionControlAction, ToolSessionControlChannel, ToolSessionListItem,
}
use niu_ma_notifier.Sessions.Item.{or_else}

unfoldable pub control_channel_should_replace :
    ToolSessionControlChannel → ToolSessionControlChannel → Bool
control_channel_should_replace existing incoming =
    ltb existing.updated_at incoming.updated_at
    || (incoming.updated_at == existing.updated_at
        && (incoming.available && not existing.available))

unfoldable pub control_channel_can_resume : ToolSessionControlChannel → Bool
control_channel_can_resume channel =
    channel.available
    && (any (λ capability. capability == "send_instruction") channel.capabilities
        || any (λ (action : ToolSessionControlAction). action.action_type == "send_instruction")
            channel.actions)

unfoldable pub control_channel_rank : ToolSessionControlChannel → ℕ
control_channel_rank channel =
    if control_channel_can_resume channel then 2 else (if channel.available then 1 else 0)

abbrev pub control_channel_sort : Comparator ToolSessionControlChannel
control_channel_sort = then_by (descending (on compare control_channel_rank)) (
    then_by (descending (on compare (λ (channel : ToolSessionControlChannel). channel.updated_at)))
      (on Text.compare (λ (channel : ToolSessionControlChannel). channel.id)))

-- `and_modify` and `or_insert_with` of an entry.
unfoldable pub newer_channel :
    ToolSessionControlChannel → Option ToolSessionControlChannel → ToolSessionControlChannel
newer_channel channel none = channel
newer_channel channel (some existing) =
    if control_channel_should_replace existing channel then channel else existing

abbrev pub ChannelsById : Type 0
ChannelsById = List (String × ToolSessionControlChannel)

-- The inner loop, over the channels of one control.
unfoldable pub merge_channels : ChannelsById → List ToolSessionControlChannel → ChannelsById
merge_channels channels_by_id [] = channels_by_id
merge_channels channels_by_id (channel ∷ channels) =
    merge_channels (HashMap.update channels_by_id channel.id (newer_channel channel)) channels

-- The outer loop.
unfoldable pub merge_controls : ChannelsById → List ToolSessionControl → ChannelsById
merge_controls channels_by_id [] = channels_by_id
merge_controls channels_by_id (control ∷ controls) =
    merge_controls (merge_channels channels_by_id control.channels) controls

abbrev pub channel_id : Option ToolSessionControlChannel → Option String
channel_id none = none
channel_id (some channel) = some channel.id

-- The control with the sorted channels.
unfoldable pub control_of : List ToolSessionControlChannel → ToolSessionControl
control_of channels = record {
  resumable = any control_channel_can_resume channels;
  preferred_channel_id = channel_id (
      or_else (find? control_channel_can_resume channels)
        (find? (λ (channel : ToolSessionControlChannel). channel.available) channels));
  channels = channels;
}

-- `is_empty` and the end of `normalized_control`.
unfoldable pub control_from : ChannelsById → Option ToolSessionControl
control_from [] = none
control_from (entry ∷ entries) =
    some (control_of (sort_by control_channel_sort (HashMap.values (entry ∷ entries))))

unfoldable pub normalized_control :
    ToolSessionListItem → List ToolSessionListItem → Option ToolSessionControl
normalized_control primary raw_sessions = control_from (
    merge_controls []
      (filter_map (λ (item : ToolSessionListItem). item.control) (primary ∷ raw_sessions)))

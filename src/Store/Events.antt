-- ===== src/Store/Events.antt =====
-- The public event cache of crates/niuma-core/src/store.rs: its order and the ids that must stay.
use Prim.Native.String.{compare as compare_text}
use text.Mathlib.Text.{is_le}
use niu_ma_notifier.Prelude.{
  String, Bool, ◌&&◌, ◌||◌, Option, none, some, List, [], ◌∷◌, ◌++◌, ltb, if◌then◌else◌, any, ◌==◌,
  nat_eq, string_eq,
}
use niu_ma_notifier.Models.{NiumaEvent, AttentionItem, LatestActivity, StoredState}

-- The comparator of `sort_events_newest_first` does not say `Greater`.
unfoldable pub not_older : NiumaEvent → NiumaEvent → Bool
not_older left right =
    ltb right.created_at left.created_at
    || (left.created_at == right.created_at && is_le (compare_text right.id left.id))

-- `sort_by` is stable: an event goes before the equal ones that follow it.
unfoldable pub insert_event : NiumaEvent → List NiumaEvent → List NiumaEvent
insert_event event [] = event ∷ []
insert_event event (other ∷ events) =
    if not_older event other then event ∷ other ∷ events else other ∷ insert_event event events

unfoldable pub sort_events_newest_first : List NiumaEvent → List NiumaEvent
sort_events_newest_first [] = []
sort_events_newest_first (event ∷ events) = insert_event event (sort_events_newest_first events)

unfoldable pub push_unique : List String → String → List String
push_unique values value =
    if any (λ existing. existing == value) values then values else values ++ value ∷ []

-- The loop over the attention items.
unfoldable pub push_item_ids : List String → List AttentionItem → List String
push_item_ids ids [] = ids
push_item_ids ids (item ∷ items) = push_item_ids (push_unique ids item.event_id) items

-- `latest_activity.as_ref().and_then(|activity| activity.event_id.as_ref())`.
abbrev pub activity_event_id : Option LatestActivity → Option String
activity_event_id none = none
activity_event_id (some activity) = activity.event_id

abbrev pub push_activity_id : List String → Option String → List String
push_activity_id ids none = ids
push_activity_id ids (some event_id) = push_unique ids event_id

unfoldable pub main_state_event_ids : StoredState → List String
main_state_event_ids state =
    push_activity_id (push_item_ids [] state.attention_items)
      (activity_event_id state.latest_activity)

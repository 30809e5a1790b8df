-- ===== src/Transitions/Resolution.antt =====
-- What a resuming, a clearing and a dismissing event do to the attention items of their own run.
use niu_ma_notifier.Prelude.{
  String, ◌≡◌, ◌≢◌, Bool, true, false, not, ◌&&◌, none, some, arith, is_some_and, any, retain, ◌==◌,
  eq_iff, string_eq, option_eq, option_beq_iff, any-retain-false, retain-retain_of_imp,
  retain-retain,
}
use niu_ma_notifier.Models.{
  RuntimeStateStatus, EventType, NiumaEvent, AttentionItem, idle_activity, StoredState,
}
use niu_ma_notifier.Transitions.{
  attention_item_matches_event, attention_item_resolved_by_key, latest_activity_matches_event,
  is_unkeyed_approval_for_session, is_unkeyed_input_for_session, is_keyed_approval,
  restore_session_attention_status, keeps_after_resume, resume_attention, clear_run,
  transition_for_status, status_from_event, apply_attention_transition,
}

abbrev pub has_key : String → AttentionItem → Bool
has_key key item = item.attention_resolve_key == some key

-- The event types that resume a run: its status becomes running or completed.
abbrev pub resumes : EventType → Bool
resumes EventType.session_started = true
resumes EventType.session_activity = true
resumes EventType.approval_resolved = true
resumes EventType.assistant_message_completed = true
resumes _ = false

pub restore_items :
    (st : StoredState) (e : NiumaEvent)
    → (restore_session_attention_status st e.tool e.session_id).attention_items ≡ st.attention_items
unfolding restore_session_attention_status
restore_items st e = ground arith

pub resume_items :
    (st : StoredState) (e : NiumaEvent) (status : RuntimeStateStatus)
    → (resume_attention st e status).attention_items
      ≡ retain (keeps_after_resume e) st.attention_items
unfolding resume_attention
resume_items st e status = ground (
  arith,
  restore_items (record st { attention_items = retain (keeps_after_resume e) st.attention_items })
      e,
)

pub items_after_resume :
    (st : StoredState) (e : NiumaEvent)
    → resumes e.event_type ≡ true
    → (apply_attention_transition st e).attention_items
      ≡ retain (keeps_after_resume e) st.attention_items
unfolding apply_attention_transition transition_for_status status_from_event
items_after_resume st e h = ground (
  arith,
  resume_items st e RuntimeStateStatus.running,
  resume_items st e RuntimeStateStatus.completed,
)

module _ (st : StoredState) (e : NiumaEvent) (h : resumes e.event_type ≡ true) (k : String)
    (keyed : e.attention_resolve_key ≡ some k) where
  dropped :
      (x : AttentionItem)
      → keeps_after_resume e x ≡ true
      → (attention_item_matches_event x e && has_key k x) ≡ false
  unfolding keeps_after_resume attention_item_resolved_by_key
  dropped x m = ground arith

  -- A resuming event with a key `k` settles every item of its run that has this key.
  pub keyed_resume_settles :
      any
        (λ item. attention_item_matches_event item e && has_key k item)
        (apply_attention_transition st e).attention_items
      ≡ false
  keyed_resume_settles =
      rw (items_after_resume st e h)
        (any-retain-false _ (keeps_after_resume e) st.attention_items dropped)

  kept :
      (j : String)
      → j ≢ k
      → (x : AttentionItem) → has_key j x ≡ true
      → keeps_after_resume e x ≡ true
  unfolding keeps_after_resume attention_item_resolved_by_key is_unkeyed_approval_for_session
      is_unkeyed_input_for_session
  kept j ne x m = ground (arith, option_beq_iff x.attention_resolve_key (some j), eq_iff j k)

  -- A resuming event with a key `k` keeps the items with another key `j`, in their order.
  pub keyed_resume_keeps_other_keys :
      (j : String)
      → j ≢ k
      → retain (has_key j) (apply_attention_transition st e).attention_items
        ≡ retain (has_key j) st.attention_items
  keyed_resume_keeps_other_keys j ne =
      rw (items_after_resume st e h)
        (retain-retain_of_imp (has_key j) (keeps_after_resume e) st.attention_items (kept j ne))

-- A resuming event without a key keeps the keyed approvals of its run and settles the rest of it.
pub unkeyed_resume :
    (st : StoredState) (e : NiumaEvent)
    → resumes e.event_type ≡ true
    → e.attention_resolve_key ≡ none
    → (retain
          (λ item. attention_item_matches_event item e)
          (apply_attention_transition st e).attention_items
        ≡ retain
            (λ item. attention_item_matches_event item e && is_keyed_approval item)
            st.attention_items)
unfolding keeps_after_resume
unkeyed_resume st e h n =
    rw (items_after_resume st e h)
      (retain-retain _ (keeps_after_resume e) _ st.attention_items (λ x. ground arith))

abbrev pub clears : EventType → Bool
clears EventType.session_idled = true
clears EventType.session_staled = true
clears _ = false

-- A stale or idle event leaves no attention item of its run and no latest activity of it.
pub clearing_event :
    (st : StoredState) (e : NiumaEvent)
    → clears e.event_type ≡ true
    → (any
          (λ item. attention_item_matches_event item e)
          (apply_attention_transition st e).attention_items
        ≡ false)
      × (is_some_and
            (apply_attention_transition st e).latest_activity
            (λ activity. latest_activity_matches_event activity e)
          ≡ false)
unfolding apply_attention_transition transition_for_status status_from_event clear_run
    latest_activity_matches_event idle_activity
clearing_event st e h = ground (
  arith,
  any-retain-false (λ item. attention_item_matches_event item e)
      (λ item. not (attention_item_matches_event item e)) st.attention_items (λ x m. ground arith),
)

-- ===== src/Transitions/Shown.antt =====
-- The status that a run shows after an event that resumes it or returns its approval to the tool.
use niu_ma_notifier.Prelude.{
  String, ◌≡◌, refl, ap, inl, inr, true, ◌||◌, Option, none, some, arith, find?, retain,
  Option-cases, find?-update_first, find?-holds,
}
use niu_ma_notifier.Models.{
  ToolId, EventType, RuntimeStateStatus, NiumaEvent, RuntimeStateItem, AttentionItem, StoredState,
}
use niu_ma_notifier.Transitions.Runs.{run_after, find?-upsert_runtime_state_self}
use niu_ma_notifier.Transitions.{
  refresh_runtime_state, new_runtime_state, upsert_runtime_state, runtime_matches,
  attention_matches, restore_session_attention_status, keeps_after_resume, resume_attention,
  transition_for_status, status_from_event, is_returned_approval, apply_attention_transition,
}
use niu_ma_notifier.Transitions.Resolution.{resumes}
use niu_ma_notifier.Store.{apply_event}

-- The first open item decides; with none open, `own` does.
abbrev pub status_shown : Option AttentionItem → RuntimeStateStatus → RuntimeStateStatus
status_shown none own = own
status_shown (some item) own = item.status

restore_shown :
    (st : StoredState) (t : ToolId) (s : String) (r : RuntimeStateItem)
    → find? (runtime_matches t s) st.runtime_states ≡ some r
    → find? (runtime_matches t s) (restore_session_attention_status st t s).runtime_states
      ≡ some (record r {
        status = status_shown (find? (attention_matches t s) st.attention_items) r.status;
      })
unfolding restore_session_attention_status
restore_shown st t s r h = elim (Option-cases (find? (attention_matches t s) st.attention_items)) [
  | inl k ↦ rw (k, restore_session_attention_status) h
  | inr (item, k) ↦
      rw (k, restore_session_attention_status)
        (find?-update_first (runtime_matches t s)
          (λ session. record session { status = item.status }) st.runtime_states h
          (find?-holds (runtime_matches t s) st.runtime_states h))
]

restore_items :
    (st : StoredState) (t : ToolId) (s : String)
    → (restore_session_attention_status st t s).attention_items ≡ st.attention_items
unfolding restore_session_attention_status
restore_items st t s = ground arith

-- The status that the event itself gives to its run: completed by a completed message, waiting for
-- the approval that is returned, running else.
abbrev pub own_status : EventType → RuntimeStateStatus
own_status EventType.assistant_message_completed = RuntimeStateStatus.completed
own_status EventType.approval_returned_to_codex = RuntimeStateStatus.waiting_approval
own_status EventType.approval_returned_to_tool = RuntimeStateStatus.waiting_approval
own_status _ = RuntimeStateStatus.running

transition_shown :
    (st : StoredState) (e : NiumaEvent) (r : RuntimeStateItem)
    → (resumes e.event_type || is_returned_approval e.event_type) ≡ true
    → find? (runtime_matches e.tool e.session_id) st.runtime_states ≡ some r
    → let st' = apply_attention_transition st e in
      find? (runtime_matches e.tool e.session_id) st'.runtime_states
      ≡ some (record r {
        status =
            status_shown
              (find? (attention_matches e.tool e.session_id) st'.attention_items)
              r.status;
      })
unfolding apply_attention_transition transition_for_status status_from_event resume_attention
transition_shown st e r h k =
    let kept : StoredState = record st {
      attention_items = retain (keeps_after_resume e) st.attention_items;
    } in
    ground (
      arith,
      restore_shown st e.tool e.session_id r k,
      restore_items st e.tool e.session_id,
      restore_shown kept e.tool e.session_id r k,
      restore_items kept e.tool e.session_id,
    )

own_run :
    (e : NiumaEvent) (o : Option RuntimeStateItem)
    → (resumes e.event_type || is_returned_approval e.event_type) ≡ true
    → ((run_after e o).status ≡ own_status e.event_type)
      × ((run_after e o).last_event_id ≡ some e.id)
      × ((run_after e o).last_activity_at ≡ e.created_at)
unfolding refresh_runtime_state new_runtime_state status_from_event
own_run e none h = (ground arith, refl, refl)
own_run e (some r) h = (ground arith, refl, refl)

-- After an event that resumes its run, or returns an approval to the tool, the run is there, whether
-- it was known before or not. It shows the first item that it still has open, and the status that
-- the event gives if none is open; the event is its last one, and its time the last activity.
pub shows_open_item :
    (st : StoredState) (e : NiumaEvent)
    → (resumes e.event_type || is_returned_approval e.event_type) ≡ true
    → let st' = apply_event st e in
      (run : RuntimeStateItem) × (find? (runtime_matches e.tool e.session_id) st'.runtime_states
        ≡ some run)
      × (run.status
          ≡ status_shown
              (find? (attention_matches e.tool e.session_id) st'.attention_items)
              (own_status e.event_type))
      × (run.last_event_id ≡ some e.id)
      × (run.last_activity_at ≡ e.created_at)
unfolding apply_event
shows_open_item st e h =
    let upserted : StoredState = record st {
      runtime_states = upsert_runtime_state st.runtime_states e;
    } in
    let r = run_after e (find? (runtime_matches e.tool e.session_id) st.runtime_states) in
    let own = own_run e (find? (runtime_matches e.tool e.session_id) st.runtime_states) h in
    let open_item =
      find? (attention_matches e.tool e.session_id)
        (apply_attention_transition upserted e).attention_items in
    (
      record r { status = status_shown open_item r.status },
      transition_shown upserted e r h (find?-upsert_runtime_state_self e st.runtime_states),
      ap (status_shown open_item) own.0,
      own.1,
      own.2,
    )

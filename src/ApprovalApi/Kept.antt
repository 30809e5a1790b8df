-- ===== src/ApprovalApi/Kept.antt =====
-- Bringing events into the store leaves its approval requests alone.
use niu_ma_notifier.Prelude.{
  String, ◌≡◌, refl, ◌∙◌, inl, inr, List, [], ◌∷◌, arith, find?, Bool-cases, Option-cases, ◌==◌,
}
use niu_ma_notifier.Models.{
  ToolId, tool_eq, RuntimeStateStatus, EventType, event_type_eq, NiumaEvent, StoredState,
}
use niu_ma_notifier.Transitions.{
  attention_matches, should_update_latest_activity, should_skip_unkeyed_input_fallback,
  restore_session_attention_status, push_attention, resume_attention, clear_run,
  transition_for_status, is_returned_approval, apply_attention_transition, status_from_event,
}
use niu_ma_notifier.Store.{
  RuntimeState, apply_event, AppendLoop, append_applied, is_skipped, append_event_step,
  append_events_loop, trim_public_event_cache, append_events_with_result,
}

restore_kept :
    (st : StoredState) (t : ToolId) (s : String)
    → (restore_session_attention_status st t s).approval_requests ≡ st.approval_requests
unfolding restore_session_attention_status
restore_kept st t s = elim (Option-cases (find? (attention_matches t s) st.attention_items)) [
  | inl e ↦ rw (e, restore_session_attention_status) refl
  | inr (item, e) ↦ rw (e, restore_session_attention_status) refl
]

push_kept :
    (st : StoredState) (e : NiumaEvent) (status : RuntimeStateStatus)
    → (push_attention st e status).approval_requests ≡ st.approval_requests
unfolding push_attention
push_kept st e status = elim (Bool-cases (should_skip_unkeyed_input_fallback st e)) [
  | inl h ↦ rw h refl
  | inr h ↦ rw h refl
]

resume_kept :
    (st : StoredState) (e : NiumaEvent) (status : RuntimeStateStatus)
    → (resume_attention st e status).approval_requests ≡ st.approval_requests
unfolding resume_attention
resume_kept st e status = elim (Bool-cases (should_update_latest_activity e)) [
  | inl h ↦ rw h (restore_kept _ e.tool e.session_id)
  | inr h ↦ rw h (restore_kept _ e.tool e.session_id)
]

transition_kept :
    (s : RuntimeStateStatus) (st : StoredState) (e : NiumaEvent)
    → (transition_for_status s st e).approval_requests ≡ st.approval_requests
unfolding transition_for_status clear_run
transition_kept RuntimeStateStatus.waiting_approval st e = push_kept st e _
transition_kept RuntimeStateStatus.waiting_input st e = push_kept st e _
transition_kept RuntimeStateStatus.error st e = push_kept st e _
transition_kept RuntimeStateStatus.running st e = resume_kept st e _
transition_kept RuntimeStateStatus.completed st e = resume_kept st e _
transition_kept RuntimeStateStatus.stale st e = refl
transition_kept RuntimeStateStatus.idle st e = refl

apply_event_kept :
    (st : StoredState) (e : NiumaEvent)
    → (apply_event st e).approval_requests ≡ st.approval_requests
unfolding apply_event apply_attention_transition
apply_event_kept st e = elim (Bool-cases (e.event_type == EventType.manual_dismissed)) [
  | inl h ↦ rw h refl
  | inr h ↦ elim (Bool-cases (is_returned_approval e.event_type)) [
    | inl g ↦ rw (h, g) (restore_kept _ e.tool e.session_id)
    | inr g ↦ rw (h, g) (transition_kept (status_from_event e.event_type) _ e)
  ]
]

step_kept :
    (loop : AppendLoop) (e : NiumaEvent)
    → (append_event_step loop e).state.approval_requests ≡ loop.state.approval_requests
unfolding append_event_step append_applied
step_kept loop e = elim (Bool-cases (is_skipped loop e)) [
  | inl h ↦ rw (h, append_event_step) refl
  | inr h ↦ rw (h, append_event_step) (apply_event_kept loop.state e)
]

loop_kept :
    (loop : AppendLoop) (es : List NiumaEvent)
    → (append_events_loop loop es).state.approval_requests ≡ loop.state.approval_requests
unfolding append_events_loop
loop_kept loop [] = refl
loop_kept loop (e ∷ es) = loop_kept (append_event_step loop e) es ∙ step_kept loop e

trim_kept : (r : RuntimeState) → (trim_public_event_cache r).state ≡ r.state
unfolding trim_public_event_cache
trim_kept r = ground arith

pub append_kept :
    (r : RuntimeState) (es : List NiumaEvent)
    → (append_events_with_result r es).0.state.approval_requests ≡ r.state.approval_requests
unfolding append_events_with_result
append_kept r es = rw (trim_kept _) (loop_kept _ es)

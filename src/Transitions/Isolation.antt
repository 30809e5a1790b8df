-- ===== src/Transitions/Isolation.antt =====
-- An event changes its own run only, and keeps the runs unique.
use mathlib.Core.List.{append-nil}
use niu_ma_notifier.Prelude.{
  String, ◌≡◌, ◌≢◌, refl, ◌∙◌, inl, inr, Bool, true, false, not, List, [], ◌∷◌, ◌++◌, arith, find?,
  retain, Option-cases, retain-append, retain-retain_of_imp, find?-update_first_ne,
}
use niu_ma_notifier.Models.{
  ToolId, RuntimeStateStatus, EventType, event_type_beq_iff, NiumaEvent, AttentionItem,
  attention_from_event, StoredState,
}
use niu_ma_notifier.Transitions.{
  same_run, runtime_matches, attention_matches, attention_item_matches_event,
  is_unkeyed_input_for_session, restore_session_attention_status, push_attention,
  keeps_after_resume, resume_attention, clear_run, transition_for_status,
  apply_attention_transition,
}
use niu_ma_notifier.Transitions.Runs.{
  same_run_trans, same_run_comm, UniqueRuns, update_first-UniqueRuns,
}

restore-UniqueRuns :
    (st : StoredState) (t : ToolId) (s : String)
    → UniqueRuns st.runtime_states
    → UniqueRuns (restore_session_attention_status st t s).runtime_states
unfolding restore_session_attention_status
restore-UniqueRuns st t s u =
    elim (Option-cases (find? (attention_matches t s) st.attention_items)) [
      | inl h ↦ rw (h, restore_session_attention_status) u
      | inr (item, h) ↦
          rw (h, restore_session_attention_status)
            (update_first-UniqueRuns (runtime_matches t s) _ st.runtime_states (λ x m. (refl, refl))
              u)
    ]

resume-UniqueRuns :
    (st : StoredState) (e : NiumaEvent) (status : RuntimeStateStatus)
    → UniqueRuns st.runtime_states
    → UniqueRuns (resume_attention st e status).runtime_states
unfolding resume_attention
resume-UniqueRuns st e status u = ground (
  arith,
  restore-UniqueRuns
      (record st { attention_items = retain (keeps_after_resume e) st.attention_items }) e.tool
      e.session_id u,
)

pub apply_attention_transition-UniqueRuns :
    (st : StoredState) (e : NiumaEvent)
    → UniqueRuns st.runtime_states
    → UniqueRuns (apply_attention_transition st e).runtime_states
unfolding apply_attention_transition transition_for_status push_attention clear_run
apply_attention_transition-UniqueRuns st e u = ground (
  arith,
  restore-UniqueRuns st e.tool e.session_id u,
  resume-UniqueRuns st e RuntimeStateStatus.running u,
  resume-UniqueRuns st e RuntimeStateStatus.completed u,
)

-- The items of one run.
abbrev pub items_of_run : ToolId → String → List AttentionItem → List AttentionItem
items_of_run t s = retain (attention_matches t s)

module _ (st : StoredState) (e : NiumaEvent) (t : ToolId) (s : String)
    (other : same_run e.tool e.session_id t s ≡ false) where
  ne_item :
      (x : AttentionItem)
      → attention_matches t s x ≡ true
      → attention_item_matches_event x e ≡ false
  unfolding attention_item_matches_event
  ne_item x m =
      same_run_trans x.tool x.session_id t s e.tool e.session_id m
      ∙ same_run_comm t s e.tool e.session_id
      ∙ other

  restore_other :
      (st' : StoredState)
      → find?
          (runtime_matches t s)
          (restore_session_attention_status st' e.tool e.session_id).runtime_states
        ≡ find? (runtime_matches t s) st'.runtime_states
  unfolding restore_session_attention_status
  restore_other st' =
      elim (Option-cases (find? (attention_matches e.tool e.session_id) st'.attention_items)) [
        | inl h ↦ rw (h, restore_session_attention_status)
        | inr (item, h) ↦
            rw (h, restore_session_attention_status)
              (find?-update_first_ne (runtime_matches t s) (runtime_matches e.tool e.session_id) _
                st'.runtime_states
                (λ x m. same_run_trans x.tool x.session_id e.tool e.session_id t s m ∙ other)
                (λ x m. same_run_trans x.tool x.session_id e.tool e.session_id t s m ∙ other))
      ]

  restore_items :
      (st' : StoredState)
      → (restore_session_attention_status st' e.tool e.session_id).attention_items
        ≡ st'.attention_items
  unfolding restore_session_attention_status
  restore_items st' = ground arith

  -- The items of another run survive a filter that only drops items of the event's run.
  kept_items :
      (p : AttentionItem → Bool) (items : List AttentionItem)
      → ((x : AttentionItem) → attention_item_matches_event x e ≡ false → p x ≡ true)
      → items_of_run t s (retain p items) ≡ items_of_run t s items
  kept_items p items h =
      retain-retain_of_imp (attention_matches t s) p items (λ x m. h x (ne_item x m))

  pushed_item :
      (status : RuntimeStateStatus) → attention_matches t s (attention_from_event e status) ≡ false
  unfolding attention_from_event
  pushed_item status = other

  pushed_items :
      (status : RuntimeStateStatus) (items : List AttentionItem)
      → items_of_run t s (items ++ attention_from_event e status ∷ []) ≡ items_of_run t s items
  unfolding retain
  pushed_items status items =
      rw (retain-append (attention_matches t s) items (attention_from_event e status ∷ []))
        (rw (pushed_item status) (append-nil _))

  not_own_input :
      (x : AttentionItem)
      → attention_item_matches_event x e ≡ false
      → not (is_unkeyed_input_for_session x e.tool e.session_id) ≡ true
  unfolding is_unkeyed_input_for_session attention_item_matches_event
  not_own_input x h = ground arith

  push_items :
      (status : RuntimeStateStatus)
      → items_of_run t s (push_attention st e status).attention_items
        ≡ items_of_run t s st.attention_items
  unfolding push_attention
  push_items status = ground (
    arith,
    pushed_items status st.attention_items,
    pushed_items status (
        retain (λ item. not (is_unkeyed_input_for_session item e.tool e.session_id))
          st.attention_items),
    kept_items (λ item. not (is_unkeyed_input_for_session item e.tool e.session_id))
        st.attention_items not_own_input,
  )

  resume_keeps :
      (x : AttentionItem) → attention_item_matches_event x e ≡ false → keeps_after_resume e x ≡ true
  unfolding keeps_after_resume
  resume_keeps x h = ground arith

  resume_items :
      (status : RuntimeStateStatus)
      → items_of_run t s (resume_attention st e status).attention_items
        ≡ items_of_run t s st.attention_items
  unfolding resume_attention
  resume_items status =
      let kept : StoredState = record st {
        attention_items = retain (keeps_after_resume e) st.attention_items;
      } in
      ground (
        arith,
        restore_items kept,
        kept_items (keeps_after_resume e) st.attention_items resume_keeps,
      )

  clear_items :
      items_of_run t s (clear_run st e).attention_items ≡ items_of_run t s st.attention_items
  unfolding clear_run
  clear_items =
      kept_items (λ item. not (attention_item_matches_event item e)) st.attention_items
        (λ x h. rw h)

  -- An event other than the user's dismissal leaves the attention items of every other run, and
  -- what a search for another run finds, as they were.
  pub apply_attention_transition_items :
      e.event_type ≢ EventType.manual_dismissed
      → items_of_run t s (apply_attention_transition st e).attention_items
        ≡ items_of_run t s st.attention_items
  unfolding apply_attention_transition transition_for_status
  apply_attention_transition_items h = ground (
    arith,
    event_type_beq_iff e.event_type EventType.manual_dismissed,
    restore_items st,
    push_items RuntimeStateStatus.waiting_approval,
    push_items RuntimeStateStatus.waiting_input,
    push_items RuntimeStateStatus.error,
    resume_items RuntimeStateStatus.running,
    resume_items RuntimeStateStatus.completed,
    clear_items,
  )

  pub apply_attention_transition_runtime :
      find? (runtime_matches t s) (apply_attention_transition st e).runtime_states
      ≡ find? (runtime_matches t s) st.runtime_states
  unfolding apply_attention_transition transition_for_status push_attention resume_attention
      clear_run
  apply_attention_transition_runtime = ground (
    arith,
    restore_other st,
    restore_other
        (record st { attention_items = retain (keeps_after_resume e) st.attention_items }),
  )

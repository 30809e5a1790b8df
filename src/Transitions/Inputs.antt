-- ===== src/Transitions/Inputs.antt =====
-- A run never waits for the same input twice: once through the relay and once as a fallback.
use niu_ma_notifier.Prelude.{
  String, ◌≡◌, ap, ◌∙◌, inl, inr, Bool, true, false, not, ◌&&◌, ◌||◌, none, List, [], ◌∷◌, ◌++◌,
  arith, if◌then◌else◌, any, retain, Bool-cases, any-append, any-retain-false, any-retain_mono,
}
use niu_ma_notifier.Models.{
  ToolId, RuntimeStateStatus, EventType, NiumaEvent, AttentionItem, attention_from_event,
  StoredState,
}
use niu_ma_notifier.Transitions.{
  same_run, attention_matches, attention_item_matches_event, is_keyed_input,
  is_unkeyed_input_for_session, is_keyed_relay_input_event, should_skip_unkeyed_input_fallback,
  keeps_after_resume, push_attention, resume_attention, clear_run, transition_for_status,
  status_from_event, apply_attention_transition,
}
use niu_ma_notifier.Transitions.Runs.{same_run_iff, same_run_refl}
use niu_ma_notifier.Transitions.Resolution.{restore_items, resume_items}

-- The run waits for an input that the relay can answer.
abbrev pub relay_input : ToolId → String → List AttentionItem → Bool
relay_input t s = any (λ item. attention_matches t s item && is_keyed_input item)

-- The run waits for an input that only the tool can take.
abbrev pub fallback_input : ToolId → String → List AttentionItem → Bool
fallback_input t s = any (λ item. is_unkeyed_input_for_session item t s)

abbrev pub InputsExclusive : List AttentionItem → Type 0
InputsExclusive items =
    (t : ToolId) (s : String) → (relay_input t s items && fallback_input t s items) ≡ false

-- Dropping items keeps the two apart.
pub retain-InputsExclusive :
    (p : AttentionItem → Bool) (items : List AttentionItem)
    → InputsExclusive items
    → InputsExclusive (retain p items)
retain-InputsExclusive p items h t s = ground (
  arith,
  h t s,
  any-retain_mono (λ item. attention_matches t s item && is_keyed_input item) p items,
  any-retain_mono (λ item. is_unkeyed_input_for_session item t s) p items,
)

or_false : (b : Bool) → (b || false) ≡ b
or_false b = ground arith

module _ (e : NiumaEvent) (status : RuntimeStateStatus) where
  keyed : Bool
  keyed = is_keyed_input (attention_from_event e status)

  unkeyed : Bool
  unkeyed = is_unkeyed_input_for_session (attention_from_event e status) e.tool e.session_id

  relay_append :
      (t : ToolId) (s : String) (xs : List AttentionItem)
      → relay_input t s (xs ++ attention_from_event e status ∷ [])
        ≡ (relay_input t s xs || (same_run e.tool e.session_id t s && keyed))
  unfolding any attention_from_event keyed
  relay_append t s xs =
      any-append (λ item. attention_matches t s item && is_keyed_input item) xs
        (attention_from_event e status ∷ [])
      ∙ ap (λ b. relay_input t s xs || b) (or_false _)

  fallback_append :
      (t : ToolId) (s : String) (xs : List AttentionItem)
      → fallback_input t s (xs ++ attention_from_event e status ∷ [])
        ≡ (fallback_input t s xs || (same_run e.tool e.session_id t s && unkeyed))
  unfolding any attention_from_event unkeyed is_unkeyed_input_for_session
  fallback_append t s xs =
      any-append (λ item. is_unkeyed_input_for_session item t s) xs
        (attention_from_event e status ∷ [])
      ∙ ap (λ b. fallback_input t s xs || b) (ground (arith, same_run_refl e.tool e.session_id))

  -- What the event's new item says of the event.
  keyed_lem :
      status ≡ status_from_event e.event_type
      → keyed ≡ true
      → (is_keyed_relay_input_event e ≡ true) × (unkeyed ≡ false)
  unfolding keyed unkeyed is_keyed_input is_keyed_relay_input_event attention_from_event
      status_from_event is_unkeyed_input_for_session
  keyed_lem q h = ground arith

  unkeyed_lem :
      status ≡ status_from_event e.event_type
      → unkeyed ≡ true
      → (e.event_type ≡ EventType.input_requested) × (e.attention_resolve_key ≡ none)
  unfolding unkeyed attention_from_event status_from_event is_unkeyed_input_for_session
  unkeyed_lem q h = ground arith

dropped_fallback :
    (e : NiumaEvent) (items : List AttentionItem)
    → fallback_input e.tool e.session_id
        (retain (λ item. not (is_unkeyed_input_for_session item e.tool e.session_id)) items)
      ≡ false
dropped_fallback e items = any-retain-false _ _ items (λ x m. ground arith)

skip_lem :
    (st : StoredState) (e : NiumaEvent)
    → should_skip_unkeyed_input_fallback st e ≡ false
    → e.event_type ≡ EventType.input_requested
    → e.attention_resolve_key ≡ none
    → relay_input e.tool e.session_id st.attention_items ≡ false
unfolding should_skip_unkeyed_input_fallback attention_item_matches_event
skip_lem st e h q k = ground arith

-- The list that the new item goes behind.
abbrev cleared_items : StoredState → NiumaEvent → List AttentionItem
cleared_items st e =
    if is_keyed_relay_input_event e
    then retain (λ item. not (is_unkeyed_input_for_session item e.tool e.session_id))
        st.attention_items
    else st.attention_items

module _ (st : StoredState) (e : NiumaEvent) (status : RuntimeStateStatus)
    (q : status ≡ status_from_event e.event_type) (v : InputsExclusive st.attention_items) where
  cleared-InputsExclusive : InputsExclusive (cleared_items st e)
  cleared-InputsExclusive t s = ground (
    arith,
    v t s,
    retain-InputsExclusive (λ item. not (is_unkeyed_input_for_session item e.tool e.session_id))
        st.attention_items v t s,
  )

  own_relay :
      keyed e status ≡ true → fallback_input e.tool e.session_id (cleared_items st e) ≡ false
  own_relay h = ground (arith, keyed_lem e status q, dropped_fallback e st.attention_items)

  own_fallback :
      should_skip_unkeyed_input_fallback st e ≡ false
      → unkeyed e status ≡ true
      → relay_input e.tool e.session_id (cleared_items st e) ≡ false
  own_fallback n h = ground (
    arith,
    unkeyed_lem e status q,
    skip_lem st e,
    any-retain_mono (λ item. attention_matches e.tool e.session_id item && is_keyed_input item)
        (λ item. not (is_unkeyed_input_for_session item e.tool e.session_id)) st.attention_items,
  )

  pushed-InputsExclusive :
      should_skip_unkeyed_input_fallback st e ≡ false
      → InputsExclusive (cleared_items st e ++ attention_from_event e status ∷ [])
  pushed-InputsExclusive n t s = elim (Bool-cases (same_run e.tool e.session_id t s)) [
    | inr other ↦
        rw
          (
            relay_append e status t s (cleared_items st e),
            fallback_append e status t s (cleared_items st e),
            other,
          )
          (ground (arith, cleared-InputsExclusive t s))
    | inl same ↦
        let (f, g) = same_run_iff e.tool e.session_id t s same in
        rw
          (
            ← f,
            ← g,
            relay_append e status e.tool e.session_id (cleared_items st e),
            fallback_append e status e.tool e.session_id (cleared_items st e),
          )
          (ground (
            arith,
            same_run_refl e.tool e.session_id,
            own_relay,
            own_fallback n,
            keyed_lem e status q,
            cleared-InputsExclusive e.tool e.session_id,
          ))
  ]

  push-InputsExclusive : InputsExclusive (push_attention st e status).attention_items
  unfolding push_attention
  push-InputsExclusive t s = ground (
    arith,
    v t s,
    λ (n : should_skip_unkeyed_input_fallback st e ≡ false). pushed-InputsExclusive n t s,
  )

resume-InputsExclusive :
    (st : StoredState) (e : NiumaEvent) (status : RuntimeStateStatus)
    → InputsExclusive st.attention_items
    → InputsExclusive (resume_attention st e status).attention_items
resume-InputsExclusive st e status v t s =
    rw (resume_items st e status)
      (retain-InputsExclusive (keeps_after_resume e) st.attention_items v t s)

-- No event makes a run wait for an input both through the relay and as a fallback.
pub apply_attention_transition-InputsExclusive :
    (st : StoredState) (e : NiumaEvent)
    → InputsExclusive st.attention_items
    → InputsExclusive (apply_attention_transition st e).attention_items
unfolding apply_attention_transition transition_for_status clear_run any
apply_attention_transition-InputsExclusive st e v t s = ground (
  arith,
  v t s,
  restore_items st e,
  λ (q : RuntimeStateStatus.waiting_approval ≡ status_from_event e.event_type).
      push-InputsExclusive st e RuntimeStateStatus.waiting_approval q v t s,
  λ (q : RuntimeStateStatus.waiting_input ≡ status_from_event e.event_type).
      push-InputsExclusive st e RuntimeStateStatus.waiting_input q v t s,
  λ (q : RuntimeStateStatus.error ≡ status_from_event e.event_type).
      push-InputsExclusive st e RuntimeStateStatus.error q v t s,
  resume-InputsExclusive st e RuntimeStateStatus.running v t s,
  resume-InputsExclusive st e RuntimeStateStatus.completed v t s,
  retain-InputsExclusive (λ item. not (attention_item_matches_event item e)) st.attention_items v t
      s,
)

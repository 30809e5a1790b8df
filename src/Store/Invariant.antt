-- ===== src/Store/Invariant.antt =====
-- What holds of the stored state between two calls, and that one event keeps it.
use niu_ma_notifier.Prelude.{
  String, ◌≡◌, ◌≢◌, refl, ◌∙◌, Bool, false, not, List, [], ◌∷◌, ◌++◌, arith, find?, any, retain,
  ◌==◌, string_eq, option_eq, eq_iff, any-append,
}
use niu_ma_notifier.Models.{
  ToolId, RuntimeStateStatus, EventType, NiumaEvent, AttentionItem, attention_from_event,
  StoredState, default_state,
}
use niu_ma_notifier.Transitions.{
  same_run, runtime_matches, already_applied, is_unkeyed_input_for_session,
  attention_item_matches_event, restore_session_attention_status, upsert_runtime_state,
  push_attention, resume_attention, keeps_after_resume, clear_run, transition_for_status,
  apply_attention_transition,
}
use niu_ma_notifier.Transitions.Runs.{
  UniqueRuns, upsert_runtime_state-UniqueRuns, find?-upsert_runtime_state_ne,
}
use niu_ma_notifier.Transitions.Isolation.{
  items_of_run, apply_attention_transition-UniqueRuns, apply_attention_transition_items,
  apply_attention_transition_runtime,
}
use niu_ma_notifier.Transitions.Inputs.{InputsExclusive, apply_attention_transition-InputsExclusive}
use niu_ma_notifier.Transitions.Resolution.{restore_items, resume_items}
use niu_ma_notifier.Store.{apply_event}

abbrev pub has_event : String → List AttentionItem → Bool
has_event id = any (λ item. item.event_id == id)

-- No event has two attention items.
abbrev pub UniqueEvents : List AttentionItem → Type 0
UniqueEvents [] = Unit {0}
UniqueEvents (x ∷ xs) = (has_event x.event_id xs ≡ false) × UniqueEvents xs

pub record IsValid (st : StoredState) : Type 0 where
  pub runs : UniqueRuns st.runtime_states
  pub events : UniqueEvents st.attention_items
  pub inputs : InputsExclusive st.attention_items

has_event-retain :
    (p : AttentionItem → Bool) (id : String) (xs : List AttentionItem)
    → has_event id xs ≡ false
    → has_event id (retain p xs) ≡ false
unfolding any retain
has_event-retain p id [] h = refl
has_event-retain p id (x ∷ xs) h = ground (arith, has_event-retain p id xs)

pub retain-UniqueEvents :
    (p : AttentionItem → Bool) (xs : List AttentionItem)
    → UniqueEvents xs
    → UniqueEvents (retain p xs)
unfolding retain
retain-UniqueEvents p [] u = tt
retain-UniqueEvents p (x ∷ xs) u =
    ground (arith, has_event-retain p x.event_id xs, retain-UniqueEvents p xs u.1)

append-UniqueEvents :
    (xs : List AttentionItem) (y : AttentionItem)
    → has_event y.event_id xs ≡ false
    → UniqueEvents xs
    → UniqueEvents (xs ++ y ∷ [])
unfolding any
append-UniqueEvents [] y h u = (refl, tt)
append-UniqueEvents (x ∷ xs) y h u = (
  rw (any-append (λ item. item.event_id == x.event_id) xs (y ∷ []))
      (ground (arith, eq_iff x.event_id y.event_id, eq_iff y.event_id x.event_id)),
  append-UniqueEvents xs y (ground arith) u.1,
)

module _ (st : StoredState) (e : NiumaEvent) (u : UniqueEvents st.attention_items) where
  push-UniqueEvents :
      (status : RuntimeStateStatus)
      → has_event e.id st.attention_items ≡ false
      → UniqueEvents (push_attention st e status).attention_items
  unfolding push_attention attention_from_event
  push-UniqueEvents status h = ground (
    arith,
    append-UniqueEvents st.attention_items (attention_from_event e status) h u,
    has_event-retain (λ item. not (is_unkeyed_input_for_session item e.tool e.session_id)) e.id
        st.attention_items h,
    retain-UniqueEvents (λ item. not (is_unkeyed_input_for_session item e.tool e.session_id))
        st.attention_items u,
    append-UniqueEvents
        (retain (λ item. not (is_unkeyed_input_for_session item e.tool e.session_id))
          st.attention_items)
        (attention_from_event e status),
  )

  resume-UniqueEvents :
      (status : RuntimeStateStatus) → UniqueEvents (resume_attention st e status).attention_items
  resume-UniqueEvents status =
      rw (resume_items st e status)
        (retain-UniqueEvents (keeps_after_resume e) st.attention_items u)

  restore-UniqueEvents :
      UniqueEvents (restore_session_attention_status st e.tool e.session_id).attention_items
  restore-UniqueEvents = rw (restore_items st e) u

  transition-UniqueEvents :
      has_event e.id st.attention_items ≡ false
      → UniqueEvents (apply_attention_transition st e).attention_items
  unfolding apply_attention_transition transition_for_status clear_run
  transition-UniqueEvents h = ground (
    arith,
    restore-UniqueEvents,
    push-UniqueEvents RuntimeStateStatus.waiting_approval h,
    push-UniqueEvents RuntimeStateStatus.waiting_input h,
    push-UniqueEvents RuntimeStateStatus.error h,
    resume-UniqueEvents RuntimeStateStatus.running,
    resume-UniqueEvents RuntimeStateStatus.completed,
    retain-UniqueEvents (λ item. not (attention_item_matches_event item e)) st.attention_items u,
  )

not_applied_item :
    (st : StoredState) (e : NiumaEvent)
    → already_applied st e ≡ false
    → has_event e.id st.attention_items ≡ false
unfolding already_applied
not_applied_item st e h = ground arith

-- An event that was not applied before keeps the state valid.
pub apply_event-IsValid :
    (st : StoredState) (e : NiumaEvent)
    → already_applied st e ≡ false
    → IsValid st
    → IsValid (apply_event st e)
unfolding apply_event
apply_event-IsValid st e h v =
    let st' : StoredState = record st {
      runtime_states = upsert_runtime_state st.runtime_states e;
    } in
    record {
      runs =
          apply_attention_transition-UniqueRuns st' e
            (upsert_runtime_state-UniqueRuns st.runtime_states e v.runs);
      events = transition-UniqueEvents st' e v.events (not_applied_item st e h);
      inputs = apply_attention_transition-InputsExclusive st' e v.inputs;
    }

-- The default state is valid.
pub default_state-IsValid : IsValid default_state
unfolding default_state any
default_state-IsValid = record { runs = tt; events = tt; inputs = λ t s. refl }

-- Whatever an event other than a dismissal does, it does to its own run: a search for any other run
-- finds the item that it found, and that run's attention items are the same in the same order.
pub apply_event_isolated :
    (st : StoredState) (e : NiumaEvent) (t : ToolId) (s : String)
    → same_run e.tool e.session_id t s ≡ false
    → e.event_type ≢ EventType.manual_dismissed
    → (find? (runtime_matches t s) (apply_event st e).runtime_states
        ≡ find? (runtime_matches t s) st.runtime_states)
      × (items_of_run t s (apply_event st e).attention_items ≡ items_of_run t s st.attention_items)
unfolding apply_event
apply_event_isolated st e t s other h =
    let st' : StoredState = record st {
      runtime_states = upsert_runtime_state st.runtime_states e;
    } in
    (
      apply_attention_transition_runtime st' e t s other
          ∙ find?-upsert_runtime_state_ne e st.runtime_states t s other,
      apply_attention_transition_items st' e t s other h,
    )

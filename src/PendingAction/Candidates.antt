-- ===== src/PendingAction/Candidates.antt =====
-- What the candidates of a session are: where they come from and how they rank.
use niu_ma_notifier.Prelude.{
  ℕ, String, ◌≡◌, refl, sym, subst, inl, inr, Bool, true, false, not, nat_eq, ◌&&◌, ◌||◌, none,
  some, List, arith, find?, find?-holds, is_some, All, Bool-cases, Option-cases, string_eq,
  option_eq, ◌==◌,
}
use niu_ma_notifier.Prelude.Order.{
  IsLawful, compare-IsLawful, on-IsLawful, descending-IsLawful, then_by-IsLawful,
}
use niu_ma_notifier.Models.{tool_eq, NiumaEvent, AttentionItem}
use niu_ma_notifier.ToolSession.{PendingActionType, PendingAction, ToolSessionDetail}
use niu_ma_notifier.Store.{RuntimeState, main_state_input}
use niu_ma_notifier.PendingAction.{
  pending_priority, interaction_kind_matches, approval_actions, approval_actionable, input_submit,
  is_empty, event_matches_detail, item_matches_detail, PendingActionCandidate, approval_action,
  input_action, action_for, action_type_for, candidate_from_event,
  fallback_candidate_from_attention, candidate_for_attention_item, candidate_order,
  candidates_for_session,
}
use niu_ma_notifier.PendingAction.Chosen.{filter_map-All}

-- The priorities that a candidate with this type of action may have, and whether it is actionable.
abbrev pub ranks : PendingActionType → Bool → ℕ → Bool
ranks PendingActionType.approval true priority = priority == 40
ranks PendingActionType.approval false priority = (priority == 40) || (priority == 20)
ranks PendingActionType.input true priority = priority == 30
ranks PendingActionType.input false priority = (priority == 30) || (priority == 10)

module _ {Value : Type 0} (json : List (String × String) → Value) where
  pub candidate_order-IsLawful : IsLawful (candidate_order json)
  candidate_order-IsLawful =
      then_by-IsLawful
        (descending-IsLawful
          (on-IsLawful (λ (c : PendingActionCandidate json). c.priority) compare-IsLawful))
        (on-IsLawful (λ (c : PendingActionCandidate json). c.created_at) compare-IsLawful)

  -- The item is the source of the action and belongs to the session.
  abbrev pub is_source :
      List NiumaEvent → ToolSessionDetail Value → AttentionItem → PendingAction Value → Bool
  is_source events detail item action =
      (action.source_event_id == some item.event_id)
      && elim (find? (λ (event : NiumaEvent). event.id == item.event_id) events) [
        | some event ↦ event_matches_detail event detail
        | none ↦ item_matches_detail item detail
      ]

  action_source :
      (item : AttentionItem) (event : NiumaEvent) (detail : ToolSessionDetail Value)
      (t : PendingActionType)
      → (action_for json item event detail t).source_event_id ≡ some event.id
  unfolding action_for approval_action input_action
  action_source item event detail PendingActionType.approval = refl
  action_source item event detail PendingActionType.input = refl

  action_submittable :
      (item : AttentionItem) (event : NiumaEvent) (detail : ToolSessionDetail Value)
      (t : PendingActionType)
      → (action_for json item event detail t).actionable ≡ (
          not (is_empty (action_for json item event detail t).actions)
          || is_some (action_for json item event detail t).submit)
  unfolding action_for approval_action input_action
  action_submittable item event detail PendingActionType.approval = ground arith
  action_submittable item event detail PendingActionType.input = refl

  -- What the two ways to a candidate have in common.
  candidate_by :
      (P : PendingActionCandidate json → Type 0) (events : List NiumaEvent)
      (detail : ToolSessionDetail Value) (item : AttentionItem) (c : PendingActionCandidate json)
      → ((event : NiumaEvent) (t : PendingActionType)
          → find? (λ (event : NiumaEvent). event.id == item.event_id) events ≡ some event
          → event_matches_detail event detail ≡ true
          → P (record {
            priority = pending_priority t event.interaction;
            created_at = item.created_at;
            action = action_for json item event detail t;
          }))
      → (find? (λ (event : NiumaEvent). event.id == item.event_id) events ≡ none
          → item_matches_detail item detail ≡ true
          → P (fallback_candidate_from_attention json item))
      → candidate_for_attention_item json events item detail ≡ some c
      → P c
  unfolding candidate_for_attention_item candidate_from_event
  candidate_by P events detail item c f g h =
      elim (Option-cases (find? (λ (event : NiumaEvent). event.id == item.event_id) events)) [
        | inl e ↦ elim (Bool-cases (item_matches_detail item detail)) [
          | inl m ↦
              let q : fallback_candidate_from_attention json item ≡ c = ground (arith, e, m, h) in
              subst P q (g e m)
          | inr m ↦ absurd (ground (arith, e, m, h))
        ]
        | inr (event, e) ↦ elim (Bool-cases (event_matches_detail event detail)) [
          | inl m ↦ elim (Option-cases (action_type_for item.status)) [
            | inl a ↦ absurd (ground (arith, e, m, a, h))
            | inr (t, a) ↦
                let made : PendingActionCandidate json = record {
                  priority = pending_priority t event.interaction;
                  created_at = item.created_at;
                  action = action_for json item event detail t;
                } in
                let q : made ≡ c = ground (arith, e, m, a, h) in subst P q (f event t e m)
          ]
          | inr m ↦ absurd (ground (arith, e, m, h))
        ]
      ]

  pub candidate_source :
      (events : List NiumaEvent) (detail : ToolSessionDetail Value) (item : AttentionItem)
      (c : PendingActionCandidate json)
      → candidate_for_attention_item json events item detail ≡ some c
      → is_source events detail item c.action ≡ true
  unfolding fallback_candidate_from_attention
  candidate_source events detail item c h =
      candidate_by (λ c. is_source events detail item c.action ≡ true) events detail item c
        (λ event t e m. ground (
          arith,
          e,
          m,
          action_source item event detail t,
          find?-holds _ events e,
          string_eq.decides event.id item.event_id,
          string_eq.decides item.event_id item.event_id,
        ))
        (λ e m. ground (arith, e, m, string_eq.decides item.event_id item.event_id)) h

  pub candidate_submittable :
      (events : List NiumaEvent) (detail : ToolSessionDetail Value) (item : AttentionItem)
      (c : PendingActionCandidate json)
      → candidate_for_attention_item json events item detail ≡ some c
      → c.action.actionable ≡ (not (is_empty c.action.actions) || is_some c.action.submit)
  unfolding fallback_candidate_from_attention
  candidate_submittable events detail item c h =
      candidate_by
        (λ c. c.action.actionable ≡ (not (is_empty c.action.actions) || is_some c.action.submit))
        events detail item c (λ event t e m. action_submittable item event detail t) (λ e m. refl) h

  -- An approval stands before an input of the same kind, and what can be answered here before what
  -- cannot; a candidate waits since its action was created.
  abbrev pub IsRanked : PendingActionCandidate json → Type 0
  IsRanked c =
      (ranks c.action.action_type c.action.actionable c.priority ≡ true)
      × (c.created_at ≡ c.action.created_at)

  action_for-ranks :
      (item : AttentionItem) (event : NiumaEvent) (detail : ToolSessionDetail Value)
      (t : PendingActionType)
      → let action = action_for json item event detail t in
        (ranks action.action_type action.actionable (pending_priority t event.interaction) ≡ true)
        × (action.created_at ≡ item.created_at)
  unfolding action_for approval_action input_action pending_priority interaction_kind_matches
      approval_actions approval_actionable input_submit
  action_for-ranks item event detail PendingActionType.approval = (ground arith, refl)
  action_for-ranks item event detail PendingActionType.input = (ground arith, refl)

  candidate-IsRanked :
      (events : List NiumaEvent) (detail : ToolSessionDetail Value) (item : AttentionItem)
      (c : PendingActionCandidate json)
      → candidate_for_attention_item json events item detail ≡ some c
      → IsRanked c
  unfolding fallback_candidate_from_attention
  candidate-IsRanked events detail item c h =
      candidate_by IsRanked events detail item c
        (λ event t e m. let r = action_for-ranks item event detail t in (r.0, sym r.1))
        (λ e m. (ground arith, refl)) h

  pub candidates-IsRanked :
      (runtime : RuntimeState) (detail : ToolSessionDetail Value)
      → All IsRanked (candidates_for_session json runtime detail)
  unfolding candidates_for_session
  candidates-IsRanked runtime detail =
      filter_map-All _ IsRanked _
        (candidate-IsRanked (main_state_input runtime).public_events detail)

-- ===== src/PendingAction/Parts.antt =====
-- crates/niuma-api/src/pending_action.rs: what the pending actions are made of, and which events and
-- items belong to the session of a detail.
use niu_ma_notifier.Prelude.{
  ℕ, String, Bool, true, false, not, ◌&&◌, ◌||◌, Option, none, some, List, [], ◌∷◌, map,
  if◌then◌else◌, is_some_and, ◌==◌, string_eq, option_eq,
}
use niu_ma_notifier.Models.{
  tool_eq, RuntimeStateStatus, EventInteractionKind, interaction_kind_eq, EventInteractionHandling,
  interaction_handling_eq, EventInteractionOption, EventInteractionQuestion, EventInteractionDetail,
  NiumaEvent, AttentionItem,
}
use niu_ma_notifier.ToolSession.{
  ToolSessionScope, scope_eq, PendingActionType, PendingInputFieldType, PendingInputField,
  ToolSessionDetail,
}
use niu_ma_notifier.Sessions.{or_else, unwrap_or, and_then}

-- `option.filter(p)`.
abbrev pub filter {ℓ} : {A : Type ℓ} → (A → Bool) → Option A → Option A
filter p none = none
filter p (some a) = if p a then some a else none

abbrev pub is_empty {ℓ} : {A : Type ℓ} → List A → Bool
is_empty [] = true
is_empty (_ ∷ _) = false

unfoldable pub interaction_kind_matches : PendingActionType → EventInteractionDetail → Bool
interaction_kind_matches PendingActionType.approval interaction =
    interaction.kind == EventInteractionKind.approval
interaction_kind_matches PendingActionType.input interaction =
    interaction.kind == EventInteractionKind.input

unfoldable pub pending_priority : PendingActionType → Option EventInteractionDetail → ℕ
pending_priority action_type interaction =
    let niuma_actionable = is_some_and interaction (λ interaction.
      interaction_kind_matches action_type interaction
      && ((interaction.handling == EventInteractionHandling.niuma) && interaction.actionable)) in
    elim action_type [
      | PendingActionType.approval ↦ if niuma_actionable then 40 else 20
      | PendingActionType.input ↦ if niuma_actionable then 30 else 10
    ]

unfoldable pub title_for : PendingActionType → String
title_for PendingActionType.approval = "需要授权"
title_for PendingActionType.input = "等待输入"

unfoldable pub description_for : NiumaEvent → Option EventInteractionDetail → String
description_for event interaction =
    unwrap_or (or_else (and_then interaction (λ interaction. interaction.message)) event.content)
      event.summary

unfoldable pub input_field_from_question : EventInteractionQuestion → PendingInputField
input_field_from_question question = record {
  id = question.id;
  label = unwrap_or question.header question.question;
  question = question.question;
  field_type = elim question.options [
    | [] ↦ PendingInputFieldType.text
    | _ ∷ _ ↦ PendingInputFieldType.single_select
  ];
  required = true;
  options =
      map
        (λ (option : EventInteractionOption). record {
          label = option.label;
          description = option.description;
        })
        question.options;
}

-- The match on the status of an item that waits.
unfoldable pub action_type_for : RuntimeStateStatus → Option PendingActionType
action_type_for RuntimeStateStatus.waiting_approval = some PendingActionType.approval
action_type_for RuntimeStateStatus.waiting_input = some PendingActionType.input
action_type_for _ = none

-- The filter of `pending_action_for_session`.
unfoldable pub is_waiting : AttentionItem → Bool
is_waiting item = elim item.status [
  | RuntimeStateStatus.waiting_approval ↦ true
  | RuntimeStateStatus.waiting_input ↦ true
  | _ ↦ false
]

module _ {Value : Type 0} where
  unfoldable pub detail_allows_normalized_event_match : ToolSessionDetail Value → Bool
  detail_allows_normalized_event_match detail =
      is_some_and detail.normalized_session_id (λ id. detail.session_id == id)
      || (detail.session_scope == some ToolSessionScope.main)

  unfoldable pub event_matches_detail : NiumaEvent → ToolSessionDetail Value → Bool
  event_matches_detail event detail =
      if not (event.tool == detail.tool)
      then false
      else if event.session_id == detail.session_id
      then true
      else if event.parent_session_id == some detail.session_id
      then true
      else detail_allows_normalized_event_match detail
        && is_some_and detail.normalized_session_id (λ id. event.normalized_session_id == some id)

  unfoldable pub item_matches_detail : AttentionItem → ToolSessionDetail Value → Bool
  item_matches_detail item detail =
      (item.tool == detail.tool) && (item.session_id == detail.session_id)

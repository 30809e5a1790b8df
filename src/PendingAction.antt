-- ===== src/PendingAction.antt =====
-- crates/niuma-api/src/pending_action.rs: what a client may still answer in a session, found among
-- the items that wait. A JSON object with text fields is made by the function `json`, which a
-- section gives.
pub mod Choice
pub mod Chosen
pub mod Candidates
mod Parts
unfoldable pub use Parts.*
use Prim.Native.Nat.{compare}
use niu_ma_notifier.Prelude.{
  ℕ, String, Bool, true, false, not, ◌&&◌, ◌||◌, Option, none, some, List, [], ◌∷◌, map,
  if◌then◌else◌, find?, retain, filter_map, is_some, is_some_and, ◌==◌, string_eq, option_eq,
}
use niu_ma_notifier.Prelude.Order.{Comparator, on, descending, then_by}
use niu_ma_notifier.Prelude.Sort.{sort_by}
use niu_ma_notifier.Models.{
  tool_eq, as_str, RuntimeStateStatus, EventInteractionKind, interaction_kind_eq,
  EventInteractionHandling, interaction_handling_eq, EventInteractionOption,
  EventInteractionQuestion, EventInteractionSchema, EventInteractionDetail, ApprovalControlRef,
  NiumaEvent, AttentionItem, DateTime,
}
use niu_ma_notifier.ToolSession.{
  ToolSessionScope, scope_eq, PendingActionType, PendingInputFieldType, PendingInputOption,
  PendingInputField, SubmitSpec, PendingActionButton, PendingAction, ToolSessionDetail,
}
use niu_ma_notifier.Store.{RuntimeState, main_state_input}
use niu_ma_notifier.Sessions.{or_else, unwrap_or, and_then, map_option, first?}

module _ {Value : Type 0} (json : List (String × String) → Value) where
  pub record PendingActionCandidate : Type 0 where
    pub priority : ℕ
    pub created_at : DateTime
    pub action : PendingAction Value

  unfoldable pub approval_button : String → String → String → PendingActionButton Value
  approval_button id label request_id = record {
    id = id;
    label = label;
    submit = record {
      method = "POST";
      url = "/api/v1/approval-decisions";
      body = json (("request_id", request_id) ∷ ("decision", id) ∷ []);
    };
  }

  unfoldable pub approval_buttons : String → List (PendingActionButton Value)
  approval_buttons request_id =
      approval_button "allow" "允许" request_id ∷ approval_button "deny" "拒绝" request_id ∷ []

  -- The test of `approval_action`.
  unfoldable pub approval_actionable : Option EventInteractionDetail → Bool
  approval_actionable interaction = is_some_and interaction (λ interaction.
      (interaction.kind == EventInteractionKind.approval)
      && ((interaction.handling == EventInteractionHandling.niuma)
          && (interaction.actionable && is_some interaction.request_id)))

  unfoldable pub approval_actions : Option EventInteractionDetail → List (PendingActionButton Value)
  approval_actions interaction =
      if approval_actionable interaction
      then unwrap_or
          (map_option approval_buttons
            (and_then interaction (λ interaction. interaction.request_id)))
          []
      else []

  unfoldable pub approval_action :
      AttentionItem → NiumaEvent → Option EventInteractionDetail → PendingAction Value
  approval_action item event interaction =
      let actions = approval_actions interaction in
      record {
        action_type = PendingActionType.approval;
        title = "需要授权";
        description = description_for event interaction;
        actionable = not (is_empty actions);
        created_at = item.created_at;
        source_event_id = some event.id;
        actions = actions;
        fields = [];
        submit = none;
      }

  abbrev pub fields_of : Option EventInteractionSchema → List PendingInputField
  fields_of none = []
  fields_of (some schema) = map input_field_from_question schema.questions

  -- The match on the ids of the request and of the channel.
  unfoldable pub input_submit :
      ToolSessionDetail Value → Option String → Option String → Option (SubmitSpec Value)
  input_submit detail (some request_id) (some channel_id) = some (record {
    method = "POST";
    url = "/api/v1/session-control/answer-input";
    body = json (
        ("tool", as_str detail.tool)
        ∷ ("session_id", detail.session_id)
        ∷ ("channel_id", channel_id)
        ∷ ("request_id", request_id)
        ∷ []);
  })
  input_submit detail _ _ = none

  unfoldable pub input_action :
      AttentionItem
      → NiumaEvent
      → Option EventInteractionDetail
      → ToolSessionDetail Value
      → PendingAction Value
  input_action item event interaction detail =
      let input_interaction =
        filter
          (λ (interaction : EventInteractionDetail). interaction.kind == EventInteractionKind.input)
          interaction in
      let niuma_input =
        filter
          (λ (interaction : EventInteractionDetail).
            (interaction.handling == EventInteractionHandling.niuma) && interaction.actionable)
          input_interaction in
      let submit =
        input_submit detail (and_then niuma_input (λ interaction. interaction.request_id)) (
          map_option (λ (control_ref : ApprovalControlRef). control_ref.channel_id)
            (and_then niuma_input (λ interaction. interaction.control_ref))) in
      record {
        action_type = PendingActionType.input;
        title = "等待输入";
        description = description_for event interaction;
        actionable = is_some submit;
        created_at = item.created_at;
        source_event_id = some event.id;
        actions = [];
        fields = fields_of (and_then input_interaction (λ interaction. interaction.schema));
        submit = submit;
      }

  unfoldable pub action_for :
      AttentionItem → NiumaEvent → ToolSessionDetail Value → PendingActionType → PendingAction Value
  action_for item event detail PendingActionType.approval =
      approval_action item event event.interaction
  action_for item event detail PendingActionType.input =
      input_action item event event.interaction detail

  unfoldable pub candidate_from_event :
      AttentionItem → NiumaEvent → ToolSessionDetail Value → Option PendingActionCandidate
  candidate_from_event item event detail =
      map_option
        (λ action_type. record {
          priority = pending_priority action_type event.interaction;
          created_at = item.created_at;
          action = action_for item event detail action_type;
        })
        (action_type_for item.status)

  unfoldable pub fallback_candidate_from_attention : AttentionItem → PendingActionCandidate
  fallback_candidate_from_attention item =
      let action_type = unwrap_or (action_type_for item.status) PendingActionType.approval in
      record {
        priority = elim action_type [
          | PendingActionType.approval ↦ 20
          | PendingActionType.input ↦ 10
        ];
        created_at = item.created_at;
        action = record {
          action_type = action_type;
          title = title_for action_type;
          description = item.summary;
          actionable = false;
          created_at = item.created_at;
          source_event_id = some item.event_id;
          actions = [];
          fields = [];
          submit = none;
        };
      }

  unfoldable pub candidate_for_attention_item :
      List NiumaEvent → AttentionItem → ToolSessionDetail Value → Option PendingActionCandidate
  candidate_for_attention_item events item detail =
      elim (find? (λ (event : NiumaEvent). event.id == item.event_id) events) [
        | some event ↦
            if event_matches_detail event detail
            then candidate_from_event item event detail
            else none
        | none ↦
            if item_matches_detail item detail
            then some (fallback_candidate_from_attention item)
            else none
      ]

  abbrev pub candidate_order : Comparator PendingActionCandidate
  candidate_order =
      then_by (descending (on compare (λ (candidate : PendingActionCandidate). candidate.priority)))
        (on compare (λ (candidate : PendingActionCandidate). candidate.created_at))

  -- The candidates before they are sorted.
  unfoldable pub candidates_for_session :
      RuntimeState → ToolSessionDetail Value → List PendingActionCandidate
  candidates_for_session runtime detail =
      let input = main_state_input runtime in
      filter_map (λ item. candidate_for_attention_item input.public_events item detail)
        (retain is_waiting input.state.attention_items)

  unfoldable pub pending_action_for_session :
      RuntimeState → ToolSessionDetail Value → Option (PendingAction Value)
  pending_action_for_session runtime detail =
      map_option (λ (candidate : PendingActionCandidate). candidate.action)
        (first? (sort_by candidate_order (candidates_for_session runtime detail)))

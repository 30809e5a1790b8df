-- ===== src/ToolSession.antt =====
-- crates/niuma-core/src/tool_session.rs: the sessions of a tool, their control channels, and what a
-- client may still answer. A free JSON value is of the type `Value` that a section gives.
use niu_ma_notifier.Prelude.{
  ℕ, ◌≡◌, ◌↔◌, String, Bool, true, Option, List, arith, PartialEq, nat_beq,
}
use niu_ma_notifier.Models.{ToolId, RuntimeStateStatus, DateTime}

pub data ToolSessionStatus : Type 0 where
  active inactive unknown : ToolSessionStatus

pub data ToolSessionScope : Type 0 where
  main subagent : ToolSessionScope

abbrev pub scope_discriminant : ToolSessionScope → ℕ
scope_discriminant main = 0
scope_discriminant subagent = 1

pub scope_beq_iff :
    (a b : ToolSessionScope)
    → (nat_beq (scope_discriminant a) (scope_discriminant b) ≡ true) ↔ (a ≡ b)
scope_beq_iff a b = ground arith

instance abbrev pub scope_eq : PartialEq ToolSessionScope
scope_eq = record {
  is_equal = λ a b. nat_beq (scope_discriminant a) (scope_discriminant b);
  decides = scope_beq_iff;
}

pub data ToolSessionNormalizationStatus : Type 0 where
  resolved parent_missing parent_unresolved : ToolSessionNormalizationStatus

pub record ToolSessionControlAction : Type 0 where
  pub action_type : String
  pub transport : String
  pub endpoint : Option String
  pub debug_command : Option String

pub record ToolSessionControlChannel : Type 0 where
  pub id : String
  pub provider : String
  pub kind : String
  pub available : Bool
  pub capabilities : List String
  pub actions : List ToolSessionControlAction
  pub unavailable_reason : Option String
  pub updated_at : DateTime

pub record ToolSessionControl : Type 0 where
  pub resumable : Bool
  pub preferred_channel_id : Option String
  pub channels : List ToolSessionControlChannel

pub record ToolSessionListItem : Type 0 where
  pub id : String
  pub tool : ToolId
  pub session_id : String
  pub project_path : String
  pub project_name : String
  pub file_path : String
  pub modified_at : DateTime
  pub discovered_at : DateTime
  pub last_seen_at : DateTime
  pub is_active : Bool
  pub is_subagent : Bool
  pub parent_session_id : Option String
  pub normalized_session_id : Option String
  pub session_scope : Option ToolSessionScope
  pub agent_nickname : Option String
  pub agent_role : Option String
  pub normalization_status : Option ToolSessionNormalizationStatus
  pub first_user_message_preview : Option String
  pub first_user_message_at : Option DateTime
  pub control : Option ToolSessionControl
  pub status : ToolSessionStatus

pub data ToolSessionMessageRole : Type 0 where
  user assistant system tool_call tool_result event_role unknown_role : ToolSessionMessageRole

pub data PendingActionType : Type 0 where
  approval input : PendingActionType

pub data PendingInputFieldType : Type 0 where
  text single_select : PendingInputFieldType

pub record PendingInputOption : Type 0 where
  pub label : String
  pub description : Option String

pub record PendingInputField : Type 0 where
  pub id : String
  pub label : String
  pub question : String
  pub field_type : PendingInputFieldType
  pub required : Bool
  pub options : List PendingInputOption

module _ (Value : Type 0) where
  pub record ToolSessionMessage : Type 0 where
    pub id : String
    pub role : ToolSessionMessageRole
    pub content : String
    pub created_at : DateTime
    pub metadata : Value

  pub record SubmitSpec : Type 0 where
    pub method : String
    pub url : String
    pub body : Value

  pub record PendingActionButton : Type 0 where
    pub id : String
    pub label : String
    pub submit : SubmitSpec

  pub record PendingAction : Type 0 where
    pub action_type : PendingActionType
    pub title : String
    pub description : String
    pub actionable : Bool
    pub created_at : DateTime
    pub source_event_id : Option String
    pub actions : List PendingActionButton
    pub fields : List PendingInputField
    pub submit : Option SubmitSpec

  pub record ToolSessionDetail : Type 0 where
    pub tool : ToolId
    pub session_id : String
    pub project_path : String
    pub project_name : String
    pub is_subagent : Bool
    pub parent_session_id : Option String
    pub normalized_session_id : Option String
    pub session_scope : Option ToolSessionScope
    pub agent_nickname : Option String
    pub agent_role : Option String
    pub normalization_status : Option ToolSessionNormalizationStatus
    pub control : Option ToolSessionControl
    pub runtime_status : Option RuntimeStateStatus
    pub runtime_last_event_id : Option String
    pub runtime_last_activity_at : Option DateTime
    pub pending_action : Option PendingAction
    pub messages : List ToolSessionMessage
    pub next_cursor : Option String

-- ===== src/Models/Event.antt =====
-- `NiumaEvent` of crates/niuma-core/src/models.rs.
use niu_ma_notifier.Prelude.{ℕ, String, Option}
use niu_ma_notifier.Models.Tool.{ToolId}
use niu_ma_notifier.Models.Status.{EventType, EventSessionScope, CompletionReason, FailureReason}
use niu_ma_notifier.Models.Interaction.{EventInteractionDetail}

-- Nanoseconds since the Unix epoch.
abbrev pub DateTime : Type 0
DateTime = ℕ

-- Nanoseconds.
abbrev pub Duration : Type 0
Duration = ℕ

pub record NiumaEvent : Type 0 where
  pub id : String
  pub dedupe_key : String
  pub source : String
  pub tool : ToolId
  pub session_id : String
  pub parent_session_id : Option String
  pub normalized_session_id : Option String
  pub session_scope : Option EventSessionScope
  pub agent_nickname : Option String
  pub agent_role : Option String
  pub tool_call_id : Option String
  pub project_path : String
  pub project_name : String
  pub event_type : EventType
  pub severity : String
  pub summary : String
  pub content : Option String
  pub error_message : Option String
  pub attention_resolve_key : Option String
  pub completion_reason : Option CompletionReason
  pub failure_reason : Option FailureReason
  pub payload_ref : Option String
  pub interaction : Option EventInteractionDetail
  pub created_at : DateTime

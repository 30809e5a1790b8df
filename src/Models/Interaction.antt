-- ===== src/Models/Interaction.antt =====
-- `EventInteractionDetail` of crates/niuma-core/src/models.rs: how a waiting event may be answered.
use niu_ma_notifier.Prelude.{String, Bool, true, false, Option, none, some, List, [], ◌∷◌}
use niu_ma_notifier.Models.Status.{EventInteractionKind, EventInteractionHandling}

pub record ApprovalControlRef : Type 0 where
  pub channel_id : String
  pub codex_session_id : Option String
  pub relay_request_id : String
  pub turn_id : Option String
  pub item_id : Option String

pub record EventInteractionOption : Type 0 where
  pub label : String
  pub description : Option String

pub record EventInteractionQuestion : Type 0 where
  pub id : String
  pub header : Option String
  pub question : String
  pub options : List EventInteractionOption

pub record EventInteractionSchema : Type 0 where
  pub questions : List EventInteractionQuestion

pub record EventInteractionDetail : Type 0 where
  pub kind : EventInteractionKind
  pub handling : EventInteractionHandling
  pub actionable : Bool
  pub request_id : Option String
  pub control_ref : Option ApprovalControlRef
  pub actions : List String
  pub endpoint : Option String
  pub message : Option String
  pub schema : Option EventInteractionSchema

unfoldable pub niuma_approval : String → EventInteractionDetail
niuma_approval request_id = record {
  kind = EventInteractionKind.approval;
  handling = EventInteractionHandling.niuma;
  actionable = true;
  request_id = some request_id;
  control_ref = none;
  actions = "allow" ∷ "deny" ∷ [];
  endpoint = some "/api/v1/approval-decisions";
  message = none;
  schema = none;
}

unfoldable pub tool_approval : String → EventInteractionDetail
tool_approval message = record {
  kind = EventInteractionKind.approval;
  handling = EventInteractionHandling.tool;
  actionable = false;
  request_id = none;
  control_ref = none;
  actions = [];
  endpoint = none;
  message = some message;
  schema = none;
}

unfoldable pub niuma_input : String → EventInteractionSchema → EventInteractionDetail
niuma_input request_id schema = record {
  kind = EventInteractionKind.input;
  handling = EventInteractionHandling.niuma;
  actionable = true;
  request_id = some request_id;
  control_ref = none;
  actions = "submit" ∷ [];
  endpoint = some "/api/v1/session-control/answer-input";
  message = none;
  schema = some schema;
}

unfoldable pub tool_input : String → EventInteractionDetail
tool_input message = record {
  kind = EventInteractionKind.input;
  handling = EventInteractionHandling.tool;
  actionable = false;
  request_id = none;
  control_ref = none;
  actions = [];
  endpoint = none;
  message = some message;
  schema = none;
}

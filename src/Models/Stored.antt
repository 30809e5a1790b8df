-- ===== src/Models/Stored.antt =====
-- The stored items of crates/niuma-core/src/models.rs, and `StoredState` of store.rs beside it.
use niu_ma_notifier.Prelude.{ℕ, String, Option, none, some, List, []}
use niu_ma_notifier.Models.Tool.{ToolId}
use niu_ma_notifier.Models.Status.{
  RuntimeStateStatus, idle, ApprovalStatus, ApprovalProxyStatus, ApprovalChannel,
}
use niu_ma_notifier.Models.Interaction.{ApprovalControlRef}
use niu_ma_notifier.Models.Event.{DateTime, NiumaEvent}

pub record RuntimeStateItem : Type 0 where
  pub tool : ToolId
  pub session_id : String
  pub project_path : String
  pub project_name : String
  pub status : RuntimeStateStatus
  pub last_event_id : Option String
  pub last_activity_at : DateTime

pub record AttentionItem : Type 0 where
  pub event_id : String
  pub tool : ToolId
  pub session_id : String
  pub status : RuntimeStateStatus
  pub summary : String
  pub attention_resolve_key : Option String
  pub created_at : DateTime

-- `AttentionItem::from_event`.
unfoldable pub attention_from_event : NiumaEvent → RuntimeStateStatus → AttentionItem
attention_from_event event status = record {
  event_id = event.id;
  tool = event.tool;
  session_id = event.session_id;
  status = status;
  summary = event.summary;
  attention_resolve_key = event.attention_resolve_key;
  created_at = event.created_at;
}

pub record ApprovalRequest : Type 0 where
  pub id : String
  pub tool : ToolId
  pub session_id : String
  pub turn_id : String
  pub tool_name : String
  pub tool_call_id : Option String
  pub command : Option String
  pub description : Option String
  pub project_path : String
  pub project_name : String
  pub status : ApprovalStatus
  pub decided_by : Option String
  pub decided_source : Option String
  pub reason : Option String
  pub created_at : DateTime
  pub updated_at : DateTime
  pub proxy_timeout_seconds : ℕ  -- u64
  pub proxy_status : ApprovalProxyStatus
  pub last_heartbeat_at : Option DateTime
  pub proxy_lost_at : Option DateTime
  pub channel : ApprovalChannel
  pub control_ref : Option ApprovalControlRef

pub record LatestActivity : Type 0 where
  pub event_id : Option String
  pub tool : Option ToolId
  pub session_id : Option String
  pub status : RuntimeStateStatus
  pub updated_at : Option DateTime

-- `LatestActivity::idle`.
unfoldable pub idle_activity : LatestActivity
idle_activity = record {
  event_id = none;
  tool = none;
  session_id = none;
  status = idle;
  updated_at = none;
}

-- `LatestActivity::from_event`.
unfoldable pub activity_from_event : NiumaEvent → RuntimeStateStatus → LatestActivity
activity_from_event event status = record {
  event_id = some event.id;
  tool = some event.tool;
  session_id = some event.session_id;
  status = status;
  updated_at = some event.created_at;
}

pub record StoredState : Type 0 where
  pub events : List NiumaEvent
  pub runtime_states : List RuntimeStateItem
  pub attention_items : List AttentionItem
  pub latest_activity : Option LatestActivity
  pub approval_requests : List ApprovalRequest

-- `StoredState::default`.
unfoldable pub default_state : StoredState
unfolding idle_activity
default_state = record {
  events = [];
  runtime_states = [];
  attention_items = [];
  latest_activity = some idle_activity;
  approval_requests = [];
}

-- ===== src/Witnesses/Data.antt =====
-- The events, items and requests of the concrete runs.
use niu_ma_notifier.Prelude.{ℕ, String, true, Option, none, some, List, [], ◌∷◌}
use niu_ma_notifier.Models.{
  ToolId, RuntimeStateStatus, ApprovalStatus, ApprovalProxyStatus, ApprovalChannel, EventType,
  NiumaEvent, RuntimeStateItem, AttentionItem, ApprovalRequest, StoredState,
}
use niu_ma_notifier.Store.{RuntimeState}
use niu_ma_notifier.ListenerConfig.{ListenerConfig}
use niu_ma_notifier.StateMutation.{StateMutationService}
use niu_ma_notifier.EventBus.{new_bus}

abbrev pub event : String → ToolId → String → EventType → Option String → ℕ → NiumaEvent
event id tool session event_type key at = record {
  id = id;
  dedupe_key = id;
  source = "hook";
  tool = tool;
  session_id = session;
  parent_session_id = none;
  normalized_session_id = none;
  session_scope = none;
  agent_nickname = none;
  agent_role = none;
  tool_call_id = none;
  project_path = "/work";
  project_name = "work";
  event_type = event_type;
  severity = "info";
  summary = "something happened";
  content = none;
  error_message = none;
  attention_resolve_key = key;
  completion_reason = none;
  failure_reason = none;
  payload_ref = none;
  interaction = none;
  created_at = at;
}

abbrev pub started : NiumaEvent
started = event "e1" ToolId.codex "s" EventType.session_started none 10

abbrev pub asked : NiumaEvent
asked = event "e2" ToolId.codex "s" EventType.approval_requested (some "approval:a") 20

abbrev pub resolved : NiumaEvent
resolved = event "e3" ToolId.codex "s" EventType.approval_resolved (some "approval:a") 30

abbrev pub resumed : NiumaEvent
resumed = event "e4" ToolId.codex "s" EventType.session_activity none 40

abbrev pub idled : NiumaEvent
idled = event "e5" ToolId.codex "s" EventType.session_idled none 50

abbrev pub run_of : ToolId → String → RuntimeStateStatus → ℕ → RuntimeStateItem
run_of tool session status at = record {
  tool = tool;
  session_id = session;
  project_path = "/work";
  project_name = "work";
  status = status;
  last_event_id = none;
  last_activity_at = at;
}

abbrev pub item_of : String → String → Option String → AttentionItem
item_of id session key = record {
  event_id = id;
  tool = ToolId.codex;
  session_id = session;
  status = RuntimeStateStatus.waiting_approval;
  summary = "may I";
  attention_resolve_key = key;
  created_at = 5;
}

-- Two approvals of one Codex run are open, and a Claude Code run goes on.
abbrev pub waiting_state : StoredState
waiting_state = record {
  events = [];
  runtime_states =
      run_of ToolId.codex "s" RuntimeStateStatus.waiting_approval 5
      ∷ run_of ToolId.claude_code "c" RuntimeStateStatus.running 6
      ∷ [];
  attention_items = item_of "a" "s" (some "approval:a") ∷ item_of "b" "s" (some "approval:b") ∷ [];
  latest_activity = none;
  approval_requests = [];
}

abbrev pub waiting_store : RuntimeState
waiting_store = record {
  state = waiting_state;
  public_events = asked ∷ started ∷ [];
  dedupe_keys = "e1" ∷ "e2" ∷ [];
  plugin_runtime_states = [];
}

abbrev pub request_of : String → ApprovalStatus → ApprovalRequest
request_of id status = record {
  id = id;
  tool = ToolId.codex;
  session_id = "s";
  turn_id = "t";
  tool_name = "shell";
  tool_call_id = none;
  command = some "ls";
  description = none;
  project_path = "/work";
  project_name = "work";
  status = status;
  decided_by = none;
  decided_source = none;
  reason = none;
  created_at = 1;
  updated_at = 1;
  proxy_timeout_seconds = 60;
  proxy_status = ApprovalProxyStatus.active;
  last_heartbeat_at = some 100;
  proxy_lost_at = none;
  channel = ApprovalChannel.hook_proxy;
  control_ref = none;
}

abbrev pub requests : List ApprovalRequest
requests = request_of "p" ApprovalStatus.pending ∷ request_of "d" ApprovalStatus.denied ∷ []

abbrev pub both_on : ListenerConfig
both_on = record {
  codex_listening_enabled = true;
  claude_code_listening_enabled = true;
  tool_listening_enabled = [];
}

abbrev pub service : StateMutationService
service = record { store = waiting_store; config = both_on; runtime_events = new_bus }

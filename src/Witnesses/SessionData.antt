-- ===== src/Witnesses/SessionData.antt =====
-- The sessions and runs of the concrete registries.
use niu_ma_notifier.Prelude.{
  ℕ, String, true, false, none, some, List, [], ◌∷◌, nat_eq, string_eq, option_eq,
}
use niu_ma_notifier.Models.{ToolId, tool_eq, status_eq, RuntimeStateStatus, RuntimeStateItem}
use niu_ma_notifier.ToolSession.{
  ToolSessionStatus, ToolSessionControl, ToolSessionControlChannel, ToolSessionListItem, scope_eq,
}
use niu_ma_notifier.Sessions.{Snapshots}

abbrev pub channel_of : String → ℕ → ToolSessionControlChannel
channel_of id updated_at = record {
  id = id;
  provider = "niuma";
  kind = "socket";
  available = true;
  capabilities = "send_instruction" ∷ [];
  actions = [];
  unavailable_reason = none;
  updated_at = updated_at;
}

abbrev pub control_with : List ToolSessionControlChannel → ToolSessionControl
control_with channels = record {
  resumable = true;
  preferred_channel_id = none;
  channels = channels;
}

abbrev pub session_with : String → ℕ → ToolSessionListItem
session_with session_id last_seen_at = record {
  id = session_id;
  tool = ToolId.codex;
  session_id = session_id;
  project_path = "/p";
  project_name = "p";
  file_path = "/p/f";
  modified_at = 5;
  discovered_at = 1;
  last_seen_at = last_seen_at;
  is_active = true;
  is_subagent = false;
  parent_session_id = none;
  normalized_session_id = none;
  session_scope = none;
  agent_nickname = none;
  agent_role = none;
  normalization_status = none;
  first_user_message_preview = none;
  first_user_message_at = none;
  control = some (control_with (channel_of "k" last_seen_at ∷ []));
  status = ToolSessionStatus.active;
}

abbrev pub sessions : List ToolSessionListItem
sessions = session_with "a" 3 ∷ session_with "b" 9 ∷ session_with "c" 4 ∷ []

abbrev pub snapshots : Snapshots
snapshots = (ToolId.codex, sessions) ∷ []

abbrev pub run_in : String → RuntimeStateStatus → RuntimeStateItem
run_in session_id status = record {
  tool = ToolId.codex;
  session_id = session_id;
  project_path = "/p";
  project_name = "p";
  status = status;
  last_event_id = some "e";
  last_activity_at = 8;
}

abbrev pub runs : List RuntimeStateItem
runs = run_in "a" RuntimeStateStatus.running ∷ run_in "b" RuntimeStateStatus.waiting_input ∷ []

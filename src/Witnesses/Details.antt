-- ===== src/Witnesses/Details.antt =====
-- What the registry finds, and the details of the sessions.
use niu_ma_notifier.Prelude.HashMap
use niu_ma_notifier.Prelude.{
  String, ◌≡◌, refl, true, false, ◌&&◌, none, some, [], ◌∷◌, All, retain, find?, if◌then◌else◌, ok,
  ◌==◌, nat_eq, string_eq, option_eq, ltb, ◌||◌, leb, ◌⊎◌,
}
use niu_ma_notifier.Sessions.{own_detail}
use niu_ma_notifier.Prelude.Sort.{max_by}
use niu_ma_notifier.Models.{
  ToolId, tool_beq, tool_eq, status_eq, RuntimeStateStatus, RuntimeStateItem,
}
use niu_ma_notifier.ToolSession.{ToolSessionListItem, ToolSessionDetail, ToolSessionScope, scope_eq}
use niu_ma_notifier.Sessions.{
  map_option, canonical_tool_session_id, find_session, replace_snapshot, ToolSessionRegistry,
  detail, runtime_for_detail, detail_matches_runtime_session, runtime_status_priority, belongs_to,
  session_in, normalized_session_id_for,
}
use niu_ma_notifier.Sessions.Registry.{
  find_session-replace_snapshot, detail_own, urgency, runtime_for_detail_greatest,
}
use niu_ma_notifier.Witnesses.SessionData.{session_with, sessions, snapshots, run_in, runs}

find_session-replace_snapshot_example :
    find_session (replace_snapshot snapshots ToolId.claude_code sessions) ToolId.codex "b" ≡ (
      if ToolId.claude_code == ToolId.codex
      then map_option
          (λ (session : ToolSessionListItem). record session {
            tool = ToolId.claude_code;
            id = canonical_tool_session_id ToolId.claude_code session.session_id;
          })
          (find? (λ (session : ToolSessionListItem). session.session_id == "b") sessions)
      else find_session snapshots ToolId.codex "b")
find_session-replace_snapshot_example =
    find_session-replace_snapshot snapshots ToolId.claude_code ToolId.codex sessions "b"

abbrev detail_of : ToolId → String → ToolSessionDetail String
detail_of tool session_id = record {
  tool = tool;
  session_id = session_id;
  project_path = "/p";
  project_name = "p";
  is_subagent = false;
  parent_session_id = none;
  normalized_session_id = none;
  session_scope = none;
  agent_nickname = none;
  agent_role = none;
  normalization_status = none;
  control = none;
  runtime_status = none;
  runtime_last_event_id = none;
  runtime_last_activity_at = none;
  pending_action = none;
  messages = [];
  next_cursor = none;
}

abbrev registry : ToolSessionRegistry String
registry = record {
  snapshots = snapshots;
  detail_providers =
      (ToolId.codex, λ tool session_id limit cursor. ok (detail_of tool session_id)) ∷ [];
}

abbrev asked_id : String
asked_id = "a"

detail_own_example :
    ((detail_of ToolId.codex asked_id).tool ≡ ToolId.codex)
    × ((detail_of ToolId.codex asked_id).session_id ≡ asked_id)
unfolding detail own_detail HashMap.get tool_beq
detail_own_example =
    detail_own registry ToolId.codex asked_id 20 none (detail_of ToolId.codex asked_id) refl

-- The detail of the main session of a conversation, in which a subagent runs.
abbrev main_detail : ToolSessionDetail String
main_detail = record (detail_of ToolId.codex "a") {
  normalized_session_id = some "a";
  session_scope = some ToolSessionScope.main;
}

abbrev subagent : ToolSessionListItem
subagent = record (session_with "b" 9) { is_subagent = true; parent_session_id = some "a" }

abbrev with_subagent : ToolSessionRegistry String
with_subagent = record registry { snapshots = (ToolId.codex, subagent ∷ []) ∷ [] }

runtime_for_detail_greatest_example :
    ((run_in "b" RuntimeStateStatus.waiting_input).tool ≡ ToolId.codex)
    × (((run_in "b" RuntimeStateStatus.waiting_input).session_id ≡ main_detail.session_id)
        ⊎ ((id : String) × (session : ToolSessionListItem) × (main_detail.normalized_session_id
              ≡ some id)
            × ((main_detail.session_id == id
                  || main_detail.session_scope == some ToolSessionScope.main)
                ≡ true)
            × (find_session with_subagent.snapshots main_detail.tool "b" ≡ some session)
            × ((normalized_session_id_for session == id
                  || session.parent_session_id == some main_detail.session_id)
                ≡ true)))
    × All
        (λ (other : RuntimeStateItem).
          (ltb (urgency other.status) (urgency RuntimeStateStatus.waiting_input)
            || ((other.status == RuntimeStateStatus.waiting_input) && leb other.last_activity_at 8))
          ≡ true)
        (retain
          (λ (item : RuntimeStateItem).
            (item.tool == ToolId.codex)
            && detail_matches_runtime_session String with_subagent main_detail item)
          runs)
unfolding runtime_for_detail max_by retain tool_beq detail_matches_runtime_session find_session
    session_in find? HashMap.get belongs_to normalized_session_id_for runtime_status_priority
runtime_for_detail_greatest_example =
    runtime_for_detail_greatest with_subagent ToolId.codex main_detail runs
      (run_in "b" RuntimeStateStatus.waiting_input) refl

-- ===== src/ListenerConfig.antt =====
-- crates/niuma-core/src/listener_config.rs: which tools are listened to.
pub mod Switches
use niu_ma_notifier.Prelude.BtreeMap
use niu_ma_notifier.Prelude.{String, Bool, true, false, ◌||◌, none, some, List, []}
use niu_ma_notifier.Models.{ToolId, as_str, codex_id, claude_code_id}

pub record ListenerConfig : Type 0 where
  pub codex_listening_enabled : Bool
  pub claude_code_listening_enabled : Bool
  pub tool_listening_enabled : List (String × Bool)

-- `ListenerConfig::default`.
unfoldable pub default_config : ListenerConfig
default_config = record {
  codex_listening_enabled = true;
  claude_code_listening_enabled = false;
  tool_listening_enabled = [];
}

unfoldable pub is_any_ai_listening_enabled : ListenerConfig → Bool
is_any_ai_listening_enabled config =
    BtreeMap.any_value config.tool_listening_enabled
    || (config.codex_listening_enabled || config.claude_code_listening_enabled)

unfoldable pub legacy_tool_enabled : ListenerConfig → ToolId → Bool
legacy_tool_enabled config ToolId.codex = config.codex_listening_enabled
legacy_tool_enabled config ToolId.claude_code = config.claude_code_listening_enabled
legacy_tool_enabled config (ToolId.custom value) = false

unfoldable pub is_tool_enabled : ListenerConfig → ToolId → Bool
is_tool_enabled config tool = elim (BtreeMap.get config.tool_listening_enabled (as_str tool)) [
  | none ↦ legacy_tool_enabled config tool
  | some enabled ↦ enabled
]

unfoldable pub sync_legacy_tool : ListenerConfig → ToolId → Bool → ListenerConfig
sync_legacy_tool config ToolId.codex enabled = record config { codex_listening_enabled = enabled }
sync_legacy_tool config ToolId.claude_code enabled = record config {
  claude_code_listening_enabled = enabled;
}
sync_legacy_tool config (ToolId.custom value) enabled = config

unfoldable pub with_tool_enabled : ListenerConfig → ToolId → Bool → ListenerConfig
with_tool_enabled config tool enabled =
    sync_legacy_tool
      (record config {
        tool_listening_enabled =
            BtreeMap.insert config.tool_listening_enabled (as_str tool) enabled;
      })
      tool enabled

unfoldable pub tool_enabled_map : ListenerConfig → List (String × Bool)
tool_enabled_map config =
    BtreeMap.or_insert
      (BtreeMap.or_insert config.tool_listening_enabled codex_id config.codex_listening_enabled)
      claude_code_id config.claude_code_listening_enabled

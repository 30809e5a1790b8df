-- ===== src/Witnesses/Plugins.antt =====
-- The plugins and the connection of remote devices.
use niu_ma_notifier.Prelude.Text.{is_blank}
use niu_ma_notifier.Prelude.{
  ◌+◌, ◌≤◌, String, ◌≡◌, refl, true, false, not, ◌&&◌, ◌||◌, Option, none, some, [], ◌∷◌, arith,
  All, any, is_some, string_eq, eq_iff, ok,
}
use niu_ma_notifier.Models.{ToolId, as_str}
use niu_ma_notifier.Plugin.Manifest.{
  PluginCapability, PluginKind, PluginSource, PluginConfigFieldType, PluginConfigField,
  PluginManifest, is_tool_kind, declares, capability_eq, validate_fields, validate_config_schema,
}
use niu_ma_notifier.Plugin.Enablement.{
  PluginSwitches, plugin_enabled, save_plugin_enabled_state, validate_plugin_manifest,
  validate_providers,
}
use niu_ma_notifier.Plugin.Switched.{
  DistinctKeys, save_plugin_enabled_state_lem, validate_plugin_manifest_lem,
}
use niu_ma_notifier.Remote.{delay_for_attempt, default_backoff, delay_for_attempt_grows}
use niu_ma_notifier.Witnesses.Data.{service}

abbrev field_of : String → PluginConfigField String
field_of key = record {
  key = key;
  field_type = PluginConfigFieldType.url;
  label = "Server";
  required = true;
  default = "https://a.b";
  options = [];
}

abbrev plugin : String → Option ToolId → PluginManifest String
plugin id tool_id = record {
  id = id;
  kind = PluginKind.tool_plugin;
  tool_id = tool_id;
  display_name = id;
  version = "1.0.0";
  command = none;
  args = [];
  env = [];
  platforms = [];
  capabilities = PluginCapability.event_watcher ∷ [];
  icon_url = none;
  config_schema = field_of "server" ∷ field_of "group" ∷ [];
  source = PluginSource.builtin;
  base_dir = none;
}

abbrev codex_plugin : PluginManifest String
codex_plugin = plugin "codex-runtime" (some ToolId.codex)

abbrev claude_plugin : PluginManifest String
claude_plugin = plugin "claude-runtime" (some ToolId.claude_code)

abbrev switches : PluginSwitches
switches = record { service = service; enabled_map = [] }

save_plugin_enabled_state_lem_example :
    let after = (save_plugin_enabled_state switches (ok tt) codex_plugin false).0 in
    (plugin_enabled codex_plugin after.service.config after.enabled_map ≡ false)
    × (plugin_enabled claude_plugin after.service.config after.enabled_map
        ≡ plugin_enabled claude_plugin switches.service.config switches.enabled_map)
unfolding as_str
save_plugin_enabled_state_lem_example =
    save_plugin_enabled_state_lem switches codex_plugin claude_plugin false
      (λ e. ground (arith, eq_iff "claude-runtime" "codex-runtime"))
      (λ t u e f g. ground (arith, e, f, g, eq_iff "claude_code" "codex"))

validate_plugin_manifest_lem_example :
    ((is_tool_kind codex_plugin.kind && not (is_some codex_plugin.tool_id)) ≡ false)
    × ((not (is_tool_kind codex_plugin.kind)
          && (declares PluginCapability.event_watcher codex_plugin.capabilities
              || (declares PluginCapability.tool_session_list_provider codex_plugin.capabilities
                  || declares PluginCapability.tool_session_detail_provider
                      codex_plugin.capabilities)))
        ≡ false)
    × ((declares PluginCapability.tool_session_detail_provider codex_plugin.capabilities
          && not (declares PluginCapability.tool_session_list_provider codex_plugin.capabilities))
        ≡ false)
    × All
        (λ (f : PluginConfigField String). (is_blank f.key || is_blank f.label) ≡ false)
        codex_plugin.config_schema
    × DistinctKeys codex_plugin.config_schema
unfolding validate_plugin_manifest validate_providers validate_config_schema validate_fields
    is_blank any
validate_plugin_manifest_lem_example = validate_plugin_manifest_lem codex_plugin refl

delay_for_attempt_grows_example :
    (delay_for_attempt default_backoff 5 ≤ delay_for_attempt default_backoff (5 + 1))
    × (delay_for_attempt default_backoff (5 + 1)
        ≤ delay_for_attempt default_backoff 5 + delay_for_attempt default_backoff 5)
    × (delay_for_attempt default_backoff (5 + 1) ≤ default_backoff.max)
delay_for_attempt_grows_example = delay_for_attempt_grows default_backoff 5

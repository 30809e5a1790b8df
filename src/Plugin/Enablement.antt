-- ===== src/Plugin/Enablement.antt =====
-- crates/niuma-core/src/plugin/validation.rs and enablement.rs: which manifests are accepted, and
-- which plugins are switched on.
use niu_ma_notifier.Prelude.BtreeMap
use niu_ma_notifier.Prelude.Text.{format}
use niu_ma_notifier.Prelude.{
  String, Bool, true, false, not, ◌&&◌, Option, none, some, List, [], ◌∷◌, if◌then◌else◌, retain,
  is_some, Result, ok, err,
}
use niu_ma_notifier.ListenerConfig.{ListenerConfig, is_tool_enabled}
use niu_ma_notifier.StateMutation.{
  StateMutationService, ListenerConfigUpdateResult, set_tool_listening_enabled,
}
use niu_ma_notifier.Plugin.Manifest.{
  PluginCapability, capability_eq, PluginSource, PluginManifest, is_tool_kind, declares,
  validate_config_schema,
}

unfoldable pub provider_capabilities : List PluginCapability → List PluginCapability
provider_capabilities capabilities =
    retain (λ capability. declares capability capabilities)
      (PluginCapability.event_watcher ∷ PluginCapability.tool_session_list_provider
        ∷ PluginCapability.tool_session_detail_provider ∷ [])

unfoldable pub plugin_capability_id : PluginCapability → String
plugin_capability_id PluginCapability.event_watcher = "event_watcher"
plugin_capability_id PluginCapability.event_consumer = "event_consumer"
plugin_capability_id PluginCapability.approval_handler = "approval_handler"
plugin_capability_id PluginCapability.notification_test = "notification_test"
plugin_capability_id PluginCapability.state_consumer = "state_consumer"
plugin_capability_id PluginCapability.tool_session_list_provider = "tool_session_list_provider"
plugin_capability_id PluginCapability.tool_session_detail_provider = "tool_session_detail_provider"
plugin_capability_id PluginCapability.tool_session_list_reader = "tool_session_list_reader"
plugin_capability_id PluginCapability.tool_session_detail_reader = "tool_session_detail_reader"

-- The switches: the saved listener configuration of the service, and the map of the other plugins.
pub record PluginSwitches : Type 0 where
  pub service : StateMutationService
  pub enabled_map : List (String × Bool)

-- What is left of the result of `set_tool_listening_enabled`.
abbrev pub without_config : Result ListenerConfigUpdateResult → Result (Unit {0})
without_config (ok result) = ok tt
without_config (err message) = err message

abbrev pub only_config : Result ListenerConfigUpdateResult → Result ListenerConfig
only_config (ok result) = ok result.config
only_config (err message) = err message

-- `written` is the outcome of writing the configuration.
unfoldable pub save_switch :
    PluginSwitches → Result (Unit {0}) → String → Bool → PluginSwitches × Result (Unit {0})
save_switch switches (err message) id enabled = (switches, err message)
save_switch switches (ok u) id enabled =
    (record switches { enabled_map = BtreeMap.insert switches.enabled_map id enabled }, ok tt)

module _ {Value : Type 0} where
  -- The end of `validate_plugin_manifest`.
  unfoldable pub validate_providers : PluginManifest Value → Result (Unit {0})
  validate_providers manifest =
      if declares PluginCapability.tool_session_detail_provider manifest.capabilities
        && not (declares PluginCapability.tool_session_list_provider manifest.capabilities)
      then err (
          format
            ("tool_session_detail_provider 必须同时声明 tool_session_list_provider：" ∷ manifest.id ∷ []))
      else validate_config_schema manifest.id manifest.config_schema

  unfoldable pub validate_plugin_manifest : PluginManifest Value → Result (Unit {0})
  validate_plugin_manifest manifest =
      if is_tool_kind manifest.kind
      then if is_some manifest.tool_id
        then validate_providers manifest
        else err (format ("工具插件缺少 tool_id：" ∷ manifest.id ∷ []))
      else elim (provider_capabilities manifest.capabilities) [
        | [] ↦ validate_providers manifest
        | capability ∷ _ ↦
            err (format ("非工具插件不能声明 " ∷ plugin_capability_id capability ∷ "：" ∷ manifest.id ∷ []))
      ]

  unfoldable pub plugin_uses_listener_config : PluginManifest Value → Bool
  plugin_uses_listener_config manifest =
      is_some manifest.tool_id && declares PluginCapability.event_watcher manifest.capabilities

  unfoldable pub default_plugin_enabled : PluginManifest Value → Bool
  default_plugin_enabled manifest = elim manifest.source [
    | PluginSource.builtin ↦ true
    | PluginSource.external ↦ false
  ]

  abbrev pub switch_or_default : Option Bool → PluginManifest Value → Bool
  switch_or_default none manifest = default_plugin_enabled manifest
  switch_or_default (some enabled) manifest = enabled

  unfoldable pub plugin_enabled :
      PluginManifest Value → ListenerConfig → List (String × Bool) → Bool
  plugin_enabled manifest config enabled_map =
      let own = switch_or_default (BtreeMap.get enabled_map manifest.id) manifest in
      if plugin_uses_listener_config manifest
      then elim manifest.tool_id [ none ↦ own | some tool ↦ is_tool_enabled config tool ]
      else own

  unfoldable pub save_plugin_enabled_state :
      PluginSwitches
      → Result (Unit {0})
      → PluginManifest Value
      → Bool
      → PluginSwitches × Result (Unit {0})
  save_plugin_enabled_state switches written manifest enabled =
      if plugin_uses_listener_config manifest
      then elim manifest.tool_id [
        | none ↦ (switches, err (format ("工具监听插件缺少 tool_id：" ∷ manifest.id ∷ [])))
        | some tool ↦
            let (service, result) =
              set_tool_listening_enabled switches.service written tool enabled in
            (record switches { service = service }, without_config result)
      ]
      else save_switch switches written manifest.id enabled

  unfoldable pub listener_config_after_plugin_removed :
      PluginSwitches
      → Result (Unit {0})
      → PluginManifest Value
      → PluginSwitches × Result ListenerConfig
  listener_config_after_plugin_removed switches written manifest =
      if plugin_uses_listener_config manifest
      then elim manifest.tool_id [
        | none ↦ (switches, err (format ("工具监听插件缺少 tool_id：" ∷ manifest.id ∷ [])))
        | some tool ↦
            let (service, result) =
              set_tool_listening_enabled switches.service written tool false in
            (record switches { service = service }, only_config result)
      ]
      else (switches, ok switches.service.config)

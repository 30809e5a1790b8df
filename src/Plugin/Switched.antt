-- ===== src/Plugin/Switched.antt =====
-- Which plugins are switched on after a switch is saved, and what an accepted manifest is.
use niu_ma_notifier.Prelude.BtreeMap
use niu_ma_notifier.Prelude.BtreeMap.{get-insert}
use niu_ma_notifier.Prelude.Text.{is_blank}
use niu_ma_notifier.Prelude.{
  String, ◌≡◌, ◌≢◌, refl, ap, sym, ◌∙◌, inl, inr, Bool, true, false, not, ◌&&◌, ◌||◌, none, some,
  List, [], ◌∷◌, arith, any, retain, is_some, Bool-cases, Option-cases, ◌==◌, string_eq, eq_iff, ok,
  All,
}
use niu_ma_notifier.Prelude.Sort.{All-imp}
use niu_ma_notifier.Models.{ToolId, as_str}
use niu_ma_notifier.ListenerConfig.{ListenerConfig, is_tool_enabled, with_tool_enabled}
use niu_ma_notifier.ListenerConfig.Switches.{is_tool_enabled-with_tool_enabled}
use niu_ma_notifier.StateMutation.{set_tool_listening_enabled, apply_listener_config_update}
use niu_ma_notifier.Plugin.Manifest.{
  PluginCapability, capability_eq, PluginManifest, PluginConfigField, is_tool_kind, declares,
  validate_fields, validate_config_schema,
}
use niu_ma_notifier.Plugin.Enablement.{
  PluginSwitches, switch_or_default, plugin_uses_listener_config, plugin_enabled, save_switch,
  save_plugin_enabled_state, provider_capabilities, validate_providers, validate_plugin_manifest,
}

module _ {Value : Type 0} where
  enabled_by_tool :
      (m : PluginManifest Value) (t : ToolId) (c : ListenerConfig) (map : List (String × Bool))
      → m.tool_id ≡ some t
      → plugin_uses_listener_config m ≡ true
      → plugin_enabled m c map ≡ is_tool_enabled c t
  unfolding plugin_enabled
  enabled_by_tool m t c map e u = rw (u, e, plugin_enabled) refl

  enabled_by_map :
      (m : PluginManifest Value) (c : ListenerConfig) (map : List (String × Bool))
      → plugin_uses_listener_config m ≡ false
      → plugin_enabled m c map ≡ switch_or_default (BtreeMap.get map m.id) m
  unfolding plugin_enabled
  enabled_by_map m c map u = rw (u, plugin_enabled) refl

  uses_tool : (m : PluginManifest Value) → m.tool_id ≡ none → plugin_uses_listener_config m ≡ false
  unfolding plugin_uses_listener_config
  uses_tool m e = rw (e, plugin_uses_listener_config) refl

  saved_by_tool :
      (s : PluginSwitches) (m : PluginManifest Value) (t : ToolId) (b : Bool)
      → m.tool_id ≡ some t
      → plugin_uses_listener_config m ≡ true
      → ((save_plugin_enabled_state s (ok tt) m b).0.service.config
          ≡ with_tool_enabled s.service.config t b)
        × ((save_plugin_enabled_state s (ok tt) m b).0.enabled_map ≡ s.enabled_map)
  unfolding save_plugin_enabled_state set_tool_listening_enabled apply_listener_config_update
  saved_by_tool s m t b e u = rw (u, e, save_plugin_enabled_state) (refl, refl)

  saved_by_map :
      (s : PluginSwitches) (m : PluginManifest Value) (b : Bool)
      → plugin_uses_listener_config m ≡ false
      → ((save_plugin_enabled_state s (ok tt) m b).0.service.config ≡ s.service.config)
        × ((save_plugin_enabled_state s (ok tt) m b).0.enabled_map
            ≡ BtreeMap.insert s.enabled_map m.id b)
  unfolding save_plugin_enabled_state save_switch
  saved_by_map s m b u = rw (u, save_plugin_enabled_state) (refl, refl)

  -- A plugin is as before where the configuration and the map say the same of it.
  same_switch :
      (m : PluginManifest Value) (c d : ListenerConfig) (map after : List (String × Bool))
      → ((u : ToolId) → m.tool_id ≡ some u → is_tool_enabled c u ≡ is_tool_enabled d u)
      → BtreeMap.get map m.id ≡ BtreeMap.get after m.id
      → plugin_enabled m c map ≡ plugin_enabled m d after
  same_switch m c d map after h g = elim (Bool-cases (plugin_uses_listener_config m)) [
    | inr w ↦
        enabled_by_map m c map w
        ∙ ap (λ o. switch_or_default o m) g
        ∙ sym (enabled_by_map m d after w)
    | inl w ↦ elim (Option-cases m.tool_id) [
      | inl e ↦ absurd (ground (arith, uses_tool m e, w))
      | inr (u, e) ↦ enabled_by_tool m u c map e w ∙ h u e ∙ sym (enabled_by_tool m u d after e w)
    ]
  ]

  -- After the switch of a plugin was written the plugin is on or off as asked, and a plugin with
  -- another id, and with another tool if both have one, is as before.
  pub save_plugin_enabled_state_lem :
      (s : PluginSwitches) (m other : PluginManifest Value) (b : Bool)
      → other.id ≢ m.id
      → ((t u : ToolId) → m.tool_id ≡ some t → other.tool_id ≡ some u → as_str u ≢ as_str t)
      → let after = (save_plugin_enabled_state s (ok tt) m b).0 in
        (plugin_enabled m after.service.config after.enabled_map ≡ b)
        × (plugin_enabled other after.service.config after.enabled_map
            ≡ plugin_enabled other s.service.config s.enabled_map)
  save_plugin_enabled_state_lem s m other b ne apart =
      elim (Bool-cases (plugin_uses_listener_config m)) [
        | inl u ↦ elim (Option-cases m.tool_id) [
          | inl e ↦ absurd (ground (arith, uses_tool m e, u))
          | inr (t, e) ↦
              let (c, mp) = saved_by_tool s m t b e u in
              (
                enabled_by_tool m t _ _ e u
                    ∙ ap (λ d. is_tool_enabled d t) c
                    ∙ (is_tool_enabled-with_tool_enabled s.service.config t t b).0,
                same_switch other _ _ _ _
                    (λ v f.
                      ap (λ d. is_tool_enabled d v) c
                      ∙ (is_tool_enabled-with_tool_enabled s.service.config t v b).1
                          (apart t v e f))
                    (ap (λ map. BtreeMap.get map other.id) mp),
              )
        ]
        | inr u ↦
            let (c, mp) = saved_by_map s m b u in
            let found : BtreeMap.get (BtreeMap.insert s.enabled_map m.id b) m.id ≡ some b =
              ground (arith, get-insert s.enabled_map m.id b m.id, eq_iff m.id m.id) in
            let missed : BtreeMap.get (BtreeMap.insert s.enabled_map m.id b) other.id
                ≡ BtreeMap.get s.enabled_map other.id =
              ground (arith, ne, get-insert s.enabled_map m.id b other.id, eq_iff m.id other.id) in
            (
              enabled_by_map m _ _ u
                  ∙ ap (λ map. switch_or_default (BtreeMap.get map m.id) m) mp
                  ∙ ap (λ o. switch_or_default o m) found,
              same_switch other _ _ _ _ (λ v f. ap (λ d. is_tool_enabled d v) c)
                  (ap (λ map. BtreeMap.get map other.id) mp ∙ missed),
            )
      ]

  -- No two of the fields have the same key.
  abbrev pub DistinctKeys : List (PluginConfigField Value) → Type 0
  DistinctKeys [] = Unit {0}
  DistinctKeys (f ∷ fs) =
      All (λ (g : PluginConfigField Value). (f.key == g.key) ≡ false) fs × DistinctKeys fs

  -- The key of the field is none of the keys.
  abbrev New : List String → PluginConfigField Value → Type 0
  New keys f = any (λ key. key == f.key) keys ≡ false

  fields_checked :
      (id : String) (keys : List String) (fs : List (PluginConfigField Value))
      → validate_fields id keys fs ≡ ok tt
      → All (λ (f : PluginConfigField Value). (is_blank f.key || is_blank f.label) ≡ false) fs
        × All (New keys) fs
        × DistinctKeys fs
  unfolding validate_fields any
  fields_checked id keys [] h = (tt, tt, tt)
  fields_checked id keys (f ∷ fs) h = elim (Bool-cases (is_blank f.key)) [
    | inl e ↦ absurd (ground (arith, e))
    | inr e ↦ elim (Bool-cases (is_blank f.label)) [
      | inl g ↦ absurd (ground (arith, e, g))
      | inr g ↦ elim (Bool-cases (any (λ key. key == f.key) keys)) [
        | inl k ↦ absurd (ground (arith, e, g, k))
        | inr k ↦
            let (blank, new, distinct) =
              fields_checked id (f.key ∷ keys) fs (ground (arith, e, g, k, h)) in
            (
              (ground (arith, e, g), blank),
              (k, All-imp fs (λ x n. ground (arith, n)) new),
              (All-imp fs (λ x n. ground (arith, n)) new, distinct),
            )
      ]
    ]
  ]

  providers_checked :
      (m : PluginManifest Value)
      → validate_providers m ≡ ok tt
      → ((declares PluginCapability.tool_session_detail_provider m.capabilities
            && not (declares PluginCapability.tool_session_list_provider m.capabilities))
          ≡ false)
        × All
            (λ (f : PluginConfigField Value). (is_blank f.key || is_blank f.label) ≡ false)
            m.config_schema
        × DistinctKeys m.config_schema
  unfolding validate_providers validate_config_schema
  providers_checked m h =
      elim (Bool-cases (
        declares PluginCapability.tool_session_detail_provider m.capabilities
        && not (declares PluginCapability.tool_session_list_provider m.capabilities))) [
          | inl e ↦ absurd (ground (arith, e))
          | inr e ↦
              let (blank, new, distinct) =
                fields_checked m.id [] m.config_schema (ground (arith, e, h)) in
              (e, blank, distinct)
        ]

  kind_checked :
      (m : PluginManifest Value)
      → validate_plugin_manifest m ≡ ok tt
      → validate_providers m ≡ ok tt
        × ((is_tool_kind m.kind && not (is_some m.tool_id)) ≡ false)
        × ((not (is_tool_kind m.kind)
              && (declares PluginCapability.event_watcher m.capabilities
                  || (declares PluginCapability.tool_session_list_provider m.capabilities
                      || declares PluginCapability.tool_session_detail_provider m.capabilities)))
            ≡ false)
  unfolding validate_plugin_manifest provider_capabilities retain
  kind_checked m h = elim (Bool-cases (is_tool_kind m.kind)) [
    | inl k ↦ elim (Bool-cases (is_some m.tool_id)) [
      | inl t ↦ (rw (k, t, validate_plugin_manifest) at h, ground (arith, k, t), ground (arith, k))
      | inr t ↦ absurd (ground (arith, k, t))
    ]
    | inr k ↦ elim (Bool-cases (declares PluginCapability.event_watcher m.capabilities)) [
      | inl w ↦ absurd (ground (arith, k, w))
      | inr w ↦
          elim (Bool-cases (declares PluginCapability.tool_session_list_provider m.capabilities)) [
            | inl l ↦ absurd (ground (arith, k, w, l))
            | inr l ↦
                elim (Bool-cases
                  (declares PluginCapability.tool_session_detail_provider m.capabilities)) [
                    | inl d ↦ absurd (ground (arith, k, w, l, d))
                    | inr d ↦ (
                      ground (arith, k, w, l, d, h),
                      ground (arith, k),
                      ground (arith, k, w, l, d),
                    )
                  ]
          ]
    ]
  ]

  -- A manifest that is accepted names a tool if it is a tool's, provides nothing for a tool if it is
  -- not, provides details of sessions only with the list of them, and has configuration fields
  -- whose keys and labels are not blank and whose keys are distinct.
  pub validate_plugin_manifest_lem :
      (m : PluginManifest Value)
      → validate_plugin_manifest m ≡ ok tt
      → ((is_tool_kind m.kind && not (is_some m.tool_id)) ≡ false)
        × ((not (is_tool_kind m.kind)
              && (declares PluginCapability.event_watcher m.capabilities
                  || (declares PluginCapability.tool_session_list_provider m.capabilities
                      || declares PluginCapability.tool_session_detail_provider m.capabilities)))
            ≡ false)
        × ((declares PluginCapability.tool_session_detail_provider m.capabilities
              && not (declares PluginCapability.tool_session_list_provider m.capabilities))
            ≡ false)
        × All
            (λ (f : PluginConfigField Value). (is_blank f.key || is_blank f.label) ≡ false)
            m.config_schema
        × DistinctKeys m.config_schema
  unfolding validate_plugin_manifest validate_providers provider_capabilities validate_config_schema
      retain
  validate_plugin_manifest_lem m h =
      (let (p, t, n) = kind_checked m h in let (d, f, k) = providers_checked m p in (t, n, d, f, k))

-- ===== src/Plugin/Manifest.antt =====
-- crates/niuma-core/src/plugin/manifest.rs and config.rs: what a plugin declares of itself, and the
-- configuration that it gets. The JSON values of serde_json are of a type `Value` that is given with
-- the tests that the code calls; a map of serde_json is read and written by key only.
use niu_ma_notifier.Prelude.BtreeMap
use niu_ma_notifier.Prelude.Text.{is_blank, format}
use niu_ma_notifier.Prelude.{
  String, ◌≡◌, ◌↔◌, ℕ, Bool, true, false, not, ◌&&◌, Option, none, some, List, [], ◌∷◌, arith,
  if◌then◌else◌, any, is_some, ◌==◌, string_eq, PartialEq, nat_beq, Result, ok, err,
}
use niu_ma_notifier.Models.{ToolId}

pub data PluginCapability : Type 0 where
  event_watcher event_consumer approval_handler notification_test state_consumer
        tool_session_list_provider tool_session_detail_provider tool_session_list_reader
        tool_session_detail_reader :
      PluginCapability

abbrev pub capability_discriminant : PluginCapability → ℕ
capability_discriminant PluginCapability.event_watcher = 0
capability_discriminant PluginCapability.event_consumer = 1
capability_discriminant PluginCapability.approval_handler = 2
capability_discriminant PluginCapability.notification_test = 3
capability_discriminant PluginCapability.state_consumer = 4
capability_discriminant PluginCapability.tool_session_list_provider = 5
capability_discriminant PluginCapability.tool_session_detail_provider = 6
capability_discriminant PluginCapability.tool_session_list_reader = 7
capability_discriminant PluginCapability.tool_session_detail_reader = 8

pub capability_beq_iff :
    (a b : PluginCapability)
    → (nat_beq (capability_discriminant a) (capability_discriminant b) ≡ true) ↔ (a ≡ b)
capability_beq_iff a b = ground arith

instance abbrev pub capability_eq : PartialEq PluginCapability
capability_eq = record {
  is_equal = λ a b. nat_beq (capability_discriminant a) (capability_discriminant b);
  decides = capability_beq_iff;
}

pub data PluginKind : Type 0 where
  tool_plugin notification status_indicator : PluginKind

pub data PluginSource : Type 0 where
  builtin external : PluginSource

pub data PluginConfigFieldType : Type 0 where
  string_type secret url number boolean select : PluginConfigFieldType

-- The calls of `serde_json::Value`.
pub record JsonTests (Value : Type 0) : Type 0 where
  pub as_text : Value → Option String
  pub is_null : Value → Bool
  pub is_number : Value → Bool
  pub is_boolean : Value → Bool

module _ (Value : Type 0) where
  pub record PluginConfigField : Type 0 where
    pub key : String
    pub field_type : PluginConfigFieldType
    pub label : String
    pub required : Bool
    pub default : Value
    pub options : List String

  pub record PluginManifest : Type 0 where
    pub id : String
    pub kind : PluginKind
    pub tool_id : Option ToolId
    pub display_name : String
    pub version : String
    pub command : Option String
    pub args : List String
    pub env : List (String × String)
    pub platforms : List String
    pub capabilities : List PluginCapability
    pub icon_url : Option String
    pub config_schema : List (PluginConfigField)
    pub source : PluginSource
    pub base_dir : Option String

abbrev pub is_tool_kind : PluginKind → Bool
is_tool_kind PluginKind.tool_plugin = true
is_tool_kind _ = false

-- `contains`.
abbrev pub declares : PluginCapability → List PluginCapability → Bool
declares capability = any (λ declared. declared == capability)

module _ {Value : Type 0} where
  -- `platform` is `current_platform_id()`.
  unfoldable pub supports_current_platform : PluginManifest Value → String → Bool
  supports_current_platform manifest platform = elim manifest.platforms [
    | [] ↦ true
    | _ ∷ _ ↦ any (λ supported. supported == platform) manifest.platforms
  ]

  -- The loop of `validate_config_schema`, with the keys before.
  unfoldable pub validate_fields :
      String → List String → List (PluginConfigField Value) → Result (Unit {0})
  validate_fields manifest_id keys [] = ok tt
  validate_fields manifest_id keys (field ∷ fields) =
      let rest = validate_fields manifest_id (field.key ∷ keys) fields in
      if is_blank field.key
      then err (format ("插件配置项 key 不能为空：" ∷ manifest_id ∷ []))
      else if is_blank field.label
      then err (format ("插件配置项 label 不能为空：" ∷ manifest_id ∷ []))
      else if any (λ key. key == field.key) keys
      then err (format ("插件配置项 key 重复：" ∷ manifest_id ∷ ":" ∷ field.key ∷ []))
      else rest

  unfoldable pub validate_config_schema :
      String → List (PluginConfigField Value) → Result (Unit {0})
  validate_config_schema manifest_id fields = validate_fields manifest_id [] fields

module _ {Value : Type 0} (json : JsonTests Value) where
  -- The `filter`, the `map` and the `collect` into a map: a later key replaces an earlier one.
  unfoldable pub defaults_into :
      List (String × Value) → List (PluginConfigField Value) → List (String × Value)
  defaults_into defaults [] = defaults
  defaults_into defaults (field ∷ fields) =
      defaults_into
        (if json.is_null field.default
          then defaults
          else BtreeMap.insert defaults field.key field.default)
        fields

  unfoldable pub plugin_config_defaults : PluginManifest Value → List (String × Value)
  plugin_config_defaults manifest = defaults_into [] manifest.config_schema

  -- The loop of `merge_plugin_config_with_defaults`.
  unfoldable pub insert_all : List (String × Value) → List (String × Value) → List (String × Value)
  insert_all merged [] = merged
  insert_all merged ((key, value) ∷ config) = insert_all (BtreeMap.insert merged key value) config

  unfoldable pub merge_plugin_config_with_defaults :
      PluginManifest Value → List (String × Value) → List (String × Value)
  merge_plugin_config_with_defaults manifest config =
      insert_all (plugin_config_defaults manifest) config

  unfoldable pub resolve_plugin_config :
      PluginManifest Value → Option (List (String × Value)) → List (String × Value)
  resolve_plugin_config manifest none = merge_plugin_config_with_defaults manifest []
  resolve_plugin_config manifest (some config) = merge_plugin_config_with_defaults manifest config

  unfoldable pub plugin_config_value_matches : PluginConfigField Value → Value → Bool
  plugin_config_value_matches field value = elim field.field_type [
    | PluginConfigFieldType.string_type ↦ is_some (json.as_text value)
    | PluginConfigFieldType.secret ↦ is_some (json.as_text value)
    | PluginConfigFieldType.url ↦ is_some (json.as_text value)
    | PluginConfigFieldType.number ↦ json.is_number value
    | PluginConfigFieldType.boolean ↦ json.is_boolean value
    | PluginConfigFieldType.select ↦ elim (json.as_text value) [
      | none ↦ false
      | some text ↦ elim field.options [
        | [] ↦ true
        | _ ∷ _ ↦ any (λ option. option == text) field.options
      ]
    ]
  ]

  unfoldable pub plugin_config_value_is_empty : Value → Bool
  plugin_config_value_is_empty value = elim (json.as_text value) [
    | some text ↦ is_blank text
    | none ↦ json.is_null value
  ]

  -- The checks of one field, on the value that is configured for it.
  unfoldable pub check_field : PluginConfigField Value → Option Value → Result (Unit {0})
  check_field field none =
      if field.required then err (format (field.label ∷ " 不能为空" ∷ [])) else ok tt
  check_field field (some value) =
      if not (plugin_config_value_matches field value)
      then err (format (field.label ∷ " 类型无效" ∷ []))
      else if field.required && plugin_config_value_is_empty value
      then err (format (field.label ∷ " 不能为空" ∷ []))
      else ok tt

  abbrev pub and_check : Result (Unit {0}) → Result (Unit {0}) → Result (Unit {0})
  and_check (ok u) rest = rest
  and_check (err message) rest = err message

  unfoldable pub check_fields :
      List (String × Value) → List (PluginConfigField Value) → Result (Unit {0})
  check_fields config [] = ok tt
  check_fields config (field ∷ fields) =
      let rest = check_fields config fields in
      and_check (check_field field (BtreeMap.get config field.key)) rest

  unfoldable pub validate_plugin_config :
      PluginManifest Value → List (String × Value) → Result (Unit {0})
  validate_plugin_config manifest config = check_fields config manifest.config_schema

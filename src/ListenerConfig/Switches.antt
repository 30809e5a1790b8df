-- ===== src/ListenerConfig/Switches.antt =====
-- Reading the switches after setting one, and the two ways of reading them.
use niu_ma_notifier.Prelude.BtreeMap
use niu_ma_notifier.Prelude.BtreeMap.{get-insert, get-or_insert, any_value-get}
use niu_ma_notifier.Prelude.{
  String, ◌≡◌, ◌≢◌, refl, Bool, true, some, List, arith, string_eq, eq_iff,
}
use niu_ma_notifier.Models.{ToolId, as_str, codex_id, claude_code_id, IsCanonical}
use niu_ma_notifier.ListenerConfig.{
  ListenerConfig, is_any_ai_listening_enabled, legacy_tool_enabled, is_tool_enabled,
  sync_legacy_tool, with_tool_enabled, tool_enabled_map,
}

sync_map :
    (c : ListenerConfig) (t : ToolId) (b : Bool)
    → (sync_legacy_tool c t b).tool_listening_enabled ≡ c.tool_listening_enabled
unfolding sync_legacy_tool
sync_map c t b = ground arith

legacy_other :
    (c : ListenerConfig) (t u : ToolId) (b : Bool)
    → as_str u ≢ as_str t
    → legacy_tool_enabled (sync_legacy_tool c t b) u ≡ legacy_tool_enabled c u
unfolding legacy_tool_enabled sync_legacy_tool as_str
legacy_other c ToolId.codex ToolId.codex b ne = absurd (ne refl)
legacy_other c ToolId.claude_code ToolId.claude_code b ne = absurd (ne refl)
legacy_other c ToolId.codex _ b ne = ground arith
legacy_other c ToolId.claude_code _ b ne = ground arith
legacy_other c (ToolId.custom s) _ b ne = ground arith

legacy_insert :
    (c : ListenerConfig) (m : List (String × Bool)) (t u : ToolId) (b : Bool)
    → legacy_tool_enabled (sync_legacy_tool (record c { tool_listening_enabled = m }) t b) u
      ≡ legacy_tool_enabled (sync_legacy_tool c t b) u
unfolding legacy_tool_enabled sync_legacy_tool
legacy_insert c m t u b = ground arith

-- A tool is listened to exactly as it was last set, and tools of another name are listened to as
-- before.
pub is_tool_enabled-with_tool_enabled :
    (c : ListenerConfig) (t u : ToolId) (b : Bool)
    → (is_tool_enabled (with_tool_enabled c t b) t ≡ b)
      × (as_str u ≢ as_str t → is_tool_enabled (with_tool_enabled c t b) u ≡ is_tool_enabled c u)
unfolding is_tool_enabled with_tool_enabled
is_tool_enabled-with_tool_enabled c t u b =
    let m = BtreeMap.insert c.tool_listening_enabled (as_str t) b in
    let c' : ListenerConfig = record c { tool_listening_enabled = m } in
    (
      ground (
        arith,
        sync_map c' t b,
        get-insert c.tool_listening_enabled (as_str t) b (as_str t),
        eq_iff (as_str t) (as_str t),
      ),
      λ ne. ground (
        arith,
        sync_map c' t b,
        get-insert c.tool_listening_enabled (as_str t) b (as_str u),
        eq_iff (as_str t) (as_str u),
        legacy_insert c m t u b,
        legacy_other c t u b ne,
      ),
    )

-- After a tool is set, it is listened to exactly as it was set, and a tool `u` of another name is
-- listened to as before.
pub with_tool_enabled_lem :
    (c : ListenerConfig) (t u : ToolId) (b : Bool)
    → as_str u ≢ as_str t
    → let c' = with_tool_enabled c t b in
      (is_tool_enabled c' t ≡ b) × (is_tool_enabled c' u ≡ is_tool_enabled c u)
with_tool_enabled_lem c t u b ne =
    let set = is_tool_enabled-with_tool_enabled c t u b in (set.0, set.1 ne)

-- Listening to a tool means listening to some tool.
pub any_of_tool :
    (c : ListenerConfig) (t : ToolId)
    → is_tool_enabled c t ≡ true
    → is_any_ai_listening_enabled c ≡ true
unfolding is_tool_enabled is_any_ai_listening_enabled legacy_tool_enabled
any_of_tool c t h = ground (arith, any_value-get c.tool_listening_enabled (as_str t))

-- What the map of all tools says of a tool is whether it is listened to.
pub tool_enabled_map-get :
    (c : ListenerConfig) (t : ToolId) (b : Bool)
    → IsCanonical t
    → BtreeMap.get (tool_enabled_map c) (as_str t) ≡ some b
    → is_tool_enabled c t ≡ b
unfolding tool_enabled_map is_tool_enabled legacy_tool_enabled as_str
tool_enabled_map-get c ToolId.codex b h e =
    let m = c.tool_listening_enabled in
    let m' = BtreeMap.or_insert m codex_id c.codex_listening_enabled in
    ground (
      arith,
      get-or_insert m' claude_code_id c.claude_code_listening_enabled codex_id,
      get-or_insert m codex_id c.codex_listening_enabled codex_id,
    )
tool_enabled_map-get c ToolId.claude_code b h e =
    let m = c.tool_listening_enabled in
    let m' = BtreeMap.or_insert m codex_id c.codex_listening_enabled in
    ground (
      arith,
      get-or_insert m' claude_code_id c.claude_code_listening_enabled claude_code_id,
      get-or_insert m codex_id c.codex_listening_enabled claude_code_id,
    )
tool_enabled_map-get c (ToolId.custom s) b h e =
    let m = c.tool_listening_enabled in
    let m' = BtreeMap.or_insert m codex_id c.codex_listening_enabled in
    ground (
      arith,
      get-or_insert m' claude_code_id c.claude_code_listening_enabled s,
      get-or_insert m codex_id c.codex_listening_enabled s,
      eq_iff codex_id s,
      eq_iff claude_code_id s,
    )

-- A canonical tool that is listened to is on in the map of all tools.
pub enabled-mapped :
    (c : ListenerConfig) (t : ToolId)
    → IsCanonical t
    → is_tool_enabled c t ≡ true
    → BtreeMap.get (tool_enabled_map c) (as_str t) ≡ some true
unfolding tool_enabled_map is_tool_enabled legacy_tool_enabled as_str
enabled-mapped c ToolId.codex h on =
    let m = c.tool_listening_enabled in
    let m' = BtreeMap.or_insert m codex_id c.codex_listening_enabled in
    ground (
      arith,
      get-or_insert m' claude_code_id c.claude_code_listening_enabled codex_id,
      get-or_insert m codex_id c.codex_listening_enabled codex_id,
    )
enabled-mapped c ToolId.claude_code h on =
    let m = c.tool_listening_enabled in
    let m' = BtreeMap.or_insert m codex_id c.codex_listening_enabled in
    ground (
      arith,
      get-or_insert m' claude_code_id c.claude_code_listening_enabled claude_code_id,
      get-or_insert m codex_id c.codex_listening_enabled claude_code_id,
    )
enabled-mapped c (ToolId.custom s) h on =
    let m = c.tool_listening_enabled in
    let m' = BtreeMap.or_insert m codex_id c.codex_listening_enabled in
    ground (
      arith,
      get-or_insert m' claude_code_id c.claude_code_listening_enabled s,
      get-or_insert m codex_id c.codex_listening_enabled s,
      eq_iff codex_id s,
      eq_iff claude_code_id s,
    )

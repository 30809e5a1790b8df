-- ===== src/StateMutation/Listening.antt =====
-- What switching tools off leaves of them.
use niu_ma_notifier.Prelude.BtreeMap
use niu_ma_notifier.Prelude.{
  String, ◌≡◌, ◌≢◌, refl, ap, ◌∙◌, inl, inr, Bool, true, false, some, List, [], ◌∷◌, arith, any,
  Bool-cases, ◌==◌, string_eq, eq_iff, ok, err, filter_map, any-retain_mono,
}
use niu_ma_notifier.Models.{
  ToolId, tool_eq, tool_beq_iff, as_str, from_id, from_id-as_str, IsCanonical, idle_activity,
}
use niu_ma_notifier.ListenerConfig.{ListenerConfig, is_tool_enabled, tool_enabled_map}
use niu_ma_notifier.ListenerConfig.Switches.{is_tool_enabled-with_tool_enabled, enabled-mapped}
use niu_ma_notifier.Store
use niu_ma_notifier.Store.{cleared_of_tool, activity_of_tool}
use niu_ma_notifier.Store.Clear.{IsCleared, SameTool, clear_tool_state_lem}
use niu_ma_notifier.StateMutation.{
  StateMutationService, ClearLoop, clear_tool, clear_tools, apply_listener_config_update,
  set_tool_listening_enabled, newly_disabled, set_listener_config,
}

-- After a successful switching off of a tool, it is not listened to and nothing of it is left in the
-- state, and the switch, the runs, the requests, the attention items and the latest activity of a
-- tool `u` of another name are as they were.
pub disable_lem :
    (s : StateMutationService) (tool u : ToolId)
    → as_str u ≢ as_str tool
    → let after = (set_tool_listening_enabled s (ok tt) tool false).0 in
      (is_tool_enabled after.config tool ≡ false)
      × IsCleared tool after.store.state
      × (is_tool_enabled after.config u ≡ is_tool_enabled s.config u)
      × SameTool u s.store.state after.store.state
unfolding set_tool_listening_enabled apply_listener_config_update clear_tools clear_tool
disable_lem s tool u ne =
    let cleared = clear_tool_state_lem s.store tool in
    (
      (is_tool_enabled-with_tool_enabled s.config tool tool false).0,
      cleared.0,
      (is_tool_enabled-with_tool_enabled s.config tool u false).1 ne,
      cleared.1 u (λ e. ne (ap as_str e)),
    )

-- When the configuration cannot be written, switching a tool and setting the configuration answer
-- with the error and leave the store, the switches and the bus as they were.
pub unwritten_lem :
    (s : StateMutationService) (message : String) (tool : ToolId) (enabled : Bool)
    (config : ListenerConfig)
    → (set_tool_listening_enabled s (err message) tool enabled ≡ (s, err message))
      × (set_listener_config s (err message) config ≡ (s, err message))
unfolding set_tool_listening_enabled set_listener_config apply_listener_config_update
unwritten_lem s message tool enabled config = (refl, refl)

-- Clearing another tool, or the same again, brings nothing of a cleared tool back.
clear_keeps-IsCleared :
    (r : Store.RuntimeState) (tool u : ToolId)
    → IsCleared tool r.state
    → IsCleared tool (Store.clear_tool_state r u).0.state
unfolding Store.clear_tool_state cleared_of_tool activity_of_tool idle_activity
clear_keeps-IsCleared r tool u v = record {
  runs = any-retain_mono _ _ r.state.runtime_states v.runs;
  requests = any-retain_mono _ _ r.state.approval_requests v.requests;
  items = any-retain_mono _ _ r.state.attention_items v.items;
  activity = ground (arith, v.activity);
}

clear_tools-IsCleared :
    (l : ClearLoop) (tools : List ToolId) (tool : ToolId)
    → IsCleared tool l.store.state
    → IsCleared tool (clear_tools l tools).store.state
unfolding clear_tools clear_tool
clear_tools-IsCleared l [] tool v = v
clear_tools-IsCleared l (t ∷ ts) tool v =
    clear_tools-IsCleared (clear_tool l t) ts tool (clear_keeps-IsCleared l.store tool t v)

member-IsCleared :
    (l : ClearLoop) (tools : List ToolId) (tool : ToolId)
    → any (λ t. t == tool) tools ≡ true
    → IsCleared tool (clear_tools l tools).store.state
unfolding clear_tools clear_tool any
member-IsCleared l [] tool h = ground arith
member-IsCleared l (t ∷ ts) tool h = elim (Bool-cases (t == tool)) [
  | inl eq ↦
      let e : t ≡ tool = (tool_beq_iff t tool).0 eq in
      clear_tools-IsCleared (clear_tool l t) ts tool (rw e (clear_tool_state_lem l.store tool).0)
  | inr ne ↦ member-IsCleared (clear_tool l t) ts tool (ground arith)
]

-- A switch of the map that is on and that the new configuration has off is among the newly disabled.
get-newly_disabled :
    (config : ListenerConfig) (m : List (String × Bool)) (tool : ToolId)
    → IsCanonical tool
    → BtreeMap.get m (as_str tool) ≡ some true
    → is_tool_enabled config tool ≡ false
    → any (λ t. t == tool) (filter_map (newly_disabled config) m) ≡ true
unfolding BtreeMap.get filter_map newly_disabled any
get-newly_disabled config [] tool c g off = ground arith
get-newly_disabled config ((id, on) ∷ m) tool c g off = elim (Bool-cases (id == as_str tool)) [
  | inl eq ↦
      let e : id ≡ as_str tool = (eq_iff id (as_str tool)).0 eq in
      let t : from_id id ≡ tool = ap from_id e ∙ from_id-as_str tool c in
      ground (arith, (tool_beq_iff (from_id id) tool).1 t)
  | inr ne ↦ ground (
    arith,
    λ (h : BtreeMap.get m (as_str tool) ≡ some true). get-newly_disabled config m tool c h off,
  )
]

-- After the configuration is set, a tool that the switches' map had on and the new configuration
-- has off has nothing left in the state.
mapped_off-IsCleared :
    (s : StateMutationService) (config : ListenerConfig) (tool : ToolId)
    → IsCanonical tool
    → BtreeMap.get (tool_enabled_map s.config) (as_str tool) ≡ some true
    → is_tool_enabled config tool ≡ false
    → IsCleared tool (set_listener_config s (ok tt) config).0.store.state
unfolding set_listener_config apply_listener_config_update
mapped_off-IsCleared s config tool c g off =
    member-IsCleared _ _ tool (get-newly_disabled config (tool_enabled_map s.config) tool c g off)

-- Setting a configuration stores it when the write succeeds, and a canonical tool that was listened
-- to before and is not any more has nothing left in the state.
pub set_listener_config_lem :
    (s : StateMutationService) (config : ListenerConfig) (tool : ToolId)
    → IsCanonical tool
    → is_tool_enabled s.config tool ≡ true
    → is_tool_enabled config tool ≡ false
    → let after = (set_listener_config s (ok tt) config).0 in
      (after.config ≡ config) × IsCleared tool after.store.state
unfolding set_listener_config apply_listener_config_update
set_listener_config_lem s config tool c on off =
    (refl, mapped_off-IsCleared s config tool c (enabled-mapped s.config tool c on) off)

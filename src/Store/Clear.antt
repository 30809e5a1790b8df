-- ===== src/Store/Clear.antt =====
-- Clearing one tool, dismissing all attention, and the reset.
use niu_ma_notifier.Prelude.{
  ◌≡◌, ◌≢◌, refl, Bool, true, false, not, Option, none, some, List, [], ◌∷◌, arith, if◌then◌else◌,
  any, retain, is_some_and, ◌==◌, any-retain-false, any-retain_mono, retain-retain_of_imp,
}
use niu_ma_notifier.Models.{
  ToolId, tool_eq, tool_beq_iff, RuntimeStateItem, LatestActivity, idle_activity, StoredState,
}
use niu_ma_notifier.Transitions.{runtime_matches}
use niu_ma_notifier.Transitions.Runs.{UniqueRuns}
use niu_ma_notifier.Transitions.Inputs.{retain-InputsExclusive}
use niu_ma_notifier.Store.{RuntimeState, activity_of_tool, cleared_of_tool, clear_tool_state}
use niu_ma_notifier.Store.Invariant.{IsValid, retain-UniqueEvents}

retain-UniqueRuns :
    (p : RuntimeStateItem → Bool) (xs : List RuntimeStateItem)
    → UniqueRuns xs
    → UniqueRuns (retain p xs)
unfolding retain
retain-UniqueRuns p [] u = tt
retain-UniqueRuns p (x ∷ xs) u = ground (
  arith,
  any-retain_mono (runtime_matches x.tool x.session_id) p xs u.0,
  retain-UniqueRuns p xs u.1,
)

pub cleared-IsValid :
    (st : StoredState) (tool : ToolId) → IsValid st → IsValid (cleared_of_tool st tool)
unfolding cleared_of_tool
cleared-IsValid st tool v = record {
  runs = retain-UniqueRuns _ st.runtime_states v.runs;
  events = retain-UniqueEvents _ st.attention_items v.events;
  inputs = retain-InputsExclusive _ st.attention_items v.inputs;
}

-- The latest activity, if it is one of the tool.
abbrev pub own_activity : ToolId → Option LatestActivity → Option LatestActivity
own_activity tool none = none
own_activity tool (some activity) =
    if is_some_and activity.tool (λ t. t == tool) then some activity else none

-- Nothing of the tool is left in the state.
pub record IsCleared (tool : ToolId) (st : StoredState) : Type 0 where
  pub runs : any (λ session. session.tool == tool) st.runtime_states ≡ false
  pub requests : any (λ request. request.tool == tool) st.approval_requests ≡ false
  pub items : any (λ item. item.tool == tool) st.attention_items ≡ false
  pub activity : own_activity tool st.latest_activity ≡ none

-- Two states have the same runs, requests, items and latest activity of a tool.
pub record SameTool (tool : ToolId) (st st' : StoredState) : Type 0 where
  pub runs :
      retain (λ session. session.tool == tool) st'.runtime_states
      ≡ retain (λ session. session.tool == tool) st.runtime_states
  pub requests :
      retain (λ request. request.tool == tool) st'.approval_requests
      ≡ retain (λ request. request.tool == tool) st.approval_requests
  pub items :
      retain (λ item. item.tool == tool) st'.attention_items
      ≡ retain (λ item. item.tool == tool) st.attention_items
  pub activity : own_activity tool st'.latest_activity ≡ own_activity tool st.latest_activity

tool_only :
    (o : Option ToolId) (tool u : ToolId)
    → u ≢ tool
    → is_some_and o (λ t. t == tool) ≡ true
    → is_some_and o (λ t. t == u) ≡ false
tool_only none tool u ne h = refl
tool_only (some t) tool u ne h = ground (arith, tool_beq_iff t u, tool_beq_iff t tool)

activity_of_other :
    (a : Option LatestActivity) (tool u : ToolId)
    → u ≢ tool
    → own_activity u (if activity_of_tool a tool then some idle_activity else a) ≡ own_activity u a
unfolding activity_of_tool idle_activity
activity_of_other none tool u ne = refl
activity_of_other (some a) tool u ne = ground (arith, tool_only a.tool tool u ne)

module _ (r : RuntimeState) (tool : ToolId) where
  -- What clearing a tool leaves of it and of the others.
  pub clear_tool_state_lem :
      IsCleared tool (clear_tool_state r tool).0.state
      × ((u : ToolId) → u ≢ tool → SameTool u r.state (clear_tool_state r tool).0.state)
  unfolding clear_tool_state cleared_of_tool activity_of_tool idle_activity
  clear_tool_state_lem = (
    record {
      runs = any-retain-false _ _ r.state.runtime_states (λ x m. ground arith);
      requests = any-retain-false _ _ r.state.approval_requests (λ x m. ground arith);
      items = any-retain-false _ _ r.state.attention_items (λ x m. ground arith);
      activity = ground arith;
    },
    λ u ne. record {
      runs = retain-retain_of_imp _ _ r.state.runtime_states (λ x m. other x.tool u ne m);
      requests = retain-retain_of_imp _ _ r.state.approval_requests (λ x m. other x.tool u ne m);
      items = retain-retain_of_imp _ _ r.state.attention_items (λ x m. other x.tool u ne m);
      activity = activity_of_other r.state.latest_activity tool u ne;
    },
  )
    where
      other : (t u : ToolId) → u ≢ tool → (t == u) ≡ true → not (t == tool) ≡ true
      other t u ne m = ground (arith, tool_beq_iff t u, tool_beq_iff t tool)

-- Clearing a tool leaves nothing of it in the state, and leaves the runs, the requests, the attention
-- items and the latest activity of another tool `u` as they were. It does not touch the events, the
-- known keys and the states of the plugins.
pub clear_tool_isolated :
    (r : RuntimeState) (tool u : ToolId)
    → u ≢ tool
    → let after = (clear_tool_state r tool).0 in
      IsCleared tool after.state
      × SameTool u r.state after.state
      × (after.state.events ≡ r.state.events)
      × (after.public_events ≡ r.public_events)
      × (after.dedupe_keys ≡ r.dedupe_keys)
      × (after.plugin_runtime_states ≡ r.plugin_runtime_states)
unfolding clear_tool_state cleared_of_tool
clear_tool_isolated r tool u ne =
    let cleared = clear_tool_state_lem r tool in (cleared.0, cleared.1 u ne, refl, refl, refl, refl)

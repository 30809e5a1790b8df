-- ===== src/ApprovalApi/Watchers.antt =====
-- crates/niuma-api/src/handlers/approval.rs and approval_proxy_watchdog.rs: what the events of the
-- session watchers and the loss of a hook do to approvals. A spawned task is a step of its own, at the
-- time it wakes up; the log lines are not modelled.
use niu_ma_notifier.Prelude.Text.{strip_prefix}
use niu_ma_notifier.Prelude.{
  ℕ, String, Bool, true, false, not, ◌&&◌, ◌||◌, Option, none, some, List, [], ◌∷◌, map, length,
  if◌then◌else◌, find?, retain, is_some, ◌==◌, string_eq, option_eq, nat_eq, Result, ok, err,
}
use niu_ma_notifier.Models.{
  ToolId, tool_eq, ApprovalStatus, approval_status_eq, EventType, event_type_eq, CompletionReason,
  DateTime, Duration, NiumaEvent, tool_approval, ApprovalRequest,
}
use niu_ma_notifier.Approval.{ApprovalMutationResult}
use niu_ma_notifier.Store.{
  RuntimeState, resolve_approval_in_tool, return_stale_approval_proxies_to_codex,
}
use niu_ma_notifier.Arbiter.{
  ApprovalFingerprint, WatcherApprovalDecision, delay, emit_now, suppress, ExpiredWatcherApproval,
  emit, on_watcher_approval, expire_candidate, cancel_pending_by_attention_resolve_key,
}
use niu_ma_notifier.ApprovalApi.Answer.{returned_event_type_for_status}
use niu_ma_notifier.ApprovalApi.Events.{approval_event, watcher_approval_fingerprint, starts_with}
use niu_ma_notifier.ApprovalApi.State.{AppState, store_of, with_store, append}

unfoldable pub is_codex_watcher_approval : NiumaEvent → Bool
is_codex_watcher_approval event =
    (event.tool == ToolId.codex)
    && ((event.source == "codex-session-file")
        && (event.event_type == EventType.approval_requested))

-- The key of the event if it says that a call of Codex has gone on.
unfoldable pub codex_resolve_key : NiumaEvent → Option String
codex_resolve_key event =
    if not (event.tool == ToolId.codex)
      || (not (event.source == "codex-session-file")
          || not (event.event_type == EventType.session_activity))
    then none
    else elim event.attention_resolve_key [
      | none ↦ none
      | some value ↦ if starts_with "codex_permission:" value then some value else none
    ]

unfoldable pub cancel_codex_watcher_approval_if_resolved : AppState → NiumaEvent → AppState × Bool
cancel_codex_watcher_approval_if_resolved state event = elim (codex_resolve_key event) [
  | none ↦ (state, false)
  | some resolve_key ↦
      let (arbiter, cancelled) =
        cancel_pending_by_attention_resolve_key state.approval_arbiter resolve_key in
      (record state { approval_arbiter = arbiter }, cancelled)
]

-- `== Some(CompletionReason::Interrupted)`.
abbrev pub is_interrupted : Option CompletionReason → Bool
is_interrupted (some CompletionReason.interrupted) = true
is_interrupted _ = false

unfoldable pub is_claude_tool_continued_or_interrupted_event : NiumaEvent → Bool
is_claude_tool_continued_or_interrupted_event event =
    (event.event_type == EventType.session_activity)
    || ((event.event_type == EventType.task_failed)
        || ((event.event_type == EventType.assistant_message_completed)
            && is_interrupted event.completion_reason))

unfoldable pub approval_request_id_from_resolve_key : Option String → Option String
approval_request_id_from_resolve_key none = none
approval_request_id_from_resolve_key (some resolve_key) = strip_prefix resolve_key "approval:"

-- The statuses of the `matches!` of `claude_watcher_resolution_candidate`.
unfoldable pub is_unsettled : ApprovalStatus → Bool
is_unsettled ApprovalStatus.pending = true
is_unsettled ApprovalStatus.returned_to_codex = true
is_unsettled ApprovalStatus.returned_to_tool = true
is_unsettled _ = false

unfoldable pub is_claude_candidate : NiumaEvent → ApprovalRequest → Bool
is_claude_candidate event request =
    (request.tool == ToolId.claude_code)
    && ((request.session_id == event.session_id) && is_unsettled request.status)

-- `(xs.len() == 1).then(|| xs[0].clone())`.
abbrev pub only_one {ℓ} : {A : Type ℓ} → List A → Option A
only_one [] = none
only_one (x ∷ []) = some x
only_one (x ∷ y ∷ xs) = none

-- The candidates by the id of the tool's call: the one with the id, or else the one without any.
unfoldable pub candidate_by_call : String → List ApprovalRequest → Option ApprovalRequest
candidate_by_call tool_call_id candidates =
    elim (retain (λ (request : ApprovalRequest). request.tool_call_id == some tool_call_id)
      candidates) [
        | [] ↦
            only_one (
              retain (λ (request : ApprovalRequest). not (is_some request.tool_call_id)) candidates)
        | exact ∷ more ↦ only_one (exact ∷ more)
      ]

-- The end of `claude_watcher_resolution_candidate`.
unfoldable pub choose_candidate : NiumaEvent → List ApprovalRequest → Option ApprovalRequest
choose_candidate event candidates =
    elim (approval_request_id_from_resolve_key event.attention_resolve_key) [
      | some request_id ↦ find? (λ (request : ApprovalRequest). request.id == request_id) candidates
      | none ↦ elim event.tool_call_id [
        | some tool_call_id ↦ candidate_by_call tool_call_id candidates
        | none ↦ only_one candidates
      ]
    ]

unfoldable pub claude_watcher_resolution_candidate :
    RuntimeState → NiumaEvent → Option ApprovalRequest
claude_watcher_resolution_candidate store event =
    elim (retain (is_claude_candidate event) store.state.approval_requests) [
      | [] ↦ none
      | candidate ∷ candidates ↦ choose_candidate event (candidate ∷ candidates)
    ]

-- The end of `resolve_claude_watcher_approval_if_tool_continued`, after the call of the store.
unfoldable pub resolved_event :
    AppState
    → RuntimeState × Result ApprovalMutationResult
    → DateTime
    → AppState × Result (Option NiumaEvent)
resolved_event state (store, err error) now = (with_store state store, err error)
resolved_event state (store, ok result) now = (
  with_store state store,
  ok (
      if not result.accepted
      then none
      else some
          (approval_event result.request EventType.approval_resolved "info" "approval-api" now)),
)

unfoldable pub resolve_claude_watcher_approval_if_tool_continued :
    AppState → NiumaEvent → DateTime → DateTime → AppState × Result (Option NiumaEvent)
resolve_claude_watcher_approval_if_tool_continued state event resolved_at event_at =
    if not (event.tool == ToolId.claude_code)
      || (not (event.source == "claude-code-session-file")
          || not (is_claude_tool_continued_or_interrupted_event event))
    then (state, ok none)
    else elim (claude_watcher_resolution_candidate (store_of state) event) [
      | none ↦ (state, ok none)
      | some request ↦
          resolved_event state
            (resolve_approval_in_tool (store_of state) request.id "claude-code-session-file"
              (some "tool_result") resolved_at)
            event_at
    ]

pub data WatcherApprovalApiOutcome : Type 0 where
  apply : NiumaEvent → WatcherApprovalApiOutcome
  delayed : Duration → WatcherApprovalApiOutcome
  suppressed : (reason : String) → WatcherApprovalApiOutcome

-- The event with an interaction.
unfoldable pub with_interaction : NiumaEvent → NiumaEvent
with_interaction event = elim event.interaction [
  | none ↦ record event { interaction = some (tool_approval "请回到 Codex 中同意或拒绝") }
  | some interaction ↦ event
]

-- The match on the decision; a delay also spawns the task `watcher_candidate_expiry`.
unfoldable pub outcome_of : WatcherApprovalDecision → WatcherApprovalApiOutcome
outcome_of (emit_now event) = apply event
outcome_of suppress = suppressed "hook_approval_already_emitted"
outcome_of (delay duration) = delayed duration

unfoldable pub arbitrate_watcher_approval_event :
    AppState → NiumaEvent → DateTime → AppState × WatcherApprovalApiOutcome
arbitrate_watcher_approval_event state event now =
    elim (watcher_approval_fingerprint (with_interaction event)) [
      | none ↦ (state, apply (with_interaction event))
      | some fingerprint ↦
          let (arbiter, decision) =
            on_watcher_approval state.approval_arbiter fingerprint (with_interaction event) now in
          (record state { approval_arbiter = arbiter }, outcome_of decision)
    ]

-- The state after `handle_watcher_approval_event`.
unfoldable pub apply_outcome : AppState → WatcherApprovalApiOutcome → AppState
apply_outcome state (apply event) = append state (event ∷ [])
apply_outcome state (delayed duration) = state
apply_outcome state (suppressed reason) = state

unfoldable pub handle_watcher_approval_event :
    AppState → NiumaEvent → DateTime → AppState × WatcherApprovalApiOutcome
handle_watcher_approval_event state event now =
    let (after, outcome) = arbitrate_watcher_approval_event state event now in
    (apply_outcome after outcome, outcome)

-- What the task of `spawn_watcher_candidate_expiry` appends.
unfoldable pub expired_events : Option ExpiredWatcherApproval → List NiumaEvent
expired_events none = []
expired_events (some (emit event)) = event ∷ []

abbrev pub append_some : AppState → List NiumaEvent → AppState
append_some state [] = state
append_some state (event ∷ events) = append state (event ∷ events)

-- The task of `spawn_watcher_candidate_expiry`, when it wakes up.
unfoldable pub watcher_candidate_expiry : AppState → ApprovalFingerprint → DateTime → AppState
watcher_candidate_expiry state fingerprint now =
    let (arbiter, expired) = expire_candidate state.approval_arbiter fingerprint now in
    append_some (record state { approval_arbiter = arbiter }) (expired_events expired)

-- `sweep_approval_proxy_watchdog_at`; the events are made at `event_at`.
unfoldable pub sweep_approval_proxy_watchdog_at :
    AppState → DateTime → Duration → DateTime → AppState × ℕ
sweep_approval_proxy_watchdog_at state now stale_after event_at =
    let (store, results) =
      return_stale_approval_proxies_to_codex (store_of state) now stale_after in
    (
      append_some (with_store state store) (
          map
            (λ (result : ApprovalMutationResult).
              approval_event result.request (returned_event_type_for_status result.request.status)
                "info" "approval-watchdog" event_at)
            results),
      length results,
    )

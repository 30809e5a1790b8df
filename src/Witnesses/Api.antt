-- ===== src/Witnesses/Api.antt =====
-- The handlers of the approvals, and the pending actions.
use niu_ma_notifier.Prelude.{
  ℕ, String, ◌≡◌, refl, ◌⊎◌, ◌<◌, ◌≤◌, true, false, not, ◌&&◌, ◌||◌, none, some, List, [], ◌∷◌,
  arith, All, any, find?, retain, filter_map, is_some, ok, ◌==◌, string_eq, option_eq,
}
use niu_ma_notifier.ApprovalApi.{
  watcher_command, add_fingerprint, text_fingerprint, is_unsettled, choose_candidate,
  approval_request_id_from_resolve_key,
}
use niu_ma_notifier.Store.Events.{push_item_ids, push_unique}
use niu_ma_notifier.Prelude.Sort.{sort_by, insert_by}
use niu_ma_notifier.Prelude.Slices.{skip}
use niu_ma_notifier.Models.{
  ToolId, tool_beq, tool_approval, tool_eq, ApprovalStatus, EventType, NiumaEvent, AttentionItem,
  ApprovalRequest, RuntimeStateStatus,
}
use niu_ma_notifier.ToolSession.{PendingActionType, PendingAction, ToolSessionDetail}
use niu_ma_notifier.Arbiter.{ApprovalFingerprint, ApprovalFingerprintBasis}
use niu_ma_notifier.Arbiter.Fingerprint.{
  fingerprint_of, from_parts, normalize_fingerprint_text, join_words, split_whitespace, push_char,
  stable_hash, hex_digits, hash_text, hash_bytes, hex_digit, utf8, trim_session,
}
use niu_ma_notifier.Prelude.Text.{
  is_whitespace, strip_prefix, format, trim, trim_start, trim_end, is_blank, digit,
}
use niu_ma_notifier.Store.{RuntimeState, main_state_input, referenced_events}
use niu_ma_notifier.Store.Events.{main_state_event_ids}
use niu_ma_notifier.Sessions.{first?}
use niu_ma_notifier.ApprovalApi.{
  AppState, Relay, RequestTimes, has_key, hook_approval_fingerprints, watcher_approval_fingerprint,
  with_interaction, register_approval_request, arbitrate_watcher_approval_event, suppressed,
  claude_watcher_resolution_candidate, is_claude_candidate,
}
use niu_ma_notifier.ApprovalApi.Settling.{Settling, settle, Outcome, settle-Outcome}
use niu_ma_notifier.ApprovalApi.Takeover.{register_approval_request_suppresses}
use niu_ma_notifier.ApprovalApi.Candidates.{Picks, claude_watcher_resolution_candidate_own}
use niu_ma_notifier.PendingAction.{
  candidate_for_attention_item, title_for, action_type_for, is_waiting, is_empty,
  event_matches_detail, item_matches_detail, PendingActionCandidate, candidates_for_session,
  pending_action_for_session, fallback_candidate_from_attention,
}
use niu_ma_notifier.PendingAction.Candidates.{ranks}
use niu_ma_notifier.PendingAction.Choice.{
  pending_action_for_session_best, pending_action_for_session_source,
}
use niu_ma_notifier.Witnesses.Data.{
  event, item_of, waiting_state, waiting_store, request_of, requests, service,
}

abbrev claude_request : ApprovalRequest
claude_request = record (request_of "q" ApprovalStatus.pending) { tool = ToolId.claude_code }

abbrev store : RuntimeState
store = record waiting_store {
  state = record waiting_state { approval_requests = claude_request ∷ requests };
}

abbrev state : AppState
state = record {
  mutation_service = record service { store = store };
  approval_arbiter = record { capabilities = []; pending_candidates = []; recent_emissions = [] };
}

abbrev relay : Relay
relay = record { read_registry = ok []; send = λ socket id decision. ok tt }

abbrev allow_call : Settling
allow_call = Settling.decision relay (
    ok (record {
      request_id = " p ";
      decision = "allow";
      decided_by = "me";
      decided_source = "ui";
      reason = none;
    }))

settle-Outcome_example : Outcome state (settle state allow_call 200 201)
settle-Outcome_example = settle-Outcome state allow_call 200 201

abbrev times : RequestTimes
times = record { built_at = 200; arbitrated_at = λ n. 200; replaced_at = 201; requested_at = 202 }

abbrev seen : NiumaEvent
seen = record (event "w" ToolId.codex "s" EventType.approval_requested none 300) {
  content = some "exec_command: ls";
}

abbrev fingerprint : ApprovalFingerprint
fingerprint = fingerprint_of "/work" (some "s") ApprovalFingerprintBasis.command "ls"

register_approval_request_suppresses_example :
    (arbitrate_watcher_approval_event
      (register_approval_request state (request_of "n" ApprovalStatus.pending) times).0
      seen
      300).1
    ≡ suppressed "hook_approval_already_emitted"
unfolding watcher_approval_fingerprint with_interaction watcher_command from_parts
    normalize_fingerprint_text join_words split_whitespace push_char is_whitespace strip_prefix
    has_key any hook_approval_fingerprints add_fingerprint text_fingerprint fingerprint_of format
    stable_hash hex_digits hash_text hash_bytes hex_digit utf8 trim trim_start trim_end trim_session
    is_blank digit tool_approval
register_approval_request_suppresses_example =
    register_approval_request_suppresses state (request_of "n" ApprovalStatus.pending) times seen
      fingerprint 300 refl refl (λ n. omega arith) (λ n. omega arith)

abbrev went_on : NiumaEvent
went_on = event "c" ToolId.claude_code "s" EventType.session_activity none 300

claude_watcher_resolution_candidate_own_example :
    ((n : ℕ) × (first? (skip n store.state.approval_requests) ≡ some claude_request))
    × (claude_request.tool ≡ ToolId.claude_code)
    × (claude_request.session_id ≡ went_on.session_id)
    × ((claude_request.status ≡ ApprovalStatus.pending)
        ⊎ (claude_request.status ≡ ApprovalStatus.returned_to_codex)
        ⊎ (claude_request.status ≡ ApprovalStatus.returned_to_tool))
    × Picks
        (approval_request_id_from_resolve_key went_on.attention_resolve_key)
        went_on.tool_call_id
        (retain (is_claude_candidate went_on) store.state.approval_requests)
        claude_request
unfolding claude_watcher_resolution_candidate retain is_claude_candidate tool_beq is_unsettled
    choose_candidate approval_request_id_from_resolve_key
claude_watcher_resolution_candidate_own_example =
    claude_watcher_resolution_candidate_own store went_on claude_request refl

abbrev json : List (String × String) → String
json fields = "{}"

abbrev shown_detail : ToolSessionDetail String
shown_detail = record {
  tool = ToolId.codex;
  session_id = "s";
  project_path = "/work";
  project_name = "work";
  is_subagent = false;
  parent_session_id = none;
  normalized_session_id = none;
  session_scope = none;
  agent_nickname = none;
  agent_role = none;
  normalization_status = none;
  control = none;
  runtime_status = none;
  runtime_last_event_id = none;
  runtime_last_activity_at = none;
  pending_action = none;
  messages = [];
  next_cursor = none;
}

abbrev action : PendingAction String
action = record {
  action_type = PendingActionType.approval;
  title = "需要授权";
  description = "may I";
  actionable = false;
  created_at = 5;
  source_event_id = some "a";
  actions = [];
  fields = [];
  submit = none;
}

action_shown : pending_action_for_session json store shown_detail ≡ some action
unfolding pending_action_for_session candidates_for_session main_state_input retain filter_map
    is_waiting candidate_for_attention_item find? referenced_events main_state_event_ids
    fallback_candidate_from_attention item_matches_detail tool_beq sort_by insert_by title_for
    action_type_for push_item_ids push_unique any
action_shown = refl

-- An input that waits for longer than the approvals.
abbrev asking_store : RuntimeState
asking_store = record waiting_store {
  state = record waiting_state {
    attention_items =
        record (item_of "i" "s" none) { status = RuntimeStateStatus.waiting_input; created_at = 1 }
        ∷ waiting_state.attention_items;
  };
}

pending_action_for_session_best_example :
    (chosen : PendingActionCandidate json) × ((n : ℕ) × (first?
          (skip n (candidates_for_session json asking_store shown_detail))
        ≡ some chosen))
    × (chosen.action ≡ action)
    × All
        (λ (other : PendingActionCandidate json).
          (ranks other.action.action_type other.action.actionable other.priority ≡ true)
          × ((other.priority < chosen.priority)
              ⊎ ((other.priority ≡ chosen.priority)
                  × (chosen.action.created_at ≤ other.action.created_at))))
        (candidates_for_session json asking_store shown_detail)
unfolding pending_action_for_session candidates_for_session main_state_input retain filter_map
    is_waiting candidate_for_attention_item find? referenced_events main_state_event_ids
    fallback_candidate_from_attention item_matches_detail tool_beq sort_by insert_by title_for
    action_type_for push_item_ids push_unique any
pending_action_for_session_best_example =
    pending_action_for_session_best json asking_store shown_detail action refl

pending_action_for_session_source_example :
    (any
        (λ (item : AttentionItem).
          is_waiting item
          && ((action.source_event_id == some item.event_id)
              && elim (find?
                  (λ (event : NiumaEvent). event.id == item.event_id)
                  (main_state_input store).public_events) [
                    | some event ↦ event_matches_detail event shown_detail
                    | none ↦ item_matches_detail item shown_detail
                  ]))
        store.state.attention_items
      ≡ true)
    × (action.actionable ≡ (not (is_empty action.actions) || is_some action.submit))
pending_action_for_session_source_example =
    pending_action_for_session_source json store shown_detail action action_shown

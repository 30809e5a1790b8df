-- ===== src/Sessions/Summary.antt =====
-- crates/niuma-api/src/tool_sessions.rs: the summary of the raw sessions with one normalized id,
-- without and with the state of their runs. `none` stands for the panic of `raw_sessions[0]`.
use Prim.Native.Nat.{compare}
use Prim.Native.String as Text
use niu_ma_notifier.Prelude.{
  ℕ, String, Bool, Option, none, some, List, [], ◌∷◌, map, length, if◌then◌else◌, any, find?,
  retain, filter_map, ◌==◌, nat_eq, string_eq,
}
use niu_ma_notifier.Prelude.Order.{Comparator, on, descending, then_by}
use niu_ma_notifier.Prelude.Sort.{sort_by, max_by}
use niu_ma_notifier.Models.{ToolId, RuntimeStateStatus, RuntimeStateItem, DateTime}
use niu_ma_notifier.Transitions.{runtime_matches}
use niu_ma_notifier.ToolSession.{
  ToolSessionStatus, ToolSessionScope, scope_eq, ToolSessionNormalizationStatus, ToolSessionControl,
  ToolSessionListItem,
}
use niu_ma_notifier.Sessions.Item.{
  or_else, unwrap_or, normalized_session_id_for, session_scope_for, session_scope_sort_rank,
  session_title, normalized_first_user_message,
}
use niu_ma_notifier.Sessions.Channels.{normalized_control}

abbrev pub map_option {ℓ κ} : {A : Type ℓ} {B : Type κ} → (A → B) → Option A → Option B
map_option f none = none
map_option f (some a) = some (f a)

abbrev pub and_then {ℓ κ} : {A : Type ℓ} {B : Type κ} → Option A → (A → Option B) → Option B
and_then none f = none
and_then (some a) f = f a

pub record RawSessionSummary : Type 0 where
  pub session_id : String
  pub parent_session_id : Option String
  pub normalized_session_id : String
  pub session_scope : ToolSessionScope
  pub agent_nickname : Option String
  pub agent_role : Option String
  pub normalization_status : Option ToolSessionNormalizationStatus
  pub source_path : String
  pub updated_at : DateTime
  pub is_active : Bool
  pub status : ToolSessionStatus

pub record NormalizedSessionSummary : Type 0 where
  pub normalized_session_id : String
  pub primary_session_id : String
  pub title : String
  pub status : ToolSessionStatus
  pub updated_at : DateTime
  pub first_user_message_preview : Option String
  pub first_user_message_at : Option DateTime
  pub latest_event_summary : Option String
  pub subagent_count : ℕ
  pub control : Option ToolSessionControl
  pub raw_sessions : Option (List RawSessionSummary)

pub record RuntimeRawSessionSummary : Type 0 where
  pub session_id : String
  pub parent_session_id : Option String
  pub normalized_session_id : String
  pub session_scope : ToolSessionScope
  pub agent_nickname : Option String
  pub agent_role : Option String
  pub normalization_status : Option ToolSessionNormalizationStatus
  pub source_path : String
  pub updated_at : DateTime
  pub is_active : Bool
  pub status : ToolSessionStatus
  pub runtime_status : Option RuntimeStateStatus
  pub runtime_last_event_id : Option String
  pub runtime_last_activity_at : Option DateTime

pub record RuntimeNormalizedSessionSummary : Type 0 where
  pub normalized_session_id : String
  pub primary_session_id : String
  pub title : String
  pub status : ToolSessionStatus
  pub runtime_status : Option RuntimeStateStatus
  pub runtime_last_event_id : Option String
  pub runtime_last_activity_at : Option DateTime
  pub updated_at : DateTime
  pub first_user_message_preview : Option String
  pub first_user_message_at : Option DateTime
  pub latest_event_summary : Option String
  pub subagent_count : ℕ
  pub control : Option ToolSessionControl
  pub raw_sessions : Option (List RuntimeRawSessionSummary)

unfoldable pub raw_session_summary : ToolSessionListItem → RawSessionSummary
raw_session_summary item = record {
  session_id = item.session_id;
  parent_session_id = item.parent_session_id;
  normalized_session_id = normalized_session_id_for item;
  session_scope = session_scope_for item;
  agent_nickname = item.agent_nickname;
  agent_role = item.agent_role;
  normalization_status = item.normalization_status;
  source_path = item.file_path;
  updated_at = item.modified_at;
  is_active = item.is_active;
  status = item.status;
}

-- The comparator of the two summaries.
abbrev pub raw_session_order : Comparator ToolSessionListItem
raw_session_order = then_by (on compare session_scope_sort_rank) (
    then_by (descending (on compare (λ (item : ToolSessionListItem). item.modified_at)))
      (on Text.compare (λ (item : ToolSessionListItem). item.session_id)))

abbrev pub first? {ℓ} : {A : Type ℓ} → List A → Option A
first? [] = none
first? (x ∷ xs) = some x

-- The search for the primary session.
unfoldable pub primary_session : String → List ToolSessionListItem → Option ToolSessionListItem
primary_session normalized_session_id raw_sessions =
    or_else (find? (λ item. session_scope_for item == ToolSessionScope.main) raw_sessions) (
      or_else
        (find? (λ (item : ToolSessionListItem). item.session_id == normalized_session_id)
          raw_sessions)
        (first? raw_sessions))

-- `iter().map(|item| item.modified_at).max()`.
unfoldable pub latest_modified : List ToolSessionListItem → Option DateTime
latest_modified raw_sessions =
    max_by compare (map (λ (item : ToolSessionListItem). item.modified_at) raw_sessions)

unfoldable pub subagents : List ToolSessionListItem → ℕ
subagents raw_sessions = length (retain (λ item. item.is_subagent) raw_sessions)

unfoldable pub session_status : ToolSessionListItem → List ToolSessionListItem → ToolSessionStatus
session_status primary raw_sessions =
    if any (λ item. item.is_active) raw_sessions then ToolSessionStatus.active else primary.status

-- `normalized_summary` after the search for the primary session, on the sorted sessions.
unfoldable pub summary_with_primary :
    String → List ToolSessionListItem → Bool → ToolSessionListItem → NormalizedSessionSummary
summary_with_primary normalized_session_id raw_sessions include_subagents primary =
    let first_user_message = normalized_first_user_message primary raw_sessions in
    record {
      normalized_session_id = normalized_session_id;
      primary_session_id = primary.session_id;
      title = session_title primary;
      status = session_status primary raw_sessions;
      updated_at = unwrap_or (latest_modified raw_sessions) primary.modified_at;
      first_user_message_preview = map_option (λ message. message.preview) first_user_message;
      first_user_message_at = map_option (λ message. message.created_at) first_user_message;
      latest_event_summary = none;
      subagent_count = subagents raw_sessions;
      control = normalized_control primary raw_sessions;
      raw_sessions =
          if include_subagents then some (map raw_session_summary raw_sessions) else none;
    }

unfoldable pub normalized_summary :
    String → List ToolSessionListItem → Bool → Option NormalizedSessionSummary
normalized_summary normalized_session_id raw_sessions include_subagents =
    let sorted = sort_by raw_session_order raw_sessions in
    map_option (summary_with_primary normalized_session_id sorted include_subagents)
      (primary_session normalized_session_id sorted)

unfoldable pub runtime_for_session :
    List RuntimeStateItem → ToolId → String → Option RuntimeStateItem
runtime_for_session runtime_states tool session_id =
    find? (runtime_matches tool session_id) runtime_states

unfoldable pub runtime_status_priority : RuntimeStateStatus → ℕ
runtime_status_priority RuntimeStateStatus.waiting_approval = 7
runtime_status_priority RuntimeStateStatus.waiting_input = 6
runtime_status_priority RuntimeStateStatus.error = 5
runtime_status_priority RuntimeStateStatus.running = 4
runtime_status_priority RuntimeStateStatus.completed = 3
runtime_status_priority RuntimeStateStatus.idle = 2
runtime_status_priority RuntimeStateStatus.stale = 1

abbrev pub compare_runtime_priority : Comparator RuntimeStateItem
compare_runtime_priority =
    then_by (on compare (λ (item : RuntimeStateItem). runtime_status_priority item.status))
      (on compare (λ (item : RuntimeStateItem). item.last_activity_at))

unfoldable pub runtime_raw_session_summary :
    List RuntimeStateItem → ToolSessionListItem → RuntimeRawSessionSummary
runtime_raw_session_summary runtime_states item =
    let runtime = runtime_for_session runtime_states item.tool item.session_id in
    record {
      session_id = item.session_id;
      parent_session_id = item.parent_session_id;
      normalized_session_id = normalized_session_id_for item;
      session_scope = session_scope_for item;
      agent_nickname = item.agent_nickname;
      agent_role = item.agent_role;
      normalization_status = item.normalization_status;
      source_path = item.file_path;
      updated_at = item.modified_at;
      is_active = item.is_active;
      status = item.status;
      runtime_status = map_option (λ run. run.status) runtime;
      runtime_last_event_id = and_then runtime (λ run. run.last_event_id);
      runtime_last_activity_at = map_option (λ run. run.last_activity_at) runtime;
    }

-- The run that stands for all raw sessions.
unfoldable pub runtime_of_sessions :
    List RuntimeStateItem → List ToolSessionListItem → Option RuntimeStateItem
runtime_of_sessions runtime_states raw_sessions = max_by compare_runtime_priority (
    filter_map
      (λ (item : ToolSessionListItem). runtime_for_session runtime_states item.tool item.session_id)
      raw_sessions)

-- `runtime_normalized_summary` after the search for the primary session.
unfoldable pub runtime_summary_with_primary :
    String
    → List ToolSessionListItem
    → Bool
    → List RuntimeStateItem
    → ToolSessionListItem
    → RuntimeNormalizedSessionSummary
runtime_summary_with_primary normalized_session_id raw_sessions include_subagents runtime_states
      primary =
    let first_user_message = normalized_first_user_message primary raw_sessions in
    let runtime = runtime_of_sessions runtime_states raw_sessions in
    record {
      normalized_session_id = normalized_session_id;
      primary_session_id = primary.session_id;
      title = session_title primary;
      status = session_status primary raw_sessions;
      runtime_status = map_option (λ run. run.status) runtime;
      runtime_last_event_id = and_then runtime (λ run. run.last_event_id);
      runtime_last_activity_at = map_option (λ run. run.last_activity_at) runtime;
      updated_at = unwrap_or (latest_modified raw_sessions) primary.modified_at;
      first_user_message_preview = map_option (λ message. message.preview) first_user_message;
      first_user_message_at = map_option (λ message. message.created_at) first_user_message;
      latest_event_summary = none;
      subagent_count = subagents raw_sessions;
      control = normalized_control primary raw_sessions;
      raw_sessions =
          if include_subagents
          then some (map (runtime_raw_session_summary runtime_states) raw_sessions)
          else none;
    }

unfoldable pub runtime_normalized_summary :
    String
    → List ToolSessionListItem
    → Bool
    → List RuntimeStateItem
    → Option RuntimeNormalizedSessionSummary
runtime_normalized_summary normalized_session_id raw_sessions include_subagents runtime_states =
    let sorted = sort_by raw_session_order raw_sessions in
    map_option
      (runtime_summary_with_primary normalized_session_id sorted include_subagents runtime_states)
      (primary_session normalized_session_id sorted)

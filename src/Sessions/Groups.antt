-- ===== src/Sessions/Groups.antt =====
-- crates/niuma-api/src/tool_sessions.rs: the sessions of a snapshot, grouped by tool and project.
-- `none` stands for the panic of `raw_sessions[0]`, and `now` for the clock's answer.
use Prim.Native.Char.{nul}
use Prim.Native.Nat.{compare}
use Prim.Native.String as Text
use niu_ma_notifier.Prelude.HashMap
use niu_ma_notifier.Prelude.Text.{is_blank, format}
use niu_ma_notifier.Prelude.{
  ℕ, String, Bool, false, not, Option, none, some, List, [], ◌∷◌, ◌++◌, map, length, if◌then◌else◌,
  ◌==◌, string_eq,
}
use niu_ma_notifier.Prelude.Order.{Comparator, on, descending, then_by}
use niu_ma_notifier.Prelude.Sort.{sort_by, max_by, sum}
use niu_ma_notifier.Models.{ToolId, as_str, RuntimeStateItem, DateTime}
use niu_ma_notifier.ToolSession.{ToolSessionListItem}
use niu_ma_notifier.Sessions.Item.{unwrap_or, normalized_session_id_for}
use niu_ma_notifier.Sessions.Summary.{
  map_option, and_then, NormalizedSessionSummary, normalized_summary,
  RuntimeNormalizedSessionSummary, runtime_normalized_summary,
}

pub record ProjectSessionGroup : Type 0 where
  pub tool : ToolId
  pub project_path : String
  pub project_name : String
  pub updated_at : DateTime
  pub normalized_session_count : ℕ
  pub raw_session_count : ℕ
  pub subagent_count : ℕ
  pub sessions : List NormalizedSessionSummary

pub record RuntimeProjectSessionGroup : Type 0 where
  pub tool : ToolId
  pub project_path : String
  pub project_name : String
  pub updated_at : DateTime
  pub normalized_session_count : ℕ
  pub raw_session_count : ℕ
  pub subagent_count : ℕ
  pub sessions : List RuntimeNormalizedSessionSummary

-- The sessions by their normalized ids.
abbrev pub Sessions : Type 0
Sessions = List (String × List ToolSessionListItem)

pub record ProjectAccumulator : Type 0 where
  pub tool : ToolId
  pub project_path : String
  pub project_name : String
  pub sessions : Sessions

-- `ProjectAccumulator::new`.
unfoldable pub new_accumulator : ToolSessionListItem → ProjectAccumulator
new_accumulator item = record {
  tool = item.tool;
  project_path = item.project_path;
  project_name = item.project_name;
  sessions = [];
}

-- `or_default().push(item)`.
unfoldable pub push_session :
    ToolSessionListItem → Option (List ToolSessionListItem) → List ToolSessionListItem
push_session item none = item ∷ []
push_session item (some sessions) = sessions ++ item ∷ []

-- `ProjectAccumulator::push`.
unfoldable pub push_item : ProjectAccumulator → ToolSessionListItem → ProjectAccumulator
push_item project item = record project {
  project_name =
      if not (is_blank item.project_name) then item.project_name else project.project_name;
  sessions = HashMap.update project.sessions (normalized_session_id_for item) (push_session item);
}

-- A `map` whose function may panic.
unfoldable pub map_all {ℓ κ} : {A : Type ℓ} {B : Type κ} → (A → Option B) → List A → Option (List B)
map_all f [] = some []
map_all f (x ∷ xs) = let rest = map_all f xs in and_then (f x) (λ y. map_option (λ ys. y ∷ ys) rest)

abbrev pub summary_order : Comparator NormalizedSessionSummary
summary_order =
    then_by (descending (on compare (λ (session : NormalizedSessionSummary). session.updated_at)))
      (on Text.compare (λ (session : NormalizedSessionSummary). session.primary_session_id))

abbrev pub runtime_summary_order : Comparator RuntimeNormalizedSessionSummary
runtime_summary_order =
    then_by
      (descending (on compare (λ (session : RuntimeNormalizedSessionSummary). session.updated_at)))
      (on Text.compare (λ (session : RuntimeNormalizedSessionSummary). session.primary_session_id))

-- The end of `into_group`, on the summaries.
unfoldable pub group_of :
    DateTime → ProjectAccumulator → List NormalizedSessionSummary → ProjectSessionGroup
group_of now project summaries =
    let sessions = sort_by summary_order summaries in
    record {
      tool = project.tool;
      project_path = project.project_path;
      project_name = project.project_name;
      updated_at = unwrap_or (max_by compare (map (λ session. session.updated_at) sessions)) now;
      normalized_session_count = length sessions;
      raw_session_count = sum length (HashMap.values project.sessions);
      subagent_count = sum (λ session. session.subagent_count) sessions;
      sessions = sessions;
    }

unfoldable pub into_group : DateTime → Bool → ProjectAccumulator → Option ProjectSessionGroup
into_group now include_subagents project = map_option (group_of now project) (
    map_all
      (λ (entry : String × List ToolSessionListItem).
        normalized_summary entry.0 entry.1 include_subagents)
      project.sessions)

-- The end of `into_runtime_group`, on the summaries.
unfoldable pub runtime_group_of :
    DateTime
    → ProjectAccumulator
    → List RuntimeNormalizedSessionSummary
    → RuntimeProjectSessionGroup
runtime_group_of now project summaries =
    let sessions = sort_by runtime_summary_order summaries in
    record {
      tool = project.tool;
      project_path = project.project_path;
      project_name = project.project_name;
      updated_at = unwrap_or (max_by compare (map (λ session. session.updated_at) sessions)) now;
      normalized_session_count = length sessions;
      raw_session_count = sum length (HashMap.values project.sessions);
      subagent_count = sum (λ session. session.subagent_count) sessions;
      sessions = sessions;
    }

unfoldable pub into_runtime_group :
    DateTime → Bool → List RuntimeStateItem → ProjectAccumulator → Option RuntimeProjectSessionGroup
into_runtime_group now include_subagents runtime_states project =
    map_option (runtime_group_of now project) (
      map_all
        (λ (entry : String × List ToolSessionListItem).
          runtime_normalized_summary entry.0 entry.1 include_subagents runtime_states)
        project.sessions)

-- The key of a project.
unfoldable pub project_key : ToolSessionListItem → String
project_key item = format (as_str item.tool ∷ (String.◌∷◌ nul String.[]) ∷ item.project_path ∷ [])

-- `path` is another project than the one that is asked for.
unfoldable pub is_excluded : Option String → ToolSessionListItem → Bool
is_excluded none item = false
is_excluded (some expected) item = not (item.project_path == expected)

abbrev pub Projects : Type 0
Projects = List (String × ProjectAccumulator)

-- `or_insert_with(..).push(item)`.
unfoldable pub push_project : ToolSessionListItem → Option ProjectAccumulator → ProjectAccumulator
push_project item none = push_item (new_accumulator item) item
push_project item (some project) = push_item project item

-- The loop over the items of the snapshot.
unfoldable pub collect_projects : Option String → Projects → List ToolSessionListItem → Projects
collect_projects project_path projects [] = projects
collect_projects project_path projects (item ∷ items) =
    collect_projects project_path
      (if is_excluded project_path item
        then projects
        else HashMap.update projects (project_key item) (push_project item))
      items

abbrev pub group_order : Comparator ProjectSessionGroup
group_order =
    then_by (descending (on compare (λ (group : ProjectSessionGroup). group.updated_at))) (
      then_by (on Text.compare (λ (group : ProjectSessionGroup). as_str group.tool))
        (on Text.compare (λ (group : ProjectSessionGroup). group.project_path)))

abbrev pub runtime_group_order : Comparator RuntimeProjectSessionGroup
runtime_group_order =
    then_by (descending (on compare (λ (group : RuntimeProjectSessionGroup). group.updated_at))) (
      then_by (on Text.compare (λ (group : RuntimeProjectSessionGroup). as_str group.tool))
        (on Text.compare (λ (group : RuntimeProjectSessionGroup). group.project_path)))

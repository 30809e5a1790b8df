-- ===== src/Witnesses/Sessions.antt =====
-- The lists and groups of the sessions.
use niu_ma_notifier.Prelude.HashMap
use niu_ma_notifier.Prelude.Text
use niu_ma_notifier.Prelude.{
  ℕ, ◌+◌, ◌*◌, ◌≤◌, String, ◌≡◌, refl, true, false, not, ◌&&◌, none, some, List, [], ◌∷◌, map,
  arith, All, any, length, retain, filter_map, find?, if◌then◌else◌, ◌==◌, nat_eq, string_eq,
  option_eq, ltb, ◌||◌, ◌<◌, ◌-◌, min,
}
use niu_ma_notifier.Prelude.Order.{not_greater}
use niu_ma_notifier.Prelude.Sort.{IsSorted, sort_by, insert_by, max_by, sum}
use niu_ma_notifier.Prelude.Slices.{skip}
use niu_ma_notifier.Models.{as_str, ToolId, tool_eq, status_eq}
use niu_ma_notifier.ToolSession.{
  ToolSessionControl, ToolSessionControlChannel, ToolSessionListItem, scope_eq,
}
use niu_ma_notifier.Sessions.{
  unwrap_or, ToolSessionProjectGroupPage, project_groups, RuntimeProjectSessionGroup, capped_page,
  first?, capped_page_size, map_all, into_group, group_of, projects_of, collect_projects,
  push_project, push_item, push_session, new_accumulator, project_key, normalized_summary,
  summary_with_primary, primary_session, session_scope_for, session_scope_sort_rank,
  latest_modified, flatten, snapshots_for_tool, capped_limit, Snapshots, ToolSessionListQuery,
  ToolSessionProjectGroupsQuery, session_order, is_listed, listed, list, page_of, sorted_groups,
  sorted_runtime_groups, is_excluded, asked_project, snapshot_items, map_option,
  ProjectSessionGroup, normalized_control, normalized_session_id_for,
}
use niu_ma_notifier.Sessions.Listing.{list-IsSorted, project_groups_page}
use niu_ma_notifier.Sessions.Grouping.{sorted_groups_count}
use niu_ma_notifier.Sessions.Runtime.{forget_group, weigh, sorted_runtime_groups_sessions}
use niu_ma_notifier.Sessions.Control.{channels_of, normalized_control_keeps}
use niu_ma_notifier.Witnesses.SessionData.{session_with, sessions, snapshots, runs}

abbrev query : ToolSessionListQuery
query = record { tool = none; include_subagents = false; active_only = true; limit = some 2 }

abbrev newest : List ToolSessionListItem
newest = session_with "b" 9 ∷ session_with "c" 4 ∷ []

list-IsSorted_example :
    (length newest ≤ 500)
    × IsSorted session_order newest
    × All (λ item. is_listed query item ≡ true) newest
    × All
        (λ x.
          All
            (λ y. not_greater (session_order x y) ≡ true)
            (skip (length newest) (listed snapshots query)))
        newest
unfolding list capped_limit listed sort_by retain snapshot_items flatten snapshots_for_tool
    is_listed insert_by
list-IsSorted_example = list-IsSorted snapshots query newest refl

abbrev groups_query : ToolSessionProjectGroupsQuery
groups_query = record {
  tool = some "codex";
  project_path = some " /p ";
  include_subagents = true;
  page = none;
  page_size = none;
}

-- Three projects, of which the second page shows one.
abbrev project_session : String → ℕ → ToolSessionListItem
project_session path last_seen_at = record (session_with path last_seen_at) { project_path = path }

abbrev project_snapshots : Snapshots
project_snapshots =
    (ToolId.codex, project_session "/x" 3 ∷ project_session "/y" 9 ∷ project_session "/z" 4 ∷ [])
    ∷ []

abbrev page_query : ToolSessionProjectGroupsQuery
page_query = record {
  tool = none;
  project_path = none;
  include_subagents = true;
  page = some 2;
  page_size = some 1;
}

abbrev all_groups : List ProjectSessionGroup
all_groups = unwrap_or (sorted_groups 10 project_snapshots page_query) []

abbrev second_page : ToolSessionProjectGroupPage
second_page = record { list = page_of 2 1 all_groups; page = 2; page_size = 1; total = 3 }

project_groups_page_example :
    (second_page.page ≡ unwrap_or page_query.page 1)
    × (second_page.page_size ≡ min (unwrap_or page_query.page_size 20) 100)
    × (0 < second_page.page)
    × (0 < second_page.page_size)
    × (second_page.total ≡ length all_groups)
    × ((i : ℕ)
        → first? (skip i second_page.list) ≡ (
            if ltb i second_page.page_size
            then first? (skip ((second_page.page - 1) * second_page.page_size + i) all_groups)
            else none))
unfolding project_groups capped_page capped_page_size sorted_groups map_all into_group group_of
    projects_of collect_projects push_project push_item push_session new_accumulator project_key
    is_excluded asked_project snapshot_items snapshots_for_tool flatten sort_by insert_by
    normalized_summary summary_with_primary primary_session normalized_session_id_for HashMap.get
    HashMap.insert HashMap.update session_scope_for session_scope_sort_rank latest_modified max_by
    find? retain Text.is_blank Text.is_whitespace Text.format as_str
project_groups_page_example =
    project_groups_page 10 project_snapshots page_query all_groups second_page refl (omega arith)
      refl

sorted_groups_count_example :
    map_option
      (sum (λ (group : ProjectSessionGroup). group.raw_session_count))
      (sorted_groups 10 snapshots groups_query)
    ≡ some (
        length (
          retain
            (λ item. not (is_excluded (asked_project groups_query.project_path) item))
            (snapshot_items snapshots groups_query.tool)))
sorted_groups_count_example = sorted_groups_count 10 snapshots groups_query

sorted_runtime_groups_sessions_example :
    (map_option length (sorted_runtime_groups 10 snapshots groups_query runs)
      ≡ map_option length (sorted_groups 10 snapshots groups_query))
    × (map_option
          (λ (groups : List RuntimeProjectSessionGroup).
            weigh
              (λ group session. group.raw_session_count + session.subagent_count)
              (map forget_group groups))
          (sorted_runtime_groups 10 snapshots groups_query runs)
        ≡ map_option
            (weigh (λ group session. group.raw_session_count + session.subagent_count))
            (sorted_groups 10 snapshots groups_query))
sorted_runtime_groups_sessions_example =
    sorted_runtime_groups_sessions 10 snapshots groups_query runs
      (λ group session. group.raw_session_count + session.subagent_count)

normalized_control_keeps_example :
    All
      (λ (control : ToolSessionControl).
        All
          (λ (channel : ToolSessionControlChannel).
            any
              (λ (kept : ToolSessionControlChannel).
                (kept.id == channel.id)
                && (ltb channel.updated_at kept.updated_at
                    || ((kept.updated_at == channel.updated_at)
                        && (kept.available || not channel.available))))
              (channels_of (normalized_control (session_with "a" 3) sessions))
            ≡ true)
          control.channels)
      (filter_map (λ (item : ToolSessionListItem). item.control) (session_with "a" 3 ∷ sessions))
normalized_control_keeps_example = normalized_control_keeps (session_with "a" 3) sessions

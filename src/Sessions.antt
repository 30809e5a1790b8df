-- ===== src/Sessions.antt =====
-- crates/niuma-api/src/tool_sessions.rs: the registry of the sessions that the tools' providers
-- report, and the lists and groups that clients ask for. A poisoned lock is not modelled; a detail
-- provider is a function, of a JSON type `Value` that is given.
pub mod Grouping
pub mod Runtime
pub mod Registry
pub mod Control
pub mod Listing
mod Item
mod Channels
mod Summary
mod Groups
mod Queries
unfoldable pub use Item.*
unfoldable pub use Channels.*
unfoldable pub use Summary.*
unfoldable pub use Groups.*
unfoldable pub use Queries.*
use Prim.Native.Nat.{compare}
use Prim.Native.String as Text
use niu_ma_notifier.Prelude.HashMap
use niu_ma_notifier.Prelude.Text.{is_blank, trim}
use niu_ma_notifier.Prelude.{
  ℕ, zero, suc, ◌+◌, ◌-◌, ◌*◌, ◌^◌, min, String, Bool, true, false, not, ◌&&◌, ◌||◌, Option, none,
  some, List, [], ◌∷◌, ◌++◌, map, length, take, find?, retain, is_some_and, if◌then◌else◌, ◌==◌,
  nat_eq, string_eq, option_eq, Result, ok, err, ◌>>=◌, map_ok,
}
use niu_ma_notifier.Prelude.Order.{Comparator, on, descending, then_by}
use niu_ma_notifier.Prelude.Sort.{sort_by, max_by}
use niu_ma_notifier.Prelude.Slices.{skip}
use niu_ma_notifier.Models.{ToolId, tool_eq, as_str, from_id, RuntimeStateItem, DateTime}
use niu_ma_notifier.ToolSession.{ToolSessionScope, scope_eq, ToolSessionListItem, ToolSessionDetail}

-- The sorted sessions of `list` before they are cut off.
unfoldable pub listed : Snapshots → ToolSessionListQuery → List ToolSessionListItem
listed snapshots query =
    sort_by session_order (retain (is_listed query) (snapshot_items snapshots query.tool))

unfoldable pub list : Snapshots → ToolSessionListQuery → Result (List ToolSessionListItem)
list snapshots query =
    map_ok (λ limit. take limit (listed snapshots query)) (capped_limit query.limit)

-- `map(|value| value.trim().to_string()).filter(|value| !value.is_empty())`.
unfoldable pub asked_project : Option String → Option String
asked_project none = none
asked_project (some value) = if is_blank value then none else some (trim value)

unfoldable pub projects_of : Snapshots → ToolSessionProjectGroupsQuery → Projects
projects_of snapshots query =
    collect_projects (asked_project query.project_path) [] (snapshot_items snapshots query.tool)

-- `(page - 1).saturating_mul(page_size)` in 64 bits.
unfoldable pub page_start : ℕ → ℕ → ℕ
page_start page page_size = min ((page - 1) * page_size) (2 ^ 64 - 1)

-- `skip(start).take(page_size)`.
unfoldable pub page_of {ℓ} : {A : Type ℓ} → ℕ → ℕ → List A → List A
page_of page page_size xs = take page_size (skip (page_start page page_size) xs)

-- All groups, in their order.
unfoldable pub sorted_groups :
    DateTime → Snapshots → ToolSessionProjectGroupsQuery → Option (List ProjectSessionGroup)
sorted_groups now snapshots query = map_option (sort_by group_order) (
    map_all (into_group now query.include_subagents) (HashMap.values (projects_of snapshots query)))

-- `ok none` stands for a panic.
unfoldable pub project_groups :
    DateTime
    → Snapshots
    → ToolSessionProjectGroupsQuery
    → Result (Option ToolSessionProjectGroupPage)
project_groups now snapshots query = capped_page query.page >>= λ page.
    capped_page_size query.page_size >>= λ page_size. ok (
      map_option
        (λ (groups : List ProjectSessionGroup). record {
          list = page_of page page_size groups;
          page = page;
          page_size = page_size;
          total = length groups;
        })
        (sorted_groups now snapshots query))

unfoldable pub sorted_runtime_groups :
    DateTime
    → Snapshots
    → ToolSessionProjectGroupsQuery
    → List RuntimeStateItem
    → Option (List RuntimeProjectSessionGroup)
sorted_runtime_groups now snapshots query runtime_states =
    map_option (sort_by runtime_group_order) (
      map_all (into_runtime_group now query.include_subagents runtime_states)
        (HashMap.values (projects_of snapshots query)))

-- `ok none` stands for a panic.
unfoldable pub project_groups_with_runtime :
    DateTime
    → Snapshots
    → ToolSessionProjectGroupsQuery
    → List RuntimeStateItem
    → Result (Option RuntimeSessionProjectGroupPage)
project_groups_with_runtime now snapshots query runtime_states = capped_page query.page >>= λ page.
    capped_page_size query.page_size >>= λ page_size. ok (
      map_option
        (λ (groups : List RuntimeProjectSessionGroup). record {
          list = page_of page page_size groups;
          page = page;
          page_size = page_size;
          total = length groups;
        })
        (sorted_runtime_groups now snapshots query runtime_states))

unfoldable pub session_in : String → Option (List ToolSessionListItem) → Option ToolSessionListItem
session_in session_id none = none
session_in session_id (some sessions) =
    find? (λ (session : ToolSessionListItem). session.session_id == session_id) sessions

unfoldable pub find_session : Snapshots → ToolId → String → Option ToolSessionListItem
find_session snapshots tool session_id = session_in session_id (HashMap.get snapshots tool)

module _ (Value : Type 0) where
  -- `ToolSessionDetailProvider::detail`.
  abbrev pub DetailProvider : Type 0
  DetailProvider = ToolId → String → ℕ → Option String → Result (ToolSessionDetail Value)

  pub record ToolSessionRegistry : Type 0 where
    pub snapshots : Snapshots
    pub detail_providers : List (ToolId × DetailProvider)

  -- `ToolSessionRegistry::new`.
  unfoldable pub new_registry : ToolSessionRegistry
  new_registry = record { snapshots = []; detail_providers = [] }

  unfoldable pub register_detail_provider :
      ToolSessionRegistry → ToolId → DetailProvider → ToolSessionRegistry
  register_detail_provider registry tool provider = record registry {
    detail_providers = HashMap.insert registry.detail_providers tool provider;
  }

  unfoldable pub unregister_detail_provider : ToolSessionRegistry → ToolId → ToolSessionRegistry
  unregister_detail_provider registry tool = record registry {
    detail_providers = HashMap.remove registry.detail_providers tool;
  }

  -- The test that ends `detail`.
  unfoldable pub own_detail :
      ToolId → String → ToolSessionDetail Value → Result (ToolSessionDetail Value)
  own_detail tool session_id detail =
      if not (detail.tool == tool) || not (detail.session_id == session_id)
      then err "provider 返回的 session detail 归属不匹配"
      else ok detail

  unfoldable pub detail :
      ToolSessionRegistry → ToolId → String → ℕ → Option String → Result (ToolSessionDetail Value)
  detail registry tool session_id limit cursor = elim (HashMap.get registry.detail_providers tool) [
    | none ↦ err "session detail provider 尚未就绪"
    | some provider ↦ provider tool session_id limit cursor >>= own_detail tool session_id
  ]

  -- The session found belongs to the conversation of the detail.
  unfoldable pub belongs_to : ToolSessionDetail Value → String → ToolSessionListItem → Bool
  belongs_to detail normalized_session_id session =
      (normalized_session_id_for session == normalized_session_id)
      || (session.parent_session_id == some detail.session_id)

  unfoldable pub detail_matches_runtime_session :
      ToolSessionRegistry → ToolSessionDetail Value → RuntimeStateItem → Bool
  detail_matches_runtime_session registry detail runtime =
      (runtime.session_id == detail.session_id)
      || is_some_and detail.normalized_session_id (λ normalized_session_id.
        ((detail.session_id == normalized_session_id)
          || (detail.session_scope == some ToolSessionScope.main))
        && is_some_and (find_session registry.snapshots detail.tool runtime.session_id)
            (belongs_to detail normalized_session_id))

  unfoldable pub runtime_for_detail :
      ToolSessionRegistry
      → ToolId
      → ToolSessionDetail Value
      → List RuntimeStateItem
      → Option RuntimeStateItem
  runtime_for_detail registry tool detail runtime_states = max_by compare_runtime_priority (
      retain
        (λ (item : RuntimeStateItem).
          (item.tool == tool) && detail_matches_runtime_session registry detail item)
        runtime_states)

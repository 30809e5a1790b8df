-- ===== src/Sessions/Queries.antt =====
-- crates/niuma-api/src/tool_sessions.rs: the queries of the registry, and the snapshots of the
-- sessions of each tool that it keeps.
use Prim.Native.Nat.{compare}
use Prim.Native.String as Text
use niu_ma_notifier.Prelude.HashMap
use niu_ma_notifier.Prelude.{
  ℕ, min, String, Bool, not, ◌&&◌, ◌||◌, Option, none, some, List, [], ◌∷◌, ◌++◌, map,
  if◌then◌else◌, ◌==◌, nat_eq, string_eq, option_eq, Result, ok, err,
}
use niu_ma_notifier.Prelude.Order.{Comparator, on, descending, then_by}
use niu_ma_notifier.Models.{ToolId, tool_eq, as_str, from_id}
use niu_ma_notifier.ToolSession.{scope_eq, ToolSessionListItem}
use niu_ma_notifier.Sessions.Item.{unwrap_or, canonical_tool_session_id}
use niu_ma_notifier.Sessions.Groups.{ProjectSessionGroup, RuntimeProjectSessionGroup}

pub record ToolSessionListQuery : Type 0 where
  pub tool : Option String
  pub include_subagents : Bool
  pub active_only : Bool
  pub limit : Option ℕ

pub record ToolSessionProjectGroupsQuery : Type 0 where
  pub tool : Option String
  pub project_path : Option String
  pub include_subagents : Bool
  pub page : Option ℕ
  pub page_size : Option ℕ

pub record ToolSessionProjectGroupPage : Type 0 where
  pub list : List ProjectSessionGroup
  pub page : ℕ
  pub page_size : ℕ
  pub total : ℕ

pub record RuntimeSessionProjectGroupPage : Type 0 where
  pub list : List RuntimeProjectSessionGroup
  pub page : ℕ
  pub page_size : ℕ
  pub total : ℕ

unfoldable pub capped_limit : Option ℕ → Result ℕ
capped_limit limit =
    let value = unwrap_or limit 100 in if value == 0 then err "limit 必须大于 0" else ok (min value 500)

unfoldable pub capped_page : Option ℕ → Result ℕ
capped_page page =
    let value = unwrap_or page 1 in if value == 0 then err "page 必须大于 0" else ok value

unfoldable pub capped_page_size : Option ℕ → Result ℕ
capped_page_size page_size =
    let value = unwrap_or page_size 20 in
    if value == 0 then err "page_size 必须大于 0" else ok (min value 100)

abbrev pub Snapshots : Type 0
Snapshots = List (ToolId × List ToolSessionListItem)

-- `flat_map(|sessions| sessions.iter().cloned())`.
unfoldable pub flatten {ℓ} : {A : Type ℓ} → List (List A) → List A
flatten [] = []
flatten (xs ∷ xss) = xs ++ flatten xss

abbrev pub to_list {ℓ} : {A : Type ℓ} → Option A → List A
to_list none = []
to_list (some a) = a ∷ []

unfoldable pub snapshots_for_tool : Snapshots → Option String → List (List ToolSessionListItem)
snapshots_for_tool snapshots none = HashMap.values snapshots
snapshots_for_tool snapshots (some tool_id) =
    if tool_id == "all"
    then HashMap.values snapshots
    else to_list (HashMap.get snapshots (from_id tool_id))

-- What a snapshot keeps of a reported session.
unfoldable pub adopt : ToolId → ToolSessionListItem → ToolSessionListItem
adopt tool session = record session {
  tool = tool;
  id = canonical_tool_session_id tool session.session_id;
}

unfoldable pub replace_snapshot : Snapshots → ToolId → List ToolSessionListItem → Snapshots
replace_snapshot snapshots tool sessions = HashMap.insert snapshots tool (map (adopt tool) sessions)

unfoldable pub clear_snapshot : Snapshots → ToolId → Snapshots
clear_snapshot snapshots tool = HashMap.remove snapshots tool

-- The comparator of `list`.
abbrev pub session_order : Comparator ToolSessionListItem
session_order =
    then_by (descending (on compare (λ (item : ToolSessionListItem). item.last_seen_at))) (
      then_by (descending (on compare (λ (item : ToolSessionListItem). item.modified_at))) (
        then_by (on Text.compare (λ (item : ToolSessionListItem). as_str item.tool)) (
          then_by (on Text.compare (λ (item : ToolSessionListItem). item.session_id))
            (on Text.compare (λ (item : ToolSessionListItem). item.id)))))

-- The two `filter`s of `list`.
unfoldable pub is_listed : ToolSessionListQuery → ToolSessionListItem → Bool
is_listed query item =
    (query.include_subagents || not item.is_subagent) && (not query.active_only || item.is_active)

-- The sessions of the snapshots that a query is about.
unfoldable pub snapshot_items : Snapshots → Option String → List ToolSessionListItem
snapshot_items snapshots tool = flatten (snapshots_for_tool snapshots tool)

-- ===== src/Sessions/Item.antt =====
-- crates/niuma-api/src/tool_sessions.rs: what is read off one session of a snapshot.
use niu_ma_notifier.Prelude.Text.{take_chars, format}
use niu_ma_notifier.Prelude.{
  ℕ, String, Option, none, some, List, [], ◌∷◌, if◌then◌else◌, filter_map,
}
use niu_ma_notifier.Prelude.Order.{on}
use niu_ma_notifier.Prelude.Sort.{min_by}
use Prim.Native.Nat.{compare}
use niu_ma_notifier.Models.{ToolId, as_str, DateTime}
use niu_ma_notifier.ToolSession.{ToolSessionScope, ToolSessionListItem}

abbrev pub or_else {ℓ} : {A : Type ℓ} → Option A → Option A → Option A
or_else none other = other
or_else (some a) other = some a

abbrev pub unwrap_or {ℓ} : {A : Type ℓ} → Option A → A → A
unwrap_or none default = default
unwrap_or (some a) default = a

unfoldable pub normalized_session_id_for : ToolSessionListItem → String
normalized_session_id_for item =
    unwrap_or
      (or_else item.normalized_session_id
        (if item.is_subagent then item.parent_session_id else none))
      item.session_id

unfoldable pub session_scope_for : ToolSessionListItem → ToolSessionScope
session_scope_for item =
    unwrap_or item.session_scope
      (if item.is_subagent then ToolSessionScope.subagent else ToolSessionScope.main)

unfoldable pub session_scope_sort_rank : ToolSessionListItem → ℕ
session_scope_sort_rank item = elim (session_scope_for item) [
  | ToolSessionScope.main ↦ 0
  | ToolSessionScope.subagent ↦ 1
]

unfoldable pub session_title : ToolSessionListItem → String
session_title item = format ("session-" ∷ take_chars 8 item.session_id ∷ [])

unfoldable pub canonical_tool_session_id : ToolId → String → String
canonical_tool_session_id tool session_id = format (as_str tool ∷ ":" ∷ session_id ∷ [])

pub record FirstUserMessageSummary : Type 0 where
  pub preview : String
  pub created_at : DateTime

unfoldable pub message_summary_from_item : ToolSessionListItem → Option FirstUserMessageSummary
message_summary_from_item item = elim item.first_user_message_preview [
  | none ↦ none
  | some preview ↦ elim item.first_user_message_at [
    | none ↦ none
    | some created_at ↦ some (record { preview = preview; created_at = created_at })
  ]
]

unfoldable pub normalized_first_user_message :
    ToolSessionListItem → List ToolSessionListItem → Option FirstUserMessageSummary
normalized_first_user_message primary raw_sessions = or_else (message_summary_from_item primary) (
    min_by (on compare (λ (message : FirstUserMessageSummary). message.created_at))
      (filter_map message_summary_from_item raw_sessions))

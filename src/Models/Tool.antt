-- ===== src/Models/Tool.antt =====
-- `ToolId` of crates/niuma-core/src/models.rs.
use niu_ma_notifier.Prelude.{
  String, ◌≡◌, ◌≢◌, refl, ◌↔◌, Bool, true, false, arith, if◌then◌else◌, PartialEq, ◌==◌, eq_iff, ap,
  string_eq,
}

pub data ToolId : Type 0 where
  codex claude_code : ToolId
  custom : String → ToolId

abbrev pub codex_id : String
codex_id = "codex"

abbrev pub claude_code_id : String
claude_code_id = "claude_code"

unfoldable pub as_str : ToolId → String
as_str codex = codex_id
as_str claude_code = claude_code_id
as_str (custom value) = value

unfoldable pub from_id : String → ToolId
from_id value =
    if value == codex_id
    then codex
    else (if value == claude_code_id then claude_code else custom value)

-- The derived `PartialEq`.
unfoldable pub tool_beq : ToolId → ToolId → Bool
tool_beq codex codex = true
tool_beq claude_code claude_code = true
tool_beq (custom a) (custom b) = a == b
tool_beq _ _ = false

pub tool_beq_iff : (a b : ToolId) → (tool_beq a b ≡ true) ↔ (a ≡ b)
unfolding tool_beq
tool_beq_iff (custom a) (custom b) =
    (λ h. ap custom ((eq_iff a b).0 h), λ h. (eq_iff a b).1 (ground arith))
tool_beq_iff codex _ = (λ h. ground arith, λ h. ground arith)
tool_beq_iff claude_code _ = (λ h. ground arith, λ h. ground arith)
tool_beq_iff (custom _) _ = (λ h. ground arith, λ h. ground arith)

instance abbrev pub tool_eq : PartialEq ToolId
tool_eq = record { is_equal = tool_beq; decides = tool_beq_iff }

-- No custom tool carries a built-in tool's name.
abbrev pub IsCanonical : ToolId → Type 0
IsCanonical codex = Unit {0}
IsCanonical claude_code = Unit {0}
IsCanonical (custom value) = (value ≢ codex_id) × (value ≢ claude_code_id)

-- A canonical tool is read back from its own text.
pub from_id-as_str : (t : ToolId) → IsCanonical t → from_id (as_str t) ≡ t
unfolding from_id as_str
from_id-as_str codex h = refl
from_id-as_str claude_code h = refl
from_id-as_str (custom s) h = ground (arith, eq_iff s codex_id, eq_iff s claude_code_id)

-- Every text is read as a canonical tool.
pub from_id-IsCanonical : (s : String) → IsCanonical (from_id s)
unfolding from_id
from_id-IsCanonical s = ground (arith, eq_iff s codex_id, eq_iff s claude_code_id)

-- Every text is the name of the tool that it is read as.
pub as_str-from_id : (s : String) → as_str (from_id s) ≡ s
unfolding from_id as_str
as_str-from_id s = ground (arith, eq_iff s codex_id, eq_iff s claude_code_id)

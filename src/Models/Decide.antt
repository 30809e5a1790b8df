-- ===== src/Models/Decide.antt =====
-- The derived `PartialEq` of whole states, as decisions.
use native.Mathlib.Decide.{ℕ_discrete}
use niu_ma_notifier.Prelude.{String, discrete_of_eq, string_eq}
use niu_ma_notifier.Models.Tool.{ToolId, tool_eq}
use niu_ma_notifier.Models.Stored.{StoredState}

String-discrete : Discrete String
String-discrete = discrete_of_eq

ToolId-discrete : Discrete ToolId
ToolId-discrete = discrete_of_eq

pub StoredState-discrete : Discrete StoredState
StoredState-discrete = hlevel (ℕ_discrete, String-discrete, ToolId-discrete)

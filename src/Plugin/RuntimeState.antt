-- ===== src/Plugin/RuntimeState.antt =====
-- crates/niuma-core/src/plugin/runtime_state.rs.
use niu_ma_notifier.Prelude.{String, Option, none, some}

pub data PluginRuntimeStatus : Type 0 where
  starting stopped stopping running failed : PluginRuntimeStatus

pub record PluginRuntimeState : Type 0 where
  pub status : PluginRuntimeStatus
  pub last_error : Option String

unfoldable pub starting_state : PluginRuntimeState
starting_state = record { status = PluginRuntimeStatus.starting; last_error = none }

unfoldable pub stopped_state : PluginRuntimeState
stopped_state = record { status = PluginRuntimeStatus.stopped; last_error = none }

unfoldable pub stopping_state : PluginRuntimeState
stopping_state = record { status = PluginRuntimeStatus.stopping; last_error = none }

unfoldable pub running_state : PluginRuntimeState
running_state = record { status = PluginRuntimeStatus.running; last_error = none }

unfoldable pub failed_state : String → PluginRuntimeState
failed_state error = record { status = PluginRuntimeStatus.failed; last_error = some error }

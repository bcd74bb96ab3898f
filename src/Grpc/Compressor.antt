-- ===== src/Grpc/Compressor.antt =====
-- The compressor of a heat pump, and in which state it may be given a command: the interface and
-- validateOHPCFAction of eebus-bridge/internal/grpc/ohpcf_service.go.
use eebus_ha_bridge.Prelude.{
  ℕ, Bool, true, false, not, ◌||◌, Option, none, some, if◌then◌else◌, Result, err, guard, ◌>>=◌,
}
use eebus_ha_bridge.Ski.{Text}
use eebus_ha_bridge.Time.{Time, Duration}
use eebus_ha_bridge.Float.{Float}
use eebus_ha_bridge.Registry.Catalog.{EntityResolution}
use eebus_ha_bridge.Grpc.Status.{
  Status, status, invalid_argument, failed_precondition, action_required, process_unavailable,
  not_running, not_paused, not_active, not_pausable, not_stoppable,
}
use eebus_ha_bridge.Grpc.Errors.{
  UsecaseError, errors_is, data_invalid, data_not_available, map_usecase_error,
  standard_usecase_error_classes,
}
use eebus_ha_bridge.Grpc.Handler.{mapped}

-- CompressorPowerConsumptionStateType of eebus-go, a text; any other one is `other_state`.
pub data CompressorState : Type 0 where
  state_available state_scheduled state_running state_paused state_completed state_stopped
        other_state :
      CompressorState

pub data OhpcfCommand : Type 0 where
  schedule : ℕ → Time → OhpcfCommand
  pause resume abort refresh_of : ℕ → OhpcfCommand

-- OHPCFController. A read whose value is looked at after an error too has both.
pub record OhpcfController : Type 0 where
  pub compatible_entity : Text → EntityResolution
  pub is_available : ℕ → Result UsecaseError Bool
  pub power_estimate : ℕ → Result UsecaseError Float
  pub power_max : ℕ → Result UsecaseError Float
  pub is_stoppable : ℕ → Bool × Option UsecaseError
  pub is_pausable : ℕ → Bool × Option UsecaseError
  pub state : ℕ → Result UsecaseError CompressorState
  pub start_time : ℕ → Result UsecaseError Time
  pub minimal_run : ℕ → Result UsecaseError Duration
  pub minimal_pause : ℕ → Result UsecaseError Duration
  pub outcome : OhpcfCommand → Option UsecaseError
  pub refreshes : Bool  -- it implements ohpcfRefreshController

unfoldable pub is_ohpcf_optional_absent : UsecaseError → Bool
is_ohpcf_optional_absent e = errors_is e data_invalid || errors_is e data_not_available

pub data OhpcfAction : Type 0 where
  action_schedule action_pause action_resume action_abort other_action : OhpcfAction

unfoldable pub is_running : CompressorState → Bool
is_running state_running = true
is_running _ = false

unfoldable pub is_paused : CompressorState → Bool
is_paused state_paused = true
is_paused _ = false

unfoldable pub is_active : CompressorState → Bool
is_active state_scheduled = true
is_active state_running = true
is_active state_paused = true
is_active _ = false

-- `if err != nil && !isOHPCFOptionalAbsent(err)`, and then the value.
unfoldable pub optional_flag : Bool × Option UsecaseError → Status → Result Status Unit
optional_flag (b, none) missing = guard (not b) missing
optional_flag (b, some e) missing =
    if not (is_ohpcf_optional_absent e)
    then err (map_usecase_error e standard_usecase_error_classes)
    else guard (not b) missing

abbrev pub validate_schedule : OhpcfController → ℕ → Result Status Unit
validate_schedule c entity = do
  available ← mapped (c.is_available entity)
  guard (not available) (status failed_precondition process_unavailable)

abbrev pub validate_pause : OhpcfController → ℕ → Result Status Unit
validate_pause c entity = do
  state ← mapped (c.state entity)
  _ ← guard (not (is_running state)) (status failed_precondition not_running)
  optional_flag (c.is_pausable entity) (status failed_precondition not_pausable)

abbrev pub validate_resume : OhpcfController → ℕ → Result Status Unit
validate_resume c entity = do
  state ← mapped (c.state entity)
  guard (not (is_paused state)) (status failed_precondition not_paused)

abbrev pub validate_abort : OhpcfController → ℕ → Result Status Unit
validate_abort c entity = do
  state ← mapped (c.state entity)
  _ ← guard (not (is_active state)) (status failed_precondition not_active)
  optional_flag (c.is_stoppable entity) (status failed_precondition not_stoppable)

unfoldable pub validate_ohpcf_action : OhpcfController → ℕ → OhpcfAction → Result Status Unit
validate_ohpcf_action c entity action_schedule = validate_schedule c entity
validate_ohpcf_action c entity action_pause = validate_pause c entity
validate_ohpcf_action c entity action_resume = validate_resume c entity
validate_ohpcf_action c entity action_abort = validate_abort c entity
validate_ohpcf_action c entity other_action = err (status invalid_argument action_required)

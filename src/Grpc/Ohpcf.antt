-- ===== src/Grpc/Ohpcf.antt =====
-- The flexibility of a heat pump's compressor: eebus-bridge/internal/grpc/ohpcf_service.go. The use
-- case's wrapper, an interface of the service, is a parameter. A mask of reads is the test of
-- which of the nine fields is in it.
pub mod Payloads
pub mod Permitted
mod Tests
use eebus_ha_bridge.Prelude.{
  ℕ, ℤ, pos, Bool, true, false, not, ◌&&◌, ◌||◌, Option, none, some, List, [], ◌∷◌, if◌then◌else◌,
  Result, ok, err, is_ok, guard,
}
use eebus_ha_bridge.Ski.{Text}
use eebus_ha_bridge.Time.{Time, Duration, zero_time}
use eebus_ha_bridge.Float.{Float}
use eebus_ha_bridge.Bus.{
  Event, EventType, ohpcf_use_case_support_updated, ohpcf_consumption_state_updated,
  ohpcf_consumption_stoppable_updated, ohpcf_consumption_pausable_updated,
  ohpcf_consumption_start_time_updated, ohpcf_requested_power_estimate_updated,
  ohpcf_requested_power_max_updated, ohpcf_minimal_run_duration_updated,
  ohpcf_minimal_pause_duration_updated,
}
use eebus_ha_bridge.Registry.State.{Registry, Capability, ohpcf}
use eebus_ha_bridge.Registry.Catalog.{EntityResolution}
use eebus_ha_bridge.Grpc.Status.{
  Status, status, invalid_argument, failed_precondition, unavailable,
  temporarily_unavailable_message, action_required, process_unavailable, not_running, not_paused,
  not_active, not_pausable, not_stoppable, DeviceRequest, require_device_request,
  normalize_read_ski, require_write_ski,
}
use eebus_ha_bridge.Grpc.Errors.{
  UsecaseError, errors_is, data_invalid, data_not_available, map_usecase_error,
  standard_usecase_error_classes,
}
use eebus_ha_bridge.Grpc.Handler.{
  Handler, ServiceState, checked, ◌>>=◌, ◌>>◌, record_read, send, initialized, mapped,
  resolve_compatible_entity,
}
use eebus_ha_bridge.Grpc.Lpc.{seconds_of}
use eebus_ha_bridge.Grpc.Compressor.{
  CompressorState, other_state, OhpcfCommand, schedule, pause, resume, abort, refresh_of,
  OhpcfController, is_ohpcf_optional_absent, OhpcfAction, action_schedule, action_pause,
  action_resume, action_abort, other_action, validate_ohpcf_action,
}

-- ohpcfReadMask
pub data OhpcfField : Type 0 where
  read_available read_power_estimate read_power_max read_stoppable read_pausable read_state
        read_minimal_run read_minimal_pause read_start_time :
      OhpcfField

abbrev pub all_fields : List OhpcfField
all_fields =
    read_available ∷ read_power_estimate ∷ read_power_max ∷ read_stoppable ∷ read_pausable
    ∷ read_state ∷ read_minimal_run ∷ read_minimal_pause ∷ read_start_time ∷ []

-- CompressorFlexibility; the state is that of eebus-go, and `other_state` where none is set.
pub record CompressorFlexibility : Type 0 where
  pub available : Bool
  pub requested_power_estimate : Option Float
  pub requested_power_max : Option Float
  pub stoppable : Bool
  pub pausable : Bool
  pub state : CompressorState
  pub minimal_run_seconds : ℤ
  pub minimal_pause_seconds : ℤ
  pub start_time : Option Time

-- The value of a read, and whether its error means that there is none.
abbrev pub read_value : {A : Type 0} → Result UsecaseError A → Option A
read_value (ok a) = some a
read_value (err e) = none

abbrev pub is_absent : {A : Type 0} → Result UsecaseError A → Bool
is_absent (ok a) = false
is_absent (err e) = is_ohpcf_optional_absent e

abbrev pub or_default : {A : Type 0} → A → Result UsecaseError A → A
or_default d (ok a) = a
or_default d (err e) = d

abbrev pub as_result : Bool × Option UsecaseError → Result UsecaseError Bool
as_result (b, none) = ok b
as_result (b, some e) = err e

abbrev pub seconds_or_zero : Result UsecaseError Duration → ℤ
seconds_or_zero (ok d) = seconds_of d
seconds_or_zero (err e) = pos 0

unfoldable pub build_flexibility : OhpcfController → ℕ → CompressorFlexibility
build_flexibility c e = record {
  available = or_default false (c.is_available e);
  requested_power_estimate = read_value (c.power_estimate e);
  requested_power_max = read_value (c.power_max e);
  stoppable = or_default false (as_result (c.is_stoppable e));
  pausable = or_default false (as_result (c.is_pausable e));
  state = or_default other_state (c.state e);
  minimal_run_seconds = seconds_or_zero (c.minimal_run e);
  minimal_pause_seconds = seconds_or_zero (c.minimal_pause e);
  start_time = read_value (c.start_time e);
}

-- The masks `reads` and `clears` of buildFlexibility.
unfoldable pub reads : OhpcfController → ℕ → OhpcfField → Bool
reads c e read_available = is_ok (c.is_available e)
reads c e read_power_estimate = is_ok (c.power_estimate e)
reads c e read_power_max = is_ok (c.power_max e)
reads c e read_stoppable = is_ok (as_result (c.is_stoppable e))
reads c e read_pausable = is_ok (as_result (c.is_pausable e))
reads c e read_state = is_ok (c.state e)
reads c e read_minimal_run = is_ok (c.minimal_run e)
reads c e read_minimal_pause = is_ok (c.minimal_pause e)
reads c e read_start_time = is_ok (c.start_time e)

unfoldable pub clears : OhpcfController → ℕ → OhpcfField → Bool
clears c e read_available = false
clears c e read_power_estimate = is_absent (c.power_estimate e)
clears c e read_power_max = is_absent (c.power_max e)
clears c e read_stoppable = is_absent (as_result (c.is_stoppable e))
clears c e read_pausable = is_absent (as_result (c.is_pausable e))
clears c e read_state = false
clears c e read_minimal_run = is_absent (c.minimal_run e)
clears c e read_minimal_pause = is_absent (c.minimal_pause e)
clears c e read_start_time = is_absent (c.start_time e)

abbrev pub all_of : (OhpcfField → Bool) → List OhpcfField → Bool
all_of f [] = true
all_of f (x ∷ l) = f x && all_of f l

abbrev pub any_of : (OhpcfField → Bool) → List OhpcfField → Bool
any_of f [] = false
any_of f (x ∷ l) = f x || any_of f l

-- ohpcfCoreReadMask
abbrev pub core_fields : List OhpcfField
core_fields = read_available ∷ read_state ∷ []

abbrev pub ohpcf_resolver : Option OhpcfController → Option (Text → EntityResolution)
ohpcf_resolver none = none
ohpcf_resolver (some c) = some c.compatible_entity

-- resolveEntity
unfoldable pub resolve_ohpcf_entity : Option OhpcfController → Time → Text → Handler OhpcfCommand ℕ
resolve_ohpcf_entity controller now ski =
    resolve_compatible_entity now ski ohpcf (ohpcf_resolver controller)

unfoldable pub get_compressor_flexibility :
    Option OhpcfController
    → Time
    → Option DeviceRequest
    → Handler OhpcfCommand CompressorFlexibility
get_compressor_flexibility controller now req = do
  r ← checked (require_device_request req)
  _ ← checked (normalize_read_ski r.ski)
  c ← checked (initialized controller)
  entity ← resolve_ohpcf_entity controller now r.ski
  record_read now r.ski ohpcf (not (all_of (reads c entity) core_fields))
  _ ← checked (
      guard (not (all_of (reads c entity) core_fields))
        (status unavailable temporarily_unavailable_message))
  checked (ok (build_flexibility c entity))

-- ControlCompressorRequest; its start time is that of AsTime.
pub record ControlCompressorRequest : Type 0 where
  pub ski : Text
  pub action : OhpcfAction
  pub start_time : Option Time

abbrev pub start_or_zero : Option Time → Time
start_or_zero none = zero_time
start_or_zero (some t) = t

-- The switch of ControlCompressorFlexibility.
unfoldable pub perform : OhpcfController → ℕ → Option Time → OhpcfAction → Handler OhpcfCommand Unit
perform c entity start action_schedule = send c.outcome (schedule entity (start_or_zero start))
perform c entity start action_pause = send c.outcome (pause entity)
perform c entity start action_resume = send c.outcome (resume entity)
perform c entity start action_abort = send c.outcome (abort entity)
perform c entity start other_action = checked (err (status invalid_argument action_required))

unfoldable pub control_compressor_flexibility :
    Option OhpcfController → Time → Option ControlCompressorRequest → Handler OhpcfCommand Unit
control_compressor_flexibility controller now req = do
  r ← checked (require_device_request req)
  _ ← checked (require_write_ski r.ski)
  c ← checked (initialized controller)
  entity ← resolve_ohpcf_entity controller now r.ski
  _ ← checked (validate_ohpcf_action c entity r.action)
  perform c entity r.start_time r.action

-- RefreshCompressorFlexibility, which gives nothing back.
unfoldable pub refresh_compressor_flexibility :
    Option OhpcfController → Time → Text → ServiceState OhpcfCommand → ServiceState OhpcfCommand
refresh_compressor_flexibility none now ski s = s
refresh_compressor_flexibility (some c) now ski s =
    refreshed (resolve_ohpcf_entity (some c) now ski s)
  where
    refreshed : ServiceState OhpcfCommand × Result Status ℕ → ServiceState OhpcfCommand
    refreshed (s', err e) = s'
    refreshed (s', ok entity) =
        if c.refreshes then record s' { commands = refresh_of entity ∷ s'.commands } else s'

-- ===== src/Grpc/Ohpcf/Tests.antt =====
-- A compressor that runs and is paused.
use eebus_ha_bridge.Prelude.{pos, true, false, none, some, [], ◌∷◌, ok, err}
use eebus_ha_bridge.Ski.{codes}
use eebus_ha_bridge.Float.{float_of}
use eebus_ha_bridge.Registry.State.{new_registry}
use eebus_ha_bridge.Grpc.Errors.{data_not_available}
use eebus_ha_bridge.Grpc.Handler.{ServiceState}
use eebus_ha_bridge.Grpc.Handler.Sent.{Sends}
use eebus_ha_bridge.Grpc.Compressor.{OhpcfController, OhpcfCommand, state_running, action_pause}
use eebus_ha_bridge.Grpc.Ohpcf.{ControlCompressorRequest, control_compressor_flexibility}
use eebus_ha_bridge.Grpc.Ohpcf.Permitted.{IsPermitted, control_compressor_flexibility-IsPermitted}

abbrev compressor : OhpcfController
compressor = record {
  compatible_entity = λ ski. record { entity = some 5; device_count = 1 };
  is_available = λ e. ok true;
  power_estimate = λ e. ok (float_of 1500);
  power_max = λ e. err (data_not_available ∷ []);
  is_stoppable = λ e. (false, some (data_not_available ∷ []));
  is_pausable = λ e. (true, none);
  state = λ e. ok state_running;
  start_time = λ e. ok (pos 3);
  minimal_run = λ e. ok (pos 0);
  minimal_pause = λ e. ok (pos 0);
  outcome = λ c. none;
  refreshes = true;
}

abbrev pause_request : ControlCompressorRequest
pause_request = record {
  ski = codes "0123456789abcdef0123456789abcdef01234567";
  action = action_pause;
  start_time = none;
}

abbrev no_commands : ServiceState OhpcfCommand
no_commands = record { registry = some new_registry; commands = [] }

control_compressor_flexibility-IsPermitted_example :
    Sends
      (IsPermitted (some compressor) (some pause_request))
      no_commands
      (control_compressor_flexibility (some compressor) (pos 1) (some pause_request) no_commands)
control_compressor_flexibility-IsPermitted_example =
    control_compressor_flexibility-IsPermitted (some compressor) (pos 1) (some pause_request)
      no_commands

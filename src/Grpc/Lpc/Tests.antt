-- ===== src/Grpc/Lpc/Tests.antt =====
-- A heat pump whose consumption is limited.
use eebus_ha_bridge.Prelude.{◌*◌, ◌^◌, refl, pos, true, none, some, [], ◌∷◌, ◌≡◌, ok, err, arith}
use eebus_ha_bridge.Ski.{
  codes, valid_ski, all_hex, is_hex, normalize_ski, remove_separators, trim_space, trim_left,
  trim_right, is_space, is_separator, to_upper,
}
use eebus_ha_bridge.Float.{float_of}
use eebus_ha_bridge.Registry.State.{new_registry}
use eebus_ha_bridge.Grpc.Errors.{data_not_available}
use eebus_ha_bridge.Grpc.Handler.{ServiceState}
use eebus_ha_bridge.Grpc.Handler.Sent.{Sends}
use eebus_ha_bridge.Grpc.Lpc.{
  write_limit, LpcController, LpcCommand, WriteLoadLimitRequest, duration_of, seconds_of,
  write_consumption_limit,
}
use eebus_ha_bridge.Grpc.Lpc.{WriteFailsafeLimitRequest, write_failsafe_limit}
use eebus_ha_bridge.Grpc.Lpc.Written.{
  IsLimitOf, IsFailsafeOf, write_consumption_limit-IsLimitOf, write_failsafe_limit-IsFailsafeOf,
}
use eebus_ha_bridge.Grpc.Push.Bounds.{is_non_negative}
use eebus_ha_bridge.Grpc.Lpc.Delivered.{write_consumption_limit-write_limit}
use eebus_ha_bridge.Grpc.Lpc.Seconds.{seconds_of-duration_of}

abbrev heat_pump : LpcController
heat_pump = record {
  compatible_entity_for_scenario = λ ski scenario. record { entity = some 3; device_count = 1 };
  consumption_limit = λ e. err (data_not_available ∷ []);
  failsafe_power = λ e. ok (float_of 4200);
  failsafe_duration = λ e. ok (pos 7_200_000_000_000);
  outcome = λ c. none;
  is_heartbeat_running = true;
  is_heartbeat_within_duration = λ e. true;
}

abbrev limit_request : WriteLoadLimitRequest
limit_request = record {
  ski = codes "0123456789abcdef0123456789abcdef01234567";
  value_watts = float_of 4200;
  duration_seconds = pos 900;
  is_active = true;
}

full_ski-valid : valid_ski (normalize_ski limit_request.ski) ≡ true
unfolding valid_ski all_hex is_hex normalize_ski remove_separators trim_space trim_left trim_right
    is_space is_separator to_upper
full_ski-valid = refl

abbrev idle : ServiceState LpcCommand
idle = record { registry = some new_registry; commands = [] }

write_consumption_limit-IsLimitOf_example :
    Sends
      (IsLimitOf (some heat_pump) (some limit_request))
      idle
      (write_consumption_limit (some heat_pump) (pos 1) (some limit_request) idle)
write_consumption_limit-IsLimitOf_example =
    write_consumption_limit-IsLimitOf (some heat_pump) (pos 1) (some limit_request) idle

abbrev failsafe_request : WriteFailsafeLimitRequest
failsafe_request = record {
  ski = limit_request.ski;
  value_watts = float_of 4200;
  duration_minimum_seconds = pos 7200;
}

write_failsafe_limit-IsFailsafeOf_example :
    Sends
      (IsFailsafeOf (some heat_pump) (some failsafe_request))
      idle
      (write_failsafe_limit (some heat_pump) (pos 1) (some failsafe_request) idle)
write_failsafe_limit-IsFailsafeOf_example =
    write_failsafe_limit-IsFailsafeOf (some heat_pump) (pos 1) (some failsafe_request) idle

seconds_of-duration_of_example : seconds_of (duration_of (pos 900)) ≡ pos 900
seconds_of-duration_of_example = seconds_of-duration_of 900 (omega arith)

write_consumption_limit-write_limit_example :
    (write_consumption_limit (some heat_pump) (pos 1) (some limit_request) idle).0.commands
    ≡ write_limit 3 (record {
      value = float_of 4200;
      duration = pos (900 * 1_000_000_000);
      is_active = true;
      is_changeable = true;
    })
      ∷ []
write_consumption_limit-write_limit_example =
    write_consumption_limit-write_limit heat_pump (pos 1) limit_request idle 3 900 full_ski-valid
      (is_non_negative (4200 * 2 ^ 1074)) refl (omega arith) refl

-- ===== src/Grpc/Lpc.antt =====
-- The limits of power consumption: eebus-bridge/internal/grpc/lpc_service.go. The use case's
-- wrapper, an interface of the service, is a parameter, with what eebus-go answers as part of it.
pub mod Payloads
pub mod Written
pub mod Delivered
pub mod Seconds
mod Tests
use eebus_ha_bridge.Prelude.{
  ℕ, zero, suc, ◌*◌, ◌/◌, ◌^◌, ◌+◌, ◌-◌, ◌%◌, ℤ, pos, negsuc, ltb_ℤ, Bool, true, false, not, ◌&&◌,
  Option, none, some, if◌then◌else◌, Result, ok, err, is_ok, guard,
}
use eebus_ha_bridge.Ski.{Text}
use eebus_ha_bridge.Time.{Time, Duration}
use eebus_ha_bridge.Float.{Float}
use eebus_ha_bridge.Bus.{
  Event, EventType, lpc_limit_updated, lpc_failsafe_power_updated, lpc_failsafe_duration_updated,
  lpc_heartbeat_updated,
}
use eebus_ha_bridge.Recovery.{int64_of}
use eebus_ha_bridge.Registry.State.{Capability, lpc, failsafe, heartbeat}
use eebus_ha_bridge.Registry.Catalog.{EntityResolution}
use eebus_ha_bridge.Grpc.Status.{
  Status, status, invalid_argument, negative, DeviceRequest, require_device_request,
  normalize_read_ski, require_write_ski,
}
use eebus_ha_bridge.Grpc.Errors.{UsecaseError}
use eebus_ha_bridge.Grpc.Validate.{non_negative}
use eebus_ha_bridge.Grpc.Handler.{
  Handler, checked, ◌>>=◌, ◌>>◌, record_read, send, initialized, mapped, resolve_compatible_entity,
  ServiceState,
}

-- LoadLimit of eebus-go
pub record LoadLimit : Type 0 where
  pub value : Float
  pub duration : Duration
  pub is_active : Bool
  pub is_changeable : Bool

pub data LpcCommand : Type 0 where
  write_limit : ℕ → LoadLimit → LpcCommand
  write_failsafe_power : ℕ → Float → LpcCommand
  write_failsafe_duration : ℕ → Duration → LpcCommand
  start_heartbeat_for : Text → LpcCommand
  stop_heartbeat_of_bridge : LpcCommand

-- lpcController: its reads, and the error that it answers a command with.
pub record LpcController : Type 0 where
  pub compatible_entity_for_scenario : Text → ℕ → EntityResolution
  pub consumption_limit : ℕ → Result UsecaseError LoadLimit
  pub failsafe_power : ℕ → Result UsecaseError Float
  pub failsafe_duration : ℕ → Result UsecaseError Duration
  pub outcome : LpcCommand → Option UsecaseError
  pub is_heartbeat_running : Bool
  pub is_heartbeat_within_duration : ℕ → Bool

-- The messages of the interface: LoadLimit, FailsafeLimit and HeartbeatStatus.
pub record LoadLimitMessage : Type 0 where
  pub value_watts : Float
  pub duration_seconds : ℤ
  pub is_active : Bool
  pub is_changeable : Bool

pub record FailsafeLimit : Type 0 where
  pub value_watts : Float
  pub duration_minimum_seconds : ℤ

pub record HeartbeatStatus : Type 0 where
  pub running : Bool
  pub within_duration : Bool

pub record WriteLoadLimitRequest : Type 0 where
  pub ski : Text
  pub value_watts : Float
  pub duration_seconds : ℤ
  pub is_active : Bool

pub record WriteFailsafeLimitRequest : Type 0 where
  pub ski : Text
  pub value_watts : Float
  pub duration_minimum_seconds : ℤ

-- time.Second
abbrev pub second : ℕ
second = 1_000_000_000

-- The residue modulo 2^64 of an integer.
abbrev pub residue : ℤ → ℕ
residue (pos n) = n % 2 ^ 64
residue (negsuc n) = 2 ^ 64 - 1 - n % 2 ^ 64

-- `time.Duration(n) * time.Second`, a product of int64, which wraps.
unfoldable pub duration_of : ℤ → Duration
duration_of n = int64_of ((residue n * second) % 2 ^ 64)

abbrev pub minus : ℕ → ℤ
minus zero = pos zero
minus (suc n) = negsuc n

-- `int64(d / time.Second)`, which rounds toward zero.
unfoldable pub seconds_of : Duration → ℤ
seconds_of (pos n) = pos (n / second)
seconds_of (negsuc n) = minus ((n + 1) / second)

-- nonNegative of `float64(n)`: the conversion of an int64 is finite and keeps the sign.
unfoldable pub non_negative_seconds : ℤ → Result Status Unit
non_negative_seconds n = guard (ltb_ℤ n (pos 0)) (status invalid_argument negative)

unfoldable pub convert_load_limit : LoadLimit → LoadLimitMessage
convert_load_limit l = record {
  value_watts = l.value;
  duration_seconds = seconds_of l.duration;
  is_active = l.is_active;
  is_changeable = l.is_changeable;
}

unfoldable pub scenario_of : Capability → ℕ
scenario_of failsafe = 2
scenario_of heartbeat = 3
scenario_of _ = 1

abbrev pub resolver_of : Option LpcController → Capability → Option (Text → EntityResolution)
resolver_of none capability = none
resolver_of (some c) capability =
    some (λ ski. c.compatible_entity_for_scenario ski (scenario_of capability))

unfoldable pub resolve_capability_entity :
    Option LpcController → Time → Text → Capability → Handler LpcCommand ℕ
resolve_capability_entity controller now ski capability =
    resolve_compatible_entity now ski capability (resolver_of controller capability)

unfoldable pub get_consumption_limit :
    Option LpcController → Time → Option DeviceRequest → Handler LpcCommand LoadLimitMessage
get_consumption_limit controller now req = do
  r ← checked (require_device_request req)
  _ ← checked (normalize_read_ski r.ski)
  c ← checked (initialized controller)
  entity ← resolve_capability_entity controller now r.ski lpc
  record_read now r.ski lpc (not (is_ok (c.consumption_limit entity)))
  limit ← checked (mapped (c.consumption_limit entity))
  checked (ok (convert_load_limit limit))

unfoldable pub write_consumption_limit :
    Option LpcController → Time → Option WriteLoadLimitRequest → Handler LpcCommand Unit
write_consumption_limit controller now req = do
  r ← checked (require_device_request req)
  _ ← checked (require_write_ski r.ski)
  _ ← checked (non_negative r.value_watts)
  _ ← checked (non_negative_seconds r.duration_seconds)
  c ← checked (initialized controller)
  entity ← resolve_capability_entity controller now r.ski lpc
  send c.outcome (
      write_limit entity (record {
        value = r.value_watts;
        duration = duration_of r.duration_seconds;
        is_active = r.is_active;
        is_changeable = true;
      }))

-- A read of which an error is recorded at once.
unfoldable pub read_failsafe :
    {A : Type 0} → Time → Text → Result UsecaseError A → Handler LpcCommand A
read_failsafe now ski (ok a) = checked (ok a)
read_failsafe now ski (err e) = do record_read now ski failsafe true; checked (mapped (err e))

unfoldable pub get_failsafe_limit :
    Option LpcController → Time → Option DeviceRequest → Handler LpcCommand FailsafeLimit
get_failsafe_limit controller now req = do
  r ← checked (require_device_request req)
  _ ← checked (normalize_read_ski r.ski)
  c ← checked (initialized controller)
  entity ← resolve_capability_entity controller now r.ski failsafe
  value ← read_failsafe now r.ski (c.failsafe_power entity)
  duration ← read_failsafe now r.ski (c.failsafe_duration entity)
  record_read now r.ski failsafe false
  checked (ok (record { value_watts = value; duration_minimum_seconds = seconds_of duration }))

-- The duration is written where it is positive.
unfoldable pub write_duration : LpcController → ℕ → ℤ → Handler LpcCommand Unit
write_duration c entity seconds =
    if ltb_ℤ (pos 0) seconds
    then send c.outcome (write_failsafe_duration entity (duration_of seconds))
    else checked (ok tt)

unfoldable pub write_failsafe_limit :
    Option LpcController → Time → Option WriteFailsafeLimitRequest → Handler LpcCommand Unit
write_failsafe_limit controller now req = do
  r ← checked (require_device_request req)
  _ ← checked (require_write_ski r.ski)
  _ ← checked (non_negative r.value_watts)
  _ ← checked (non_negative_seconds r.duration_minimum_seconds)
  c ← checked (initialized controller)
  entity ← resolve_capability_entity controller now r.ski failsafe
  _ ← send c.outcome (write_failsafe_power entity r.value_watts)
  write_duration c entity r.duration_minimum_seconds

unfoldable pub start_heartbeat :
    Option LpcController → Option DeviceRequest → Handler LpcCommand Unit
start_heartbeat controller req = do
  r ← checked (require_device_request req)
  _ ← checked (require_write_ski r.ski)
  c ← checked (initialized controller)
  send c.outcome (start_heartbeat_for r.ski)

unfoldable pub stop_heartbeat :
    Option LpcController → Option DeviceRequest → Handler LpcCommand Unit
stop_heartbeat controller req = do
  r ← checked (require_device_request req)
  _ ← checked (require_write_ski r.ski)
  c ← checked (initialized controller)
  send c.outcome stop_heartbeat_of_bridge

unfoldable pub snapshot_heartbeat :
    Option LpcController → Time → Text → Handler LpcCommand HeartbeatStatus
snapshot_heartbeat controller now ski = do
  c ← checked (initialized controller)
  entity ← resolve_capability_entity controller now ski heartbeat
  record_read now ski heartbeat false
  checked (
      ok (record {
        running = c.is_heartbeat_running;
        within_duration = c.is_heartbeat_within_duration entity;
      }))

unfoldable pub get_heartbeat_status :
    Option LpcController → Time → Option DeviceRequest → Handler LpcCommand HeartbeatStatus
get_heartbeat_status controller now req = do
  r ← checked (require_device_request req)
  _ ← checked (normalize_read_ski r.ski)
  snapshot_heartbeat controller now r.ski

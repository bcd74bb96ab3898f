-- ===== src/Grpc/Lpc/Payloads.antt =====
-- The payloads of LPC events: attachLPCPayload and the conversion of SubscribeLPCEvents in
-- eebus-bridge/internal/grpc/lpc_service.go.
use eebus_ha_bridge.Prelude.{not, ◌&&◌, Option, none, some, Result, ok, err, is_ok}
use eebus_ha_bridge.Ski.{Text}
use eebus_ha_bridge.Time.{Time}
use eebus_ha_bridge.Bus.{
  Event, EventType, lpc_limit_updated, lpc_failsafe_power_updated, lpc_failsafe_duration_updated,
  lpc_heartbeat_updated,
}
use eebus_ha_bridge.Registry.State.{lpc, failsafe}
use eebus_ha_bridge.Grpc.Status.{Status}
use eebus_ha_bridge.Grpc.Handler.{Handler, checked, ◌>>=◌, ◌>>◌, record_read, mapped, ServiceState}
use eebus_ha_bridge.Grpc.Lpc.{
  FailsafeLimit, HeartbeatStatus, LoadLimitMessage, LpcCommand, LpcController, convert_load_limit,
  resolve_capability_entity, seconds_of, snapshot_heartbeat,
}

pub data LpcServiceEventType : Type 0 where
  limit_updated failsafe_updated heartbeat_timeout : LpcServiceEventType

-- The kind of LPC event that an event of the bus is, if any.
unfoldable pub lpc_service_event_type : EventType → Option LpcServiceEventType
lpc_service_event_type lpc_limit_updated = some limit_updated
lpc_service_event_type lpc_failsafe_power_updated = some failsafe_updated
lpc_service_event_type lpc_failsafe_duration_updated = some failsafe_updated
lpc_service_event_type lpc_heartbeat_updated = some heartbeat_timeout
lpc_service_event_type _ = none

pub data LpcPayload : Type 0 where
  limit_payload : LoadLimitMessage → LpcPayload
  failsafe_payload : FailsafeLimit → LpcPayload
  heartbeat_payload : HeartbeatStatus → LpcPayload

-- What a handler gives, where there is no error.
abbrev pub quietly :
    {A : Type 0} → ServiceState LpcCommand × Result Status A → ServiceState LpcCommand × Option A
quietly (s, ok a) = (s, some a)
quietly (s, err e) = (s, none)

unfoldable pub limit_update : LpcController → Time → Text → Handler LpcCommand LpcPayload
limit_update c now ski = do
  entity ← resolve_capability_entity (some c) now ski lpc
  record_read now ski lpc (not (is_ok (c.consumption_limit entity)))
  limit ← checked (mapped (c.consumption_limit entity))
  checked (ok (limit_payload (convert_load_limit limit)))

unfoldable pub failsafe_update : LpcController → Time → Text → Handler LpcCommand LpcPayload
failsafe_update c now ski = do
  entity ← resolve_capability_entity (some c) now ski failsafe
  record_read now ski failsafe
      (not (is_ok (c.failsafe_power entity) && is_ok (c.failsafe_duration entity)))
  value ← checked (mapped (c.failsafe_power entity))
  duration ← checked (mapped (c.failsafe_duration entity))
  checked (
      ok (
        failsafe_payload
          (record { value_watts = value; duration_minimum_seconds = seconds_of duration })))

unfoldable pub heartbeat_update : LpcController → Time → Text → Handler LpcCommand LpcPayload
heartbeat_update c now ski = do
  beat ← snapshot_heartbeat (some c) now ski
  checked (ok (heartbeat_payload beat))

-- attachLPCPayload: the payload of an event, where it can be read.
unfoldable pub attach_lpc_payload :
    Option LpcController
    → Time
    → Text
    → LpcServiceEventType
    → ServiceState LpcCommand
    → ServiceState LpcCommand × Option LpcPayload
attach_lpc_payload none now ski type s = (s, none)
attach_lpc_payload (some c) now ski limit_updated s = quietly (limit_update c now ski s)
attach_lpc_payload (some c) now ski failsafe_updated s = quietly (failsafe_update c now ski s)
attach_lpc_payload (some c) now ski heartbeat_timeout s = quietly (heartbeat_update c now ski s)

pub record LpcServiceEvent : Type 0 where
  pub ski : Text
  pub event_type : LpcServiceEventType
  pub payload : Option LpcPayload

abbrev pub with_payload :
    Text
    → LpcServiceEventType
    → ServiceState LpcCommand × Option LpcPayload
    → ServiceState LpcCommand × Option LpcServiceEvent
with_payload ski type (s, payload) =
    (s, some (record { ski = ski; event_type = type; payload = payload }))

-- The conversion of SubscribeLPCEvents, from an event of the bus.
unfoldable pub convert_lpc_event :
    Option LpcController
    → Time
    → Event
    → ServiceState LpcCommand
    → ServiceState LpcCommand × Option LpcServiceEvent
convert_lpc_event controller now evt s = elim (lpc_service_event_type evt.type) [
  | none ↦ (s, none)
  | some type ↦ with_payload evt.ski type (attach_lpc_payload controller now evt.ski type s)
]

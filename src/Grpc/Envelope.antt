-- ===== src/Grpc/Envelope.antt =====
-- The messages of the device state stream: deviceStateEnvelope and the first message of
-- device_state_stream.go in eebus-bridge/internal/grpc.
pub mod Laws
use eebus_ha_bridge.Prelude.{ℕ, Bool, true, false, Option, none, some, if◌then◌else◌}
use eebus_ha_bridge.Store.{is_some}
use eebus_ha_bridge.Ski.{Text}
use eebus_ha_bridge.Time.{Time}
use eebus_ha_bridge.Bus.{
  Event, EventType, device_classification_updated, device_connected, device_disconnected,
  device_trust_removed, lpc_limit_updated, lpc_failsafe_power_updated,
  lpc_failsafe_duration_updated, lpc_heartbeat_updated, dhw_setpoint_updated,
  dhw_system_function_updated, room_heating_setpoint_updated, room_temperature_updated,
  room_heating_system_function_updated, ohpcf_consumption_state_updated,
  ohpcf_consumption_stoppable_updated, ohpcf_consumption_pausable_updated,
  ohpcf_consumption_start_time_updated, ohpcf_requested_power_estimate_updated,
  ohpcf_requested_power_max_updated, ohpcf_minimal_run_duration_updated,
  ohpcf_minimal_pause_duration_updated, monitoring_power_updated,
  monitoring_power_per_phase_updated, monitoring_energy_consumed_updated,
  monitoring_energy_produced_updated, monitoring_currents_per_phase_updated,
  monitoring_voltage_per_phase_updated, monitoring_frequency_updated,
  monitoring_flow_temperature_updated, monitoring_return_temperature_updated,
  monitoring_device_operating_state_updated, dhw_temperature_updated, outdoor_temperature_updated,
}
use eebus_ha_bridge.Grpc.Events.{
  DeviceStateEventClass, classify_device_state_event, state_delta, capability_delta,
  provider_acknowledgement, resync_class, ignored, ResyncReason, initial_state_required,
  event_dropped, unclassified_event, EventAvailability, availability_unspecified, available,
  event_availability, DeviceEvent, device_event_provider_updated, device_event_type, LpcEvent,
  LpcEventType, lpc_event_type, DhwEvent, DhwSystemFunctionEvent, RoomHeatingEvent,
  room_heating_event_type, OhpcfEvent, ohpcf_event_type, ohpcf_update_field, MeasurementEvent,
  MeasurementEventType, measurement_event_type, measurement_event_unspecified,
  measurement_field_unspecified, is_detail_measurement_event, measurement_update_field,
}

module _ (C : Type 0) where
  -- The oneof of DeviceStateEvent.
  pub data Payload : Type 0 where
    initial_snapshot : C → Payload
    resync_payload : ResyncReason → ℕ → Payload
    capability_payload : C → Payload
    device_payload : DeviceEvent → Payload
    lpc_payload : LpcEvent C → Payload
    dhw_temperature_payload : DhwEvent C → Payload
    dhw_system_function_payload : DhwSystemFunctionEvent C → Payload
    hvac_payload : RoomHeatingEvent C → Payload
    ohpcf_payload : OhpcfEvent C → Payload
    measurement_payload : MeasurementEvent C → Payload

  pub record DeviceStateEvent : Type 0 where
    pub ski : Text
    pub revision : ℕ  -- uint64
    pub event_time : Time
    pub payload : Payload
    pub availability : EventAvailability

  -- What fills in the messages; a source that is nil is `none`.
  pub record PayloadSources : Type 0 where
    pub lpc : Option (LpcEvent C → Text → LpcEventType → LpcEvent C)
    pub dhw : Option (DhwEvent C → Text → DhwEvent C)
    pub dhw_system_function : Option (DhwSystemFunctionEvent C → Text → DhwSystemFunctionEvent C)
    pub hvac : Option (RoomHeatingEvent C → Text → RoomHeatingEvent C × Bool)
    pub ohpcf : Option (OhpcfEvent C → Text → EventType → OhpcfEvent C × Bool)
    pub monitoring : Option (MeasurementEvent C → Text → MeasurementEventType → MeasurementEvent C)

  -- DeviceService, as far as the stream reads it.
  pub record DeviceService : Type 0 where
    pub device_capabilities : Text → C
    pub snapshot : Option (Text → ℕ → Option C)  -- Build
    pub payloads : PayloadSources

  -- A payload with its availability.
  abbrev pub Filled : Type 0
  Filled = Payload × EventAvailability

unfoldable pub resync_reason : EventType → ResyncReason
resync_reason device_classification_updated = initial_state_required
resync_reason _ = event_dropped

abbrev pub is_ignored : Option DeviceStateEventClass → Bool
is_ignored (some ignored) = true
is_ignored _ = false

module _ {C : Type 0} where
  unfoldable pub new_resync_envelope : Text → ℕ → Time → ResyncReason → ℕ → DeviceStateEvent C
  new_resync_envelope ski revision event_time reason dropped = record {
    ski = ski;
    revision = revision;
    event_time = event_time;
    payload = resync_payload reason dropped;
    availability = availability_unspecified;
  }

  -- `s.snapshot.Build(ski, revision)`, unless s.snapshot is nil
  unfoldable pub build_snapshot : Option (Text → ℕ → Option C) → Text → ℕ → Option C
  build_snapshot none ski revision = none
  build_snapshot (some build) ski revision = build ski revision

  -- The first message of a stream.
  unfoldable pub initial_event : DeviceService C → Text → ℕ → Time → DeviceStateEvent C
  initial_event s ski revision event_time = elim (build_snapshot s.snapshot ski revision) [
    | none ↦ new_resync_envelope ski revision event_time initial_state_required 0
    | some snapshot ↦ record {
      ski = ski;
      revision = revision;
      event_time = event_time;
      payload = initial_snapshot snapshot;
      availability = available;
    }
  ]

  unfoldable pub lpc_filled : PayloadSources C → Event → Filled C
  lpc_filled p evt =
      let lpc : LpcEvent C =
        attach p.lpc
          (record { ski = evt.ski; event_type = lpc_event_type evt.type; payload = none }) in
      (lpc_payload lpc, event_availability (is_some lpc.payload))
    where
      attach : Option (LpcEvent C → Text → LpcEventType → LpcEvent C) → LpcEvent C → LpcEvent C
      attach none lpc = lpc
      attach (some f) lpc = f lpc evt.ski lpc.event_type

  unfoldable pub dhw_filled : PayloadSources C → Event → Filled C
  dhw_filled p evt =
      let dhw : DhwEvent C = attach p.dhw (record { ski = evt.ski; setpoint = none }) in
      (dhw_temperature_payload dhw, event_availability (is_some dhw.setpoint))
    where
      attach : Option (DhwEvent C → Text → DhwEvent C) → DhwEvent C → DhwEvent C
      attach none dhw = dhw
      attach (some f) dhw = f dhw evt.ski

  unfoldable pub dhw_system_function_filled : PayloadSources C → Event → Filled C
  dhw_system_function_filled p evt =
      let dhw : DhwSystemFunctionEvent C =
        attach p.dhw_system_function (record { ski = evt.ski; state = none }) in
      (dhw_system_function_payload dhw, event_availability (is_some dhw.state))
    where
      attach :
          Option (DhwSystemFunctionEvent C → Text → DhwSystemFunctionEvent C)
          → DhwSystemFunctionEvent C
          → DhwSystemFunctionEvent C
      attach none dhw = dhw
      attach (some f) dhw = f dhw evt.ski

  unfoldable pub hvac_filled : PayloadSources C → Event → Filled C
  hvac_filled p evt =
      let filled = attach p.hvac in (hvac_payload filled.0, event_availability filled.1)
    where
      hvac : RoomHeatingEvent C
      hvac = record { ski = evt.ski; event_type = room_heating_event_type evt.type; payload = none }

      attach :
          Option (RoomHeatingEvent C → Text → RoomHeatingEvent C × Bool) → RoomHeatingEvent C × Bool
      attach none = (hvac, false)
      attach (some f) = f hvac evt.ski

  unfoldable pub ohpcf_filled : PayloadSources C → Event → Filled C
  ohpcf_filled p evt =
      let filled = attach p.ohpcf in (ohpcf_payload filled.0, event_availability filled.1)
    where
      ohpcf : OhpcfEvent C
      ohpcf = record {
        ski = evt.ski;
        event_type = ohpcf_event_type evt.type;
        update_field = ohpcf_update_field evt.type;
        payload = none;
      }

      attach : Option (OhpcfEvent C → Text → EventType → OhpcfEvent C × Bool) → OhpcfEvent C × Bool
      attach none = (ohpcf, false)
      attach (some f) = f ohpcf evt.ski evt.type

  -- Older clients poll on an unspecified type, so a detail is told by its field.
  unfoldable pub with_update_field : MeasurementEvent C → MeasurementEvent C
  with_update_field m =
      if is_detail_measurement_event m.event_type
      then record m {
        update_field = measurement_update_field m.event_type;
        event_type = measurement_event_unspecified;
      }
      else m

  unfoldable pub measurement_filled : PayloadSources C → Event → Filled C
  measurement_filled p evt =
      let measurement = with_update_field (attach p.monitoring) in
      (measurement_payload measurement, event_availability (is_some measurement.payload))
    where
      measurement_event : MeasurementEvent C
      measurement_event = record {
        ski = evt.ski;
        event_type = measurement_event_type evt.type;
        update_field = measurement_field_unspecified;
        payload = none;
      }

      attach :
          Option (MeasurementEvent C → Text → MeasurementEventType → MeasurementEvent C)
          → MeasurementEvent C
      attach none = measurement_event
      attach (some f) = f measurement_event evt.ski measurement_event.event_type

  unfoldable pub device_filled : Event → Filled C
  device_filled evt = (
    device_payload (record { ski = evt.ski; event_type = device_event_type evt.type }),
    available,
  )

  -- The switch of deviceStateEnvelope on the type of a state delta.
  unfoldable pub state_delta_filled : PayloadSources C → Event → EventType → Filled C
  state_delta_filled p evt device_connected = device_filled evt
  state_delta_filled p evt device_disconnected = device_filled evt
  state_delta_filled p evt device_trust_removed = device_filled evt
  state_delta_filled p evt lpc_limit_updated = lpc_filled p evt
  state_delta_filled p evt lpc_failsafe_power_updated = lpc_filled p evt
  state_delta_filled p evt lpc_failsafe_duration_updated = lpc_filled p evt
  state_delta_filled p evt lpc_heartbeat_updated = lpc_filled p evt
  state_delta_filled p evt dhw_setpoint_updated = dhw_filled p evt
  state_delta_filled p evt dhw_system_function_updated = dhw_system_function_filled p evt
  state_delta_filled p evt room_heating_setpoint_updated = hvac_filled p evt
  state_delta_filled p evt room_temperature_updated = hvac_filled p evt
  state_delta_filled p evt room_heating_system_function_updated = hvac_filled p evt
  state_delta_filled p evt ohpcf_consumption_state_updated = ohpcf_filled p evt
  state_delta_filled p evt ohpcf_consumption_stoppable_updated = ohpcf_filled p evt
  state_delta_filled p evt ohpcf_consumption_pausable_updated = ohpcf_filled p evt
  state_delta_filled p evt ohpcf_consumption_start_time_updated = ohpcf_filled p evt
  state_delta_filled p evt ohpcf_requested_power_estimate_updated = ohpcf_filled p evt
  state_delta_filled p evt ohpcf_requested_power_max_updated = ohpcf_filled p evt
  state_delta_filled p evt ohpcf_minimal_run_duration_updated = ohpcf_filled p evt
  state_delta_filled p evt ohpcf_minimal_pause_duration_updated = ohpcf_filled p evt
  state_delta_filled p evt monitoring_power_updated = measurement_filled p evt
  state_delta_filled p evt monitoring_power_per_phase_updated = measurement_filled p evt
  state_delta_filled p evt monitoring_energy_consumed_updated = measurement_filled p evt
  state_delta_filled p evt monitoring_energy_produced_updated = measurement_filled p evt
  state_delta_filled p evt monitoring_currents_per_phase_updated = measurement_filled p evt
  state_delta_filled p evt monitoring_voltage_per_phase_updated = measurement_filled p evt
  state_delta_filled p evt monitoring_frequency_updated = measurement_filled p evt
  state_delta_filled p evt monitoring_flow_temperature_updated = measurement_filled p evt
  state_delta_filled p evt monitoring_return_temperature_updated = measurement_filled p evt
  state_delta_filled p evt monitoring_device_operating_state_updated = measurement_filled p evt
  state_delta_filled p evt dhw_temperature_updated = measurement_filled p evt
  state_delta_filled p evt outdoor_temperature_updated = measurement_filled p evt
  state_delta_filled p evt _ = (resync_payload unclassified_event 0, availability_unspecified)

  unfoldable pub filled_as : DeviceService C → Event → Option DeviceStateEventClass → Filled C
  filled_as s evt none = (resync_payload unclassified_event 0, availability_unspecified)
  filled_as s evt (some resync_class) =
      (resync_payload (resync_reason evt.type) evt.dropped, availability_unspecified)
  filled_as s evt (some capability_delta) =
      (capability_payload (s.device_capabilities evt.ski), available)
  filled_as s evt (some provider_acknowledgement) = (
    device_payload (record { ski = evt.ski; event_type = device_event_provider_updated }),
    available,
  )
  filled_as s evt (some _) = state_delta_filled s.payloads evt evt.type

  unfoldable pub device_state_envelope : DeviceService C → Event → DeviceStateEvent C
  device_state_envelope s evt =
      let filled = filled_as s evt (classify_device_state_event evt.type) in
      record {
        ski = evt.ski;
        revision = evt.revision;
        event_time = evt.occurred_at;
        payload = filled.0;
        availability = filled.1;
      }

  -- The conversion that SubscribeDeviceState passes on; `none` where it sends nothing.
  unfoldable pub convert_event : DeviceService C → Event → Option (DeviceStateEvent C)
  convert_event s evt =
      if is_ignored (classify_device_state_event evt.type)
      then none
      else some (device_state_envelope s evt)

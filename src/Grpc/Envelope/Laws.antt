-- ===== src/Grpc/Envelope/Laws.antt =====
-- Which events become messages: of the event's device and revision, and none sent as unclassified.
use eebus_ha_bridge.Prelude.{◌≡◌, refl, some, arith, true, false, Bool}
use eebus_ha_bridge.Bus.{
  Event, EventType, is_discovery, device_connected, device_disconnected, device_trust_removed,
  device_classification_updated, discovery_updated, pairing_updated, resync_required,
  monitoring_power_updated, monitoring_power_per_phase_updated, monitoring_energy_consumed_updated,
  monitoring_energy_produced_updated, monitoring_currents_per_phase_updated,
  monitoring_voltage_per_phase_updated, monitoring_frequency_updated,
  monitoring_use_case_support_updated, monitoring_flow_temperature_updated,
  monitoring_return_temperature_updated, monitoring_device_operating_state_updated,
  lpc_limit_updated, lpc_failsafe_power_updated, lpc_failsafe_duration_updated,
  lpc_use_case_support_updated, lpc_heartbeat_updated, dhw_temperature_updated,
  dhw_monitoring_support_updated, dhw_setpoint_updated, dhw_use_case_support_updated,
  dhw_system_function_updated, dhw_system_function_support_updated, room_temperature_updated,
  room_monitoring_support_updated, outdoor_temperature_updated, outdoor_monitoring_support_updated,
  room_heating_setpoint_updated, room_heating_use_case_support_updated,
  room_heating_system_function_updated, room_heating_system_function_support_updated,
  ohpcf_use_case_support_updated, ohpcf_consumption_state_updated,
  ohpcf_consumption_stoppable_updated, ohpcf_consumption_pausable_updated,
  ohpcf_consumption_start_time_updated, ohpcf_requested_power_estimate_updated,
  ohpcf_requested_power_max_updated, ohpcf_minimal_run_duration_updated,
  ohpcf_minimal_pause_duration_updated, mgcp_consumer_updated, vapd_consumer_updated,
  vabd_consumer_updated,
}
use eebus_ha_bridge.Grpc.Events.{classify_device_state_event, unclassified_event}
use eebus_ha_bridge.Grpc.Envelope.{
  DeviceService, Payload, resync_payload, state_delta_filled, filled_as, device_filled, lpc_filled,
  dhw_filled, dhw_system_function_filled, hvac_filled, ohpcf_filled, measurement_filled,
  DeviceStateEvent, convert_event, device_state_envelope, is_ignored, resync_reason,
}

-- A client is not told to resynchronize for want of a message for the event's type.
pub is_classified : {C : Type 0} → Payload C → Bool
is_classified (resync_payload unclassified_event n) = false
is_classified _ = true

module _ {C : Type 0} (s : DeviceService C) (evt : Event) where
  filled_as-is_classified :
      (t : EventType)
      → is_discovery t ≡ false
      → is_classified (filled_as s (record evt { type = t }) (classify_device_state_event t)).0
        ≡ true
  unfolding classify_device_state_event filled_as state_delta_filled is_classified resync_reason
      device_filled lpc_filled dhw_filled dhw_system_function_filled hvac_filled ohpcf_filled
      measurement_filled
  filled_as-is_classified device_connected h = refl
  filled_as-is_classified device_disconnected h = refl
  filled_as-is_classified device_trust_removed h = refl
  filled_as-is_classified device_classification_updated h = refl
  filled_as-is_classified discovery_updated h = cc
  filled_as-is_classified pairing_updated h = refl
  filled_as-is_classified resync_required h = refl
  filled_as-is_classified monitoring_power_updated h = refl
  filled_as-is_classified monitoring_power_per_phase_updated h = refl
  filled_as-is_classified monitoring_energy_consumed_updated h = refl
  filled_as-is_classified monitoring_energy_produced_updated h = refl
  filled_as-is_classified monitoring_currents_per_phase_updated h = refl
  filled_as-is_classified monitoring_voltage_per_phase_updated h = refl
  filled_as-is_classified monitoring_frequency_updated h = refl
  filled_as-is_classified monitoring_use_case_support_updated h = refl
  filled_as-is_classified monitoring_flow_temperature_updated h = refl
  filled_as-is_classified monitoring_return_temperature_updated h = refl
  filled_as-is_classified monitoring_device_operating_state_updated h = refl
  filled_as-is_classified lpc_limit_updated h = refl
  filled_as-is_classified lpc_failsafe_power_updated h = refl
  filled_as-is_classified lpc_failsafe_duration_updated h = refl
  filled_as-is_classified lpc_use_case_support_updated h = refl
  filled_as-is_classified lpc_heartbeat_updated h = refl
  filled_as-is_classified dhw_temperature_updated h = refl
  filled_as-is_classified dhw_monitoring_support_updated h = refl
  filled_as-is_classified dhw_setpoint_updated h = refl
  filled_as-is_classified dhw_use_case_support_updated h = refl
  filled_as-is_classified dhw_system_function_updated h = refl
  filled_as-is_classified dhw_system_function_support_updated h = refl
  filled_as-is_classified room_temperature_updated h = refl
  filled_as-is_classified room_monitoring_support_updated h = refl
  filled_as-is_classified outdoor_temperature_updated h = refl
  filled_as-is_classified outdoor_monitoring_support_updated h = refl
  filled_as-is_classified room_heating_setpoint_updated h = refl
  filled_as-is_classified room_heating_use_case_support_updated h = refl
  filled_as-is_classified room_heating_system_function_updated h = refl
  filled_as-is_classified room_heating_system_function_support_updated h = refl
  filled_as-is_classified ohpcf_use_case_support_updated h = refl
  filled_as-is_classified ohpcf_consumption_state_updated h = refl
  filled_as-is_classified ohpcf_consumption_stoppable_updated h = refl
  filled_as-is_classified ohpcf_consumption_pausable_updated h = refl
  filled_as-is_classified ohpcf_consumption_start_time_updated h = refl
  filled_as-is_classified ohpcf_requested_power_estimate_updated h = refl
  filled_as-is_classified ohpcf_requested_power_max_updated h = refl
  filled_as-is_classified ohpcf_minimal_run_duration_updated h = refl
  filled_as-is_classified ohpcf_minimal_pause_duration_updated h = refl
  filled_as-is_classified mgcp_consumer_updated h = refl
  filled_as-is_classified vapd_consumer_updated h = refl
  filled_as-is_classified vabd_consumer_updated h = refl

not_ignored :
    (t : EventType) → is_discovery t ≡ false → is_ignored (classify_device_state_event t) ≡ false
unfolding classify_device_state_event
not_ignored t h = ground arith

-- Every event but one on discovery becomes a message of the device state stream, with the device
-- and the revision of the event, and is never sent as an unclassified event.
pub convert_event-is_classified :
    {C : Type 0} (s : DeviceService C) (evt : Event)
    → is_discovery evt.type ≡ false
    → (e : DeviceStateEvent C) × (convert_event s evt ≡ some e)
      × (e.ski ≡ evt.ski)
      × (e.revision ≡ evt.revision)
      × (is_classified e.payload ≡ true)
unfolding convert_event device_state_envelope
convert_event-is_classified s evt h = (
  device_state_envelope s evt,
  rw (not_ignored evt.type h),
  refl,
  refl,
  filled_as-is_classified s evt evt.type h,
)

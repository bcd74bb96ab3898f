-- ===== src/Grpc/Events.antt =====
-- From events of the bus to the messages of the device state stream: device_state_stream.go of
-- eebus-bridge/internal/grpc. `C` is the type of the messages that other services fill in; their
-- sources are parameters, since what they read is no part of the stream.
use eebus_ha_bridge.Prelude.{Bool, true, false, Option, some}
use eebus_ha_bridge.Ski.{Text}
use eebus_ha_bridge.Bus.{
  EventType, device_connected, device_disconnected, device_trust_removed,
  device_classification_updated, discovery_updated, pairing_updated, resync_required,
  monitoring_power_updated, monitoring_power_per_phase_updated, monitoring_energy_consumed_updated,
  monitoring_energy_produced_updated, monitoring_currents_per_phase_updated,
  monitoring_voltage_per_phase_updated, monitoring_frequency_updated,
  monitoring_use_case_support_updated, monitoring_flow_temperature_updated,
  monitoring_return_temperature_updated, monitoring_device_operating_state_updated,
  lpc_limit_updated, lpc_failsafe_power_updated, lpc_failsafe_duration_updated,
  lpc_use_case_support_updated, lpc_heartbeat_updated, dhw_temperature_updated,
  dhw_monitoring_support_updated, dhw_setpoint_updated, dhw_use_case_support_updated,
  dhw_system_function_updated, dhw_system_function_support_updated, room_temperature_updated,
  room_monitoring_support_updated, outdoor_temperature_updated, outdoor_monitoring_support_updated,
  room_heating_setpoint_updated, room_heating_use_case_support_updated,
  room_heating_system_function_updated, room_heating_system_function_support_updated,
  ohpcf_use_case_support_updated, ohpcf_consumption_state_updated,
  ohpcf_consumption_stoppable_updated, ohpcf_consumption_pausable_updated,
  ohpcf_consumption_start_time_updated, ohpcf_requested_power_estimate_updated,
  ohpcf_requested_power_max_updated, ohpcf_minimal_run_duration_updated,
  ohpcf_minimal_pause_duration_updated, mgcp_consumer_updated, vapd_consumer_updated,
  vabd_consumer_updated,
}

pub data DeviceStateEventClass : Type 0 where
  state_delta capability_delta provider_acknowledgement resync_class ignored : DeviceStateEventClass

-- The second result of classifyDeviceStateEvent: `none` stands for a type that is not known.
unfoldable pub classify_device_state_event : EventType → Option DeviceStateEventClass
classify_device_state_event device_connected = some state_delta
classify_device_state_event device_disconnected = some state_delta
classify_device_state_event device_trust_removed = some state_delta
classify_device_state_event device_classification_updated = some resync_class
classify_device_state_event discovery_updated = some ignored
classify_device_state_event pairing_updated = some provider_acknowledgement
classify_device_state_event resync_required = some resync_class
classify_device_state_event monitoring_power_updated = some state_delta
classify_device_state_event monitoring_power_per_phase_updated = some state_delta
classify_device_state_event monitoring_energy_consumed_updated = some state_delta
classify_device_state_event monitoring_energy_produced_updated = some state_delta
classify_device_state_event monitoring_currents_per_phase_updated = some state_delta
classify_device_state_event monitoring_voltage_per_phase_updated = some state_delta
classify_device_state_event monitoring_frequency_updated = some state_delta
classify_device_state_event monitoring_use_case_support_updated = some capability_delta
classify_device_state_event monitoring_flow_temperature_updated = some state_delta
classify_device_state_event monitoring_return_temperature_updated = some state_delta
classify_device_state_event monitoring_device_operating_state_updated = some state_delta
classify_device_state_event lpc_limit_updated = some state_delta
classify_device_state_event lpc_failsafe_power_updated = some state_delta
classify_device_state_event lpc_failsafe_duration_updated = some state_delta
classify_device_state_event lpc_use_case_support_updated = some capability_delta
classify_device_state_event lpc_heartbeat_updated = some state_delta
classify_device_state_event dhw_temperature_updated = some state_delta
classify_device_state_event dhw_monitoring_support_updated = some capability_delta
classify_device_state_event dhw_setpoint_updated = some state_delta
classify_device_state_event dhw_use_case_support_updated = some capability_delta
classify_device_state_event dhw_system_function_updated = some state_delta
classify_device_state_event dhw_system_function_support_updated = some capability_delta
classify_device_state_event room_temperature_updated = some state_delta
classify_device_state_event room_monitoring_support_updated = some capability_delta
classify_device_state_event outdoor_temperature_updated = some state_delta
classify_device_state_event outdoor_monitoring_support_updated = some capability_delta
classify_device_state_event room_heating_setpoint_updated = some state_delta
classify_device_state_event room_heating_use_case_support_updated = some capability_delta
classify_device_state_event room_heating_system_function_updated = some state_delta
classify_device_state_event room_heating_system_function_support_updated = some capability_delta
classify_device_state_event ohpcf_use_case_support_updated = some capability_delta
classify_device_state_event ohpcf_consumption_state_updated = some state_delta
classify_device_state_event ohpcf_consumption_stoppable_updated = some state_delta
classify_device_state_event ohpcf_consumption_pausable_updated = some state_delta
classify_device_state_event ohpcf_consumption_start_time_updated = some state_delta
classify_device_state_event ohpcf_requested_power_estimate_updated = some state_delta
classify_device_state_event ohpcf_requested_power_max_updated = some state_delta
classify_device_state_event ohpcf_minimal_run_duration_updated = some state_delta
classify_device_state_event ohpcf_minimal_pause_duration_updated = some state_delta
classify_device_state_event mgcp_consumer_updated = some provider_acknowledgement
classify_device_state_event vapd_consumer_updated = some provider_acknowledgement
classify_device_state_event vabd_consumer_updated = some provider_acknowledgement

pub data ResyncReason : Type 0 where
  initial_state_required event_dropped unclassified_event : ResyncReason

pub data EventAvailability : Type 0 where
  availability_unspecified available temporarily_unavailable : EventAvailability

pub data DeviceEventType : Type 0 where
  device_event_unspecified device_event_connected device_event_disconnected
        device_event_trust_removed device_event_provider_updated :
      DeviceEventType

pub data LpcEventType : Type 0 where
  lpc_event_unspecified lpc_event_limit_updated lpc_event_failsafe_updated
        lpc_event_heartbeat_timeout :
      LpcEventType

pub data RoomHeatingEventType : Type 0 where
  room_heating_event_unspecified room_heating_event_current_temperature_updated
        room_heating_event_setpoint_updated room_heating_event_system_function_updated :
      RoomHeatingEventType

pub data OhpcfEventType : Type 0 where
  ohpcf_event_data_updated ohpcf_event_state_updated : OhpcfEventType

pub data OhpcfUpdateField : Type 0 where
  ohpcf_field_unspecified ohpcf_field_state ohpcf_field_stoppable ohpcf_field_pausable
        ohpcf_field_start_time ohpcf_field_requested_power_estimate ohpcf_field_requested_power_max
        ohpcf_field_minimal_run_duration ohpcf_field_minimal_pause_duration :
      OhpcfUpdateField

pub data MeasurementEventType : Type 0 where
  measurement_event_unspecified measurement_event_power_updated measurement_event_energy_updated
        measurement_event_power_per_phase_updated measurement_event_energy_produced_updated
        measurement_event_current_per_phase_updated measurement_event_voltage_per_phase_updated
        measurement_event_frequency_updated measurement_event_dhw_temperature_updated
        measurement_event_room_temperature_updated measurement_event_outdoor_temperature_updated
        measurement_event_flow_temperature_updated measurement_event_return_temperature_updated
        measurement_event_device_operating_state_updated :
      MeasurementEventType

pub data MeasurementUpdateField : Type 0 where
  measurement_field_unspecified measurement_field_power_per_phase measurement_field_energy_produced
        measurement_field_current_per_phase measurement_field_voltage_per_phase
        measurement_field_frequency :
      MeasurementUpdateField

pub record DeviceEvent : Type 0 where
  pub ski : Text
  pub event_type : DeviceEventType

-- `payload` is the message in the event's oneof, where one is set.
pub record LpcEvent (C : Type 0) : Type 0 where
  pub ski : Text
  pub event_type : LpcEventType
  pub payload : Option C

pub record DhwEvent (C : Type 0) : Type 0 where
  pub ski : Text
  pub setpoint : Option C

pub record DhwSystemFunctionEvent (C : Type 0) : Type 0 where
  pub ski : Text
  pub state : Option C

pub record RoomHeatingEvent (C : Type 0) : Type 0 where
  pub ski : Text
  pub event_type : RoomHeatingEventType
  pub payload : Option C

pub record OhpcfEvent (C : Type 0) : Type 0 where
  pub ski : Text
  pub event_type : OhpcfEventType
  pub update_field : OhpcfUpdateField
  pub payload : Option C

pub record MeasurementEvent (C : Type 0) : Type 0 where
  pub ski : Text
  pub event_type : MeasurementEventType
  pub update_field : MeasurementUpdateField
  pub payload : Option C

unfoldable pub device_event_type : EventType → DeviceEventType
device_event_type device_connected = device_event_connected
device_event_type device_disconnected = device_event_disconnected
device_event_type device_trust_removed = device_event_trust_removed
device_event_type _ = device_event_unspecified

unfoldable pub lpc_event_type : EventType → LpcEventType
lpc_event_type lpc_limit_updated = lpc_event_limit_updated
lpc_event_type lpc_failsafe_power_updated = lpc_event_failsafe_updated
lpc_event_type lpc_failsafe_duration_updated = lpc_event_failsafe_updated
lpc_event_type lpc_heartbeat_updated = lpc_event_heartbeat_timeout
lpc_event_type _ = lpc_event_unspecified

unfoldable pub room_heating_event_type : EventType → RoomHeatingEventType
room_heating_event_type room_temperature_updated = room_heating_event_current_temperature_updated
room_heating_event_type room_heating_setpoint_updated = room_heating_event_setpoint_updated
room_heating_event_type room_heating_system_function_updated =
    room_heating_event_system_function_updated
room_heating_event_type _ = room_heating_event_unspecified

unfoldable pub ohpcf_event_type : EventType → OhpcfEventType
ohpcf_event_type ohpcf_consumption_state_updated = ohpcf_event_state_updated
ohpcf_event_type _ = ohpcf_event_data_updated

unfoldable pub ohpcf_update_field : EventType → OhpcfUpdateField
ohpcf_update_field ohpcf_consumption_state_updated = ohpcf_field_state
ohpcf_update_field ohpcf_consumption_stoppable_updated = ohpcf_field_stoppable
ohpcf_update_field ohpcf_consumption_pausable_updated = ohpcf_field_pausable
ohpcf_update_field ohpcf_consumption_start_time_updated = ohpcf_field_start_time
ohpcf_update_field ohpcf_requested_power_estimate_updated = ohpcf_field_requested_power_estimate
ohpcf_update_field ohpcf_requested_power_max_updated = ohpcf_field_requested_power_max
ohpcf_update_field ohpcf_minimal_run_duration_updated = ohpcf_field_minimal_run_duration
ohpcf_update_field ohpcf_minimal_pause_duration_updated = ohpcf_field_minimal_pause_duration
ohpcf_update_field _ = ohpcf_field_unspecified

unfoldable pub measurement_event_type : EventType → MeasurementEventType
measurement_event_type monitoring_power_updated = measurement_event_power_updated
measurement_event_type monitoring_energy_consumed_updated = measurement_event_energy_updated
measurement_event_type monitoring_power_per_phase_updated =
    measurement_event_power_per_phase_updated
measurement_event_type monitoring_energy_produced_updated =
    measurement_event_energy_produced_updated
measurement_event_type monitoring_currents_per_phase_updated =
    measurement_event_current_per_phase_updated
measurement_event_type monitoring_voltage_per_phase_updated =
    measurement_event_voltage_per_phase_updated
measurement_event_type monitoring_frequency_updated = measurement_event_frequency_updated
measurement_event_type dhw_temperature_updated = measurement_event_dhw_temperature_updated
measurement_event_type room_temperature_updated = measurement_event_room_temperature_updated
measurement_event_type outdoor_temperature_updated = measurement_event_outdoor_temperature_updated
measurement_event_type monitoring_flow_temperature_updated =
    measurement_event_flow_temperature_updated
measurement_event_type monitoring_return_temperature_updated =
    measurement_event_return_temperature_updated
measurement_event_type monitoring_device_operating_state_updated =
    measurement_event_device_operating_state_updated
measurement_event_type _ = measurement_event_unspecified

unfoldable pub is_detail_measurement_event : MeasurementEventType → Bool
is_detail_measurement_event measurement_event_power_per_phase_updated = true
is_detail_measurement_event measurement_event_energy_produced_updated = true
is_detail_measurement_event measurement_event_current_per_phase_updated = true
is_detail_measurement_event measurement_event_voltage_per_phase_updated = true
is_detail_measurement_event measurement_event_frequency_updated = true
is_detail_measurement_event _ = false

unfoldable pub measurement_update_field : MeasurementEventType → MeasurementUpdateField
measurement_update_field measurement_event_power_per_phase_updated =
    measurement_field_power_per_phase
measurement_update_field measurement_event_energy_produced_updated =
    measurement_field_energy_produced
measurement_update_field measurement_event_current_per_phase_updated =
    measurement_field_current_per_phase
measurement_update_field measurement_event_voltage_per_phase_updated =
    measurement_field_voltage_per_phase
measurement_update_field measurement_event_frequency_updated = measurement_field_frequency
measurement_update_field _ = measurement_field_unspecified

unfoldable pub event_availability : Bool → EventAvailability
event_availability true = available
event_availability false = temporarily_unavailable

-- ===== src/Grpc/Ohpcf/Payloads.antt =====
-- The payloads of OHPCF events: attachOHPCFPayload and what it reads, in
-- eebus-bridge/internal/grpc/ohpcf_service.go.
use eebus_ha_bridge.Prelude.{
  ℕ, Bool, true, false, not, ◌&&◌, ◌||◌, Option, none, some, List, [], ◌∷◌, if◌then◌else◌, Result,
  ok, err,
}
use eebus_ha_bridge.Ski.{Text}
use eebus_ha_bridge.Time.{Time}
use eebus_ha_bridge.Bus.{
  EventType, ohpcf_use_case_support_updated, ohpcf_consumption_state_updated,
  ohpcf_consumption_stoppable_updated, ohpcf_consumption_pausable_updated,
  ohpcf_consumption_start_time_updated, ohpcf_requested_power_estimate_updated,
  ohpcf_requested_power_max_updated, ohpcf_minimal_run_duration_updated,
  ohpcf_minimal_pause_duration_updated,
}
use eebus_ha_bridge.Registry.State.{ohpcf}
use eebus_ha_bridge.Grpc.Status.{Status}
use eebus_ha_bridge.Grpc.Handler.{ServiceState, record_read}
use eebus_ha_bridge.Grpc.Compressor.{OhpcfCommand, OhpcfController}
use eebus_ha_bridge.Grpc.Ohpcf.{
  CompressorFlexibility, OhpcfField, all_fields, all_of, any_of, build_flexibility, clears,
  core_fields, reads, resolve_ohpcf_entity, read_available, read_power_estimate, read_power_max,
  read_stoppable, read_pausable, read_state, read_minimal_run, read_minimal_pause, read_start_time,
}

unfoldable pub ohpcf_target_read : EventType → List OhpcfField
ohpcf_target_read ohpcf_consumption_state_updated = read_available ∷ read_state ∷ []
ohpcf_target_read ohpcf_consumption_stoppable_updated = read_stoppable ∷ []
ohpcf_target_read ohpcf_consumption_pausable_updated = read_pausable ∷ []
ohpcf_target_read ohpcf_consumption_start_time_updated = read_start_time ∷ []
ohpcf_target_read ohpcf_requested_power_estimate_updated = read_power_estimate ∷ []
ohpcf_target_read ohpcf_requested_power_max_updated = read_power_max ∷ []
ohpcf_target_read ohpcf_minimal_run_duration_updated = read_minimal_run ∷ []
ohpcf_target_read ohpcf_minimal_pause_duration_updated = read_minimal_pause ∷ []
ohpcf_target_read _ = []

abbrev pub is_nonzero : List OhpcfField → Bool
is_nonzero [] = false
is_nonzero (_ ∷ _) = true

-- `available` of attachOHPCFPayload.
unfoldable pub is_complete_payload : OhpcfController → ℕ → List OhpcfField → Bool
is_complete_payload c e target =
    is_nonzero target
    && all_of (reads c e) core_fields
    && all_of (λ f. reads c e f || clears c e f) target

-- attachOHPCFPayload: the flexibility that the event gets, and the result.
unfoldable pub attach_ohpcf_payload :
    Option OhpcfController
    → Time
    → Text
    → EventType
    → ServiceState OhpcfCommand
    → ServiceState OhpcfCommand × Option CompressorFlexibility × Bool
attach_ohpcf_payload none now ski type s = (s, none, false)
attach_ohpcf_payload (some c) now ski type s = attached (resolve_ohpcf_entity (some c) now ski s)
  where
    noted : ServiceState OhpcfCommand → Bool → ServiceState OhpcfCommand
    noted s' failed = (record_read now ski ohpcf failed s').0

    attached :
        ServiceState OhpcfCommand × Result Status ℕ
        → ServiceState OhpcfCommand × Option CompressorFlexibility × Bool
    attached (s', err e) = (s', none, false)
    attached (s', ok e) =
        if not (any_of (reads c e) all_fields) then (noted s' true, none, false) else (
          noted s' (not (is_complete_payload c e (ohpcf_target_read type))),
          some (build_flexibility c e),
          is_complete_payload c e (ohpcf_target_read type),
        )

pub data OhpcfServiceEventType : Type 0 where
  support_updated state_updated data_updated : OhpcfServiceEventType

-- The kind of OHPCF event that an event of the bus is, if any.
unfoldable pub ohpcf_service_event_type : EventType → Option OhpcfServiceEventType
ohpcf_service_event_type ohpcf_use_case_support_updated = some support_updated
ohpcf_service_event_type ohpcf_consumption_state_updated = some state_updated
ohpcf_service_event_type ohpcf_consumption_stoppable_updated = some data_updated
ohpcf_service_event_type ohpcf_consumption_pausable_updated = some data_updated
ohpcf_service_event_type ohpcf_consumption_start_time_updated = some data_updated
ohpcf_service_event_type ohpcf_requested_power_estimate_updated = some data_updated
ohpcf_service_event_type ohpcf_requested_power_max_updated = some data_updated
ohpcf_service_event_type ohpcf_minimal_run_duration_updated = some data_updated
ohpcf_service_event_type ohpcf_minimal_pause_duration_updated = some data_updated
ohpcf_service_event_type _ = none

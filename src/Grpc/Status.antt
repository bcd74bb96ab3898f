-- ===== src/Grpc/Status.antt =====
-- Status errors of gRPC and the guards that handlers share: adapter_helpers.go of
-- eebus-bridge/internal/grpc. An error is its code with the kind of its message.
pub mod Canonical
mod Tests
use eebus_ha_bridge.Prelude.{
  ℕ, not, ◌&&◌, Option, none, some, if◌then◌else◌, Result, ok, err, guard,
}
use eebus_ha_bridge.Ski.{Text, normalize_ski, valid_ski, is_empty, short_ski, codes}

-- google.golang.org/grpc/codes, as far as the bridge uses it
pub data Code : Type 0 where
  invalid_argument failed_precondition not_found unavailable canceled deadline_exceeded internal :
      Code

-- What a message says; the texts themselves are not modelled.
pub data Message : Type 0 where
  request_required ski_malformed ski_required ski_required_for_write bus_not_initialized
        registry_not_initialized value_required use_case_not_initialized no_compatible_entity
        not_finite negative out_of_percent observed_at_required valid_until_required
        observed_at_invalid valid_until_invalid observed_in_future not_after_observed sample_expired
        invalid_request rejected_by_device entity_not_found temporarily_unavailable_message
        was_canceled exceeded_deadline failed action_required process_unavailable not_running
        not_paused not_active not_pausable not_stoppable :
      Message
  ambiguous_selection : ℕ → Message

pub record Status : Type 0 where
  pub code : Code
  pub message : Message

abbrev pub status : Code → Message → Status
status code message = record { code = code; message = message }

-- DeviceRequest; a request that is nil is `none`.
pub record DeviceRequest : Type 0 where
  pub ski : Text

unfoldable pub require_device_request : {R : Type 0} → Option R → Result Status R
require_device_request none = err (status invalid_argument request_required)
require_device_request (some req) = ok req

unfoldable pub normalize_read_ski : Text → Result Status Text
normalize_read_ski ski =
    let normalized = normalize_ski ski in
    if not (is_empty normalized) && not (valid_ski normalized)
    then err (status invalid_argument ski_malformed)
    else ok normalized

unfoldable pub require_explicit_ski : Text → Result Status Text
require_explicit_ski ski =
    let normalized = normalize_ski ski in
    if is_empty normalized
    then err (status invalid_argument ski_required)
    else if not (valid_ski normalized)
    then err (status invalid_argument ski_malformed)
    else ok normalized

unfoldable pub require_write_ski : Text → Result Status Unit
require_write_ski ski =
    let normalized = normalize_ski ski in
    if is_empty normalized
    then err (status invalid_argument ski_required_for_write)
    else guard (not (valid_ski normalized)) (status invalid_argument ski_malformed)

unfoldable pub redacted_ski_for_log : Text → Text
redacted_ski_for_log ski =
    let normalized = normalize_ski ski in
    if is_empty normalized
    then codes "empty"
    else if not (valid_ski normalized)
    then codes "invalid"
    else short_ski normalized

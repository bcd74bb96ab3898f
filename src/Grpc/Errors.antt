-- ===== src/Grpc/Errors.antt =====
-- From errors of a use case to gRPC codes: eebus-bridge/internal/grpc/errors.go. An error is the
-- list of the sentinels that it wraps, by their place in `Sentinel`; the redaction of texts by
-- regular expressions is not modelled.
use eebus_ha_bridge.Prelude.{ℕ, ◌+◌, Bool, true, false, ◌||◌, List, [], ◌∷◌, if◌then◌else◌, ◌==◌}
use eebus_ha_bridge.Grpc.Status.{
  Status, status, invalid_argument, failed_precondition, not_found, unavailable, canceled,
  deadline_exceeded, internal, invalid_request, rejected_by_device, entity_not_found,
  temporarily_unavailable_message, was_canceled, exceeded_deadline, failed,
}

-- The sentinels of eebus-go, of context and of the bridge that the mapping knows, and any other.
pub data Sentinel : Type 0 where
  not_supported usecase_not_supported function_not_supported operation_not_supported
        no_compatible_entity_error ohpcf_rejected entity_not_found_error metadata_not_available
        data_not_available data_invalid data_for_metadata_key_not_found missing_data
        device_disconnected_error context_canceled context_deadline_exceeded :
      Sentinel
  other_error : ℕ → Sentinel

abbrev pub number_of : Sentinel → ℕ
number_of not_supported = 0
number_of usecase_not_supported = 1
number_of function_not_supported = 2
number_of operation_not_supported = 3
number_of no_compatible_entity_error = 4
number_of ohpcf_rejected = 5
number_of entity_not_found_error = 6
number_of metadata_not_available = 7
number_of data_not_available = 8
number_of data_invalid = 9
number_of data_for_metadata_key_not_found = 10
number_of missing_data = 11
number_of device_disconnected_error = 12
number_of context_canceled = 13
number_of context_deadline_exceeded = 14
number_of (other_error n) = 15 + n

abbrev pub UsecaseError : Type 0
UsecaseError = List Sentinel

-- errors.Is
unfoldable pub errors_is : UsecaseError → Sentinel → Bool
errors_is [] target = false
errors_is (s ∷ e) target = number_of s == number_of target || errors_is e target

unfoldable pub errors_is_any : UsecaseError → List Sentinel → Bool
errors_is_any e [] = false
errors_is_any e (target ∷ l) = if errors_is e target then true else errors_is_any e l

pub record UsecaseErrorClasses : Type 0 where
  pub invalid_argument_errors : List Sentinel
  pub failed_precondition_errors : List Sentinel
  pub not_found_errors : List Sentinel
  pub unavailable_errors : List Sentinel

abbrev pub standard_usecase_error_classes : UsecaseErrorClasses
standard_usecase_error_classes = record {
  invalid_argument_errors = [];
  failed_precondition_errors =
      not_supported ∷ usecase_not_supported ∷ function_not_supported ∷ operation_not_supported
      ∷ no_compatible_entity_error ∷ ohpcf_rejected ∷ [];
  not_found_errors = entity_not_found_error ∷ [];
  unavailable_errors =
      metadata_not_available ∷ data_not_available ∷ data_invalid ∷ data_for_metadata_key_not_found
      ∷ missing_data ∷ device_disconnected_error ∷ [];
}

unfoldable pub map_usecase_error : UsecaseError → UsecaseErrorClasses → Status
map_usecase_error e classes =
    if errors_is_any e classes.invalid_argument_errors
    then status invalid_argument invalid_request
    else if errors_is_any e classes.failed_precondition_errors
    then status failed_precondition rejected_by_device
    else if errors_is_any e classes.not_found_errors
    then status not_found entity_not_found
    else if errors_is_any e classes.unavailable_errors
    then status unavailable temporarily_unavailable_message
    else if errors_is e context_canceled
    then status canceled was_canceled
    else if errors_is e context_deadline_exceeded
    then status deadline_exceeded exceeded_deadline
    else status internal failed

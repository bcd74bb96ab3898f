-- ===== src/Grpc/Handler.antt =====
-- What the handlers of eebus-bridge/internal/grpc share: a handler changes a service's state and
-- gives a result or a status error. With it the resolution of the entity that a request is for,
-- of adapter_helpers.go. The commands that a use case is given are a list in the state, the last
-- one first; `C` is the type of these commands.
pub mod Sent
use eebus_ha_bridge.Prelude.{
  ℕ, Bool, true, false, not, Option, none, some, List, [], ◌∷◌, if◌then◌else◌, Result, ok, err,
  is_ok,
}
use eebus_ha_bridge.Ski.{Text}
use eebus_ha_bridge.Time.{Time}
use eebus_ha_bridge.Registry.State.{Registry, Capability}
use eebus_ha_bridge.Registry.Capabilities.{record_capability_read, record_missing_entity}
use eebus_ha_bridge.Registry.Catalog.{EntityResolution, is_ambiguous}
use eebus_ha_bridge.Grpc.Status.{
  Status, status, not_found, failed_precondition, unavailable, no_compatible_entity,
  ambiguous_selection, registry_not_initialized, use_case_not_initialized, normalize_read_ski,
}
use eebus_ha_bridge.Grpc.Errors.{UsecaseError, map_usecase_error, standard_usecase_error_classes}

-- The registry is the bridge's own, where there is one.
pub record ServiceState (C : Type 0) : Type 0 where
  pub registry : Option Registry
  pub commands : List C

abbrev pub Handler : Type 0 → Type 0 → Type 0
Handler C A = ServiceState C → ServiceState C × Result Status A

-- RecordCapabilityMissingEntity, where there is a registry.
abbrev pub missing : Time → Text → Capability → Option Registry → Option Registry
missing now ski capability none = none
missing now ski capability (some r) = some (record_missing_entity r now ski capability)

-- The entity of a resolution that has one; one that comes without an error always has.
abbrev pub entity_or_error : Option ℕ → Result Status ℕ
entity_or_error (some e) = ok e
entity_or_error none = err (status not_found no_compatible_entity)

module _ {C : Type 0} where
  unfoldable pub continue_with :
      {A B : Type 0}
      → ServiceState C × Result Status A
      → (A → Handler C B)
      → ServiceState C × Result Status B
  continue_with (s, ok a) f = f a s
  continue_with (s, err e) f = (s, err e)

  infixl 5 ◌>>=◌ ◌>>◌
  abbrev pub ◌>>=◌ : {A B : Type 0} → Handler C A → (A → Handler C B) → Handler C B
  m >>= f = λ s. continue_with (m s) f

  abbrev pub ◌>>◌ : {A B : Type 0} → Handler C A → Handler C B → Handler C B
  m >> k = m >>= λ _. k

  -- A check, which changes nothing.
  abbrev pub checked : {A : Type 0} → Result Status A → Handler C A
  checked r = λ s. (s, r)

  -- recordRead
  unfoldable pub record_read : Time → Text → Capability → Bool → Handler C Unit
  record_read now ski capability failed s = (record s { registry = noted s.registry }, ok tt)
    where
      noted : Option Registry → Option Registry
      noted none = none
      noted (some r) = some (record_capability_read r now ski capability failed)

  -- A command for the use case, which answers with an error or not.
  unfoldable pub send : (C → Option UsecaseError) → C → Handler C Unit
  send outcome c s = (record s { commands = c ∷ s.commands }, answer (outcome c))
    where
      answer : Option UsecaseError → Result Status Unit
      answer none = ok tt
      answer (some e) = err (map_usecase_error e standard_usecase_error_classes)

  abbrev pub not_resolved : Time → Text → Capability → Handler C EntityResolution
  not_resolved now ski capability s = (
    record s { registry = missing now ski capability s.registry },
    err (status not_found no_compatible_entity),
  )

  unfoldable pub with_entity :
      Time → Text → Capability → EntityResolution → Option ℕ → Handler C EntityResolution
  with_entity now ski capability resolution (some e) = checked (ok resolution)
  with_entity now ski capability resolution none = not_resolved now ski capability

  -- What the use case's resolver found.
  unfoldable pub with_resolution :
      Time → Text → Capability → EntityResolution → Handler C EntityResolution
  with_resolution now ski capability resolution =
      if is_ambiguous resolution
      then checked (err (status failed_precondition (ambiguous_selection resolution.device_count)))
      else with_entity now ski capability resolution resolution.entity

  -- Without a resolver there is no entity.
  unfoldable pub without_resolver :
      Time → Text → Capability → Option Registry → Handler C EntityResolution
  without_resolver now ski capability none =
      checked (err (status unavailable registry_not_initialized))
  without_resolver now ski capability (some r) = not_resolved now ski capability

  unfoldable pub resolve_by :
      Time → Text → Capability → Option (Text → EntityResolution) → Handler C EntityResolution
  resolve_by now ski capability none = λ s. without_resolver now ski capability s.registry s
  resolve_by now ski capability (some resolve) = with_resolution now ski capability (resolve ski)

  unfoldable pub resolve_compatible_entity_resolution :
      Time → Text → Capability → Option (Text → EntityResolution) → Handler C EntityResolution
  resolve_compatible_entity_resolution now ski capability resolve = do
    _ ← checked (normalize_read_ski ski)
    resolve_by now ski capability resolve

  unfoldable pub resolve_compatible_entity :
      Time → Text → Capability → Option (Text → EntityResolution) → Handler C ℕ
  resolve_compatible_entity now ski capability resolve = do
    resolution ← resolve_compatible_entity_resolution now ski capability resolve
    checked (entity_or_error resolution.entity)

-- A use case that is not set up; a nil one is `none`.
abbrev pub initialized : {U : Type 0} → Option U → Result Status U
initialized none = err (status unavailable use_case_not_initialized)
initialized (some u) = ok u

-- What a read gives, its error mapped to a status.
abbrev pub mapped : {A : Type 0} → Result UsecaseError A → Result Status A
mapped (ok a) = ok a
mapped (err e) = err (map_usecase_error e standard_usecase_error_classes)

-- ===== src/UseCases/Entity.antt =====
-- Which remote entity a request is for: eebus-bridge/internal/usecases/entity.go. An entity is its
-- identity, with the SKI of its device where it has one.
pub mod Unambiguous
mod Tests
use eebus_ha_bridge.Prelude.{
  ℕ, Bool, true, false, not, ◌&&◌, ◌||◌, Option, none, some, List, [], ◌∷◌, if◌then◌else◌, ◌==◌,
  length,
}
use eebus_ha_bridge.Store.{Store, lookup, insert, is_some}
use eebus_ha_bridge.Ski.{Text, text_key, eq_text, normalize_ski, is_empty}
use eebus_ha_bridge.Time.{Time}
use eebus_ha_bridge.Registry.State.{Registry, Capability}
use eebus_ha_bridge.Registry.Health.{device_connection}
use eebus_ha_bridge.Registry.Capabilities.{record_capability_source_support}
use eebus_ha_bridge.Registry.Catalog.{
  RemoteDevice, RemoteEntity, EntityResolution, upsert_observation, remove_entity_observation,
}

-- RemoteEntityScenarios of eebus-go: `entity` is nil where it is `none`.
pub record ScenarioEntity : Type 0 where
  pub ref : ℕ
  pub device_ski : Option Text  -- entity.Device().Ski()

pub record RemoteEntityScenarios : Type 0 where
  pub entity : Option ScenarioEntity
  pub scenarios : List ℕ

abbrev pub no_entity : EntityResolution
no_entity = record { entity = none; device_count = 0 }

-- The normalized SKI of an entry that has an entity with a device, and the entity.
unfoldable pub resolved : RemoteEntityScenarios → Option (Text × ℕ)
resolved remote = of_entity remote.entity
  where
    of_entity : Option ScenarioEntity → Option (Text × ℕ)
    of_entity none = none
    of_entity (some e) = elim (e.device_ski) [
      | none ↦ none
      | some ski ↦ some (normalize_ski ski, e.ref)
    ]

-- The search for a device's first entity.
unfoldable pub entity_of_device : Text → List RemoteEntityScenarios → EntityResolution
entity_of_device want [] = no_entity
entity_of_device want (remote ∷ l) = elim (resolved remote) [
  | none ↦ entity_of_device want l
  | some found ↦
      let rest = entity_of_device want l in
      if eq_text found.0 want then record { entity = some found.1; device_count = 1 } else rest
]

-- entitiesBySKI: the first entity of each device.
unfoldable pub entities_by_ski : Store Text ℕ → List RemoteEntityScenarios → Store Text ℕ
entities_by_ski m [] = m
entities_by_ski m (remote ∷ l) = elim (resolved remote) [
  | none ↦ entities_by_ski m l
  | some found ↦
      entities_by_ski (if is_some (lookup found.0 m) then m else insert found.0 found.1 m) l
]

unfoldable pub only_entity : Store Text ℕ → EntityResolution
only_entity ((_, e) ∷ []) = record { entity = some e; device_count = 1 }
only_entity m = record { entity = none; device_count = length m }

unfoldable pub compatible_entity : List RemoteEntityScenarios → Text → EntityResolution
compatible_entity scenarios ski =
    let want = normalize_ski ski in
    if not (is_empty want)
    then entity_of_device want scenarios
    else only_entity (entities_by_ski [] scenarios)

unfoldable pub has_scenario : ℕ → List ℕ → Bool
has_scenario scenario [] = false
has_scenario scenario (n ∷ l) = if n == scenario then true else has_scenario scenario l

unfoldable pub matching : ℕ → List RemoteEntityScenarios → List RemoteEntityScenarios
matching scenario [] = []
matching scenario (remote ∷ l) =
    if has_scenario scenario remote.scenarios
    then remote ∷ matching scenario l
    else matching scenario l

unfoldable pub compatible_entity_for_scenario :
    List RemoteEntityScenarios → Text → ℕ → EntityResolution
compatible_entity_for_scenario scenarios ski scenario =
    compatible_entity (matching scenario scenarios) ski

abbrev pub same_entity : Option ScenarioEntity → ℕ → Bool
same_entity none ref = false
same_entity (some e) ref = e.ref == ref

-- entityPresentInScenarios; an entity that is nil is `none`.
unfoldable pub entity_present_in_scenarios : List RemoteEntityScenarios → Option ℕ → Bool
entity_present_in_scenarios l none = false
entity_present_in_scenarios [] (some ref) = false
entity_present_in_scenarios (remote ∷ l) (some ref) =
    if same_entity remote.entity ref then true else entity_present_in_scenarios l (some ref)

-- observationSKI
unfoldable pub observation_ski : Text → Option RemoteDevice → Text
observation_ski ski none = ski
observation_ski ski (some device) = if is_empty (normalize_ski ski) then device.ski else ski

abbrev pub is_other_entity : Option RemoteEntity → Option RemoteEntity → Bool
is_other_entity none entity = false
is_other_entity (some e) none = true
is_other_entity (some e) (some f) = not (e.ref == f.ref)

-- recordCapabilitySupport, for a registry that is not nil; `entity` is that of the resolution.
unfoldable pub record_capability_support :
    Registry
    → Time
    → Text
    → Option RemoteDevice
    → Option RemoteEntity
    → Option RemoteEntity
    → Text
    → Capability
    → Registry × Bool
record_capability_support r now ski device callback_entity entity use_case capability =
    let ski' = observation_ski ski device in
    let advertised = is_some entity in
    let (connected, _, known) = device_connection r ski' in
    let dropped = remove_entity_observation r ski' callback_entity in
    let cleared = if is_other_entity callback_entity entity then dropped else r in
    let observed =
      if advertised
      then upsert_observation cleared now ski' device entity use_case
      else remove_entity_observation cleared ski' callback_entity in
    if known && not connected
    then (record_capability_source_support dropped now ski' capability use_case advertised, false)
    else (
      record_capability_source_support observed now ski' capability use_case advertised,
      advertised,
    )

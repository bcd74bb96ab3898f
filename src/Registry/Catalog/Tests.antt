-- ===== src/Registry/Catalog/Tests.antt =====
-- Runs of the catalog on new registries.
use eebus_ha_bridge.Prelude.{◌≡◌, ◌<◌, ◌↔◌, [], ◌∷◌, true, none, some, pos}
use eebus_ha_bridge.Store.{is_some}
use eebus_ha_bridge.Ski.{text_key}
use eebus_ha_bridge.Registry.State.{Registry, new_registry, no_info}
use eebus_ha_bridge.Store.{lookup}
use eebus_ha_bridge.Registry.Catalog.{
  RemoteEntity, first_available_entity, is_ambiguous, observed_ski, upsert_observation,
}
use eebus_ha_bridge.Registry.Catalog.Observation.{upsert_observation-upsert_observation}
use eebus_ha_bridge.Registry.Catalog.Resolution.{
  with_entities, first_available_entity-with_entities,
}

abbrev two_with_entities : Registry
two_with_entities = record new_registry {
  devices =
      ((b'A' ∷ []), record no_info { remote_entities = 1 ∷ 2 ∷ [] })
      ∷ ((b'B' ∷ []), record no_info { remote_entities = 3 ∷ [] })
      ∷ ((b'C' ∷ []), no_info)
      ∷ [];
}

first_available_entity-with_entities_example :
    ((first_available_entity two_with_entities).device_count
      ≡ with_entities two_with_entities.devices)
    × ((is_some (first_available_entity two_with_entities).entity ≡ true)
        ↔ (with_entities two_with_entities.devices ≡ 1))
    × ((is_ambiguous (first_available_entity two_with_entities) ≡ true)
        ↔ (1 < with_entities two_with_entities.devices))
first_available_entity-with_entities_example =
    first_available_entity-with_entities two_with_entities

abbrev heat_pump : RemoteEntity
heat_pump = record { ref = 4; address = some (1 ∷ 2 ∷ []); entity_type = b'H' ∷ []; features = [] }

abbrev observed_once : Registry
observed_once =
    upsert_observation new_registry (pos 1) (b'D' ∷ []) none (some heat_pump) (b'U' ∷ [])

upsert_observation-upsert_observation_example :
    lookup
      (observed_ski (b'D' ∷ []) none)
      (upsert_observation observed_once
        (pos 2)
        (b'D' ∷ [])
        none
        (some heat_pump)
        (b'U' ∷ [])).devices
    ≡ lookup (observed_ski (b'D' ∷ []) none) observed_once.devices
upsert_observation-upsert_observation_example =
    upsert_observation-upsert_observation none (some heat_pump) (b'U' ∷ []) (b'D' ∷ []) new_registry
      (pos 1) (pos 2)

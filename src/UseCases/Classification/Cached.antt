-- ===== src/UseCases/Classification/Cached.antt =====
-- The manufacturer data that is cached for a device: manufacturerDetails and
-- enrichDeviceClassification of eebus-bridge/internal/usecases/classification.go.
use eebus_ha_bridge.Prelude.{
  ℕ, Bool, false, ◌&&◌, Option, none, some, List, [], ◌∷◌, if◌then◌else◌, ◌==◌,
}
use eebus_ha_bridge.Ski.{Text, text_key, is_empty}
use eebus_ha_bridge.Registry.State.{Registry}
use eebus_ha_bridge.Registry.Catalog.{upsert_device_classification}
use eebus_ha_bridge.UseCases.Manufacturer.{
  DeviceClassificationDetails, ManufacturerData, classification_details, has_no_details,
  is_complete, merge_classification_details, no_details,
}
use eebus_ha_bridge.UseCases.Classification.{ClassifiedDevice, ClassifiedEntity, type_of}

-- What NewDeviceClassification and GetManufacturerDetails give for a candidate.
abbrev pub candidate_data : ClassifiedEntity → Option ManufacturerData
candidate_data e = if e.has_client then e.manufacturer else none

-- The loop of manufacturerDetails, which stops once nothing is missing.
unfoldable pub merge_candidates :
    DeviceClassificationDetails → List ClassifiedEntity → DeviceClassificationDetails
merge_candidates result [] = result
merge_candidates result (e ∷ l) = elim (candidate_data e) [
  | none ↦ merge_candidates result l
  | some d ↦
      let merged = merge_classification_details result (classification_details d) in
      let rest = merge_candidates merged l in if is_complete merged then merged else rest
]

abbrev pub is_entity : ℕ → Option ClassifiedEntity → Bool
is_entity ref none = false
is_entity ref (some e) = e.ref == ref

-- The other entities of the device.
unfoldable pub other_entities :
    Option ClassifiedEntity → List (Option ClassifiedEntity) → List ClassifiedEntity
other_entities entity [] = []
other_entities entity (none ∷ l) = other_entities entity l
other_entities entity (some e ∷ l) =
    if is_entity e.ref entity then other_entities entity l else e ∷ other_entities entity l

unfoldable pub candidates :
    Option ClassifiedDevice → Option ClassifiedEntity → List ClassifiedEntity
candidates device entity = with_entity entity (others device)
  where
    others : Option ClassifiedDevice → List ClassifiedEntity
    others none = []
    others (some d) = other_entities entity d.entities

    with_entity : Option ClassifiedEntity → List ClassifiedEntity → List ClassifiedEntity
    with_entity none l = l
    with_entity (some e) l = e ∷ l

-- manufacturerDetails; `has_local_entity` is whether the local entity is not nil.
unfoldable pub manufacturer_details :
    Bool → Option ClassifiedDevice → Option ClassifiedEntity → DeviceClassificationDetails
manufacturer_details has_local_entity device entity =
    if has_local_entity then merge_candidates no_details (candidates device entity) else no_details

-- enrichDeviceClassification
unfoldable pub enrich_device_classification :
    Option Registry
    → Bool
    → Text
    → Option ClassifiedDevice
    → Option ClassifiedEntity
    → Option Registry
enrich_device_classification none has_local_entity ski device entity = none
enrich_device_classification (some r) has_local_entity ski device entity =
    let details = manufacturer_details has_local_entity device entity in
    if has_no_details details && is_empty (type_of device)
    then some r
    else some
        (upsert_device_classification r ski details.brand details.model details.serial
          (type_of device) details.software_revision details.hardware_revision).0

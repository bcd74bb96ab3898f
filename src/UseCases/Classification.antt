-- ===== src/UseCases/Classification.antt =====
-- Who made a device: eebus-bridge/internal/usecases/classification.go. What eebus-go and spine-go
-- return for an entity is part of it here; the requests that they are asked to send are a list in
-- the state, the last one first. The classifier's lock holds for the test and set of a key.
pub mod Cached
pub mod Requests
mod Tests
use eebus_ha_bridge.Prelude.{
  ℕ, Bool, true, false, not, ◌&&◌, ◌||◌, Option, none, some, List, [], ◌∷◌, if◌then◌else◌, ◌==◌,
}
use eebus_ha_bridge.Store.{Store, lookup, insert, is_some, or_zero}
use eebus_ha_bridge.Ski.{Text, text_key, is_empty}
use eebus_ha_bridge.Time.{Time}
use eebus_ha_bridge.Bus.{Bus, event, publish, device_classification_updated}
use eebus_ha_bridge.Registry.State.{Registry}
use eebus_ha_bridge.Registry.Catalog.{RemoteDevice, upsert_device_classification, upsert_zone_label}
use eebus_ha_bridge.UseCases.Entity.{observation_ski}
use eebus_ha_bridge.UseCases.Manufacturer.{
  DeviceClassificationDetails, ManufacturerData, classification_details, classification_string,
  has_no_details, is_complete, merge_classification_details, no_details, or_else,
}

-- A remote entity, as far as the classifier looks at it.
pub record ClassifiedEntity : Type 0 where
  pub ref : ℕ
  pub is_heating_zone : Bool
  pub has_server : Bool  -- it has a DeviceClassification server feature
  pub has_client : Bool  -- client.NewDeviceClassification has no error
  pub manufacturer : Option ManufacturerData  -- GetManufacturerDetails, without an error
  pub user_data : Option (Option Text)  -- the label in the cached user data

pub record ClassifiedDevice : Type 0 where
  pub device : RemoteDevice
  pub device_type : Option Text
  pub entities : List (Option ClassifiedEntity)

pub data Request : Type 0 where
  manufacturer_request user_request : Text → Request

pub record DeviceClassifier : Type 0 where
  pub has_local_entity : Bool
  pub has_local_feature : Bool
  pub registry : Option Registry
  pub bus : Option Bus
  pub requested : Store Text Bool
  pub user_requested : Store Text Bool
  pub sent : List Request

unfoldable pub new_device_classifier : Option Registry → Option Bus → DeviceClassifier
new_device_classifier registry bus = record {
  has_local_entity = false;
  has_local_feature = false;
  registry = registry;
  bus = bus;
  requested = [];
  user_requested = [];
  sent = [];
}

pub data SetupError : Type 0 where
  local_entity_required failed_to_add_feature subscribing_failed : SetupError

-- Setup: whether the local entity is there, its feature can be added, and its events subscribed to.
unfoldable pub setup : DeviceClassifier → Bool → Bool → Bool → DeviceClassifier × Option SetupError
setup c local_entity feature subscribed =
    if not local_entity
    then (c, some local_entity_required)
    else if not feature
    then (c, some failed_to_add_feature)
    else (
      record c { has_local_entity = true; has_local_feature = true },
      if subscribed then none else some subscribing_failed,
    )

abbrev pub remote_of : Option ClassifiedDevice → Option RemoteDevice
remote_of none = none
remote_of (some d) = some d.device

abbrev pub type_of : Option ClassifiedDevice → Text
type_of none = []
type_of (some d) = classification_string d.device_type

-- Publishing a classification resync, where something changed and there is a bus.
unfoldable pub resync_if : Bool → Time → Text → Option Bus → Option Bus
resync_if changed now ski none = none
resync_if changed now ski (some bus) =
    if changed then some (publish bus now (event ski device_classification_updated)) else some bus

unfoldable pub with_upsert : DeviceClassifier → Time → Text → Registry × Bool → DeviceClassifier
with_upsert c now ski (r, changed) = record c {
  registry = some r;
  bus = resync_if changed now ski c.bus;
}

-- A write to the registry, where there is one.
unfoldable pub on_known_registry :
    DeviceClassifier
    → Time
    → Text
    → Option Registry
    → (Registry → Registry × Bool)
    → DeviceClassifier
on_known_registry c now ski none f = c
on_known_registry c now ski (some r) f = with_upsert c now ski (f r)

unfoldable pub store_details :
    DeviceClassifier
    → Time
    → Text
    → Option ClassifiedDevice
    → DeviceClassificationDetails
    → DeviceClassifier
store_details c now ski device details =
    let ski' = observation_ski ski (remote_of device) in
    if has_no_details details && is_empty (type_of device)
    then c
    else on_known_registry c now ski' c.registry (λ r.
      upsert_device_classification r ski' details.brand details.model details.serial
        (type_of device) details.software_revision details.hardware_revision)

unfoldable pub store_zone_label :
    DeviceClassifier → Time → Text → Option ClassifiedDevice → Text → DeviceClassifier
store_zone_label c now ski device label =
    let ski' = observation_ski ski (remote_of device) in
    if is_empty label
    then c
    else on_known_registry c now ski' c.registry (λ r. upsert_zone_label r ski' label)

abbrev pub is_set : Option Bool → Bool
is_set none = false
is_set (some b) = b

-- The request of manufacturer data, once for a key.
unfoldable pub request_manufacturer : DeviceClassifier → Text → DeviceClassifier
request_manufacturer c key =
    if is_set (lookup key c.requested)
    then record c { requested = insert key true c.requested }
    else record c {
      requested = insert key true c.requested;
      sent = manufacturer_request key ∷ c.sent;
    }

unfoldable pub request_user_data : DeviceClassifier → Text → DeviceClassifier
request_user_data c key =
    if is_set (lookup key c.user_requested) || not c.has_local_feature
    then record c { user_requested = insert key true c.user_requested }
    else record c {
      user_requested = insert key true c.user_requested;
      sent = user_request key ∷ c.sent;
    }

unfoldable pub read_or_request :
    DeviceClassifier → Time → Text → Option ClassifiedDevice → ClassifiedEntity → DeviceClassifier
read_or_request c now ski device e =
    if not e.has_server || not e.has_client then c else elim (e.manufacturer) [
      | some d ↦ store_details c now ski device (classification_details d)
      | none ↦ request_manufacturer c (observation_ski ski (remote_of device))
    ]

-- The label that is cached for an entity, empty where there is none.
abbrev pub cached_label : Option (Option Text) → Text
cached_label none = []
cached_label (some label) = classification_string label

unfoldable pub read_or_request_zone_label :
    DeviceClassifier → Time → Text → Option ClassifiedDevice → ClassifiedEntity → DeviceClassifier
read_or_request_zone_label c now ski device e =
    if not e.is_heating_zone || not e.has_server
    then c
    else if not (is_empty (cached_label e.user_data))
    then store_zone_label c now ski device (cached_label e.user_data)
    else request_user_data c (observation_ski ski (remote_of device))

-- What an event of spine-go carries.
pub data EventData : Type 0 where
  manufacturer_data : ManufacturerData → EventData
  user_data : Option Text → EventData
  other_data : EventData

-- `entity_device` is the device of the event's entity.
pub record EventPayload : Type 0 where
  pub ski : Text
  pub device : Option ClassifiedDevice
  pub entity : Option ClassifiedEntity
  pub entity_device : Option ClassifiedDevice
  pub payload : EventData
  pub adds : Bool  -- ElementChangeAdd

unfoldable pub discover :
    DeviceClassifier → Time → Text → Option ClassifiedDevice → ClassifiedEntity → DeviceClassifier
discover c now ski device e =
    read_or_request_zone_label (read_or_request c now ski device e) now ski device e

unfoldable pub discover_all :
    DeviceClassifier
    → Time
    → Text
    → Option ClassifiedDevice
    → List (Option ClassifiedEntity)
    → DeviceClassifier
discover_all c now ski device [] = c
discover_all c now ski device (none ∷ l) = discover_all c now ski device l
discover_all c now ski device (some e ∷ l) =
    discover_all (discover c now ski device e) now ski device l

-- `device := payload.Device`, or that of the entity.
unfoldable pub device_of_event : EventPayload → Option ClassifiedDevice
device_of_event p = pick p.device p.entity
  where
    pick : Option ClassifiedDevice → Option ClassifiedEntity → Option ClassifiedDevice
    pick (some d) e = some d
    pick none none = none
    pick none (some e) = p.entity_device

-- An addition of an entity, or of a device with all that it has.
unfoldable pub handle_added :
    DeviceClassifier
    → Time
    → Text
    → Option ClassifiedDevice
    → Option ClassifiedEntity
    → DeviceClassifier
handle_added c now ski device (some e) = discover c now ski device e
handle_added c now ski none none = c
handle_added c now ski (some d) none = discover_all c now ski (some d) d.entities

abbrev pub may_label : Option ClassifiedEntity → Bool
may_label none = true
may_label (some e) = e.is_heating_zone

unfoldable pub handle_data : DeviceClassifier → Time → EventPayload → EventData → DeviceClassifier
handle_data c now p (manufacturer_data d) =
    store_details c now p.ski (device_of_event p) (classification_details d)
handle_data c now p (user_data label) =
    if may_label p.entity
    then store_zone_label c now p.ski (device_of_event p) (classification_string label)
    else c
handle_data c now p other_data =
    if p.adds then handle_added c now p.ski (device_of_event p) p.entity else c

-- HandleEvent
unfoldable pub handle_event : DeviceClassifier → Time → EventPayload → DeviceClassifier
handle_event c now p =
    if not c.has_local_entity || not (is_some c.registry) then c else handle_data c now p p.payload

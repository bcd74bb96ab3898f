-- ===== src/UseCases/Classification/Tests.antt =====
-- A heat pump that does not answer at first.
use eebus_ha_bridge.Prelude.{◌≤◌, true, none, some, [], ◌∷◌, pos}
use eebus_ha_bridge.Ski.{codes}
use eebus_ha_bridge.UseCases.Classification.{
  ClassifiedDevice, ClassifiedEntity, EventPayload, new_device_classifier, other_data, setup,
}
use eebus_ha_bridge.Registry.State.{new_registry}
use eebus_ha_bridge.UseCases.Classification.Requests.{
  handle_events, handle_events-new_device_classifier, manufacturer_requests, user_requests,
}

abbrev silent_entity : ClassifiedEntity
silent_entity = record {
  ref = 1;
  is_heating_zone = true;
  has_server = true;
  has_client = true;
  manufacturer = none;
  user_data = none;
}

abbrev silent_device : ClassifiedDevice
silent_device = record {
  device = record { ref = 1; ski = codes "AB01" };
  device_type = none;
  entities = some silent_entity ∷ none ∷ [];
}

abbrev added : EventPayload
added = record {
  ski = codes "AB01";
  device = some silent_device;
  entity = none;
  entity_device = none;
  payload = other_data;
  adds = true;
}

handle_events-new_device_classifier_example :
    (manufacturer_requests
        (codes "AB01")
        (handle_events
          (setup (new_device_classifier (some new_registry) none) true true true).0
          ((pos 1, added) ∷ (pos 2, added) ∷ [])).sent
      ≤ 1)
    × (user_requests
          (codes "AB01")
          (handle_events
            (setup (new_device_classifier (some new_registry) none) true true true).0
            ((pos 1, added) ∷ (pos 2, added) ∷ [])).sent
        ≤ 1)
handle_events-new_device_classifier_example =
    handle_events-new_device_classifier (some new_registry) none
      ((pos 1, added) ∷ (pos 2, added) ∷ []) (codes "AB01")

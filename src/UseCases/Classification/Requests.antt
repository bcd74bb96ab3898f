-- ===== src/UseCases/Classification/Requests.antt =====
-- The classifier asks for a device's manufacturer data once.
use eebus_ha_bridge.Prelude.{
  ℕ, ◌+◌, ◌≤◌, Bool, true, not, ◌&&◌, ◌||◌, Option, none, some, List, [], ◌∷◌, arith, if_both,
  if_split, if◌then◌else◌, inl, inr, Option-cases,
}
use eebus_ha_bridge.Store.{lookup, is_some}
use eebus_ha_bridge.Store.Laws.{lookup-insert}
use eebus_ha_bridge.Ski.{Text, text_key, eq_text, is_empty}
use eebus_ha_bridge.Time.{Time}
use eebus_ha_bridge.Bus.{Bus}
use eebus_ha_bridge.Registry.State.{Registry}
use eebus_ha_bridge.UseCases.Classification.{
  DeviceClassifier, Request, manufacturer_request, user_request, is_set, request_manufacturer,
  request_user_data, ClassifiedEntity, ClassifiedDevice, read_or_request,
  read_or_request_zone_label, store_details, store_zone_label, with_upsert, discover, discover_all,
  handle_added, handle_data, handle_event, EventPayload, EventData, on_known_registry, type_of,
  cached_label, may_label, setup, manufacturer_data, user_data, other_data, new_device_classifier,
}
use eebus_ha_bridge.UseCases.Manufacturer.{DeviceClassificationDetails, has_no_details}

-- How often the manufacturer data of a device, or its user data, was asked for.
pub manufacturer_requests : Text → List Request → ℕ
manufacturer_requests key [] = 0
manufacturer_requests key (manufacturer_request k ∷ l) =
    (if eq_text k key then 1 else 0) + manufacturer_requests key l
manufacturer_requests key (user_request k ∷ l) = manufacturer_requests key l

pub user_requests : Text → List Request → ℕ
user_requests key [] = 0
user_requests key (manufacturer_request k ∷ l) = user_requests key l
user_requests key (user_request k ∷ l) = (if eq_text k key then 1 else 0) + user_requests key l

abbrev flag : Option Bool → ℕ
flag o = if is_set o then 1 else 0

-- What is sent is remembered.
pub record IsOnce (c : DeviceClassifier) : Type 0 where
  pub manufacturer : (key : Text) → manufacturer_requests key c.sent ≤ flag (lookup key c.requested)
  pub user : (key : Text) → user_requests key c.sent ≤ flag (lookup key c.user_requested)

request_manufacturer-IsOnce :
    (c : DeviceClassifier) (key : Text) → IsOnce c → IsOnce (request_manufacturer c key)
unfolding request_manufacturer manufacturer_requests user_requests eq_text
request_manufacturer-IsOnce c key h =
    if_split IsOnce (is_set (lookup key c.requested))
      (λ old. record {
        manufacturer = λ k. ground (arith, lookup-insert key k true c.requested, h.manufacturer k);
        user = h.user;
      })
      (λ new. record {
        manufacturer = λ k. ground (arith, lookup-insert key k true c.requested, h.manufacturer k);
        user = h.user;
      })

request_user_data-IsOnce :
    (c : DeviceClassifier) (key : Text) → IsOnce c → IsOnce (request_user_data c key)
unfolding request_user_data manufacturer_requests user_requests eq_text
request_user_data-IsOnce c key h =
    if_split IsOnce (is_set (lookup key c.user_requested) || not c.has_local_feature)
      (λ old. record {
        manufacturer = h.manufacturer;
        user = λ k. ground (arith, lookup-insert key k true c.user_requested, h.user k);
      })
      (λ new. record {
        manufacturer = h.manufacturer;
        user = λ k. ground (arith, lookup-insert key k true c.user_requested, h.user k);
      })

with_upsert-IsOnce :
    (c : DeviceClassifier) (now : Time) (ski : Text) (z : Registry × Bool)
    → IsOnce c
    → IsOnce (with_upsert c now ski z)
unfolding with_upsert
with_upsert-IsOnce c now ski (r, changed) h = record {
  manufacturer = h.manufacturer;
  user = h.user;
}

on_known_registry-IsOnce :
    (c : DeviceClassifier) (now : Time) (ski : Text) (r : Option Registry)
    (f : Registry → Registry × Bool)
    → IsOnce c
    → IsOnce (on_known_registry c now ski r f)
unfolding on_known_registry
on_known_registry-IsOnce c now ski none f h = h
on_known_registry-IsOnce c now ski (some r) f h = with_upsert-IsOnce c now ski (f r) h

store_details-IsOnce :
    (c : DeviceClassifier) (now : Time) (ski : Text) (d : Option ClassifiedDevice)
    (details : DeviceClassificationDetails)
    → IsOnce c
    → IsOnce (store_details c now ski d details)
unfolding store_details
store_details-IsOnce c now ski d details h =
    if_both IsOnce (has_no_details details && is_empty (type_of d)) h
      (on_known_registry-IsOnce c now _ c.registry _ h)

store_zone_label-IsOnce :
    (c : DeviceClassifier) (now : Time) (ski : Text) (d : Option ClassifiedDevice) (label : Text)
    → IsOnce c
    → IsOnce (store_zone_label c now ski d label)
unfolding store_zone_label
store_zone_label-IsOnce c now ski d label h =
    if_both IsOnce (is_empty label) h (on_known_registry-IsOnce c now _ c.registry _ h)

read_or_request-IsOnce :
    (c : DeviceClassifier) (now : Time) (ski : Text) (d : Option ClassifiedDevice)
    (e : ClassifiedEntity)
    → IsOnce c
    → IsOnce (read_or_request c now ski d e)
unfolding read_or_request
read_or_request-IsOnce c now ski d e h =
    if_both IsOnce (not e.has_server || not e.has_client) h (elim (Option-cases e.manufacturer) [
      | inl n ↦ rw n (request_manufacturer-IsOnce c _ h)
      | inr (m, n) ↦ rw n (store_details-IsOnce c now ski d _ h)
    ])

read_or_request_zone_label-IsOnce :
    (c : DeviceClassifier) (now : Time) (ski : Text) (d : Option ClassifiedDevice)
    (e : ClassifiedEntity)
    → IsOnce c
    → IsOnce (read_or_request_zone_label c now ski d e)
unfolding read_or_request_zone_label
read_or_request_zone_label-IsOnce c now ski d e h =
    if_both IsOnce (not e.is_heating_zone || not e.has_server) h (
      if_both IsOnce (not (is_empty (cached_label e.user_data)))
        (store_zone_label-IsOnce c now ski d _ h) (request_user_data-IsOnce c _ h))

discover-IsOnce :
    (c : DeviceClassifier) (now : Time) (ski : Text) (d : Option ClassifiedDevice)
    (e : ClassifiedEntity)
    → IsOnce c
    → IsOnce (discover c now ski d e)
unfolding discover
discover-IsOnce c now ski d e h =
    read_or_request_zone_label-IsOnce (read_or_request c now ski d e) now ski d e
      (read_or_request-IsOnce c now ski d e h)

discover_all-IsOnce :
    (c : DeviceClassifier) (now : Time) (ski : Text) (d : Option ClassifiedDevice)
    (l : List (Option ClassifiedEntity))
    → IsOnce c
    → IsOnce (discover_all c now ski d l)
unfolding discover_all
discover_all-IsOnce c now ski d [] h = h
discover_all-IsOnce c now ski d (none ∷ l) h = discover_all-IsOnce c now ski d l h
discover_all-IsOnce c now ski d (some e ∷ l) h =
    discover_all-IsOnce (discover c now ski d e) now ski d l (discover-IsOnce c now ski d e h)

handle_added-IsOnce :
    (c : DeviceClassifier) (now : Time) (ski : Text) (d : Option ClassifiedDevice)
    (e : Option ClassifiedEntity)
    → IsOnce c
    → IsOnce (handle_added c now ski d e)
unfolding handle_added
handle_added-IsOnce c now ski d (some e) h = discover-IsOnce c now ski d e h
handle_added-IsOnce c now ski none none h = h
handle_added-IsOnce c now ski (some d) none h = discover_all-IsOnce c now ski (some d) d.entities h

handle_data-IsOnce :
    (c : DeviceClassifier) (now : Time) (p : EventPayload) (d : EventData)
    → IsOnce c
    → IsOnce (handle_data c now p d)
unfolding handle_data
handle_data-IsOnce c now p (manufacturer_data d) h = store_details-IsOnce c now p.ski _ _ h
handle_data-IsOnce c now p (user_data label) h =
    if_both IsOnce (may_label p.entity) (store_zone_label-IsOnce c now p.ski _ _ h) h
handle_data-IsOnce c now p other_data h =
    if_both IsOnce p.adds (handle_added-IsOnce c now p.ski _ p.entity h) h

handle_event-IsOnce :
    (c : DeviceClassifier) (now : Time) (p : EventPayload)
    → IsOnce c
    → IsOnce (handle_event c now p)
unfolding handle_event
handle_event-IsOnce c now p h =
    if_both IsOnce (not c.has_local_entity || not (is_some c.registry)) h
      (handle_data-IsOnce c now p p.payload h)

-- The events that a classifier is told of, in order.
unfoldable pub handle_events : DeviceClassifier → List (Time × EventPayload) → DeviceClassifier
handle_events c [] = c
handle_events c ((now, p) ∷ l) = handle_events (handle_event c now p) l

handle_events-IsOnce :
    (c : DeviceClassifier) (l : List (Time × EventPayload)) → IsOnce c → IsOnce (handle_events c l)
unfolding handle_events
handle_events-IsOnce c [] h = h
handle_events-IsOnce c ((now, p) ∷ l) h =
    handle_events-IsOnce (handle_event c now p) l (handle_event-IsOnce c now p h)

at_most_once : (n : ℕ) (o : Option Bool) → n ≤ flag o → n ≤ 1
at_most_once n o h = ground arith

-- For every sequence of events, a device classifier that is set up asks a device for its
-- manufacturer data at most once, and for its user data at most once.
pub handle_events-new_device_classifier :
    (registry : Option Registry) (bus : Option Bus) (l : List (Time × EventPayload)) (key : Text)
    → (manufacturer_requests key
          (handle_events (setup (new_device_classifier registry bus) true true true).0 l).sent
        ≤ 1)
      × (user_requests key
            (handle_events (setup (new_device_classifier registry bus) true true true).0 l).sent
          ≤ 1)
unfolding new_device_classifier setup manufacturer_requests user_requests
handle_events-new_device_classifier registry bus l key =
    let c = handle_events (setup (new_device_classifier registry bus) true true true).0 l in
    let h =
      handle_events-IsOnce _ l
        (record { manufacturer = λ k. omega arith; user = λ k. omega arith }) in
    (
      at_most_once _ (lookup key c.requested) (h.manufacturer key),
      at_most_once _ (lookup key c.user_requested) (h.user key),
    )

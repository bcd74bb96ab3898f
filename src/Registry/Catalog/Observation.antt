-- ===== src/Registry/Catalog/Observation.antt =====
-- What repeated reports of a device leave in the catalog.
use eebus_ha_bridge.Prelude.{
  ℕ, ◌≡◌, refl, ap, ◌∙◌, List, [], ◌∷◌, ◌++◌, true, false, Option, none, some, arith, if◌then◌else◌,
  Bool-cases, inl, inr,
}
use eebus_ha_bridge.Ski.{Text}
use eebus_ha_bridge.Ski.{text_key, normalize_ski}
use eebus_ha_bridge.Store.{lookup, or_zero}
use eebus_ha_bridge.Store.Laws.{lookup-insert_self}
use eebus_ha_bridge.Time.{Time}
use eebus_ha_bridge.Registry.State.{EntityInfo, DeviceInfo, no_info, Registry, is_removed}
use eebus_ha_bridge.Registry.Capabilities.{unless_removed, ensure_capabilities}
use eebus_ha_bridge.Registry.Capabilities.Entries.{Frame, ensure-Frame}
use eebus_ha_bridge.Registry.Catalog.{
  RemoteDevice, RemoteEntity, entity_info, is_same_entity, upsert_entity_info, has_ref, contains,
  observe_device, observe_entity, observe_use_case, observed_ski, upsert_observation, set_device,
}

same_as_itself :
    (e : RemoteEntity) → is_same_entity (entity_info e) e.ref (entity_info e).address ≡ true
unfolding is_same_entity entity_info
same_as_itself e = ground arith

upsert_entity_info_idem :
    (l : List EntityInfo) (e : RemoteEntity)
    → upsert_entity_info (upsert_entity_info l e) e ≡ upsert_entity_info l e
unfolding upsert_entity_info
upsert_entity_info_idem [] e = rw (same_as_itself e) refl
upsert_entity_info_idem (x ∷ l) e =
    elim (Bool-cases (is_same_entity x e.ref (entity_info e).address)) [
      | inl h ↦ rw h (rw (same_as_itself e) refl)
      | inr h ↦ rw h (rw h (ap (λ rest. x ∷ rest) (upsert_entity_info_idem l e)))
    ]

has_ref-append : (r : ℕ) (l : List ℕ) → has_ref r (l ++ r ∷ []) ≡ true
unfolding has_ref
has_ref-append r [] = ground arith
has_ref-append r (x ∷ l) = ground (arith, has_ref-append r l)

contains-append : (s : Text) (l : List Text) → contains s (l ++ s ∷ []) ≡ true
unfolding contains
contains-append s [] = ground arith
contains-append s (x ∷ l) = ground (arith, contains-append s l)

-- What one report writes into the device's entry.
abbrev pub observed : Option RemoteDevice → Option RemoteEntity → Text → DeviceInfo → DeviceInfo
observed device entity use_case info =
    observe_use_case use_case (observe_entity entity (observe_device device info))

use_case_idem :
    (use_case : Text) (info : DeviceInfo)
    → observe_use_case use_case (observe_use_case use_case info) ≡ observe_use_case use_case info
use_case_idem use_case info = ground (arith, contains-append use_case info.use_cases)

entity_idem :
    (entity : Option RemoteEntity) (info : DeviceInfo)
    → observe_entity entity (observe_entity entity info) ≡ observe_entity entity info
entity_idem none info = refl
entity_idem (some e) info =
    ground
      (arith, has_ref-append e.ref info.remote_entities, upsert_entity_info_idem info.entities e)

device_idem :
    (device : Option RemoteDevice) (info : DeviceInfo)
    → observe_device device (observe_device device info) ≡ observe_device device info
device_idem none info = refl
device_idem (some d) info = refl

entity-use_case :
    (entity : Option RemoteEntity) (use_case : Text) (info : DeviceInfo)
    → observe_entity entity (observe_use_case use_case info)
      ≡ observe_use_case use_case (observe_entity entity info)
entity-use_case none use_case info = refl
entity-use_case (some e) use_case info = ground arith

device-use_case :
    (device : Option RemoteDevice) (use_case : Text) (info : DeviceInfo)
    → observe_device device (observe_use_case use_case info)
      ≡ observe_use_case use_case (observe_device device info)
device-use_case none use_case info = refl
device-use_case (some d) use_case info = ground arith

device-entity :
    (device : Option RemoteDevice) (entity : Option RemoteEntity) (info : DeviceInfo)
    → observe_device device (observe_entity entity info)
      ≡ observe_entity entity (observe_device device info)
device-entity none entity info = refl
device-entity (some d) none info = refl
device-entity (some d) (some e) info = refl

observed_idem :
    (device : Option RemoteDevice) (entity : Option RemoteEntity) (use_case : Text)
    (info : DeviceInfo)
    → observed device entity use_case (observed device entity use_case info)
      ≡ observed device entity use_case info
observed_idem device entity use_case info =
    let once = observe_device device info in
    ap (λ x. observe_use_case use_case (observe_entity entity x))
      (device-use_case device use_case (observe_entity entity once)
        ∙ ap (observe_use_case use_case) (
            device-entity device entity once
            ∙ ap (observe_entity entity) (device_idem device info)))
    ∙ ap (observe_use_case use_case) (
        entity-use_case entity use_case (observe_entity entity once)
        ∙ ap (observe_use_case use_case) (entity_idem entity once))
    ∙ use_case_idem use_case (observe_entity entity once)

ski-observed :
    (device : Option RemoteDevice) (entity : Option RemoteEntity) (use_case k : Text)
    (info : DeviceInfo)
    → record (observed device entity use_case (record info { ski = k })) { ski = k }
      ≡ observed device entity use_case (record info { ski = k })
ski-observed none none use_case k info = ground arith
ski-observed none (some e) use_case k info = ground arith
ski-observed (some d) none use_case k info = ground arith
ski-observed (some d) (some e) use_case k info = ground arith

abbrev entry : Text → Option DeviceInfo → DeviceInfo
entry k old = record (or_zero no_info old) { ski = k }

module _ (device : Option RemoteDevice) (entity : Option RemoteEntity) (use_case ski : Text) where
  abbrev key_of : Text
  key_of = observed_ski ski device

  removed-upsert :
      (r : Registry) (now : Time)
      → is_removed (upsert_observation r now ski device entity use_case) key_of
        ≡ is_removed r key_of
  unfolding upsert_observation unless_removed set_device ensure_capabilities is_removed
  removed-upsert r now = ground (arith, ensure-Frame r now (normalize_ski key_of))

  device-upsert :
      (r : Registry) (now : Time)
      → lookup key_of (upsert_observation r now ski device entity use_case).devices ≡ (
          if is_removed r key_of
          then lookup key_of r.devices
          else some (observed device entity use_case (entry key_of (lookup key_of r.devices))))
  unfolding upsert_observation unless_removed set_device ensure_capabilities
  device-upsert r now = elim (Bool-cases (is_removed r key_of)) [
    | inl h ↦ rw h refl
    | inr h ↦ rw h (
        lookup-insert_self key_of _ _
        ∙ ap (λ m. some (observed device entity use_case (entry key_of (lookup key_of m))))
            (Frame.same_devices (ensure-Frame r now (normalize_ski key_of))))
  ]

  -- A report that comes again, at whatever time, leaves the device's entry in the catalog as the
  -- first one left it, be the device removed or not.
  pub upsert_observation-upsert_observation :
      (r : Registry) (now now' : Time)
      → lookup key_of
          (upsert_observation
            (upsert_observation r now ski device entity use_case)
            now'
            ski
            device
            entity
            use_case).devices
        ≡ lookup key_of (upsert_observation r now ski device entity use_case).devices
  upsert_observation-upsert_observation r now now' = elim (Bool-cases (is_removed r key_of)) [
    | inl h ↦
        device-upsert (upsert_observation r now ski device entity use_case) now'
        ∙ rw (removed-upsert r now, h) refl
    | inr h ↦
        device-upsert (upsert_observation r now ski device entity use_case) now'
        ∙ rw (removed-upsert r now, h, first h)
            (ap some (
              ap (observed device entity use_case) (
                ski-observed device entity use_case key_of
                  (or_zero no_info (lookup key_of r.devices)))
              ∙ observed_idem device entity use_case (entry key_of (lookup key_of r.devices))))
  ]
    where
      first :
          is_removed r key_of ≡ false
          → lookup key_of (upsert_observation r now ski device entity use_case).devices
            ≡ some (observed device entity use_case (entry key_of (lookup key_of r.devices)))
      first h = device-upsert r now ∙ rw h refl

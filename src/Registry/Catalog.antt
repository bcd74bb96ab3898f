-- ===== src/Registry/Catalog.antt =====
-- The device catalog: registry.go, lines 392 to 794. Values of the model are never shared, so the
-- copies that the source makes of slices on the way in and out need no definition here.
pub mod Resolution
pub mod Observation
pub mod Tests
use eebus_ha_bridge.Prelude.{
  ℕ, zero, suc, ◌+◌, ◌/◌, ◌%◌, List, [], ◌∷◌, ◌++◌, Bool, true, false, not, ◌&&◌, ◌||◌, Option,
  none, some, if◌then◌else◌, ite, ltb, ◌==◌, ℕ_discrete,
}
use eebus_ha_bridge.Store.{Store, lookup, insert, delete, or_zero, is_some}
use eebus_ha_bridge.Ski.{Text, Text-discrete, text_key, normalize_ski, is_empty}
use eebus_ha_bridge.Time.{Time}
use eebus_ha_bridge.Texts.{sort_by}
use eebus_ha_bridge.Registry.State.{EntityInfo, DeviceInfo, no_info, Registry, is_removed}
use eebus_ha_bridge.Registry.Capabilities.{ensure_capabilities, unless_removed}

-- A feature of a remote entity, as its Type and Role print.
pub record Feature : Type 0 where
  pub type : Text
  pub role : Text

-- A remote entity of spine-go: its identity, and what its methods return to the bridge.
pub record RemoteEntity : Type 0 where
  pub ref : ℕ
  pub address : Option (List ℕ)
  pub entity_type : Text
  pub features : List (Option Feature)

-- A remote device of spine-go.
pub record RemoteDevice : Type 0 where
  pub ref : ℕ
  pub ski : Text

abbrev pub same_text : Text → Text → Bool
same_text a b = ite (Text-discrete a b) true false

abbrev pub same_ref : ℕ → ℕ → Bool
same_ref a b = ite (ℕ_discrete a b) true false

abbrev pub is_ref : Option ℕ → ℕ → Bool
is_ref none b = false
is_ref (some a) b = same_ref a b

-- fmt's "%d" of an unsigned number: `fuel` bounds its digits.
unfoldable pub decimal_digits : ℕ → ℕ → Text
decimal_digits zero n = []
decimal_digits (suc fuel) n =
    let high = decimal_digits fuel (n / 10) in
    if ltb n 10 then (n + b'0') ∷ [] else high ++ (n % 10 + b'0') ∷ []

unfoldable pub decimal : ℕ → Text
decimal n = decimal_digits (suc n) n

-- strings.Join(parts, ":"), over the printed numbers.
unfoldable pub join_address : List ℕ → Text
join_address [] = []
join_address (a ∷ []) = decimal a
join_address (a ∷ b ∷ l) = decimal a ++ (b':' ∷ join_address (b ∷ l))

unfoldable pub entity_address_string : Option (List ℕ) → Text
entity_address_string none = []
entity_address_string (some addr) = join_address addr

unfoldable pub contains : Text → List Text → Bool
contains s [] = false
contains s (x ∷ l) = if same_text x s then true else contains s l

-- The loop of FeatureStrings; the result holds the keys that were seen.
unfoldable pub collect_features : List Text → List (Option Feature) → List Text
collect_features result [] = result
collect_features result (none ∷ l) = collect_features result l
collect_features result (some f ∷ l) =
    let key = f.type ++ (b'/' ∷ f.role) in
    collect_features (if contains key result then result else result ++ key ∷ []) l

unfoldable pub feature_strings : List (Option Feature) → List Text
feature_strings features = collect_features [] features

unfoldable pub entity_info : RemoteEntity → EntityInfo
entity_info e = record {
  address = entity_address_string e.address;
  type = e.entity_type;
  features = feature_strings e.features;
  entity = some e.ref;
}

-- The test of upsertEntityInfo: the same entity, or one at the same known address.
unfoldable pub is_same_entity : EntityInfo → ℕ → Text → Bool
is_same_entity existing ref address =
    is_ref existing.entity ref
    || (not (is_empty existing.address) && same_text existing.address address)

unfoldable pub upsert_entity_info : List EntityInfo → RemoteEntity → List EntityInfo
upsert_entity_info [] e = entity_info e ∷ []
upsert_entity_info (existing ∷ l) e =
    if is_same_entity existing e.ref (entity_info e).address
    then entity_info e ∷ l
    else existing ∷ upsert_entity_info l e

unfoldable pub has_ref : ℕ → List ℕ → Bool
has_ref r [] = false
has_ref r (x ∷ l) = if same_ref x r then true else has_ref r l

-- `r.catalog.devices[ski] = info`
unfoldable pub set_device : Registry → Text → DeviceInfo → Registry
set_device r ski info = record r { devices = insert ski info r.devices }

abbrev pub device_of : Registry → Text → Option DeviceInfo
device_of r ski = lookup ski r.devices

unfoldable pub add_device : Registry → Time → Text → DeviceInfo → Registry
add_device r now ski info =
    let ski' = normalize_ski ski in
    unless_removed r ski'
      (ensure_capabilities (set_device r ski' (record info { ski = ski' })) now ski')

abbrev pub observe_device : Option RemoteDevice → DeviceInfo → DeviceInfo
observe_device none info = info
observe_device (some d) info = record info { remote_device = some d.ref }

abbrev pub observe_entity : Option RemoteEntity → DeviceInfo → DeviceInfo
observe_entity none info = info
observe_entity (some e) info = record info {
  remote_entities =
      if has_ref e.ref info.remote_entities
      then info.remote_entities
      else info.remote_entities ++ e.ref ∷ [];
  entities = upsert_entity_info info.entities e;
}

abbrev pub observe_use_case : Text → DeviceInfo → DeviceInfo
observe_use_case use_case info =
    if is_empty use_case
    then info
    else if contains use_case info.use_cases
    then info
    else record info { use_cases = info.use_cases ++ use_case ∷ [] }

-- The SKI of a callback that came without one is that of its device.
unfoldable pub observed_ski : Text → Option RemoteDevice → Text
observed_ski ski none = normalize_ski ski
observed_ski ski (some d) = normalize_ski (if is_empty ski then d.ski else ski)

unfoldable pub upsert_observation :
    Registry → Time → Text → Option RemoteDevice → Option RemoteEntity → Text → Registry
upsert_observation r now ski device entity use_case =
    let ski' = observed_ski ski device in
    let r' = ensure_capabilities r now ski' in
    let info = record (or_zero no_info (device_of r' ski')) { ski = ski' } in
    unless_removed r ski' (
      set_device r' ski'
        (observe_use_case use_case (observe_entity entity (observe_device device info))))

-- An empty value keeps the old one.
abbrev pub or_old : Text → Text → Text
or_old new old = if not (is_empty new) then new else old

unfoldable pub classify : Text → Text → Text → Text → Text → Text → DeviceInfo → DeviceInfo
classify brand model serial device_type software hardware info = record info {
  brand = or_old brand info.brand;
  model = or_old model info.model;
  serial = or_old serial info.serial;
  device_type = or_old device_type info.device_type;
  software_revision = or_old software info.software_revision;
  hardware_revision = or_old hardware info.hardware_revision;
}

-- Whether a field that UpsertDeviceClassification may write differs.
unfoldable pub is_classified_anew : DeviceInfo → DeviceInfo → Bool
is_classified_anew info previous =
    not (same_text info.ski previous.ski)
    || not (same_text info.brand previous.brand)
    || not (same_text info.model previous.model)
    || not (same_text info.serial previous.serial)
    || not (same_text info.device_type previous.device_type)
    || not (same_text info.software_revision previous.software_revision)
    || not (same_text info.hardware_revision previous.hardware_revision)

unfoldable pub upsert_device_classification :
    Registry → Text → Text → Text → Text → Text → Text → Text → Registry × Bool
upsert_device_classification r ski brand model serial device_type software hardware =
    let ski' = normalize_ski ski in
    let previous = or_zero no_info (device_of r ski') in
    let info =
      classify brand model serial device_type software hardware (record previous { ski = ski' }) in
    if is_removed r ski'
    then (r, false)
    else (set_device r ski' info, is_classified_anew info previous)

unfoldable pub upsert_zone_label : Registry → Text → Text → Registry × Bool
upsert_zone_label r ski label =
    let ski' = normalize_ski ski in
    let previous = or_zero no_info (device_of r ski') in
    if is_empty label then (r, false) else if is_removed r ski' then (r, false) else (
      set_device r ski' (record previous { ski = ski'; zone_label = label }),
      not (same_text label previous.zone_label),
    )

unfoldable pub zone_label : Registry → Text → Text
zone_label r ski = (or_zero no_info (device_of r (normalize_ski ski))).zone_label

unfoldable pub remove_device : Registry → Text → Registry
remove_device r ski =
    let ski' = normalize_ski ski in
    record {
      devices = delete ski' r.devices;
      health = record {
        monitoring = delete ski' r.health.monitoring;
        heartbeat_required = delete ski' r.health.heartbeat_required;
      };
      capabilities = record (r.capabilities) {
        entries = delete ski' r.capabilities.entries;
        support = delete ski' r.capabilities.support;
      };
      removed = insert ski' tt r.removed;
    }

unfoldable pub clear_entities : Registry → Text → Registry
clear_entities r ski =
    let ski' = normalize_ski ski in
    unless_removed r ski' (elim (device_of r ski') [
      | none ↦ r
      | some info ↦
          set_device r ski'
            (record info { remote_device = none; remote_entities = []; entities = [] })
    ])

unfoldable pub without_ref : ℕ → List ℕ → List ℕ
without_ref r [] = []
without_ref r (x ∷ l) = if not (same_ref x r) then x ∷ without_ref r l else without_ref r l

-- The entities that RemoveEntityObservation keeps.
unfoldable pub is_kept : RemoteEntity → EntityInfo → Bool
is_kept removed e =
    not (is_ref e.entity removed.ref)
    && (is_empty (entity_address_string removed.address)
        || not (same_text e.address (entity_address_string removed.address)))

unfoldable pub without_entity : RemoteEntity → List EntityInfo → List EntityInfo
without_entity removed [] = []
without_entity removed (e ∷ l) =
    if is_kept removed e then e ∷ without_entity removed l else without_entity removed l

unfoldable pub remove_entity_observation : Registry → Text → Option RemoteEntity → Registry
remove_entity_observation r ski none = r
remove_entity_observation r ski (some removed) =
    let ski' = normalize_ski ski in
    unless_removed r ski' (elim (device_of r ski') [
      | none ↦ r
      | some info ↦ set_device r ski' (record info {
        remote_entities = without_ref removed.ref info.remote_entities;
        entities = without_entity removed info.entities;
      })
    ])

unfoldable pub get_device : Registry → Text → Option DeviceInfo
get_device r ski = device_of r (normalize_ski ski)

unfoldable pub known_device : Registry → Text → Bool
known_device r ski =
    let ski' = normalize_ski ski in
    if is_removed r ski'
    then false
    else is_some (device_of r ski') || is_some (lookup ski' r.health.monitoring)

unfoldable pub collect_devices : Store Text DeviceInfo → List DeviceInfo
collect_devices [] = []
collect_devices ((_, info) ∷ m) = info ∷ collect_devices m

unfoldable pub list_devices : Registry → List DeviceInfo
list_devices r = sort_by (λ d. normalize_ski d.ski) (collect_devices r.devices)

abbrev pub head? {ℓ} : {A : Type ℓ} → List A → Option A
head? [] = none
head? (x ∷ _) = some x

unfoldable pub first_entity : Registry → Text → Option ℕ
first_entity r ski = elim (device_of r (normalize_ski ski)) [
  | none ↦ none
  | some info ↦ head? info.remote_entities
]

-- EntityResolution
pub record EntityResolution : Type 0 where
  pub entity : Option ℕ
  pub device_count : ℕ

-- The loop of FirstAvailableEntity.
unfoldable pub scan_entities : Store Text DeviceInfo → Option ℕ → ℕ → Option ℕ × ℕ
scan_entities [] entity count = (entity, count)
scan_entities ((_, info) ∷ m) entity count =
    let more = not (is_empty info.remote_entities) in
    scan_entities m (if more && not (is_some entity) then head? info.remote_entities else entity)
      (if more then count + 1 else count)

unfoldable pub first_available_entity : Registry → EntityResolution
first_available_entity r =
    let (entity, count) = scan_entities r.devices none 0 in
    record { entity = if not (count == 1) then none else entity; device_count = count }

-- EntityResolution.Ambiguous
unfoldable pub is_ambiguous : EntityResolution → Bool
is_ambiguous r = not (is_some r.entity) && ltb 1 r.device_count

unfoldable pub entities_of : Registry → Text → List EntityInfo
entities_of r ski = elim (device_of r (normalize_ski ski)) [ none ↦ [] | some info ↦ info.entities ]

unfoldable pub find_type : Text → List EntityInfo → Option ℕ
find_type entity_type [] = none
find_type entity_type (e ∷ l) =
    if same_text e.type entity_type && is_some e.entity then e.entity else find_type entity_type l

unfoldable pub first_entity_for_type : Registry → Text → Text → Option ℕ
first_entity_for_type r ski entity_type = elim (device_of r (normalize_ski ski)) [
  | none ↦ none
  | some info ↦ find_type entity_type info.entities
]

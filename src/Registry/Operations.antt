-- ===== src/Registry/Operations.antt =====
-- The calls that change a DeviceRegistry, and their sequences. Calls are atomic: the lifecycle lock
-- excludes connection changes from all others, and a call that shares the lock writes one
-- projection under that projection's own lock.
pub mod Touches
pub mod Calls
pub mod Isolation
pub mod Removal
pub mod Entries
pub mod Connection
pub mod Tests
use eebus_ha_bridge.Prelude.{◌≡◌, List, [], ◌∷◌, Bool, true, false, Option}
use eebus_ha_bridge.Ski.{Text, normalize_ski}
use eebus_ha_bridge.Time.{Time}
use eebus_ha_bridge.Registry.State.{
  Capability, CapabilityState, CapabilityReason, DeviceInfo, Registry,
}
use eebus_ha_bridge.Registry.Capabilities.{
  set_local_capability_enabled, set_capability, record_capability_support,
  record_capability_source_support, record_capability_read, record_entity_not_bound,
  record_missing_entity,
}
use eebus_ha_bridge.Registry.Health.{
  mark_connected, mark_trusted, mark_untrusted, mark_disconnected, record_monitoring_success,
  record_remote_heartbeat,
}
use eebus_ha_bridge.Registry.Catalog.{
  RemoteDevice, RemoteEntity, add_device, observed_ski, upsert_observation,
  upsert_device_classification, upsert_zone_label, remove_device, clear_entities,
  remove_entity_observation,
}

pub data Operation : Type 0 where
  connects trusts untrusts disconnects succeeds beats removes clears : Text → Operation
  adds : Text → DeviceInfo → Operation
  observes : Text → Option RemoteDevice → Option RemoteEntity → Text → Operation
  classifies : Text → Text → Text → Text → Text → Text → Text → Operation
  labels : Text → Text → Operation
  drops : Text → Option RemoteEntity → Operation
  sets : Text → Capability → CapabilityState → CapabilityReason → Operation
  supports : Text → Capability → Bool → Operation
  sources : Text → Capability → Text → Bool → Operation
  reads : Text → Capability → Bool → Operation
  finds_none_bound misses_entity : Text → Capability → Operation
  switches : Capability → Bool → Operation

unfoldable pub apply : Registry → Time → Operation → Registry
apply r now (connects ski) = mark_connected r now ski
apply r now (trusts ski) = mark_trusted r now ski
apply r now (untrusts ski) = mark_untrusted r now ski
apply r now (disconnects ski) = mark_disconnected r now ski
apply r now (succeeds ski) = record_monitoring_success r now ski
apply r now (beats ski) = record_remote_heartbeat r now ski
apply r now (removes ski) = remove_device r ski
apply r now (clears ski) = clear_entities r ski
apply r now (adds ski info) = add_device r now ski info
apply r now (observes ski device entity use_case) =
    upsert_observation r now ski device entity use_case
apply r now (classifies ski brand model serial device_type software hardware) =
    (upsert_device_classification r ski brand model serial device_type software hardware).0
apply r now (labels ski label) = (upsert_zone_label r ski label).0
apply r now (drops ski entity) = remove_entity_observation r ski entity
apply r now (sets ski c state reason) = set_capability r now ski c state reason
apply r now (supports ski c advertised) = record_capability_support r now ski c advertised
apply r now (sources ski c source advertised) =
    record_capability_source_support r now ski c source advertised
apply r now (reads ski c failed) = record_capability_read r now ski c failed
apply r now (finds_none_bound ski c) = record_entity_not_bound r now ski c
apply r now (misses_entity ski c) = record_missing_entity r now ski c
apply r now (switches c enabled) = set_local_capability_enabled r now c enabled

unfoldable pub run : Registry → List (Time × Operation) → Registry
run r [] = r
run r ((now, op) ∷ ops) = run (apply r now op) ops

-- The key of the device that a call is about; a local switch is about no device.
abbrev pub subject : Operation → Text
subject (observes ski device entity use_case) = observed_ski ski device
subject (switches c enabled) = []
subject (connects ski) = normalize_ski ski
subject (trusts ski) = normalize_ski ski
subject (untrusts ski) = normalize_ski ski
subject (disconnects ski) = normalize_ski ski
subject (succeeds ski) = normalize_ski ski
subject (beats ski) = normalize_ski ski
subject (removes ski) = normalize_ski ski
subject (clears ski) = normalize_ski ski
subject (adds ski info) = normalize_ski ski
subject (classifies ski _ _ _ _ _ _) = normalize_ski ski
subject (labels ski _) = normalize_ski ski
subject (drops ski _) = normalize_ski ski
subject (sets ski _ _ _) = normalize_ski ski
subject (supports ski _ _) = normalize_ski ski
subject (sources ski _ _ _) = normalize_ski ski
subject (reads ski _ _) = normalize_ski ski
subject (finds_none_bound ski _) = normalize_ski ski
subject (misses_entity ski _) = normalize_ski ski

-- The key is not changed by a second normalization, as is the key of every plain text.
abbrev pub IsStable : Operation → Type 0
IsStable op = normalize_ski (subject op) ≡ subject op

-- All calls but those that start or end a device's lifetime, and the local switch.
abbrev pub is_ordinary : Operation → Bool
is_ordinary (trusts ski) = false
is_ordinary (removes ski) = false
is_ordinary (switches c enabled) = false
is_ordinary _ = true

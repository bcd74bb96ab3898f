-- ===== src/Callbacks.antt =====
-- Where the EEBUS service's events enter the bridge: eebus-bridge/internal/eebus/callbacks.go, and
-- the commands on trust of trust.go. Each callback writes the registry and then publishes. `S` is
-- the type of an mDNS service, which ship-go declares; what the log prints is not modelled.
pub mod Trust
pub mod Sequence
pub mod Tests
use eebus_ha_bridge.Prelude.{
  List, [], ◌∷◌, Bool, true, false, not, Option, none, some, if◌then◌else◌,
}
use eebus_ha_bridge.Ski.{Text, normalize_ski}
use eebus_ha_bridge.Time.{Time}
use eebus_ha_bridge.Bus.{
  Bus, EventType, event, publish, device_connected, device_disconnected, device_trust_removed,
  discovery_updated, pairing_updated,
}
use eebus_ha_bridge.Registry.State.{Registry, DeviceInfo, no_info}
use eebus_ha_bridge.Registry.Health.{
  mark_connected, mark_trusted, mark_untrusted, mark_disconnected,
}
use eebus_ha_bridge.Registry.Catalog.{add_device, clear_entities, remove_device}

pub record Callbacks (S : Type 0) : Type 0 where
  pub bus : Bus
  pub registry : Option Registry
  pub discovered_svcs : List S

-- `if c.registry != nil`
abbrev pub on_registry : (Registry → Registry) → Option Registry → Option Registry
on_registry f none = none
on_registry f (some r) = some (f r)

module _ {S : Type 0} where
  unfoldable pub new_callbacks : Bus → Callbacks S
  new_callbacks bus = record { bus = bus; registry = none; discovered_svcs = [] }

  unfoldable pub set_registry : Callbacks S → Registry → Callbacks S
  set_registry c registry = record c { registry = some registry }

  unfoldable pub publish_event : Callbacks S → Time → Text → EventType → Callbacks S
  publish_event c now ski type = record c { bus = publish c.bus now (event ski type) }

  unfoldable pub remote_service_connected : Callbacks S → Time → Text → Callbacks S
  remote_service_connected c now identity =
      let ski = normalize_ski identity in
      let registry' =
        on_registry
          (λ r. mark_connected (add_device r now ski (record no_info { ski = ski })) now ski)
          c.registry in
      publish_event (record c { registry = registry' }) now ski device_connected

  unfoldable pub remote_service_disconnected : Callbacks S → Time → Text → Callbacks S
  remote_service_disconnected c now identity =
      let ski = normalize_ski identity in
      let registry' =
        on_registry (λ r. clear_entities (mark_disconnected r now ski) ski) c.registry in
      publish_event (record c { registry = registry' }) now ski device_disconnected

  unfoldable pub visible_remote_mdns_services_updated : Callbacks S → Time → List S → Callbacks S
  visible_remote_mdns_services_updated c now entries =
      publish_event (record c { discovered_svcs = entries }) now [] discovery_updated

  -- ServiceUpdated
  unfoldable pub service_updated : Callbacks S → Callbacks S
  service_updated c = c

  unfoldable pub service_pairing_detail_update : Callbacks S → Time → Text → Callbacks S
  service_pairing_detail_update c now identity =
      publish_event c now (normalize_ski identity) pairing_updated

  unfoldable pub service_auto_trusted : Callbacks S → Time → Text → Callbacks S
  service_auto_trusted c now identity = record c {
    registry = on_registry (λ r. mark_trusted r now identity) c.registry;
  }

  unfoldable pub service_auto_trust_failed : Callbacks S → Time → Text → Callbacks S
  service_auto_trust_failed c now identity = record c {
    registry = on_registry (λ r. mark_untrusted r now identity) c.registry;
  }

  unfoldable pub service_auto_trust_removed : Callbacks S → Time → Text → Callbacks S
  service_auto_trust_removed c now identity =
      let ski = normalize_ski identity in
      let registry' = on_registry (λ r. clear_entities (mark_untrusted r now ski) ski) c.registry in
      publish_event (record c { registry = registry' }) now ski device_trust_removed

  unfoldable pub discovered_services : Callbacks S → List S
  discovered_services c = c.discovered_svcs

-- What the trust controller and the callbacks of the EEBUS service share.
pub record Shared : Type 0 where
  pub registry : Registry
  pub bus : Bus

-- remoteTrustService: a command of eebus-go, with all that its callbacks do before it returns.
pub record RemoteTrustService : Type 0 where
  pub register_remote_ski : Shared → Text → Shared
  pub unregister_remote_ski : Shared → Text → Shared

-- TrustController: which of its fields are not nil.
pub record TrustController : Type 0 where
  pub bridge : Option RemoteTrustService
  pub has_registry : Bool
  pub has_bus : Bool

-- NewTrustController: a nil *BridgeService makes a nil interface.
unfoldable pub new_trust_controller : Option RemoteTrustService → Bool → Bool → TrustController
new_trust_controller bridge has_registry has_bus = record {
  bridge = bridge;
  has_registry = has_registry;
  has_bus = has_bus;
}

pub data TrustError : Type 0 where
  bridge_required registry_required bus_required : TrustError

-- RegisterSKI; no error is `none`.
unfoldable pub register_ski : TrustController → Shared → Time → Text → Shared × Option TrustError
register_ski c s now ski = elim (c.bridge) [
  | none ↦ (s, some bridge_required)
  | some bridge ↦
      let s' = bridge.register_remote_ski s ski in
      (
        if c.has_registry then record s' { registry = mark_trusted s'.registry now ski } else s',
        none,
      )
]

unfoldable pub unregister_ski : TrustController → Shared → Time → Text → Shared × Option TrustError
unregister_ski c s now ski = elim (c.bridge) [
  | none ↦ (s, some bridge_required)
  | some bridge ↦
      let s' = bridge.unregister_remote_ski s ski in
      if not c.has_registry
      then (s, some registry_required)
      else if not c.has_bus
      then (s, some bus_required)
      else (
        record {
          registry = remove_device (mark_untrusted s'.registry now ski) ski;
          bus = publish s'.bus now (event ski device_trust_removed);
        },
        none,
      )
]

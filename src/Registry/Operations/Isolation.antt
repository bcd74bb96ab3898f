-- ===== src/Registry/Operations/Isolation.antt =====
-- A call about one device leaves every other device alone.
use eebus_ha_bridge.Prelude.{◌≡◌, ◌≢◌, refl, ◌∙◌, Bool, true, false, Option, if_both}
use eebus_ha_bridge.Store.{Store, lookup, delete}
use eebus_ha_bridge.Store.Laws.{lookup-insert_ne, lookup-delete_ne}
use eebus_ha_bridge.Ski.{Text, text_key, normalize_ski, is_empty}
use eebus_ha_bridge.Time.{Time}
use eebus_ha_bridge.Registry.State.{
  Capability, CapabilityState, CapabilityReason, DeviceCapability, DeviceInfo, MonitoringState,
  Registry, is_removed,
}
use eebus_ha_bridge.Registry.Capabilities.{set_capability}
use eebus_ha_bridge.Registry.Health.{mark_trusted}
use eebus_ha_bridge.Registry.Catalog.{
  upsert_device_classification, upsert_zone_label, remove_device,
}
use eebus_ha_bridge.Registry.Operations.{
  Operation, connects, trusts, untrusts, disconnects, succeeds, beats, removes, clears, adds,
  observes, classifies, labels, drops, sets, supports, sources, reads, finds_none_bound,
  misses_entity, switches, apply, subject, IsStable, is_ordinary,
}
use eebus_ha_bridge.Registry.Operations.Touches.{
  Touches, Touches-refl, set-Touches, set_monitoring-Touches, set_device-Touches,
  unless_removed-Touches,
}
use eebus_ha_bridge.Registry.Operations.Calls.{
  connects-Touches, untrusts-Touches, disconnects-Touches, succeeds-Touches, beats-Touches,
  clears-Touches, drops-Touches, adds-Touches, observes-Touches, supports-Touches, sources-Touches,
  reads-Touches, unbound-Touches, misses-Touches,
}

module _ (r : Registry) (now : Time) where
  classifies-Touches :
      (ski b m s t f h : Text)
      → Touches (normalize_ski ski) r (upsert_device_classification r ski b m s t f h).0
  unfolding upsert_device_classification
  classifies-Touches ski b m s t f h =
      if_both (λ (x : Registry × Bool). Touches k r x.0) (is_removed r k) (Touches-refl k r)
        (set_device-Touches r k _)
    where
      k : Text
      k = normalize_ski ski

  labels-Touches :
      (ski label : Text) → Touches (normalize_ski ski) r (upsert_zone_label r ski label).0
  unfolding upsert_zone_label
  labels-Touches ski label =
      if_both (λ (x : Registry × Bool). Touches k r x.0) (is_empty label) (Touches-refl k r)
        (if_both (λ (x : Registry × Bool). Touches k r x.0) (is_removed r k) (Touches-refl k r)
          (set_device-Touches r k _))
    where
      k : Text
      k = normalize_ski ski

  sets-Touches :
      (ski : Text) (c : Capability) (s : CapabilityState) (q : CapabilityReason)
      → Touches (normalize_ski ski) r (set_capability r now ski c s q)
  unfolding set_capability
  sets-Touches ski c s q =
      unless_removed-Touches (normalize_ski ski) r _ (set-Touches r now (normalize_ski ski) c s q)

  -- An ordinary call neither removes nor restores a device, and touches that of its key only.
  pub apply-Touches :
      (op : Operation)
      → is_ordinary op ≡ true
      → IsStable op
      → Touches (subject op) r (apply r now op)
  unfolding apply
  apply-Touches (connects ski) o h = connects-Touches r now ski
  apply-Touches (trusts ski) o h = cc
  apply-Touches (untrusts ski) o h = untrusts-Touches r now ski
  apply-Touches (disconnects ski) o h = disconnects-Touches r now ski
  apply-Touches (succeeds ski) o h = succeeds-Touches r now ski
  apply-Touches (beats ski) o h = beats-Touches r now ski
  apply-Touches (removes ski) o h = cc
  apply-Touches (clears ski) o h = clears-Touches r now ski
  apply-Touches (adds ski info) o h = adds-Touches r now ski info h
  apply-Touches (observes ski d e use_case) o h = observes-Touches r now ski d e use_case h
  apply-Touches (classifies ski b m s t f w) o h = classifies-Touches ski b m s t f w
  apply-Touches (labels ski label) o h = labels-Touches ski label
  apply-Touches (drops ski e) o h = drops-Touches r now ski e
  apply-Touches (sets ski c s q) o h = sets-Touches ski c s q
  apply-Touches (supports ski c b) o h = supports-Touches r now ski c b
  apply-Touches (sources ski c source b) o h = sources-Touches r now ski c source b
  apply-Touches (reads ski c failed) o h = reads-Touches r now ski c failed
  apply-Touches (finds_none_bound ski c) o h = unbound-Touches r now ski c
  apply-Touches (misses_entity ski c) o h = misses-Touches r now ski c
  apply-Touches (switches c enabled) o h = cc

-- All that the registry holds of one device.
pub record DeviceView : Type 0 where
  pub device : Option DeviceInfo
  pub monitoring : Option MonitoringState
  pub heartbeat_required : Option Bool
  pub entries : Option (Store Capability DeviceCapability)
  pub support : Option (Store Capability (Store Text Bool))
  pub removed : Option (Unit {0})

abbrev pub view : Registry → Text → DeviceView
view r k = record {
  device = lookup k r.devices;
  monitoring = lookup k r.health.monitoring;
  heartbeat_required = lookup k r.health.heartbeat_required;
  entries = lookup k r.capabilities.entries;
  support = lookup k r.capabilities.support;
  removed = lookup k r.removed;
}

pub Touches-view :
    {k : Text} {r r' : Registry} (j : Text) → Touches k r r' → k ≢ j → view r' j ≡ view r j
Touches-view j t h = cc (
  t.devices j h,
  t.monitoring j h,
  t.heartbeats j h,
  t.entries j h,
  t.support j h,
  t.same_removed,
)

pub trusts-view :
    (r : Registry) (now : Time) (ski j : Text)
    → normalize_ski ski ≢ j
    → view (mark_trusted r now ski) j ≡ view r j
unfolding mark_trusted
trusts-view r now ski j h =
    Touches-view j (set_monitoring-Touches restored (normalize_ski ski) _) h
    ∙ cc (lookup-delete_ne (normalize_ski ski) j r.removed h)
  where
    restored : Registry
    restored = record r { removed = delete (normalize_ski ski) r.removed }

pub removes-view :
    (r : Registry) (ski j : Text) → normalize_ski ski ≢ j → view (remove_device r ski) j ≡ view r j
unfolding remove_device
removes-view r ski j h = cc (
  lookup-delete_ne (normalize_ski ski) j r.devices h,
  lookup-delete_ne (normalize_ski ski) j r.health.monitoring h,
  lookup-delete_ne (normalize_ski ski) j r.health.heartbeat_required h,
  lookup-delete_ne (normalize_ski ski) j r.capabilities.entries h,
  lookup-delete_ne (normalize_ski ski) j r.capabilities.support h,
  lookup-insert_ne (normalize_ski ski) j tt r.removed h,
)

abbrev pub is_switch : Operation → Bool
is_switch (switches c enabled) = true
is_switch _ = false

-- Every call but the switch of a local capability, which is about all devices: with a key that a
-- second normalization does not change, the call leaves all that the registry holds of any device
-- with another key as it was.
pub apply-view :
    (r : Registry) (now : Time) (op : Operation) (j : Text)
    → is_switch op ≡ false
    → IsStable op
    → subject op ≢ j
    → view (apply r now op) j ≡ view r j
unfolding apply
apply-view r now (trusts ski) j s h n = trusts-view r now ski j n
apply-view r now (removes ski) j s h n = removes-view r ski j n
apply-view r now (switches c enabled) j s h n = cc
apply-view r now op j s h n = Touches-view j (apply-Touches r now op refl h) n

-- ===== src/Registry/Operations/Entries.antt =====
-- Whatever calls it has seen, the registry keeps the invariant of the capability entries.
use eebus_ha_bridge.Prelude.{refl, [], ◌∷◌, List, Bool, Option, none, some, arith, if_both}
use eebus_ha_bridge.Store.{delete}
use eebus_ha_bridge.Ski.{Text, text_key, normalize_ski, is_empty}
use eebus_ha_bridge.Time.{Time}
use eebus_ha_bridge.Registry.State.{capability_key}
use eebus_ha_bridge.Registry.State.{DeviceInfo, MonitoringState, Registry, is_removed}
use eebus_ha_bridge.Registry.Capabilities.{ensure_capabilities}
use eebus_ha_bridge.Registry.Health.{
  set_monitoring, monitoring_of, mark_connected, mark_trusted, mark_untrusted, mark_disconnected,
  record_monitoring_success, record_remote_heartbeat, disconnect_state,
}
use eebus_ha_bridge.Registry.Catalog.{
  set_device, device_of, add_device, observed_ski, upsert_observation, RemoteDevice, RemoteEntity,
  upsert_device_classification, upsert_zone_label, remove_device, clear_entities,
  remove_entity_observation,
}
use eebus_ha_bridge.Registry.Operations.{
  Operation, connects, trusts, untrusts, disconnects, succeeds, beats, removes, clears, adds,
  observes, classifies, labels, drops, sets, supports, sources, reads, finds_none_bound,
  misses_entity, switches, apply,
}
use eebus_ha_bridge.Registry.Operations.{run}
use eebus_ha_bridge.Registry.State.{new_registry}
use eebus_ha_bridge.Store.Laws.{lookup-delete}
use eebus_ha_bridge.Registry.Capabilities.Invariant.{
  Inv, new_registry-Inv, ensure-Inv, connect-Inv, disconnect-Inv,
}
use eebus_ha_bridge.Registry.Capabilities.Preserved.{
  Inv-of_same, unless_removed-Inv, set_capability-Inv, record_capability_support-Inv,
  record_capability_source_support-Inv, record_capability_read-Inv, record_entity_not_bound-Inv,
  record_missing_entity-Inv,
}
use eebus_ha_bridge.Registry.Capabilities.LocalSwitch.{set_local_capability_enabled-Inv}

set_monitoring-Inv :
    (r : Registry) (k : Text) (m : MonitoringState) → Inv r → Inv (set_monitoring r k m)
unfolding set_monitoring
set_monitoring-Inv r k m v = Inv-of_same r _ refl refl v

set_device-Inv : (r : Registry) (k : Text) (info : DeviceInfo) → Inv r → Inv (set_device r k info)
unfolding set_device
set_device-Inv r k info v = Inv-of_same r _ refl refl v

when_known :
    {A : Type 0} (r : Registry) (o : Option A) (f : A → Registry)
    → Inv r
    → ((a : A) → Inv (f a))
    → Inv (elim o [ none ↦ r | some a ↦ f a ])
when_known r none f v h = v
when_known r (some a) f v h = h a

module _ (r : Registry) (now : Time) (v : Inv r) where
  connects-Inv : (ski : Text) → Inv (mark_connected r now ski)
  unfolding mark_connected
  connects-Inv ski = unless_removed-Inv r _ (normalize_ski ski) v (
      if_both Inv _ v
        (connect-Inv _ now (normalize_ski ski) (set_monitoring-Inv r (normalize_ski ski) _ v)))

  trusts-Inv : (ski : Text) → Inv (mark_trusted r now ski)
  unfolding mark_trusted
  trusts-Inv ski =
      set_monitoring-Inv (record r { removed = delete (normalize_ski ski) r.removed })
        (normalize_ski ski) _ (Inv-of_same r _ refl refl v)

  untrusts-Inv : (ski : Text) → Inv (mark_untrusted r now ski)
  unfolding mark_untrusted
  untrusts-Inv ski =
      unless_removed-Inv r _ (normalize_ski ski) v
        (disconnect-Inv _ now (normalize_ski ski) (set_monitoring-Inv r (normalize_ski ski) _ v))

  disconnects-Inv : (ski : Text) → Inv (mark_disconnected r now ski)
  unfolding mark_disconnected
  disconnects-Inv ski = unless_removed-Inv r _ (normalize_ski ski) v (
      when_known r (monitoring_of r (normalize_ski ski)) _ v (λ state. if_both Inv _ v (
        disconnect-Inv _ now (normalize_ski ski)
          (set_monitoring-Inv r (normalize_ski ski) (disconnect_state now state) v))))

  succeeds-Inv : (ski : Text) → Inv (record_monitoring_success r now ski)
  unfolding record_monitoring_success
  succeeds-Inv ski = unless_removed-Inv r _ (normalize_ski ski) v (
      when_known r (monitoring_of r (normalize_ski ski)) _ v
        (λ state. set_monitoring-Inv r (normalize_ski ski) _ v))

  beats-Inv : (ski : Text) → Inv (record_remote_heartbeat r now ski)
  unfolding record_remote_heartbeat
  beats-Inv ski = unless_removed-Inv r _ (normalize_ski ski) v (
      when_known r (monitoring_of r (normalize_ski ski)) _ v
        (λ state. if_both Inv _ v (set_monitoring-Inv r (normalize_ski ski) _ v)))

  removes-Inv : (ski : Text) → Inv (remove_device r ski)
  unfolding remove_device
  removes-Inv ski = record {
    fit = λ k m h.
        v.fit k m (ground (arith, lookup-delete (normalize_ski ski) k r.capabilities.entries));
  }

  clears-Inv : (ski : Text) → Inv (clear_entities r ski)
  unfolding clear_entities
  clears-Inv ski = unless_removed-Inv r _ (normalize_ski ski) v (
      when_known r (device_of r (normalize_ski ski)) _ v
        (λ info. set_device-Inv r (normalize_ski ski) _ v))

  drops-Inv : (ski : Text) (e : Option RemoteEntity) → Inv (remove_entity_observation r ski e)
  unfolding remove_entity_observation
  drops-Inv ski none = v
  drops-Inv ski (some e) = unless_removed-Inv r _ (normalize_ski ski) v (
      when_known r (device_of r (normalize_ski ski)) _ v
        (λ info. set_device-Inv r (normalize_ski ski) _ v))

  adds-Inv : (ski : Text) (info : DeviceInfo) → Inv (add_device r now ski info)
  unfolding add_device ensure_capabilities
  adds-Inv ski info = unless_removed-Inv r _ (normalize_ski ski) v (
      ensure-Inv _ now (normalize_ski (normalize_ski ski))
        (set_device-Inv r (normalize_ski ski) _ v))

  observes-Inv :
      (ski : Text) (d : Option RemoteDevice) (e : Option RemoteEntity) (use_case : Text)
      → Inv (upsert_observation r now ski d e use_case)
  unfolding upsert_observation ensure_capabilities
  observes-Inv ski d e use_case = unless_removed-Inv r _ (observed_ski ski d) v (
      set_device-Inv _ (observed_ski ski d) _
        (ensure-Inv r now (normalize_ski (observed_ski ski d)) v))

  classifies-Inv : (ski b m s t f h : Text) → Inv (upsert_device_classification r ski b m s t f h).0
  unfolding upsert_device_classification
  classifies-Inv ski b m s t f h =
      if_both (λ (x : Registry × Bool). Inv x.0) (is_removed r (normalize_ski ski)) v
        (set_device-Inv r (normalize_ski ski) _ v)

  labels-Inv : (ski label : Text) → Inv (upsert_zone_label r ski label).0
  unfolding upsert_zone_label
  labels-Inv ski label =
      if_both (λ (x : Registry × Bool). Inv x.0) (is_empty label) v
        (if_both (λ (x : Registry × Bool). Inv x.0) (is_removed r (normalize_ski ski)) v
          (set_device-Inv r (normalize_ski ski) _ v))

  -- Every call keeps the invariant.
  pub apply-Inv : (op : Operation) → Inv (apply r now op)
  unfolding apply
  apply-Inv (connects ski) = connects-Inv ski
  apply-Inv (trusts ski) = trusts-Inv ski
  apply-Inv (untrusts ski) = untrusts-Inv ski
  apply-Inv (disconnects ski) = disconnects-Inv ski
  apply-Inv (succeeds ski) = succeeds-Inv ski
  apply-Inv (beats ski) = beats-Inv ski
  apply-Inv (removes ski) = removes-Inv ski
  apply-Inv (clears ski) = clears-Inv ski
  apply-Inv (adds ski info) = adds-Inv ski info
  apply-Inv (observes ski d e use_case) = observes-Inv ski d e use_case
  apply-Inv (classifies ski b m s t f h) = classifies-Inv ski b m s t f h
  apply-Inv (labels ski label) = labels-Inv ski label
  apply-Inv (drops ski e) = drops-Inv ski e
  apply-Inv (sets ski c s q) = set_capability-Inv r now ski c s q v
  apply-Inv (supports ski c b) = record_capability_support-Inv r now ski c b v
  apply-Inv (sources ski c source b) = record_capability_source_support-Inv r now ski c source b v
  apply-Inv (reads ski c failed) = record_capability_read-Inv r now ski c failed v
  apply-Inv (finds_none_bound ski c) = record_entity_not_bound-Inv r now ski c v
  apply-Inv (misses_entity ski c) = record_missing_entity-Inv r now ski c v
  apply-Inv (switches c enabled) = set_local_capability_enabled-Inv r now c enabled v

run_from-Inv : (ops : List (Time × Operation)) (r : Registry) → Inv r → Inv (run r ops)
unfolding run
run_from-Inv [] r v = v
run_from-Inv ((now, op) ∷ ops) r v = run_from-Inv ops (apply r now op) (apply-Inv r now v op)

-- After any sequence of calls on a new registry, each device that has entries has one for every
-- capability, under its own name, and a capability that is disabled locally is unsupported, with
-- that reason, on every such device.
pub run-Inv : (ops : List (Time × Operation)) → Inv (run new_registry ops)
run-Inv ops = run_from-Inv ops new_registry new_registry-Inv

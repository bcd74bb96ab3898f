-- ===== src/Registry/Operations/Calls.antt =====
-- What each call of the registry touches: the device of its key.
use eebus_ha_bridge.Prelude.{◌≡◌, Bool, true, false, Option, none, some, if_both, ◌&&◌, not}
use eebus_ha_bridge.Store.{or_zero}
use eebus_ha_bridge.Ski.{Text, text_key, normalize_ski}
use eebus_ha_bridge.Time.{Time}
use eebus_ha_bridge.Registry.State.{Capability, DeviceInfo, Registry, no_monitoring}
use eebus_ha_bridge.Registry.Capabilities.{
  ensure_capabilities, record_capability_support, record_capability_source_support,
  record_capability_read, record_entity_not_bound, record_missing_entity, is_heartbeat,
  has_entities, is_device_disconnected,
}
use eebus_ha_bridge.Registry.State.{
  temporarily_unavailable, available, unsupported, unspecified, read_failed, entity_not_bound,
  remote_not_advertised,
}
use eebus_ha_bridge.Registry.Health.{
  monitoring_of, mark_connected, mark_untrusted, mark_disconnected, record_monitoring_success,
  record_remote_heartbeat, disconnect_state,
}
use eebus_ha_bridge.Registry.Catalog.{
  device_of, add_device, observed_ski, upsert_observation, RemoteDevice, RemoteEntity,
  clear_entities, remove_entity_observation,
}
use eebus_ha_bridge.Registry.Operations.Touches.{
  Touches, Touches-refl, Touches-trans, ensure-Touches, set-Touches, set_monitoring-Touches,
  set_device-Touches, require_heartbeat-Touches, set_source-Touches, connected-Touches,
  disconnected-Touches, record_support-Touches, unless_removed-Touches, unless_settled-Touches,
}

-- ensureCapabilities normalizes its key, which a stable key survives.
ensure_capabilities-Touches :
    (r : Registry) (now : Time) (k : Text)
    → normalize_ski k ≡ k
    → Touches k r (ensure_capabilities r now k)
unfolding ensure_capabilities
ensure_capabilities-Touches r now k h = rw h (ensure-Touches r now k)

-- A call that acts on a known device only.
if_known :
    {A : Type 0} (k : Text) (r : Registry) (o : Option A) (f : A → Registry)
    → ((a : A) → Touches k r (f a))
    → Touches k r (elim o [ none ↦ r | some a ↦ f a ])
if_known k r none f h = Touches-refl k r
if_known k r (some a) f h = h a

module _ (r : Registry) (now : Time) (ski : Text) where
  pub connects-Touches : Touches (normalize_ski ski) r (mark_connected r now ski)
  unfolding mark_connected
  connects-Touches = unless_removed-Touches k r _ (
      if_both (Touches k r) (or_zero no_monitoring (monitoring_of r k)).connected (Touches-refl k r)
        (Touches-trans (set_monitoring-Touches r k _) (connected-Touches _ now k)))
    where
      k : Text
      k = normalize_ski ski

  pub untrusts-Touches : Touches (normalize_ski ski) r (mark_untrusted r now ski)
  unfolding mark_untrusted
  untrusts-Touches = unless_removed-Touches (normalize_ski ski) r _ (
      Touches-trans (set_monitoring-Touches r (normalize_ski ski) _)
        (disconnected-Touches _ now (normalize_ski ski)))

  pub disconnects-Touches : Touches (normalize_ski ski) r (mark_disconnected r now ski)
  unfolding mark_disconnected
  disconnects-Touches = unless_removed-Touches k r _ (
      if_known k r (monitoring_of r k) _ (λ state.
        if_both (Touches k r) (not state.connected) (Touches-refl k r) (
          Touches-trans (set_monitoring-Touches r k (disconnect_state now state))
            (disconnected-Touches _ now k))))
    where
      k : Text
      k = normalize_ski ski

  pub succeeds-Touches : Touches (normalize_ski ski) r (record_monitoring_success r now ski)
  unfolding record_monitoring_success
  succeeds-Touches =
      unless_removed-Touches k r _
        (if_known k r (monitoring_of r k) _ (λ state. set_monitoring-Touches r k _))
    where
      k : Text
      k = normalize_ski ski

  pub beats-Touches : Touches (normalize_ski ski) r (record_remote_heartbeat r now ski)
  unfolding record_remote_heartbeat
  beats-Touches = unless_removed-Touches k r _ (
      if_known k r (monitoring_of r k) _ (λ state.
        if_both (Touches k r) (not state.connected) (Touches-refl k r)
          (set_monitoring-Touches r k _)))
    where
      k : Text
      k = normalize_ski ski

  pub clears-Touches : Touches (normalize_ski ski) r (clear_entities r ski)
  unfolding clear_entities
  clears-Touches =
      unless_removed-Touches k r _
        (if_known k r (device_of r k) _ (λ info. set_device-Touches r k _))
    where
      k : Text
      k = normalize_ski ski

  pub drops-Touches :
      (e : Option RemoteEntity) → Touches (normalize_ski ski) r (remove_entity_observation r ski e)
  unfolding remove_entity_observation
  drops-Touches none = Touches-refl (normalize_ski ski) r
  drops-Touches (some e) = unless_removed-Touches (normalize_ski ski) r _ (
      if_known (normalize_ski ski) r (device_of r (normalize_ski ski)) _
        (λ info. set_device-Touches r (normalize_ski ski) _))

  pub adds-Touches :
      (info : DeviceInfo)
      → normalize_ski (normalize_ski ski) ≡ normalize_ski ski
      → Touches (normalize_ski ski) r (add_device r now ski info)
  unfolding add_device
  adds-Touches info h = unless_removed-Touches (normalize_ski ski) r _ (
      Touches-trans (set_device-Touches r (normalize_ski ski) _)
        (ensure_capabilities-Touches _ now (normalize_ski ski) h))

  pub observes-Touches :
      (d : Option RemoteDevice) (e : Option RemoteEntity) (use_case : Text)
      → normalize_ski (observed_ski ski d) ≡ observed_ski ski d
      → Touches (observed_ski ski d) r (upsert_observation r now ski d e use_case)
  unfolding upsert_observation
  observes-Touches d e use_case h = unless_removed-Touches (observed_ski ski d) r _ (
      Touches-trans (ensure_capabilities-Touches r now (observed_ski ski d) h)
        (set_device-Touches _ (observed_ski ski d) _))

  pub supports-Touches :
      (c : Capability) (b : Bool)
      → Touches (normalize_ski ski) r (record_capability_support r now ski c b)
  unfolding record_capability_support
  supports-Touches c b = unless_removed-Touches k r _ (
      Touches-trans
        (if_both (Touches k r) (is_heartbeat c && b) (require_heartbeat-Touches r k)
          (Touches-refl k r))
        (record_support-Touches _ now k c b (is_device_disconnected r k)))
    where
      k : Text
      k = normalize_ski ski

  pub sources-Touches :
      (c : Capability) (source : Text) (b : Bool)
      → Touches (normalize_ski ski) r (record_capability_source_support r now ski c source b)
  unfolding record_capability_source_support
  sources-Touches c source b = unless_removed-Touches (normalize_ski ski) r _ (
      Touches-trans (set_source-Touches r (normalize_ski ski) c source b) (
        record_support-Touches _ now (normalize_ski ski) c _
          (is_device_disconnected r (normalize_ski ski))))

  pub reads-Touches :
      (c : Capability) (failed : Bool)
      → Touches (normalize_ski ski) r (record_capability_read r now ski c failed)
  unfolding record_capability_read
  reads-Touches c true = unless_removed-Touches (normalize_ski ski) r _ (
      unless_settled-Touches r now (normalize_ski ski) c _
        (λ r'. set-Touches r' now (normalize_ski ski) c temporarily_unavailable read_failed))
  reads-Touches c false = unless_removed-Touches (normalize_ski ski) r _ (
      unless_settled-Touches r now (normalize_ski ski) c _
        (λ r'. set-Touches r' now (normalize_ski ski) c available unspecified))

  pub unbound-Touches :
      (c : Capability) → Touches (normalize_ski ski) r (record_entity_not_bound r now ski c)
  unfolding record_entity_not_bound
  unbound-Touches c = unless_removed-Touches (normalize_ski ski) r _ (
      unless_settled-Touches r now (normalize_ski ski) c _
        (λ r'. set-Touches r' now (normalize_ski ski) c temporarily_unavailable entity_not_bound))

  pub misses-Touches :
      (c : Capability) → Touches (normalize_ski ski) r (record_missing_entity r now ski c)
  unfolding record_missing_entity
  misses-Touches c = unless_removed-Touches k r _ (
      unless_settled-Touches r now k c _ (λ r'.
        if_both (Touches k r') (has_entities r k)
          (set-Touches r' now k c unsupported remote_not_advertised)
          (set-Touches r' now k c temporarily_unavailable entity_not_bound)))
    where
      k : Text
      k = normalize_ski ski

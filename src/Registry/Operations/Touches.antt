-- ===== src/Registry/Operations/Touches.antt =====
-- A call about one device leaves every other device alone.
use eebus_ha_bridge.Prelude.{
  ◌≡◌, ◌≢◌, refl, ◌∙◌, [], ◌∷◌, Bool, true, false, arith, if_both, Option-cases, inl, inr, not,
}
use eebus_ha_bridge.Store.{Store, lookup}
use eebus_ha_bridge.Store.Laws.{lookup-insert_ne}
use eebus_ha_bridge.Ski.{Text, text_key}
use eebus_ha_bridge.Time.{Time}
use eebus_ha_bridge.Registry.State.{
  Capability, CapabilityState, CapabilityReason, DeviceCapability, DeviceInfo, MonitoringState,
  Registry, is_removed,
}
use eebus_ha_bridge.Registry.State.{
  unknown, unsupported, temporarily_unavailable, entity_not_bound, device_disconnected, unspecified,
  remote_not_advertised, same_state, same_reason,
}
use eebus_ha_bridge.Registry.Capabilities.{
  is_device_disconnected, ensure_capabilities_locked, set_capability_locked, unless_removed,
  unless_settled, connect_entry, connect_loop, disconnect_entry, disconnect_loop,
  mark_capabilities_connected, mark_capabilities_disconnected, record_support_locked,
  require_heartbeat, set_source, entries_of,
}
use eebus_ha_bridge.Registry.Capabilities.Entries.{
  Frame, ensure-Frame, set-Frame, entries-ensure, entries-set,
}
use eebus_ha_bridge.Registry.Health.{set_monitoring}
use eebus_ha_bridge.Registry.Catalog.{set_device}

-- Nothing is removed or restored, and no device but that of `k` differs.
pub record Touches (k : Text) (r r' : Registry) : Type 0 where
  pub same_removed : r'.removed ≡ r.removed
  pub devices : (j : Text) → k ≢ j → lookup j r'.devices ≡ lookup j r.devices
  pub monitoring : (j : Text) → k ≢ j → lookup j r'.health.monitoring ≡ lookup j r.health.monitoring
  pub heartbeats :
      (j : Text)
      → k ≢ j
      → lookup j r'.health.heartbeat_required ≡ lookup j r.health.heartbeat_required
  pub entries :
      (j : Text) → k ≢ j → lookup j r'.capabilities.entries ≡ lookup j r.capabilities.entries
  pub support :
      (j : Text) → k ≢ j → lookup j r'.capabilities.support ≡ lookup j r.capabilities.support

pub Touches-refl : (k : Text) (r : Registry) → Touches k r r
Touches-refl k r = record {
  same_removed = refl;
  devices = λ j h. refl;
  monitoring = λ j h. refl;
  heartbeats = λ j h. refl;
  entries = λ j h. refl;
  support = λ j h. refl;
}

pub Touches-trans : {k : Text} {r s t : Registry} → Touches k r s → Touches k s t → Touches k r t
Touches-trans f g = record {
  same_removed = g.same_removed ∙ f.same_removed;
  devices = λ j h. g.devices j h ∙ f.devices j h;
  monitoring = λ j h. g.monitoring j h ∙ f.monitoring j h;
  heartbeats = λ j h. g.heartbeats j h ∙ f.heartbeats j h;
  entries = λ j h. g.entries j h ∙ f.entries j h;
  support = λ j h. g.support j h ∙ f.support j h;
}

-- A call that leaves all but the entries alone, and changes those of `k` only.
of_Frame :
    (k : Text) (r r' : Registry)
    → Frame r r'
    → ((j : Text) → k ≢ j → lookup j r'.capabilities.entries ≡ lookup j r.capabilities.entries)
    → Touches k r r'
of_Frame k r r' f e = record {
  same_removed = f.same_removed;
  devices = λ j h. cc (f.same_devices);
  monitoring = λ j h. cc (f.same_health);
  heartbeats = λ j h. cc (f.same_health);
  entries = e;
  support = λ j h. cc (f.same_support);
}

pub ensure-Touches :
    (r : Registry) (now : Time) (k : Text) → Touches k r (ensure_capabilities_locked r now k)
ensure-Touches r now k =
    of_Frame k r _ (ensure-Frame r now k) (λ j h. ground (arith, entries-ensure r now k j))

pub set-Touches :
    (r : Registry) (now : Time) (k : Text) (c : Capability) (s : CapabilityState)
    (q : CapabilityReason)
    → Touches k r (set_capability_locked r now k c s q)
set-Touches r now k c s q =
    of_Frame k r _ (set-Frame r now k c s q) (λ j h. ground (arith, entries-set r now k j c s q))

pub set_monitoring-Touches :
    (r : Registry) (k : Text) (m : MonitoringState) → Touches k r (set_monitoring r k m)
unfolding set_monitoring
set_monitoring-Touches r k m = record {
  same_removed = refl;
  devices = λ j h. refl;
  monitoring = λ j h. lookup-insert_ne k j m r.health.monitoring h;
  heartbeats = λ j h. refl;
  entries = λ j h. refl;
  support = λ j h. refl;
}

pub set_device-Touches :
    (r : Registry) (k : Text) (info : DeviceInfo) → Touches k r (set_device r k info)
unfolding set_device
set_device-Touches r k info = record {
  same_removed = refl;
  devices = λ j h. lookup-insert_ne k j info r.devices h;
  monitoring = λ j h. refl;
  heartbeats = λ j h. refl;
  entries = λ j h. refl;
  support = λ j h. refl;
}

pub require_heartbeat-Touches : (r : Registry) (k : Text) → Touches k r (require_heartbeat r k)
unfolding require_heartbeat
require_heartbeat-Touches r k = elim (Option-cases (lookup k r.health.monitoring)) [
  | inl e ↦
      rw (e, require_heartbeat)
        (record {
          same_removed = refl;
          devices = λ j h. refl;
          monitoring = λ j h. refl;
          heartbeats = λ j h. lookup-insert_ne k j true r.health.heartbeat_required h;
          entries = λ j h. refl;
          support = λ j h. refl;
        })
  | inr (m, e) ↦
      rw (e, require_heartbeat)
        (record {
          same_removed = refl;
          devices = λ j h. refl;
          monitoring = λ j h.
              lookup-insert_ne k j (record m { heartbeat_required = true }) r.health.monitoring h;
          heartbeats = λ j h. lookup-insert_ne k j true r.health.heartbeat_required h;
          entries = λ j h. refl;
          support = λ j h. refl;
        })
]

pub set_source-Touches :
    (r : Registry) (k : Text) (c : Capability) (source : Text) (advertised : Bool)
    → Touches k r (set_source r k c source advertised)
unfolding set_source
set_source-Touches r k c source advertised = record {
  same_removed = refl;
  devices = λ j h. refl;
  monitoring = λ j h. refl;
  heartbeats = λ j h. refl;
  entries = λ j h. refl;
  support = λ j h. lookup-insert_ne k j _ r.capabilities.support h;
}

connect_loop-Touches :
    (k : Text) (now : Time) (l : Store Capability DeviceCapability) (r : Registry)
    → Touches k r (connect_loop r now k l)
unfolding connect_loop connect_entry
connect_loop-Touches k now [] r = Touches-refl k r
connect_loop-Touches k now ((c, e) ∷ l) r =
    Touches-trans
      (if_both (Touches k r) (same_reason e.reason device_disconnected)
        (set-Touches r now k c unknown entity_not_bound) (Touches-refl k r))
      (connect_loop-Touches k now l (connect_entry r now k c e))

disconnect_loop-Touches :
    (k : Text) (now : Time) (l : Store Capability DeviceCapability) (r : Registry)
    → Touches k r (disconnect_loop r now k l)
unfolding disconnect_loop disconnect_entry
disconnect_loop-Touches k now [] r = Touches-refl k r
disconnect_loop-Touches k now ((c, e) ∷ l) r =
    Touches-trans
      (if_both (Touches k r) (not (same_state e.state unsupported))
        (set-Touches r now k c temporarily_unavailable device_disconnected) (Touches-refl k r))
      (disconnect_loop-Touches k now l (disconnect_entry r now k c e))

pub connected-Touches :
    (r : Registry) (now : Time) (k : Text) → Touches k r (mark_capabilities_connected r now k)
unfolding mark_capabilities_connected
connected-Touches r now k =
    Touches-trans (ensure-Touches r now k) (connect_loop-Touches k now (entries_of r now k) _)

pub disconnected-Touches :
    (r : Registry) (now : Time) (k : Text) → Touches k r (mark_capabilities_disconnected r now k)
unfolding mark_capabilities_disconnected
disconnected-Touches r now k =
    Touches-trans (ensure-Touches r now k) (disconnect_loop-Touches k now (entries_of r now k) _)

pub record_support-Touches :
    (r : Registry) (now : Time) (k : Text) (c : Capability) (advertised disconnected : Bool)
    → Touches k r (record_support_locked r now k c advertised disconnected)
unfolding record_support_locked
record_support-Touches r now k c advertised true =
    if_both (Touches k r) _
      (Touches-trans (ensure-Touches r now k)
        (set-Touches _ now k c temporarily_unavailable device_disconnected))
      (ensure-Touches r now k)
record_support-Touches r now k c true false = set-Touches r now k c unknown unspecified
record_support-Touches r now k c false false =
    set-Touches r now k c unsupported remote_not_advertised

pub unless_removed-Touches :
    (k : Text) (r r' : Registry) → Touches k r r' → Touches k r (unless_removed r k r')
unfolding unless_removed
unless_removed-Touches k r r' t = if_both (Touches k r) (is_removed r k) (Touches-refl k r) t

pub unless_settled-Touches :
    (r : Registry) (now : Time) (k : Text) (c : Capability) (outcome : Registry → Registry)
    → ((r' : Registry) → Touches k r' (outcome r'))
    → Touches k r (unless_settled r now k c outcome)
unfolding unless_settled
unless_settled-Touches r now k c outcome keep = if_both (Touches k r) _ (ensure-Touches r now k) (
    if_both (Touches k r) (is_device_disconnected r k)
      (Touches-trans (ensure-Touches r now k)
        (set-Touches _ now k c temporarily_unavailable device_disconnected))
      (Touches-trans (ensure-Touches r now k) (keep _)))

-- ===== src/Registry/Capabilities/Preserved.antt =====
-- Each operation on capabilities keeps the invariant of the entries.
use eebus_ha_bridge.Prelude.{◌≡◌, refl, Bool, true, false, if◌then◌else◌, arith, ◌&&◌, if_both}
use eebus_ha_bridge.Store.{lookup}
use eebus_ha_bridge.Ski.{Text, text_key, normalize_ski}
use eebus_ha_bridge.Time.{Time}
use eebus_ha_bridge.Registry.State.{
  Capability, capability_key, CapabilityState, CapabilityReason, Registry, same_state, is_removed,
}
use eebus_ha_bridge.Registry.State.{
  available, unsupported, read_failed, temporarily_unavailable, unspecified, remote_not_advertised,
  entity_not_bound, device_disconnected,
}
use eebus_ha_bridge.Registry.Capabilities.{
  entries_of, state_of, set_capability, require_heartbeat, record_capability_support, set_source,
  record_capability_source_support, record_capability_read, record_entity_not_bound,
  record_missing_entity, unless_removed, unless_settled, is_device_disconnected, has_entities,
  is_heartbeat,
}
use eebus_ha_bridge.Registry.Capabilities.Invariant.{Inv, set-Inv, ensure-Inv, record_support-Inv}

-- The invariant reads the entries and the local switches only.
pub Inv-of_same :
    (r r' : Registry)
    → r'.capabilities.entries ≡ r.capabilities.entries
    → r'.capabilities.local_capabilities ≡ r.capabilities.local_capabilities
    → Inv r
    → Inv r'
Inv-of_same r r' e f v = record { fit = λ ski m h c. rw f (v.fit ski m (rw (← e) h) c) }

pub unless_removed-Inv :
    (r r' : Registry) (ski : Text) → Inv r → Inv r' → Inv (unless_removed r ski r')
unfolding unless_removed
unless_removed-Inv r r' ski v v' = if_both Inv (is_removed r ski) v v'

pub set_capability-Inv :
    (r : Registry) (now : Time) (ski : Text) (c : Capability) (s : CapabilityState)
    (q : CapabilityReason)
    → Inv r
    → Inv (set_capability r now ski c s q)
unfolding set_capability
set_capability-Inv r now ski c s q v =
    unless_removed-Inv r _ (normalize_ski ski) v (set-Inv r now (normalize_ski ski) c s q v)

require_heartbeat-Inv : (r : Registry) (ski : Text) → Inv r → Inv (require_heartbeat r ski)
unfolding require_heartbeat
require_heartbeat-Inv r ski v =
    Inv-of_same r (require_heartbeat r ski) (ground arith) (ground arith) v

pub record_capability_support-Inv :
    (r : Registry) (now : Time) (ski : Text) (c : Capability) (advertised : Bool)
    → Inv r
    → Inv (record_capability_support r now ski c advertised)
unfolding record_capability_support
record_capability_support-Inv r now ski c advertised v =
    unless_removed-Inv r _ ski' v (record_support-Inv _ now ski' c advertised _ required)
  where
    ski' : Text
    ski' = normalize_ski ski

    required : Inv (if is_heartbeat c && advertised then require_heartbeat r ski' else r)
    required = if_both Inv (is_heartbeat c && advertised) (require_heartbeat-Inv r ski' v) v

pub record_capability_source_support-Inv :
    (r : Registry) (now : Time) (ski : Text) (c : Capability) (source : Text) (advertised : Bool)
    → Inv r
    → Inv (record_capability_source_support r now ski c source advertised)
unfolding record_capability_source_support set_source
record_capability_source_support-Inv r now ski c source advertised v =
    unless_removed-Inv r _ (normalize_ski ski) v (
      record_support-Inv (set_source r (normalize_ski ski) c source advertised) now _ c _ _
        (Inv-of_same r _ refl refl v))

unless_settled-Inv :
    (r : Registry) (now : Time) (ski : Text) (c : Capability) (outcome : Registry → Registry)
    → ((r' : Registry) → Inv r' → Inv (outcome r'))
    → Inv r
    → Inv (unless_settled r now ski c outcome)
unfolding unless_settled
unless_settled-Inv r now ski c outcome keep v =
    if_both Inv (same_state (state_of (lookup c (entries_of r now ski))) unsupported)
      (ensure-Inv r now ski v)
      (if_both Inv (is_device_disconnected r ski)
        (set-Inv _ now ski c temporarily_unavailable device_disconnected (ensure-Inv r now ski v))
        (keep _ (ensure-Inv r now ski v)))

pub record_capability_read-Inv :
    (r : Registry) (now : Time) (ski : Text) (c : Capability) (failed : Bool)
    → Inv r
    → Inv (record_capability_read r now ski c failed)
unfolding record_capability_read
record_capability_read-Inv r now ski c true v = unless_removed-Inv r _ (normalize_ski ski) v (
    unless_settled-Inv r now (normalize_ski ski) c _
      (λ r' v'. set-Inv r' now (normalize_ski ski) c temporarily_unavailable read_failed v') v)
record_capability_read-Inv r now ski c false v = unless_removed-Inv r _ (normalize_ski ski) v (
    unless_settled-Inv r now (normalize_ski ski) c _
      (λ r' v'. set-Inv r' now (normalize_ski ski) c available unspecified v') v)

pub record_entity_not_bound-Inv :
    (r : Registry) (now : Time) (ski : Text) (c : Capability)
    → Inv r
    → Inv (record_entity_not_bound r now ski c)
unfolding record_entity_not_bound
record_entity_not_bound-Inv r now ski c v = unless_removed-Inv r _ (normalize_ski ski) v (
    unless_settled-Inv r now (normalize_ski ski) c _
      (λ r' v'. set-Inv r' now (normalize_ski ski) c temporarily_unavailable entity_not_bound v') v)

pub record_missing_entity-Inv :
    (r : Registry) (now : Time) (ski : Text) (c : Capability)
    → Inv r
    → Inv (record_missing_entity r now ski c)
unfolding record_missing_entity
record_missing_entity-Inv r now ski c v = unless_removed-Inv r _ (normalize_ski ski) v (
    unless_settled-Inv r now (normalize_ski ski) c _
      (λ r' v'.
        if_both Inv (has_entities r (normalize_ski ski))
          (set-Inv r' now (normalize_ski ski) c unsupported remote_not_advertised v')
          (set-Inv r' now (normalize_ski ski) c temporarily_unavailable entity_not_bound v'))
      v)

-- ===== src/Registry/Capabilities/Entries.antt =====
-- How a write to one capability shows in the entries of every device, and what it leaves alone.
use eebus_ha_bridge.Prelude.{◌≡◌, refl, [], some, if◌then◌else◌, ite, arith, ◌&&◌}
use eebus_ha_bridge.Store.{Store, lookup, insert}
use eebus_ha_bridge.Store.Laws.{lookup-insert}
use eebus_ha_bridge.Ski.{Text, text_key}
use eebus_ha_bridge.Time.{Time}
use eebus_ha_bridge.Registry.State.{
  Capability, monitoring, lpc, failsafe, heartbeat, ohpcf, dhw, dhw_system_function, room_heating,
  Capability-discrete, capability_key, CapabilityState, CapabilityReason, DeviceCapability,
  Registry, unsupported, local_disabled, same_state, same_reason,
}
use eebus_ha_bridge.Registry.Capabilities.{
  all_capabilities, locally_disabled, initial_entry, fill_entries, set_entries, entries_of,
  ensure_capabilities_locked, set_capability_locked, state_of, reason_of,
}

-- All but the entries is as it was.
pub record Frame (r r' : Registry) : Type 0 where
  pub same_devices : r'.devices ≡ r.devices
  pub same_health : r'.health ≡ r.health
  pub same_support : r'.capabilities.support ≡ r.capabilities.support
  pub same_locals : r'.capabilities.local_capabilities ≡ r.capabilities.local_capabilities
  pub same_removed : r'.removed ≡ r.removed

pub Frame-refl : (r : Registry) → Frame r r
Frame-refl r = ground arith

pub Frame-trans : {r s t : Registry} → Frame r s → Frame s t → Frame r t
Frame-trans f g = ground arith

pub ensure-Frame :
    (r : Registry) (now : Time) (ski : Text) → Frame r (ensure_capabilities_locked r now ski)
unfolding ensure_capabilities_locked set_entries
ensure-Frame r now ski = ground arith

pub set-Frame :
    (r : Registry) (now : Time) (ski : Text) (c : Capability) (s : CapabilityState)
    (q : CapabilityReason)
    → Frame r (set_capability_locked r now ski c s q)
unfolding set_capability_locked set_entries
set-Frame r now ski c s q = ground (arith, ensure-Frame r now ski)

-- A new device has an entry for every capability.
pub lookup-fill_entries :
    (r : Registry) (now : Time) (c : Capability)
    → lookup c (fill_entries r now all_capabilities []) ≡ some (initial_entry r now c)
unfolding fill_entries lookup insert Capability-discrete
lookup-fill_entries r now monitoring = refl
lookup-fill_entries r now lpc = refl
lookup-fill_entries r now failsafe = refl
lookup-fill_entries r now heartbeat = refl
lookup-fill_entries r now ohpcf = refl
lookup-fill_entries r now dhw = refl
lookup-fill_entries r now dhw_system_function = refl
lookup-fill_entries r now room_heating = refl

pub entries-ensure :
    (r : Registry) (now : Time) (ski j : Text)
    → lookup j (ensure_capabilities_locked r now ski).capabilities.entries
      ≡ ite (text_key.same ski j) (some (entries_of r now ski)) (lookup j r.capabilities.entries)
unfolding ensure_capabilities_locked set_entries entries_of
entries-ensure r now ski j =
    ground
      (arith, lookup-insert ski j (fill_entries r now all_capabilities []) r.capabilities.entries)

-- The entries of the device after a write to one of them.
abbrev pub written :
    Registry
    → Time
    → Text
    → Capability
    → CapabilityState
    → CapabilityReason
    → Store Capability DeviceCapability
written r now ski c s q =
    let disabled = locally_disabled r c in
    let s' = if disabled then unsupported else s in
    let q' = if disabled then local_disabled else q in
    let current = lookup c (entries_of r now ski) in
    if same_state (state_of current) s' && same_reason (reason_of current) q'
    then entries_of r now ski
    else insert c (record { id = c; state = s'; reason = q'; last_changed = now })
        (entries_of r now ski)

pub entries-set :
    (r : Registry) (now : Time) (ski j : Text) (c : Capability) (s : CapabilityState)
    (q : CapabilityReason)
    → lookup j (set_capability_locked r now ski c s q).capabilities.entries
      ≡ ite (text_key.same ski j) (some (written r now ski c s q)) (lookup j r.capabilities.entries)
unfolding set_capability_locked set_entries
entries-set r now ski j c s q = ground (
  arith,
  entries-ensure r now ski j,
  lookup-insert ski j (written r now ski c s q)
      (ensure_capabilities_locked r now ski).capabilities.entries,
)

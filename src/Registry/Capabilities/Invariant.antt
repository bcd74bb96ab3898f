-- ===== src/Registry/Capabilities/Invariant.antt =====
-- Every device that has entries has one for each capability, under its own name, and a capability
-- that is disabled locally is unsupported for that reason on every device.
use eebus_ha_bridge.Prelude.{
  ◌≡◌, [], ◌∷◌, Bool, true, false, Option, none, some, if◌then◌else◌, ite, not, arith, inl, inr,
  if_both, Option-cases, subst,
}
use eebus_ha_bridge.Store.{Store, lookup}
use eebus_ha_bridge.Store.Laws.{lookup-insert}
use eebus_ha_bridge.Ski.{Text, text_key}
use eebus_ha_bridge.Time.{Time}
use eebus_ha_bridge.Registry.State.{
  Capability, capability_key, CapabilityState, CapabilityReason, DeviceCapability, Registry,
  unsupported, local_disabled, same_state, same_reason, new_registry,
}
use eebus_ha_bridge.Registry.State.{
  unknown, temporarily_unavailable, unspecified, remote_not_advertised, entity_not_bound,
  device_disconnected,
}
use eebus_ha_bridge.Registry.Capabilities.{
  is_disabled, locally_disabled, initial_entry, entries_of, ensure_capabilities_locked,
  set_capability_locked, connect_loop, connect_entry, disconnect_loop, disconnect_entry,
  mark_capabilities_connected, mark_capabilities_disconnected, record_support_locked,
}
use eebus_ha_bridge.Registry.Capabilities.Entries.{
  Frame, ensure-Frame, set-Frame, lookup-fill_entries, entries-ensure, entries-set, written,
}

abbrev pub Fits : Option Bool → Capability → Option DeviceCapability → Type 0
Fits local c none = ⊥
Fits local c (some e) =
    (e.id ≡ c) × (is_disabled local ≡ true → (e.state ≡ unsupported) × (e.reason ≡ local_disabled))

-- The entries of one device.
abbrev pub AllFit : Store Capability Bool → Store Capability DeviceCapability → Type 0
AllFit locals m = (c : Capability) → Fits (lookup c locals) c (lookup c m)

pub record Inv (r : Registry) : Type 0 where
  pub fit :
      (ski : Text) (m : Store Capability DeviceCapability)
      → lookup ski r.capabilities.entries ≡ some m
      → AllFit r.capabilities.local_capabilities m

pub new_registry-Inv : Inv new_registry
unfolding new_registry lookup
new_registry-Inv = record { fit = λ ski m h. cc }

pub initial_entry-Fits :
    (r : Registry) (now : Time) (c : Capability)
    → Fits (lookup c r.capabilities.local_capabilities) c (some (initial_entry r now c))
unfolding initial_entry locally_disabled
initial_entry-Fits r now c = ground arith

pub entries_of-AllFit :
    (r : Registry) (now : Time) (ski : Text)
    → Inv r
    → AllFit r.capabilities.local_capabilities (entries_of r now ski)
unfolding entries_of
entries_of-AllFit r now ski v c = elim (Option-cases (lookup ski r.capabilities.entries)) [
  | inl e ↦ rw e (rw (lookup-fill_entries r now c) (initial_entry-Fits r now c))
  | inr (m, e) ↦ rw e (v.fit ski m e c)
]

written-AllFit :
    (r : Registry) (now : Time) (ski : Text) (c : Capability) (s : CapabilityState)
    (q : CapabilityReason)
    → Inv r
    → AllFit r.capabilities.local_capabilities (written r now ski c s q)
unfolding locally_disabled
written-AllFit r now ski c s q v d = ground (
  arith,
  entries_of-AllFit r now ski v d,
  lookup-insert c d
      (record {
        id = c;
        state = if locally_disabled r c then unsupported else s;
        reason = if locally_disabled r c then local_disabled else q;
        last_changed = now;
      })
      (entries_of r now ski),
)

-- A change of one device's entries keeps the invariant if its new entries fit.
replaced-Inv :
    (r r' : Registry) (ski : Text) (m : Store Capability DeviceCapability)
    → Frame r r'
    → ((j : Text)
        → lookup j r'.capabilities.entries
          ≡ ite (text_key.same ski j) (some m) (lookup j r.capabilities.entries))
    → AllFit r.capabilities.local_capabilities m
    → Inv r
    → Inv r'
replaced-Inv r r' ski m f at fit v = record { fit = every }
  where
    every :
        (j : Text) (n : Store Capability DeviceCapability)
        → lookup j r'.capabilities.entries ≡ some n
        → AllFit r'.capabilities.local_capabilities n
    every j n h c = elim (text_key.same ski j) [
      | yes p ↦ rw f.same_locals (
          subst (λ x. Fits (lookup c r.capabilities.local_capabilities) c (lookup c x))
            (ground (arith, at j)) (fit c))
      | no p ↦ rw f.same_locals (v.fit j n (ground (arith, at j)) c)
    ]

pub ensure-Inv :
    (r : Registry) (now : Time) (ski : Text) → Inv r → Inv (ensure_capabilities_locked r now ski)
ensure-Inv r now ski v =
    replaced-Inv r _ ski (entries_of r now ski) (ensure-Frame r now ski) (entries-ensure r now ski)
      (entries_of-AllFit r now ski v) v

pub set-Inv :
    (r : Registry) (now : Time) (ski : Text) (c : Capability) (s : CapabilityState)
    (q : CapabilityReason)
    → Inv r
    → Inv (set_capability_locked r now ski c s q)
set-Inv r now ski c s q v =
    replaced-Inv r _ ski (written r now ski c s q) (set-Frame r now ski c s q)
      (λ j. entries-set r now ski j c s q) (written-AllFit r now ski c s q v) v

connect_loop-Inv :
    (r : Registry) (now : Time) (ski : Text) (l : Store Capability DeviceCapability)
    → Inv r
    → Inv (connect_loop r now ski l)
unfolding connect_loop connect_entry
connect_loop-Inv r now ski [] v = v
connect_loop-Inv r now ski ((c, e) ∷ l) v =
    connect_loop-Inv (connect_entry r now ski c e) now ski l (
      if_both Inv (same_reason e.reason device_disconnected)
        (set-Inv r now ski c unknown entity_not_bound v) v)

pub connect-Inv :
    (r : Registry) (now : Time) (ski : Text) → Inv r → Inv (mark_capabilities_connected r now ski)
unfolding mark_capabilities_connected
connect-Inv r now ski v = connect_loop-Inv _ now ski (entries_of r now ski) (ensure-Inv r now ski v)

disconnect_loop-Inv :
    (r : Registry) (now : Time) (ski : Text) (l : Store Capability DeviceCapability)
    → Inv r
    → Inv (disconnect_loop r now ski l)
unfolding disconnect_loop disconnect_entry
disconnect_loop-Inv r now ski [] v = v
disconnect_loop-Inv r now ski ((c, e) ∷ l) v =
    disconnect_loop-Inv (disconnect_entry r now ski c e) now ski l (
      if_both Inv (not (same_state e.state unsupported))
        (set-Inv r now ski c temporarily_unavailable device_disconnected v) v)

pub disconnect-Inv :
    (r : Registry) (now : Time) (ski : Text)
    → Inv r
    → Inv (mark_capabilities_disconnected r now ski)
unfolding mark_capabilities_disconnected
disconnect-Inv r now ski v =
    disconnect_loop-Inv _ now ski (entries_of r now ski) (ensure-Inv r now ski v)

pub record_support-Inv :
    (r : Registry) (now : Time) (ski : Text) (c : Capability) (advertised disconnected : Bool)
    → Inv r
    → Inv (record_support_locked r now ski c advertised disconnected)
unfolding record_support_locked
record_support-Inv r now ski c advertised true v =
    if_both Inv _
      (set-Inv _ now ski c temporarily_unavailable device_disconnected (ensure-Inv r now ski v))
      (ensure-Inv r now ski v)
record_support-Inv r now ski c true false v = set-Inv r now ski c unknown unspecified v
record_support-Inv r now ski c false false v =
    set-Inv r now ski c unsupported remote_not_advertised v

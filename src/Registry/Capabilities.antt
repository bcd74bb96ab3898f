-- ===== src/Registry/Capabilities.antt =====
-- capabilities.go: what each device can do at present, and why not.
pub mod Entries
pub mod Invariant
pub mod Preserved
pub mod LocalSwitch
use eebus_ha_bridge.Texts.{sort_by}
use eebus_ha_bridge.Prelude.{
  ℕ, List, [], ◌∷◌, Bool, true, false, not, ◌&&◌, ◌||◌, Option, none, some, if◌then◌else◌,
}
use eebus_ha_bridge.Store.{Store, lookup, insert, or_zero}
use eebus_ha_bridge.Ski.{Text, text_key, normalize_ski, is_empty}
use eebus_ha_bridge.Time.{Time}
use eebus_ha_bridge.Registry.State.{
  Capability, monitoring, lpc, failsafe, heartbeat, ohpcf, dhw, dhw_system_function, room_heating,
  CapabilityState, unknown, available, temporarily_unavailable, unsupported, CapabilityReason,
  unspecified, local_disabled, remote_not_advertised, entity_not_bound, read_failed,
  device_disconnected, capability_key, DeviceCapability, Registry, is_removed, same_state,
  same_reason,
}

-- AllCapabilities
abbrev pub all_capabilities : List Capability
all_capabilities =
    monitoring ∷ lpc ∷ failsafe ∷ heartbeat ∷ ohpcf ∷ dhw ∷ dhw_system_function ∷ room_heating ∷ []

-- `enabled, ok := localCapabilities[capability]; ok && !enabled`
abbrev pub is_disabled : Option Bool → Bool
is_disabled none = false
is_disabled (some enabled) = not enabled

unfoldable pub locally_disabled : Registry → Capability → Bool
locally_disabled r capability = is_disabled (lookup capability r.capabilities.local_capabilities)

-- The entry that ensureCapabilitiesLocked makes.
unfoldable pub initial_entry : Registry → Time → Capability → DeviceCapability
initial_entry r now capability =
    if locally_disabled r capability
    then record {
      id = capability;
      state = unsupported;
      reason = local_disabled;
      last_changed = now;
    }
    else record { id = capability; state = unknown; reason = unspecified; last_changed = now }

-- The loop over AllCapabilities.
unfoldable pub fill_entries :
    Registry
    → Time
    → List Capability
    → Store Capability DeviceCapability
    → Store Capability DeviceCapability
fill_entries r now [] m = m
fill_entries r now (c ∷ cs) m = fill_entries r now cs (insert c (initial_entry r now c) m)

unfoldable pub set_entries : Registry → Text → Store Capability DeviceCapability → Registry
set_entries r ski m = record r {
  capabilities = record (r.capabilities) { entries = insert ski m entries };
}
  where
    open r.capabilities use {entries}

-- The entries that a call of ensureCapabilitiesLocked returns.
unfoldable pub entries_of : Registry → Time → Text → Store Capability DeviceCapability
entries_of r now ski =
    or_zero (fill_entries r now all_capabilities []) (lookup ski r.capabilities.entries)

-- The registry after that call.
unfoldable pub ensure_capabilities_locked : Registry → Time → Text → Registry
ensure_capabilities_locked r now ski = elim (lookup ski r.capabilities.entries) [
  | none ↦ set_entries r ski (fill_entries r now all_capabilities [])
  | some _ ↦ r
]

-- ensureCapabilities normalizes the key once more.
unfoldable pub ensure_capabilities : Registry → Time → Text → Registry
ensure_capabilities r now ski = ensure_capabilities_locked r now (normalize_ski ski)

-- `entries[capability]`, with the zero value's state and reason for a missing entry.
abbrev pub state_of : Option DeviceCapability → CapabilityState
state_of none = unknown
state_of (some e) = e.state

abbrev pub reason_of : Option DeviceCapability → CapabilityReason
reason_of none = unspecified
reason_of (some e) = e.reason

unfoldable pub set_capability_locked :
    Registry → Time → Text → Capability → CapabilityState → CapabilityReason → Registry
set_capability_locked r now ski capability state reason =
    let disabled = locally_disabled r capability in
    let state' = if disabled then unsupported else state in
    let reason' = if disabled then local_disabled else reason in
    let r' = ensure_capabilities_locked r now ski in
    let entries = entries_of r now ski in
    let current = lookup capability entries in
    let entry : DeviceCapability = record {
      id = capability;
      state = state';
      reason = reason';
      last_changed = now;
    } in
    if same_state (state_of current) state' && same_reason (reason_of current) reason'
    then r'
    else set_entries r' ski (insert capability entry entries)

-- deviceDisconnected: the device is known to the health projection, and not connected.
unfoldable pub is_device_disconnected : Registry → Text → Bool
is_device_disconnected r ski = elim (lookup ski r.health.monitoring) [
  | none ↦ false
  | some connection ↦ not connection.connected
]

-- deviceHasEntities
unfoldable pub has_entities : Registry → Text → Bool
has_entities r ski = elim (lookup ski r.devices) [
  | none ↦ false
  | some info ↦ not (is_empty info.remote_entities) || not (is_empty info.entities)
]

-- The numbers of the constants.
abbrev pub capability_id : Capability → ℕ
capability_id monitoring = 1
capability_id lpc = 2
capability_id failsafe = 3
capability_id heartbeat = 4
capability_id ohpcf = 5
capability_id dhw = 6
capability_id dhw_system_function = 7
capability_id room_heating = 8

-- The loop of DeviceCapabilities.
unfoldable pub collect_capabilities : Store Capability DeviceCapability → List DeviceCapability
collect_capabilities [] = []
collect_capabilities ((_, entry) ∷ entries) = entry ∷ collect_capabilities entries

-- DeviceCapabilities, sorted by number.
unfoldable pub device_capabilities : Registry → Text → Option (List DeviceCapability)
device_capabilities r ski = elim (lookup (normalize_ski ski) r.capabilities.entries) [
  | none ↦ none
  | some entries ↦
      some (sort_by (λ entry. capability_id entry.id ∷ []) (collect_capabilities entries))
]

-- The loop of SetLocalCapabilityEnabled, over the devices that it finds.
unfoldable pub set_local_loop :
    Registry → Time → Capability → Bool → Store Text (Store Capability DeviceCapability) → Registry
set_local_loop r now capability enabled [] = r
set_local_loop r now capability enabled ((ski, _) ∷ devices) =
    set_local_loop
      (set_capability_locked r now ski capability (if enabled then unknown else unsupported)
        (if enabled then unspecified else local_disabled))
      now capability enabled devices

unfoldable pub set_local_capability_enabled : Registry → Time → Capability → Bool → Registry
set_local_capability_enabled r now capability enabled =
    let r' = record r {
      capabilities = record (r.capabilities) {
        local_capabilities = insert capability enabled r.capabilities.local_capabilities;
      };
    } in
    set_local_loop r' now capability enabled r.capabilities.entries

-- A call for a removed device changes nothing.
unfoldable pub unless_removed : Registry → Text → Registry → Registry
unless_removed r ski r' = if is_removed r ski then r else r'

unfoldable pub set_capability :
    Registry → Time → Text → Capability → CapabilityState → CapabilityReason → Registry
set_capability r now ski capability state reason =
    let ski' = normalize_ski ski in
    unless_removed r ski' (set_capability_locked r now ski' capability state reason)

-- One round of the loop of markCapabilitiesConnected, and the loop.
unfoldable pub connect_entry : Registry → Time → Text → Capability → DeviceCapability → Registry
connect_entry r now ski capability entry =
    if same_reason entry.reason device_disconnected
    then set_capability_locked r now ski capability unknown entity_not_bound
    else r

unfoldable pub connect_loop : Registry → Time → Text → Store Capability DeviceCapability → Registry
connect_loop r now ski [] = r
connect_loop r now ski ((capability, entry) ∷ entries) =
    connect_loop (connect_entry r now ski capability entry) now ski entries

unfoldable pub mark_capabilities_connected : Registry → Time → Text → Registry
mark_capabilities_connected r now ski =
    connect_loop (ensure_capabilities_locked r now ski) now ski (entries_of r now ski)

-- One round of the loop of markCapabilitiesDisconnected, and the loop.
unfoldable pub disconnect_entry : Registry → Time → Text → Capability → DeviceCapability → Registry
disconnect_entry r now ski capability entry =
    if not (same_state entry.state unsupported)
    then set_capability_locked r now ski capability temporarily_unavailable device_disconnected
    else r

unfoldable pub disconnect_loop :
    Registry → Time → Text → Store Capability DeviceCapability → Registry
disconnect_loop r now ski [] = r
disconnect_loop r now ski ((capability, entry) ∷ entries) =
    disconnect_loop (disconnect_entry r now ski capability entry) now ski entries

unfoldable pub mark_capabilities_disconnected : Registry → Time → Text → Registry
mark_capabilities_disconnected r now ski =
    disconnect_loop (ensure_capabilities_locked r now ski) now ski (entries_of r now ski)

-- recordCapabilitySupportLocked
unfoldable pub record_support_locked : Registry → Time → Text → Capability → Bool → Bool → Registry
record_support_locked r now ski capability advertised disconnected =
    if disconnected
    then (let current = lookup capability (entries_of r now ski) in
        let r' = ensure_capabilities_locked r now ski in
        if not (same_reason (reason_of current) local_disabled)
          && not (same_state (state_of current) unsupported)
        then set_capability_locked r' now ski capability temporarily_unavailable device_disconnected
        else r')
    else if advertised
    then set_capability_locked r now ski capability unknown unspecified
    else set_capability_locked r now ski capability unsupported remote_not_advertised

-- The part of RecordCapabilitySupport under the health lock.
unfoldable pub require_heartbeat : Registry → Text → Registry
require_heartbeat r ski =
    let required = record (r.health) {
      heartbeat_required = insert ski true r.health.heartbeat_required;
    } in
    elim (lookup ski r.health.monitoring) [
      | none ↦ record r { health = required }
      | some state ↦ record r {
        health = record required {
          monitoring = insert ski (record state { heartbeat_required = true }) r.health.monitoring;
        };
      }
    ]

abbrev pub is_heartbeat : Capability → Bool
is_heartbeat heartbeat = true
is_heartbeat _ = false

unfoldable pub record_capability_support : Registry → Time → Text → Capability → Bool → Registry
record_capability_support r now ski capability advertised =
    let ski' = normalize_ski ski in
    let disconnected = is_device_disconnected r ski' in
    let r' = if is_heartbeat capability && advertised then require_heartbeat r ski' else r in
    unless_removed r ski' (record_support_locked r' now ski' capability advertised disconnected)

-- The loop over the sources: true where one of them supports the capability.
unfoldable pub any_supported : Store Text Bool → Bool
any_supported [] = false
any_supported ((_, supported) ∷ sources) = if supported then true else any_supported sources

-- `r.capabilities.support[ski][capability][source] = advertised`
unfoldable pub sources_with : Registry → Text → Capability → Text → Bool → Store Text Bool
sources_with r ski capability source advertised =
    insert source advertised
      (or_zero [] (lookup capability (or_zero [] (lookup ski r.capabilities.support))))

unfoldable pub set_source : Registry → Text → Capability → Text → Bool → Registry
set_source r ski capability source advertised = record r {
  capabilities = record (r.capabilities) { support = insert ski by_capability support };
}
  where
    open r.capabilities use {support}

    by_capability : Store Capability (Store Text Bool)
    by_capability =
        insert capability (sources_with r ski capability source advertised)
          (or_zero [] (lookup ski support))

unfoldable pub record_capability_source_support :
    Registry → Time → Text → Capability → Text → Bool → Registry
record_capability_source_support r now ski capability source advertised =
    let ski' = normalize_ski ski in
    let disconnected = is_device_disconnected r ski' in
    let sources = sources_with r ski' capability source advertised in
    let r' = set_source r ski' capability source advertised in
    unless_removed r ski'
      (record_support_locked r' now ski' capability (any_supported sources) disconnected)

-- What RecordCapabilityRead and its siblings do before they look at the outcome: an unsupported
-- capability stays so, and that of a disconnected device is unavailable for that reason.
unfoldable pub unless_settled :
    Registry → Time → Text → Capability → (Registry → Registry) → Registry
unless_settled r now ski capability outcome =
    let r' = ensure_capabilities_locked r now ski in
    if same_state (state_of (lookup capability (entries_of r now ski))) unsupported
    then r'
    else if is_device_disconnected r ski
    then set_capability_locked r' now ski capability temporarily_unavailable device_disconnected
    else outcome r'

-- `failed` tells whether the read returned an error.
unfoldable pub record_capability_read : Registry → Time → Text → Capability → Bool → Registry
record_capability_read r now ski capability failed =
    let ski' = normalize_ski ski in
    unless_removed r ski' (
      unless_settled r now ski' capability (λ r'.
        if failed
        then set_capability_locked r' now ski' capability temporarily_unavailable read_failed
        else set_capability_locked r' now ski' capability available unspecified))

unfoldable pub record_entity_not_bound : Registry → Time → Text → Capability → Registry
record_entity_not_bound r now ski capability =
    let ski' = normalize_ski ski in
    unless_removed r ski' (
      unless_settled r now ski' capability (λ r'.
        set_capability_locked r' now ski' capability temporarily_unavailable entity_not_bound))

unfoldable pub record_missing_entity : Registry → Time → Text → Capability → Registry
record_missing_entity r now ski capability =
    let ski' = normalize_ski ski in
    unless_removed r ski' (
      unless_settled r now ski' capability (λ r'.
        if has_entities r ski'
        then set_capability_locked r' now ski' capability unsupported remote_not_advertised
        else set_capability_locked r' now ski' capability temporarily_unavailable entity_not_bound))

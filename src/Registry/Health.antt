-- ===== src/Registry/Health.antt =====
-- Connection health: registry.go, lines 132 to 390. The device's lifetime spans the projections,
-- so MarkConnected and MarkDisconnected write its capabilities too.
pub mod Stale
pub mod Tests
use eebus_ha_bridge.Prelude.{
  List, [], ◌∷◌, Bool, true, false, not, ◌&&◌, ◌||◌, Option, none, some, if◌then◌else◌, ltb_ℤ,
  leb_ℤ, pos,
}
use eebus_ha_bridge.Store.{Store, lookup, insert, delete, or_zero}
use eebus_ha_bridge.Ski.{Text, text_key, normalize_ski}
use eebus_ha_bridge.Time.{Time, Duration, zero_time, is_zero, after, sub}
use eebus_ha_bridge.Texts.{sort_texts, sort_by}
use eebus_ha_bridge.Registry.State.{MonitoringState, no_monitoring, Registry}
use eebus_ha_bridge.Registry.Capabilities.{
  mark_capabilities_connected, mark_capabilities_disconnected, unless_removed,
}

-- `r.health.monitoring[ski] = state`
unfoldable pub set_monitoring : Registry → Text → MonitoringState → Registry
set_monitoring r ski state = record r {
  health = record (r.health) { monitoring = insert ski state r.health.monitoring };
}

abbrev pub monitoring_of : Registry → Text → Option MonitoringState
monitoring_of r ski = lookup ski r.health.monitoring

-- The new connection: the last success is kept, and does not count for it.
unfoldable pub connect_state : Time → Bool → MonitoringState → MonitoringState
connect_state now required state = record state {
  connected = true;
  trusted = true;
  trust_known = true;
  connected_at = now;
  last_transition_at = now;
  monitoring_success_on_connect = false;
  heartbeat_required = required;
  last_remote_heartbeat = zero_time;
}

unfoldable pub mark_connected : Registry → Time → Text → Registry
mark_connected r now ski =
    let ski' = normalize_ski ski in
    let state = or_zero no_monitoring (monitoring_of r ski') in
    let required = or_zero false (lookup ski' r.health.heartbeat_required) in
    let r' = set_monitoring r ski' (connect_state now required state) in
    unless_removed r ski' (if state.connected then r else mark_capabilities_connected r' now ski')

unfoldable pub mark_trusted : Registry → Time → Text → Registry
mark_trusted r now ski =
    let ski' = normalize_ski ski in
    let state = or_zero no_monitoring (monitoring_of r ski') in
    let r' = record r { removed = delete ski' r.removed } in
    set_monitoring r' ski'
      (record state { trusted = true; trust_known = true; last_transition_at = now })

unfoldable pub mark_untrusted : Registry → Time → Text → Registry
mark_untrusted r now ski =
    let ski' = normalize_ski ski in
    let state = or_zero no_monitoring (monitoring_of r ski') in
    let state' : MonitoringState = record state {
      connected = false;
      trusted = false;
      trust_known = true;
      last_transition_at = now;
    } in
    unless_removed r ski' (mark_capabilities_disconnected (set_monitoring r ski' state') now ski')

unfoldable pub disconnect_state : Time → MonitoringState → MonitoringState
disconnect_state now state = record state { connected = false; last_transition_at = now }

unfoldable pub mark_disconnected : Registry → Time → Text → Registry
mark_disconnected r now ski =
    let ski' = normalize_ski ski in
    unless_removed r ski' (elim (monitoring_of r ski') [
      | none ↦ r
      | some state ↦
          if not state.connected
          then r
          else mark_capabilities_disconnected (set_monitoring r ski' (disconnect_state now state))
              now ski'
    ])

-- (connected, last transition, known)
unfoldable pub device_connection : Registry → Text → Bool × Time × Bool
device_connection r ski = elim (monitoring_of r (normalize_ski ski)) [
  | none ↦ (false, zero_time, false)
  | some state ↦ (state.connected, state.last_transition_at, true)
]

unfoldable pub record_monitoring_success : Registry → Time → Text → Registry
record_monitoring_success r now ski =
    let ski' = normalize_ski ski in
    unless_removed r ski' (elim (monitoring_of r ski') [
      | none ↦ r
      | some state ↦ set_monitoring r ski' (record state {
        last_monitoring_success = now;
        monitoring_success_on_connect = state.connected;
      })
    ])

unfoldable pub record_remote_heartbeat : Registry → Time → Text → Registry
record_remote_heartbeat r now ski =
    let ski' = normalize_ski ski in
    unless_removed r ski' (elim (monitoring_of r ski') [
      | none ↦ r
      | some state ↦
          if not state.connected
          then r
          else set_monitoring r ski' (record state { last_remote_heartbeat = now })
    ])

-- Two minutes, in nanoseconds.
abbrev pub remote_heartbeat_tolerance : Duration
remote_heartbeat_tolerance = pos 120_000_000_000

unfoldable pub heartbeat_on_connection : MonitoringState → Bool
heartbeat_on_connection state =
    not state.heartbeat_required || not (is_zero state.last_remote_heartbeat)

-- The test of one device in StaleDevices.
unfoldable pub is_stale : Time → Duration → Duration → MonitoringState → Bool
is_stale now threshold grace_period state =
    if not state.connected || leb_ℤ (sub now state.connected_at) grace_period
    then false
    else (let heartbeat_stale =
          state.heartbeat_required
          && (not (heartbeat_on_connection state)
              || ltb_ℤ remote_heartbeat_tolerance (sub now state.last_remote_heartbeat)) in
        not state.monitoring_success_on_connect
        || ltb_ℤ threshold (sub now state.last_monitoring_success)
        || heartbeat_stale)

-- The loop of StaleDevices.
unfoldable pub collect_stale : Time → Duration → Duration → Store Text MonitoringState → List Text
collect_stale now threshold grace_period [] = []
collect_stale now threshold grace_period ((ski, state) ∷ devices) =
    if is_stale now threshold grace_period state
    then ski ∷ collect_stale now threshold grace_period devices
    else collect_stale now threshold grace_period devices

unfoldable pub stale_devices : Registry → Time → Duration → Duration → List Text
stale_devices r now threshold grace_period =
    sort_texts (collect_stale now threshold grace_period r.health.monitoring)

-- The age of the last success, if there was one; it is at least 0.
unfoldable pub monitoring_last_success_age : Registry → Time → Text → Option Duration
monitoring_last_success_age r now ski = elim (monitoring_of r (normalize_ski ski)) [
  | none ↦ none
  | some state ↦
      if is_zero state.last_monitoring_success
      then none
      else (let age = sub now state.last_monitoring_success in
          some (if ltb_ℤ age (pos 0) then pos 0 else age))
]

unfoldable pub monitoring_success_since : Registry → Text → Time → Bool
monitoring_success_since r ski since = elim (monitoring_of r (normalize_ski ski)) [
  | none ↦ false
  | some state ↦
      if is_zero state.last_monitoring_success
      then false
      else after state.last_monitoring_success since
        && (not state.heartbeat_required || after state.last_remote_heartbeat since)
]

pub record DeviceHealthSnapshot : Type 0 where
  pub ski : Text
  pub connected : Bool
  pub trusted : Bool
  pub trust_known : Bool
  pub connected_at : Time
  pub last_transition_at : Time
  pub last_monitoring_success : Time
  pub monitoring_success_on_connect : Bool

unfoldable pub device_health_snapshot : Text → MonitoringState → DeviceHealthSnapshot
device_health_snapshot ski state = record {
  ski = ski;
  connected = state.connected;
  trusted = state.trusted;
  trust_known = state.trust_known;
  connected_at = state.connected_at;
  last_transition_at = state.last_transition_at;
  last_monitoring_success = state.last_monitoring_success;
  monitoring_success_on_connect =
      state.monitoring_success_on_connect && heartbeat_on_connection state;
}

unfoldable pub device_health : Registry → Text → Option DeviceHealthSnapshot
device_health r ski = elim (monitoring_of r (normalize_ski ski)) [
  | none ↦ none
  | some state ↦ some (device_health_snapshot (normalize_ski ski) state)
]

-- The loop of ListDeviceHealth, and the sort by SKI.
unfoldable pub collect_health : Store Text MonitoringState → List DeviceHealthSnapshot
collect_health [] = []
collect_health ((ski, state) ∷ devices) = device_health_snapshot ski state ∷ collect_health devices

unfoldable pub list_device_health : Registry → List DeviceHealthSnapshot
list_device_health r = sort_by (λ d. d.ski) (collect_health r.health.monitoring)

-- ===== src/Registry/State.antt =====
-- The state of DeviceRegistry (registry.go) and of its three projections. The locks are not state:
-- an operation of the model is one whole call, which the lifecycle lock and the lock of a
-- projection serialize. `now` is what the clock returns to the call, one reading for all.
use eebus_ha_bridge.Prelude.{ℕ, List, [], Bool, false, Option, none, ite, true}
use eebus_ha_bridge.Store.{Key, Store, lookup, is_some}
use eebus_ha_bridge.Ski.{Text, text_key}
use eebus_ha_bridge.Time.{Time, zero_time}

-- Capability, of capabilities.go.
pub data Capability : Type 0 where
  monitoring lpc failsafe heartbeat ohpcf dhw dhw_system_function room_heating : Capability

pub data CapabilityState : Type 0 where
  unknown available temporarily_unavailable unsupported : CapabilityState

pub data CapabilityReason : Type 0 where
  unspecified local_disabled remote_not_advertised entity_not_bound read_failed
        device_disconnected :
      CapabilityReason

unfoldable pub Capability-discrete : Discrete Capability
Capability-discrete = hlevel

unfoldable pub CapabilityState-discrete : Discrete CapabilityState
CapabilityState-discrete = hlevel

unfoldable pub CapabilityReason-discrete : Discrete CapabilityReason
CapabilityReason-discrete = hlevel

instance abbrev pub capability_key : Key Capability
capability_key = record { same = Capability-discrete }

pub record DeviceCapability : Type 0 where
  pub id : Capability
  pub state : CapabilityState
  pub reason : CapabilityReason
  pub last_changed : Time

-- EntityInfo: `entity` is the identity of the remote entity, `none` where it is nil.
pub record EntityInfo : Type 0 where
  pub address : Text
  pub type : Text
  pub features : List Text
  pub entity : Option ℕ

pub record DeviceInfo : Type 0 where
  pub ski : Text
  pub brand : Text
  pub model : Text
  pub serial : Text
  pub device_type : Text
  pub software_revision : Text
  pub hardware_revision : Text
  pub zone_label : Text
  pub use_cases : List Text
  pub remote_device : Option ℕ
  pub remote_entities : List ℕ
  pub entities : List EntityInfo

-- The zero value of DeviceInfo.
abbrev pub no_info : DeviceInfo
no_info = record {
  ski = [];
  brand = [];
  model = [];
  serial = [];
  device_type = [];
  software_revision = [];
  hardware_revision = [];
  zone_label = [];
  use_cases = [];
  remote_device = none;
  remote_entities = [];
  entities = [];
}

pub record MonitoringState : Type 0 where
  pub connected : Bool
  pub trusted : Bool
  pub trust_known : Bool
  pub connected_at : Time
  pub last_transition_at : Time
  pub last_monitoring_success : Time
  pub monitoring_success_on_connect : Bool
  pub heartbeat_required : Bool
  pub last_remote_heartbeat : Time

-- The zero value of deviceMonitoringState.
abbrev pub no_monitoring : MonitoringState
no_monitoring = record {
  connected = false;
  trusted = false;
  trust_known = false;
  connected_at = zero_time;
  last_transition_at = zero_time;
  last_monitoring_success = zero_time;
  monitoring_success_on_connect = false;
  heartbeat_required = false;
  last_remote_heartbeat = zero_time;
}

pub record HealthStore : Type 0 where
  pub monitoring : Store Text MonitoringState
  pub heartbeat_required : Store Text Bool

pub record CapabilityStore : Type 0 where
  pub entries : Store Text (Store Capability DeviceCapability)
  pub support : Store Text (Store Capability (Store Text Bool))
  pub local_capabilities : Store Capability Bool

pub record Registry : Type 0 where
  pub devices : Store Text DeviceInfo
  pub health : HealthStore
  pub capabilities : CapabilityStore
  pub removed : Store Text (Unit {0})

-- NewDeviceRegistryWithClock
unfoldable pub new_registry : Registry
new_registry = record {
  devices = [];
  health = record { monitoring = []; heartbeat_required = [] };
  capabilities = record { entries = []; support = []; local_capabilities = [] };
  removed = [];
}

-- removedLocked
unfoldable pub is_removed : Registry → Text → Bool
is_removed r ski = is_some (lookup ski r.removed)

-- `==` on an enumeration.
abbrev pub same_state : CapabilityState → CapabilityState → Bool
same_state a b = ite (CapabilityState-discrete a b) true false

abbrev pub same_reason : CapabilityReason → CapabilityReason → Bool
same_reason a b = ite (CapabilityReason-discrete a b) true false

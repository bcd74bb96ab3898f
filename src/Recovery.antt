-- ===== src/Recovery.antt =====
-- The recovery supervisor: eebus-bridge/internal/eebus/recovery.go. One state machine per device
-- decides when a stale device is reconnected, and when the process must restart. The two Go
-- interfaces it calls are records of functions on a type `W` of worlds, and what other goroutines
-- do between two ticks is any change of the world. Tick has one caller, so calls follow each other.
-- The supervisor itself is not nil; a registry or controller that is nil is `none`.
pub mod Machine
pub mod Backoff
pub mod Settings
pub mod Restart
pub mod Ticks
pub mod Attempts
pub mod Budget
pub mod Retries
pub mod Tests
use eebus_ha_bridge.Prelude.{
  ℕ, zero, suc, ◌+◌, ◌-◌, ◌*◌, ◌%◌, ◌^◌, List, [], ◌∷◌, Bool, true, false, not, ◌&&◌, ◌||◌, Option,
  none, some, if◌then◌else◌, ltb, leb, ◌==◌, length, ite, ℤ, pos, negsuc, ltb_ℤ, leb_ℤ,
}
use eebus_ha_bridge.Store.{Store, lookup, insert}
use eebus_ha_bridge.Ski.{Text, text_key, Text-discrete, normalize_ski}
use eebus_ha_bridge.Time.{Time, Duration, zero_time, is_zero, before, add}
use eebus_ha_bridge.Texts.{sort_texts}
use eebus_ha_bridge.Registry.Health.{DeviceHealthSnapshot}

-- RecoveryState
pub data RecoveryState : Type 0 where
  unknown untrusted disconnected grace_period recovering healthy exhausted : RecoveryState

unfoldable pub RecoveryState-discrete : Discrete RecoveryState
RecoveryState-discrete = hlevel

abbrev pub same_recovery : RecoveryState → RecoveryState → Bool
same_recovery a b = ite (RecoveryState-discrete a b) true false

pub record RecoveryConfig : Type 0 where
  pub stale_threshold : Duration
  pub grace : Duration
  pub base_backoff : Duration
  pub max_backoff : Duration
  pub max_attempts : ℤ

-- RecoveryRegistry
pub record RecoveryRegistry (W : Type 0) : Type 0 where
  pub stale_devices : W → Duration → Duration → List Text
  pub monitoring_last_success_age : W → Text → Option Duration
  pub monitoring_success_since : W → Text → Time → Bool
  pub clear_entities : W → Text → W
  pub device_health : W → Text → Option DeviceHealthSnapshot
  pub list_device_health : W → List DeviceHealthSnapshot

-- RecoveryController
pub record RecoveryController (W : Type 0) : Type 0 where
  pub register_remote_ski : W → Text → W
  pub unregister_remote_ski : W → Text → W

pub record RecoverySnapshot : Type 0 where
  pub state : RecoveryState
  pub attempts : ℕ
  pub first_stale_at : Time
  pub last_attempt_at : Time
  pub next_attempt_at : Time
  pub last_transition_at : Time

pub record RecoveryTickResult : Type 0 where
  pub restart_required : Bool
  pub exhausted_skis : List Text

pub record RecoverySupervisor : Type 0 where
  pub config : RecoveryConfig
  pub records : Store Text RecoverySnapshot
  pub restart_signalled : Bool

-- The defaults of NewRecoverySupervisor, in its order.
unfoldable pub default_config : RecoveryConfig → RecoveryConfig
default_config config =
    let attempts = if leb_ℤ config.max_attempts (pos 0) then pos 3 else config.max_attempts in
    let base = if leb_ℤ config.base_backoff (pos 0) then config.grace else config.base_backoff in
    record config {
      max_attempts = attempts;
      base_backoff = base;
      max_backoff = if ltb_ℤ config.max_backoff base then base else config.max_backoff;
    }

unfoldable pub new_recovery_supervisor : RecoveryConfig → RecoverySupervisor
new_recovery_supervisor config = record {
  config = default_config config;
  records = [];
  restart_signalled = false;
}

abbrev pub new_record : Time → RecoverySnapshot
new_record now = record {
  state = healthy;
  attempts = 0;
  first_stale_at = zero_time;
  last_attempt_at = zero_time;
  next_attempt_at = zero_time;
  last_transition_at = now;
}

abbrev pub or_new : Time → Option RecoverySnapshot → RecoverySnapshot
or_new now none = new_record now
or_new now (some record') = record'

-- recordLocked, which also stores the record that it makes.
unfoldable pub record_locked : RecoverySupervisor → Text → Time → RecoverySnapshot
record_locked s ski now = or_new now (lookup ski s.records)

unfoldable pub set_record : RecoverySupervisor → Text → RecoverySnapshot → RecoverySupervisor
set_record s ski record' = record s { records = insert ski record' s.records }

-- transitionLocked; its result is whether the state changes.
unfoldable pub transition_locked : RecoverySnapshot → RecoveryState → Time → RecoverySnapshot × Bool
transition_locked record' state now =
    if same_recovery record'.state state
    then (record', false)
    else (record record' { state = state; last_transition_at = now }, true)

-- The int64 that has the value of a number modulo 2^64.
abbrev pub int64_of : ℕ → ℤ
int64_of m = if ltb m (2 ^ 63) then pos m else negsuc (2 ^ 64 - m - 1)

-- `backoff *= 2` on an int64.
unfoldable pub double : Duration → Duration
double (pos n) = int64_of ((2 * n) % 2 ^ 64)
double (negsuc n) = int64_of (2 ^ 64 - 1 - (2 * n + 1) % 2 ^ 64)

-- The loop of backoff, with the number of rounds that `count < attempt` leaves.
unfoldable pub backoff_loop : Duration → ℕ → Duration → Duration
backoff_loop max zero backoff = backoff
backoff_loop max (suc n) backoff =
    let doubled = double backoff in
    let next = if ltb_ℤ max doubled then max else doubled in
    let rest = backoff_loop max n next in if ltb_ℤ backoff max then rest else backoff

unfoldable pub backoff : RecoveryConfig → ℕ → Duration
backoff config attempt = backoff_loop config.max_backoff (attempt - 1) config.base_backoff

-- The first critical section of recover, for the device's record: the record that it leaves, and
-- the number of the attempt where one follows.
unfoldable pub begin_attempt :
    RecoveryConfig → Time → RecoverySnapshot → RecoverySnapshot × Option ℕ
begin_attempt config now record' =
    if same_recovery record'.state recovering || same_recovery record'.state exhausted
    then (record', none)
    else if same_recovery record'.state grace_period && before now record'.next_attempt_at
    then (record', none)
    else if leb_ℤ config.max_attempts (pos record'.attempts)
    then ((transition_locked record' exhausted now).0, none)
    else (let first =
          if record'.attempts == 0 && is_zero record'.first_stale_at
          then now
          else record'.first_stale_at in
        let started : RecoverySnapshot = record record' {
          first_stale_at = first;
          attempts = record'.attempts + 1;
          last_attempt_at = now;
        } in
        ((transition_locked started recovering now).0, some (record'.attempts + 1)))

-- The second critical section of recover.
unfoldable pub finish_attempt : RecoveryConfig → Time → ℕ → RecoverySnapshot → RecoverySnapshot
finish_attempt config now attempt record' =
    if same_recovery record'.state recovering && record'.attempts == attempt
    then (transition_locked (record record' { next_attempt_at = add now (backoff config attempt) })
        grace_period now).0
    else record'

-- The reset of reconcileHealthy after a success.
unfoldable pub reset_record : Time → RecoverySnapshot → RecoverySnapshot
reset_record now record' =
    (transition_locked
      (record record' {
        attempts = 0;
        first_stale_at = zero_time;
        last_attempt_at = zero_time;
        next_attempt_at = zero_time;
      })
      healthy now).0

-- The last step of reconcileHealthy.
unfoldable pub keep_grace : RecoveryConfig → Time → RecoverySnapshot → RecoverySnapshot
keep_grace config now record' =
    let moved = (transition_locked record' grace_period now).0 in
    if is_zero moved.next_attempt_at
    then record moved { next_attempt_at = add now config.grace }
    else moved

unfoldable pub first_record : RecoveryConfig → Time → Bool → RecoverySnapshot
first_record config now success =
    let state = if success then healthy else grace_period in
    let moved = (transition_locked (new_record now) state now).0 in
    if success then moved else record moved { next_attempt_at = add now config.grace }

-- `_, isStale := staleSet[ski]`
unfoldable pub is_stale_ski : List Text → Text → Bool
is_stale_ski [] ski = false
is_stale_ski (x ∷ stale) ski =
    ite (Text-discrete (normalize_ski x) ski) true (is_stale_ski stale ski)

module _ {W : Type 0} (registry : RecoveryRegistry W)
    (controller : Option (RecoveryController W)) where
  -- What recover does to the world between its critical sections.
  unfoldable pub reconnect : W → Text → W
  reconnect w ski =
      let w' = registry.clear_entities w ski in
      elim controller [
        | none ↦ w'
        | some c ↦ c.register_remote_ski (c.unregister_remote_ski w' ski) ski
      ]

  unfoldable pub recover : RecoverySupervisor → W → Time → Text → RecoverySupervisor × W
  recover s w now ski =
      let (record', attempt) = begin_attempt s.config now (record_locked s ski now) in
      let s' = set_record s ski record' in
      elim attempt [
        | none ↦ (s', w)
        | some n ↦ (
          set_record s' ski (finish_attempt s.config now n (record_locked s' ski now)),
          reconnect w ski,
        )
      ]

  -- reconcileHealthy, for a device that is connected and has a record.
  unfoldable pub reconcile_connected :
      RecoverySupervisor
      → W
      → Time
      → DeviceHealthSnapshot
      → RecoverySnapshot
      → RecoverySupervisor × W
  reconcile_connected s w now device record' =
      let ski = normalize_ski device.ski in
      let retry_after_grace =
        same_recovery record'.state grace_period && not (before now record'.next_attempt_at) in
      let monitoring_recovered =
        not (is_zero record'.last_attempt_at)
        && registry.monitoring_success_since w ski record'.last_attempt_at in
      if monitoring_recovered
        || (is_zero record'.last_attempt_at && device.monitoring_success_on_connect)
      then (set_record s ski (reset_record now record'), w)
      else if same_recovery record'.state exhausted
      then (s, w)
      else if retry_after_grace
      then recover s w now ski
      else (set_record s ski (keep_grace s.config now record'), w)

  unfoldable pub reconcile_healthy :
      RecoverySupervisor → W → Time → DeviceHealthSnapshot → RecoverySupervisor × W
  reconcile_healthy s w now device =
      let ski = normalize_ski device.ski in
      let record' = record_locked s ski now in
      if device.trust_known && not device.trusted
      then (set_record s ski (transition_locked record' untrusted now).0, w)
      else if not device.connected
      then (set_record s ski (transition_locked record' disconnected now).0, w)
      else elim (lookup ski s.records) [
        | none ↦
            (set_record s ski (first_record s.config now device.monitoring_success_on_connect), w)
        | some found ↦ reconcile_connected s w now device found
      ]

  -- The loop of Tick over the stale devices.
  unfoldable pub recover_all : RecoverySupervisor → W → Time → List Text → RecoverySupervisor × W
  recover_all s w now [] = (s, w)
  recover_all s w now (ski ∷ stale) =
      let (s', w') = recover s w now (normalize_ski ski) in recover_all s' w' now stale

  -- One round of the loop of Tick over all devices.
  unfoldable pub reconcile_unless_stale :
      RecoverySupervisor → W → Time → List Text → DeviceHealthSnapshot → RecoverySupervisor × W
  reconcile_unless_stale s w now stale device =
      if is_stale_ski stale (normalize_ski device.ski)
      then (s, w)
      else reconcile_healthy s w now device

  unfoldable pub reconcile_all :
      RecoverySupervisor → W → Time → List Text → List DeviceHealthSnapshot → RecoverySupervisor × W
  reconcile_all s w now stale [] = (s, w)
  reconcile_all s w now stale (device ∷ health) =
      let (s', w') = reconcile_unless_stale s w now stale device in
      reconcile_all s' w' now stale health

abbrev pub is_relevant : DeviceHealthSnapshot → Bool
is_relevant device = device.connected && (not device.trust_known || device.trusted)

unfoldable pub relevant : List DeviceHealthSnapshot → List Text
relevant [] = []
relevant (device ∷ health) =
    if is_relevant device then normalize_ski device.ski ∷ relevant health else relevant health

unfoldable pub is_exhausted : Option RecoverySnapshot → Bool
is_exhausted none = false
is_exhausted (some record') = same_recovery record'.state exhausted

unfoldable pub exhausted_of : Store Text RecoverySnapshot → List Text → List Text
exhausted_of records [] = []
exhausted_of records (ski ∷ skis) =
    if is_exhausted (lookup ski records)
    then ski ∷ exhausted_of records skis
    else exhausted_of records skis

unfoldable pub restart_decision :
    RecoverySupervisor → List DeviceHealthSnapshot → RecoverySupervisor × RecoveryTickResult
restart_decision s health =
    let skis = sort_texts (relevant health) in
    let found = exhausted_of s.records skis in
    let all_exhausted = ltb 0 (length skis) && length found == length skis in
    (
      record s { restart_signalled = all_exhausted },
      record {
        restart_required = all_exhausted && not s.restart_signalled;
        exhausted_skis = found;
      },
    )

unfoldable pub tick :
    {W : Type 0}
    → Option (RecoveryRegistry W)
    → Option (RecoveryController W)
    → RecoverySupervisor
    → W
    → Time
    → RecoverySupervisor × W × RecoveryTickResult
tick none controller s w now = (s, w, record { restart_required = false; exhausted_skis = [] })
tick (some registry) controller s w now =
    let health = registry.list_device_health w in
    let stale = registry.stale_devices w s.config.stale_threshold s.config.grace in
    let (s1, w1) = recover_all registry controller s w now stale in
    let (s2, w2) = reconcile_all registry controller s1 w1 now stale health in
    let (s3, result) = restart_decision s2 health in (s3, w2, result)

abbrev pub unknown_snapshot : RecoveryState → Time → RecoverySnapshot
unknown_snapshot state at = record {
  state = state;
  attempts = 0;
  first_stale_at = zero_time;
  last_attempt_at = zero_time;
  next_attempt_at = zero_time;
  last_transition_at = at;
}

-- Snapshot, for a device without a record whose health is known.
unfoldable pub health_snapshot : DeviceHealthSnapshot → RecoverySnapshot
health_snapshot health =
    if not health.connected
    then unknown_snapshot
        (if health.trust_known && not health.trusted then untrusted else disconnected)
        health.last_transition_at
    else unknown_snapshot (if health.monitoring_success_on_connect then healthy else grace_period)
        health.last_transition_at

unfoldable pub snapshot :
    {W : Type 0} → Option (RecoveryRegistry W) → RecoverySupervisor → W → Text → RecoverySnapshot
snapshot registry s w ski = elim (lookup (normalize_ski ski) s.records) [
  | some record' ↦ record'
  | none ↦ elim registry [
    | none ↦ unknown_snapshot unknown zero_time
    | some r ↦ elim (r.device_health w (normalize_ski ski)) [
      | none ↦ unknown_snapshot unknown zero_time
      | some health ↦ health_snapshot health
    ]
  ]
]

-- ===== src/Recovery/Attempts.antt =====
-- The attempts that a record counts, and the worlds in which a device stays dead.
use eebus_ha_bridge.Prelude.{ℕ, ◌+◌, ◌≡◌, ◌⊎◌, ◌≤ℤ◌, true, false, none, some, ite, arith}
use eebus_ha_bridge.Store.{lookup}
use eebus_ha_bridge.Store.Laws.{lookup-insert}
use eebus_ha_bridge.Ski.{Text, text_key, Text-discrete}
use eebus_ha_bridge.Time.{Time, zero_time, is_zero}
use eebus_ha_bridge.Recovery.{
  RecoveryConfig, RecoverySnapshot, RecoverySupervisor, RecoveryRegistry, RecoveryController,
  record_locked, set_record, or_new, transition_locked, begin_attempt, finish_attempt,
}

abbrev pub attempts_at : RecoverySupervisor → Text → ℕ
attempts_at s k = (or_new zero_time (lookup k s.records)).attempts

abbrev pub last_at : RecoverySupervisor → Text → Time
last_at s k = (or_new zero_time (lookup k s.records)).last_attempt_at

-- A record counts no attempt, or its last attempt was not before the device died.
abbrev pub Late : Time → ℕ → Time → Type 0
Late died attempts last = ((is_zero last ≡ true) × (attempts ≡ 0)) ⊎ (died ≤ℤ last)

-- A count of the times that the controller registers the device `k`.
pub record Counts {W : Type 0} (registry : RecoveryRegistry W) (controller : RecoveryController W)
    (k : Text) (count : W → ℕ) : Type 0 where
  pub clears : (w : W) (j : Text) → count (registry.clear_entities w j) ≡ count w
  pub unregisters : (w : W) (j : Text) → count (controller.unregister_remote_ski w j) ≡ count w
  pub registers :
      (w : W) (j : Text)
      → count (controller.register_remote_ski w j) ≡ ite (Text-discrete j k) (count w + 1) (count w)

-- A kind of world in which the device's monitoring has not succeeded since the time `died`, whatever
-- it did before, and which the supervisor's own calls do not leave.
pub record NeverSucceeds {W : Type 0} (registry : RecoveryRegistry W)
    (controller : RecoveryController W) (k : Text) (died : Time) (Dead : W → Type 0) : Type 0 where
  pub since :
      (w : W) (t : Time) → Dead w → died ≤ℤ t → registry.monitoring_success_since w k t ≡ false
  pub clears : (w : W) (j : Text) → Dead w → Dead (registry.clear_entities w j)
  pub unregisters : (w : W) (j : Text) → Dead w → Dead (controller.unregister_remote_ski w j)
  pub registers : (w : W) (j : Text) → Dead w → Dead (controller.register_remote_ski w j)

-- A tick from `died` on; what happens before it neither registers the device nor makes its
-- monitoring succeed.
abbrev pub IsQuiet : {W : Type 0} → (W → ℕ) → (W → Type 0) → Time → (W → W) × Time → Type 0
IsQuiet {W} count Dead died t =
    ((w : W) → Dead w → Dead (t.0 w)) × ((w : W) → count (t.0 w) ≡ count w) × (died ≤ℤ t.1)

pub begin-attempts :
    (config : RecoveryConfig) (now : Time) (x : RecoverySnapshot)
    → (begin_attempt config now x).0.attempts
      ≡ (elim (begin_attempt config now x).1 [ none ↦ x.attempts | some n ↦ x.attempts + 1 ])
unfolding begin_attempt transition_locked
begin-attempts config now x = ground arith

pub finish-attempts :
    (config : RecoveryConfig) (now : Time) (n : ℕ) (x : RecoverySnapshot)
    → (finish_attempt config now n x).attempts ≡ x.attempts
unfolding finish_attempt transition_locked
finish-attempts config now n x = ground arith

pub attempts-set :
    (s : RecoverySupervisor) (j k : Text) (x : RecoverySnapshot)
    → attempts_at (set_record s j x) k ≡ ite (Text-discrete j k) x.attempts (attempts_at s k)
unfolding set_record
attempts-set s j k x = ground (arith, lookup-insert j k x s.records)

pub attempts-locked :
    (s : RecoverySupervisor) (k : Text) (now : Time)
    → (record_locked s k now).attempts ≡ attempts_at s k
unfolding record_locked
attempts-locked s k now = ground arith

-- The last attempt's time after the first critical section.
pub begin-last :
    (config : RecoveryConfig) (now : Time) (x : RecoverySnapshot)
    → (begin_attempt config now x).0.last_attempt_at
      ≡ (elim (begin_attempt config now x).1 [ none ↦ x.last_attempt_at | some n ↦ now ])
unfolding begin_attempt transition_locked
begin-last config now x = ground arith

pub finish-last :
    (config : RecoveryConfig) (now : Time) (n : ℕ) (x : RecoverySnapshot)
    → (finish_attempt config now n x).last_attempt_at ≡ x.last_attempt_at
unfolding finish_attempt transition_locked
finish-last config now n x = ground arith

pub last-set :
    (s : RecoverySupervisor) (j k : Text) (x : RecoverySnapshot)
    → last_at (set_record s j x) k ≡ ite (Text-discrete j k) x.last_attempt_at (last_at s k)
unfolding set_record
last-set s j k x = ground (arith, lookup-insert j k x s.records)

pub last-locked :
    (s : RecoverySupervisor) (k : Text) (now : Time)
    → (record_locked s k now).last_attempt_at ≡ last_at s k
unfolding record_locked
last-locked s k now = ground arith

-- ===== src/Recovery/Ticks.antt =====
-- Histories of the recovery supervisor: ticks, with any change of the world between them.
use eebus_ha_bridge.Prelude.{
  ℕ, ◌≡◌, subst, List, [], ◌∷◌, not, ◌&&◌, Option, none, some, pos, ◌≤ℤ◌, arith, if_both, inl, inr,
  Option-cases,
}
use eebus_ha_bridge.Store.{lookup, insert}
use eebus_ha_bridge.Store.Laws.{lookup-insert, lookup-insert_self}
use eebus_ha_bridge.Ski.{Text, text_key, normalize_ski}
use eebus_ha_bridge.Time.{Time}
use eebus_ha_bridge.Registry.Health.{DeviceHealthSnapshot}
use eebus_ha_bridge.Recovery.{
  recovering, untrusted, disconnected, RecoveryConfig, RecoverySnapshot, new_record,
  RecoverySupervisor, RecoveryRegistry, RecoveryController, record_locked, set_record, recover,
  recover_all, reconcile_connected, reconcile_healthy, reconcile_all, reconcile_unless_stale,
  restart_decision, tick, new_recovery_supervisor, default_config, is_stale_ski, transition_locked,
  begin_attempt, finish_attempt, reset_record, keep_grace, first_record,
}
use eebus_ha_bridge.Recovery.Machine.{
  IsSound, Begun, begin_lem, finish-IsSound, reset-IsSound, keep_grace-IsSound,
  first_record-IsSound, transition-IsSound,
}

-- At least one attempt is allowed, and every record is sound.
pub record AllSound (s : RecoverySupervisor) : Type 0 where
  pub positive : pos 1 ≤ℤ s.config.max_attempts
  pub sound : (k : Text) (x : RecoverySnapshot) → lookup k s.records ≡ some x → IsSound s.config x

new_record-IsSound :
    (s : RecoverySupervisor) (now : Time) → AllSound s → IsSound s.config (new_record now)
new_record-IsSound s now a = record {
  bounded = omega (arith, a.positive);
  settled = λ h. cc;
  spent = λ h. cc;
}

found-IsSound :
    (s : RecoverySupervisor) (now : Time) (k : Text)
    → AllSound s
    → IsSound s.config (record_locked s k now)
unfolding record_locked
found-IsSound s now k a = elim (Option-cases (lookup k s.records)) [
  | inl e ↦ rw e (new_record-IsSound s now a)
  | inr (x, e) ↦ rw e (a.sound k x e)
]

set-AllSound :
    (s : RecoverySupervisor) (k : Text) (x : RecoverySnapshot)
    → AllSound s
    → IsSound s.config x
    → AllSound (set_record s k x)
unfolding set_record
set-AllSound s k x a i = record {
  positive = a.positive;
  sound = λ j y h. elim (text_key.same k j) [
    | yes p ↦ subst (IsSound s.config) (ground (arith, lookup-insert k j x s.records)) i
    | no n ↦ a.sound j y (ground (arith, lookup-insert k j x s.records))
  ];
}

-- The second critical section finds the record that the first one left.
finish-AllSound :
    (s : RecoverySupervisor) (k : Text) (x : RecoverySnapshot) (now : Time)
    → AllSound s
    → x.state ≡ recovering
    → pos x.attempts ≤ℤ s.config.max_attempts
    → AllSound (set_record s k (finish_attempt s.config now x.attempts x))
finish-AllSound s k x now a e b = set-AllSound s k _ a (finish-IsSound s.config x now e b)

-- A later write of a record is the only one that counts.
set-set-AllSound :
    (s : RecoverySupervisor) (k : Text) (x y : RecoverySnapshot)
    → AllSound s
    → IsSound s.config y
    → AllSound (set_record (set_record s k x) k y)
unfolding set_record
set-set-AllSound s k x y a i = record {
  positive = a.positive;
  sound = λ j z h. elim (text_key.same k j) [
    | yes p ↦
        subst (IsSound s.config) (ground (arith, lookup-insert k j y (insert k x s.records))) i
    | no n ↦
        a.sound j z (
          ground (arith, lookup-insert k j y (insert k x s.records), lookup-insert k j x s.records))
  ];
}

pub record-set :
    (s : RecoverySupervisor) (k : Text) (x : RecoverySnapshot) (now : Time)
    → record_locked (set_record s k x) k now ≡ x
unfolding record_locked set_record
record-set s k x now = ground (arith, lookup-insert_self k x s.records)

module _ {W : Type 0} (registry : RecoveryRegistry W)
    (controller : Option (RecoveryController W)) where
  recover-AllSound :
      (s : RecoverySupervisor) (w : W) (now : Time) (k : Text)
      → AllSound s
      → AllSound (recover registry controller s w now k).0
  unfolding recover
  recover-AllSound s w now k a =
      elim (Option-cases (begin_attempt s.config now (record_locked s k now)).1) [
        | inl e ↦ rw (e, recover) (set-AllSound s k begun.0 a (all.none_follows e))
        | inr (n, e) ↦
            let q = all.one_follows n e in
            rw (e, recover, record-set s k begun.0 now)
              (set-set-AllSound s k begun.0 (finish_attempt s.config now n begun.0) a (
                subst (λ m. IsSound s.config (finish_attempt s.config now m begun.0)) q.2
                  (finish-IsSound s.config begun.0 now q.3 (omega (arith, q.1, q.2)))))
      ]
    where
      begun : RecoverySnapshot × Option ℕ
      begun = begin_attempt s.config now (record_locked s k now)

      all : Begun s.config (record_locked s k now) begun
      all = begin_lem s.config (record_locked s k now) now (found-IsSound s now k a)

  reconcile_connected-AllSound :
      (s : RecoverySupervisor) (w : W) (now : Time) (d : DeviceHealthSnapshot)
      (x : RecoverySnapshot)
      → AllSound s
      → IsSound s.config x
      → AllSound (reconcile_connected registry controller s w now d x).0
  unfolding reconcile_connected
  reconcile_connected-AllSound s w now d x a i =
      if_both (λ (z : RecoverySupervisor × W). AllSound z.0) _
        (set-AllSound s (normalize_ski d.ski) (reset_record now x) a
          (reset-IsSound s.config x now (omega (arith, a.positive))))
        (if_both (λ (z : RecoverySupervisor × W). AllSound z.0) _ a
          (if_both (λ (z : RecoverySupervisor × W). AllSound z.0) _
            (recover-AllSound s w now (normalize_ski d.ski) a)
            (set-AllSound s (normalize_ski d.ski) (keep_grace s.config now x) a
              (keep_grace-IsSound s.config x now i.bounded))))

  reconcile-AllSound :
      (s : RecoverySupervisor) (w : W) (now : Time) (d : DeviceHealthSnapshot)
      → AllSound s
      → AllSound (reconcile_healthy registry controller s w now d).0
  unfolding reconcile_healthy
  reconcile-AllSound s w now d a =
      if_both (λ (z : RecoverySupervisor × W). AllSound z.0) (d.trust_known && not d.trusted)
        (set-AllSound s (normalize_ski d.ski) (transition_locked found untrusted now).0 a
          (transition-IsSound s.config found untrusted now sound.bounded (λ h. cc) (λ h. cc)))
        (if_both (λ (z : RecoverySupervisor × W). AllSound z.0) (not d.connected)
          (set-AllSound s (normalize_ski d.ski) (transition_locked found disconnected now).0 a
            (transition-IsSound s.config found disconnected now sound.bounded (λ h. cc) (λ h. cc)))
          (elim (Option-cases (lookup (normalize_ski d.ski) s.records)) [
            | inl e ↦ rw e (
                set-AllSound s (normalize_ski d.ski)
                  (first_record s.config now d.monitoring_success_on_connect) a
                  (first_record-IsSound s.config now d.monitoring_success_on_connect
                    (omega (arith, a.positive))))
            | inr (x, e) ↦
                rw e
                  (reconcile_connected-AllSound s w now d x a (a.sound (normalize_ski d.ski) x e))
          ]))
    where
      found : RecoverySnapshot
      found = record_locked s (normalize_ski d.ski) now

      sound : IsSound s.config found
      sound = found-IsSound s now (normalize_ski d.ski) a

  recover_all-AllSound :
      (s : RecoverySupervisor) (w : W) (now : Time) (stale : List Text)
      → AllSound s
      → AllSound (recover_all registry controller s w now stale).0
  unfolding recover_all
  recover_all-AllSound s w now [] a = a
  recover_all-AllSound s w now (k ∷ stale) a =
      recover_all-AllSound (recover registry controller s w now (normalize_ski k)).0
        (recover registry controller s w now (normalize_ski k)).1 now stale
        (recover-AllSound s w now (normalize_ski k) a)

  one-AllSound :
      (s : RecoverySupervisor) (w : W) (now : Time) (stale : List Text) (d : DeviceHealthSnapshot)
      → AllSound s
      → AllSound (reconcile_unless_stale registry controller s w now stale d).0
  unfolding reconcile_unless_stale
  one-AllSound s w now stale d a =
      if_both (λ (z : RecoverySupervisor × W). AllSound z.0)
        (is_stale_ski stale (normalize_ski d.ski)) a (reconcile-AllSound s w now d a)

  reconcile_all-AllSound :
      (s : RecoverySupervisor) (w : W) (now : Time) (stale : List Text)
      (health : List DeviceHealthSnapshot)
      → AllSound s
      → AllSound (reconcile_all registry controller s w now stale health).0
  unfolding reconcile_all
  reconcile_all-AllSound s w now stale [] a = a
  reconcile_all-AllSound s w now stale (d ∷ health) a =
      reconcile_all-AllSound (reconcile_unless_stale registry controller s w now stale d).0
        (reconcile_unless_stale registry controller s w now stale d).1 now stale health
        (one-AllSound s w now stale d a)

decision-AllSound :
    (s : RecoverySupervisor) (health : List DeviceHealthSnapshot)
    → AllSound s
    → AllSound (restart_decision s health).0
unfolding restart_decision
decision-AllSound s health a = record { positive = a.positive; sound = a.sound }

pub tick-AllSound :
    {W : Type 0} (registry : Option (RecoveryRegistry W))
    (controller : Option (RecoveryController W)) (s : RecoverySupervisor) (w : W) (now : Time)
    → AllSound s
    → AllSound (tick registry controller s w now).0
unfolding tick
tick-AllSound none controller s w now a = a
tick-AllSound (some registry) controller s w now a =
    let health = registry.list_device_health w in
    let stale = registry.stale_devices w s.config.stale_threshold s.config.grace in
    let z = recover_all registry controller s w now stale in
    decision-AllSound (reconcile_all registry controller z.0 z.1 now stale health).0 health (
      reconcile_all-AllSound registry controller z.0 z.1 now stale health
        (recover_all-AllSound registry controller s w now stale a))

-- What happens: the world changes, and then the supervisor ticks.
unfoldable pub run_ticks :
    {W : Type 0}
    → Option (RecoveryRegistry W)
    → Option (RecoveryController W)
    → RecoverySupervisor
    → W
    → List ((W → W) × Time)
    → RecoverySupervisor × W
run_ticks registry controller s w [] = (s, w)
run_ticks registry controller s w ((change, now) ∷ ticks) =
    let (s', w', result) = tick registry controller s (change w) now in
    run_ticks registry controller s' w' ticks

pub ticks-AllSound :
    {W : Type 0} (registry : Option (RecoveryRegistry W))
    (controller : Option (RecoveryController W)) (s : RecoverySupervisor) (w : W)
    (ticks : List ((W → W) × Time))
    → AllSound s
    → AllSound (run_ticks registry controller s w ticks).0
unfolding run_ticks
ticks-AllSound registry controller s w [] a = a
ticks-AllSound registry controller s w ((change, now) ∷ ticks) a =
    ticks-AllSound registry controller (tick registry controller s (change w) now).0
      (tick registry controller s (change w) now).1 ticks
      (tick-AllSound registry controller s (change w) now a)

pub new-AllSound : (config : RecoveryConfig) → AllSound (new_recovery_supervisor config)
unfolding new_recovery_supervisor default_config lookup
new-AllSound config = record { positive = ground arith; sound = λ k x h. cc }

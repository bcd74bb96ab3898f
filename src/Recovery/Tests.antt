-- ===== src/Recovery/Tests.antt =====
-- Runs of the supervisor on one device that is always stale.
use eebus_ha_bridge.Prelude.{
  ℕ, ◌+◌, ◌-◌, ◌≡◌, ◌≤◌, ◌↔◌, refl, List, [], ◌∷◌, true, false, none, some, ite, pos, arith,
}
use eebus_ha_bridge.Ski.{Text-discrete, normalize_ski}
use eebus_ha_bridge.Time.{Time}
use eebus_ha_bridge.Registry.Health.{DeviceHealthSnapshot}
use eebus_ha_bridge.Registry.Operations.Tests.{ski_a}
use eebus_ha_bridge.Recovery.{
  RecoveryConfig, RecoveryRegistry, RecoveryController, RecoverySupervisor, new_recovery_supervisor,
  default_config, tick, backoff,
}
use eebus_ha_bridge.Recovery.Ticks.{AllSound, run_ticks}
use eebus_ha_bridge.Recovery.Retries.{run_ticks-Counts, run_ticks-new_recovery_supervisor}
use eebus_ha_bridge.Prelude.{◌≤ℤ◌, ltb_ℤ}
use eebus_ha_bridge.Ski.{Text}
use eebus_ha_bridge.Recovery.Backoff.{backoff-doubled, capped, doubled}
use eebus_ha_bridge.Recovery.Restart.{AllExhausted, tick-restart_required, tick-tick}
use eebus_ha_bridge.Recovery.{
  recover_all, recover, begin_attempt, finish_attempt, record_locked, set_record, transition_locked,
  reconnect, backoff_loop, double, reconcile_all, reconcile_unless_stale, is_stale_ski,
  restart_decision, relevant, exhausted_of, is_exhausted, RecoveryState-discrete,
}
use eebus_ha_bridge.Texts.{sort_texts, sort_by, insert_sorted, le_text}
use eebus_ha_bridge.Store.{lookup, insert}
use eebus_ha_bridge.Time.{add}
use eebus_ha_bridge.Prelude.{◌+ℤ◌, ℕ_discrete}
use eebus_ha_bridge.Ski.{
  trim_space, trim_left, trim_right, remove_separators, is_space, is_separator, to_upper,
}

-- The number of registrations of the device, and the time of its monitoring's last success.
record World : Type 0 where
  registrations : ℕ
  last_success : Time

abbrev new_world : World
new_world = record { registrations = 0; last_success = pos 50 }

abbrev device_a : World → DeviceHealthSnapshot
device_a w = record {
  ski = ski_a;
  connected = true;
  trusted = true;
  trust_known = true;
  connected_at = pos 1;
  last_transition_at = pos 1;
  last_monitoring_success = w.last_success;
  monitoring_success_on_connect = true;
}

abbrev registry_a : RecoveryRegistry World
registry_a = record {
  stale_devices = λ w threshold grace. ski_a ∷ [];
  monitoring_last_success_age = λ w ski. none;
  monitoring_success_since = λ w ski since. ltb_ℤ since w.last_success;
  clear_entities = λ w ski. w;
  device_health = λ w ski. some (device_a w);
  list_device_health = λ w. device_a w ∷ [];
}

abbrev counted : World → Text → World
counted w j = record w {
  registrations = ite (Text-discrete j ski_a) (w.registrations + 1) w.registrations;
}

abbrev controller_a : RecoveryController World
controller_a = record { register_remote_ski = counted; unregister_remote_ski = λ w j. w }

abbrev config_a : RecoveryConfig
config_a = record {
  stale_threshold = pos 300;
  grace = pos 60;
  base_backoff = pos 60;
  max_backoff = pos 600;
  max_attempts = pos 2;
}

abbrev five_ticks : List ((World → World) × Time)
five_ticks =
    ((λ w. w), pos 100)
    ∷ ((λ w. w), pos 1000)
    ∷ ((λ w. w), pos 2000)
    ∷ ((λ w. w), pos 3000)
    ∷ ((λ w. w), pos 4000)
    ∷ []

abbrev times : World → ℕ
times w = w.registrations

abbrev Dead : World → Type 0
Dead w = w.last_success ≡ pos 50

max_a : (default_config config_a).max_attempts ≡ pos 2
unfolding default_config
max_a = refl

-- The device worked until the time 50, and was dead when the supervisor started.
abbrev died : Time
died = pos 60

since_died : (w : World) (t : Time) → Dead w → died ≤ℤ t → ltb_ℤ t w.last_success ≡ false
since_died w t d late = ground (arith, d, late)

quiet :
    (n : ℕ)
    → ((w : World) → Dead w → Dead w) × ((w : World) → times w ≡ times w) × (died ≤ℤ pos (60 + n))
quiet n = ((λ w d. d), (λ w. refl), omega arith)

run_ticks-Counts_example :
    times
      (run_ticks
        (some registry_a)
        (some controller_a)
        (new_recovery_supervisor config_a)
        new_world
        five_ticks).1
    ≤ times new_world + 2
run_ticks-Counts_example =
    run_ticks-Counts registry_a controller_a ski_a times Dead died config_a 2 new_world five_ticks
      (record { clears = λ w j. refl; unregisters = λ w j. refl; registers = λ w j. refl })
      (record {
        since = since_died;
        clears = λ w j d. d;
        unregisters = λ w j d. d;
        registers = λ w j d. d;
      })
      (omega arith) refl max_a (quiet 40, (quiet 940, (quiet 1940, (quiet 2940, (quiet 3940, tt)))))

run_ticks-new_recovery_supervisor_example :
    ((run_ticks
        (some registry_a)
        (some controller_a)
        (new_recovery_supervisor config_a)
        new_world
        five_ticks).0.config
      ≡ default_config config_a)
    × AllSound
        (run_ticks
          (some registry_a)
          (some controller_a)
          (new_recovery_supervisor config_a)
          new_world
          five_ticks).0
run_ticks-new_recovery_supervisor_example =
    run_ticks-new_recovery_supervisor (some registry_a) (some controller_a) config_a new_world
      five_ticks

backoff-doubled_example : backoff config_a 3 ≡ pos (capped 600 (doubled (3 - 1) 60))
backoff-doubled_example = backoff-doubled config_a 60 600 3 refl refl (omega arith) (omega arith)

-- One attempt is allowed, so that the second tick exhausts the device.
abbrev one_attempt : RecoverySupervisor
one_attempt = new_recovery_supervisor (record config_a { max_attempts = pos 1 })

abbrev once : World
once = record new_world { registrations = 1 }

abbrev after_one : RecoverySupervisor
after_one = (tick (some registry_a) (some controller_a) one_attempt new_world (pos 100)).0

second_restarts :
    (tick (some registry_a) (some controller_a) after_one once (pos 1000)).2.restart_required ≡ true
unfolding tick recover_all recover begin_attempt finish_attempt record_locked set_record
    transition_locked reconnect backoff backoff_loop double reconcile_all reconcile_unless_stale
    is_stale_ski restart_decision relevant exhausted_of is_exhausted sort_texts sort_by
    insert_sorted le_text lookup insert normalize_ski trim_space trim_left trim_right
    remove_separators is_space is_separator to_upper add ◌+ℤ◌ new_recovery_supervisor default_config
    RecoveryState-discrete Text-discrete ℕ_discrete
second_restarts = refl

tick-tick_example : ¬ AllExhausted (device_a new_world ∷ []) after_one.records
tick-tick_example =
    tick-tick registry_a (some controller_a) one_attempt new_world once (pos 100) (pos 1000)
      second_restarts

tick-restart_required_example :
    ((tick (some registry_a) (some controller_a) after_one once (pos 1000)).2.restart_required
      ≡ true)
    ↔ ((after_one.restart_signalled ≡ false)
        × AllExhausted
            (device_a new_world ∷ [])
            (tick (some registry_a) (some controller_a) after_one once (pos 1000)).0.records)
tick-restart_required_example =
    tick-restart_required registry_a (some controller_a) after_one once (pos 1000)

-- ===== src/Registry/Operations/Tests.antt =====
-- Runs of the registry on two devices.
use eebus_ha_bridge.Prelude.{some}
use eebus_ha_bridge.Registry.State.{Registry}
use eebus_ha_bridge.Store.{or_zero, insert}
use eebus_ha_bridge.Store.Unique.{IsUnique}
use eebus_ha_bridge.Registry.State.{
  MonitoringState, no_monitoring, capability_key, Capability-discrete,
}
use eebus_ha_bridge.Registry.Capabilities.{entries_of, fill_entries}
use eebus_ha_bridge.Registry.Health.{mark_disconnected, device_connection}
use eebus_ha_bridge.Registry.Operations.Connection.{Settled, mark_disconnected-Settled}
use eebus_ha_bridge.Prelude.{◌≡◌, ◌≢◌, refl, List, [], ◌∷◌, true, false, pos, arith}
use eebus_ha_bridge.Store.{lookup}
use eebus_ha_bridge.Ski.{
  Text, text_key, normalize_ski, trim_space, trim_left, trim_right, remove_separators, is_space,
  is_separator, to_upper,
}
use eebus_ha_bridge.Time.{Time}
use eebus_ha_bridge.Registry.State.{new_registry, no_info, is_removed, monitoring, lpc}
use eebus_ha_bridge.Registry.Catalog.{remove_device}
use eebus_ha_bridge.Registry.Operations.{
  Operation, connects, trusts, disconnects, adds, reads, supports, switches, apply, run,
}
use eebus_ha_bridge.Registry.Operations.Isolation.{view, apply-view}
use eebus_ha_bridge.Registry.Operations.Entries.{run-Inv}
use eebus_ha_bridge.Registry.Capabilities.Invariant.{Inv}
use eebus_ha_bridge.Registry.Operations.Removal.{IsClean, nothing, run-IsClean, run-remove_device}

abbrev pub ski_a : Text
ski_a = b'A' ∷ b'1' ∷ []

abbrev pub ski_b : Text
ski_b = b'B' ∷ b'2' ∷ []

pub stable_a : normalize_ski ski_a ≡ ski_a
unfolding normalize_ski trim_space trim_left trim_right remove_separators is_space is_separator
    to_upper
stable_a = refl

pub stable_b : normalize_ski ski_b ≡ ski_b
unfolding normalize_ski trim_space trim_left trim_right remove_separators is_space is_separator
    to_upper
stable_b = refl

pub apart : normalize_ski ski_b ≢ normalize_ski ski_a
unfolding normalize_ski trim_space trim_left trim_right remove_separators is_space is_separator
    to_upper
apart h = ground arith

stable_twice_a : normalize_ski (normalize_ski ski_a) ≡ normalize_ski ski_a
stable_twice_a = rw (stable_a, stable_a) refl

stable_twice_b : normalize_ski (normalize_ski ski_b) ≡ normalize_ski ski_b
stable_twice_b = rw (stable_b, stable_b) refl

abbrev pub two_devices : List (Time × Operation)
two_devices =
    (pos 1, adds ski_a no_info)
    ∷ (pos 1, connects ski_a)
    ∷ (pos 2, adds ski_b no_info)
    ∷ (pos 2, connects ski_b)
    ∷ []

pub new_registry-IsClean : IsClean new_registry
unfolding new_registry is_removed lookup
new_registry-IsClean = record { clean = λ k h. cc }

apply-view_example :
    view (apply (run new_registry two_devices) (pos 9) (disconnects ski_b)) (normalize_ski ski_a)
    ≡ view (run new_registry two_devices) (normalize_ski ski_a)
apply-view_example =
    apply-view (run new_registry two_devices) (pos 9) (disconnects ski_b) (normalize_ski ski_a) refl
      stable_twice_b apart

pub two_devices-IsClean : IsClean (run new_registry two_devices)
two_devices-IsClean =
    run-IsClean two_devices new_registry new_registry-IsClean
      (stable_twice_a, (stable_twice_a, (stable_twice_b, (stable_twice_b, tt))))

abbrev late_calls : List (Time × Operation)
late_calls =
    (pos 10, disconnects ski_a)
    ∷ (pos 11, reads ski_a monitoring false)
    ∷ (pos 12, supports ski_a lpc true)
    ∷ (pos 13, trusts ski_b)
    ∷ []

run-remove_device_example :
    view (run (remove_device (run new_registry two_devices) ski_a) late_calls) (normalize_ski ski_a)
    ≡ nothing
run-remove_device_example =
    run-remove_device (run new_registry two_devices) ski_a late_calls two_devices-IsClean (
      stable_twice_a,
      (λ h. h),
      (stable_twice_a, (λ h. h), (stable_twice_a, (λ h. h), (stable_twice_b, apart, tt))),
    )

run-IsClean_example : IsClean (run new_registry two_devices)
run-IsClean_example =
    run-IsClean two_devices new_registry new_registry-IsClean
      (stable_twice_a, (stable_twice_a, (stable_twice_b, (stable_twice_b, tt))))

run-Inv_example : Inv (run new_registry ((pos 0, switches lpc false) ∷ two_devices))
run-Inv_example = run-Inv ((pos 0, switches lpc false) ∷ two_devices)

-- Connected at 1, with no capabilities yet.
abbrev online : MonitoringState
online = record no_monitoring { connected = true; connected_at = pos 1 }

abbrev one_online : Registry
one_online = record {
  devices = [];
  health = record { monitoring = (normalize_ski ski_a, online) ∷ []; heartbeat_required = [] };
  capabilities = record { entries = []; support = []; local_capabilities = [] };
  removed = [];
}

one_online-Inv : Inv one_online
unfolding lookup
one_online-Inv = record { fit = λ ski m h. cc }

one_online-IsUnique : IsUnique (entries_of one_online (pos 9) (normalize_ski ski_a))
unfolding entries_of fill_entries insert lookup Capability-discrete
one_online-IsUnique = (refl, (refl, (refl, (refl, (refl, (refl, (refl, (refl, tt))))))))

one_online-known : lookup (normalize_ski ski_a) one_online.health.monitoring ≡ some online
unfolding lookup
one_online-known = ground arith

one_online-is_removed : is_removed one_online (normalize_ski ski_a) ≡ false
unfolding is_removed lookup
one_online-is_removed = refl

mark_disconnected-Settled_example :
    Settled (
      lookup lpc (
        or_zero [] (
          lookup
            (normalize_ski ski_a)
            (mark_disconnected one_online (pos 9) ski_a).capabilities.entries)))
    × (device_connection (mark_disconnected one_online (pos 9) ski_a) ski_a ≡ (false, pos 9, true))
mark_disconnected-Settled_example =
    mark_disconnected-Settled one_online (pos 9) ski_a online lpc one_online-Inv one_online-IsUnique
      one_online-is_removed one_online-known refl

-- ===== src/Registry/Health/Tests.antt =====
-- Runs of the health projection on two devices.
use eebus_ha_bridge.Prelude.{◌≡◌, refl, [], ◌∷◌, true, pos, Any, ◌↔◌, ℕ_discrete}
use eebus_ha_bridge.Store.{lookup}
use eebus_ha_bridge.Store.Unique.{IsUnique}
use eebus_ha_bridge.Ski.{Text, Text-discrete, text_key}
use eebus_ha_bridge.Texts.Laws.{IsSorted}
use eebus_ha_bridge.Registry.State.{MonitoringState, no_monitoring, Registry, new_registry}
use eebus_ha_bridge.Registry.Health.{stale_devices}
use eebus_ha_bridge.Registry.Health.Stale.{by_itself, HasStale, stale_devices-HasStale}

abbrev device_b : Text
device_b = b'B' ∷ []

-- Connected since the second 1, without a success.
abbrev silent : MonitoringState
silent = record no_monitoring { connected = true; connected_at = pos 1_000_000_000 }

abbrev two_states : Registry
two_states = record new_registry {
  health = record {
    monitoring = (device_b, silent) ∷ ((b'A' ∷ []), no_monitoring) ∷ [];
    heartbeat_required = [];
  };
}

two_states-IsUnique : IsUnique two_states.health.monitoring
unfolding lookup Text-discrete ℕ_discrete
two_states-IsUnique = (refl, (refl, tt))

stale_devices-HasStale_example :
    (Any (λ x. x ≡ device_b) (stale_devices two_states (pos 9_000_000_000) (pos 100) (pos 200))
      ↔ HasStale (pos 9_000_000_000) (pos 100) (pos 200) two_states.health.monitoring device_b)
    × IsSorted by_itself (stale_devices two_states (pos 9_000_000_000) (pos 100) (pos 200))
stale_devices-HasStale_example =
    stale_devices-HasStale (pos 9_000_000_000) (pos 100) (pos 200) two_states device_b
      two_states-IsUnique

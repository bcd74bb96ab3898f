-- ===== src/Callbacks/Tests.antt =====
-- Runs of the callbacks and of the trust controller.
use eebus_ha_bridge.Prelude.{ℕ, ◌≡◌, refl, List, [], ◌∷◌, true, some, pos}
use eebus_ha_bridge.Ski.{normalize_ski}
use eebus_ha_bridge.Time.{Time}
use eebus_ha_bridge.Registry.State.{Registry, new_registry}
use eebus_ha_bridge.Registry.Catalog.{remove_device}
use eebus_ha_bridge.Registry.Operations.Isolation.{view}
use eebus_ha_bridge.Registry.Operations.Removal.{nothing}
use eebus_ha_bridge.Registry.Operations.Tests.{
  ski_a, ski_b, stable_a, stable_b, apart, new_registry-IsClean,
}
use eebus_ha_bridge.Bus.{new_bus}
use eebus_ha_bridge.Callbacks.{
  Callbacks, Shared, RemoteTrustService, TrustController, unregister_ski,
}
use eebus_ha_bridge.Callbacks.Sequence.{
  Callback, disconnected, auto_trusted, operations, all_operations, calls, calls-remove_device,
}
use eebus_ha_bridge.Callbacks.Trust.{Outcome, unregister_ski-Outcome}

abbrev late_callbacks : List (Time × Callback ℕ)
late_callbacks = (pos 5, disconnected ski_a) ∷ (pos 6, auto_trusted ski_b) ∷ []

abbrev removed : Callbacks ℕ
removed = record {
  bus = new_bus;
  registry = some (remove_device new_registry ski_a);
  discovered_svcs = [];
}

calls-remove_device_example :
    (r' : Registry) × ((calls removed late_callbacks).registry ≡ some r')
    × (view r' (normalize_ski ski_a) ≡ nothing)
unfolding all_operations operations
calls-remove_device_example =
    calls-remove_device removed late_callbacks new_registry ski_a refl new_registry-IsClean
      (cc (stable_a), (λ h. h), (cc (stable_a), (λ h. h), (cc (stable_b), apart, tt)))

-- A service whose command has no callback.
abbrev quiet_service : RemoteTrustService
quiet_service = record { register_remote_ski = λ s ski. s; unregister_remote_ski = λ s ski. s }

abbrev new_shared : Shared
new_shared = record { registry = new_registry; bus = new_bus }

abbrev controller : TrustController
controller = record { bridge = some quiet_service; has_registry = true; has_bus = true }

unregister_ski-Outcome_example :
    Outcome new_shared quiet_service
      (pos 1)
      ski_a
      (unregister_ski controller new_shared (pos 1) ski_a)
unregister_ski-Outcome_example =
    unregister_ski-Outcome controller quiet_service new_shared (pos 1) ski_a refl

-- ===== src/Callbacks/Sequence.antt =====
-- The registry that a sequence of callbacks leaves.
use eebus_ha_bridge.Prelude.{◌≡◌, refl, sym, ap, ◌∙◌, List, [], ◌∷◌, ◌++◌, some}
use eebus_ha_bridge.Ski.{Text, text_key, normalize_ski}
use eebus_ha_bridge.Time.{Time}
use eebus_ha_bridge.Registry.State.{Registry, no_info}
use eebus_ha_bridge.Registry.Catalog.{remove_device}
use eebus_ha_bridge.Registry.Operations.{
  Operation, connects, trusts, untrusts, disconnects, adds, clears, apply, run,
}
use eebus_ha_bridge.Registry.Operations.Isolation.{view}
use eebus_ha_bridge.Registry.Operations.Removal.{nothing, IsClean, AllLate, run-remove_device}
use eebus_ha_bridge.Callbacks.{
  Callbacks, publish_event, remote_service_connected, remote_service_disconnected,
  visible_remote_mdns_services_updated, service_updated, service_pairing_detail_update,
  service_auto_trusted, service_auto_trust_failed, service_auto_trust_removed,
}

-- The callbacks of api.ServiceReaderInterface.
pub data Callback (S : Type 0) : Type 0 where
  connected disconnected auto_trusted trust_failed trust_removed pairing_detail : Text → Callback S
  visible : List S → Callback S
  updated : Callback S

module _ {S : Type 0} where
  unfoldable pub call : Callbacks S → Time → Callback S → Callbacks S
  call c now (connected ski) = remote_service_connected c now ski
  call c now (disconnected ski) = remote_service_disconnected c now ski
  call c now (auto_trusted ski) = service_auto_trusted c now ski
  call c now (trust_failed ski) = service_auto_trust_failed c now ski
  call c now (trust_removed ski) = service_auto_trust_removed c now ski
  call c now (pairing_detail ski) = service_pairing_detail_update c now ski
  call c now (visible entries) = visible_remote_mdns_services_updated c now entries
  call c now updated = service_updated c

  unfoldable pub calls : Callbacks S → List (Time × Callback S) → Callbacks S
  calls c [] = c
  calls c ((now, x) ∷ l) = calls (call c now x) l

  -- The calls of the registry that one callback makes, in order.
  unfoldable pub operations : Time → Callback S → List (Time × Operation)
  operations now (connected ski) =
      (now, adds (normalize_ski ski) (record no_info { ski = normalize_ski ski }))
      ∷ (now, connects (normalize_ski ski))
      ∷ []
  operations now (disconnected ski) =
      (now, disconnects (normalize_ski ski)) ∷ (now, clears (normalize_ski ski)) ∷ []
  operations now (auto_trusted ski) = (now, trusts ski) ∷ []
  operations now (trust_failed ski) = (now, untrusts ski) ∷ []
  operations now (trust_removed ski) =
      (now, untrusts (normalize_ski ski)) ∷ (now, clears (normalize_ski ski)) ∷ []
  operations now (pairing_detail ski) = []
  operations now (visible entries) = []
  operations now updated = []

  unfoldable pub all_operations : List (Time × Callback S) → List (Time × Operation)
  all_operations [] = []
  all_operations ((now, x) ∷ l) = operations now x ++ all_operations l

  registry-call :
      (c : Callbacks S) (now : Time) (x : Callback S) (r : Registry)
      → c.registry ≡ some r
      → (call c now x).registry ≡ some (run r (operations now x))
  unfolding call operations run apply remote_service_connected remote_service_disconnected
      service_auto_trusted service_auto_trust_failed service_auto_trust_removed
      service_pairing_detail_update visible_remote_mdns_services_updated service_updated
      publish_event
  registry-call c now (connected ski) r e = rw e refl
  registry-call c now (disconnected ski) r e = rw e refl
  registry-call c now (auto_trusted ski) r e = rw e refl
  registry-call c now (trust_failed ski) r e = rw e refl
  registry-call c now (trust_removed ski) r e = rw e refl
  registry-call c now (pairing_detail ski) r e = e
  registry-call c now (visible entries) r e = e
  registry-call c now updated r e = e

run-append : (r : Registry) (xs ys : List (Time × Operation)) → run r (xs ++ ys) ≡ run (run r xs) ys
unfolding run
run-append r [] ys = refl
run-append r ((now, op) ∷ xs) ys = run-append (apply r now op) xs ys

module _ {S : Type 0} where
  pub registry-calls :
      (c : Callbacks S) (l : List (Time × Callback S)) (r : Registry)
      → c.registry ≡ some r
      → (calls c l).registry ≡ some (run r (all_operations l))
  unfolding calls all_operations run
  registry-calls c [] r e = e
  registry-calls c ((now, x) ∷ l) r e =
      registry-calls (call c now x) l (run r (operations now x)) (registry-call c now x r e)
      ∙ ap some (sym (run-append r (operations now x) (all_operations l)))

  -- Callbacks that arrive after the removal of a device and before it is trusted again, in whatever
  -- order and with keys that a second normalization does not change, leave a registry that holds
  -- nothing of the device but the mark of its removal, if it held nothing of the devices removed
  -- before: the disconnection that follows an unregistration does not bring the device back.
  pub calls-remove_device :
      (c : Callbacks S) (l : List (Time × Callback S)) (r : Registry) (ski : Text)
      → c.registry ≡ some (remove_device r ski)
      → IsClean r
      → AllLate (normalize_ski ski) (all_operations l)
      → (r' : Registry) × ((calls c l).registry ≡ some r') × (view r' (normalize_ski ski) ≡ nothing)
  calls-remove_device c l r ski e v late = (
    run (remove_device r ski) (all_operations l),
    registry-calls c l (remove_device r ski) e,
    run-remove_device r ski (all_operations l) v late,
  )

-- ===== src/Callbacks/Trust.antt =====
-- What an unregistration leaves.
use eebus_ha_bridge.Prelude.{◌≡◌, refl, Option, none, some, not, if_both}
use eebus_ha_bridge.Ski.{Text, text_key, normalize_ski}
use eebus_ha_bridge.Time.{Time}
use eebus_ha_bridge.Registry.Health.{mark_untrusted}
use eebus_ha_bridge.Registry.Operations.Isolation.{view}
use eebus_ha_bridge.Registry.Operations.Removal.{nothing, remove_device-view}
use eebus_ha_bridge.Bus.{publish, event, device_trust_removed}
use eebus_ha_bridge.Callbacks.{
  Shared, RemoteTrustService, TrustController, TrustError, unregister_ski,
}

-- The outcome of an unregistration: it fails, and nothing at all has happened, or it succeeds, the
-- registry holds nothing of the device but the mark of its removal, and the bus has published the
-- event, after whatever the service did.
abbrev pub Outcome : Shared → RemoteTrustService → Time → Text → Shared × Option TrustError → Type 0
Outcome s bridge now ski (s', none) =
    (view s'.registry (normalize_ski ski) ≡ nothing)
    × (s'.bus
        ≡ publish (bridge.unregister_remote_ski s ski).bus now (event ski device_trust_removed))
Outcome s bridge now ski (s', some e) = s' ≡ s

-- UnregisterSKI with a bridge service, whatever eebus-go and its callbacks do in the command:
-- either an error is returned and nothing has changed, or the registry holds nothing of the device
-- in any projection but the mark of its removal, and the loss of trust is the last event published.
pub unregister_ski-Outcome :
    (c : TrustController) (bridge : RemoteTrustService) (s : Shared) (now : Time) (ski : Text)
    → c.bridge ≡ some bridge
    → Outcome s bridge now ski (unregister_ski c s now ski)
unfolding unregister_ski
unregister_ski-Outcome c bridge s now ski e =
    rw (e, unregister_ski)
      (if_both (Outcome s bridge now ski) (not c.has_registry) refl (
        if_both (Outcome s bridge now ski) (not c.has_bus) refl (
          remove_device-view (mark_untrusted (bridge.unregister_remote_ski s ski).registry now ski)
              ski,
          refl,
        )))

-- ===== src/Grpc/Lpc/Delivered.antt =====
-- A limit that passes the checks of eebus-bridge/internal/grpc/lpc_service.go reaches the device.
use eebus_ha_bridge.Prelude.{◌*◌, ◌<◌, ℕ, pos, true, false, some, [], ◌∷◌, ◌≡◌, refl, arith, ok}
use eebus_ha_bridge.Ski.{Text, normalize_ski, valid_ski, is_empty}
use eebus_ha_bridge.Time.{Time}
use eebus_ha_bridge.Float.{Float, is_nan, is_inf, ltb_float}
use eebus_ha_bridge.Registry.State.{Capability, lpc}
use eebus_ha_bridge.Registry.Catalog.{EntityResolution, is_ambiguous}
use eebus_ha_bridge.Grpc.Status.{require_device_request, require_write_ski, normalize_read_ski}
use eebus_ha_bridge.Grpc.Validate.{non_negative, finite}
use eebus_ha_bridge.Grpc.Push.Bounds.{IsNonNegative, is_non_negative}
use eebus_ha_bridge.Grpc.Handler.{
  ServiceState, continue_with, send, resolve_compatible_entity,
  resolve_compatible_entity_resolution, resolve_by, with_resolution, with_entity,
}
use eebus_ha_bridge.Grpc.Lpc.Seconds.{duration_of-exact}
use eebus_ha_bridge.Grpc.Lpc.{
  LpcController, LpcCommand, WriteLoadLimitRequest, write_limit, non_negative_seconds, scenario_of,
  resolve_capability_entity, write_consumption_limit,
}

valid_ski-nonempty : (k : Text) → valid_ski k ≡ true → is_empty k ≡ false
unfolding valid_ski
valid_ski-nonempty [] h = cc
valid_ski-nonempty (c ∷ k) h = refl

require_write_ski-ok :
    (ski : Text) → valid_ski (normalize_ski ski) ≡ true → require_write_ski ski ≡ ok tt
unfolding require_write_ski
require_write_ski-ok ski v = rw (valid_ski-nonempty (normalize_ski ski) v, v) refl

normalize_read_ski-ok :
    (ski : Text)
    → valid_ski (normalize_ski ski) ≡ true
    → normalize_read_ski ski ≡ ok (normalize_ski ski)
unfolding normalize_read_ski
normalize_read_ski-ok ski v = rw (valid_ski-nonempty (normalize_ski ski) v, v) refl

non_negative-ok : (v : Float) → IsNonNegative v → non_negative v ≡ ok tt
unfolding non_negative finite is_nan is_inf ltb_float
non_negative-ok v (is_non_negative m) = ground arith

non_negative_seconds-ok : (m : ℕ) → non_negative_seconds (pos m) ≡ ok tt
unfolding non_negative_seconds
non_negative_seconds-ok m = ground arith

module _ {C : Type 0} where
  -- The resolver's entity is the one that is resolved.
  resolve_compatible_entity-ok :
      (now : Time) (ski : Text) (capability : Capability) (f : Text → EntityResolution)
      (s : ServiceState C) (e : ℕ)
      → valid_ski (normalize_ski ski) ≡ true
      → (f ski).entity ≡ some e
      → resolve_compatible_entity now ski capability (some f) s ≡ (s, ok e)
  unfolding resolve_compatible_entity resolve_compatible_entity_resolution resolve_by
      with_resolution with_entity continue_with is_ambiguous
  resolve_compatible_entity-ok now ski capability f s e v h =
      rw (normalize_read_ski-ok ski v, h) refl

-- A request of WriteConsumptionLimit with a SKI that has 40 hexadecimal digits when it is
-- normalized, a value that is finite and not negative and a duration of at least 0 and below
-- 9223372037 seconds, for a device of which the use case names an entity for scenario 1, makes the
-- service give the use case exactly one command: the limit of the request, for this entity, with
-- the duration in nanoseconds.
pub write_consumption_limit-write_limit :
    (c : LpcController) (now : Time) (r : WriteLoadLimitRequest) (s : ServiceState LpcCommand)
    (e m : ℕ)
    → valid_ski (normalize_ski r.ski) ≡ true
    → IsNonNegative r.value_watts
    → r.duration_seconds ≡ pos m
    → m < 9_223_372_037
    → (c.compatible_entity_for_scenario r.ski 1).entity ≡ some e
    → (write_consumption_limit (some c) now (some r) s).0.commands
      ≡ write_limit e (record {
        value = r.value_watts;
        duration = pos (m * 1_000_000_000);
        is_active = r.is_active;
        is_changeable = true;
      })
        ∷ s.commands
unfolding write_consumption_limit continue_with resolve_capability_entity scenario_of send
    require_device_request
write_consumption_limit-write_limit c now r s e m v n d short h =
    rw
      (
        require_write_ski-ok r.ski v,
        non_negative-ok r.value_watts n,
        d,
        non_negative_seconds-ok m,
        duration_of-exact m short,
        resolve_compatible_entity-ok now r.ski lpc (λ ski. c.compatible_entity_for_scenario ski 1) s
            e v h,
      )
      refl

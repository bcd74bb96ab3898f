-- ===== src/Providers/Runs.antt =====
-- The calls that a provider of eebus-bridge/internal/usecases serves, one after the other.
use eebus_ha_bridge.Prelude.{ℕ, Option, List, [], ◌∷◌}
use eebus_ha_bridge.Time.{Time}
use eebus_ha_bridge.Providers.{
  Provider, ProviderKind, MeasurementData, publish_if_open, publish_value, publish_snapshot,
  expire_snapshot, close_provider,
}

pub data Operation (F S : Type 0) : Type 0 where
  publishes : Time → S → Operation F S
  pushes : Option ℕ → F → Operation F S
  expires : ℕ → Time → Operation F S
  closes : Operation F S

module _ {W F E S : Type 0} (update : W → List (MeasurementData F) → W × Option E) where
  -- The push of one measurement, PublishPower and its like.
  unfoldable pub push : Provider W S → Option ℕ → F → Provider W S
  push p id value = (publish_if_open update p (λ q. publish_value update q id value)).0

  module _ (kind : ProviderKind F S) where
    unfoldable pub apply : Provider W S → Operation F S → Provider W S
    apply p (publishes now s) = (publish_snapshot update kind p now s).0
    apply p (pushes id value) = push p id value
    apply p (expires version now) = expire_snapshot update kind p version now
    apply p closes = close_provider update kind p

    unfoldable pub run : Provider W S → List (Operation F S) → Provider W S
    run p [] = p
    run p (op ∷ ops) = run (apply p op) ops

-- ===== src/Providers/Tests.antt =====
-- A grid provider whose server takes every write.
use eebus_ha_bridge.Prelude.{ℕ, false, Option, none, some, List, [], ◌∷◌, ◌≡◌, pos}
use eebus_ha_bridge.Float.{Float, float_of}
use eebus_ha_bridge.Providers.{
  MeasurementData, ProviderKind, add_use_case, new_provider, close_provider,
}
use eebus_ha_bridge.Providers.Kinds.{GridSnapshot, grid_kind}
use eebus_ha_bridge.Providers.Runs.{Operation, publishes, pushes, expires, closes, run}
use eebus_ha_bridge.Providers.Announced.{IsAnnounced, run-add_use_case}
use eebus_ha_bridge.Providers.Closed.{run-close_provider}

abbrev accept : ℕ → List (MeasurementData Float) → ℕ × Option ℕ
accept w l = (w, none)

abbrev grid : ProviderKind Float GridSnapshot
grid = grid_kind (some 1) (some 2) (some 3)

abbrev sample : GridSnapshot
sample = record {
  power_w = float_of 100;
  feed_in_wh = none;
  consumed_wh = some (float_of 7);
  validity = record { observed_at = pos 10; valid_until = pos 20; invalid = false };
}

abbrev day : List (Operation Float GridSnapshot)
day = publishes (pos 11) sample ∷ pushes (some 2) (float_of 4) ∷ expires 1 (pos 21) ∷ closes ∷ []

run-add_use_case_example :
    IsAnnounced (run accept grid (record (add_use_case new_provider) { meas = some 0 }) day)
run-add_use_case_example = run-add_use_case accept grid (some 0) day

run-close_provider_example :
    run accept grid (close_provider accept grid new_provider) day
    ≡ close_provider accept grid new_provider
run-close_provider_example = run-close_provider accept grid new_provider day

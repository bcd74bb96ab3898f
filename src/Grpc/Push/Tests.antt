-- ===== src/Grpc/Push/Tests.antt =====
-- Pushed samples.
use eebus_ha_bridge.Prelude.{◌+ℤ◌, ℕ, pos, Bool, true, false, none, some, ◌≡◌, refl, ok}
use eebus_ha_bridge.Float.{float_of, is_nan, is_inf, ltb_float}
use eebus_ha_bridge.Time.{Time, add}
use eebus_ha_bridge.ProviderSnapshot.{ProviderValidity}
use eebus_ha_bridge.Providers.Kinds.{BatterySnapshot}
use eebus_ha_bridge.Grpc.Status.{require_device_request}
use eebus_ha_bridge.Grpc.Validate.{
  finite, non_negative, percent, provider_validity, validity_of, ProviderSampleMeta,
}
use eebus_ha_bridge.Grpc.Push.{
  BatteryData, battery_values, battery_snapshot, check_optional, required_power,
}
use eebus_ha_bridge.Grpc.Push.Bounds.{IsSound, battery_snapshot-IsSound}

-- Timestamps are whole seconds here, all of them valid.
abbrev valid : ℕ → Bool
valid _ = true

abbrev seconds : ℕ → Time
seconds n = pos n

abbrev fresh_meta : ProviderSampleMeta ℕ
fresh_meta = record { observed_at = some 10; valid_until = some 20; invalid = false }

abbrev fresh_validity : ProviderValidity
fresh_validity = record { observed_at = pos 10; valid_until = pos 20; invalid = false }

takes_over : provider_validity valid seconds (some fresh_meta) (pos 12) ≡ ok fresh_validity
unfolding provider_validity validity_of add ◌+ℤ◌
takes_over = refl

abbrev battery : BatteryData ℕ
battery = record {
  power_w = some (float_of 300);
  charged_wh = some (float_of 5);
  discharged_wh = none;
  state_of_charge_pct = some (float_of 100);
  sample = some fresh_meta;
}

abbrev battery_sample : BatterySnapshot
battery_sample = record {
  power_w = float_of 300;
  charged_wh = some (float_of 5);
  discharged_wh = none;
  state_of_charge_pct = some (float_of 100);
  validity = fresh_validity;
}

accepted : battery_snapshot valid seconds (some battery) (pos 12) ≡ ok battery_sample
unfolding battery_snapshot battery_values require_device_request provider_validity validity_of add
    ◌+ℤ◌ required_power check_optional finite non_negative percent is_nan is_inf ltb_float
accepted = refl

battery_snapshot-IsSound_example : IsSound battery_sample
battery_snapshot-IsSound_example =
    battery_snapshot-IsSound valid seconds (some battery) (pos 12) accepted

-- ===== src/Providers/Kinds.antt =====
-- What the three providers publish: GridSnapshot, PVSnapshot and BatterySnapshot of
-- eebus-bridge/internal/usecases/provider_snapshot.go, and the measurements of mgcp.go, vapd.go and
-- vabd.go.
use eebus_ha_bridge.Prelude.{ℕ, Option, none, some, List, [], ◌∷◌}
use eebus_ha_bridge.Float.{Float}
use eebus_ha_bridge.Ski.{Text}
use eebus_ha_bridge.Time.{Time}
use eebus_ha_bridge.ProviderSnapshot.{ProviderValidity}
use eebus_ha_bridge.Bus.{
  Bus, EventType, event, publish, mgcp_consumer_updated, vapd_consumer_updated,
  vabd_consumer_updated,
}
use eebus_ha_bridge.Providers.{
  Provider, ProviderKind, ProviderMeasurementValue, MeasurementData, PublishError, not_initialized,
  server_error, publish_value, publish_if_open,
}

pub record GridSnapshot : Type 0 where
  pub power_w : Float
  pub feed_in_wh : Option Float
  pub consumed_wh : Option Float
  pub validity : ProviderValidity

pub record PvSnapshot : Type 0 where
  pub power_w : Float
  pub yield_wh : Option Float
  pub validity : ProviderValidity

pub record BatterySnapshot : Type 0 where
  pub power_w : Float
  pub charged_wh : Option Float
  pub discharged_wh : Option Float
  pub state_of_charge_pct : Option Float
  pub validity : ProviderValidity

abbrev measured : Option ℕ → Option Float → ProviderMeasurementValue Float
measured id value = record { id = id; value = value }

-- publishGridMeasurements, and the ids of invalidateGridMeasurements.
unfoldable pub grid_kind : Option ℕ → Option ℕ → Option ℕ → ProviderKind Float GridSnapshot
grid_kind power_id feed_in_id consumed_id = record {
  values = λ s.
      measured power_id (some s.power_w)
      ∷ measured feed_in_id s.feed_in_wh
      ∷ measured consumed_id s.consumed_wh
      ∷ [];
  ids = power_id ∷ feed_in_id ∷ consumed_id ∷ [];
  validity = λ s. s.validity;
}

-- publishPVMeasurements, and the ids of invalidatePVMeasurements.
unfoldable pub pv_kind : Option ℕ → Option ℕ → ProviderKind Float PvSnapshot
pv_kind power_id yield_id = record {
  values = λ s. measured power_id (some s.power_w) ∷ measured yield_id s.yield_wh ∷ [];
  ids = power_id ∷ yield_id ∷ [];
  validity = λ s. s.validity;
}

-- publishBatteryMeasurements, and the ids of invalidateBatteryMeasurements.
unfoldable pub battery_kind :
    Option ℕ → Option ℕ → Option ℕ → Option ℕ → ProviderKind Float BatterySnapshot
battery_kind power_id charged_id discharged_id soc_id = record {
  values = λ s.
      measured power_id (some s.power_w)
      ∷ measured charged_id s.charged_wh
      ∷ measured discharged_id s.discharged_wh
      ∷ measured soc_id s.state_of_charge_pct
      ∷ [];
  ids = power_id ∷ charged_id ∷ discharged_id ∷ soc_id ∷ [];
  validity = λ s. s.validity;
}

module _ {W E S : Type 0} (update : W → List (MeasurementData Float) → W × Option E) where
  -- PublishPower, PublishEnergyFeedIn and the other pushes of one measurement, by its id.
  unfoldable pub publish_single :
      Provider W S → Option ℕ → Float → Provider W S × Option (PublishError E)
  publish_single p id value = publish_if_open update p (λ q. publish_value update q id value)

  -- PublishPeakPower: `configuration` is the write of eebus-go's DeviceConfiguration server under
  -- the key of the peak power, `none` where either is missing.
  unfoldable pub publish_peak_power :
      Provider W S → Option (Float → Option E) → Float → Provider W S × Option (PublishError E)
  publish_peak_power p configuration watts =
      publish_if_open update p (λ q. (q, written configuration))
    where
      written : Option (Float → Option E) → Option (PublishError E)
      written none = some not_initialized
      written (some write) = elim (write watts) [ none ↦ none | some e ↦ some (server_error e) ]

-- The handleEvent of a provider, for its own support update.
unfoldable pub support_update : EventType → Option Bus → Time → Text → Option Bus
support_update type none now ski = none
support_update type (some bus) now ski = some (publish bus now (event ski type))

abbrev pub mgcp_support_update : Option Bus → Time → Text → Option Bus
mgcp_support_update = support_update mgcp_consumer_updated

abbrev pub vapd_support_update : Option Bus → Time → Text → Option Bus
vapd_support_update = support_update vapd_consumer_updated

abbrev pub vabd_support_update : Option Bus → Time → Text → Option Bus
vabd_support_update = support_update vabd_consumer_updated

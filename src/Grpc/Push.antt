-- ===== src/Grpc/Push.antt =====
-- What Home Assistant pushes to the providers: grid_service.go and visualization_service.go of
-- eebus-bridge/internal/grpc. A provider is its state `P` with its methods as parameters; one that
-- is not enabled is `none`.
pub mod Bounds
pub mod Tests
use eebus_ha_bridge.Prelude.{
  Bool, true, false, not, ◌&&◌, Option, none, some, if◌then◌else◌, Result, ok, err, ◌>>=◌, ◌>>◌,
  guard,
}
use eebus_ha_bridge.Store.{or_zero, is_some}
use eebus_ha_bridge.Float.{Float, float_of}
use eebus_ha_bridge.Time.{Time}
use eebus_ha_bridge.ProviderSnapshot.{ProviderValidity}
use eebus_ha_bridge.Providers.Kinds.{GridSnapshot, PvSnapshot, BatterySnapshot}
use eebus_ha_bridge.Grpc.Status.{
  Status, status, invalid_argument, unavailable, use_case_not_initialized, value_required,
  require_device_request,
}
use eebus_ha_bridge.Grpc.Errors.{UsecaseError, map_usecase_error, standard_usecase_error_classes}
use eebus_ha_bridge.Grpc.Validate.{
  ProviderSampleMeta, provider_validity, finite, non_negative, percent,
}

-- The messages of protobuf; an optional field that is not set is `none`.
pub record GridData (TS : Type 0) : Type 0 where
  pub power_w : Option Float
  pub feed_in_wh : Option Float
  pub consumed_wh : Option Float
  pub sample : Option (ProviderSampleMeta TS)

pub record PvData (TS : Type 0) : Type 0 where
  pub power_w : Option Float
  pub yield_wh : Option Float
  pub peak_power_w : Option Float
  pub sample : Option (ProviderSampleMeta TS)

pub record BatteryData (TS : Type 0) : Type 0 where
  pub power_w : Option Float
  pub charged_wh : Option Float
  pub discharged_wh : Option Float
  pub state_of_charge_pct : Option Float
  pub sample : Option (ProviderSampleMeta TS)

-- `if req.X != nil { if err := check(*req.X); err != nil { return err } }`
unfoldable pub check_optional : (Float → Result Status Unit) → Option Float → Result Status Unit
check_optional check none = ok tt
check_optional check (some v) = check v

-- The power of a request, which only a request without a sample may leave out.
unfoldable pub required_power :
    {TS : Type 0} → Option Float → Option (ProviderSampleMeta TS) → Result Status Float
required_power (some v) sample = ok v
required_power none none = ok (float_of 0)
required_power none (some _) = err (status invalid_argument value_required)

module _ {TS : Type 0} (check_valid : TS → Bool) (as_time : TS → Time) where
  -- The snapshot that a request asks to publish, with the checks of PublishGridData.
  unfoldable pub grid_values : GridData TS → ProviderValidity → Result Status GridSnapshot
  grid_values req validity =
      if validity.invalid
      then ok (record {
        power_w = float_of 0;
        feed_in_wh = none;
        consumed_wh = none;
        validity = validity;
      })
      else (do
        power_w ← required_power req.power_w req.sample
        finite power_w
        check_optional non_negative req.feed_in_wh
        check_optional non_negative req.consumed_wh
        ok (record {
          power_w = power_w;
          feed_in_wh = req.feed_in_wh;
          consumed_wh = req.consumed_wh;
          validity = validity;
        }))

  unfoldable pub grid_snapshot : Option (GridData TS) → Time → Result Status GridSnapshot
  grid_snapshot req now = do
    req' ← require_device_request req
    validity ← provider_validity check_valid as_time req'.sample now
    grid_values req' validity

  unfoldable pub pv_values : PvData TS → ProviderValidity → Result Status PvSnapshot
  pv_values req validity =
      if validity.invalid
      then ok (record { power_w = float_of 0; yield_wh = none; validity = validity })
      else (do
        power_w ← required_power req.power_w req.sample
        non_negative power_w
        check_optional non_negative req.yield_wh
        check_optional non_negative req.peak_power_w
        ok (record { power_w = power_w; yield_wh = req.yield_wh; validity = validity }))

  unfoldable pub pv_snapshot : Option (PvData TS) → Time → Result Status PvSnapshot
  pv_snapshot req now = do
    req' ← require_device_request req
    validity ← provider_validity check_valid as_time req'.sample now
    pv_values req' validity

  unfoldable pub battery_values : BatteryData TS → ProviderValidity → Result Status BatterySnapshot
  battery_values req validity =
      if validity.invalid
      then ok (record {
        power_w = float_of 0;
        charged_wh = none;
        discharged_wh = none;
        state_of_charge_pct = none;
        validity = validity;
      })
      else (do
        power_w ← required_power req.power_w req.sample
        finite power_w
        check_optional non_negative req.charged_wh
        check_optional non_negative req.discharged_wh
        check_optional percent req.state_of_charge_pct
        ok (record {
          power_w = power_w;
          charged_wh = req.charged_wh;
          discharged_wh = req.discharged_wh;
          state_of_charge_pct = req.state_of_charge_pct;
          validity = validity;
        }))

  unfoldable pub battery_snapshot : Option (BatteryData TS) → Time → Result Status BatterySnapshot
  battery_snapshot req now = do
    req' ← require_device_request req
    validity ← provider_validity check_valid as_time req'.sample now
    battery_values req' validity

-- A method of a provider: the provider after the call, and its error.
abbrev pub Method : Type 0 → Type 0 → Type 0
Method P A = P → Time → A → P × Option UsecaseError

abbrev pub marked_invalid : Result Status PvSnapshot → Bool
marked_invalid (ok s) = s.validity.invalid
marked_invalid (err e) = false

module _ {P : Type 0} where
  unfoldable pub answer : P × Option UsecaseError → Option P × Result Status Unit
  answer (p, none) = (some p, ok tt)
  answer (p, some e) = (some p, err (map_usecase_error e standard_usecase_error_classes))

  -- The call of the provider with what was checked; a bad request does not reach it.
  unfoldable pub push_checked :
      {A : Type 0} → Method P A → Option P → Time → Result Status A → Option P × Result Status Unit
  push_checked publish provider now (err e) = (provider, err e)
  push_checked publish none now (ok a) = (none, err (status unavailable use_case_not_initialized))
  push_checked publish (some p) now (ok a) = answer (publish p now a)

  module _ {TS : Type 0} (check_valid : TS → Bool) (as_time : TS → Time) where
    unfoldable pub publish_grid_data :
        Method P GridSnapshot
        → Option P
        → Time
        → Option (GridData TS)
        → Option P × Result Status Unit
    publish_grid_data publish provider now req =
        push_checked publish provider now (grid_snapshot check_valid as_time req now)

    unfoldable pub publish_battery_data :
        Method P BatterySnapshot
        → Option P
        → Time
        → Option (BatteryData TS)
        → Option P × Result Status Unit
    publish_battery_data publish provider now req =
        push_checked publish provider now (battery_snapshot check_valid as_time req now)

    -- The deprecated field of a valid sample, once the sample is published.
    unfoldable pub then_peak_power :
        Method P Float
        → Time
        → Option (PvData TS)
        → Bool
        → Option P × Result Status Unit
        → Option P × Result Status Unit
    then_peak_power publish_peak now (some req) false (some p, ok _) = elim (req.peak_power_w) [
      | none ↦ (some p, ok tt)
      | some watts ↦ answer (publish_peak p now watts)
    ]
    then_peak_power publish_peak now req invalid z = z

    unfoldable pub publish_pv_data :
        Method P PvSnapshot
        → Method P Float
        → Option P
        → Time
        → Option (PvData TS)
        → Option P × Result Status Unit
    publish_pv_data publish publish_peak provider now req =
        let checked = pv_snapshot check_valid as_time req now in
        then_peak_power publish_peak now req (marked_invalid checked)
          (push_checked publish provider now checked)

  -- PublishPVPeakPower; a request that is nil is `none`.
  unfoldable pub publish_pv_peak_power :
      Method P Float → Option P → Time → Option Float → Option P × Result Status Unit
  publish_pv_peak_power publish_peak provider now req =
      push_checked publish_peak provider now
        (require_device_request req >>= λ watts. non_negative watts >>= λ _. ok watts)

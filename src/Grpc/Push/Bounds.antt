-- ===== src/Grpc/Push/Bounds.antt =====
-- What a request must be for its values to reach a provider.
use eebus_ha_bridge.Prelude.{
  ℕ, ◌*◌, ◌^◌, ◌≤◌, ℤ, pos, negsuc, Bool, Option, none, some, ◌≡◌, subst, arith, Result, ok,
  >>-eq-ok, >>=-eq-ok, if_split,
}
use eebus_ha_bridge.Float.{
  Float, nan, positive_infinity, negative_infinity, finite_float, float_of, is_nan, is_inf,
  ltb_float,
}
use eebus_ha_bridge.Time.{Time}
use eebus_ha_bridge.ProviderSnapshot.{ProviderValidity}
use eebus_ha_bridge.Providers.Kinds.{BatterySnapshot}
use eebus_ha_bridge.Grpc.Status.{Status, require_device_request}
use eebus_ha_bridge.Grpc.Validate.{finite, non_negative, percent, provider_validity}
use eebus_ha_bridge.Grpc.Push.{
  BatteryData, battery_values, battery_snapshot, check_optional, required_power,
}

pub data IsFinite : Float → Type 0 where
  is_finite : (m : ℤ) → IsFinite (finite_float m)

pub data IsNonNegative : Float → Type 0 where
  is_non_negative : (m : ℕ) → IsNonNegative (finite_float (pos m))

-- 0 to 100, in the unit of `Float`.
pub data IsPercent : Float → Type 0 where
  is_percent : (m : ℕ) → m ≤ 100 * 2 ^ 1074 → IsPercent (finite_float (pos m))

pub data Each (P : Float → Type 0) : Option Float → Type 0 where
  no_value : Each P none
  a_value : {v : Float} → P v → Each P (some v)

finite-IsFinite : (v : Float) → finite v ≡ ok tt → IsFinite v
unfolding finite is_nan is_inf
finite-IsFinite nan h = cc
finite-IsFinite positive_infinity h = cc
finite-IsFinite negative_infinity h = cc
finite-IsFinite (finite_float m) h = is_finite m

pub non_negative-IsNonNegative : (v : Float) → non_negative v ≡ ok tt → IsNonNegative v
unfolding non_negative finite is_nan is_inf ltb_float
non_negative-IsNonNegative nan h = cc
non_negative-IsNonNegative positive_infinity h = cc
non_negative-IsNonNegative negative_infinity h = cc
non_negative-IsNonNegative (finite_float (pos m)) h = is_non_negative m
non_negative-IsNonNegative (finite_float (negsuc m)) h = absurd (ground arith)

percent-IsPercent : (v : Float) → percent v ≡ ok tt → IsPercent v
unfolding percent finite is_nan is_inf ltb_float
percent-IsPercent nan h = cc
percent-IsPercent positive_infinity h = cc
percent-IsPercent negative_infinity h = cc
percent-IsPercent (finite_float (pos m)) h = is_percent m (ground arith)
percent-IsPercent (finite_float (negsuc m)) h = absurd (ground arith)

check_optional-Each :
    (P : Float → Type 0) (check : Float → Result Status Unit)
    → ((v : Float) → check v ≡ ok tt → P v)
    → (o : Option Float) → check_optional check o ≡ ok tt
    → Each P o
unfolding check_optional
check_optional-Each P check sound none h = no_value
check_optional-Each P check sound (some v) h = a_value (sound v h)

-- A battery sample that may be published.
pub record IsSound (s : BatterySnapshot) : Type 0 where
  pub power : IsFinite s.power_w
  pub charged : Each IsNonNegative s.charged_wh
  pub discharged : Each IsNonNegative s.discharged_wh
  pub state_of_charge : Each IsPercent s.state_of_charge_pct

module _ {TS : Type 0} (check_valid : TS → Bool) (as_time : TS → Time) where
  battery_values-IsSound :
      (req : BatteryData TS) (v : ProviderValidity) {s : BatterySnapshot}
      → battery_values check_valid as_time req v ≡ ok s
      → IsSound s
  unfolding battery_values
  battery_values-IsSound req v {s} h =
      if_split Sound v.invalid
        (λ _ p. subst IsSound {x = withdrawn} {y = s} (cc) (record {
          power = is_finite (pos 0);
          charged = no_value;
          discharged = no_value;
          state_of_charge = no_value;
        }))
        (λ _ p.
          let (w, _, h₁) = >>=-eq-ok (required_power req.power_w req.sample) _ p in
          let (power, h₂) = >>-eq-ok (finite w) _ h₁ in
          let (charged, h₃) = >>-eq-ok (check_optional non_negative req.charged_wh) _ h₂ in
          let (discharged, h₄) = >>-eq-ok (check_optional non_negative req.discharged_wh) _ h₃ in
          let (soc, h₅) = >>-eq-ok (check_optional percent req.state_of_charge_pct) _ h₄ in
          subst IsSound {x = pushed w} {y = s} (cc) (record {
            power = finite-IsFinite w power;
            charged =
                check_optional-Each IsNonNegative non_negative non_negative-IsNonNegative
                  req.charged_wh charged;
            discharged =
                check_optional-Each IsNonNegative non_negative non_negative-IsNonNegative
                  req.discharged_wh discharged;
            state_of_charge =
                check_optional-Each IsPercent percent percent-IsPercent req.state_of_charge_pct soc;
          }))
        h
    where
      withdrawn : BatterySnapshot
      withdrawn = record {
        power_w = float_of 0;
        charged_wh = none;
        discharged_wh = none;
        state_of_charge_pct = none;
        validity = v;
      }

      pushed : Float → BatterySnapshot
      pushed w = record {
        power_w = w;
        charged_wh = req.charged_wh;
        discharged_wh = req.discharged_wh;
        state_of_charge_pct = req.state_of_charge_pct;
        validity = v;
      }

      Sound : Result Status BatterySnapshot → Type 0
      Sound r = r ≡ ok s → IsSound s

  -- A battery sample that passes the checks of PublishBatteryData has a finite power, energies
  -- that are finite and not negative, and a state of charge from 0 to 100.
  pub battery_snapshot-IsSound :
      (req : Option (BatteryData TS)) (now : Time) {s : BatterySnapshot}
      → battery_snapshot check_valid as_time req now ≡ ok s
      → IsSound s
  unfolding battery_snapshot
  battery_snapshot-IsSound req now h =
      let (r, _, h₁) = >>=-eq-ok (require_device_request req) _ h in
      let (v, _, h₂) = >>=-eq-ok (provider_validity check_valid as_time r.sample now) _ h₁ in
      battery_values-IsSound r v h₂

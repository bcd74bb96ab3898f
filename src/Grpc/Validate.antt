-- ===== src/Grpc/Validate.antt =====
-- The checks of pushed values: eebus-bridge/internal/grpc/validate.go. `TS` is the timestamp of
-- protobuf, whose CheckValid and AsTime are parameters.
pub mod Current
use eebus_ha_bridge.Prelude.{
  ℕ, ◌*◌, pos, ℤ, Bool, true, false, not, ◌&&◌, ◌||◌, Option, none, some, if◌then◌else◌, Result, ok,
  err, ◌>>=◌, ◌>>◌, guard,
}
use eebus_ha_bridge.Float.{Float, float_of, is_nan, is_inf, ltb_float}
use eebus_ha_bridge.Time.{Time, Duration, add, after}
use eebus_ha_bridge.ProviderSnapshot.{ProviderValidity}
use eebus_ha_bridge.Grpc.Status.{
  Status, status, invalid_argument, not_finite, negative, out_of_percent, observed_at_required,
  valid_until_required, observed_at_invalid, valid_until_invalid, observed_in_future,
  not_after_observed, sample_expired,
}

-- legacyProviderSampleTTL and providerObservedFutureLeeway, in nanoseconds.
abbrev pub legacy_provider_sample_ttl : Duration
legacy_provider_sample_ttl = pos (2 * 60 * 1_000_000_000)

abbrev pub provider_observed_future_leeway : Duration
provider_observed_future_leeway = pos (30 * 1_000_000_000)

unfoldable pub finite : Float → Result Status Unit
finite v = guard (is_nan v || is_inf v) (status invalid_argument not_finite)

unfoldable pub non_negative : Float → Result Status Unit
non_negative v = do finite v; guard (ltb_float v (float_of 0)) (status invalid_argument negative)

unfoldable pub percent : Float → Result Status Unit
percent v = do
  finite v
  guard (ltb_float v (float_of 0) || ltb_float (float_of 100) v)
      (status invalid_argument out_of_percent)

pub record ProviderSampleMeta (TS : Type 0) : Type 0 where
  pub observed_at : Option TS
  pub valid_until : Option TS
  pub invalid : Bool

module _ {TS : Type 0} (check_valid : TS → Bool) (as_time : TS → Time) where
  -- The part of providerValidity where both timestamps are given.
  unfoldable pub validity_of : TS → TS → Bool → Time → Result Status ProviderValidity
  validity_of observed until invalid now = do
    guard (not (check_valid observed)) (status invalid_argument observed_at_invalid)
    guard (not (check_valid until)) (status invalid_argument valid_until_invalid)
    guard (not invalid && after (as_time observed) (add now provider_observed_future_leeway))
        (status invalid_argument observed_in_future)
    guard (not invalid && not (after (as_time until) (as_time observed)))
        (status invalid_argument not_after_observed)
    guard (not invalid && not (after (as_time until) now)) (status invalid_argument sample_expired)
    ok (record { observed_at = as_time observed; valid_until = as_time until; invalid = invalid })

  unfoldable pub provider_validity :
      Option (ProviderSampleMeta TS) → Time → Result Status ProviderValidity
  provider_validity none now = ok (record {
    observed_at = now;
    valid_until = add now legacy_provider_sample_ttl;
    invalid = false;
  })
  provider_validity (some meta) now = elim (meta.observed_at) [
    | none ↦ err (status invalid_argument observed_at_required)
    | some observed ↦ elim (meta.valid_until) [
      | none ↦ err (status invalid_argument valid_until_required)
      | some until ↦ validity_of observed until meta.invalid now
    ]
  ]

-- ===== src/Grpc/Validate/Current.antt =====
-- What the validity of a pushed sample must be: eebus-bridge/internal/grpc/validate.go.
use eebus_ha_bridge.Prelude.{
  Bool, true, false, not, Option, none, some, ◌≡◌, refl, subst, arith, Result, ok, err, guard,
  >>-eq-ok, guard-eq-ok, ◌≤ℤ◌, ◌<ℤ◌, ap, ◌∙◌,
}
use eebus_ha_bridge.Time.{Time, add, after}
use eebus_ha_bridge.ProviderSnapshot.{ProviderValidity}
use eebus_ha_bridge.Grpc.Status.{
  Status, status, observed_at_required, valid_until_required, invalid_argument,
}
use eebus_ha_bridge.Grpc.Validate.{
  provider_validity, validity_of, ProviderSampleMeta, provider_observed_future_leeway,
}

-- A sample that may be taken over at `now`.
pub record IsFresh (now : Time) (v : ProviderValidity) : Type 0 where
  pub in_future : now <ℤ v.valid_until
  pub ordered : v.observed_at <ℤ v.valid_until
  pub observed : v.observed_at ≤ℤ add now provider_observed_future_leeway

abbrev invalid_of : Result Status ProviderValidity → Bool
invalid_of (ok v) = v.invalid
invalid_of (err e) = true

impossible : true ≡ false → ⊥
impossible e = cc

module _ {TS : Type 0} (check_valid : TS → Bool) (as_time : TS → Time) where
  validity_of-IsFresh :
      (observed until : TS) (invalid : Bool) (now : Time) {v : ProviderValidity}
      → validity_of check_valid as_time observed until invalid now ≡ ok v
      → v.invalid ≡ false
      → IsFresh now v
  unfolding validity_of
  validity_of-IsFresh observed until true now {v} h i =
      let (_, h₁) = >>-eq-ok (guard (not (check_valid observed)) _) _ h in
      let (_, h₂) = >>-eq-ok (guard (not (check_valid until)) _) _ h₁ in
      absurd (impossible (ap (λ (r : Result Status ProviderValidity). invalid_of r) h₂ ∙ i))
  validity_of-IsFresh observed until false now {v} h i =
      let (_, h₁) = >>-eq-ok (guard (not (check_valid observed)) _) _ h in
      let (_, h₂) = >>-eq-ok (guard (not (check_valid until)) _) _ h₁ in
      let (a, h₃) =
        >>-eq-ok (guard (after (as_time observed) (add now provider_observed_future_leeway)) _) _
          h₂ in
      let (b, h₄) = >>-eq-ok (guard (not (after (as_time until) (as_time observed))) _) _ h₃ in
      let (c, h₅) = >>-eq-ok (guard (not (after (as_time until) now)) _) _ h₄ in
      let fresh : IsFresh now (record {
        observed_at = as_time observed;
        valid_until = as_time until;
        invalid = false;
      }) =
        record {
          in_future = ground (arith, guard-eq-ok _ _ c);
          ordered = ground (arith, guard-eq-ok _ _ b);
          observed = ground (arith, guard-eq-ok _ _ a);
        } in
      subst (IsFresh now) {y = v} (cc) fresh

  -- A validity that is accepted of a sample that is not marked as invalid was observed at most 30
  -- seconds ahead of the clock, and ends after its observation and after now.
  provider_validity-IsFresh :
      (meta : ProviderSampleMeta TS) (now : Time) {v : ProviderValidity}
      → provider_validity check_valid as_time (some meta) now ≡ ok v
      → v.invalid ≡ false
      → IsFresh now v
  unfolding provider_validity
  provider_validity-IsFresh meta now {v} h i = cases _ _ refl refl
    where
      cases : (o u : Option TS) → meta.observed_at ≡ o → meta.valid_until ≡ u → IsFresh now v
      cases none u e f =
          let h' : err (status invalid_argument observed_at_required) ≡ ok v =
            rw (← h, e, provider_validity) refl in
          absurd (cc)
      cases (some o) none e f =
          let h' : err (status invalid_argument valid_until_required) ≡ ok v =
            rw (← h, e, f, provider_validity) refl in
          absurd (cc)
      cases (some o) (some u) e f =
          let h' : validity_of check_valid as_time o u meta.invalid now ≡ ok v =
            rw (← h, e, f, provider_validity) refl in
          validity_of-IsFresh o u meta.invalid now h' i

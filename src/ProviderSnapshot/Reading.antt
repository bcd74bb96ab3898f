-- ===== src/ProviderSnapshot/Reading.antt =====
-- What readers of a store see.
use eebus_ha_bridge.Prelude.{◌≡◌, Bool, true, false, arith, ◌↔◌, Option-cases, inl, inr}
use eebus_ha_bridge.Store.{is_some}
use eebus_ha_bridge.Time.{Time}
use eebus_ha_bridge.ProviderSnapshot.{
  ProviderSnapshotStore, ProviderValidity, is_current, current, should_expire, diagnostics,
  current_state, snapshot_version,
}

module _ {T : Type 0} where
  abbrev pub validity_test : (T → ProviderValidity) → T → Time → Bool
  validity_test validity value now = is_current (validity value) now

  -- Readers and diagnostics agree, on an open store and a closed one: a reader gets the sample at a
  -- time exactly when the diagnostics call it current, and then the timer of the present version does
  -- not expire it.
  pub current-diagnostics :
      (s : ProviderSnapshotStore T) (now : Time) (validity : T → ProviderValidity)
      → ((is_some (current s now (validity_test validity)) ≡ true)
          ↔ ((diagnostics s now validity).state ≡ current_state))
        × (is_some (current s now (validity_test validity)) ≡ true
            → should_expire s (snapshot_version s) now (validity_test validity) ≡ false)
  unfolding current diagnostics should_expire snapshot_version
  current-diagnostics s now validity = elim (Option-cases s.snapshot) [
    | inl e ↦
        rw (e, current, diagnostics, should_expire)
          (((λ h. cc), (λ h. ground (arith, h))), (λ h. cc))
    | inr (value, e) ↦
        rw (e, current, diagnostics, should_expire)
          (((λ h. ground (arith, h)), (λ h. ground (arith, h))), (λ h. ground (arith, h)))
  ]

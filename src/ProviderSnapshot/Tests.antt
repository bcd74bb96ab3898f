-- ===== src/ProviderSnapshot/Tests.antt =====
-- Runs of a store of numbers.
use eebus_ha_bridge.Prelude.{ℕ, ◌≡◌, refl, List, [], ◌∷◌, true, false, some, pos, arith, ◌↔◌}
use eebus_ha_bridge.Store.{is_some}
use eebus_ha_bridge.ProviderSnapshot.{
  ProviderSnapshotStore, ProviderValidity, new_store, commit, invalidate, clear_expired, close,
  provider_closed, current, should_expire, diagnostics, current_state, snapshot_version,
}
use eebus_ha_bridge.ProviderSnapshot.Versions.{
  Step, commits, expires, steps, clear_expired-steps, steps-close,
}
use eebus_ha_bridge.ProviderSnapshot.Reading.{validity_test, current-diagnostics}

abbrev late_steps : List (Step ℕ)
late_steps = expires 0 ∷ commits (pos 20) 8 (pos 40) ∷ expires 1 ∷ []

abbrev empty_store : ProviderSnapshotStore ℕ
empty_store = new_store

clear_expired-steps_example :
    clear_expired (steps (commit empty_store (pos 10) 7 (pos 30)).0 late_steps) 0
    ≡ steps (commit empty_store (pos 10) 7 (pos 30)).0 late_steps
unfolding new_store
clear_expired-steps_example =
    clear_expired-steps empty_store (pos 10) 7 (pos 30) late_steps 0 refl (omega arith)
      (omega arith)

steps-close_example :
    (steps (close empty_store) late_steps ≡ close empty_store)
    × ((commit (steps (close empty_store) late_steps) (pos 50) 9 (pos 60)).1 ≡ some provider_closed)
    × ((invalidate (steps (close empty_store) late_steps)).1 ≡ some provider_closed)
steps-close_example = steps-close empty_store late_steps (pos 50) 9 (pos 60)

abbrev until_30 : ℕ → ProviderValidity
until_30 n = record { observed_at = pos 10; valid_until = pos 30; invalid = false }

abbrev one_sample : ProviderSnapshotStore ℕ
one_sample = (commit empty_store (pos 10) 7 (pos 30)).0

current-diagnostics_example :
    ((is_some (current one_sample (pos 20) (validity_test until_30)) ≡ true)
      ↔ ((diagnostics one_sample (pos 20) until_30).state ≡ current_state))
    × (is_some (current one_sample (pos 20) (validity_test until_30)) ≡ true
        → should_expire one_sample (snapshot_version one_sample) (pos 20) (validity_test until_30)
          ≡ false)
current-diagnostics_example = current-diagnostics one_sample (pos 20) until_30

-- ===== src/ProviderSnapshot/Versions.antt =====
-- Late timers, and what follows a close.
use eebus_ha_bridge.Prelude.{
  ℕ, ◌+◌, ◌^◌, ◌≡◌, refl, List, [], ◌∷◌, true, false, some, arith, length, ◌≤◌, ◌<◌,
}
use eebus_ha_bridge.Time.{Time}
use eebus_ha_bridge.ProviderSnapshot.{
  ProviderSnapshotStore, commit, invalidate, clear_expired, close, provider_closed,
}

-- The calls that change a store; `expires` is the callback of a timer.
pub data Step (T : Type 0) : Type 0 where
  commits : Time → T → Time → Step T
  invalidates : Step T
  expires : ℕ → Step T
  closes : Step T

module _ {T : Type 0} where
  unfoldable pub step : ProviderSnapshotStore T → Step T → ProviderSnapshotStore T
  step s (commits now value valid_until) = (commit s now value valid_until).0
  step s invalidates = (invalidate s).0
  step s (expires version) = clear_expired s version
  step s closes = close s

  unfoldable pub steps : ProviderSnapshotStore T → List (Step T) → ProviderSnapshotStore T
  steps s [] = s
  steps s (x ∷ l) = steps (step s x) l

  step-version :
      (s : ProviderSnapshotStore T) (x : Step T)
      → s.version + 1 < 2 ^ 64
      → (s.version ≤ (step s x).version) × ((step s x).version ≤ s.version + 1)
  unfolding step commit invalidate clear_expired close
  step-version s (commits now value valid_until) w = ground (arith, w)
  step-version s invalidates w = ground (arith, w)
  step-version s (expires version) w = ground (arith, w)
  step-version s closes w = ground (arith, w)

  steps-version :
      (s : ProviderSnapshotStore T) (l : List (Step T))
      → s.version + length l < 2 ^ 64
      → s.version ≤ (steps s l).version
  unfolding steps
  steps-version s [] w = omega arith
  steps-version s (x ∷ l) w = omega (
    arith,
    step-version s x (omega (arith, w)),
    steps-version (step s x) l (omega (arith, w, step-version s x (omega (arith, w)))),
  )

  clear_expired_other :
      (s : ProviderSnapshotStore T) (v : ℕ) → v < s.version → clear_expired s v ≡ s
  unfolding clear_expired
  clear_expired_other s v h = ground (arith, h)

  -- Once a later sample is committed, a timer of any version up to the one before it changes nothing,
  -- whatever calls follow the commit and whenever the timer calls back, as long as the counter of
  -- versions does not wrap.
  pub clear_expired-steps :
      (s : ProviderSnapshotStore T) (now : Time) (value : T) (valid_until : Time)
      (l : List (Step T)) (v : ℕ)
      → s.closed ≡ false
      → v ≤ s.version
      → s.version + 1 + length l < 2 ^ 64
      → clear_expired (steps (commit s now value valid_until).0 l) v
        ≡ steps (commit s now value valid_until).0 l
  unfolding commit
  clear_expired-steps s now value valid_until l v e h w =
      clear_expired_other (steps (commit s now value valid_until).0 l) v (
        omega (
          arith,
          h,
          raised,
          steps-version (commit s now value valid_until).0 l (omega (arith, raised, w)),
        ))
    where
      raised : (commit s now value valid_until).0.version ≡ s.version + 1
      raised = ground (arith, e, w)

  step-closed : (s : ProviderSnapshotStore T) (x : Step T) → s.closed ≡ true → step s x ≡ s
  unfolding step commit invalidate clear_expired close
  step-closed s (commits now value valid_until) e = rw e refl
  step-closed s invalidates e = rw e refl
  step-closed s (expires version) e = rw e refl
  step-closed s closes e = rw e refl

  steps-closed : (s : ProviderSnapshotStore T) (l : List (Step T)) → s.closed ≡ true → steps s l ≡ s
  unfolding steps
  steps-closed s [] e = refl
  steps-closed s (x ∷ l) e = rw (step-closed s x e) (steps-closed s l e)

  close-closed : (s : ProviderSnapshotStore T) → (close s).closed ≡ true
  unfolding close
  close-closed s = ground arith

  -- Nothing follows a close: commits, invalidations, timers and further closes, in any order, leave
  -- the store as the close left it, and each commit and invalidation returns an error.
  pub steps-close :
      (s : ProviderSnapshotStore T) (l : List (Step T)) (now : Time) (value : T)
      (valid_until : Time)
      → (steps (close s) l ≡ close s)
        × ((commit (steps (close s) l) now value valid_until).1 ≡ some provider_closed)
        × ((invalidate (steps (close s) l)).1 ≡ some provider_closed)
  unfolding commit invalidate
  steps-close s l now value valid_until =
      let same = steps-closed (close s) l (close-closed s) in
      (same, rw (same, close-closed s) refl, rw (same, close-closed s) refl)

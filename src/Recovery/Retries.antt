-- ===== src/Recovery/Retries.antt =====
-- How often a device that stays dead is reconnected.
use eebus_ha_bridge.Prelude.{
  ℕ, ◌+◌, ◌≡◌, refl, ap, subst, ◌∙◌, List, [], ◌∷◌, Option, some, pos, ◌≤ℤ◌, arith, inl, inr,
  Option-cases, ◌≤◌,
}
use eebus_ha_bridge.Store.{lookup}
use eebus_ha_bridge.Ski.{Text, text_key}
use eebus_ha_bridge.Time.{Time}
use eebus_ha_bridge.Recovery.{
  RecoveryConfig, RecoverySupervisor, RecoveryRegistry, RecoveryController, tick,
  new_recovery_supervisor, default_config,
}
use eebus_ha_bridge.Prelude.{All}
use eebus_ha_bridge.Recovery.Settings.{tick-config}
use eebus_ha_bridge.Recovery.Ticks.{AllSound, new-AllSound, ticks-AllSound, run_ticks}
use eebus_ha_bridge.Recovery.Attempts.{attempts_at, Counts, NeverSucceeds, IsQuiet}
use eebus_ha_bridge.Recovery.Budget.{ticks-Paid}

ticks-config :
    {W : Type 0} (registry : Option (RecoveryRegistry W))
    (controller : Option (RecoveryController W)) (s : RecoverySupervisor) (w : W)
    (ticks : List ((W → W) × Time))
    → (run_ticks registry controller s w ticks).0.config ≡ s.config
unfolding run_ticks
ticks-config registry controller s w [] = refl
ticks-config registry controller s w ((change, now) ∷ ticks) =
    ticks-config registry controller (tick registry controller s (change w) now).0
      (tick registry controller s (change w) now).1 ticks
    ∙ tick-config registry controller s (change w) now

attempts_le :
    (s : RecoverySupervisor) (k : Text) (m : ℕ)
    → AllSound s
    → s.config.max_attempts ≡ pos m
    → attempts_at s k ≤ m
attempts_le s k m a e = elim (Option-cases (lookup k s.records)) [
  | inl f ↦ rw (f, attempts_at) (omega arith)
  | inr (x, f) ↦
      rw (f, attempts_at)
        (omega (arith, subst (λ l. pos x.attempts ≤ℤ l) e (a.sound k x f).bounded))
]

fresh_le :
    {W : Type 0} (config : RecoveryConfig) (k : Text) (count : W → ℕ) (w : W)
    → count w ≤ count w + attempts_at (new_recovery_supervisor config) k
fresh_le config k count w = omega arith

-- A device may have worked before, but from the time `died` on, which is after Go's zero time, its
-- monitoring has not succeeded: the registry answers no for any time from `died` on, in the first
-- world, after the supervisor's calls and after whatever happens between its ticks; all ticks are
-- from `died` on, and nothing but the supervisor registers the device. Then a new supervisor
-- registers it in any number of ticks, with any such changes of the world between them, at most as
-- often as its configuration allows attempts (3 times where the configuration has no positive
-- number), so a dead device is not reconnected for ever.
pub run_ticks-Counts :
    {W : Type 0} (registry : RecoveryRegistry W) (controller : RecoveryController W) (k : Text)
    (count : W → ℕ) (Dead : W → Type 0) (died : Time) (config : RecoveryConfig) (m : ℕ) (w : W)
    (ticks : List ((W → W) × Time))
    → Counts registry controller k count
    → NeverSucceeds registry controller k died Dead
    → pos 1 ≤ℤ died
    → Dead w
    → (default_config config).max_attempts ≡ pos m
    → All (IsQuiet count Dead died) ticks
    → count (run_ticks (some registry) (some controller) (new_recovery_supervisor config) w ticks).1
      ≤ count w + m
unfolding new_recovery_supervisor lookup
run_ticks-Counts registry controller k count Dead died config m w ticks counts never after_zero dead
      e quiet =
    let s = new_recovery_supervisor config in
    let end = run_ticks (some registry) (some controller) s w ticks in
    omega (
      arith,
      (ticks-Paid registry controller k count Dead counts died never after_zero (count w) s w ticks
          quiet (dead, fresh_le config k count w, inl (refl, refl))).1,
      attempts_le end.0 k m
          (ticks-AllSound (some registry) (some controller) s w ticks (new-AllSound config))
          (ap (λ (c : RecoveryConfig). c.max_attempts)
              (ticks-config (some registry) (some controller) s w ticks)
            ∙ e),
    )

-- Whatever configuration the supervisor is made with, and whatever the world does between its
-- ticks and in its calls: after any number of ticks the configuration is the same (with the
-- defaults put in), no device's record is left in the middle of an attempt, its attempts are at
-- most the configured number, and a record is exhausted only when it has used them all.
pub run_ticks-new_recovery_supervisor :
    {W : Type 0} (registry : Option (RecoveryRegistry W))
    (controller : Option (RecoveryController W)) (config : RecoveryConfig) (w : W)
    (ticks : List ((W → W) × Time))
    → ((run_ticks registry controller (new_recovery_supervisor config) w ticks).0.config
        ≡ default_config config)
      × AllSound (run_ticks registry controller (new_recovery_supervisor config) w ticks).0
unfolding new_recovery_supervisor
run_ticks-new_recovery_supervisor registry controller config w ticks = (
  ticks-config registry controller (new_recovery_supervisor config) w ticks,
  ticks-AllSound registry controller (new_recovery_supervisor config) w ticks (new-AllSound config),
)

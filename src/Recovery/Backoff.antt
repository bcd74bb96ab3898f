-- ===== src/Recovery/Backoff.antt =====
-- The waiting time between attempts.
use eebus_ha_bridge.Prelude.{
  ℕ, zero, suc, ◌-◌, ◌*◌, ◌^◌, ◌≡◌, refl, if◌then◌else◌, ltb, leb, pos, ltb_ℤ, ◌≤◌, ◌<◌, arith,
  Bool-cases, inl, inr,
}
use eebus_ha_bridge.Recovery.{RecoveryConfig, double, backoff_loop, backoff}

-- The number, doubled n times.
unfoldable pub doubled : ℕ → ℕ → ℕ
doubled zero b = b
doubled (suc n) b = 2 * doubled n b

abbrev pub capped : ℕ → ℕ → ℕ
capped max n = if leb n max then n else max

doubled_inner : (n b : ℕ) → doubled n (2 * b) ≡ 2 * doubled n b
unfolding doubled
doubled_inner zero b = refl
doubled_inner (suc n) b = omega (arith, doubled_inner n b)

doubled_le : (n b : ℕ) → b ≤ doubled n b
unfolding doubled
doubled_le zero b = omega arith
doubled_le (suc n) b = omega (arith, doubled_le n b)

double_small : (b : ℕ) → b < 2 ^ 62 → double (pos b) ≡ pos (2 * b)
unfolding double
double_small b h = ground arith

-- One round: the doubled time, where the maximum allows it.
next-capped :
    (max b : ℕ)
    → b < 2 ^ 62
    → (if ltb_ℤ (pos max) (double (pos b)) then pos max else double (pos b))
      ≡ pos (capped max (2 * b))
next-capped max b h = rw (double_small b h) (ground arith)

capped-doubled :
    (max n b : ℕ)
    → b ≤ max
    → capped max (doubled n (capped max (2 * b))) ≡ capped max (2 * doubled n b)
capped-doubled max n b h = ground (arith, doubled_inner n b, doubled_le n max, doubled_le n (2 * b))

loop-capped :
    (max n b : ℕ)
    → b ≤ max
    → max < 2 ^ 62
    → backoff_loop (pos max) n (pos b) ≡ pos (capped max (doubled n b))
unfolding backoff_loop doubled
loop-capped max zero b h w = ground arith
loop-capped max (suc n) b h w = elim (Bool-cases (ltb b max)) [
  | inl e ↦ rw (next-capped max b (omega (arith, h, w))) (
      ground (
        arith,
        e,
        loop-capped max n (capped max (2 * b)) (ground arith) w,
        capped-doubled max n b h,
      ))
  | inr e ↦ ground (arith, e, h, doubled_le n b)
]

-- With a base of `b` and a maximum of `max` nanoseconds, b at most max and max below 2^62, the
-- wait after an attempt is the base doubled once for each earlier attempt, and at most the maximum:
-- the int64 that is doubled in the loop never overflows.
pub backoff-doubled :
    (config : RecoveryConfig) (b max attempt : ℕ)
    → config.base_backoff ≡ pos b
    → config.max_backoff ≡ pos max
    → b ≤ max
    → max < 2 ^ 62
    → backoff config attempt ≡ pos (capped max (doubled (attempt - 1) b))
unfolding backoff
backoff-doubled config b max attempt e f h w = rw (e, f) (loop-capped max (attempt - 1) b h w)

-- ===== src/Grpc/Lpc/Seconds.antt =====
-- Seconds of a request as durations of int64.
use eebus_ha_bridge.Prelude.{
  ℕ, ◌*◌, ◌^◌, ◌%◌, ◌<◌, ◌≤◌, pos, negsuc, ◌≡◌, refl, sym, subst, ap, arith, dec_lt,
}
use eebus_ha_bridge.Time.{Duration}
use eebus_ha_bridge.Recovery.{int64_of}
use eebus_ha_bridge.Grpc.Lpc.{duration_of, seconds_of}

-- Below 9223372037 seconds the product in int64 does not wrap.
pub duration_of-exact : (n : ℕ) → n < 9_223_372_037 → duration_of (pos n) ≡ pos (n * 1_000_000_000)
unfolding duration_of
duration_of-exact n h = ground arith

-- A duration of `m` seconds: `m` thousand million nanoseconds where this is below 2^63, and from
-- 9223372037 seconds on the int64 that the product wraps to.
pub data IsSeconds (m : ℕ) : Duration → Type 0 where
  exact : m < 9_223_372_037 → IsSeconds m (pos (m * 1_000_000_000))
  wrapped : 9_223_372_037 ≤ m → IsSeconds m (int64_of ((m * 1_000_000_000) % 2 ^ 64))

duration_of-wrapped : (m : ℕ) → duration_of (pos m) ≡ int64_of ((m * 1_000_000_000) % 2 ^ 64)
unfolding duration_of
duration_of-wrapped m = ap int64_of (omega arith)

pub duration_of-IsSeconds : (m : ℕ) → IsSeconds m (duration_of (pos m))
duration_of-IsSeconds m = elim (dec_lt m 9_223_372_037) [
  | yes h ↦ subst (IsSeconds m) (sym (duration_of-exact m h)) (exact h)
  | no h ↦ subst (IsSeconds m) (sym (duration_of-wrapped m)) (wrapped (omega (arith, h)))
]

-- Below 9223372037 seconds, the duration that a limit is written with is read back as the seconds
-- of the request.
pub seconds_of-duration_of : (n : ℕ) → n < 9_223_372_037 → seconds_of (duration_of (pos n)) ≡ pos n
unfolding seconds_of
seconds_of-duration_of n h = rw (duration_of-exact n h) (ap pos (omega arith))

-- A number of seconds that passes the check and makes a negative duration.
overflow_of_seconds : duration_of (pos 9_223_372_037) ≡ negsuc 9_223_372_036_709_551_615
unfolding duration_of
overflow_of_seconds = refl

-- ===== src/Time.antt =====
-- time.Time and time.Duration, as far as the bridge uses them. A time is the number of nanoseconds
-- since Go's zero time, a duration a number of nanoseconds; both are signed.
use eebus_ha_bridge.Prelude.{ℕ, Bool, false, ℤ, pos, negsuc, ltb_ℤ, ◌+ℤ◌, ◌-ℤ◌, ◌==◌, if◌then◌else◌}

abbrev pub Time : Type 0
Time = ℤ

abbrev pub Duration : Type 0
Duration = ℤ

abbrev pub zero_time : Time
zero_time = pos 0

abbrev pub is_zero : Time → Bool
is_zero (pos n) = n == 0
is_zero (negsuc _) = false

abbrev pub before : Time → Time → Bool
before t u = ltb_ℤ t u

abbrev pub after : Time → Time → Bool
after t u = ltb_ℤ u t

-- The largest int64.
abbrev pub max_duration : ℕ
max_duration = 9_223_372_036_854_775_807

-- Sub returns the nearest duration where the difference does not fit an int64.
abbrev pub saturate : ℤ → Duration
saturate d =
    if ltb_ℤ (pos max_duration) d
    then pos max_duration
    else if ltb_ℤ d (negsuc max_duration)
    then negsuc max_duration
    else d

unfoldable pub sub : Time → Time → Duration
sub t u = saturate (t -ℤ u)

-- A time far from the ends of Go's range, so that the sum fits.
unfoldable pub add : Time → Duration → Time
add t d = t +ℤ d

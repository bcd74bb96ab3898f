-- ===== src/Config/Ports.antt =====
-- Ports in the environment: parseEnvPort of eebus-bridge/internal/config/config.go reads back the
-- decimal text of a port.
use eebus_ha_bridge.Prelude.{
  ℕ, zero, suc, ◌+◌, ◌-◌, ◌*◌, ◌/◌, ◌%◌, ◌^◌, ◌≤◌, ◌<◌, pos, true, some, [], ◌∷◌, ◌++◌, ◌≡◌, ◌≢◌,
  refl, arith, ok, ltb, if_split,
}
use eebus_ha_bridge.Ski.{Text}
use eebus_ha_bridge.Registry.Catalog.{decimal, decimal_digits}
use eebus_ha_bridge.Config.Numbers.{is_digit, digits, unsigned, in_range, atoi}
use eebus_ha_bridge.Config.{EnvKey, parse_env_port, validate_port}

digits-snoc :
    (acc : ℕ) (s : Text) (c m : ℕ)
    → digits acc s ≡ some m
    → is_digit c ≡ true
    → digits acc (s ++ c ∷ []) ≡ some (m * 10 + (c - b'0'))
unfolding digits
digits-snoc acc [] c m h d = ground arith
digits-snoc acc (b ∷ s) c m h d = ground (arith, digits-snoc (acc * 10 + (b - b'0')) s c m)

is_digit_of : (n : ℕ) → n < 10 → is_digit (n + b'0') ≡ true
unfolding is_digit
is_digit_of n h = ground arith

digits-decimal_digits : (fuel n : ℕ) → n < fuel → digits 0 (decimal_digits fuel n) ≡ some n
unfolding decimal_digits digits
digits-decimal_digits zero n h = absurd (omega arith)
digits-decimal_digits (suc fuel) n h =
    if_split (λ s. digits 0 s ≡ some n) (ltb n 10) (λ small. ground (arith, is_digit_of n))
      (λ large. ground (
        arith,
        is_digit_of (n % 10),
        digits-snoc 0 (decimal_digits fuel (n / 10)) (n % 10 + b'0') (n / 10),
        digits-decimal_digits fuel (n / 10),
      ))

digits-decimal : (n : ℕ) → digits 0 (decimal n) ≡ some n
unfolding decimal
digits-decimal n = digits-decimal_digits (suc n) n (omega arith)

append-nonempty : (s : Text) (c : ℕ) → s ++ c ∷ [] ≢ []
append-nonempty [] c e = cc
append-nonempty (b ∷ s) c e = cc

decimal-nonempty : (n : ℕ) → decimal n ≢ []
unfolding decimal decimal_digits
decimal-nonempty n = if_split (λ s. s ≢ []) (ltb n 10) (λ _ e. cc) (λ _. append-nonempty _ _)

atoi_of_digits :
    (s : Text) (n : ℕ) → s ≢ [] → digits 0 s ≡ some n → n < 2 ^ 63 → atoi s ≡ some (pos n)
unfolding atoi unsigned in_range digits is_digit
atoi_of_digits [] n e h l = absurd (e refl)
atoi_of_digits (c ∷ s) n e h l = ground arith

-- The decimal text of a port from 1 to 65535 in a variable of the environment is read back as that
-- port.
pub parse_env_port-decimal :
    (key : EnvKey) (n : ℕ) → 1 ≤ n → n ≤ 65535 → parse_env_port key (decimal n) ≡ ok (pos n)
unfolding parse_env_port validate_port
parse_env_port-decimal key n a b =
    rw
      (
        atoi_of_digits (decimal n) n (decimal-nonempty n) (digits-decimal n) (omega arith),
        parse_env_port,
      )
      ground arith

-- ===== src/Config/Numbers.antt =====
-- What the configuration uses of Go's strconv: Atoi and ParseBool.
use eebus_ha_bridge.Prelude.{
  ℕ, ◌+◌, ◌-◌, ◌*◌, ◌^◌, ℤ, pos, sub_ℕ, Bool, true, false, ◌&&◌, ◌||◌, ◌==◌, Option, none, some,
  List, [], ◌∷◌, if◌then◌else◌, leb,
}
use eebus_ha_bridge.Ski.{Text, codes, eq_text}

unfoldable pub is_digit : ℕ → Bool
is_digit c = leb b'0' c && leb c b'9'

-- The number that a text of decimal digits writes, read from the left onto `acc`.
unfoldable pub digits : ℕ → Text → Option ℕ
digits acc [] = some acc
digits acc (c ∷ s) =
    let rest = digits (acc * 10 + (c - b'0')) s in if is_digit c then rest else none

unfoldable pub unsigned : Text → Option ℕ
unsigned [] = none
unsigned (c ∷ s) = digits 0 (c ∷ s)

-- The 64-bit range of int: `limit` is 2^63 - 1 above zero and 2^63 below.
unfoldable pub in_range : ℕ → (ℕ → ℤ) → Option ℕ → Option ℤ
in_range limit sign none = none
in_range limit sign (some n) = if leb n limit then some (sign n) else none

-- strconv.Atoi
unfoldable pub atoi : Text → Option ℤ
atoi [] = none
atoi (c ∷ s) =
    if c == b'-'
    then in_range (2 ^ 63) (sub_ℕ 0) (unsigned s)
    else if c == b'+'
    then in_range (2 ^ 63 - 1) pos (unsigned s)
    else in_range (2 ^ 63 - 1) pos (unsigned (c ∷ s))

unfoldable pub one_of : Text → List Text → Bool
one_of s [] = false
one_of s (t ∷ l) = eq_text s t || one_of s l

-- strconv.ParseBool
unfoldable pub parse_bool : Text → Option Bool
parse_bool s =
    if one_of s
      (codes "1" ∷ codes "t" ∷ codes "T" ∷ codes "true" ∷ codes "TRUE" ∷ codes "True" ∷ [])
    then some true
    else if one_of s
        (codes "0" ∷ codes "f" ∷ codes "F" ∷ codes "false" ∷ codes "FALSE" ∷ codes "False" ∷ [])
    then some false
    else none

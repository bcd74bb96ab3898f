-- ===== src/Config/Address.antt =====
-- isLoopbackBind of config.go, with what it uses of Go's net: ParseIP and IP.IsLoopback.
-- `x ∷ y` below are the characters of an address, from the left.
use eebus_ha_bridge.Prelude.{
  ℕ, zero, suc, ◌+◌, ◌-◌, ◌*◌, ◌/◌, ◌%◌, Bool, true, false, not, ◌&&◌, ◌||◌, ◌==◌, Option, none,
  some, List, [], ◌∷◌, ◌++◌, if◌then◌else◌, leb, ltb, map, length,
}
use eebus_ha_bridge.Ski.{Text, codes, eq_text, is_empty, is_hex, to_upper}
use eebus_ha_bridge.Store.{is_some}
use eebus_ha_bridge.Config.Numbers.{is_digit}

-- The text up to the first `c`, and what follows that `c`.
unfoldable pub cut : ℕ → Text → Text × Option Text
cut c [] = ([], none)
cut c (d ∷ s) =
    let (before, after) = cut c s in if d == c then ([], some s) else (d ∷ before, after)

unfoldable pub all_digits : Text → Bool
all_digits [] = true
all_digits (c ∷ s) = is_digit c && all_digits s

unfoldable pub value_of : ℕ → (ℕ → ℕ) → ℕ → Text → ℕ
value_of base digit acc [] = acc
value_of base digit acc (c ∷ s) = value_of base digit (acc * base + digit c) s

-- One of the four numbers of an IPv4 address: no sign, no leading zero, at most 255.
unfoldable pub octet : Text → Option ℕ
octet [] = none
octet (c ∷ s) =
    let n = value_of 10 (λ d. d - b'0') 0 (c ∷ s) in
    if not (all_digits (c ∷ s)) || (c == b'0' && not (is_empty s)) || ltb 255 n
    then none
    else some n

-- The numbers of an IPv4 address of `n` fields.
unfoldable pub octets : ℕ → Text → Option (List ℕ)
octets zero s = none
octets (suc zero) s = elim (octet s) [ none ↦ none | some n ↦ some (n ∷ []) ]
octets (suc (suc n)) s =
    let (field, after) = cut b'.' s in
    elim after [
      | none ↦ none
      | some rest ↦
          let more = octets (suc n) rest in
          elim (octet field) [
            | none ↦ none
            | some b ↦ elim more [ none ↦ none | some l ↦ some (b ∷ l) ]
          ]
    ]

unfoldable pub hex_digit : ℕ → ℕ
hex_digit c = if is_digit c then c - b'0' else to_upper c - b'A' + 10

unfoldable pub hex_prefix : Text → Text × Text
hex_prefix [] = ([], [])
hex_prefix (c ∷ s) =
    let (before, after) = hex_prefix s in if is_hex c then (c ∷ before, after) else ([], c ∷ s)

-- The bytes of an IPv6 address so far, and the place of its `::`.
unfoldable pub expand : List ℕ → Option ℕ → Option (List ℕ)
expand bytes none = if length bytes == 16 then some bytes else none
expand bytes (some at) =
    if leb 16 (length bytes) then none else some (fill at (16 - length bytes) bytes)
  where
    zeros : ℕ → List ℕ → List ℕ
    zeros zero l = l
    zeros (suc n) l = 0 ∷ zeros n l

    fill : ℕ → ℕ → List ℕ → List ℕ
    fill zero n l = zeros n l
    fill (suc k) n [] = zeros n []
    fill (suc k) n (b ∷ l) = b ∷ fill k n l

-- The loop of parseIPv6 on at most `n` groups that are left, two bytes each.
unfoldable pub groups : ℕ → Text → List ℕ → Option ℕ → Option (List ℕ)
groups zero s bytes at = if is_empty s then expand bytes at else none
groups (suc n) s bytes at =
    let (group, rest) = hex_prefix s in
    let value = value_of 16 hex_digit 0 group in
    let bytes' = bytes ++ (value / 256) ∷ (value % 256) ∷ [] in
    if is_empty group || ltb 4 (length group) then none else elim rest [
      | [] ↦ expand bytes' at
      | c ∷ more ↦ if c == b'.' then embedded else if not (c == b':') then none else elim more [
        | [] ↦ none
        | d ∷ more' ↦
            let here = groups n more' bytes' (some (length bytes')) in
            let next = groups n (d ∷ more') bytes' at in
            if d == b':'
            then (elim at [
              | some _ ↦ none
              | none ↦ if is_empty more' then expand bytes' (some (length bytes')) else here
            ])
            else next
      ]
    ]
  where
    -- An IPv4 address that ends an IPv6 address.
    embedded : Option (List ℕ)
    embedded =
        if (not (is_some at) && not (length bytes == 12)) || ltb 12 (length bytes)
        then none
        else elim (octets 4 s) [ none ↦ none | some l ↦ expand (bytes ++ l) at ]

-- The first twelve bytes of an IPv4 address that is written as an IPv6 address.
abbrev pub v4_in_v6_prefix : List ℕ
v4_in_v6_prefix = 0 ∷ 0 ∷ 0 ∷ 0 ∷ 0 ∷ 0 ∷ 0 ∷ 0 ∷ 0 ∷ 0 ∷ 255 ∷ 255 ∷ []

abbrev pub ipv6_loopback : List ℕ
ipv6_loopback = 0 ∷ 0 ∷ 0 ∷ 0 ∷ 0 ∷ 0 ∷ 0 ∷ 0 ∷ 0 ∷ 0 ∷ 0 ∷ 0 ∷ 0 ∷ 0 ∷ 0 ∷ 1 ∷ []

-- What follows `prefix`, where the bytes start with it.
unfoldable pub after_prefix : List ℕ → List ℕ → Option (List ℕ)
after_prefix [] bytes = some bytes
after_prefix (a ∷ l) [] = none
after_prefix (a ∷ l) (b ∷ bytes) = let rest = after_prefix l bytes in if a == b then rest else none

-- net.ParseIP: sixteen bytes. The first of `.` and `:` in a text decides which kind of address it
-- is; an address with a zone is none.
unfoldable pub parse_ip : Text → Option (List ℕ)
parse_ip s = kind s
  where
    v4 : Option (List ℕ) → Option (List ℕ)
    v4 none = none
    v4 (some l) = some (v4_in_v6_prefix ++ l)

    v6 : Text → Option (List ℕ)
    v6 [] = none
    v6 (c ∷ []) = groups 8 (c ∷ []) [] none
    v6 (c ∷ d ∷ t) =
        if c == b':' && d == b':'
        then if is_empty t then expand [] (some 0) else groups 8 t [] (some 0)
        else groups 8 (c ∷ d ∷ t) [] none

    kind : Text → Option (List ℕ)
    kind [] = none
    kind (c ∷ t) =
        let later = kind t in
        if c == b'.'
        then v4 (octets 4 s)
        else if c == b':'
        then v6 s
        else if c == b'%'
        then none
        else later

-- IP.IsLoopback
unfoldable pub is_loopback : List ℕ → Bool
is_loopback ip = elim (after_prefix v4_in_v6_prefix ip) [
  | none ↦ eq_text ip ipv6_loopback
  | some [] ↦ false
  | some (a ∷ _) ↦ a == 127
]

-- strings.EqualFold, on ASCII
unfoldable pub equal_fold : Text → Text → Bool
equal_fold a b = eq_text (map to_upper a) (map to_upper b)

unfoldable pub is_loopback_bind : Text → Bool
is_loopback_bind bind =
    if equal_fold bind (codes "localhost")
    then true
    else elim (parse_ip bind) [ none ↦ false | some ip ↦ is_loopback ip ]

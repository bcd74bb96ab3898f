-- ===== src/Ski.antt =====
-- Subject key identifiers: NormalizeSKI and ShortSKI of
-- eebus-bridge/internal/eebus/registry.go, isCanonicalSKI of eebus-bridge/internal/config/config.go
-- and validSKI of eebus-bridge/internal/grpc/validate.go. A text is the list of its characters,
-- and texts are ASCII: Go maps further letters and spaces, which no SKI has.
pub mod Laws
pub mod Tests
use Prim.Native.Char.{code}
use Prim.Native.String.{String}
use eebus_ha_bridge.Prelude.{
  ℕ, zero, suc, ◌-◌, ◌≡◌, refl, List, [], ◌∷◌, ◌++◌, map, Bool, true, false, ◌&&◌, ◌||◌, not, arith,
  ltb, leb, ◌==◌, if◌then◌else◌, length, ℕ_discrete,
}
use eebus_ha_bridge.Store.{Key}

abbrev pub Text : Type 0
Text = List ℕ

unfoldable pub Text-discrete : Discrete Text
Text-discrete [] [] = yes refl
Text-discrete [] (y ∷ b) = no (λ e. cc)
Text-discrete (x ∷ a) [] = no (λ e. cc)
Text-discrete (x ∷ a) (y ∷ b) =
    let rest = Text-discrete a b in
    elim (ℕ_discrete x y) [
      | no n ↦ no (λ e. n (cc))
      | yes p ↦ elim rest [ no n ↦ no (λ e. n (cc)) | yes q ↦ yes (cc) ]
    ]

instance abbrev pub text_key : Key Text
text_key = record { same = Text-discrete }

instance abbrev pub nat_key : Key ℕ
nat_key = record { same = ℕ_discrete }

-- The characters of a literal.
abbrev pub codes : String → Text
codes String.[] = []
codes (String.◌∷◌ c s) = code c ∷ codes s

-- `a == b`
unfoldable pub eq_text : Text → Text → Bool
eq_text a b = elim (Text-discrete a b) [ yes _ ↦ true | no _ ↦ false ]

-- unicode.IsSpace, on ASCII: tab, newline, vertical tab, form feed, carriage return, space.
unfoldable pub is_space : ℕ → Bool
is_space c = (leb 9 c && leb c 13) || c == 32

-- The characters that the replacer of NormalizeSKI removes.
unfoldable pub is_separator : ℕ → Bool
is_separator c = c == b' ' || c == 9 || c == 10 || c == 13 || c == b':' || c == b'-'

-- unicode.ToUpper, on ASCII.
unfoldable pub to_upper : ℕ → ℕ
to_upper c = if leb b'a' c && leb c b'z' then c - 32 else c

unfoldable pub trim_left : Text → Text
trim_left [] = []
trim_left (c ∷ s) = if is_space c then trim_left s else c ∷ s

abbrev pub is_empty {ℓ} : {A : Type ℓ} → List A → Bool
is_empty [] = true
is_empty (_ ∷ _) = false

unfoldable pub trim_right : Text → Text
trim_right [] = []
trim_right (c ∷ s) = let rest = trim_right s in if is_space c && is_empty rest then [] else c ∷ rest

-- strings.TrimSpace
unfoldable pub trim_space : Text → Text
trim_space s = trim_right (trim_left s)

-- strings.NewReplacer(" ", "", "\t", "", "\n", "", "\r", "", ":", "", "-", "").Replace
unfoldable pub remove_separators : Text → Text
remove_separators [] = []
remove_separators (c ∷ s) = if is_separator c then remove_separators s else c ∷ remove_separators s

unfoldable pub normalize_ski : Text → Text
normalize_ski ski = map to_upper (remove_separators (trim_space ski))

-- The last n characters of a text, `s[len(s)-n:]`, for a text that is at least as long.
unfoldable pub drop : ℕ → Text → Text
drop zero s = s
drop (suc n) [] = []
drop (suc n) (_ ∷ s) = drop n s

-- U+2026, the mark that ShortSKI puts before what it keeps.
abbrev pub ellipsis : ℕ
ellipsis = 0x2026

unfoldable pub short_ski : Text → Text
short_ski ski = shorten (normalize_ski ski)
  where
    shorten : Text → Text
    shorten s = if leb (length s) 6 then ellipsis ∷ s else ellipsis ∷ drop (length s - 6) s

unfoldable pub is_hex : ℕ → Bool
is_hex c = (leb b'0' c && leb c b'9') || (leb b'a' c && leb c b'f') || (leb b'A' c && leb c b'F')

unfoldable pub all_hex : Text → Bool
all_hex [] = true
all_hex (c ∷ s) = is_hex c && all_hex s

-- validSKI of validate.go
unfoldable pub valid_ski : Text → Bool
valid_ski ski = if not (length ski == 40) then false else all_hex ski

-- The test of one character in isCanonicalSKI.
unfoldable pub is_not_hex : ℕ → Bool
is_not_hex c =
    (ltb c b'0' || ltb b'9' c) && (ltb c b'a' || ltb b'f' c) && (ltb c b'A' || ltb b'F' c)

unfoldable pub no_bad_character : Text → Bool
no_bad_character [] = true
no_bad_character (c ∷ s) = if is_not_hex c then false else no_bad_character s

unfoldable pub is_canonical_ski : Text → Bool
is_canonical_ski value = if not (length value == 40) then false else no_bad_character value

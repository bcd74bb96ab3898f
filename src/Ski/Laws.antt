-- ===== src/Ski/Laws.antt =====
-- What normalize_ski and the tests of a SKI promise to their callers.
use eebus_ha_bridge.Prelude.{ℕ, ◌≡◌, ◌≢◌, refl, [], ◌∷◌, map, true, false, All, arith, length, not}
use eebus_ha_bridge.Ski.{
  Text, is_space, is_separator, to_upper, is_empty, trim_left, trim_right, trim_space,
  remove_separators, normalize_ski, is_hex, all_hex, valid_ski, is_not_hex, no_bad_character,
  is_canonical_ski,
}

-- Neither a vertical tab nor a form feed.
abbrev pub IsPlain : Text → Type 0
IsPlain = All (λ c. (c ≢ 11) × (c ≢ 12))

-- What normalize_ski leaves: neither a separator nor a lower-case letter.
abbrev pub IsCanonical : Text → Type 0
IsCanonical = All (λ c. (is_separator c ≡ false) × (to_upper c ≡ c))

trim_left-IsPlain : (s : Text) → IsPlain s → IsPlain (trim_left s)
unfolding trim_left
trim_left-IsPlain [] h = h
trim_left-IsPlain (c ∷ s) h = ground (arith, trim_left-IsPlain s h.1)

space-is_separator : (c : ℕ) → c ≢ 11 → c ≢ 12 → is_space c ≡ true → is_separator c ≡ true
unfolding is_space is_separator
space-is_separator c v f h = ground arith

remove-trim_left : (s : Text) → IsPlain s → remove_separators (trim_left s) ≡ remove_separators s
unfolding trim_left remove_separators
remove-trim_left [] h = refl
remove-trim_left (c ∷ s) h =
    ground (arith, remove-trim_left s h.1, space-is_separator c h.0.0 h.0.1)

remove_of_is_empty : (s : Text) → is_empty s ≡ true → remove_separators s ≡ []
unfolding remove_separators
remove_of_is_empty [] h = refl
remove_of_is_empty (c ∷ s) h = cc

remove-trim_right : (s : Text) → IsPlain s → remove_separators (trim_right s) ≡ remove_separators s
unfolding trim_right remove_separators
remove-trim_right [] h = refl
remove-trim_right (c ∷ s) h = ground (
  arith,
  remove-trim_right s h.1,
  space-is_separator c h.0.0 h.0.1,
  remove_of_is_empty (trim_right s),
)

-- On a plain text the trimming removes nothing that the replacer would keep.
normalize_ski_of_IsPlain :
    (s : Text) → IsPlain s → normalize_ski s ≡ map to_upper (remove_separators s)
unfolding normalize_ski trim_space
normalize_ski_of_IsPlain s h =
    cc (remove-trim_right (trim_left s) (trim_left-IsPlain s h), remove-trim_left s h)

upper_IsCanonical :
    (c : ℕ)
    → is_separator c ≡ false
    → (is_separator (to_upper c) ≡ false) × (to_upper (to_upper c) ≡ to_upper c)
unfolding is_separator to_upper
upper_IsCanonical c h = ground arith

map-IsCanonical : (s : Text) → IsCanonical (map to_upper (remove_separators s))
unfolding remove_separators
map-IsCanonical [] = tt
map-IsCanonical (c ∷ s) = ground (arith, map-IsCanonical s, upper_IsCanonical c)

remove_of_IsCanonical : (s : Text) → IsCanonical s → remove_separators s ≡ s
unfolding remove_separators
remove_of_IsCanonical [] h = refl
remove_of_IsCanonical (c ∷ s) h = ground (arith, remove_of_IsCanonical s h.1)

upper_of_IsCanonical : (s : Text) → IsCanonical s → map to_upper s ≡ s
upper_of_IsCanonical [] h = refl
upper_of_IsCanonical (c ∷ s) h = cc (h.0.1, upper_of_IsCanonical s h.1)

remove-IsPlain : (s : Text) → IsPlain s → IsPlain (map to_upper (remove_separators s))
unfolding remove_separators to_upper
remove-IsPlain [] h = tt
remove-IsPlain (c ∷ s) h = ground (arith, remove-IsPlain s h.1)

-- The key that normalize_ski returns has neither a separator nor a lower-case letter, whatever
-- the text.
normalize_ski-IsCanonical : (s : Text) → IsCanonical (normalize_ski s)
unfolding normalize_ski
normalize_ski-IsCanonical s = map-IsCanonical (trim_space s)

-- On a plain text normalizing again changes nothing.
pub normalize_ski_idem : (s : Text) → IsPlain s → normalize_ski (normalize_ski s) ≡ normalize_ski s
normalize_ski_idem s h =
    let again =
      normalize_ski_of_IsPlain (normalize_ski s)
        (rw (normalize_ski_of_IsPlain s h) (remove-IsPlain s h)) in
    let clean = normalize_ski-IsCanonical s in
    cc (
      again,
      remove_of_IsCanonical (normalize_ski s) clean,
      upper_of_IsCanonical (normalize_ski s) clean,
    )

-- Of a text that starts with a colon, a vertical tab and a character that is neither space nor
-- separator, the key of the key is another than the key: the colon hides the tab from the trimming,
-- and the tab then leads the key, where a second normalization trims it.
pub normalize_ski-ne_hidden_tab :
    (c : ℕ) (s : Text)
    → is_space c ≡ false
    → is_separator c ≡ false
    → normalize_ski (normalize_ski (b':' ∷ 11 ∷ c ∷ s)) ≢ normalize_ski (b':' ∷ 11 ∷ c ∷ s)
unfolding normalize_ski trim_space trim_left trim_right remove_separators is_space is_separator
    to_upper
normalize_ski-ne_hidden_tab c s p q = ground arith

is_not_hex-not : (c : ℕ) → is_not_hex c ≡ not (is_hex c)
unfolding is_not_hex is_hex
is_not_hex-not c = ground arith

no_bad_character-all_hex : (s : Text) → no_bad_character s ≡ all_hex s
unfolding no_bad_character all_hex
no_bad_character-all_hex [] = refl
no_bad_character-all_hex (c ∷ s) = ground (arith, no_bad_character-all_hex s, is_not_hex-not c)

-- The tests of isCanonicalSKI and validSKI agree on a text as it is, where nothing normalizes it.
pub is_canonical_ski-valid_ski : (s : Text) → is_canonical_ski s ≡ valid_ski s
unfolding is_canonical_ski valid_ski
is_canonical_ski-valid_ski s = ground (arith, no_bad_character-all_hex s)

hex-keeps :
    (c : ℕ)
    → is_hex c ≡ true
    → (is_separator c ≡ false) × (is_hex (to_upper c) ≡ true) × (c ≢ 11) × (c ≢ 12)
unfolding is_hex is_separator to_upper
hex-keeps c h = ground arith

all_hex-keeps :
    (s : Text)
    → all_hex s ≡ true
    → (remove_separators s ≡ s)
      × IsPlain s
      × (all_hex (map to_upper s) ≡ true)
      × (length (map to_upper s) ≡ length s)
unfolding remove_separators all_hex
all_hex-keeps [] h = (refl, tt, refl, refl)
all_hex-keeps (c ∷ s) h = ground (arith, all_hex-keeps s, hex-keeps c)

-- A well-formed SKI is only put in upper case, and the key is well-formed again.
pub normalize_ski_of_valid_ski :
    (s : Text)
    → valid_ski s ≡ true
    → (normalize_ski s ≡ map to_upper s) × (valid_ski (normalize_ski s) ≡ true)
unfolding valid_ski
normalize_ski_of_valid_ski s h = ground (arith, all_hex-keeps s, normalize_ski_of_IsPlain s)

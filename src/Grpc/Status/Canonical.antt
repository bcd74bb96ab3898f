-- ===== src/Grpc/Status/Canonical.antt =====
-- The SKI that the configuration accepts and the key that the RPC boundary makes of one:
-- isCanonicalSKI of eebus-bridge/internal/config/config.go and requireExplicitSKI of
-- eebus-bridge/internal/grpc/adapter_helpers.go.
use eebus_ha_bridge.Prelude.{
  ℕ, ◌≡◌, refl, sym, ◌∙◌, ◌↔◌, [], ◌∷◌, true, false, map, arith, length, ok,
}
use eebus_ha_bridge.Ski.{
  Text, to_upper, is_empty, is_hex, all_hex, normalize_ski, valid_ski, is_canonical_ski,
}
use eebus_ha_bridge.Ski.Laws.{is_canonical_ski-valid_ski, normalize_ski_of_valid_ski}
use eebus_ha_bridge.Grpc.Status.{require_explicit_ski}

hex_of_upper : (c : ℕ) → is_hex (to_upper c) ≡ true → is_hex c ≡ true
unfolding is_hex to_upper
hex_of_upper c h = ground arith

all_hex_of_upper : (s : Text) → all_hex (map to_upper s) ≡ true → all_hex s ≡ true
unfolding all_hex
all_hex_of_upper [] h = refl
all_hex_of_upper (c ∷ s) h = ground (arith, all_hex_of_upper s, hex_of_upper c)

length-upper : (s : Text) → length (map to_upper s) ≡ length s
length-upper [] = refl
length-upper (c ∷ s) = ground (arith, length-upper s)

-- The upper case of no other text is well-formed.
valid_ski_of_upper : (s : Text) → valid_ski (map to_upper s) ≡ true → valid_ski s ≡ true
unfolding valid_ski
valid_ski_of_upper s h = ground (arith, length-upper s, all_hex_of_upper s)

valid_ski-is_empty : (s : Text) → valid_ski s ≡ true → is_empty s ≡ false
unfolding valid_ski
valid_ski-is_empty [] h = cc
valid_ski-is_empty (c ∷ s) h = refl

require_explicit_ski-valid_ski :
    (s k : Text) → require_explicit_ski s ≡ ok k → (normalize_ski s ≡ k) × (valid_ski k ≡ true)
unfolding require_explicit_ski
require_explicit_ski-valid_ski s k h = ground arith

-- isCanonicalSKI, the configuration's test of a trusted SKI that is not empty, holds of exactly the
-- texts that requireExplicitSKI accepts with their own upper case as the key. Every other text
-- requireExplicitSKI refuses, or it makes another key of it.
pub require_explicit_ski-is_canonical_ski :
    (s : Text) → (is_canonical_ski s ≡ true) ↔ (require_explicit_ski s ≡ ok (map to_upper s))
unfolding require_explicit_ski
require_explicit_ski-is_canonical_ski s = (
  (λ h.
      let v : valid_ski s ≡ true = sym (is_canonical_ski-valid_ski s) ∙ h in
      let (n, v') = normalize_ski_of_valid_ski s v in
      rw (valid_ski-is_empty (normalize_ski s) v', v', n) refl),
  λ h.
      is_canonical_ski-valid_ski s
      ∙ valid_ski_of_upper s (require_explicit_ski-valid_ski s (map to_upper s) h).1,
)

-- ===== src/Ski/Tests.antt =====
-- Runs on single texts.
use eebus_ha_bridge.Prelude.{false, ◌≢◌, refl, ◌≡◌, [], ◌∷◌, arith}
use eebus_ha_bridge.Ski.{Text, is_space, is_separator, normalize_ski}
use eebus_ha_bridge.Ski.Laws.{IsPlain, normalize_ski_idem, normalize_ski-ne_hidden_tab}

-- " a:1-f"
abbrev written : Text
written = b' ' ∷ b'a' ∷ b':' ∷ b'1' ∷ b'-' ∷ b'f' ∷ []

written-IsPlain : IsPlain written
written-IsPlain = ground arith

normalize_ski_idem_example : normalize_ski (normalize_ski written) ≡ normalize_ski written
normalize_ski_idem_example = normalize_ski_idem written written-IsPlain

letter-is_space : is_space b'A' ≡ false
unfolding is_space
letter-is_space = refl

letter-is_separator : is_separator b'A' ≡ false
unfolding is_separator
letter-is_separator = refl

normalize_ski-ne_hidden_tab_example :
    normalize_ski (normalize_ski (b':' ∷ 11 ∷ b'A' ∷ [])) ≢ normalize_ski (b':' ∷ 11 ∷ b'A' ∷ [])
normalize_ski-ne_hidden_tab_example =
    normalize_ski-ne_hidden_tab b'A' [] letter-is_space letter-is_separator

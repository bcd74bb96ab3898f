-- ===== src/Texts.antt =====
-- Order on texts, as Go compares strings, and the sorts that the bridge makes by it. sort.Strings
-- and sort.Slice on distinct keys have one result, which an insertion sort computes too.
pub mod Laws
use eebus_ha_bridge.Prelude.{ℕ, List, [], ◌∷◌, Bool, true, false, if◌then◌else◌, ltb}
use eebus_ha_bridge.Ski.{Text}

-- a ≤ b
unfoldable pub le_text : Text → Text → Bool
le_text [] b = true
le_text (x ∷ a) [] = false
le_text (x ∷ a) (y ∷ b) =
    let rest = le_text a b in if ltb x y then true else if ltb y x then false else rest

module _ {A : Type 0} (key : A → Text) where
  unfoldable pub insert_sorted : A → List A → List A
  insert_sorted a [] = a ∷ []
  insert_sorted a (b ∷ l) =
      let rest = insert_sorted a l in if le_text (key a) (key b) then a ∷ b ∷ l else b ∷ rest

  unfoldable pub sort_by : List A → List A
  sort_by [] = []
  sort_by (a ∷ l) = insert_sorted a (sort_by l)

unfoldable pub sort_texts : List Text → List Text
sort_texts = sort_by (λ s. s)

-- ===== src/Texts/Laws.antt =====
-- A sort keeps the elements, and puts them in order.
use eebus_ha_bridge.Prelude.{
  ◌≡◌, refl, ◌⊎◌, ◌↔◌, inl, inr, List, [], ◌∷◌, true, false, arith, if_both, Any,
}
use eebus_ha_bridge.Ski.{Text}
use eebus_ha_bridge.Texts.{le_text, insert_sorted, sort_by}

pub le_text-total : (a b : Text) → le_text a b ≡ false → le_text b a ≡ true
unfolding le_text
le_text-total [] b h = cc
le_text-total (x ∷ a) [] h = refl
le_text-total (x ∷ a) (y ∷ b) h = ground (arith, le_text-total a b)

module _ {A : Type 0} (key : A → Text) where
  -- Each element is at most the next one.
  abbrev pub IsSorted : List A → Type 0
  IsSorted [] = Unit
  IsSorted (a ∷ []) = Unit
  IsSorted (a ∷ b ∷ l) = (le_text (key a) (key b) ≡ true) × IsSorted (b ∷ l)

  insert_sorted-IsSorted : (a : A) (l : List A) → IsSorted l → IsSorted (insert_sorted key a l)
  unfolding insert_sorted
  insert_sorted-IsSorted a [] h = tt
  insert_sorted-IsSorted a (b ∷ []) h = ground (arith, le_text-total (key a) (key b))
  insert_sorted-IsSorted a (b ∷ c ∷ l) h =
      ground (arith, le_text-total (key a) (key b), insert_sorted-IsSorted a (c ∷ l) h.1)

  pub sort_by-IsSorted : (l : List A) → IsSorted (sort_by key l)
  unfolding sort_by
  sort_by-IsSorted [] = tt
  sort_by-IsSorted (a ∷ l) = insert_sorted-IsSorted a (sort_by key l) (sort_by-IsSorted l)

  module _ (P : A → Type 0) where
    Any-insert_sorted : (a : A) (l : List A) → P a ⊎ Any P l → Any P (insert_sorted key a l)
    unfolding insert_sorted
    Any-insert_sorted a [] h = h
    Any-insert_sorted a (b ∷ l) (inl p) =
        if_both (Any P) (le_text (key a) (key b)) {x = a ∷ b ∷ l} {y = b ∷ insert_sorted key a l}
          (inl p) (inr (Any-insert_sorted a l (inl p)))
    Any-insert_sorted a (b ∷ l) (inr (inl q)) =
        if_both (Any P) (le_text (key a) (key b)) {x = a ∷ b ∷ l} {y = b ∷ insert_sorted key a l}
          (inr (inl q)) (inl q)
    Any-insert_sorted a (b ∷ l) (inr (inr q)) =
        if_both (Any P) (le_text (key a) (key b)) {x = a ∷ b ∷ l} {y = b ∷ insert_sorted key a l}
          (inr (inr q)) (inr (Any-insert_sorted a l (inr q)))

    Any-of_insert_sorted : (a : A) (l : List A) → Any P (insert_sorted key a l) → P a ⊎ Any P l
    unfolding insert_sorted
    Any-of_insert_sorted a [] h = h
    Any-of_insert_sorted a (b ∷ l) found =
        if_both (λ m. Any P m → P a ⊎ Any P (b ∷ l)) (le_text (key a) (key b)) {x = a ∷ b ∷ l}
          {y = b ∷ insert_sorted key a l} (λ h. h)
          (λ h. elim h [
            | inl q ↦ inr (inl q)
            | inr q ↦ elim (Any-of_insert_sorted a l q) [ inl p ↦ inl p | inr r ↦ inr (inr r) ]
          ])
          found

    to_sorted : (l : List A) → Any P l → Any P (sort_by key l)
    unfolding sort_by
    to_sorted [] h = h
    to_sorted (a ∷ l) (inl h) = Any-insert_sorted a (sort_by key l) (inl h)
    to_sorted (a ∷ l) (inr h) = Any-insert_sorted a (sort_by key l) (inr (to_sorted l h))

    of_sorted : (l : List A) → Any P (sort_by key l) → Any P l
    unfolding sort_by
    of_sorted [] h = h
    of_sorted (a ∷ l) h = elim (Any-of_insert_sorted a (sort_by key l) h) [
      | inl p ↦ inl p
      | inr q ↦ inr (of_sorted l q)
    ]

    -- The sorted list has the same elements.
    pub Any-sort_by : (l : List A) → Any P l ↔ Any P (sort_by key l)
    Any-sort_by l = (to_sorted l, of_sorted l)

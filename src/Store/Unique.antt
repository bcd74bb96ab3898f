-- ===== src/Store/Unique.antt =====
-- A store in which each key stands once: its entries are what lookup finds.
use eebus_ha_bridge.Prelude.{◌≡◌, refl, ite, [], ◌∷◌, none, some, arith, Any, inl, inr}
use eebus_ha_bridge.Store.{Key, Store, lookup, insert, delete}
use eebus_ha_bridge.Store.Laws.{lookup-insert, lookup-delete}

module _ {K V : Type 0} ⦃key : Key K⦄ where
  abbrev pub IsUnique : Store K V → Type 0
  IsUnique [] = Unit
  IsUnique ((k, v) ∷ m) = (lookup k m ≡ none) × IsUnique m

  pub insert-IsUnique : (k : K) (v : V) (m : Store K V) → IsUnique m → IsUnique (insert k v m)
  unfolding lookup insert
  insert-IsUnique k v [] u = (refl, tt)
  insert-IsUnique k v ((j, w) ∷ m) u =
      elim (key.same j k) as (λ d. IsUnique (ite d ((k, v) ∷ m) ((j, w) ∷ insert k v m))) [
        | yes p ↦ (ground arith, u.1)
        | no p ↦ (ground (arith, lookup-insert k j v m), insert-IsUnique k v m u.1)
      ]

  pub delete-IsUnique : (k : K) (m : Store K V) → IsUnique m → IsUnique (delete k m)
  unfolding lookup delete
  delete-IsUnique k [] u = tt
  delete-IsUnique k ((j, w) ∷ m) u =
      elim (key.same j k) as (λ d. IsUnique (ite d (delete k m) ((j, w) ∷ delete k m))) [
        | yes p ↦ delete-IsUnique k m u.1
        | no p ↦ (ground (arith, lookup-delete k j m), delete-IsUnique k m u.1)
      ]

  -- The entry of a key is in the store, and an entry of the store is that of its key.
  pub lookup-Any :
      (k : K) (v : V) (m : Store K V) → lookup k m ≡ some v → Any (λ e. (e.0 ≡ k) × (e.1 ≡ v)) m
  unfolding lookup
  lookup-Any k v [] h = cc
  lookup-Any k v ((j, w) ∷ m) h = elim (key.same j k) [
    | yes p ↦ inl (p, ground arith)
    | no p ↦ inr (lookup-Any k v m (ground arith))
  ]

  pub Any-lookup :
      (k : K) (v : V) (m : Store K V)
      → IsUnique m
      → Any (λ e. (e.0 ≡ k) × (e.1 ≡ v)) m
      → lookup k m ≡ some v
  unfolding lookup
  Any-lookup k v [] u h = absurd h
  Any-lookup k v ((j, w) ∷ m) u (inl h) = ground arith
  Any-lookup k v ((j, w) ∷ m) u (inr h) = ground (arith, Any-lookup k v m u.1 h)

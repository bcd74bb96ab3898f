-- ===== src/Store/Laws.antt =====
-- The laws of lookup, insert and delete, for every pair of keys.
use eebus_ha_bridge.Prelude.{◌≡◌, ◌≢◌, refl, ite, [], ◌∷◌, none, some, arith}
use eebus_ha_bridge.Store.{Key, Store, lookup, insert, delete}

module _ {ℓ} {K V : Type ℓ} ⦃key : Key K⦄ where
  pub lookup-insert :
      (k j : K) (v : V) (m : Store K V)
      → lookup j (insert k v m) ≡ ite (key.same k j) (some v) (lookup j m)
  unfolding lookup insert
  lookup-insert k j v [] = refl
  lookup-insert k j v ((i, w) ∷ m) = ground (arith, lookup-insert k j v m)

  pub lookup-insert_self : (k : K) (v : V) (m : Store K V) → lookup k (insert k v m) ≡ some v
  lookup-insert_self k v m = ground (arith, lookup-insert k k v m)

  pub lookup-insert_ne :
      (k j : K) (v : V) (m : Store K V) → k ≢ j → lookup j (insert k v m) ≡ lookup j m
  lookup-insert_ne k j v m h = ground (arith, lookup-insert k j v m)

  pub lookup-delete :
      (k j : K) (m : Store K V) → lookup j (delete k m) ≡ ite (key.same k j) none (lookup j m)
  unfolding lookup delete
  lookup-delete k j [] = ground arith
  lookup-delete k j ((i, w) ∷ m) = ground (arith, lookup-delete k j m)

  pub lookup-delete_self : (k : K) (m : Store K V) → lookup k (delete k m) ≡ none
  lookup-delete_self k m = ground (arith, lookup-delete k k m)

  pub lookup-delete_ne : (k j : K) (m : Store K V) → k ≢ j → lookup j (delete k m) ≡ lookup j m
  lookup-delete_ne k j m h = ground (arith, lookup-delete k j m)

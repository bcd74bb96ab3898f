-- ===== src/Store.antt =====
-- Go maps, as association lists in which a key is written at most once. A missing key reads as
-- `none`; where the source reads the zero value, the model says so at the call.
pub mod Laws
pub mod Unique
use eebus_ha_bridge.Prelude.{◌≡◌, ite, List, [], ◌∷◌, Option, none, some, Bool, true, false}

-- Keys that can be told apart.
pub record Key {ℓ} (K : Type ℓ) : Type ℓ where
  pub same : Discrete K

abbrev pub Store {ℓ} : Type ℓ → Type ℓ → Type ℓ
Store K V = List (K × V)

module _ {ℓ} {K V : Type ℓ} ⦃key : Key K⦄ where
  -- `m[k]`
  unfoldable pub lookup : K → Store K V → Option V
  lookup k [] = none
  lookup k ((j, v) ∷ m) = ite (key.same j k) (some v) (lookup k m)

  -- `m[k] = v`
  unfoldable pub insert : K → V → Store K V → Store K V
  insert k v [] = (k, v) ∷ []
  insert k v ((j, w) ∷ m) = ite (key.same j k) ((k, v) ∷ m) ((j, w) ∷ insert k v m)

  -- `delete(m, k)`
  unfoldable pub delete : K → Store K V → Store K V
  delete k [] = []
  delete k ((j, w) ∷ m) = ite (key.same j k) (delete k m) ((j, w) ∷ delete k m)

-- `_, ok := m[k]`
abbrev pub is_some {ℓ} : {A : Type ℓ} → Option A → Bool
is_some none = false
is_some (some _) = true

-- `m[k]` where the zero value stands for a missing key.
abbrev pub or_zero {ℓ} : {A : Type ℓ} → A → Option A → A
or_zero d none = d
or_zero d (some a) = a

-- ===== src/Registry/Catalog/Resolution.antt =====
-- The entity of a request that names no device.
use eebus_ha_bridge.Prelude.{
  ℕ, ◌+◌, ◌≡◌, refl, List, [], ◌∷◌, true, false, not, ◌&&◌, Option, none, arith, ◌↔◌, ◌<◌,
  if◌then◌else◌, ltb,
}
use eebus_ha_bridge.Store.{Store, is_some}
use eebus_ha_bridge.Ski.{Text, is_empty}
use eebus_ha_bridge.Registry.State.{DeviceInfo, Registry}
use eebus_ha_bridge.Registry.Catalog.{scan_entities, head?, first_available_entity, is_ambiguous}

-- The devices that have a remote entity.
abbrev pub with_entities : Store Text DeviceInfo → ℕ
with_entities [] = 0
with_entities ((_, info) ∷ m) =
    if is_empty info.remote_entities then with_entities m else with_entities m + 1

head_some : (l : List ℕ) → is_empty l ≡ false → is_some (head? l) ≡ true
head_some [] e = cc
head_some (x ∷ l) e = refl

scan-count :
    (m : Store Text DeviceInfo) (entity : Option ℕ) (n : ℕ)
    → (scan_entities m entity n).1 ≡ n + with_entities m
unfolding scan_entities
scan-count [] entity n = omega arith
scan-count ((k, info) ∷ m) entity n = ground (
  arith,
  scan-count m
      (if not (is_empty info.remote_entities) && not (is_some entity)
        then head? info.remote_entities
        else entity)
      (if not (is_empty info.remote_entities) then n + 1 else n),
)

-- An entity is found with the first device that has one, and is kept.
scan-is_some :
    (m : Store Text DeviceInfo) (entity : Option ℕ) (n : ℕ)
    → is_some entity ≡ ltb 0 n
    → is_some (scan_entities m entity n).0 ≡ ltb 0 (scan_entities m entity n).1
unfolding scan_entities
scan-is_some [] entity n h = h
scan-is_some ((k, info) ∷ m) entity n h =
    scan-is_some m
      (if not (is_empty info.remote_entities) && not (is_some entity)
        then head? info.remote_entities
        else entity)
      (if not (is_empty info.remote_entities) then n + 1 else n)
      (ground (arith, h, head_some info.remote_entities))

-- FirstAvailableEntity returns an entity exactly when one device alone has entities, counts the
-- devices that have some, and is ambiguous exactly when there are several.
pub first_available_entity-with_entities :
    (r : Registry)
    → ((first_available_entity r).device_count ≡ with_entities r.devices)
      × ((is_some (first_available_entity r).entity ≡ true) ↔ (with_entities r.devices ≡ 1))
      × ((is_ambiguous (first_available_entity r) ≡ true) ↔ (1 < with_entities r.devices))
unfolding first_available_entity is_ambiguous
first_available_entity-with_entities r =
    let count = scan-count r.devices none 0 in
    let found = scan-is_some r.devices none 0 refl in
    (
      ground (arith, count),
      ((λ h. ground (arith, count, found, h)), (λ h. ground (arith, count, found, h))),
      ((λ h. ground (arith, count, found, h)), (λ h. ground (arith, count, found, h))),
    )

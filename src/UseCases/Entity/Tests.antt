-- ===== src/UseCases/Entity/Tests.antt =====
-- Two heat pumps that may be asked for.
use eebus_ha_bridge.Prelude.{none, some, List, [], ◌∷◌, ◌≡◌, refl, ℕ, ℕ_discrete}
use eebus_ha_bridge.Store.{lookup, insert}
use eebus_ha_bridge.Ski.{
  Text, Text-discrete, eq_text, codes, normalize_ski, remove_separators, trim_space, trim_left,
  trim_right, is_space, is_separator, to_upper,
}
use eebus_ha_bridge.UseCases.Entity.{
  RemoteEntityScenarios, compatible_entity, only_entity, entity_of_device, entities_by_ski,
  resolved,
}
use eebus_ha_bridge.UseCases.Entity.Unambiguous.{IsFound, compatible_entity-IsFound}

abbrev on_device : ℕ → Text → RemoteEntityScenarios
on_device ref ski = record {
  entity = some (record { ref = ref; device_ski = some ski });
  scenarios = [];
}

abbrev no_device : RemoteEntityScenarios
no_device = record { entity = some (record { ref = 8; device_ski = none }); scenarios = [] }

abbrev two_devices : List RemoteEntityScenarios
two_devices = no_device ∷ on_device 1 (codes "ab-01") ∷ on_device 2 (codes "CD02") ∷ []

second_found : (compatible_entity two_devices (codes "cd 02")).entity ≡ some 2
unfolding compatible_entity only_entity entity_of_device entities_by_ski resolved normalize_ski
    remove_separators trim_space trim_left trim_right is_space is_separator to_upper lookup insert
    eq_text Text-discrete ℕ_discrete
second_found = refl

-- Two devices are one too many where none is named.
none_named : (compatible_entity two_devices []).device_count ≡ 2
unfolding compatible_entity only_entity entity_of_device entities_by_ski resolved normalize_ski
    remove_separators trim_space trim_left trim_right is_space is_separator to_upper lookup insert
    eq_text Text-discrete ℕ_discrete
none_named = refl

compatible_entity-IsFound_example : IsFound (codes "cd 02") two_devices 2
compatible_entity-IsFound_example =
    compatible_entity-IsFound two_devices (codes "cd 02") second_found

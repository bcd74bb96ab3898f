-- ===== src/Grpc/DeviceStream/Tests.antt =====
-- A device state stream over a small bus.
use eebus_ha_bridge.Prelude.{
  ℕ, ◌+◌, ◌^◌, ◌<◌, ◌≡◌, refl, true, none, some, List, [], ◌∷◌, ok, All, arith, pos,
}
use eebus_ha_bridge.Store.{lookup}
use eebus_ha_bridge.Store.Unique.{IsUnique}
use eebus_ha_bridge.Ski.{
  Text, codes, text_key, nat_key, normalize_ski, valid_ski, remove_separators, trim_space,
  trim_left, trim_right, is_space, is_separator, to_upper, all_hex, is_hex,
}
use eebus_ha_bridge.Bus.{
  Bus, new_bus, event, subscribe_with_revision, subscribe_as, revision, lpc_limit_updated,
  device_connected,
}
use eebus_ha_bridge.Bus.Rising.{current, publishes}
use eebus_ha_bridge.Grpc.Status.{require_explicit_ski, require_device_request}
use eebus_ha_bridge.Grpc.Envelope.{DeviceService, DeviceStateEvent, initial_event, convert_event}
use eebus_ha_bridge.Grpc.Envelope.Laws.{is_classified, convert_event-is_classified}
use eebus_ha_bridge.Grpc.Stream.{Schedule, Opened, open_revisioned, revisioned_loop}
use eebus_ha_bridge.Grpc.Stream.Follows.{room}
use eebus_ha_bridge.Grpc.Stream.Cleanup.{revisioned_loop-unsubscribe}
use eebus_ha_bridge.Grpc.DeviceStream.{
  subscribe_device_state, IsOfDevice, subscribe_device_state-IsOfDevice,
}

abbrev full_ski : Text
full_ski = codes "0123456789ABCDEF0123456789ABCDEF01234567"

-- A service without sources: its capabilities are a number.
abbrev bare_service : DeviceService ℕ
bare_service = record {
  device_capabilities = λ _. 7;
  snapshot = none;
  payloads = record {
    lpc = none;
    dhw = none;
    dhw_system_function = none;
    hvac = none;
    ohpcf = none;
    monitoring = none;
  };
}

abbrev one_event : Schedule
one_event = (publishes (pos 5) (event full_ski lpc_limit_updated) ∷ [], pos 6) ∷ []

abbrev opened : Opened (DeviceStateEvent ℕ)
opened = record {
  bus = (subscribe_with_revision new_bus full_ski).0;
  channel = 0;
  first = initial_event bare_service full_ski 0 (pos 4);
}

abbrev streamed : Bus × List (DeviceStateEvent ℕ)
streamed = revisioned_loop (convert_event bare_service) (λ _. true) one_event opened

opens :
    subscribe_device_state bare_service
      (some new_bus)
      (some (record { ski = full_ski }))
      (pos 4)
      (λ _. true)
      one_event
    ≡ ok streamed
unfolding subscribe_device_state open_revisioned require_device_request require_explicit_ski
    normalize_ski remove_separators trim_space trim_left trim_right is_space is_separator to_upper
    valid_ski all_hex is_hex subscribe_with_revision subscribe_as new_bus lookup
opens = refl

new_bus-IsUnique : IsUnique new_bus.subscribers
unfolding new_bus
new_bus-IsUnique = tt

has_room : current new_bus (normalize_ski full_ski) + room one_event < 2 ^ 64
unfolding new_bus lookup
has_room = omega arith

subscribe_device_state-IsOfDevice_example :
    All (IsOfDevice (normalize_ski full_ski) (revision new_bus full_ski)) streamed.1
subscribe_device_state-IsOfDevice_example =
    subscribe_device_state-IsOfDevice bare_service new_bus full_ski (pos 4) (λ _. true) one_event
      new_bus-IsUnique has_room opens

revisioned_loop-unsubscribe_example : lookup 0 streamed.0.subscribers ≡ none
revisioned_loop-unsubscribe_example =
    revisioned_loop-unsubscribe (convert_event bare_service) (λ _. true) one_event opened

convert_event-is_classified_example :
    (e : DeviceStateEvent ℕ) × (convert_event bare_service (event full_ski device_connected)
      ≡ some e)
    × (e.ski ≡ full_ski)
    × (e.revision ≡ 0)
    × (is_classified e.payload ≡ true)
convert_event-is_classified_example =
    convert_event-is_classified bare_service (event full_ski device_connected) refl

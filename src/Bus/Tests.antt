-- ===== src/Bus/Tests.antt =====
-- Runs of the bus with one subscriber.
use eebus_ha_bridge.Prelude.{
  ◌≡◌, ◌+◌, ◌^◌, ◌<◌, refl, List, [], ◌∷◌, false, some, pos, arith, length, if◌then◌else◌,
  ℕ_discrete,
}
use eebus_ha_bridge.Store.{lookup, insert}
use eebus_ha_bridge.Store.Unique.{IsUnique}
use eebus_ha_bridge.Ski.{text_key, nat_key, is_empty, normalize_ski}
use eebus_ha_bridge.Registry.Operations.Tests.{ski_a, ski_b, stable_a}
use eebus_ha_bridge.Bus.{
  Event, Subscriber, Bus, new_bus, event, new_subscriber, publish, subscribe_as,
  subscribe_with_revision, revision, device_connected, lpc_limit_updated,
}
use eebus_ha_bridge.Bus.Delivery.{port, buffer_of, offered, stamped, is_unresolved, publish-port}
use eebus_ha_bridge.Bus.Rising.{Call, publishes, receives, run, Rising, current}
use eebus_ha_bridge.Bus.Resync.{Waits, IsMarker, poll, poll-IsMarker}
use eebus_ha_bridge.Bus.Revisions.{run-subscribe_with_revision}

abbrev three_calls : List Call
three_calls =
    publishes (pos 1) (event ski_a device_connected)
    ∷ publishes (pos 2) (event ski_b lpc_limit_updated)
    ∷ publishes (pos 3) (event ski_a lpc_limit_updated)
    ∷ receives 0
    ∷ []

not_empty : is_empty (normalize_ski ski_a) ≡ false
not_empty = rw stable_a refl

new_bus-IsUnique : IsUnique new_bus.subscribers
unfolding new_bus
new_bus-IsUnique = tt

room : current new_bus (normalize_ski ski_a) + length three_calls < 2 ^ 64
unfolding new_bus lookup
room = omega arith

run-subscribe_with_revision_example :
    Rising
      (subscribe_with_revision new_bus ski_a).2
      (revision (run (subscribe_with_revision new_bus ski_a).0 three_calls) ski_a)
      (normalize_ski ski_a)
      (buffer_of (
        port
          (run (subscribe_with_revision new_bus ski_a).0 three_calls)
          (subscribe_with_revision new_bus ski_a).1))
run-subscribe_with_revision_example =
    run-subscribe_with_revision new_bus ski_a three_calls not_empty new_bus-IsUnique room

abbrev one_subscriber : Bus
one_subscriber = (subscribe_as new_bus ski_a).0

one-IsUnique : IsUnique one_subscriber.subscribers
unfolding new_bus subscribe_as insert lookup
one-IsUnique = (refl, tt)

one-lookup : lookup 0 one_subscriber.subscribers ≡ some (new_subscriber ski_a)
unfolding new_bus subscribe_as insert lookup ℕ_discrete
one-lookup = refl

publish-port_example : port (publish one_subscriber (pos 1) (event ski_a device_connected)) 0 ≡ (
    if is_unresolved (event ski_a device_connected)
    then port one_subscriber 0
    else offered
        (stamped one_subscriber (pos 1) (event ski_a device_connected))
        (new_subscriber ski_a)
        (port one_subscriber 0))
publish-port_example =
    publish-port one_subscriber (pos 1) (event ski_a device_connected) 0 (new_subscriber ski_a)
      one-IsUnique one-lookup

-- The only subscriber has missed two events, and its marker was put off 64 times.
abbrev missed : Subscriber
missed = record (new_subscriber ski_a) {
  dropped_total = 2;
  pending_dropped = 2;
  resync_deferrals = 64;
}

abbrev overflowed : Bus
overflowed = record new_bus { subscribers = (0, missed) ∷ [] }

overflowed-Waits : Waits 0 64 0 overflowed
unfolding new_bus lookup ℕ_discrete
overflowed-Waits = record {
  unique = (refl, tt);
  waiting = record {
    subscriber = missed;
    live = refl;
    scoped = refl;
    owed = omega arith;
    fits = omega arith;
    deferred = refl;
  };
}

poll-IsMarker_example : (e : Event) × (poll overflowed 0 (([], pos 9) ∷ []) ≡ some e) × IsMarker e
poll-IsMarker_example =
    poll-IsMarker 0 64 overflowed (([], pos 9) ∷ []) overflowed-Waits (omega arith) (omega arith)

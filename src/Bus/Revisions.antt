-- ===== src/Bus/Revisions.antt =====
-- The events that a device's subscriber has in its buffer: their revisions rise, and all lie above
-- the revision that SubscribeWithRevision returned.
use eebus_ha_bridge.Prelude.{
  ℕ, ◌+◌, ◌^◌, ◌≡◌, refl, ap, subst, List, [], ◌∷◌, false, length, arith, inl, inr, Option-cases,
  List-cases, ◌≤◌, ◌<◌,
}
use eebus_ha_bridge.Store.{lookup, or_zero}
use eebus_ha_bridge.Store.Laws.{lookup-insert_self}
use eebus_ha_bridge.Store.Unique.{IsUnique, insert-IsUnique}
use eebus_ha_bridge.Ski.{Text, text_key, nat_key, normalize_ski, is_empty}
use eebus_ha_bridge.Time.{Time}
use eebus_ha_bridge.Bus.{
  Subscriber, no_channel, new_subscriber, Bus, subscribe_as, subscribe, subscribe_with_revision,
  unsubscribe, receive, take_pending_resync, resync, revision,
}
use eebus_ha_bridge.Bus.Delivery.{port, buffer_of}
use eebus_ha_bridge.Bus.Follows.{
  publishes-Follows, subscribes-Follows, unsubscribes-Follows, receives-Follows, takes-Follows,
}
use eebus_ha_bridge.Bus.Rising.{
  Call, subscribes, subscribes_to, unsubscribes, publishes, receives, takes_resync, apply, run,
  Rising, current, Follows, current-publish_le,
}

revisions-receive : (b : Bus) (j : ℕ) → (receive b j).0.revisions ≡ b.revisions
unfolding receive
revisions-receive b j = elim (List-cases (or_zero no_channel (lookup j b.channels)).buffer) [
  | inl e ↦ rw (e, receive) refl
  | inr (x, rest, e) ↦ rw (e, receive) refl
]

revisions-unsubscribe : (b : Bus) (j : ℕ) → (unsubscribe b j).revisions ≡ b.revisions
unfolding unsubscribe
revisions-unsubscribe b j = elim (Option-cases (lookup j b.subscribers)) [
  | inl e ↦ rw (e, unsubscribe) refl
  | inr (s, e) ↦ rw (e, unsubscribe) refl
]

revisions-resync :
    (b : Bus) (now : Time) (j : ℕ) (s : Subscriber) → (resync b now j s).0.revisions ≡ b.revisions
unfolding resync
revisions-resync b now j s = ground arith

revisions-take :
    (b : Bus) (now : Time) (j : ℕ) → (take_pending_resync b now j).0.revisions ≡ b.revisions
unfolding take_pending_resync
revisions-take b now j = elim (Option-cases (lookup j b.subscribers)) [
  | inl e ↦ rw (e, take_pending_resync) refl
  | inr (s, e) ↦ rw (e, take_pending_resync) (revisions-resync b now j s)
]

module _ (ch : ℕ) (ski : Text) (lo : ℕ) (scoped : is_empty ski ≡ false) where
  -- A call raises the device's revision by one at most.
  pub current-apply :
      (b : Bus) (c : Call)
      → current b ski + 1 < 2 ^ 64
      → current (apply b c) ski ≤ current b ski + 1
  unfolding apply subscribe subscribe_with_revision subscribe_as
  current-apply b subscribes w = omega arith
  current-apply b (subscribes_to k) w = omega arith
  current-apply b (unsubscribes j) w =
      omega (arith, ap (λ m. or_zero 0 (lookup ski m)) (revisions-unsubscribe b j))
  current-apply b (publishes now evt) w = (current-publish_le b now evt ski w).1
  current-apply b (receives j) w =
      omega (arith, ap (λ m. or_zero 0 (lookup ski m)) (revisions-receive b j))
  current-apply b (takes_resync now j) w =
      omega (arith, ap (λ m. or_zero 0 (lookup ski m)) (revisions-take b now j))

  pub apply-Follows :
      (b : Bus) (c : Call)
      → Follows ch ski lo b
      → current b ski + 1 < 2 ^ 64
      → Follows ch ski lo (apply b c)
  unfolding apply subscribe subscribe_with_revision
  apply-Follows b subscribes f w = subscribes-Follows ch ski lo scoped b [] f
  apply-Follows b (subscribes_to k) f w = subscribes-Follows ch ski lo scoped b (normalize_ski k) f
  apply-Follows b (unsubscribes j) f w = unsubscribes-Follows ch ski lo scoped b j f
  apply-Follows b (publishes now evt) f w = publishes-Follows ch ski lo scoped b now evt f w
  apply-Follows b (receives j) f w = receives-Follows ch ski lo scoped b j f
  apply-Follows b (takes_resync now j) f w = takes-Follows ch ski lo scoped b now j f

  pub run-Follows :
      (b : Bus) (cs : List Call)
      → Follows ch ski lo b
      → current b ski + length cs < 2 ^ 64
      → Follows ch ski lo (run b cs)
  unfolding run
  run-Follows b [] f w = f
  run-Follows b (c ∷ cs) f w =
      run-Follows (apply b c) cs (apply-Follows b c f (omega arith))
        (omega (arith, current-apply b c (omega arith)))

pub subscribed-Follows :
    (b : Bus) (k : Text)
    → is_empty (normalize_ski k) ≡ false
    → IsUnique b.subscribers
    → Follows b.next_channel
        (normalize_ski k)
        (current b (normalize_ski k))
        (subscribe_with_revision b k).0
unfolding subscribe_with_revision subscribe_as
subscribed-Follows b k n u = record {
  unique = insert-IsUnique b.next_channel (new_subscriber (normalize_ski k)) b.subscribers u;
  old = omega arith;
  rising = record {
    scope = λ s h.
        ground (
          arith,
          lookup-insert_self b.next_channel (new_subscriber (normalize_ski k)) b.subscribers,
        );
    events =
        subst (Rising (current b (normalize_ski k)) (current b (normalize_ski k)) (normalize_ski k))
          {x = []} (ground (arith, lookup-insert_self b.next_channel no_channel b.channels))
          (omega arith);
  };
}

-- A subscriber that asks for a device, with a SKI that is not empty, gets a revision with its
-- subscription. Whatever calls of the bus follow, however they interleave, its channel buffers
-- events of that device alone, in strictly rising order of revision, each above the revision that
-- the subscription returned and none above the device's present one, provided that the device's
-- counter of revisions cannot reach 2^64 in these calls and the bus has each channel once.
pub run-subscribe_with_revision :
    (b : Bus) (k : Text) (cs : List Call)
    → is_empty (normalize_ski k) ≡ false
    → IsUnique b.subscribers
    → current b (normalize_ski k) + length cs < 2 ^ 64
    → Rising
        (subscribe_with_revision b k).2
        (revision (run (subscribe_with_revision b k).0 cs) k)
        (normalize_ski k)
        (buffer_of (port (run (subscribe_with_revision b k).0 cs) (subscribe_with_revision b k).1))
unfolding subscribe_with_revision subscribe_as revision
run-subscribe_with_revision b k cs n u w =
    (run-Follows b.next_channel (normalize_ski k) (current b (normalize_ski k)) n
      (subscribe_with_revision b k).0 cs (subscribed-Follows b k n u) w).rising.events

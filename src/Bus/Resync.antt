-- ===== src/Bus/Resync.antt =====
-- How long TakePendingResync may put off the marker that a subscriber is owed.
use eebus_ha_bridge.Prelude.{
  ℕ, suc, ◌+◌, ◌^◌, ◌≡◌, refl, sym, ap, subst, List, [], ◌∷◌, false, not, ◌&&◌, ◌||◌, ◌==◌, Option,
  none, some, ltb, length, arith, inl, inr, if_both, if_split, Option-cases, ◌≤◌, ◌<◌,
}
use eebus_ha_bridge.Store.{lookup, insert, or_zero}
use eebus_ha_bridge.Store.Laws.{lookup-insert_self}
use eebus_ha_bridge.Store.Unique.{IsUnique, insert-IsUnique}
use eebus_ha_bridge.Ski.{nat_key, is_empty}
use eebus_ha_bridge.Time.{Time}
use eebus_ha_bridge.Bus.{
  Event, resync_required, Subscriber, Bus, no_channel, max_deferrals, publish, resync,
  take_pending_resync, is_other, channel_capacity, u64,
}
use eebus_ha_bridge.Bus.Delivery.{
  Port, port, buffer_of, offered, stamped, is_unresolved, publish-port, publish-IsUnique,
}

-- The subscriber is of a device and is owed a marker, which was put off `d` times; its counter has
-- room for `room` more drops.
pub record Owed (d room : ℕ) (found : Option Subscriber) : Type 0 where
  pub subscriber : Subscriber
  pub live : found ≡ some subscriber
  pub scoped : is_empty subscriber.ski ≡ false
  pub owed : 0 < subscriber.pending_dropped
  pub fits : subscriber.pending_dropped + room < 2 ^ 64
  pub deferred : subscriber.resync_deferrals ≡ d

pub record Waits (ch d room : ℕ) (b : Bus) : Type 0 where
  pub unique : IsUnique b.subscribers
  pub waiting : Owed d room (lookup ch b.subscribers)

abbrev publish_all : Bus → List (Time × Event) → Bus
publish_all b [] = b
publish_all b ((now, evt) ∷ l) = publish_all (publish b now evt) l

-- The consumer polls: events are published, then it asks for the marker, until it gets one.
unfoldable pub poll : Bus → ℕ → List (List (Time × Event) × Time) → Option Event
poll b ch [] = none
poll b ch ((events, now) ∷ l) =
    let next = take_pending_resync (publish_all b events) now ch in
    let rest = poll next.0 ch l in elim next.1 [ some e ↦ some e | none ↦ rest ]

abbrev pub total : List (List (Time × Event) × Time) → ℕ
total [] = 0
total ((events, now) ∷ l) = length events + total l

fewer-Owed : (d room : ℕ) (found : Option Subscriber) → Owed d (suc room) found → Owed d room found
fewer-Owed d room found o = record {
  subscriber = o.subscriber;
  live = o.live;
  scoped = o.scoped;
  owed = o.owed;
  fits = omega (arith, o.fits);
  deferred = o.deferred;
}

-- An offer changes the subscriber by one more drop at most.
offered-Owed :
    (d room : ℕ) (evt : Event) (p : Port) (o : Owed d (suc room) p.subscriber)
    → Owed d room (offered evt o.subscriber p).subscriber
offered-Owed d room evt p o =
    if_both (λ (x : Port). Owed d room x.subscriber) (is_other o.subscriber.ski evt.ski)
      (fewer-Owed d room p.subscriber o)
      (if_both (λ (x : Port). Owed d room x.subscriber)
        (ltb (length (buffer_of p)) channel_capacity) (fewer-Owed d room p.subscriber o)
        (record {
          subscriber = record (o.subscriber) {
            dropped_total = u64 (o.subscriber.dropped_total + 1);
            pending_dropped = u64 (o.subscriber.pending_dropped + 1);
          };
          live = refl;
          scoped = o.scoped;
          owed = omega (arith, o.owed, o.fits);
          fits = omega (arith, o.owed, o.fits);
          deferred = o.deferred;
        }))

publish-Waits :
    (ch d room : ℕ) (b : Bus) (now : Time) (evt : Event)
    → Waits ch d (suc room) b
    → Waits ch d room (publish b now evt)
publish-Waits ch d room b now evt w = record {
  unique = publish-IsUnique b now evt w.unique;
  waiting =
      subst (λ (x : Port). Owed d room x.subscriber)
        (sym (publish-port b now evt ch w.waiting.subscriber w.unique w.waiting.live))
        (if_both (λ (x : Port). Owed d room x.subscriber) (is_unresolved evt)
          (fewer-Owed d room (lookup ch b.subscribers) w.waiting)
          (offered-Owed d room (stamped b now evt) (port b ch) w.waiting));
}

publish_all-Waits :
    (ch d room : ℕ) (b : Bus) (events : List (Time × Event))
    → Waits ch d (length events + room) b
    → Waits ch d room (publish_all b events)
publish_all-Waits ch d room b [] w = subst (λ n. Waits ch d n b) {x = 0 + room} (omega arith) w
publish_all-Waits ch d room b ((now, evt) ∷ l) w =
    publish_all-Waits ch d room (publish b now evt) l (
      publish-Waits ch d (length l + room) b now evt
        (subst (λ n. Waits ch d n b) {x = suc (length l) + room} (omega arith) w))

-- A resync marker that reports a loss.
pub record IsMarker (e : Event) : Type 0 where
  pub marker : e.type ≡ resync_required
  pub lossy : 0 < e.dropped

-- One request: a marker, or one more deferral, of which there are 64 at most.
abbrev Answered : ℕ → ℕ → ℕ → Bus × Option Event → Type 0
Answered ch d room (b, none) = (d < 64) × Waits ch (suc d) room b
Answered ch d room (b, some e) = IsMarker e

resync-Answered :
    (ch d room : ℕ) (b : Bus) (now : Time) (w : Waits ch d room b)
    → Answered ch d room (resync b now ch w.waiting.subscriber)
unfolding resync
resync-Answered ch d room b now w =
    if_split (Answered ch d room)
      (is_empty w.waiting.subscriber.ski || w.waiting.subscriber.pending_dropped == 0)
      (λ h. ground (arith, h, w.waiting.scoped, w.waiting.owed))
      (λ h.
        if_split (Answered ch d room)
          (not (length (or_zero no_channel (lookup ch b.channels)).buffer == 0)
            && ltb w.waiting.subscriber.resync_deferrals max_deferrals)
          (λ more. (ground (arith, more, w.waiting.deferred), deferred))
          (λ more. record { marker = refl; lossy = w.waiting.owed }))
  where
    put_off : Subscriber
    put_off = record (w.waiting.subscriber) {
      resync_deferrals = w.waiting.subscriber.resync_deferrals + 1;
    }

    deferred : Waits ch (suc d) room (record b { subscribers = insert ch put_off b.subscribers })
    deferred = record {
      unique = insert-IsUnique ch put_off b.subscribers w.unique;
      waiting = record {
        subscriber = put_off;
        live = lookup-insert_self ch put_off b.subscribers;
        scoped = w.waiting.scoped;
        owed = w.waiting.owed;
        fits = w.waiting.fits;
        deferred = omega (arith, w.waiting.deferred);
      };
    }

take-Answered :
    (ch d room : ℕ) (b : Bus) (now : Time)
    → Waits ch d room b
    → Answered ch d room (take_pending_resync b now ch)
unfolding take_pending_resync
take-Answered ch d room b now w =
    rw (w.waiting.live, take_pending_resync) (resync-Answered ch d room b now w)

-- Where a device's subscriber is owed a marker that was put off `d` times, and its consumer asks
-- for it once more often than the 64 deferrals that are left of it, it gets one within those
-- requests, with a positive count of drops: whatever events are published between the requests, and
-- even if the consumer never empties its channel, an overflow that goes on does not put the marker
-- off for ever. The counter of drops must have room for the events.
pub poll-IsMarker :
    (ch d : ℕ) (b : Bus) (l : List (List (Time × Event) × Time))
    → Waits ch d (total l) b
    → 64 < d + length l
    → d ≤ 64
    → (e : Event) × (poll b ch l ≡ some e) × IsMarker e
unfolding poll
poll-IsMarker ch d b [] w n m = ground (arith, n, m)
poll-IsMarker ch d b ((events, now) ∷ l) w n m =
    elim (Option-cases (take_pending_resync before now ch).1) [
      | inl e ↦
          let more = subst (Answered ch d (total l)) (ends none e) answer in
          let later =
            poll-IsMarker ch (suc d) (take_pending_resync before now ch).0 l more.1
              (omega (arith, n)) (omega (arith, more.0)) in
          (later.0, rw (e, poll) later.1, later.2)
      | inr (x, e) ↦
          (x, rw (e, poll) refl, subst (Answered ch d (total l)) (ends (some x) e) answer)
    ]
  where
    before : Bus
    before = publish_all b events

    answer : Answered ch d (total l) (take_pending_resync before now ch)
    answer = take-Answered ch d (total l) before now (publish_all-Waits ch d (total l) b events w)

    ends :
        (o : Option Event)
        → (take_pending_resync before now ch).1 ≡ o
        → take_pending_resync before now ch ≡ ((take_pending_resync before now ch).0, o)
    ends o e = ap (λ x. ((take_pending_resync before now ch).0, x)) e

-- ===== src/Bus/Delivery.antt =====
-- What one Publish does to one subscriber, whichever others there are.
use eebus_ha_bridge.Prelude.{
  ℕ, ◌+◌, ◌≡◌, ◌≢◌, refl, ◌∙◌, ap, subst, List, [], ◌∷◌, ◌++◌, Bool, not, ◌&&◌, Option, none, some,
  if◌then◌else◌, ltb, length, arith, inl, inr, Bool-cases,
}
use eebus_ha_bridge.Store.{Store, lookup, or_zero}
use eebus_ha_bridge.Store.Laws.{lookup-insert_ne, lookup-insert_self}
use eebus_ha_bridge.Store.Unique.{IsUnique, insert-IsUnique}
use eebus_ha_bridge.Ski.{text_key, nat_key, normalize_ski, is_empty}
use eebus_ha_bridge.Time.{Time}
use eebus_ha_bridge.Bus.{
  Event, Subscriber, Channel, no_channel, Bus, channel_capacity, u64, bump, is_other, deliver,
  publish_loop, publish, is_discovery,
}

-- What the bus holds for one channel.
pub record Port : Type 0 where
  pub subscriber : Option Subscriber
  pub channel : Option Channel

abbrev pub port : Bus → ℕ → Port
port b ch = record { subscriber = lookup ch b.subscribers; channel = lookup ch b.channels }

abbrev pub buffer_of : Port → List Event
buffer_of p = (or_zero no_channel p.channel).buffer

-- The promise of Publish to a subscriber: an event of another device passes it by, one of its own
-- goes to the end of the buffer, and where the buffer is full both of its counters go up.
abbrev pub offered : Event → Subscriber → Port → Port
offered evt s p =
    if is_other s.ski evt.ski
    then p
    else if ltb (length (buffer_of p)) channel_capacity
    then record p {
      channel = some (record (or_zero no_channel p.channel) { buffer = buffer_of p ++ evt ∷ [] });
    }
    else record p {
      subscriber = some (record s {
        dropped_total = u64 (s.dropped_total + 1);
        pending_dropped = u64 (s.pending_dropped + 1);
      });
    }

deliver-port_ne :
    (evt : Event) (ch j : ℕ) (s : Subscriber) (b : Bus)
    → ch ≢ j
    → port (deliver evt ch s b) j ≡ port b j
unfolding deliver
deliver-port_ne evt ch j s b n = ground (
  arith,
  lookup-insert_ne ch j
      (record (or_zero no_channel (lookup ch b.channels)) {
        buffer = (or_zero no_channel (lookup ch b.channels)).buffer ++ evt ∷ [];
      })
      b.channels,
  lookup-insert_ne ch j
      (record s {
        dropped_total = u64 (s.dropped_total + 1);
        pending_dropped = u64 (s.pending_dropped + 1);
      })
      b.subscribers,
)

deliver-port :
    (evt : Event) (ch : ℕ) (s : Subscriber) (b : Bus)
    → port (deliver evt ch s b) ch ≡ offered evt s (port b ch)
unfolding deliver
deliver-port evt ch s b = ground (
  arith,
  lookup-insert_self ch
      (record (or_zero no_channel (lookup ch b.channels)) {
        buffer = (or_zero no_channel (lookup ch b.channels)).buffer ++ evt ∷ [];
      })
      b.channels,
  lookup-insert_self ch
      (record s {
        dropped_total = u64 (s.dropped_total + 1);
        pending_dropped = u64 (s.pending_dropped + 1);
      })
      b.subscribers,
)

loop-port-none :
    (evt : Event) (j : ℕ) (l : Store ℕ Subscriber) (b : Bus)
    → lookup j l ≡ none
    → port (publish_loop evt l b) j ≡ port b j
unfolding publish_loop lookup
loop-port-none evt j [] b h = refl
loop-port-none evt j ((ch, s) ∷ l) b h =
    loop-port-none evt j l (deliver evt ch s b) (ground arith)
    ∙ deliver-port_ne evt ch j s b (λ e. ground arith)

loop-port :
    (evt : Event) (j : ℕ) (l : Store ℕ Subscriber) (b : Bus) (s : Subscriber)
    → IsUnique l
    → lookup j l ≡ some s
    → port (publish_loop evt l b) j ≡ offered evt s (port b j)
unfolding publish_loop lookup
loop-port evt j [] b s u h = cc
loop-port evt j ((ch, t) ∷ l) b s u h = elim (nat_key.same ch j) [
  | yes p ↦
      loop-port-none evt j l (deliver evt ch t b) (subst (λ k. lookup k l ≡ none) p u.0)
      ∙ subst (λ k. port (deliver evt ch t b) k ≡ offered evt s (port b k)) p
          (subst (λ x. port (deliver evt ch t b) ch ≡ offered evt x (port b ch)) (ground arith)
            (deliver-port evt ch t b))
  | no p ↦
      loop-port evt j l (deliver evt ch t b) s u.1 (ground arith)
      ∙ ap (offered evt s) (deliver-port_ne evt ch j t b p)
]

-- The event as Publish sends it.
abbrev pub stamped : Bus → Time → Event → Event
stamped b now evt = record evt {
  ski = normalize_ski evt.ski;
  revision = or_zero 0 (lookup (normalize_ski evt.ski) (bump (normalize_ski evt.ski) b.revisions));
  occurred_at = now;
}

-- An event of no device, other than a discovery update, which Publish counts and drops.
abbrev pub is_unresolved : Event → Bool
is_unresolved evt = is_empty (normalize_ski evt.ski) && not (is_discovery evt.type)

-- Publish offers the stamped event exactly once to each live subscriber, whichever others there are,
-- and an unresolved event to none, where the bus has each channel once: a subscriber of another
-- device keeps its buffer and its counters, one in scope has the event at the end of its buffer, or
-- both counters up by one where 64 events are buffered.
pub publish-port :
    (b : Bus) (now : Time) (evt : Event) (ch : ℕ) (s : Subscriber)
    → IsUnique b.subscribers
    → lookup ch b.subscribers ≡ some s
    → port (publish b now evt) ch
      ≡ (if is_unresolved evt then port b ch else offered (stamped b now evt) s (port b ch))
unfolding publish
publish-port b now evt ch s u h = elim (Bool-cases (is_unresolved evt)) [
  | inl e ↦ rw e refl
  | inr e ↦ rw e (
      loop-port (stamped b now evt) ch b.subscribers
        (record b { revisions = bump (normalize_ski evt.ski) b.revisions }) s u h)
]

deliver-IsUnique :
    (evt : Event) (ch : ℕ) (s : Subscriber) (b : Bus)
    → IsUnique b.subscribers
    → IsUnique (deliver evt ch s b).subscribers
unfolding deliver
deliver-IsUnique evt ch s b u = ground (
  arith,
  insert-IsUnique ch
      (record s {
        dropped_total = u64 (s.dropped_total + 1);
        pending_dropped = u64 (s.pending_dropped + 1);
      })
      b.subscribers u,
)

loop-IsUnique :
    (evt : Event) (l : Store ℕ Subscriber) (b : Bus)
    → IsUnique b.subscribers
    → IsUnique (publish_loop evt l b).subscribers
unfolding publish_loop
loop-IsUnique evt [] b u = u
loop-IsUnique evt ((ch, s) ∷ l) b u =
    loop-IsUnique evt l (deliver evt ch s b) (deliver-IsUnique evt ch s b u)

pub publish-IsUnique :
    (b : Bus) (now : Time) (evt : Event)
    → IsUnique b.subscribers
    → IsUnique (publish b now evt).subscribers
unfolding publish
publish-IsUnique b now evt u = elim (Bool-cases (is_unresolved evt)) [
  | inl e ↦ rw e u
  | inr e ↦ rw e (
      loop-IsUnique (stamped b now evt) b.subscribers
        (record b { revisions = bump (normalize_ski evt.ski) b.revisions }) u)
]

deliver-revisions :
    (evt : Event) (ch : ℕ) (s : Subscriber) (b : Bus) → (deliver evt ch s b).revisions ≡ b.revisions
unfolding deliver
deliver-revisions evt ch s b = ground arith

loop-revisions :
    (evt : Event) (l : Store ℕ Subscriber) (b : Bus)
    → (publish_loop evt l b).revisions ≡ b.revisions
unfolding publish_loop
loop-revisions evt [] b = refl
loop-revisions evt ((ch, s) ∷ l) b =
    loop-revisions evt l (deliver evt ch s b) ∙ deliver-revisions evt ch s b

pub publish-revisions :
    (b : Bus) (now : Time) (evt : Event)
    → (publish b now evt).revisions
      ≡ (if is_unresolved evt then b.revisions else bump (normalize_ski evt.ski) b.revisions)
unfolding publish
publish-revisions b now evt = elim (Bool-cases (is_unresolved evt)) [
  | inl e ↦ rw e refl
  | inr e ↦ rw e (loop-revisions (stamped b now evt) b.subscribers _)
]

-- A channel without a live subscriber gets nothing.
pub publish-port-none :
    (b : Bus) (now : Time) (evt : Event) (ch : ℕ)
    → lookup ch b.subscribers ≡ none
    → port (publish b now evt) ch ≡ port b ch
unfolding publish
publish-port-none b now evt ch h = elim (Bool-cases (is_unresolved evt)) [
  | inl e ↦ rw e refl
  | inr e ↦ rw e (
      loop-port-none (stamped b now evt) ch b.subscribers
        (record b { revisions = bump (normalize_ski evt.ski) b.revisions }) h)
]

deliver-next :
    (evt : Event) (ch : ℕ) (s : Subscriber) (b : Bus)
    → (deliver evt ch s b).next_channel ≡ b.next_channel
unfolding deliver
deliver-next evt ch s b = ground arith

loop-next :
    (evt : Event) (l : Store ℕ Subscriber) (b : Bus)
    → (publish_loop evt l b).next_channel ≡ b.next_channel
unfolding publish_loop
loop-next evt [] b = refl
loop-next evt ((ch, s) ∷ l) b = loop-next evt l (deliver evt ch s b) ∙ deliver-next evt ch s b

pub publish-next :
    (b : Bus) (now : Time) (evt : Event) → (publish b now evt).next_channel ≡ b.next_channel
unfolding publish
publish-next b now evt = elim (Bool-cases (is_unresolved evt)) [
  | inl e ↦ rw e refl
  | inr e ↦ rw e (
      loop-next (stamped b now evt) b.subscribers
        (record b { revisions = bump (normalize_ski evt.ski) b.revisions }))
]

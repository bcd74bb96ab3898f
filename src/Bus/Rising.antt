-- ===== src/Bus/Rising.antt =====
-- The calls of the bus, and the invariant of one device's channel.
use eebus_ha_bridge.Prelude.{
  ℕ, ◌+◌, ◌^◌, ◌≡◌, ◌≢◌, refl, ◌∙◌, ap, List, [], ◌∷◌, ◌++◌, false, some, if◌then◌else◌, ltb,
  length, arith, inl, inr, if_both, Bool-cases, ◌≤◌, ◌<◌,
}
use eebus_ha_bridge.Store.{lookup, or_zero}
use eebus_ha_bridge.Store.Laws.{lookup-insert_self, lookup-insert}
use eebus_ha_bridge.Store.Unique.{IsUnique}
use eebus_ha_bridge.Ski.{Text, text_key, nat_key, normalize_ski, is_empty}
use eebus_ha_bridge.Time.{Time}
use eebus_ha_bridge.Bus.{
  Event, Subscriber, Bus, channel_capacity, u64, bump, is_other, publish, subscribe,
  subscribe_with_revision, unsubscribe, receive, take_pending_resync,
}
use eebus_ha_bridge.Bus.Delivery.{
  Port, port, buffer_of, offered, stamped, is_unresolved, publish-revisions,
}

pub data Call : Type 0 where
  subscribes : Call
  subscribes_to : Text → Call
  unsubscribes : ℕ → Call
  publishes : Time → Event → Call
  receives : ℕ → Call
  takes_resync : Time → ℕ → Call

unfoldable pub apply : Bus → Call → Bus
apply b subscribes = (subscribe b).0
apply b (subscribes_to ski) = (subscribe_with_revision b ski).0
apply b (unsubscribes ch) = unsubscribe b ch
apply b (publishes now evt) = publish b now evt
apply b (receives ch) = (receive b ch).0
apply b (takes_resync now ch) = (take_pending_resync b now ch).0

unfoldable pub run : Bus → List Call → Bus
run b [] = b
run b (c ∷ cs) = run (apply b c) cs

-- The events are of the device, and their revisions rise from above `lo` to `hi` at most.
abbrev pub Rising : ℕ → ℕ → Text → List Event → Type 0
Rising lo hi ski [] = lo ≤ hi
Rising lo hi ski (e ∷ es) = (lo < e.revision) × (e.ski ≡ ski) × Rising e.revision hi ski es

pub Rising-mono :
    (lo hi hi' : ℕ) (ski : Text) (es : List Event)
    → hi ≤ hi'
    → Rising lo hi ski es
    → Rising lo hi' ski es
Rising-mono lo hi hi' ski [] h r = omega arith
Rising-mono lo hi hi' ski (e ∷ es) h r = (r.0, r.1, Rising-mono e.revision hi hi' ski es h r.2)

pub Rising-append :
    (lo hi : ℕ) (ski : Text) (es : List Event) (e : Event)
    → Rising lo hi ski es
    → hi < e.revision
    → e.ski ≡ ski
    → Rising lo e.revision ski (es ++ e ∷ [])
Rising-append lo hi ski [] e r h k = (omega arith, k, omega arith)
Rising-append lo hi ski (x ∷ es) e r h k = (r.0, r.1, Rising-append x.revision hi ski es e r.2 h k)

pub Rising-below :
    (lo lo' hi : ℕ) (ski : Text) (es : List Event)
    → lo ≤ lo'
    → Rising lo' hi ski es
    → Rising lo hi ski es
Rising-below lo lo' hi ski [] h r = omega arith
Rising-below lo lo' hi ski (x ∷ es) h r = (omega arith, r.1, r.2)

abbrev pub current : Bus → Text → ℕ
current b ski = or_zero 0 (lookup ski b.revisions)

-- The channel's subscriber is of the device, and so are the events in its buffer.
pub record IsRising (lo hi : ℕ) (ski : Text) (p : Port) : Type 0 where
  pub scope : (s : Subscriber) → p.subscriber ≡ some s → s.ski ≡ ski
  pub events : Rising lo hi ski (buffer_of p)

-- The channel `ch` is that of a subscriber to the device, whose snapshot was `lo`.
pub record Follows (ch : ℕ) (ski : Text) (lo : ℕ) (b : Bus) : Type 0 where
  pub unique : IsUnique b.subscribers
  pub old : ch < b.next_channel
  pub rising : IsRising lo (current b ski) ski (port b ch)

pub offered-IsRising :
    (lo hi : ℕ) (ski : Text) (evt : Event) (s : Subscriber) (p : Port)
    → evt.ski ≡ ski
    → s.ski ≡ ski
    → hi < evt.revision
    → IsRising lo hi ski p
    → IsRising lo evt.revision ski (offered evt s p)
offered-IsRising lo hi ski evt s p e o h r =
    if_both (IsRising lo evt.revision ski) (is_other s.ski evt.ski) kept (
      if_both (IsRising lo evt.revision ski) (ltb (length (buffer_of p)) channel_capacity)
        (record {
          scope = r.scope;
          events = Rising-append lo hi ski (buffer_of p) evt r.events h e;
        })
        (record { scope = λ t q. ground arith; events = kept.events }))
  where
    kept : IsRising lo evt.revision ski p
    kept = record {
      scope = r.scope;
      events = Rising-mono lo hi evt.revision ski (buffer_of p) (omega arith) r.events;
    }

pub offered_other :
    (ski : Text) (evt : Event) (s : Subscriber) (p : Port)
    → is_empty ski ≡ false
    → evt.ski ≢ ski
    → s.ski ≡ ski
    → offered evt s p ≡ p
offered_other ski evt s p n e o = ground arith

pub IsRising-mono :
    (lo hi hi' : ℕ) (ski : Text) (p : Port)
    → hi ≤ hi'
    → IsRising lo hi ski p
    → IsRising lo hi' ski p
IsRising-mono lo hi hi' ski p h r = record {
  scope = r.scope;
  events = Rising-mono lo hi hi' ski (buffer_of p) h r.events;
}

-- Where the counter does not wrap, the event has the next revision of its device.
pub stamped-revision :
    (b : Bus) (now : Time) (evt : Event)
    → current b (normalize_ski evt.ski) + 1 < 2 ^ 64
    → (stamped b now evt).revision ≡ current b (normalize_ski evt.ski) + 1
stamped-revision b now evt w = ground (
  arith,
  lookup-insert_self (normalize_ski evt.ski)
      (u64 (or_zero 0 (lookup (normalize_ski evt.ski) b.revisions) + 1)) b.revisions,
)

pub current-publish :
    (b : Bus) (now : Time) (evt : Event) (ski : Text)
    → current (publish b now evt) ski ≡ (
        if is_unresolved evt
        then current b ski
        else or_zero 0 (lookup ski (bump (normalize_ski evt.ski) b.revisions)))
current-publish b now evt ski = elim (Bool-cases (is_unresolved evt)) [
  | inl e ↦ rw e (ap (λ m. or_zero 0 (lookup ski m)) (publish-revisions b now evt ∙ rw e refl))
  | inr e ↦ rw e (ap (λ m. or_zero 0 (lookup ski m)) (publish-revisions b now evt ∙ rw e refl))
]

pub current-publish_le :
    (b : Bus) (now : Time) (evt : Event) (ski : Text)
    → current b ski + 1 < 2 ^ 64
    → (current b ski ≤ current (publish b now evt) ski)
      × (current (publish b now evt) ski ≤ current b ski + 1)
current-publish_le b now evt ski w = ground (
  arith,
  current-publish b now evt ski,
  lookup-insert (normalize_ski evt.ski) ski
      (u64 (or_zero 0 (lookup (normalize_ski evt.ski) b.revisions) + 1)) b.revisions,
)

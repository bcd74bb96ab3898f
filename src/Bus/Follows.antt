-- ===== src/Bus/Follows.antt =====
-- Each call of the bus keeps the invariant of a device's channel.
use eebus_ha_bridge.Prelude.{
  ℕ, ◌+◌, ◌^◌, ◌≡◌, ◌≢◌, refl, ◌∙◌, sym, subst, List, ◌∷◌, true, false, not, ◌&&◌, ◌||◌, ◌==◌,
  Option, some, ltb, length, arith, inl, inr, if_both, Bool-cases, Option-cases, List-cases, ◌<◌,
}
use eebus_ha_bridge.Store.{Store, lookup, insert, or_zero}
use eebus_ha_bridge.Store.Laws.{lookup-insert_ne, lookup-insert, lookup-delete}
use eebus_ha_bridge.Store.Unique.{insert-IsUnique, delete-IsUnique}
use eebus_ha_bridge.Ski.{Text, text_key, nat_key, normalize_ski, is_empty}
use eebus_ha_bridge.Time.{Time}
use eebus_ha_bridge.Bus.{
  Event, Subscriber, no_channel, new_subscriber, Bus, bump, max_deferrals, publish, subscribe_as,
  unsubscribe, receive, take_pending_resync, resync,
}
use eebus_ha_bridge.Bus.Delivery.{
  port, offered, stamped, is_unresolved, publish-port, publish-port-none, publish-IsUnique,
  publish-next,
}
use eebus_ha_bridge.Bus.Rising.{
  Rising, Rising-below, current, IsRising, Follows, offered-IsRising, offered_other, IsRising-mono,
  stamped-revision, current-publish, current-publish_le,
}

module _ (ch : ℕ) (ski : Text) (lo : ℕ) (scoped : is_empty ski ≡ false) where
  -- One event offered to the subscriber.
  pub offered-current :
      (b : Bus) (now : Time) (evt : Event) (s : Subscriber)
      → IsRising lo (current b ski) ski (port b ch)
      → current b ski + 1 < 2 ^ 64
      → lookup ch b.subscribers ≡ some s
      → is_unresolved evt ≡ false
      → IsRising lo
          (current (publish b now evt) ski)
          ski
          (offered (stamped b now evt) s (port b ch))
  offered-current b now evt s r w e u = elim (text_key.same (normalize_ski evt.ski) ski) [
    | yes p ↦
        subst (λ n. IsRising lo n ski (offered (stamped b now evt) s (port b ch)))
          (sym (current-publish b now evt ski ∙ rw u (rw (← p) refl)))
          (offered-IsRising lo (current b ski) ski (stamped b now evt) s (port b ch) p (r.scope s e)
            (next p) r)
    | no p ↦ rw (offered_other ski (stamped b now evt) s (port b ch) scoped p (r.scope s e)) (
        IsRising-mono lo (current b ski) (current (publish b now evt) ski) ski (port b ch)
          (current-publish_le b now evt ski w).0 r)
  ]
    where
      next : normalize_ski evt.ski ≡ ski → current b ski < (stamped b now evt).revision
      next p =
          let at_key =
            stamped-revision b now evt (subst (λ k. current b k + 1 < 2 ^ 64) (sym p) w) in
          subst (λ k. current b k < (stamped b now evt).revision) p (omega (arith, at_key))

  pub publish-IsRising :
      (b : Bus) (now : Time) (evt : Event)
      → Follows ch ski lo b
      → current b ski + 1 < 2 ^ 64
      → IsRising lo (current (publish b now evt) ski) ski (port (publish b now evt) ch)
  publish-IsRising b now evt f w = elim (Option-cases (lookup ch b.subscribers)) [
    | inl none_here ↦ rw (publish-port-none b now evt ch none_here) later
    | inr (s, e) ↦
        rw (publish-port b now evt ch s f.unique e) (elim (Bool-cases (is_unresolved evt)) [
          | inl u ↦ rw u later
          | inr u ↦ rw u (offered-current b now evt s f.rising w e u)
        ])
  ]
    where
      later : IsRising lo (current (publish b now evt) ski) ski (port b ch)
      later =
          IsRising-mono lo (current b ski) (current (publish b now evt) ski) ski (port b ch)
            (current-publish_le b now evt ski w).0 f.rising

  pub publishes-Follows :
      (b : Bus) (now : Time) (evt : Event)
      → Follows ch ski lo b
      → current b ski + 1 < 2 ^ 64
      → Follows ch ski lo (publish b now evt)
  publishes-Follows b now evt f w = record {
    unique = publish-IsUnique b now evt f.unique;
    old = omega (arith, f.old, publish-next b now evt);
    rising = publish-IsRising b now evt f w;
  }

  pub subscribes-Follows :
      (b : Bus) (k : Text) → Follows ch ski lo b → Follows ch ski lo (subscribe_as b k).0
  unfolding subscribe_as
  subscribes-Follows b k f = record {
    unique = insert-IsUnique b.next_channel (new_subscriber k) b.subscribers f.unique;
    old = omega (arith, f.old);
    rising =
        subst (IsRising lo (current b ski) ski)
          (cc (
            lookup-insert_ne b.next_channel ch (new_subscriber k) b.subscribers apart,
            lookup-insert_ne b.next_channel ch no_channel b.channels apart,
          ))
          f.rising;
  }
    where
      apart : b.next_channel ≢ ch
      apart = omega (arith, f.old)

  pub unsubscribes-Follows :
      (b : Bus) (j : ℕ) → Follows ch ski lo b → Follows ch ski lo (unsubscribe b j)
  unfolding unsubscribe
  unsubscribes-Follows b j f = elim (Option-cases (lookup j b.subscribers)) [
    | inl e ↦ rw (e, unsubscribe) f
    | inr (s, e) ↦
        rw (e, unsubscribe)
          (record {
            unique = delete-IsUnique j b.subscribers f.unique;
            old = f.old;
            rising = record {
              scope = λ t h. f.rising.scope t (ground (arith, lookup-delete j ch b.subscribers));
              events =
                  subst (Rising lo (current b ski) ski)
                    (ground (
                      arith,
                      lookup-insert j ch
                          (record (or_zero no_channel (lookup j b.channels)) { closed = true })
                          b.channels,
                    ))
                    f.rising.events;
            };
          })
  ]

  pub receives-Follows : (b : Bus) (j : ℕ) → Follows ch ski lo b → Follows ch ski lo (receive b j).0
  unfolding receive
  receives-Follows b j f = elim (List-cases (or_zero no_channel (lookup j b.channels)).buffer) [
    | inl e ↦ rw (e, receive) f
    | inr (x, rest, e) ↦
        rw (e, receive)
          (record {
            unique = f.unique;
            old = f.old;
            rising = record { scope = f.rising.scope; events = popped x rest e };
          })
  ]
    where
      popped :
          (x : Event) (rest : List Event)
          → (or_zero no_channel (lookup j b.channels)).buffer ≡ x ∷ rest
          → Rising lo
              (current b ski)
              ski
              (or_zero no_channel (
                lookup ch (
                  insert j
                    (record (or_zero no_channel (lookup j b.channels)) { buffer = rest })
                    b.channels))).buffer
      popped x rest e = elim (nat_key.same j ch) [
        | yes p ↦
            let whole : Rising lo (current b ski) ski (x ∷ rest) =
              subst (Rising lo (current b ski) ski)
                (subst (λ k. (or_zero no_channel (lookup k b.channels)).buffer ≡ x ∷ rest) p e)
                f.rising.events in
            subst (Rising lo (current b ski) ski)
              (ground (
                arith,
                lookup-insert j ch
                    (record (or_zero no_channel (lookup j b.channels)) { buffer = rest })
                    b.channels,
              ))
              (Rising-below lo x.revision (current b ski) ski rest (omega (arith, whole.0)) whole.2)
        | no n ↦
            subst (Rising lo (current b ski) ski)
              (ground (
                arith,
                lookup-insert_ne j ch
                    (record (or_zero no_channel (lookup j b.channels)) { buffer = rest }) b.channels
                    n,
              ))
              f.rising.events
      ]

  -- A subscriber's counters may change, but not its device.
  pub recounted :
      (b : Bus) (j : ℕ) (s t : Subscriber) (m : Store Text ℕ)
      → lookup j b.subscribers ≡ some s
      → t.ski ≡ s.ski
      → Follows ch ski lo b
      → Follows ch ski lo
          (record b { subscribers = insert j t b.subscribers; resyncs_by_device = m })
  recounted b j s t m e q f = record {
    unique = insert-IsUnique j t b.subscribers f.unique;
    old = f.old;
    rising = record { scope = scope; events = f.rising.events };
  }
    where
      scope : (x : Subscriber) → lookup ch (insert j t b.subscribers) ≡ some x → x.ski ≡ ski
      scope x h = elim (nat_key.same j ch) [
        | yes p ↦
            let now : s.ski ≡ ski =
              f.rising.scope s (subst (λ k. lookup k b.subscribers ≡ some s) p e) in
            ground (arith, lookup-insert j ch t b.subscribers)
        | no n ↦ f.rising.scope x (ground (arith, lookup-insert_ne j ch t b.subscribers n))
      ]

  pub resync-Follows :
      (b : Bus) (now : Time) (j : ℕ) (s : Subscriber)
      → Follows ch ski lo b
      → lookup j b.subscribers ≡ some s
      → Follows ch ski lo (resync b now j s).0
  unfolding resync
  resync-Follows b now j s f e =
      if_both (λ (x : Bus × Option Event). Follows ch ski lo x.0)
        (is_empty s.ski || s.pending_dropped == 0) f
        (if_both (λ (x : Bus × Option Event). Follows ch ski lo x.0)
          (not (length (or_zero no_channel (lookup j b.channels)).buffer == 0)
            && ltb s.resync_deferrals max_deferrals)
          (recounted b j s (record s { resync_deferrals = s.resync_deferrals + 1 })
            b.resyncs_by_device e refl f)
          (recounted b j s (record s { pending_dropped = 0; resync_deferrals = 0 })
            (bump s.ski b.resyncs_by_device) e refl f))

  pub takes-Follows :
      (b : Bus) (now : Time) (j : ℕ)
      → Follows ch ski lo b
      → Follows ch ski lo (take_pending_resync b now j).0
  unfolding take_pending_resync
  takes-Follows b now j f = elim (Option-cases (lookup j b.subscribers)) [
    | inl e ↦ rw (e, take_pending_resync) f
    | inr (s, e) ↦ rw (e, take_pending_resync) (resync-Follows b now j s f e)
  ]

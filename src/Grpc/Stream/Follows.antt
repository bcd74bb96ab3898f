-- ===== src/Grpc/Stream/Follows.antt =====
-- What a device's stream sends, by the revisions of the bus.
use eebus_ha_bridge.Prelude.{
  ℕ, ◌+◌, ◌^◌, ◌≡◌, refl, sym, subst, List, [], ◌∷◌, false, Bool, Option, none, some, length, arith,
  inl, inr, Option-cases, List-cases, ◌≤◌, ◌<◌, if_both, not, ◌&&◌, ◌||◌, ◌==◌, ltb,
}
use eebus_ha_bridge.Store.{lookup, or_zero}
use eebus_ha_bridge.Store.Unique.{IsUnique}
use eebus_ha_bridge.Ski.{Text, text_key, nat_key, is_empty, normalize_ski}
use eebus_ha_bridge.Time.{Time}
use eebus_ha_bridge.Bus.{
  Bus, Event, Subscriber, no_channel, receive, take_pending_resync, resync, subscribe_with_revision,
  subscribe_as, max_deferrals, resync_required,
}
use eebus_ha_bridge.Bus.Delivery.{port, buffer_of}
use eebus_ha_bridge.Bus.Follows.{receives-Follows, takes-Follows}
use eebus_ha_bridge.Bus.Rising.{Call, run, Rising, current, Follows, takes_resync, receives, apply}
use eebus_ha_bridge.Bus.Revisions.{run-Follows, current-apply, subscribed-Follows}
use eebus_ha_bridge.Grpc.Stream.{
  Round, sent, skipped, waiting, closed_stream, Schedule, converted, receive_round,
  revisioned_round, after_round, loop,
}

-- The event is of the device, and not older than the revision `lo`.
pub record IsRecent (ski : Text) (lo : ℕ) (e : Event) : Type 0 where
  pub of_device : e.ski ≡ ski
  pub recent : lo ≤ e.revision

Rising-le : (lo hi : ℕ) (ski : Text) (es : List Event) → Rising lo hi ski es → lo ≤ hi
Rising-le lo hi ski [] r = r
Rising-le lo hi ski (e ∷ es) r = omega (arith, Rising-le e.revision hi ski es r.2)

-- Every message sent comes from a recent event of the device.
pub data AllFrom (ski : Text) (lo : ℕ) {T : Type 0} (convert : Event → Option T)
    : List T → Type 0 where
  none_sent : AllFrom ski lo convert []
  one_sent :
      {t : T} {l : List T} (e : Event)
      → convert e ≡ some t
      → IsRecent ski lo e
      → AllFrom ski lo convert l
      → AllFrom ski lo convert (t ∷ l)

-- How often a schedule may raise a device's revision.
abbrev pub room : Schedule → ℕ
room [] = 0
room ((calls, now) ∷ l) = length calls + 2 + room l

module _ (ch : ℕ) (ski : Text) (lo : ℕ) (scoped : is_empty ski ≡ false) where
  run-le :
      (b : Bus) (cs : List Call)
      → current b ski + length cs < 2 ^ 64
      → current (run b cs) ski ≤ current b ski + length cs
  unfolding run
  run-le b [] w = omega arith
  run-le b (c ∷ cs) w = omega (
    arith,
    current-apply ch ski lo scoped b c (omega arith),
    run-le (apply b c) cs (omega (arith, current-apply ch ski lo scoped b c (omega arith))),
  )

  resync-IsRecent :
      (b : Bus) (now : Time) (s : Subscriber) {e : Event}
      → s.ski ≡ ski
      → lo ≤ current b ski
      → (resync b now ch s).1 ≡ some e
      → IsRecent ski lo e
  unfolding resync
  resync-IsRecent b now s {e} k l h =
      if_both Marks (is_empty s.ski || s.pending_dropped == 0) (λ p. cc)
        (if_both Marks
          (not (length (buffer_of (port b ch)) == 0) && ltb s.resync_deferrals max_deferrals)
          (λ p. cc) (λ p. marked p))
        h
    where
      Marks : Bus × Option Event → Type 0
      Marks z = z.1 ≡ some e → IsRecent ski lo e

      marker : Event
      marker = record {
        ski = s.ski;
        type = resync_required;
        revision = current b s.ski;
        occurred_at = now;
        dropped = s.pending_dropped;
      }

      marked : some marker ≡ some e → IsRecent ski lo e
      marked p =
          subst (IsRecent ski lo) {x = marker} {y = e} (cc)
            (record { of_device = k; recent = subst (λ t. lo ≤ current b t) (sym k) l })

  take-IsRecent :
      (b : Bus) (now : Time) {e : Event}
      → Follows ch ski lo b
      → (take_pending_resync b now ch).1 ≡ some e
      → IsRecent ski lo e
  unfolding take_pending_resync
  take-IsRecent b now {e} f h = elim (Option-cases (lookup ch b.subscribers)) [
    | inl n ↦ let h' : none ≡ some e = rw (← h, n, take_pending_resync) refl in cc
    | inr (s, n) ↦
        let h' : (resync b now ch s).1 ≡ some e = rw (← h, n, take_pending_resync) refl in
        resync-IsRecent b now s (f.rising.scope s n) (Rising-le lo _ ski _ f.rising.events) h'
  ]

  receive-IsRecent :
      (b : Bus) {e : Event} → Follows ch ski lo b → (receive b ch).1 ≡ some e → IsRecent ski lo e
  unfolding receive
  receive-IsRecent b {e} f h =
      elim (List-cases (or_zero no_channel (lookup ch b.channels)).buffer) [
        | inl n ↦ let h' : none ≡ some e = rw (← h, n, receive) refl in cc
        | inr (x, rest, n) ↦
            let h' : some x ≡ some e = rw (← h, n, receive) refl in
            let rising : Rising lo (current b ski) ski (x ∷ rest) =
              subst (Rising lo (current b ski) ski) n f.rising.events in
            subst (IsRecent ski lo) {x = x} {y = e} (cc)
              (record { of_device = rising.1; recent = omega arith })
      ]

  -- What a round leaves and what it sends.
  record Goes {T : Type 0} (convert : Event → Option T) (b : Bus) (z : Bus × Round T) : Type 0 where
    pub follows : Follows ch ski lo z.0
    pub slow : current z.0 ski ≤ current b ski + 2
    pub from : (t : T) → z.1 ≡ sent t → (e : Event) × (convert e ≡ some t) × IsRecent ski lo e

  converted-sent : {T : Type 0} (o : Option T) (t : T) → converted o ≡ sent t → o ≡ some t
  converted-sent none t h = cc
  converted-sent (some x) t h = cc

  receive_round-Goes :
      {T : Type 0} (convert : Event → Option T) (b b' : Bus)
      → Follows ch ski lo b'
      → current b' ski ≤ current b ski + 1
      → current b' ski + 1 < 2 ^ 64
      → Goes convert b (receive_round convert b' ch)
  unfolding receive_round apply
  receive_round-Goes {T} convert b b' f l w = elim (Option-cases (receive b' ch).1) [
    | inl n ↦
        rw (n, receive_round)
          (record {
            follows = f;
            slow = omega arith;
            from = λ t p. absurd (
                if_both (λ (r : Round T). r ≡ sent t → ⊥)
                  (or_zero no_channel (lookup ch b'.channels)).closed {x = closed_stream}
                  {y = waiting} (λ q. cc) (λ q. cc) p);
          })
    | inr (e, n) ↦
        rw (n, receive_round)
          (record {
            follows = receives-Follows ch ski lo scoped b' ch f;
            slow = slow;
            from = λ t p. (e, converted-sent (convert e) t p, receive-IsRecent b' f n);
          })
  ]
    where
      slow : current (receive b' ch).0 ski ≤ current b ski + 2
      slow = omega (arith, current-apply ch ski lo scoped b' (receives ch) w)

  revisioned_round-Goes :
      {T : Type 0} (convert : Event → Option T) (b : Bus) (now : Time)
      → Follows ch ski lo b
      → current b ski + 2 < 2 ^ 64
      → Goes convert b (revisioned_round convert b now ch)
  unfolding revisioned_round apply
  revisioned_round-Goes convert b now f w = elim (Option-cases (take_pending_resync b now ch).1) [
    | inl n ↦
        rw (n, revisioned_round)
          (receive_round-Goes convert b (take_pending_resync b now ch).0 kept slow
            (omega (arith, slow)))
    | inr (e, n) ↦
        rw (n, revisioned_round)
          (record {
            follows = kept;
            slow = omega (arith, slow);
            from = λ t p. (e, converted-sent (convert e) t p, take-IsRecent b now f n);
          })
  ]
    where
      slow : current (take_pending_resync b now ch).0 ski ≤ current b ski + 1
      slow = current-apply ch ski lo scoped b (takes_resync now ch) (omega arith)

      kept : Follows ch ski lo (take_pending_resync b now ch).0
      kept = takes-Follows ch ski lo scoped b now ch f

  after_round-AllFrom :
      {T : Type 0} (convert : Event → Option T) (send : T → Bool) (b b' : Bus) (r : Round T)
      (rest : Bus × List T)
      → ((t : T) → r ≡ sent t → (e : Event) × (convert e ≡ some t) × IsRecent ski lo e)
      → AllFrom ski lo convert rest.1
      → AllFrom ski lo convert (after_round send ch b' r rest).1
  unfolding after_round
  after_round-AllFrom {T} convert send b b' (sent t) rest from all =
      let (e, c, recent) = from t refl in
      if_both (λ (z : Bus × List T). AllFrom ski lo convert z.1) (send t) {x = (rest.0, t ∷ rest.1)}
        (one_sent e c recent all) (one_sent e c recent none_sent)
  after_round-AllFrom convert send b b' closed_stream rest from all = none_sent
  after_round-AllFrom convert send b b' skipped rest from all = all
  after_round-AllFrom convert send b b' waiting rest from all = all

  pub loop-AllFrom :
      {T : Type 0} (convert : Event → Option T) (send : T → Bool) (l : Schedule) (b : Bus)
      → Follows ch ski lo b
      → current b ski + room l < 2 ^ 64
      → AllFrom ski lo convert (loop (revisioned_round convert) send l b ch).1
  unfolding loop
  loop-AllFrom {T} convert send [] b f w = none_sent
  loop-AllFrom {T} convert send ((calls, now) ∷ l) b f w =
      let grown = run-le b calls (omega arith) in
      let goes =
        revisioned_round-Goes convert (run b calls) now
          (run-Follows ch ski lo scoped b calls f (omega arith)) (omega (arith, grown)) in
      let b' = (revisioned_round convert (run b calls) now ch).0 in
      after_round-AllFrom convert send b b' _ (loop (revisioned_round convert) send l b' ch)
        goes.from (loop-AllFrom convert send l b' goes.follows (omega (arith, grown, goes.slow)))

-- The loop of a subscription that gave the revision `lo`, whatever else is called meanwhile.
pub loop-subscribe_with_revision :
    {T : Type 0} (convert : Event → Option T) (send : T → Bool) (l : Schedule) (b : Bus) (k : Text)
    → is_empty (normalize_ski k) ≡ false
    → IsUnique b.subscribers
    → current b (normalize_ski k) + room l < 2 ^ 64
    → AllFrom
        (normalize_ski k)
        (current b (normalize_ski k))
        convert
        (loop
          (revisioned_round convert)
          send
          l
          (subscribe_with_revision b k).0
          (subscribe_with_revision b k).1).1
unfolding subscribe_with_revision subscribe_as
loop-subscribe_with_revision convert send l b k n u w =
    loop-AllFrom b.next_channel (normalize_ski k) (current b (normalize_ski k)) n convert send l
      (subscribe_with_revision b k).0 (subscribed-Follows b k n u) w

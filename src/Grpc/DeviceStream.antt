-- ===== src/Grpc/DeviceStream.antt =====
-- SubscribeDeviceState of eebus-bridge/internal/grpc/device_state_stream.go: the loop of the
-- revisioned subscription, with the messages of the device state stream.
pub mod Tests
use eebus_ha_bridge.Prelude.{
  not-false, ℕ, ◌+◌, ◌^◌, ◌<◌, ◌≤◌, ◌≡◌, refl, ap, subst, sym, Bool, true, false, Option, none,
  some, List, [], ◌∷◌, Result, ok, err, ◌>>=◌, All, arith, if_both, if_split, map, ◌∙◌,
  if_err-eq-ok, Result-cases, inl, inr, Option-cases, if◌then◌else◌, not,
}
use eebus_ha_bridge.Store.{or_zero, lookup}
use eebus_ha_bridge.Store.Unique.{IsUnique}
use eebus_ha_bridge.Ski.{Text, text_key, nat_key, normalize_ski, valid_ski, to_upper, is_empty}
use eebus_ha_bridge.Ski.Laws.{normalize_ski_of_valid_ski}
use eebus_ha_bridge.Time.{Time}
use eebus_ha_bridge.Bus.{Bus, Event, subscribe_with_revision, revision}
use eebus_ha_bridge.Bus.Rising.{current}
use eebus_ha_bridge.Grpc.Status.{
  Status, status, invalid_argument, ski_required, ski_malformed, DeviceRequest,
  require_explicit_ski, require_device_request,
}
use eebus_ha_bridge.Grpc.Envelope.{
  build_snapshot, new_resync_envelope, DeviceService, DeviceStateEvent, initial_event,
  convert_event, device_state_envelope, is_ignored,
}
use eebus_ha_bridge.Grpc.Events.{classify_device_state_event}
use eebus_ha_bridge.Grpc.Stream.{
  Schedule, Opened, open_revisioned, revisioned_loop, revisioned_round, loop,
}
use eebus_ha_bridge.Grpc.Stream.Follows.{
  AllFrom, none_sent, one_sent, IsRecent, room, loop-subscribe_with_revision,
}

module _ {C : Type 0} where
  unfoldable pub subscribe_device_state :
      DeviceService C
      → Option Bus
      → Option DeviceRequest
      → Time
      → (DeviceStateEvent C → Bool)
      → Schedule
      → Result Status (Bus × List (DeviceStateEvent C))
  subscribe_device_state s bus req now send l =
      open_revisioned bus req now (initial_event s) >>= λ o.
      ok (revisioned_loop (convert_event s) send l o)

  abbrev pub IsOfDevice : Text → ℕ → DeviceStateEvent C → Type 0
  IsOfDevice ski lo e = (e.ski ≡ ski) × (lo ≤ e.revision)

  convert_event-IsOfDevice :
      (s : DeviceService C) (ski : Text) (lo : ℕ) (e : Event) {t : DeviceStateEvent C}
      → convert_event s e ≡ some t
      → IsRecent ski lo e
      → IsOfDevice ski lo t
  unfolding convert_event device_state_envelope
  convert_event-IsOfDevice s ski lo e {t} h r =
      if_both (λ (o : Option (DeviceStateEvent C)). o ≡ some t → IsOfDevice ski lo t)
        (is_ignored (classify_device_state_event e.type)) {x = none}
        {y = some (device_state_envelope s e)} (λ q. absurd (cc))
        (λ q.
          subst (IsOfDevice ski lo) {x = device_state_envelope s e} {y = t} (cc)
            (r.of_device, r.recent))
        h

  initial_event-IsOfDevice :
      (s : DeviceService C) (ski : Text) (n : ℕ) (now : Time)
      → IsOfDevice ski n (initial_event s ski n now)
  unfolding initial_event new_resync_envelope
  initial_event-IsOfDevice s ski n now = elim (Option-cases (build_snapshot s.snapshot ski n)) [
    | inl e ↦ rw (e, initial_event) (refl, omega arith)
    | inr (c, e) ↦ rw (e, initial_event) (refl, omega arith)
  ]

  AllFrom-All :
      (s : DeviceService C) (ski : Text) (lo : ℕ) (l : List (DeviceStateEvent C))
      → AllFrom ski lo (convert_event s) l
      → All (IsOfDevice ski lo) l
  AllFrom-All s ski lo [] none_sent = tt
  AllFrom-All s ski lo (t ∷ l) (one_sent e h r rest) =
      (convert_event-IsOfDevice s ski lo e h r, AllFrom-All s ski lo l rest)

to_upper_idem : (c : ℕ) → to_upper (to_upper c) ≡ to_upper c
unfolding to_upper
to_upper_idem c = ground arith

map-to_upper_idem : (s : Text) → map to_upper (map to_upper s) ≡ map to_upper s
map-to_upper_idem [] = refl
map-to_upper_idem (c ∷ s) = cc (to_upper_idem c, map-to_upper_idem s)

map-to_upper-normalize_ski : (k : Text) → map to_upper (normalize_ski k) ≡ normalize_ski k
unfolding normalize_ski
map-to_upper-normalize_ski k = map-to_upper_idem _

normalize_ski_of_normal :
    (k : Text)
    → valid_ski (normalize_ski k) ≡ true
    → normalize_ski (normalize_ski k) ≡ normalize_ski k
normalize_ski_of_normal k v =
    (normalize_ski_of_valid_ski (normalize_ski k) v).0 ∙ map-to_upper-normalize_ski k

-- A SKI that a request may name explicitly is its own normal form.
require_explicit_ski-ok :
    (k : Text) {n : Text}
    → require_explicit_ski k ≡ ok n
    → (n ≡ normalize_ski k) × (normalize_ski n ≡ n) × (is_empty n ≡ false)
unfolding require_explicit_ski
require_explicit_ski-ok k {n} h =
    let checked : Result Status Text =
      if not (valid_ski (normalize_ski k))
      then err (status invalid_argument ski_malformed)
      else ok (normalize_ski k) in
    let (full, h₁) =
      if_err-eq-ok (is_empty (normalize_ski k)) (status invalid_argument ski_required) {r = checked}
        h in
    let (valid, h₂) =
      if_err-eq-ok (not (valid_ski (normalize_ski k))) (status invalid_argument ski_malformed)
        {r = ok (normalize_ski k)} h₁ in
    let normal = normalize_ski_of_normal k (not-false _ valid) in
    let same : n ≡ normalize_ski k = cc in (same, cc (same, normal), cc (same, full))

module _ {C : Type 0} (s : DeviceService C) (b : Bus) (now : Time)
    (send : DeviceStateEvent C → Bool) (l : Schedule) (unique : IsUnique b.subscribers) where
  open_stream-IsOfDevice :
      (ski : Text) (o : Opened (DeviceStateEvent C))
      → normalize_ski ski ≡ ski
      → is_empty ski ≡ false
      → current b ski + room l < 2 ^ 64
      → o ≡ record {
        bus = (subscribe_with_revision b ski).0;
        channel = (subscribe_with_revision b ski).1;
        first = initial_event s ski (current b ski) now;
      }
      → All (IsOfDevice ski (current b ski)) (revisioned_loop (convert_event s) send l o).1
  unfolding revisioned_loop
  open_stream-IsOfDevice ski o normal full w e = rw e (
      if_both (λ (z : Bus × List (DeviceStateEvent C)). All (IsOfDevice ski (current b ski)) z.1)
        (send first) {x = (events.0, first ∷ events.1)} (is_first, later) (is_first, tt))
    where
      first : DeviceStateEvent C
      first = initial_event s ski (current b ski) now

      events : Bus × List (DeviceStateEvent C)
      events =
          loop (revisioned_round (convert_event s)) send l (subscribe_with_revision b ski).0
            (subscribe_with_revision b ski).1

      is_first : IsOfDevice ski (current b ski) first
      is_first = initial_event-IsOfDevice s ski (current b ski) now

      later : All (IsOfDevice ski (current b ski)) events.1
      later = AllFrom-All s ski (current b ski) events.1 (
          subst (λ (n : Text). AllFrom n (current b n) (convert_event s) events.1) normal
            (loop-subscribe_with_revision (convert_event s) send l b ski (rw normal full) unique
              (rw normal w)))

-- Where the channels of the bus are distinct and the revisions of the device stay below 2^64
-- during the stream, every message that a device state stream sends is of the device that was
-- asked for, with a revision that is not below the one at the subscription, whatever else is
-- published meanwhile.
pub subscribe_device_state-IsOfDevice :
    {C : Type 0} (s : DeviceService C) (b : Bus) (k : Text) (now : Time)
    (send : DeviceStateEvent C → Bool) (l : Schedule) {out : Bus × List (DeviceStateEvent C)}
    → IsUnique b.subscribers
    → current b (normalize_ski k) + room l < 2 ^ 64
    → subscribe_device_state s (some b) (some (record { ski = k })) now send l ≡ ok out
    → All (IsOfDevice (normalize_ski k) (revision b k)) out.1
unfolding subscribe_device_state open_revisioned require_device_request revision
    subscribe_with_revision
subscribe_device_state-IsOfDevice {C} s b k now send l {out} u w h =
    elim (Result-cases (require_explicit_ski k)) [
      | inr (e, n) ↦
          let h' : err e ≡ ok out = rw (← h, n, subscribe_device_state) refl in absurd (cc)
      | inl (ski, n) ↦
          let (same, normal, full) = require_explicit_ski-ok k n in
          let o : Opened (DeviceStateEvent C) = record {
            bus = (subscribe_with_revision b ski).0;
            channel = (subscribe_with_revision b ski).1;
            first = initial_event s ski (subscribe_with_revision b ski).2 now;
          } in
          let h' : ◌≡◌ {A = Result Status (Bus × List (DeviceStateEvent C))}
              (ok (revisioned_loop (convert_event s) send l o)) (ok out) =
            rw (← h, n, subscribe_device_state) refl in
          let all =
            open_stream-IsOfDevice s b now send l u ski o normal full (rw same w)
              (rw normal refl) in
          subst (λ (x : Text). All (IsOfDevice x (current b x)) out.1) same
            (subst
              (λ (z : Bus × List (DeviceStateEvent C)). All (IsOfDevice ski (current b ski)) z.1)
              {x = revisioned_loop (convert_event s) send l o} {y = out} (cc) all)
    ]

-- ===== src/Grpc/Stream.antt =====
-- The loops that carry events from the bus to a gRPC stream: subscribeRevisionedEvents and
-- subscribeEvents of eebus-bridge/internal/grpc/adapter_helpers.go. A schedule says what else is
-- called on the bus before each round; where it ends, the stream's context is done. A round in
-- which the source would block is `waiting`.
pub mod Follows
pub mod Cleanup
use eebus_ha_bridge.Prelude.{
  ℕ, Bool, true, false, not, ◌&&◌, Option, none, some, List, [], ◌∷◌, if◌then◌else◌, Result, ok,
  err, ◌>>=◌,
}
use eebus_ha_bridge.Store.{lookup, or_zero}
use eebus_ha_bridge.Ski.{Text, nat_key, is_empty, eq_text, normalize_ski}
use eebus_ha_bridge.Time.{Time}
use eebus_ha_bridge.Bus.{
  Bus, Event, no_channel, subscribe, subscribe_with_revision, unsubscribe, receive,
  take_pending_resync,
}
use eebus_ha_bridge.Bus.Rising.{Call, run}
use eebus_ha_bridge.Grpc.Status.{
  Status, status, unavailable, bus_not_initialized, DeviceRequest, require_device_request,
  require_explicit_ski, normalize_read_ski,
}

module _ (T : Type 0) where
  pub data Round : Type 0 where
    sent : T → Round
    skipped closed_stream waiting : Round

  -- A stream that is open: the bus, its channel, and the first message.
  pub record Opened : Type 0 where
    pub bus : Bus
    pub channel : ℕ
    pub first : T

-- What other callers do before a round, and the time of the round.
abbrev pub Schedule : Type 0
Schedule = List (List Call × Time)

module _ {T : Type 0} where
  abbrev pub converted : Option T → Round T
  converted none = skipped
  converted (some t) = sent t

  -- `evt, ok := <-ch`, where it does not block.
  unfoldable pub receive_round : (Event → Option T) → Bus → ℕ → Bus × Round T
  receive_round convert b ch = elim ((receive b ch).1) [
    | some evt ↦ ((receive b ch).0, converted (convert evt))
    | none ↦
        (b, if (or_zero no_channel (lookup ch b.channels)).closed then closed_stream else waiting)
  ]

  -- A round of subscribeRevisionedEvents: the marker comes first.
  unfoldable pub revisioned_round : (Event → Option T) → Bus → Time → ℕ → Bus × Round T
  revisioned_round convert b now ch = elim ((take_pending_resync b now ch).1) [
    | some evt ↦ ((take_pending_resync b now ch).0, converted (convert evt))
    | none ↦ receive_round convert (take_pending_resync b now ch).0 ch
  ]

  -- `reqSKI != "" && NormalizeSKI(evt.SKI) != reqSKI`: events of other devices are passed over.
  unfoldable pub scoped : Text → (Event → Option T) → Event → Option T
  scoped req_ski convert evt =
      if not (is_empty req_ski) && not (eq_text (normalize_ski evt.ski) req_ski)
      then none
      else convert evt

  -- What a round leads to: `rest` is what the later rounds give.
  unfoldable pub after_round : (T → Bool) → ℕ → Bus → Round T → Bus × List T → Bus × List T
  after_round send ch b (sent t) rest =
      if send t then (rest.0, t ∷ rest.1) else (unsubscribe b ch, t ∷ [])
  after_round send ch b closed_stream rest = (unsubscribe b ch, [])
  after_round send ch b skipped rest = rest
  after_round send ch b waiting rest = rest

  -- The loop, with the deferred Unsubscribe; a message that `send` refuses ends it.
  unfoldable pub loop :
      (Bus → Time → ℕ → Bus × Round T) → (T → Bool) → Schedule → Bus → ℕ → Bus × List T
  loop round send [] b ch = (unsubscribe b ch, [])
  loop round send ((calls, now) ∷ l) b ch =
      let (b', r) = round (run b calls) now ch in after_round send ch b' r (loop round send l b' ch)

  -- subscribeRevisionedEvents up to its first message.
  unfoldable pub open_revisioned :
      Option Bus → Option DeviceRequest → Time → (Text → ℕ → Time → T) → Result Status (Opened T)
  open_revisioned bus req now initial = do
    req' ← require_device_request req
    ski ← require_explicit_ski req'.ski
    subscribed bus ski
    where
      subscribed : Option Bus → Text → Result Status (Opened T)
      subscribed none ski = err (status unavailable bus_not_initialized)
      subscribed (some b) ski =
          let (b', ch, revision) = subscribe_with_revision b ski in
          ok (record { bus = b'; channel = ch; first = initial ski revision now })

-- subscribeEvents up to its loop.
unfoldable pub open_events : Option Bus → Text → Result Status (Bus × ℕ × Text)
open_events none req_ski = err (status unavailable bus_not_initialized)
open_events (some b) req_ski = let (b', ch) = subscribe b in ok (b', ch, req_ski)

-- subscribeFilteredEvents up to its loop, with the SKI that the loop compares.
unfoldable pub open_filtered : Option Bus → Option DeviceRequest → Result Status (Bus × ℕ × Text)
open_filtered bus req = do
  req' ← require_device_request req
  ski ← normalize_read_ski req'.ski
  open_events bus ski

-- subscribeAllEvents
unfoldable pub open_all : Option Bus → Result Status (Bus × ℕ × Text)
open_all bus = open_events bus []

unfoldable pub filtered_loop :
    {T : Type 0} → (Event → Option T) → (T → Bool) → Schedule → Bus × ℕ × Text → Bus × List T
filtered_loop convert send l (b, ch, req_ski) =
    loop (λ b' _ ch'. receive_round (scoped req_ski convert) b' ch') send l b ch

unfoldable pub revisioned_loop :
    {T : Type 0} → (Event → Option T) → (T → Bool) → Schedule → Opened T → Bus × List T
revisioned_loop convert send l o =
    if send o.first
    then (let (b, events) = loop (revisioned_round convert) send l o.bus o.channel in
        (b, o.first ∷ events))
    else (unsubscribe o.bus o.channel, o.first ∷ [])

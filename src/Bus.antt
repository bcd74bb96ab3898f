-- ===== src/Bus.antt =====
-- The event bus: eebus-bridge/internal/eebus/eventbus.go and events.go. A channel is a number, its
-- buffer a list, oldest event first; `receive` is what a consumer does. A call of the bus holds its
-- lock, so calls are atomic. Counters are uint64 and wrap.
pub mod Delivery
pub mod Rising
pub mod Follows
pub mod Revisions
pub mod Resync
pub mod Tests
use eebus_ha_bridge.Prelude.{
  ℕ, suc, ◌+◌, ◌%◌, ◌^◌, List, [], ◌∷◌, ◌++◌, Bool, true, false, not, ◌&&◌, ◌||◌, Option, none,
  some, if◌then◌else◌, ltb, ◌==◌, length, ite,
}
use eebus_ha_bridge.Store.{Store, Key, lookup, insert, delete, or_zero}
use eebus_ha_bridge.Ski.{Text, text_key, nat_key, Text-discrete, normalize_ski, is_empty}
use eebus_ha_bridge.Time.{Time, zero_time}

-- EventType
pub data EventType : Type 0 where
  device_connected device_disconnected device_trust_removed device_classification_updated
        discovery_updated pairing_updated resync_required monitoring_power_updated
        monitoring_power_per_phase_updated monitoring_energy_consumed_updated
        monitoring_energy_produced_updated monitoring_currents_per_phase_updated
        monitoring_voltage_per_phase_updated monitoring_frequency_updated
        monitoring_use_case_support_updated monitoring_flow_temperature_updated
        monitoring_return_temperature_updated monitoring_device_operating_state_updated
        lpc_limit_updated lpc_failsafe_power_updated lpc_failsafe_duration_updated
        lpc_use_case_support_updated lpc_heartbeat_updated dhw_temperature_updated
        dhw_monitoring_support_updated dhw_setpoint_updated dhw_use_case_support_updated
        dhw_system_function_updated dhw_system_function_support_updated room_temperature_updated
        room_monitoring_support_updated outdoor_temperature_updated
        outdoor_monitoring_support_updated room_heating_setpoint_updated
        room_heating_use_case_support_updated room_heating_system_function_updated
        room_heating_system_function_support_updated ohpcf_use_case_support_updated
        ohpcf_consumption_state_updated ohpcf_consumption_stoppable_updated
        ohpcf_consumption_pausable_updated ohpcf_consumption_start_time_updated
        ohpcf_requested_power_estimate_updated ohpcf_requested_power_max_updated
        ohpcf_minimal_run_duration_updated ohpcf_minimal_pause_duration_updated
        mgcp_consumer_updated vapd_consumer_updated vabd_consumer_updated :
      EventType

pub record Event : Type 0 where
  pub ski : Text
  pub type : EventType
  pub revision : ℕ  -- uint64
  pub occurred_at : Time
  pub dropped : ℕ  -- uint64

-- Event{SKI: ski, Type: type}
abbrev pub event : Text → EventType → Event
event ski type = record {
  ski = ski;
  type = type;
  revision = 0;
  occurred_at = zero_time;
  dropped = 0;
}

-- eventSubscriber
pub record Subscriber : Type 0 where
  pub ski : Text
  pub dropped_total : ℕ  -- uint64
  pub pending_dropped : ℕ  -- uint64
  pub resync_deferrals : ℕ  -- uint8, at most 64

pub record Channel : Type 0 where
  pub buffer : List Event
  pub closed : Bool

abbrev pub no_channel : Channel
no_channel = record { buffer = []; closed = false }

pub record Bus : Type 0 where
  pub subscribers : Store ℕ Subscriber
  pub channels : Store ℕ Channel
  pub next_channel : ℕ
  pub revisions : Store Text ℕ
  pub dropped_by_device : Store Text ℕ
  pub resyncs_by_device : Store Text ℕ
  pub dropped_unresolved : ℕ

unfoldable pub new_bus : Bus
new_bus = record {
  subscribers = [];
  channels = [];
  next_channel = 0;
  revisions = [];
  dropped_by_device = [];
  resyncs_by_device = [];
  dropped_unresolved = 0;
}

abbrev pub channel_capacity : ℕ
channel_capacity = 64

-- pendingResyncMaxDeferrals
abbrev pub max_deferrals : ℕ
max_deferrals = 64

-- Arithmetic of uint64.
abbrev pub u64 : ℕ → ℕ
u64 n = n % 2 ^ 64

-- `m[k]++` on a map of counters.
abbrev pub bump : Text → Store Text ℕ → Store Text ℕ
bump k m = insert k (u64 (or_zero 0 (lookup k m) + 1)) m

abbrev pub new_subscriber : Text → Subscriber
new_subscriber ski = record {
  ski = ski;
  dropped_total = 0;
  pending_dropped = 0;
  resync_deferrals = 0;
}

-- The part that Subscribe and SubscribeWithRevision share.
unfoldable pub subscribe_as : Bus → Text → Bus × ℕ
subscribe_as b ski = (
  record b {
    channels = insert next_channel no_channel channels;
    subscribers = insert next_channel (new_subscriber ski) subscribers;
    next_channel = suc next_channel;
  },
  next_channel,
)
  where
    open b use {channels, subscribers, next_channel}

unfoldable pub subscribe : Bus → Bus × ℕ
subscribe b = subscribe_as b []

-- The bus, the channel, and the revision at the time of the subscription.
unfoldable pub subscribe_with_revision : Bus → Text → Bus × ℕ × ℕ
subscribe_with_revision b ski =
    let ski' = normalize_ski ski in
    let (b', ch) = subscribe_as b ski' in (b', ch, or_zero 0 (lookup ski' b.revisions))

unfoldable pub unsubscribe : Bus → ℕ → Bus
unsubscribe b ch = elim (lookup ch b.subscribers) [
  | none ↦ b
  | some _ ↦ record b {
    subscribers = delete ch b.subscribers;
    channels =
        insert ch (record (or_zero no_channel (lookup ch b.channels)) { closed = true }) b.channels;
  }
]

abbrev pub same_text : Text → Text → Bool
same_text a b = ite (Text-discrete a b) true false

-- `subscriber.ski != "" && subscriber.ski != evt.SKI`
abbrev pub is_other : Text → Text → Bool
is_other scope ski = not (is_empty scope) && not (same_text scope ski)

-- One round of the loop of Publish: a send that does not block, or a count of the drop.
unfoldable pub deliver : Event → ℕ → Subscriber → Bus → Bus
deliver evt ch subscriber b =
    let channel = or_zero no_channel (lookup ch b.channels) in
    if is_other subscriber.ski evt.ski
    then b
    else if ltb (length channel.buffer) channel_capacity
    then record b {
      channels = insert ch (record channel { buffer = channel.buffer ++ evt ∷ [] }) b.channels;
    }
    else record b {
      subscribers =
          insert ch
            (record subscriber {
              dropped_total = u64 (subscriber.dropped_total + 1);
              pending_dropped = u64 (subscriber.pending_dropped + 1);
            })
            b.subscribers;
      dropped_by_device = bump evt.ski b.dropped_by_device;
    }

unfoldable pub publish_loop : Event → Store ℕ Subscriber → Bus → Bus
publish_loop evt [] b = b
publish_loop evt ((ch, subscriber) ∷ subscribers) b =
    publish_loop evt subscribers (deliver evt ch subscriber b)

abbrev pub is_discovery : EventType → Bool
is_discovery discovery_updated = true
is_discovery _ = false

unfoldable pub publish : Bus → Time → Event → Bus
publish b now evt =
    let ski' = normalize_ski evt.ski in
    let revisions' = bump ski' b.revisions in
    let evt' : Event = record evt {
      ski = ski';
      revision = or_zero 0 (lookup ski' revisions');
      occurred_at = now;
    } in
    if is_empty ski' && not (is_discovery evt.type)
    then record b { dropped_unresolved = u64 (b.dropped_unresolved + 1) }
    else publish_loop evt' b.subscribers (record b { revisions = revisions' })

-- `<-ch`, where an event is buffered.
unfoldable pub receive : Bus → ℕ → Bus × Option Event
receive b ch =
    let channel = or_zero no_channel (lookup ch b.channels) in
    elim channel.buffer [
      | [] ↦ (b, none)
      | evt ∷ rest ↦ (
        record b { channels = insert ch (record channel { buffer = rest }) b.channels },
        some evt,
      )
    ]

-- TakePendingResync, for a live subscriber.
unfoldable pub resync : Bus → Time → ℕ → Subscriber → Bus × Option Event
resync b now ch subscriber =
    let buffer = (or_zero no_channel (lookup ch b.channels)).buffer in
    let marker : Event = record {
      ski = subscriber.ski;
      type = resync_required;
      revision = or_zero 0 (lookup subscriber.ski b.revisions);
      occurred_at = now;
      dropped = subscriber.pending_dropped;
    } in
    if is_empty subscriber.ski || subscriber.pending_dropped == 0
    then (b, none)
    else if not (length buffer == 0) && ltb subscriber.resync_deferrals max_deferrals
    then (
      record b {
        subscribers =
            insert ch (record subscriber { resync_deferrals = subscriber.resync_deferrals + 1 })
              b.subscribers;
      },
      none,
    )
    else (
      record b {
        subscribers =
            insert ch (record subscriber { pending_dropped = 0; resync_deferrals = 0 })
              b.subscribers;
        resyncs_by_device = bump subscriber.ski b.resyncs_by_device;
      },
      some marker,
    )

unfoldable pub take_pending_resync : Bus → Time → ℕ → Bus × Option Event
take_pending_resync b now ch = elim (lookup ch b.subscribers) [
  | none ↦ (b, none)
  | some subscriber ↦ resync b now ch subscriber
]

unfoldable pub subscriber_dropped_events : Bus → ℕ → ℕ
subscriber_dropped_events b ch = elim (lookup ch b.subscribers) [
  | none ↦ 0
  | some subscriber ↦ subscriber.dropped_total
]

unfoldable pub revision : Bus → Text → ℕ
revision b ski = or_zero 0 (lookup (normalize_ski ski) b.revisions)

unfoldable pub dropped_unresolved_events : Bus → ℕ
dropped_unresolved_events b = b.dropped_unresolved

-- EventTransportSnapshot
pub record EventTransportSnapshot : Type 0 where
  pub revision : ℕ
  pub dropped_events : ℕ
  pub resync_count : ℕ
  pub unresolved_events : ℕ

unfoldable pub diagnostics : Bus → Text → EventTransportSnapshot
diagnostics b ski =
    let ski' = normalize_ski ski in
    record {
      revision = or_zero 0 (lookup ski' b.revisions);
      dropped_events = or_zero 0 (lookup ski' b.dropped_by_device);
      resync_count = or_zero 0 (lookup ski' b.resyncs_by_device);
      unresolved_events = b.dropped_unresolved;
    }

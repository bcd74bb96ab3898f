-- ===== src/ProviderSnapshot.antt =====
-- The state of a provider's sample: providerSnapshotStore and ProviderValidity of
-- eebus-bridge/internal/usecases/provider_snapshot.go. Each method holds the store's lock. The
-- timer that a commit starts calls back with its version, at any time and even after it was
-- stopped; it is in the state as its version and the time that it is set for.
pub mod Versions
pub mod Reading
pub mod Tests
use eebus_ha_bridge.Prelude.{
  ℕ, ◌+◌, ◌%◌, ◌^◌, Bool, true, false, not, ◌&&◌, ◌||◌, ◌==◌, Option, none, some, if◌then◌else◌,
  pos,
}
use eebus_ha_bridge.Store.{is_some}
use eebus_ha_bridge.Time.{Time, Duration, zero_time, is_zero, before, sub}

pub data ProviderSnapshotState : Type 0 where
  empty current_state expired closed_state : ProviderSnapshotState

pub record ProviderSnapshotDiagnostics : Type 0 where
  pub state : ProviderSnapshotState
  pub observed_at : Time
  pub valid_until : Time

pub record ProviderValidity : Type 0 where
  pub observed_at : Time
  pub valid_until : Time
  pub invalid : Bool

-- ProviderValidity.Current
unfoldable pub is_current : ProviderValidity → Time → Bool
is_current v now =
    not v.invalid
    && not (is_zero v.observed_at)
    && not (before now v.observed_at)
    && before now v.valid_until

-- A running timer: the version that it calls back with, and its delay.
pub record ExpiryTimer : Type 0 where
  pub version : ℕ
  pub delay : Duration

pub record ProviderSnapshotStore (T : Type 0) : Type 0 where
  pub snapshot : Option T
  pub version : ℕ  -- uint64
  pub timer : Option ExpiryTimer
  pub closed : Bool

-- ErrProviderClosed
pub data ProviderError : Type 0 where
  provider_closed : ProviderError

abbrev pub next_version : ℕ → ℕ
next_version n = (n + 1) % 2 ^ 64

-- The delay is time.Until(validUntil), at least 0.
abbrev pub delay_until : Time → Time → Duration
delay_until valid_until now = if before valid_until now then pos 0 else sub valid_until now

module _ {T : Type 0} where
  -- The zero value, which the providers start with.
  unfoldable pub new_store : ProviderSnapshotStore T
  new_store = record { snapshot = none; version = 0; timer = none; closed = false }

  unfoldable pub commit :
      ProviderSnapshotStore T → Time → T → Time → ProviderSnapshotStore T × Option ProviderError
  commit s now value valid_until = if s.closed then (s, some provider_closed) else (
    record s {
      version = next_version s.version;
      snapshot = some value;
      timer =
          some (record { version = next_version s.version; delay = delay_until valid_until now });
    },
    none,
  )

  unfoldable pub invalidate :
      ProviderSnapshotStore T → ProviderSnapshotStore T × Option ProviderError
  invalidate s =
      if s.closed
      then (s, some provider_closed)
      else (record s { timer = none; version = next_version s.version; snapshot = none }, none)

  -- `current`; the copy that `clone` makes is the value itself.
  unfoldable pub current : ProviderSnapshotStore T → Time → (T → Time → Bool) → Option T
  current s now valid = elim (s.snapshot) [
    | none ↦ none
    | some value ↦ if s.closed || not (valid value now) then none else some value
  ]

  unfoldable pub should_expire : ProviderSnapshotStore T → ℕ → Time → (T → Time → Bool) → Bool
  should_expire s version now valid = elim (s.snapshot) [
    | none ↦ false
    | some value ↦ not s.closed && s.version == version && not (valid value now)
  ]

  unfoldable pub clear_expired : ProviderSnapshotStore T → ℕ → ProviderSnapshotStore T
  clear_expired s version =
      if s.closed || not (s.version == version) || not (is_some s.snapshot)
      then s
      else record s { timer = none; version = next_version s.version; snapshot = none }

  unfoldable pub close : ProviderSnapshotStore T → ProviderSnapshotStore T
  close s =
      if s.closed
      then s
      else record { closed = true; version = next_version s.version; snapshot = none; timer = none }

  unfoldable pub snapshot_version : ProviderSnapshotStore T → ℕ
  snapshot_version s = s.version

  unfoldable pub is_closed : ProviderSnapshotStore T → Bool
  is_closed s = s.closed

  unfoldable pub diagnostics :
      ProviderSnapshotStore T → Time → (T → ProviderValidity) → ProviderSnapshotDiagnostics
  diagnostics s now validity =
      if s.closed
      then record { state = closed_state; observed_at = zero_time; valid_until = zero_time }
      else elim (s.snapshot) [
        | none ↦ record { state = empty; observed_at = zero_time; valid_until = zero_time }
        | some value ↦ record {
          state = if is_current (validity value) now then current_state else expired;
          observed_at = (validity value).observed_at;
          valid_until = (validity value).valid_until;
        }
      ]

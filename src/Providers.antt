-- ===== src/Providers.antt =====
-- The providers of grid, PV and battery data: mgcp.go, vapd.go, vabd.go, provider_availability.go
-- and the measurement publishing of provider_snapshot.go, in eebus-bridge/internal/usecases. The
-- three files have one code with other names: `ProviderKind` says what they differ in. `W` is what
-- eebus-go's measurement server holds and `update` its UpdateDataForIds; each call holds the
-- provider's publish lock, so calls are atomic.
pub mod Kinds
pub mod Runs
pub mod Announced
pub mod Closed
pub mod Tests
use eebus_ha_bridge.Prelude.{
  ℕ, Bool, true, false, not, ◌&&◌, Option, none, some, List, [], ◌∷◌, ◌++◌, if◌then◌else◌, Result,
  ok, err, ◌>>=◌,
}
use eebus_ha_bridge.Time.{Time}
use eebus_ha_bridge.ProviderSnapshot.{
  ProviderSnapshotStore, ProviderValidity, ProviderSnapshotDiagnostics, new_store, commit,
  invalidate, current, should_expire, clear_expired, close, is_closed, is_current, diagnostics,
}

-- providerAvailability. `announced` are the calls of `update`, the last one first.
pub record ProviderAvailability : Type 0 where
  pub bound : Bool  -- update is not nil
  pub known : Bool
  pub available : Bool
  pub announced : List Bool

abbrev pub no_availability : ProviderAvailability
no_availability = record { bound = false; known = false; available = false; announced = [] }

unfoldable pub bind : ProviderAvailability → ProviderAvailability
bind a = record a { bound = true }

abbrev pub same_flag : Bool → Bool → Bool
same_flag true b = b
same_flag false b = not b

unfoldable pub set_available : Bool → ProviderAvailability → ProviderAvailability
set_available available a = if a.known && same_flag a.available available then a else record a {
  known = true;
  available = available;
  announced = if a.bound then available ∷ a.announced else a.announced;
}

pub data PublishError (E : Type 0) : Type 0 where
  closed_provider not_initialized : PublishError E
  server_error : E → PublishError E

unfoldable pub as_server_error : {E : Type 0} → Option E → Option (PublishError E)
as_server_error none = none
as_server_error (some e) = some (server_error e)

-- MeasurementDataForID: a value with state Normal, or none with state Error.
pub record MeasurementData (F : Type 0) : Type 0 where
  pub id : ℕ
  pub value : Option F

-- providerMeasurementValue: a pointer to an id and a pointer to a value.
pub record ProviderMeasurementValue (F : Type 0) : Type 0 where
  pub id : Option ℕ
  pub value : Option F

-- The loop of publishValues; an id that is nil ends it.
unfoldable pub measurement_data :
    {F : Type 0} → List (ProviderMeasurementValue F) → Option (List (MeasurementData F))
measurement_data [] = some []
measurement_data {F} (v ∷ l) = with_id v.id (measurement_data l)
  where
    with_id : Option ℕ → Option (List (MeasurementData F)) → Option (List (MeasurementData F))
    with_id none rest = none
    with_id (some id) none = none
    with_id (some id) (some rest) = some (record { id = id; value = v.value } ∷ rest)

-- The loop of invalidate: the same, with no values.
abbrev pub no_values : {F : Type 0} → List (Option ℕ) → List (ProviderMeasurementValue F)
no_values [] = []
no_values (id ∷ l) = record { id = id; value = none } ∷ no_values l

-- What a provider publishes of a snapshot, with its ids, and when the snapshot holds.
pub record ProviderKind (F S : Type 0) : Type 0 where
  pub values : S → List (ProviderMeasurementValue F)
  pub ids : List (Option ℕ)
  pub validity : S → ProviderValidity

pub record Provider (W S : Type 0) : Type 0 where
  pub meas : Option W  -- `none` before AddFeatures
  pub snapshots : ProviderSnapshotStore S
  pub available : ProviderAvailability

module _ {W F E S : Type 0} (update : W → List (MeasurementData F) → W × Option E) where
  -- UpdateDataForIds through publishData, for data that has all its ids.
  unfoldable pub publish_data :
      Provider W S → Option (List (MeasurementData F)) → Provider W S × Option (PublishError E)
  publish_data p none = (p, some not_initialized)
  publish_data p (some l) = elim (p.meas) [
    | none ↦ (p, some not_initialized)
    | some w ↦ (record p { meas = some (update w l).0 }, as_server_error (update w l).1)
  ]

  unfoldable pub publish_values :
      Provider W S → List (ProviderMeasurementValue F) → Provider W S × Option (PublishError E)
  publish_values p values = publish_data p (measurement_data values)

  -- publishValue
  unfoldable pub publish_value :
      Provider W S → Option ℕ → F → Provider W S × Option (PublishError E)
  publish_value p id value = publish_values p (record { id = id; value = some value } ∷ [])

  -- serializedMeasurementPublisher.invalidate
  unfoldable pub invalidate_values :
      Provider W S → List (Option ℕ) → Provider W S × Option (PublishError E)
  invalidate_values p ids = publish_values p (no_values ids)

  abbrev pub set_flag : Bool → Provider W S → Provider W S
  set_flag b p = record p { available = set_available b p.available }

  -- publishIfOpen
  unfoldable pub publish_if_open :
      Provider W S
      → (Provider W S → Provider W S × Option (PublishError E))
      → Provider W S × Option (PublishError E)
  publish_if_open p write = if is_closed p.snapshots then (p, some closed_provider) else write p

  module _ (kind : ProviderKind F S) where
    -- What follows the write of an invalid sample, and of a valid one.
    unfoldable pub after_invalid :
        Provider W S × Option (PublishError E) → Provider W S × Option (PublishError E)
    after_invalid (p, some e) = (p, some e)
    after_invalid (p, none) =
        (record (set_flag false p) { snapshots = (invalidate p.snapshots).0 }, none)

    unfoldable pub after_valid :
        Time → S → Provider W S × Option (PublishError E) → Provider W S × Option (PublishError E)
    after_valid now snapshot (p, some e) = (p, some e)
    after_valid now snapshot (p, none) = (
      record (set_flag true p) {
        snapshots = (commit p.snapshots now snapshot (kind.validity snapshot).valid_until).0;
      },
      none,
    )

    -- PublishGridSnapshot, PublishPVSnapshot, PublishBatterySnapshot. The store is open here, so
    -- that its own test of `closed` has no error to give.
    unfoldable pub publish_snapshot :
        Provider W S → Time → S → Provider W S × Option (PublishError E)
    publish_snapshot p now snapshot =
        if is_closed p.snapshots
        then (p, some closed_provider)
        else if (kind.validity snapshot).invalid
        then after_invalid (invalidate_values p kind.ids)
        else after_valid now snapshot (publish_values p (kind.values snapshot))

    abbrev pub is_valid_at : S → Time → Bool
    is_valid_at snapshot at = is_current (kind.validity snapshot) at

    unfoldable pub current_snapshot : Provider W S → Time → Option S
    current_snapshot p now = current p.snapshots now is_valid_at

    unfoldable pub after_expiry : ℕ → Provider W S × Option (PublishError E) → Provider W S
    after_expiry version (p, some e) = p
    after_expiry version (p, none) =
        set_flag false (record p { snapshots = clear_expired p.snapshots version })

    -- expireGridSnapshot and its like: the callback of the timer of `version`.
    unfoldable pub expire_snapshot : Provider W S → ℕ → Time → Provider W S
    expire_snapshot p version now =
        if not (should_expire p.snapshots version now is_valid_at)
        then p
        else after_expiry version (invalidate_values p kind.ids)

    unfoldable pub close_provider : Provider W S → Provider W S
    close_provider p = set_flag false (record p { snapshots = close p.snapshots })

    unfoldable pub provider_diagnostics : Provider W S → Time → ProviderSnapshotDiagnostics
    provider_diagnostics p now = diagnostics p.snapshots now kind.validity

-- The constructor and AddUseCase: bind, then the flag that eebus-go sets is taken back.
unfoldable pub new_provider : {W S : Type 0} → Provider W S
new_provider = record { meas = none; snapshots = new_store; available = bind no_availability }

unfoldable pub add_use_case : {W S : Type 0} → Provider W S → Provider W S
add_use_case p = record p { available = set_available false p.available }

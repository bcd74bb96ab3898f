-- ===== src/Lib.antt =====
-- A model of eebus-bridge, the Go service that connects EEBUS devices to Home Assistant, and the
-- theorems that make its core correct. Paths are those of the repository.
--
-- The service's core is in eebus-bridge/internal/eebus. Callbacks of the EEBUS service write a
-- registry of devices and publish on an event bus; a supervisor reads the registry at every tick,
-- reconnects stale devices, and asks for a restart of the process when no device is left that can
-- be recovered. The files of the model:
--
-- - Ski: NormalizeSKI and ShortSKI of registry.go, the keys of every map; also validSKI of
--   eebus-bridge/internal/grpc/validate.go and isCanonicalSKI of
--   eebus-bridge/internal/config/config.go.
-- - Registry: DeviceRegistry. State holds its records, Health the operations of registry.go on
--   connections (MarkConnected is mark_connected, and so on), Catalog those on devices and
--   entities, Capabilities those of capabilities.go. Operations makes each call that changes a
--   registry a constructor, so that theorems speak of all sequences of calls.
-- - Bus: EventBus of eventbus.go, with Event of events.go.
-- - Recovery: RecoverySupervisor of recovery.go. The registry and the controller it calls are
--   parameters, the two interfaces of the Go code.
-- - Callbacks: callbacks.go and trust.go, which call the registry and the bus in turn.
-- - ProviderSnapshot: providerSnapshotStore of eebus-bridge/internal/usecases/provider_snapshot.go,
--   the sample that a grid, PV or battery provider holds until it expires.
-- - Providers: the providers of eebus-bridge/internal/usecases that hold such a sample, mgcp.go,
--   vapd.go and vabd.go (PublishGridSnapshot is publish_snapshot, expireGridSnapshot is
--   expire_snapshot), with provider_availability.go.
-- - UseCases: entity.go and classification.go of the same folder: which remote entity a request is
--   for, and the requests of a device's classification.
-- - Config: eebus-bridge/internal/config/config.go, from reading the file (Loading) over the
--   variables of the environment (Overrides) to Validate. Address and Numbers write out what it
--   uses of Go's net and strconv.
-- - Grpc: eebus-bridge/internal/grpc. Status and Stream are adapter_helpers.go, Errors errors.go,
--   Validate validate.go, Push grid_service.go and visualization_service.go. Events, Envelope and
--   DeviceStream are device_state_stream.go: a stream is a client of the bus. Handler is what a
--   handler may do: read and write the registry, give commands to a use case, and fail; Lpc is
--   lpc_service.go, Compressor and Ohpcf are ohpcf_service.go.
-- - Float: float64 as far as it is compared.
-- - Store, Texts, Time, Prelude: maps as association lists, the sorts, time.Time and
--   time.Duration, and what all files share.
--
-- A Go map is an association list without duplicate keys, in an order that stands for the order
-- that an iteration happens to take. Each call holds the locks that make it atomic, so the model
-- composes whole calls, and the clock is an argument of the call, one reading for all the readings
-- in it. Counters that are uint64 wrap; the attempts of the supervisor stay below its maximum, so
-- they are plain numbers. Durations are integers of nanoseconds, saturated by Sub and doubled
-- modulo 2^64 by the backoff. The only fuel is that of the decimal printing of an address part n,
-- which has n + 1 digits at most. Texts are lists of ASCII codes.
--
-- A stream runs along a schedule: the calls that others make on the bus before each of its rounds.
-- Its end is the end of the client's context. A service's use case is a record of what it answers,
-- and the commands that it is given are a list in the state.
--
-- Not modelled: log lines and the texts of messages, the gRPC services of monitoring, hot water,
-- heating and devices, the wrappers of the use cases of eebus-go and the set-up of a provider's
-- features, start and stop of the process, and all that eebus-go, ship-go and spine-go do, which
-- enters as the arguments of the callbacks and as parameters.
pub mod Prelude
pub mod Store
pub mod Ski
pub mod Texts
pub mod Time
pub mod Registry
pub mod Bus
pub mod Recovery
pub mod Callbacks
pub mod ProviderSnapshot
pub mod Config
pub mod Float
pub mod Providers
pub mod UseCases
pub mod Grpc

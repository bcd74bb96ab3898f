-- ===== src/Grpc.antt =====
-- The gRPC side of the bridge: eebus-bridge/internal/grpc.
pub mod Status
pub mod Errors
pub mod Validate
pub mod Push
pub mod Events
pub mod Envelope
pub mod Stream
pub mod DeviceStream
pub mod Handler
pub mod Lpc
pub mod Compressor
pub mod Ohpcf

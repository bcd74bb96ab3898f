-- ===== src/Registry.antt =====
-- The device registry: eebus-bridge/internal/eebus/registry.go and capabilities.go.
pub mod State
pub mod Capabilities
pub mod Health
pub mod Catalog
pub mod Operations

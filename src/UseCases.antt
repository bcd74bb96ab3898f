-- ===== src/UseCases.antt =====
-- What the use-case wrappers of eebus-bridge/internal/usecases share.
pub mod Entity
pub mod Manufacturer
pub mod Classification

-- ===== src/Crd.antt =====
-- The resource documents of the operations API (config/crd/ops/v1alpha1).
pub mod Types
pub mod Fqn
pub mod Validator
pub mod Sink
pub mod Loader
pub mod Policy
pub mod Convert
pub mod Sample

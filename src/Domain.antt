-- ===== src/Domain.antt =====
-- The domain model (domain/model): its entities, and the protection policy of clusters.
pub mod Model
pub mod Protection
mod Tests

-- ===== src/Orchestration.antt =====
-- src/orchestration: the layer that routes a query to the paradigms and packs what they return.
pub mod Entities
pub mod Budget
pub mod Assembly
pub mod Cascade
pub mod AccessCounter
pub mod Stores
pub mod Tiering
pub mod Sync
pub mod Freshness
pub mod Sources
pub mod Warmed

-- ===== src/Farm.antt =====
-- crates/farm: the names of hubs, the placement of a new hub and the supervision of hubs.
pub mod Slug
pub mod Placement
pub mod Monitor
pub mod Heartbeats
mod Examples

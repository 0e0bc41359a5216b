-- ===== src/Identity.antt =====
-- The identity crate: crates/identity.
pub mod Wire
pub mod Pow
pub mod Voice
mod Examples

-- ===== src/Hub/Permissions.antt =====
-- crates/hub/src/permissions.rs: who may do what, hub-wide and on a channel.
pub mod Catalogue
pub mod Caller
pub mod Cascade
pub mod Resolve

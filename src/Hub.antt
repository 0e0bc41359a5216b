-- ===== src/Hub.antt =====
-- The hub: crates/hub.
pub mod Db
pub mod Permissions
pub mod Roles
pub mod Moderation
pub mod Overwrites
pub mod Invites
pub mod BanEvasion
pub mod Channels
pub mod VoiceLoss
pub mod Acts
mod Sample
mod Examples

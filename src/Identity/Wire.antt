-- ===== src/Identity/Wire.antt =====
-- crates/identity/src/wire.rs: the bytes that identities sign. A text is the list of its UTF-8
-- bytes, a function that extends `buf` is the list that it appends.
pub mod Encode
pub mod Messages
pub mod Kinds
pub mod Domains
pub mod Fields
pub mod Injective

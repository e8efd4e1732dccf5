-- ===== src/Proto.antt =====
-- The wire format: crates/dnser-proto.
pub mod Errors
pub mod Codes
pub mod Utf8
pub mod Reader
pub mod Writer
pub mod Name
pub mod Codec
pub mod Header
pub mod Question
pub mod Rdata
pub mod Record
pub mod Message

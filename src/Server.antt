-- ===== src/Server.antt =====
-- The request handling of crates/dnser-server.
pub mod Handler
pub mod Worker
pub mod Tcp
pub mod Tasks
pub mod Startup
pub mod Replies
pub mod Sound
pub mod Served
pub mod Wire
pub mod Life

-- ===== src/Tests.antt =====
-- Concrete inputs: the theorems applied to them.
mod Proto
mod Cache
mod Server
mod Served
mod Resolver
mod Table
mod Tcp
mod Startup
mod Tasks
mod Refinement
mod Names
mod Wire
mod Life
mod Mocks
mod Threads

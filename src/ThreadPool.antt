-- ===== src/ThreadPool.antt =====
-- The thread pool of src/libs/concurinc/src/concurinc.c.
pub mod Shared
pub mod Worker
pub mod Boss
pub mod System
pub mod Counts
pub mod Invariant
pub mod Moves
pub mod Tasks
pub mod Submits
pub mod Steps
pub mod Safety
pub mod Runs
pub mod Progress
pub mod Wait
pub mod Ledger
pub mod Context
pub mod Threads
pub mod Tpool
mod Tests

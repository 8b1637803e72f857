-- ===== src/System.antt =====
-- The whole program while it runs: callers' threads that make calls of iouring/io_uring_api.h, and the
-- thread of `IoUring` of iouring/io_uring.cc, in any order.
pub mod Contract
pub mod Alive
pub mod Batch
pub mod Fillable
pub mod Kept
pub mod Rings
pub mod Safe
pub mod Thread
pub mod Calls
pub mod Steps
pub mod Runs
pub mod Answers
pub mod Conserved
pub mod Order
pub mod Futures
pub mod Idle
pub mod Started
pub mod Constructed
mod SmallRing
mod Tests
mod BuildTests

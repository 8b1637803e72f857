-- ===== src/Setup.antt =====
-- The parameters and the set-up of `IoUring`: iouring/io_uring.h and iouring/io_uring.cc.
pub mod Params
pub mod Groups
pub mod Construct
pub mod Service
pub mod Stats
pub mod Counted
pub mod Maps
pub mod Settings
pub mod Builder
pub mod Bits
pub mod Power
mod Tests

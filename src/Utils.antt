-- ===== src/Utils.antt =====
-- iouring/defer.h and the retry of system calls of iouring/io_uring_utils.h.
pub mod Deferred
pub mod Once
pub mod Retry
mod Tests

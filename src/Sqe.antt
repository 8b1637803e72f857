-- ===== src/Sqe.antt =====
-- Submission queue entries: the handlers of iouring/io_uring.cc.
pub mod Entry
pub mod File
pub mod Net
pub mod Misc
pub mod Dispatch
pub mod Carries
pub mod Sound
pub mod Made
pub mod Once
pub mod Fills
pub mod Faults
pub mod Slots
mod Tests

-- ===== src/Files.antt =====
-- Registered files: the table of iouring/io_uring.cc and the operations of `IoUring` on it.
pub mod Table
pub mod Entries
pub mod Slots
pub mod Invariant
pub mod Update
pub mod Register
pub mod Single
pub mod Release
pub mod Batch
pub mod Atomic
pub mod History
pub mod Faults
mod Tests

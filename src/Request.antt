-- ===== src/Request.antt =====
-- Requests: iouring/io_request.h.
pub mod Operation
pub mod Flags
pub mod FileOps
pub mod NetOps
pub mod MiscOps
pub mod Payload
pub mod Members
pub mod MakeFile
pub mod MakeNet
pub mod MakeMisc

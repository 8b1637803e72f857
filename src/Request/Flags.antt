-- ===== src/Request/Flags.antt =====
-- The flag bits that the program names, with their values in the kernel's and the C library's
-- interface.
use iouring_cc.Common.{ℕ}

-- `IOSQE_FIXED_FILE`, `IOSQE_IO_LINK`, `IOSQE_IO_HARDLINK` and `IOSQE_BUFFER_SELECT`.
abbrev pub fixed_file : ℕ
fixed_file = 1

abbrev pub io_link : ℕ
io_link = 4

abbrev pub io_hardlink : ℕ
io_hardlink = 8

abbrev pub buffer_select : ℕ
buffer_select = 32

abbrev pub msg_waitall : ℕ
msg_waitall = 256

-- `IORING_CQE_F_BUFFER` and `IORING_CQE_F_MORE`.
abbrev pub cqe_buffer : ℕ
cqe_buffer = 1

abbrev pub cqe_more : ℕ
cqe_more = 2

-- ===== src/Request/FileOps.antt =====
-- The file operands of iouring/io_request.h. Pointers are addresses, with 0 for null; the bits of a
-- flag word are a number.
use iouring_cc.Common.{ℕ}
use iouring_cc.Common.Int.{ℤ}

pub data NoOp : Type 0 where
  no_op : NoOp

pub record ReadvOp : Type 0 where
  pub fd : ℤ
  pub offset : ℕ
  pub iov : ℕ
  pub iov_len : ℕ
  pub rw_flags : ℕ

pub record WritevOp : Type 0 where
  pub fd : ℤ
  pub offset : ℕ
  pub iov : ℕ
  pub iov_len : ℕ
  pub rw_flags : ℕ

pub record FsyncOp : Type 0 where
  pub fd : ℤ
  pub flags : ℕ

pub record ReadFixedOp : Type 0 where
  pub fd : ℤ
  pub offset : ℕ
  pub addr : ℕ
  pub size : ℕ
  pub index : ℤ

pub record WriteFixedOp : Type 0 where
  pub fd : ℤ
  pub offset : ℕ
  pub addr : ℕ
  pub size : ℕ
  pub index : ℤ

pub record SyncFileRangeOp : Type 0 where
  pub fd : ℤ
  pub len : ℕ
  pub offset : ℕ
  pub flags : ℕ

pub record FallocateOp : Type 0 where
  pub fd : ℤ
  pub mode : ℕ
  pub offset : ℕ
  pub len : ℕ

pub record OpenatOp : Type 0 where
  pub dirfd : ℤ
  pub path_name : ℕ
  pub flags : ℕ
  pub mode : ℕ
  pub file_index : ℤ

pub record CloseOp : Type 0 where
  pub fd : ℤ
  pub file_index : ℤ

pub record FilesUpdateOp : Type 0 where
  pub fds : ℕ
  pub fds_len : ℕ
  pub offset : ℕ

pub record ReadOp : Type 0 where
  pub fd : ℤ
  pub offset : ℕ
  pub addr : ℕ
  pub size : ℕ
  pub buf_gid : ℕ

pub record WriteOp : Type 0 where
  pub fd : ℤ
  pub offset : ℕ
  pub addr : ℕ
  pub size : ℕ

pub record FadviseOp : Type 0 where
  pub fd : ℤ
  pub offset : ℕ
  pub len : ℕ
  pub advice : ℤ

pub record MadviseOp : Type 0 where
  pub addr : ℕ
  pub len : ℕ
  pub advice : ℤ

pub record Openat2Op : Type 0 where
  pub dirfd : ℤ
  pub path_name : ℕ
  pub flags : ℕ
  pub how : ℕ
  pub file_index : ℤ

pub record StatxOp : Type 0 where
  pub dirfd : ℤ
  pub path_name : ℕ
  pub flags : ℕ
  pub mask : ℕ
  pub statxbuf : ℕ

pub record SpliceOp : Type 0 where
  pub in_fd : ℤ
  pub in_offset : ℕ
  pub out_fd : ℤ
  pub out_offset : ℕ
  pub size : ℕ
  pub flags : ℕ

pub record TeeOp : Type 0 where
  pub in_fd : ℤ
  pub out_fd : ℤ
  pub size : ℕ
  pub flags : ℕ

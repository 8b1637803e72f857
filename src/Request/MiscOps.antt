-- ===== src/Request/MiscOps.antt =====
-- The path, timer, buffer and ring operands of iouring/io_request.h. Pointers are addresses, with 0 for null; the bits of a
-- flag word are a number.
use iouring_cc.Common.{ℕ}
use iouring_cc.Common.Int.{ℤ}

pub record TimeoutOp : Type 0 where
  pub timeout : ℤ
  pub count : ℕ
  pub flags : ℕ

pub record TimeoutRemoveOp : Type 0 where
  pub timeout : ℤ
  pub user_data : ℕ
  pub flags : ℕ

pub record CancelOp : Type 0 where
  pub user_data : ℕ
  pub user_data_64 : ℕ
  pub fd : ℤ
  pub flags : ℕ

pub record LinkTimeoutOp : Type 0 where
  pub timeout : ℤ
  pub flags : ℕ

pub record ProvideBuffOp : Type 0 where
  pub buffer : ℕ
  pub len : ℕ
  pub nbufs : ℕ
  pub gid : ℤ
  pub bid : ℕ

pub record RenameatOp : Type 0 where
  pub olddirfd : ℤ
  pub oldpath : ℕ
  pub newdirfd : ℤ
  pub newpath : ℕ
  pub flags : ℕ

pub record UnlinkatOp : Type 0 where
  pub dirfd : ℤ
  pub path : ℕ
  pub flags : ℕ

pub record MakediratOp : Type 0 where
  pub dirfd : ℤ
  pub path : ℕ
  pub mode : ℕ

pub record SymlinkatOp : Type 0 where
  pub target : ℕ
  pub newdirfd : ℤ
  pub linkpath : ℕ

pub record LinkatOp : Type 0 where
  pub olddirfd : ℤ
  pub oldpath : ℕ
  pub newdirfd : ℤ
  pub newpath : ℕ
  pub flags : ℕ

pub record MsgringOp : Type 0 where
  pub fd : ℤ
  pub data_32 : ℕ
  pub data_64 : ℕ
  pub flags : ℕ

pub record XattrOp : Type 0 where
  pub fd : ℤ
  pub path : ℕ
  pub name : ℕ
  pub value : ℕ
  pub flags : ℕ
  pub len : ℕ

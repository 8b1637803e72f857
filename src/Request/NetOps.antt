-- ===== src/Request/NetOps.antt =====
-- The network operands of iouring/io_request.h. Pointers are addresses, with 0 for null; the bits of a
-- flag word are a number.
use iouring_cc.Common.{ℕ, Bool}
use iouring_cc.Common.Int.{ℤ}

pub record SendmsgOp : Type 0 where
  pub fd : ℤ
  pub msghdr : ℕ
  pub flags : ℕ

pub record RecvmsgOp : Type 0 where
  pub fd : ℤ
  pub msghdr : ℕ
  pub flags : ℕ
  pub multishot : Bool
  pub buf_gid : ℕ

pub record AcceptOp : Type 0 where
  pub fd : ℤ
  pub sockaddr : ℕ
  pub socklen : ℕ
  pub flags : ℕ
  pub file_index : ℤ
  pub multishot : Bool

pub record ConnectOp : Type 0 where
  pub fd : ℤ
  pub sockaddr : ℕ
  pub socklen : ℕ

pub record SendOp : Type 0 where
  pub fd : ℤ
  pub addr : ℕ
  pub size : ℕ
  pub flags : ℕ
  pub zc_flags : ℕ
  pub file_index : ℤ

pub record RecvOp : Type 0 where
  pub fd : ℤ
  pub addr : ℕ
  pub size : ℕ
  pub flags : ℕ
  pub buf_gid : ℕ

pub record ShutdownOp : Type 0 where
  pub fd : ℤ
  pub how : ℕ

pub record EpollCtlOp : Type 0 where
  pub epfd : ℤ
  pub fd : ℤ
  pub op : ℤ
  pub event : ℕ

pub record SocketOp : Type 0 where
  pub domain : ℤ
  pub type : ℤ
  pub protocol : ℤ
  pub flags : ℕ
  pub file_index : ℤ
  pub direct_alloc : Bool

pub record PollAddOp : Type 0 where
  pub fd : ℤ
  pub events : ℕ
  pub multishot : Bool

pub record PollRemoveOp : Type 0 where
  pub user_data : ℕ
  pub new_user_data : ℕ
  pub events : ℕ
  pub flags : ℕ

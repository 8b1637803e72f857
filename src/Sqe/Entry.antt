-- ===== src/Sqe/Entry.antt =====
-- The submission queue entry, as iouring/io_uring.cc fills it in. `Prep` has a constructor for each
-- `io_uring_prep_` function of liburing that the handlers call, with the arguments that it is given;
-- what it writes is liburing's. `calls` are those made on the entry since it was handed out, the
-- last one first. A handler that makes none leaves the entry as the ring held it.
use iouring_cc.Common.{ℕ, List, ◌∷◌, ◌%◌, ◌^◌}
use iouring_cc.Common.Int.{ℤ}
use iouring_cc.Time.{Timespec}
use iouring_cc.Request.Payload.{IoRequest}

-- The address of a local variable of the caller, with what the variable holds at the call. The
-- variable is gone when the caller returns, which is before the entry is submitted.
pub data LocalPointer : Type 0 where
  to_local : Timespec → LocalPointer

pub data Prep : Type 0 where
  nop : Prep
  read : ℤ → ℕ → ℕ → ℕ → Prep
  read_fixed : ℤ → ℕ → ℕ → ℕ → ℤ → Prep
  readv2 : ℤ → ℕ → ℕ → ℕ → ℕ → Prep
  readv : ℤ → ℕ → ℕ → ℕ → Prep
  write : ℤ → ℕ → ℕ → ℕ → Prep
  write_fixed : ℤ → ℕ → ℕ → ℕ → ℤ → Prep
  writev2 : ℤ → ℕ → ℕ → ℕ → ℕ → Prep
  writev : ℤ → ℕ → ℕ → ℕ → Prep
  accept : ℤ → ℕ → ℕ → ℕ → Prep
  multishot_accept : ℤ → ℕ → ℕ → ℕ → Prep
  accept_direct : ℤ → ℕ → ℕ → ℕ → ℤ → Prep
  multishot_accept_direct : ℤ → ℕ → ℕ → ℕ → Prep
  connect : ℤ → ℕ → ℕ → Prep
  recv : ℤ → ℕ → ℕ → ℕ → Prep
  send : ℤ → ℕ → ℕ → ℕ → Prep
  send_zc : ℤ → ℕ → ℕ → ℕ → ℕ → Prep
  send_zc_fixed : ℤ → ℕ → ℕ → ℕ → ℕ → ℤ → Prep
  recvmsg : ℤ → ℕ → ℕ → Prep
  sendmsg : ℤ → ℕ → ℕ → Prep
  sendmsg_zc : ℤ → ℕ → ℕ → Prep
  fallocate : ℤ → ℕ → ℕ → ℕ → Prep
  close : ℤ → Prep
  close_direct : ℤ → Prep
  fsync : ℤ → ℕ → Prep
  timeout : LocalPointer → ℕ → ℕ → Prep
  timeout_update : LocalPointer → ℕ → ℕ → Prep
  timeout_remove : ℕ → ℕ → Prep
  link_timeout : LocalPointer → ℕ → Prep
  openat : ℤ → ℕ → ℕ → ℕ → Prep
  openat_direct : ℤ → ℕ → ℕ → ℕ → ℤ → Prep
  statx : ℤ → ℕ → ℕ → ℕ → ℕ → Prep
  splice : ℤ → ℕ → ℤ → ℕ → ℕ → ℕ → Prep
  tee : ℤ → ℤ → ℕ → ℕ → Prep
  shutdown : ℤ → ℕ → Prep
  rename : ℕ → ℕ → Prep
  renameat : ℤ → ℕ → ℤ → ℕ → ℕ → Prep
  symlink : ℕ → ℕ → Prep
  symlinkat : ℕ → ℤ → ℕ → Prep
  link : ℕ → ℕ → ℕ → Prep
  linkat : ℤ → ℕ → ℤ → ℕ → ℕ → Prep
  unlink : ℕ → ℕ → Prep
  unlinkat : ℤ → ℕ → ℕ → Prep
  mkdir : ℕ → ℕ → Prep
  mkdirat : ℤ → ℕ → ℕ → Prep
  poll_multishot : ℤ → ℕ → Prep
  poll_add : ℤ → ℕ → Prep
  poll_update : ℕ → ℕ → ℕ → ℕ → Prep
  poll_remove : ℕ → Prep
  sync_file_range : ℤ → ℕ → ℕ → ℕ → Prep
  files_update : ℕ → ℕ → ℕ → Prep
  epoll_ctl : ℤ → ℤ → ℤ → ℕ → Prep
  provide_buffers : ℕ → ℕ → ℕ → ℤ → ℕ → Prep
  remove_buffers : ℕ → ℤ → Prep
  cancel : ℕ → ℕ → Prep
  cancel64 : ℕ → ℕ → Prep
  cancel_fd : ℤ → ℕ → Prep
  fadvise : ℤ → ℕ → ℕ → ℤ → Prep
  madvise : ℕ → ℕ → ℤ → Prep
  openat2 : ℤ → ℕ → ℕ → Prep
  openat2_direct : ℤ → ℕ → ℕ → ℤ → Prep
  fsetxattr : ℤ → ℕ → ℕ → ℕ → ℕ → Prep
  setxattr : ℕ → ℕ → ℕ → ℕ → ℕ → Prep
  fgetxattr : ℤ → ℕ → ℕ → ℕ → Prep
  getxattr : ℕ → ℕ → ℕ → ℕ → Prep
  msg_ring : ℤ → ℕ → ℕ → ℕ → Prep
  socket : ℤ → ℤ → ℤ → ℕ → Prep
  socket_direct_alloc : ℤ → ℤ → ℤ → ℕ → Prep
  socket_direct : ℤ → ℤ → ℤ → ℤ → ℕ → Prep

pub record Sqe : Type 0 where
  pub calls : List Prep
  pub user_data : ℕ
  pub flags : ℕ
  pub buf_group : ℕ

-- A call of an `io_uring_prep_` function.
unfoldable pub prep : Prep → Sqe → Sqe
prep p s = record s { calls = p ∷ s.calls }

-- `io_uring_sqe_set_data` with the address of the completion.
unfoldable pub set_data : ℕ → Sqe → Sqe
set_data c s = record s { user_data = c }

-- `io_uring_sqe_set_flags`; the field is a byte.
unfoldable pub set_flags : ℕ → Sqe → Sqe
set_flags f s = record s { flags = f % 2 ^ 8 }

-- The assignment to `sqe->buf_group`, of 16 bits.
unfoldable pub set_buf_group : ℕ → Sqe → Sqe
set_buf_group g s = record s { buf_group = g % 2 ^ 16 }

-- The two calls that end each handler.
unfoldable pub finish : IoRequest → ℕ → Sqe → Sqe
unfolding set_data set_flags
finish r c s = set_flags r.sqe_flag (set_data c s)

-- ===== src/Sqe/Made.antt =====
-- The requests that the program builds.
use iouring_cc.Common.{ℕ, ◌==◌, ◌||◌, ◌≡◌, not, Bool, true, false, Option, none, some}
use iouring_cc.Common.Int.{ℤ}
use iouring_cc.Pools.{find_pool}
use iouring_cc.Request.Payload.{IoRequest, CommonVars}
use iouring_cc.Sqe.Dispatch.{Context}
use iouring_cc.Request.MakeFile.{
  make_noop, make_readv, make_writev, make_fsync, make_read_fixed, make_write_fixed,
  make_sync_filerange, make_fallocate, make_openat, make_close, make_files_update, make_statx,
  make_read, make_write, make_fadvise, make_madvise, make_openat2, make_splice, make_tee,
}
use iouring_cc.Request.MakeNet.{
  make_poll_add, make_poll_remove, make_poll_update, make_sendmsg, make_recvmsg, make_accept,
  make_connect, make_send, make_recv, make_epoll_ctl, make_shutdown, make_sendzc, make_sendmsgzc,
}
use iouring_cc.Request.MakeMisc.{
  make_timeout, make_cancel, make_link_timeout, make_provide_buffer, make_remove_buffer,
  make_renameat, make_unlinkat, make_makedirat, make_symlinkat, make_linkat, make_msgring,
  make_fsetxattr, make_setxattr, make_fgetxattr, make_getxattr,
}

abbrev pub is_some : {A : Type 0} → Option A → Bool
is_some none = false
is_some (some a) = true

-- The request is built by a `make_` function other than those of timeout removal, timeout update and
-- sockets. Where buffers are provided with a length of 0, or removed, the group has a pool.
pub data Made (x : Context) : IoRequest → Type 0 where
  noop : (v : CommonVars) → Made x (make_noop v)
  readv :
      (fd : ℤ) (offset iovecs_data iovecs_size rw_flags : ℕ) (v : CommonVars)
      → Made x (make_readv fd offset iovecs_data iovecs_size rw_flags v)
  writev :
      (fd : ℤ) (offset iovecs_data iovecs_size rw_flags : ℕ) (v : CommonVars)
      → Made x (make_writev fd offset iovecs_data iovecs_size rw_flags v)
  fsync : (fd : ℤ) (flags : ℕ) (v : CommonVars) → Made x (make_fsync fd flags v)
  read_fixed :
      (fd : ℤ) (offset address size : ℕ) (buf_index : ℤ) (v : CommonVars)
      → Made x (make_read_fixed fd offset address size buf_index v)
  write_fixed :
      (fd : ℤ) (offset address size : ℕ) (buf_index : ℤ) (v : CommonVars)
      → Made x (make_write_fixed fd offset address size buf_index v)
  poll_add : (fd : ℤ) (events : ℕ) (v : CommonVars) → Made x (make_poll_add fd events v)
  poll_remove : (user_data : ℕ) (v : CommonVars) → Made x (make_poll_remove user_data v)
  poll_update :
      (old_user_data new_user_data events flags : ℕ) (v : CommonVars)
      → Made x (make_poll_update old_user_data new_user_data events flags v)
  sync_filerange :
      (fd : ℤ) (len offset flags : ℕ) (v : CommonVars)
      → Made x (make_sync_filerange fd len offset flags v)
  sendmsg : (fd : ℤ) (msghdr flags : ℕ) (v : CommonVars) → Made x (make_sendmsg fd msghdr flags v)
  recvmsg : (fd : ℤ) (msghdr flags : ℕ) (v : CommonVars) → Made x (make_recvmsg fd msghdr flags v)
  timeout :
      (timeout : ℤ) (count flags : ℕ) (v : CommonVars) → Made x (make_timeout timeout count flags v)
  accept : (fd : ℤ) (addr len flags : ℕ) (v : CommonVars) → Made x (make_accept fd addr len flags v)
  cancel :
      (user_data user_data_64 : ℕ) (fd : ℤ) (flags : ℕ) (v : CommonVars)
      → Made x (make_cancel user_data user_data_64 fd flags v)
  link_timeout :
      (timeout : ℤ) (flags : ℕ) (v : CommonVars) → Made x (make_link_timeout timeout flags v)
  connect : (fd : ℤ) (addr len : ℕ) (v : CommonVars) → Made x (make_connect fd addr len v)
  fallocate :
      (fd : ℤ) (mode offset len : ℕ) (v : CommonVars) → Made x (make_fallocate fd mode offset len v)
  openat :
      (dirfd : ℤ) (pathname flags mode : ℕ) (v : CommonVars)
      → Made x (make_openat dirfd pathname flags mode v)
  close : (fd : ℤ) (v : CommonVars) → Made x (make_close fd v)
  files_update :
      (fds_data fds_size offset : ℕ) (v : CommonVars)
      → Made x (make_files_update fds_data fds_size offset v)
  statx :
      (dirfd : ℤ) (pathname flags mask statxbuf : ℕ) (v : CommonVars)
      → Made x (make_statx dirfd pathname flags mask statxbuf v)
  read :
      (fd : ℤ) (offset address size : ℕ) (v : CommonVars)
      → Made x (make_read fd offset address size v)
  write :
      (fd : ℤ) (offset address size : ℕ) (v : CommonVars)
      → Made x (make_write fd offset address size v)
  fadvise :
      (fd : ℤ) (offset len : ℕ) (advice : ℤ) (v : CommonVars)
      → Made x (make_fadvise fd offset len advice v)
  madvise : (addr len : ℕ) (advice : ℤ) (v : CommonVars) → Made x (make_madvise addr len advice v)
  send :
      (fd : ℤ) (address size flags : ℕ) (v : CommonVars)
      → Made x (make_send fd address size flags v)
  recv :
      (fd : ℤ) (address size flags : ℕ) (v : CommonVars)
      → Made x (make_recv fd address size flags v)
  openat2 :
      (dirfd : ℤ) (pathname flags how : ℕ) (v : CommonVars)
      → Made x (make_openat2 dirfd pathname flags how v)
  epoll_ctl :
      (epfd fd op : ℤ) (event : ℕ) (v : CommonVars) → Made x (make_epoll_ctl epfd fd op event v)
  splice :
      (in_fd : ℤ) (in_offset : ℕ) (out_fd : ℤ) (out_offset size flags : ℕ) (v : CommonVars)
      → Made x (make_splice in_fd in_offset out_fd out_offset size flags v)
  provide_buffer :
      (buffer len nbufs : ℕ) (gid : ℤ) (bid : ℕ) (v : CommonVars)
      → (is_some (find_pool gid x.pools) || not (len == 0)) ≡ true
      → Made x (make_provide_buffer buffer len nbufs gid bid v)
  remove_buffer :
      (nbufs : ℕ) (gid : ℤ) (v : CommonVars)
      → is_some (find_pool gid x.pools) ≡ true
      → Made x (make_remove_buffer nbufs gid v)
  tee :
      (in_fd out_fd : ℤ) (size flags : ℕ) (v : CommonVars)
      → Made x (make_tee in_fd out_fd size flags v)
  shutdown : (fd : ℤ) (how : ℕ) (v : CommonVars) → Made x (make_shutdown fd how v)
  renameat :
      (olddirfd : ℤ) (oldpath : ℕ) (newdirfd : ℤ) (newpath flags : ℕ) (v : CommonVars)
      → Made x (make_renameat olddirfd oldpath newdirfd newpath flags v)
  unlinkat :
      (dirfd : ℤ) (path flags : ℕ) (v : CommonVars) → Made x (make_unlinkat dirfd path flags v)
  makedirat :
      (dirfd : ℤ) (path mode : ℕ) (v : CommonVars) → Made x (make_makedirat dirfd path mode v)
  symlinkat :
      (target : ℕ) (newdirfd : ℤ) (linkpath : ℕ) (v : CommonVars)
      → Made x (make_symlinkat target newdirfd linkpath v)
  linkat :
      (olddirfd : ℤ) (oldpath : ℕ) (newdirfd : ℤ) (newpath flags : ℕ) (v : CommonVars)
      → Made x (make_linkat olddirfd oldpath newdirfd newpath flags v)
  msgring :
      (fd : ℤ) (data_32 data_64 flags : ℕ) (v : CommonVars)
      → Made x (make_msgring fd data_32 data_64 flags v)
  fsetxattr :
      (fd : ℤ) (name value flags len : ℕ) (v : CommonVars)
      → Made x (make_fsetxattr fd name value flags len v)
  setxattr :
      (path name value flags len : ℕ) (v : CommonVars)
      → Made x (make_setxattr path name value flags len v)
  fgetxattr :
      (fd : ℤ) (name value len : ℕ) (v : CommonVars) → Made x (make_fgetxattr fd name value len v)
  getxattr :
      (path name value len : ℕ) (v : CommonVars) → Made x (make_getxattr path name value len v)
  sendzc :
      (fd : ℤ) (address size flags zc_flags : ℕ) (v : CommonVars)
      → Made x (make_sendzc fd address size flags zc_flags v)
  sendmsgzc :
      (fd : ℤ) (msghdr flags : ℕ) (v : CommonVars) → Made x (make_sendmsgzc fd msghdr flags v)

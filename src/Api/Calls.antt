-- ===== src/Api/Calls.antt =====
-- The calls of iouring/io_uring_api.h as one type, and what each submits.
use iouring_cc.Common.{ℕ}
use iouring_cc.Common.Int.{ℤ}
use iouring_cc.Common.Outcome.{Outcome}
use iouring_cc.Submit.{Ring}
use iouring_cc.Api.{Caller, Client, MsgHdr}
use iouring_cc.Api.File
use iouring_cc.Api.Net
use iouring_cc.Api.Misc

-- `PollUpdate` is not among them: its body does not compile.
pub data Call : Type 0 where
  noop : Call
  read_vector : ℤ → ℕ → ℕ → ℕ → ℕ → Call
  write_vector : ℤ → ℕ → ℕ → ℕ → ℕ → Call
  fsync : ℤ → ℕ → Call
  read_fixed : ℤ → ℕ → ℕ → ℕ → ℤ → Call
  write_fixed : ℤ → ℕ → ℕ → ℕ → ℤ → Call
  poll_add : ℤ → ℕ → Call
  poll_remove : ℕ → Call
  file_sync_range : ℤ → ℕ → ℕ → ℕ → Call
  send_msg_vector : ℤ → ℕ → ℕ → ℕ → Call
  send_msg : ℤ → MsgHdr → ℕ → Call
  recv_msg_vector : ℤ → ℕ → ℕ → ℕ → Call
  recv_msg : ℤ → MsgHdr → ℕ → Call
  timeout : ℤ → ℕ → ℕ → Call
  timeout_remove : ℕ → ℕ → Call
  timeout_update : ℤ → ℕ → ℕ → Call
  accept : ℤ → ℕ → ℕ → ℕ → Call
  cancel : ℕ → ℕ → Call
  cancel_64 : ℕ → ℕ → Call
  cancel_fd : ℤ → ℕ → Call
  link_timeout : ℤ → ℕ → Call
  connect : ℤ → ℕ → ℕ → Call
  fallocate : ℤ → ℕ → ℕ → ℕ → Call
  openat : ℤ → ℕ → ℕ → ℕ → Call
  close : ℤ → Call
  files_update : ℕ → ℕ → ℕ → Call
  statx : ℤ → ℕ → ℕ → ℕ → ℕ → Call
  read : ℤ → ℕ → ℕ → ℕ → Call
  write : ℤ → ℕ → ℕ → ℕ → Call
  fadvise : ℤ → ℕ → ℕ → ℤ → Call
  madvise : ℕ → ℕ → ℤ → Call
  send : ℤ → ℕ → ℕ → ℕ → Call
  recv : ℤ → ℕ → ℕ → ℕ → Call
  openat2 : ℤ → ℕ → ℕ → ℕ → Call
  epoll_ctl : ℤ → ℤ → ℤ → ℕ → Call
  splice : ℤ → ℕ → ℤ → ℕ → ℕ → ℕ → Call
  provide_buffer : ℕ → ℕ → ℕ → ℤ → ℕ → Call
  remove_buffer : ℕ → ℤ → Call
  tee : ℤ → ℤ → ℕ → ℕ → Call
  shutdown : ℤ → ℕ → Call
  renameat : ℤ → ℕ → ℤ → ℕ → ℕ → Call
  unlinkat : ℤ → ℕ → ℕ → Call
  makedirat : ℤ → ℕ → ℕ → Call
  symlinkat : ℕ → ℤ → ℕ → Call
  linkat : ℤ → ℕ → ℤ → ℕ → ℕ → Call
  msg_ring : ℤ → ℕ → ℕ → ℕ → Call
  fsetxattr : ℤ → ℕ → ℕ → ℕ → ℕ → Call
  setxattr : ℕ → ℕ → ℕ → ℕ → ℕ → Call
  fgetxattr : ℤ → ℕ → ℕ → ℕ → Call
  getxattr : ℕ → ℕ → ℕ → ℕ → Call
  socket : ℤ → ℤ → ℤ → ℕ → Call
  send_zc : ℤ → ℕ → ℕ → ℕ → ℕ → Call
  send_msg_zc : ℤ → MsgHdr → ℕ → Call

module _ {R : Type 0} (sys : Ring R) (fuel junk : ℕ) (w : Caller) (s : Client R) where
  unfoldable pub call : Call → Outcome (Client R)
  call noop = Misc.noop sys fuel junk w s
  call (read_vector fd iovecs_data iovecs_size offset rw_flags) =
      File.read_vector sys fuel junk w s fd iovecs_data iovecs_size offset rw_flags
  call (write_vector fd iovecs_data iovecs_size offset rw_flags) =
      File.write_vector sys fuel junk w s fd iovecs_data iovecs_size offset rw_flags
  call (fsync fd flags) = File.fsync sys fuel junk w s fd flags
  call (read_fixed fd buf count offset buf_index) =
      File.read_fixed sys fuel junk w s fd buf count offset buf_index
  call (write_fixed fd buf count offset buf_index) =
      File.write_fixed sys fuel junk w s fd buf count offset buf_index
  call (poll_add fd events) = Net.poll_add sys fuel junk w s fd events
  call (poll_remove user_data) = Net.poll_remove sys fuel junk w s user_data
  call (file_sync_range fd len offset flags) =
      File.file_sync_range sys fuel junk w s fd len offset flags
  call (send_msg_vector fd iov_data iov_size flags) =
      Net.send_msg_vector sys fuel junk w s fd iov_data iov_size flags
  call (send_msg fd msghdr flags) = Net.send_msg sys fuel junk w s fd msghdr flags
  call (recv_msg_vector fd iov_data iov_size flags) =
      Net.recv_msg_vector sys fuel junk w s fd iov_data iov_size flags
  call (recv_msg fd msghdr flags) = Net.recv_msg sys fuel junk w s fd msghdr flags
  call (timeout timeout_ns count flags) = Misc.timeout sys fuel junk w s timeout_ns count flags
  call (timeout_remove user_data flags) = Misc.timeout_remove sys fuel junk w s user_data flags
  call (timeout_update timeout_ns user_data flags) =
      Misc.timeout_update sys fuel junk w s timeout_ns user_data flags
  call (accept sockfd addr addrlen flags) = Net.accept sys fuel junk w s sockfd addr addrlen flags
  call (cancel user_data flags) = Misc.cancel sys fuel junk w s user_data flags
  call (cancel_64 user_data flags) = Misc.cancel_64 sys fuel junk w s user_data flags
  call (cancel_fd fd flags) = Misc.cancel_fd sys fuel junk w s fd flags
  call (link_timeout timeout_ns flags) = Misc.link_timeout sys fuel junk w s timeout_ns flags
  call (connect sockfd addr addrlen) = Net.connect sys fuel junk w s sockfd addr addrlen
  call (fallocate fd mode offset len) = File.fallocate sys fuel junk w s fd mode offset len
  call (openat dirfd pathname flags mode) = File.openat sys fuel junk w s dirfd pathname flags mode
  call (close fd) = File.close sys fuel junk w s fd
  call (files_update fds_data fds_size offset) =
      File.files_update sys fuel junk w s fds_data fds_size offset
  call (statx dirfd pathname flags mask statxbuf) =
      File.statx sys fuel junk w s dirfd pathname flags mask statxbuf
  call (read fd buf count offset) = File.read sys fuel junk w s fd buf count offset
  call (write fd buf count offset) = File.write sys fuel junk w s fd buf count offset
  call (fadvise fd offset len advice) = File.fadvise sys fuel junk w s fd offset len advice
  call (madvise addr len advice) = File.madvise sys fuel junk w s addr len advice
  call (send sockfd buf len flags) = Net.send sys fuel junk w s sockfd buf len flags
  call (recv fd buf len flags) = Net.recv sys fuel junk w s fd buf len flags
  call (openat2 dirfd pathname how flags) = File.openat2 sys fuel junk w s dirfd pathname how flags
  call (epoll_ctl epfd fd op event) = Net.epoll_ctl sys fuel junk w s epfd fd op event
  call (splice in_fd in_offset out_fd out_offset size flags) =
      File.splice sys fuel junk w s in_fd in_offset out_fd out_offset size flags
  call (provide_buffer buffer len nbufs gid bid) =
      Misc.provide_buffer sys fuel junk w s buffer len nbufs gid bid
  call (remove_buffer nbufs gid) = Misc.remove_buffer sys fuel junk w s nbufs gid
  call (tee in_fd out_fd size flags) = File.tee sys fuel junk w s in_fd out_fd size flags
  call (shutdown sockfd how) = Net.shutdown sys fuel junk w s sockfd how
  call (renameat olddirfd oldpath newdirfd newpath flags) =
      Misc.renameat sys fuel junk w s olddirfd oldpath newdirfd newpath flags
  call (unlinkat dirfd path flags) = Misc.unlinkat sys fuel junk w s dirfd path flags
  call (makedirat dirfd path mode) = Misc.makedirat sys fuel junk w s dirfd path mode
  call (symlinkat target newdirfd linkpath) =
      Misc.symlinkat sys fuel junk w s target newdirfd linkpath
  call (linkat olddirfd oldpath newdirfd newpath flags) =
      Misc.linkat sys fuel junk w s olddirfd oldpath newdirfd newpath flags
  call (msg_ring fd data_32 data_64 flags) =
      Misc.msg_ring sys fuel junk w s fd data_32 data_64 flags
  call (fsetxattr fd name value flags len) =
      Misc.fsetxattr sys fuel junk w s fd name value flags len
  call (setxattr path name value flags len) =
      Misc.setxattr sys fuel junk w s path name value flags len
  call (fgetxattr fd name value len) = Misc.fgetxattr sys fuel junk w s fd name value len
  call (getxattr path name value len) = Misc.getxattr sys fuel junk w s path name value len
  call (socket domain type protocol flags) = Net.socket sys fuel junk w s domain type protocol flags
  call (send_zc sockfd buf len flags zc_flags) =
      Net.send_zc sys fuel junk w s sockfd buf len flags zc_flags
  call (send_msg_zc fd msghdr flags) = Net.send_msg_zc sys fuel junk w s fd msghdr flags

-- ===== src/Sqe/Net.antt =====
-- The handlers of iouring/io_uring.cc for network operations: `r` is the request, `c` the address of its
-- completion and `s` the entry from `GetSqe`.
use iouring_cc.Common.{ℕ, ◌==◌, ◌&&◌, not, if◌then◌else◌}
use iouring_cc.Common.Int.{eqb_ℤ}
use iouring_cc.Common.Outcome.{Outcome, done, ◌>>=◌}
use iouring_cc.Request.Payload.{IoRequest, invalid_fileindex}
use iouring_cc.Request.Members.{
  as_accept, as_connect, as_epoll_ctl, as_poll_add, as_poll_remove, as_recv, as_recvmsg, as_send,
  as_sendmsg, as_shutdown, as_socket,
}
use iouring_cc.Sqe.Entry.{Prep, Sqe, prep, finish, set_buf_group}

unfoldable pub accept : IoRequest → ℕ → Sqe → Outcome Sqe
unfolding prep finish as_accept
accept r c s = do
  op ← as_accept r.payload
  done (
      finish r c (
        if not op.multishot && eqb_ℤ op.file_index invalid_fileindex
        then prep (Prep.accept op.fd op.sockaddr op.socklen op.flags) s
        else if op.multishot && eqb_ℤ op.file_index invalid_fileindex
        then prep (Prep.multishot_accept op.fd op.sockaddr op.socklen op.flags) s
        else if not op.multishot && not (eqb_ℤ op.file_index invalid_fileindex)
        then prep (Prep.accept_direct op.fd op.sockaddr op.socklen op.flags op.file_index) s
        else if op.multishot && not (eqb_ℤ op.file_index invalid_fileindex)
        then prep (Prep.multishot_accept_direct op.fd op.sockaddr op.socklen op.flags) s
        else s))

unfoldable pub connect : IoRequest → ℕ → Sqe → Outcome Sqe
unfolding prep finish as_connect
connect r c s = do
  op ← as_connect r.payload
  done (finish r c (prep (Prep.connect op.fd op.sockaddr op.socklen) s))

unfoldable pub recv : IoRequest → ℕ → Sqe → Outcome Sqe
unfolding prep finish as_recv set_buf_group
recv r c s = do
  op ← as_recv r.payload
  done (set_buf_group op.buf_gid (finish r c (prep (Prep.recv op.fd op.addr op.size op.flags) s)))

unfoldable pub send : IoRequest → ℕ → Sqe → Outcome Sqe
unfolding prep finish as_send
send r c s = do
  op ← as_send r.payload
  done (finish r c (prep (Prep.send op.fd op.addr op.size op.flags) s))

unfoldable pub send_zc : IoRequest → ℕ → Sqe → Outcome Sqe
unfolding prep finish as_send
send_zc r c s = do
  op ← as_send r.payload
  if not (eqb_ℤ op.file_index invalid_fileindex)
      then done (finish r c (prep (Prep.send_zc op.fd op.addr op.size op.flags op.zc_flags) s))
      else done (
          finish r c
            (prep (Prep.send_zc_fixed op.fd op.addr op.size op.flags op.zc_flags op.file_index) s))

unfoldable pub recvmsg : IoRequest → ℕ → Sqe → Outcome Sqe
unfolding prep finish as_recvmsg
recvmsg r c s = do
  op ← as_recvmsg r.payload
  done (finish r c (prep (Prep.recvmsg op.fd op.msghdr op.flags) s))

unfoldable pub sendmsg : IoRequest → ℕ → Sqe → Outcome Sqe
unfolding prep finish as_sendmsg
sendmsg r c s = do
  op ← as_sendmsg r.payload
  done (finish r c (prep (Prep.sendmsg op.fd op.msghdr op.flags) s))

unfoldable pub sendmsg_zc : IoRequest → ℕ → Sqe → Outcome Sqe
unfolding prep finish as_sendmsg
sendmsg_zc r c s = do
  op ← as_sendmsg r.payload
  done (finish r c (prep (Prep.sendmsg_zc op.fd op.msghdr op.flags) s))

unfoldable pub shutdown : IoRequest → ℕ → Sqe → Outcome Sqe
unfolding prep finish as_shutdown
shutdown r c s = do
  op ← as_shutdown r.payload
  done (finish r c (prep (Prep.shutdown op.fd op.how) s))

unfoldable pub poll_add : IoRequest → ℕ → Sqe → Outcome Sqe
unfolding prep finish as_poll_add
poll_add r c s = do
  op ← as_poll_add r.payload
  if op.multishot
      then done (finish r c (prep (Prep.poll_multishot op.fd op.events) s))
      else done (finish r c (prep (Prep.poll_add op.fd op.events) s))

unfoldable pub poll_remove : IoRequest → ℕ → Sqe → Outcome Sqe
unfolding prep finish as_poll_remove
poll_remove r c s = do
  op ← as_poll_remove r.payload
  if op.flags == 0
      then done (finish r c (prep (Prep.poll_remove op.user_data) s))
      else done
          (finish r c (prep (Prep.poll_update op.user_data op.new_user_data op.events op.flags) s))

unfoldable pub epoll_ctl : IoRequest → ℕ → Sqe → Outcome Sqe
unfolding prep finish as_epoll_ctl
epoll_ctl r c s = do
  op ← as_epoll_ctl r.payload
  done (finish r c (prep (Prep.epoll_ctl op.epfd op.fd op.op op.event) s))

unfoldable pub socket : IoRequest → ℕ → Sqe → Outcome Sqe
unfolding prep finish as_socket
socket r c s = do
  op ← as_socket r.payload
  if eqb_ℤ op.file_index invalid_fileindex
      then (if not op.direct_alloc
          then done (finish r c (prep (Prep.socket op.domain op.type op.protocol op.flags) s))
          else done (
              finish r c
                (prep (Prep.socket_direct_alloc op.domain op.type op.protocol op.flags) s)))
      else done (
          finish r c
            (prep (Prep.socket_direct op.domain op.type op.protocol op.file_index op.flags) s))

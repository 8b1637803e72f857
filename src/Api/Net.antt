-- ===== src/Api/Net.antt =====
-- The calls of iouring/io_uring_api.h on sockets, polling and epoll.
use iouring_cc.Common.{ℕ, Bool, ◌==◌, ◌&&◌, ◌||◌, not, bit_and, if◌then◌else◌}
use iouring_cc.Common.Int.{ℤ}
use iouring_cc.Common.Outcome.{Outcome, aborted}
use iouring_cc.Request.Flags.{buffer_select, msg_waitall}
use iouring_cc.Request.Payload.{CommonVars, invalid_buff_gid}
use iouring_cc.Completion.{Kind, invalid_gid}
use iouring_cc.Submit.{Ring}
use iouring_cc.Api.{Caller, Client, MsgHdr, vector_header, with_header, group, submit_new}
use iouring_cc.Request.MakeNet.{
  make_accept, make_connect, make_epoll_ctl, make_poll_add, make_poll_remove, make_recv,
  make_recvmsg, make_send, make_sendmsg, make_sendmsgzc, make_sendzc, make_shutdown, make_socket,
}

-- The three assertions of `RecvMsg`.
unfoldable pub multishot_refused : ℕ → CommonVars → Bool
multishot_refused flags v =
    v.multishot
    && (v.buf_gid == invalid_buff_gid
        || (bit_and v.sqe_flag buffer_select == 0 || bit_and flags msg_waitall == 0))

-- The three assertions of `Recv`.
unfoldable pub recv_refused : ℕ → ℕ → CommonVars → Bool
recv_refused buf len v =
    (buf == 0 && v.buf_gid == invalid_buff_gid)
    || ((v.multishot && buf == 0)
        || (v.multishot && not (len == 0 && not (v.buf_gid == invalid_buff_gid))))

module _ {R : Type 0} (sys : Ring R) (fuel junk : ℕ) (w : Caller) (s : Client R) where
  unfoldable pub poll_add : ℤ → ℕ → Outcome (Client R)
  poll_add fd events =
      submit_new sys fuel junk w Kind.plain invalid_gid (make_poll_add fd events w.vars) s

  unfoldable pub poll_remove : ℕ → Outcome (Client R)
  poll_remove user_data =
      submit_new sys fuel junk w Kind.plain invalid_gid (make_poll_remove user_data w.vars) s

  unfoldable pub send_msg_vector : ℤ → ℕ → ℕ → ℕ → Outcome (Client R)
  send_msg_vector fd iov_data iov_size flags =
      submit_new sys fuel junk w Kind.recv_send_msg invalid_gid
        (make_sendmsg fd w.msg_hdr flags w.vars) (with_header (vector_header iov_data iov_size) w s)

  unfoldable pub send_msg : ℤ → MsgHdr → ℕ → Outcome (Client R)
  send_msg fd msghdr flags =
      submit_new sys fuel junk w Kind.recv_send_msg invalid_gid
        (make_sendmsg fd w.msg_hdr flags w.vars) (with_header msghdr w s)

  unfoldable pub recv_msg_vector : ℤ → ℕ → ℕ → ℕ → Outcome (Client R)
  recv_msg_vector fd iov_data iov_size flags =
      if multishot_refused flags w.vars
      then aborted
      else submit_new sys fuel junk w Kind.recv_send_msg invalid_gid
          (make_recvmsg fd w.msg_hdr flags w.vars)
          (with_header (vector_header iov_data iov_size) w s)

  unfoldable pub recv_msg : ℤ → MsgHdr → ℕ → Outcome (Client R)
  recv_msg fd msghdr flags =
      if multishot_refused flags w.vars
      then aborted
      else submit_new sys fuel junk w Kind.recv_send_msg invalid_gid
          (make_recvmsg fd w.msg_hdr flags w.vars) (with_header msghdr w s)

  unfoldable pub accept : ℤ → ℕ → ℕ → ℕ → Outcome (Client R)
  accept sockfd addr addrlen flags =
      submit_new sys fuel junk w Kind.plain invalid_gid
        (make_accept sockfd addr addrlen flags w.vars) s

  unfoldable pub connect : ℤ → ℕ → ℕ → Outcome (Client R)
  connect sockfd addr addrlen =
      submit_new sys fuel junk w Kind.plain invalid_gid (make_connect sockfd addr addrlen w.vars) s

  unfoldable pub send : ℤ → ℕ → ℕ → ℕ → Outcome (Client R)
  send sockfd buf len flags =
      submit_new sys fuel junk w Kind.plain invalid_gid (make_send sockfd buf len flags w.vars) s

  unfoldable pub recv : ℤ → ℕ → ℕ → ℕ → Outcome (Client R)
  recv fd buf len flags =
      if recv_refused buf len w.vars
      then aborted
      else submit_new sys fuel junk w Kind.rw_provided_buffer (group w.vars.buf_gid)
          (make_recv fd buf len flags w.vars) s

  unfoldable pub epoll_ctl : ℤ → ℤ → ℤ → ℕ → Outcome (Client R)
  epoll_ctl epfd fd op event =
      submit_new sys fuel junk w Kind.plain invalid_gid (make_epoll_ctl epfd fd op event w.vars) s

  unfoldable pub shutdown : ℤ → ℕ → Outcome (Client R)
  shutdown sockfd how =
      submit_new sys fuel junk w Kind.plain invalid_gid (make_shutdown sockfd how w.vars) s

  unfoldable pub socket : ℤ → ℤ → ℤ → ℕ → Outcome (Client R)
  socket domain type protocol flags =
      submit_new sys fuel junk w Kind.socket invalid_gid
        (make_socket domain type protocol flags w.vars) s

  unfoldable pub send_zc : ℤ → ℕ → ℕ → ℕ → ℕ → Outcome (Client R)
  send_zc sockfd buf len flags zc_flags =
      submit_new sys fuel junk w Kind.plain invalid_gid
        (make_sendzc sockfd buf len flags zc_flags w.vars) s

  unfoldable pub send_msg_zc : ℤ → MsgHdr → ℕ → Outcome (Client R)
  send_msg_zc fd msghdr flags =
      submit_new sys fuel junk w Kind.recv_send_msg invalid_gid
        (make_sendmsgzc fd w.msg_hdr flags w.vars) (with_header msghdr w s)

-- ===== src/Request/MakeNet.antt =====
-- The `make_` functions of iouring/io_request.h for network operations.
use iouring_cc.Common.{ℕ, ◌==◌, bit_or, if◌then◌else◌}
use iouring_cc.Common.Int.{ℤ, eqb_ℤ}
use iouring_cc.Request.Operation.{Operation}
use iouring_cc.Request.Flags.{fixed_file, buffer_select, msg_waitall}
use iouring_cc.Request.Payload.{
  Payload, IoRequest, CommonVars, new_request, add_sqe_flag, invalid_fileindex, invalid_buff_gid,
}

unfoldable pub make_poll_add : ℤ → ℕ → CommonVars → IoRequest
make_poll_add fd events v =
    new_request Operation.poll_add
      (Payload.poll_add (record { fd = fd; events = events; multishot = v.multishot })) v

unfoldable pub make_poll_remove : ℕ → CommonVars → IoRequest
make_poll_remove user_data v =
    new_request Operation.poll_remove
      (Payload.poll_remove
        (record { user_data = user_data; new_user_data = 0; events = 0; flags = 0 }))
      v

unfoldable pub make_poll_update : ℕ → ℕ → ℕ → ℕ → CommonVars → IoRequest
make_poll_update old_user_data new_user_data events flags v =
    new_request Operation.poll_remove
      (Payload.poll_remove (record {
        user_data = old_user_data;
        new_user_data = new_user_data;
        events = events;
        flags = flags;
      }))
      v

unfoldable pub make_sendmsg : ℤ → ℕ → ℕ → CommonVars → IoRequest
make_sendmsg fd msghdr flags v =
    new_request Operation.sendmsg
      (Payload.sendmsg (record { fd = fd; msghdr = msghdr; flags = flags })) v

unfoldable pub make_recvmsg : ℤ → ℕ → ℕ → CommonVars → IoRequest
make_recvmsg fd msghdr flags v =
    new_request Operation.recvmsg
      (Payload.recvmsg (record {
        fd = fd;
        msghdr = msghdr;
        flags = flags;
        multishot = v.multishot;
        buf_gid = v.buf_gid;
      }))
      v

unfoldable pub make_accept : ℤ → ℕ → ℕ → ℕ → CommonVars → IoRequest
make_accept fd addr len flags v =
    let r =
      new_request Operation.accept
        (Payload.accept (record {
          fd = fd;
          sockaddr = addr;
          socklen = len;
          flags = flags;
          file_index = v.file_index;
          multishot = v.multishot;
        }))
        v in
    if eqb_ℤ v.file_index invalid_fileindex then r else add_sqe_flag fixed_file r

unfoldable pub make_connect : ℤ → ℕ → ℕ → CommonVars → IoRequest
make_connect fd addr len v =
    new_request Operation.connect
      (Payload.connect (record { fd = fd; sockaddr = addr; socklen = len })) v

unfoldable pub make_send : ℤ → ℕ → ℕ → ℕ → CommonVars → IoRequest
make_send fd address size flags v =
    new_request Operation.send
      (Payload.send (record {
        fd = fd;
        addr = address;
        size = size;
        flags = flags;
        zc_flags = 0;
        file_index = v.file_index;
      }))
      v

unfoldable pub make_recv : ℤ → ℕ → ℕ → ℕ → CommonVars → IoRequest
make_recv fd address size flags v =
    let r =
      new_request Operation.recv
        (Payload.recv (record {
          fd = fd;
          addr = address;
          size = size;
          flags = if v.multishot then bit_or flags msg_waitall else flags;
          buf_gid = v.buf_gid;
        }))
        v in
    if v.buf_gid == invalid_buff_gid then r else add_sqe_flag buffer_select r

unfoldable pub make_epoll_ctl : ℤ → ℤ → ℤ → ℕ → CommonVars → IoRequest
make_epoll_ctl epfd fd op event v =
    new_request Operation.epoll_ctl
      (Payload.epoll_ctl (record { epfd = epfd; fd = fd; op = op; event = event })) v

unfoldable pub make_shutdown : ℤ → ℕ → CommonVars → IoRequest
make_shutdown fd how v =
    new_request Operation.shutdown (Payload.shutdown (record { fd = fd; how = how })) v

unfoldable pub make_socket : ℤ → ℤ → ℤ → ℕ → CommonVars → IoRequest
make_socket domain type protocol flags v =
    new_request Operation.fgetxattr
      (Payload.socket (record {
        domain = domain;
        type = type;
        protocol = protocol;
        flags = flags;
        file_index = v.file_index;
        direct_alloc = v.direct_alloc;
      }))
      v

unfoldable pub make_sendzc : ℤ → ℕ → ℕ → ℕ → ℕ → CommonVars → IoRequest
make_sendzc fd address size flags zc_flags v =
    new_request Operation.send_zc
      (Payload.send (record {
        fd = fd;
        addr = address;
        size = size;
        flags = flags;
        zc_flags = zc_flags;
        file_index = v.file_index;
      }))
      v

unfoldable pub make_sendmsgzc : ℤ → ℕ → ℕ → CommonVars → IoRequest
make_sendmsgzc fd msghdr flags v =
    new_request Operation.sendmsg_zc
      (Payload.sendmsg (record { fd = fd; msghdr = msghdr; flags = flags })) v

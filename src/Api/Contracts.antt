-- ===== src/Api/Contracts.antt =====
-- What the calls of iouring/io_uring_api.h ask for: of their arguments, and of the thread.
use iouring_cc.Common.{Bool, true, false, ◌==◌, ◌||◌, ◌&&◌, not, bit_and}
use iouring_cc.Request.Payload.{CommonVars, invalid_buff_gid}
use iouring_cc.Request.Flags.{buffer_select, msg_waitall}
use iouring_cc.Pools.{find_pool}
use iouring_cc.Sqe.Dispatch.{Context}
use iouring_cc.Sqe.Made.{is_some}
use iouring_cc.Api.Calls.{Call}

-- The operation is one that `PrepareSqe` knows. Where buffers are provided with a length of 0, or
-- removed, the group has a pool.
unfoldable pub supported : Context → Call → Bool
supported x Call.noop = true
supported x (Call.read_vector fd iovecs_data iovecs_size offset rw_flags) = true
supported x (Call.write_vector fd iovecs_data iovecs_size offset rw_flags) = true
supported x (Call.fsync fd flags) = true
supported x (Call.read_fixed fd buf count offset buf_index) = true
supported x (Call.write_fixed fd buf count offset buf_index) = true
supported x (Call.poll_add fd events) = true
supported x (Call.poll_remove user_data) = true
supported x (Call.file_sync_range fd len offset flags) = true
supported x (Call.send_msg_vector fd iov_data iov_size flags) = true
supported x (Call.send_msg fd msghdr flags) = true
supported x (Call.recv_msg_vector fd iov_data iov_size flags) = true
supported x (Call.recv_msg fd msghdr flags) = true
supported x (Call.timeout timeout_ns count flags) = true
supported x (Call.timeout_remove user_data flags) = false
supported x (Call.timeout_update timeout_ns user_data flags) = false
supported x (Call.accept sockfd addr addrlen flags) = true
supported x (Call.cancel user_data flags) = true
supported x (Call.cancel_64 user_data flags) = true
supported x (Call.cancel_fd fd flags) = true
supported x (Call.link_timeout timeout_ns flags) = true
supported x (Call.connect sockfd addr addrlen) = true
supported x (Call.fallocate fd mode offset len) = true
supported x (Call.openat dirfd pathname flags mode) = true
supported x (Call.close fd) = true
supported x (Call.files_update fds_data fds_size offset) = true
supported x (Call.statx dirfd pathname flags mask statxbuf) = true
supported x (Call.read fd buf count offset) = true
supported x (Call.write fd buf count offset) = true
supported x (Call.fadvise fd offset len advice) = true
supported x (Call.madvise addr len advice) = true
supported x (Call.send sockfd buf len flags) = true
supported x (Call.recv fd buf len flags) = true
supported x (Call.openat2 dirfd pathname how flags) = true
supported x (Call.epoll_ctl epfd fd op event) = true
supported x (Call.splice in_fd in_offset out_fd out_offset size flags) = true
supported x (Call.provide_buffer buffer len nbufs gid bid) =
    is_some (find_pool gid x.pools) || not (len == 0)
supported x (Call.remove_buffer nbufs gid) = is_some (find_pool gid x.pools)
supported x (Call.tee in_fd out_fd size flags) = true
supported x (Call.shutdown sockfd how) = true
supported x (Call.renameat olddirfd oldpath newdirfd newpath flags) = true
supported x (Call.unlinkat dirfd path flags) = true
supported x (Call.makedirat dirfd path mode) = true
supported x (Call.symlinkat target newdirfd linkpath) = true
supported x (Call.linkat olddirfd oldpath newdirfd newpath flags) = true
supported x (Call.msg_ring fd data_32 data_64 flags) = true
supported x (Call.fsetxattr fd name value flags len) = true
supported x (Call.setxattr path name value flags len) = true
supported x (Call.fgetxattr fd name value len) = true
supported x (Call.getxattr path name value len) = true
supported x (Call.socket domain type protocol flags) = false
supported x (Call.send_zc sockfd buf len flags zc_flags) = true
supported x (Call.send_msg_zc fd msghdr flags) = true

-- What the assertions of a call ask of its arguments.
unfoldable pub accepted : Call → CommonVars → Bool
accepted Call.noop v = true
accepted (Call.read_vector fd iovecs_data iovecs_size offset rw_flags) v = true
accepted (Call.write_vector fd iovecs_data iovecs_size offset rw_flags) v = true
accepted (Call.fsync fd flags) v = true
accepted (Call.read_fixed fd buf count offset buf_index) v = true
accepted (Call.write_fixed fd buf count offset buf_index) v = true
accepted (Call.poll_add fd events) v = true
accepted (Call.poll_remove user_data) v = true
accepted (Call.file_sync_range fd len offset flags) v = true
accepted (Call.send_msg_vector fd iov_data iov_size flags) v = true
accepted (Call.send_msg fd msghdr flags) v = true
accepted (Call.recv_msg_vector fd iov_data iov_size flags) v =
    not v.multishot
    || (not (v.buf_gid == invalid_buff_gid)
        && (not (bit_and v.sqe_flag buffer_select == 0) && not (bit_and flags msg_waitall == 0)))
accepted (Call.recv_msg fd msghdr flags) v =
    not v.multishot
    || (not (v.buf_gid == invalid_buff_gid)
        && (not (bit_and v.sqe_flag buffer_select == 0) && not (bit_and flags msg_waitall == 0)))
accepted (Call.timeout timeout_ns count flags) v = true
accepted (Call.timeout_remove user_data flags) v = true
accepted (Call.timeout_update timeout_ns user_data flags) v = true
accepted (Call.accept sockfd addr addrlen flags) v = true
accepted (Call.cancel user_data flags) v = true
accepted (Call.cancel_64 user_data flags) v = true
accepted (Call.cancel_fd fd flags) v = true
accepted (Call.link_timeout timeout_ns flags) v = true
accepted (Call.connect sockfd addr addrlen) v = true
accepted (Call.fallocate fd mode offset len) v = true
accepted (Call.openat dirfd pathname flags mode) v = true
accepted (Call.close fd) v = true
accepted (Call.files_update fds_data fds_size offset) v = true
accepted (Call.statx dirfd pathname flags mask statxbuf) v = true
accepted (Call.read fd buf count offset) v = not (buf == 0) || not (v.buf_gid == invalid_buff_gid)
accepted (Call.write fd buf count offset) v = true
accepted (Call.fadvise fd offset len advice) v = true
accepted (Call.madvise addr len advice) v = true
accepted (Call.send sockfd buf len flags) v = true
accepted (Call.recv fd buf len flags) v =
    (not (buf == 0) || not (v.buf_gid == invalid_buff_gid))
    && (not v.multishot || (not (buf == 0) && (len == 0 && not (v.buf_gid == invalid_buff_gid))))
accepted (Call.openat2 dirfd pathname how flags) v = true
accepted (Call.epoll_ctl epfd fd op event) v = true
accepted (Call.splice in_fd in_offset out_fd out_offset size flags) v = true
accepted (Call.provide_buffer buffer len nbufs gid bid) v = true
accepted (Call.remove_buffer nbufs gid) v = true
accepted (Call.tee in_fd out_fd size flags) v = true
accepted (Call.shutdown sockfd how) v = true
accepted (Call.renameat olddirfd oldpath newdirfd newpath flags) v = true
accepted (Call.unlinkat dirfd path flags) v = true
accepted (Call.makedirat dirfd path mode) v = true
accepted (Call.symlinkat target newdirfd linkpath) v = true
accepted (Call.linkat olddirfd oldpath newdirfd newpath flags) v = true
accepted (Call.msg_ring fd data_32 data_64 flags) v = true
accepted (Call.fsetxattr fd name value flags len) v = true
accepted (Call.setxattr path name value flags len) v = true
accepted (Call.fgetxattr fd name value len) v = true
accepted (Call.getxattr path name value len) v = true
accepted (Call.socket domain type protocol flags) v = true
accepted (Call.send_zc sockfd buf len flags zc_flags) v = true
accepted (Call.send_msg_zc fd msghdr flags) v = true

-- ===== src/Request/Operation.antt =====
-- The operations of iouring/io_request.h: `Operation` is the kernel's `io_uring_op`, of which the
-- program names those below; `other` stands for the rest, by number.
use Prim.Native.String.{String}
use iouring_cc.Common.{ℕ, Bool, true, false}

pub data Operation : Type 0 where
  nop readv writev fsync read_fixed write_fixed poll_add poll_remove sync_file_range sendmsg recvmsg
        timeout timeout_remove accept async_cancel link_timeout connect fallocate openat close
        files_update statx read write fadvise madvise send recv openat2 epoll_ctl splice
        provide_buffers remove_buffers tee shutdown renameat unlinkat mkdirat symlinkat linkat
        msg_ring fsetxattr setxattr fgetxattr getxattr socket uring_cmd send_zc sendmsg_zc :
      Operation
  other : ℕ → Operation

unfoldable pub operation_str : Operation → String
operation_str nop = "NOP"
operation_str readv = "READV"
operation_str writev = "WRITEV"
operation_str fsync = "FSYNC"
operation_str read_fixed = "READFIXED"
operation_str write_fixed = "WRITEFIXED"
operation_str poll_add = "POLL_ADD"
operation_str poll_remove = "POLL_REMOVE"
operation_str sync_file_range = "IORING_OP_SYNC_FILE_RANGE"
operation_str sendmsg = "SENDMSG"
operation_str recvmsg = "RECVMSG"
operation_str timeout = "TIMEOUT"
operation_str timeout_remove = "IORING_OP_TIMEOUT_REMOVE"
operation_str accept = "ACCEPT"
operation_str async_cancel = "CANCEL"
operation_str link_timeout = "IORING_OP_LINK_TIMEOUT"
operation_str connect = "CONNECT"
operation_str fallocate = "FALLOCATE"
operation_str openat = "OPENAT"
operation_str close = "CLOSE"
operation_str files_update = "IORING_OP_FILES_UPDATE"
operation_str statx = "STATX"
operation_str read = "READ"
operation_str write = "WRITE"
operation_str fadvise = "IORING_OP_FADVISE"
operation_str madvise = "IORING_OP_MADVISE"
operation_str send = "SEND"
operation_str recv = "RECV"
operation_str openat2 = "IORING_OP_OPENAT2"
operation_str epoll_ctl = "EPOLL_CTL"
operation_str splice = "SPLICE"
operation_str provide_buffers = "PROVIDE_BUFFERS"
operation_str remove_buffers = "REMOVE_BUFFERS"
operation_str tee = "TEE"
operation_str shutdown = "SHUTDOWN"
operation_str renameat = "RENAMEAT"
operation_str unlinkat = "UNLINKAT"
operation_str mkdirat = "MAKEDIRAT"
operation_str symlinkat = "SYMLINKAT"
operation_str linkat = "LINKAT"
operation_str msg_ring = "IORING_OP_MSG_RING"
operation_str fsetxattr = "IORING_OP_FSETXATTR"
operation_str setxattr = "IORING_OP_SETXATTR"
operation_str fgetxattr = "IORING_OP_FGETXATTR"
operation_str getxattr = "IORING_OP_GETXATTR"
operation_str socket = "IORING_OP_SOCKET"
operation_str uring_cmd = "IORING_OP_URING_CMD"
operation_str send_zc = "IORING_OP_SEND_ZC"
operation_str sendmsg_zc = "IORING_OP_SENDMSG_ZC"
operation_str (other n) = "UNKNOWN"

-- `IsRead`.
unfoldable pub is_read : Operation → Bool
is_read read = true
is_read readv = true
is_read recvmsg = true
is_read recv = true
is_read read_fixed = true
is_read _ = false

-- `IsWrite`.
unfoldable pub is_write : Operation → Bool
is_write write = true
is_write writev = true
is_write sendmsg = true
is_write send = true
is_write send_zc = true
is_write sendmsg_zc = true
is_write write_fixed = true
is_write _ = false

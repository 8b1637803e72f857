-- ===== src/Request/Payload.antt =====
-- `IoApiCommonVars` and `IoRequest` of iouring/io_request.h: the operation, the union of the operands
-- and the flags. The union is the operand that was written last, and reading another member of it is
-- undefined behaviour.
use iouring_cc.Common.{ℕ, ◌%◌, ◌^◌, ◌-◌, Bool, true, false, bit_or}
use iouring_cc.Common.Int.{ℤ, pos, negsuc}
use iouring_cc.Request.Operation.{Operation}
use iouring_cc.Request.FileOps.{
  NoOp, ReadvOp, WritevOp, FsyncOp, ReadFixedOp, WriteFixedOp, SyncFileRangeOp, FallocateOp,
  OpenatOp, CloseOp, FilesUpdateOp, ReadOp, WriteOp, FadviseOp, MadviseOp, Openat2Op, StatxOp,
  SpliceOp, TeeOp,
}
use iouring_cc.Request.NetOps.{
  SendmsgOp, RecvmsgOp, AcceptOp, ConnectOp, SendOp, RecvOp, ShutdownOp, EpollCtlOp, SocketOp,
  PollAddOp, PollRemoveOp,
}
use iouring_cc.Request.MiscOps.{
  TimeoutOp, TimeoutRemoveOp, CancelOp, LinkTimeoutOp, ProvideBuffOp, RenameatOp, UnlinkatOp,
  MakediratOp, SymlinkatOp, LinkatOp, MsgringOp, XattrOp,
}

abbrev pub invalid_buff_gid : ℕ
invalid_buff_gid = 0

abbrev pub invalid_fileindex : ℤ
invalid_fileindex = negsuc 0

abbrev pub invalid_socket : ℤ
invalid_socket = negsuc 0

pub record CommonVars : Type 0 where
  pub sqe_flag : ℕ
  pub op_flag : ℕ
  pub multishot : Bool
  pub buf_gid : ℕ
  pub file_index : ℤ
  pub ioprio : ℕ
  pub direct_alloc : Bool

-- The constructors leave `ioprio_` as the memory is: it is an argument.
unfoldable pub new_common_vars : ℕ → ℕ → ℕ → CommonVars
new_common_vars ioprio sqe_flag op_flag = record {
  sqe_flag = sqe_flag;
  op_flag = op_flag;
  multishot = false;
  buf_gid = invalid_buff_gid;
  file_index = invalid_fileindex;
  ioprio = ioprio;
  direct_alloc = false;
}

unfoldable pub set_sqe_flag : ℕ → CommonVars → CommonVars
set_sqe_flag f v = record v { sqe_flag = f }

unfoldable pub set_op_flag : ℕ → CommonVars → CommonVars
set_op_flag f v = record v { op_flag = f }

unfoldable pub set_multishot : CommonVars → CommonVars
set_multishot v = record v { multishot = true }

-- The argument is an `int32_t`, the field a `uint32_t`.
abbrev word32 : ℤ → ℕ
word32 (pos n) = n % 2 ^ 32
word32 (negsuc n) = 2 ^ 32 - 1 - n % 2 ^ 32

unfoldable pub set_gid : ℤ → CommonVars → CommonVars
set_gid g v = record v { buf_gid = word32 g }

unfoldable pub set_file_index : ℤ → CommonVars → CommonVars
set_file_index i v = record v { file_index = i }

unfoldable pub set_ioprio : ℕ → CommonVars → CommonVars
set_ioprio p v = record v { ioprio = p }

unfoldable pub set_direct_alloc : CommonVars → CommonVars
set_direct_alloc v = record v { direct_alloc = true }

pub data Payload : Type 0 where
  noop : NoOp → Payload
  read : ReadOp → Payload
  readv : ReadvOp → Payload
  recv : RecvOp → Payload
  recvmsg : RecvmsgOp → Payload
  send : SendOp → Payload
  sendmsg : SendmsgOp → Payload
  write : WriteOp → Payload
  writev : WritevOp → Payload
  accept : AcceptOp → Payload
  connect : ConnectOp → Payload
  poll_add : PollAddOp → Payload
  poll_remove : PollRemoveOp → Payload
  cancel : CancelOp → Payload
  fallocate : FallocateOp → Payload
  close : CloseOp → Payload
  fsync : FsyncOp → Payload
  read_fixed : ReadFixedOp → Payload
  write_fixed : WriteFixedOp → Payload
  timeout : TimeoutOp → Payload
  timeout_remove : TimeoutRemoveOp → Payload
  link_timeout : LinkTimeoutOp → Payload
  openat : OpenatOp → Payload
  statx : StatxOp → Payload
  splice : SpliceOp → Payload
  tee : TeeOp → Payload
  shutdown : ShutdownOp → Payload
  renameat : RenameatOp → Payload
  symlinkat : SymlinkatOp → Payload
  linkat : LinkatOp → Payload
  unlinkat : UnlinkatOp → Payload
  makedirat : MakediratOp → Payload
  epoll_ctl : EpollCtlOp → Payload
  provide_buff : ProvideBuffOp → Payload
  sync_filerange : SyncFileRangeOp → Payload
  files_update : FilesUpdateOp → Payload
  fadvise : FadviseOp → Payload
  madvise : MadviseOp → Payload
  openat2 : Openat2Op → Payload
  msgring : MsgringOp → Payload
  xattr : XattrOp → Payload
  socket : SocketOp → Payload

pub record IoRequest : Type 0 where
  pub operation : Operation
  pub payload : Payload
  pub sqe_flag : ℕ
  pub op_flag : ℕ

-- A request as each `make_` function leaves it before the flags that it adds.
abbrev pub new_request : Operation → Payload → CommonVars → IoRequest
new_request op p v = record {
  operation = op;
  payload = p;
  sqe_flag = v.sqe_flag;
  op_flag = v.op_flag;
}

-- `flags_.sqe_flag |= f`.
abbrev pub add_sqe_flag : ℕ → IoRequest → IoRequest
add_sqe_flag f r = record r { sqe_flag = bit_or r.sqe_flag f }

-- ===== src/Sqe/Dispatch.antt =====
-- The switch of `IoUring::PrepareSqe` of iouring/io_uring.cc.
use iouring_cc.Common.{ℕ, List}
use iouring_cc.Common.Int.{ℤ}
use iouring_cc.Common.Outcome.{Outcome, done, aborted, undefined, running, ◌>>=◌}
use iouring_cc.Files.Table.{Table}
use iouring_cc.Pools.{BufferPool}
use iouring_cc.Request.Operation.{Operation}
use iouring_cc.Request.Payload.{IoRequest}
use iouring_cc.Sqe.Entry.{Sqe}
use iouring_cc.Sqe.File.{
  read, readv, write, writev, fallocate, close, fsync, read_fixed, write_fixed, openat, statx,
  splice, tee, file_sync_range, files_update, fadvise, madvise, openat2,
}
use iouring_cc.Sqe.Net.{
  accept, connect, recv, send, recvmsg, sendmsg, poll_add, poll_remove, shutdown, epoll_ctl, socket,
  send_zc, sendmsg_zc,
}
use iouring_cc.Sqe.Misc.{
  noop, timeout, renameat, symlinkat, linkat, unlinkat, makedirat, provide_buffer, remove_buffer,
  cancel, link_timeout, msgring, fsetxattr, setxattr, fgetxattr, getxattr,
}

-- What the handlers read of the ring.
pub record Context : Type 0 where
  pub files : Table
  pub pools : List (ℤ × BufferPool)

-- A filled entry, with the buffer pools that are left; `unimplemented` is the default case, which
-- fills nothing in.
pub data Prepared : Type 0 where
  filled : Sqe → List (ℤ × BufferPool) → Prepared
  unimplemented : Prepared

-- A handler that leaves the pools as they are.
abbrev pub keep_pools : Context → Outcome Sqe → Outcome Prepared
keep_pools x (done s) = done (filled s x.pools)
keep_pools x aborted = aborted
keep_pools x undefined = undefined
keep_pools x running = running

unfoldable pub dispatch : Operation → Context → IoRequest → ℕ → Sqe → Outcome Prepared
dispatch Operation.nop x r c s = keep_pools x (noop r c s)
dispatch Operation.read x r c s = keep_pools x (read x.files r c s)
dispatch Operation.readv x r c s = keep_pools x (readv r c s)
dispatch Operation.write x r c s = keep_pools x (write x.files r c s)
dispatch Operation.writev x r c s = keep_pools x (writev r c s)
dispatch Operation.accept x r c s = keep_pools x (accept r c s)
dispatch Operation.connect x r c s = keep_pools x (connect r c s)
dispatch Operation.recv x r c s = keep_pools x (recv r c s)
dispatch Operation.send x r c s = keep_pools x (send r c s)
dispatch Operation.recvmsg x r c s = keep_pools x (recvmsg r c s)
dispatch Operation.sendmsg x r c s = keep_pools x (sendmsg r c s)
dispatch Operation.fallocate x r c s = keep_pools x (fallocate r c s)
dispatch Operation.close x r c s = keep_pools x (close r c s)
dispatch Operation.fsync x r c s = keep_pools x (fsync r c s)
dispatch Operation.poll_add x r c s = keep_pools x (poll_add r c s)
dispatch Operation.poll_remove x r c s = keep_pools x (poll_remove r c s)
dispatch Operation.read_fixed x r c s = keep_pools x (read_fixed r c s)
dispatch Operation.write_fixed x r c s = keep_pools x (write_fixed r c s)
dispatch Operation.timeout x r c s = keep_pools x (timeout r c s)
dispatch Operation.openat x r c s = keep_pools x (openat r c s)
dispatch Operation.statx x r c s = keep_pools x (statx r c s)
dispatch Operation.splice x r c s = keep_pools x (splice r c s)
dispatch Operation.tee x r c s = keep_pools x (tee r c s)
dispatch Operation.shutdown x r c s = keep_pools x (shutdown r c s)
dispatch Operation.renameat x r c s = keep_pools x (renameat r c s)
dispatch Operation.symlinkat x r c s = keep_pools x (symlinkat r c s)
dispatch Operation.linkat x r c s = keep_pools x (linkat r c s)
dispatch Operation.unlinkat x r c s = keep_pools x (unlinkat r c s)
dispatch Operation.mkdirat x r c s = keep_pools x (makedirat r c s)
dispatch Operation.epoll_ctl x r c s = keep_pools x (epoll_ctl r c s)
dispatch Operation.provide_buffers x r c s = keep_pools x (provide_buffer x.pools r c s)
dispatch Operation.remove_buffers x r c s = do
  (s', pools) ← remove_buffer x.pools r c s
  done (filled s' pools)
dispatch Operation.async_cancel x r c s = keep_pools x (cancel r c s)
dispatch Operation.link_timeout x r c s = keep_pools x (link_timeout r c s)
dispatch Operation.sync_file_range x r c s = keep_pools x (file_sync_range r c s)
dispatch Operation.files_update x r c s = keep_pools x (files_update r c s)
dispatch Operation.fadvise x r c s = keep_pools x (fadvise r c s)
dispatch Operation.madvise x r c s = keep_pools x (madvise r c s)
dispatch Operation.openat2 x r c s = keep_pools x (openat2 r c s)
dispatch Operation.msg_ring x r c s = keep_pools x (msgring r c s)
dispatch Operation.fsetxattr x r c s = keep_pools x (fsetxattr r c s)
dispatch Operation.setxattr x r c s = keep_pools x (setxattr r c s)
dispatch Operation.fgetxattr x r c s = keep_pools x (fgetxattr r c s)
dispatch Operation.getxattr x r c s = keep_pools x (getxattr r c s)
dispatch Operation.socket x r c s = keep_pools x (socket r c s)
dispatch Operation.send_zc x r c s = keep_pools x (send_zc r c s)
dispatch Operation.sendmsg_zc x r c s = keep_pools x (sendmsg_zc r c s)
dispatch _ x r c s = done unimplemented

-- `switch (req->OpCode())`.
abbrev pub fill : Context → IoRequest → ℕ → Sqe → Outcome Prepared
fill x r c s = dispatch r.operation x r c s

-- ===== src/Sqe/Once.antt =====
-- How many `io_uring_prep_` calls a handler makes.
use iouring_cc.Common.{ℕ, ◌≡◌, ◌≢◌, refl, List, [], ◌∷◌, Option, none, some, arith}
use iouring_cc.Common.Int.{ℤ}
use iouring_cc.Common.Outcome.{done}
use iouring_cc.Pools.{BufferPool}
use iouring_cc.Request.Operation.{Operation}
use iouring_cc.Request.Payload.{IoRequest}
use iouring_cc.Sqe.Entry.{Prep, Sqe}
use iouring_cc.Sqe.Dispatch.{Context, filled, dispatch}
use iouring_cc.Sqe.File.{
  read, readv, write, writev, fallocate, fsync, read_fixed, write_fixed, openat, statx, splice, tee,
  file_sync_range, files_update, fadvise, madvise, openat2,
}
use iouring_cc.Sqe.Net.{
  accept, connect, recv, send, recvmsg, sendmsg, poll_add, poll_remove, shutdown, epoll_ctl, socket,
  send_zc, sendmsg_zc,
}
use iouring_cc.Sqe.Misc.{
  noop, timeout, renameat, symlinkat, unlinkat, makedirat, provide_buffer, remove_buffer,
  link_timeout, msgring, fsetxattr, setxattr, fgetxattr, getxattr,
}

-- The calls before the last one.
abbrev pub earlier : List Prep → Option (List Prep)
earlier [] = none
earlier (p ∷ ps) = some ps

-- For every operation but linkat, close and cancel, a handler that fills in an entry makes exactly
-- one `io_uring_prep_` call on it.
pub dispatch_prepares_once :
    (op : Operation) (x : Context) (r : IoRequest) (c : ℕ) (s s' : Sqe)
    (pools : List (ℤ × BufferPool))
    → op ≢ Operation.linkat
    → op ≢ Operation.close
    → op ≢ Operation.async_cancel
    → dispatch op x r c s ≡ done (filled s' pools)
    → earlier s'.calls ≡ some s.calls
unfolding dispatch accept connect epoll_ctl fadvise fallocate fgetxattr file_sync_range files_update
    fsetxattr fsync getxattr link_timeout madvise makedirat msgring noop openat openat2 poll_add
    poll_remove provide_buffer read read_fixed readv recv recvmsg remove_buffer renameat send
    send_zc sendmsg sendmsg_zc setxattr shutdown socket splice statx symlinkat tee timeout unlinkat
    write write_fixed writev
dispatch_prepares_once Operation.linkat x r c s s' pools a b d h = absurd (a refl)
dispatch_prepares_once Operation.close x r c s s' pools a b d h = absurd (b refl)
dispatch_prepares_once Operation.async_cancel x r c s s' pools a b d h = absurd (d refl)
dispatch_prepares_once _ x r c s s' pools a b d h = ground arith

-- ===== src/Sqe/Carries.antt =====
-- What every handler writes.
use iouring_cc.Common.{ℕ, ◌%◌, ◌^◌, ◌≡◌, ◌⊎◌, List, bit_or, arith}
use iouring_cc.Common.Int.{ℤ}
use iouring_cc.Common.Outcome.{done}
use iouring_cc.Pools.{BufferPool}
use iouring_cc.Request.Flags.{fixed_file}
use iouring_cc.Request.Operation.{Operation}
use iouring_cc.Request.Payload.{IoRequest}
use iouring_cc.Sqe.Entry.{Sqe}
use iouring_cc.Sqe.Dispatch.{Context, filled, dispatch}
use iouring_cc.Sqe.File.{
  read, readv, write, writev, fallocate, close, fsync, read_fixed, write_fixed, openat, statx,
  splice, tee, file_sync_range, files_update, fadvise, madvise, openat2,
}
use iouring_cc.Sqe.Net.{
  accept, connect, recv, send, recvmsg, sendmsg, poll_add, poll_remove, shutdown, epoll_ctl, socket,
  send_zc, sendmsg_zc,
}
use iouring_cc.Sqe.Misc.{
  noop, timeout, renameat, symlinkat, linkat, unlinkat, makedirat, provide_buffer, remove_buffer,
  cancel, link_timeout, msgring, fsetxattr, setxattr, fgetxattr, getxattr,
}

-- The entry carries the completion, and the request's flags, to which a handler may add
-- `IOSQE_FIXED_FILE`.
abbrev pub Carries : IoRequest → ℕ → Sqe → Type 0
Carries r c s =
    (s.user_data ≡ c)
    × ((s.flags ≡ r.sqe_flag % 2 ^ 8) ⊎ (s.flags ≡ bit_or r.sqe_flag fixed_file % 2 ^ 8))

module _ (x : Context) (r : IoRequest) (c : ℕ) (s s' : Sqe) (pools : List (ℤ × BufferPool)) where
  -- Whatever the operation, an entry that the switch of `PrepareSqe` has filled carries the address
  -- of the completion, and the request's flags, with `IOSQE_FIXED_FILE` or without.
  pub dispatch-Carries :
      (op : Operation) → dispatch op x r c s ≡ done (filled s' pools) → Carries r c s'
  unfolding dispatch accept cancel close connect epoll_ctl fadvise fallocate fgetxattr
      file_sync_range files_update fsetxattr fsync getxattr link_timeout linkat madvise makedirat
      msgring noop openat openat2 poll_add poll_remove provide_buffer read read_fixed readv recv
      recvmsg remove_buffer renameat send send_zc sendmsg sendmsg_zc setxattr shutdown socket splice
      statx symlinkat tee timeout unlinkat write write_fixed writev
  dispatch-Carries Operation.nop h = ground arith
  dispatch-Carries _ h = ground arith

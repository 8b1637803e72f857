-- ===== src/Sqe/Fills.antt =====
-- The requests that the `make_` functions build are filled in: each carries the member of the union
-- that the handler of its operation reads.
use iouring_cc.Common.{
  ℕ, ◌==◌, ◌||◌, ◌≡◌, not, Bool, true, false, Option, List, none, some, arith, refl, if◌then◌else◌,
}
use iouring_cc.Common.Int.{ℤ}
use iouring_cc.Common.Outcome.{Outcome, done, aborted, undefined, running, ◌>>=◌}
use iouring_cc.Pools.{BufferPool, find_pool, pool_size, pool_count}
use iouring_cc.Request.Payload.{IoRequest}
use iouring_cc.Sqe.Entry.{Sqe}
use iouring_cc.Sqe.Dispatch.{Context, keep_pools, Prepared, filled, unimplemented, dispatch}
use iouring_cc.Sqe.File.{
  read, readv, write, writev, fallocate, close, fsync, read_fixed, write_fixed, openat, statx,
  splice, tee, file_sync_range, files_update, fadvise, madvise, openat2,
}
use iouring_cc.Sqe.Net.{
  accept, connect, recv, send, recvmsg, sendmsg, poll_add, poll_remove, shutdown, epoll_ctl, socket,
  send_zc, sendmsg_zc,
}
use iouring_cc.Sqe.Misc.{
  noop, timeout, renameat, symlinkat, linkat, unlinkat, makedirat, provide_buffer, remove_buffer,
  cancel, link_timeout, msgring, fsetxattr, setxattr, fgetxattr, getxattr,
}
use iouring_cc.Request.MakeFile.{
  make_noop, make_readv, make_writev, make_fsync, make_read_fixed, make_write_fixed,
  make_sync_filerange, make_fallocate, make_openat, make_close, make_files_update, make_statx,
  make_read, make_write, make_fadvise, make_madvise, make_openat2, make_splice, make_tee,
}
use iouring_cc.Request.MakeNet.{
  make_poll_add, make_poll_remove, make_poll_update, make_sendmsg, make_recvmsg, make_accept,
  make_connect, make_send, make_recv, make_epoll_ctl, make_shutdown, make_sendzc, make_sendmsgzc,
}
use iouring_cc.Request.MakeMisc.{
  make_timeout, make_cancel, make_link_timeout, make_provide_buffer, make_remove_buffer,
  make_renameat, make_unlinkat, make_makedirat, make_symlinkat, make_linkat, make_msgring,
  make_fsetxattr, make_setxattr, make_fgetxattr, make_getxattr,
}
use iouring_cc.Sqe.Made.{Made, is_some}

abbrev pub is_filled : Outcome Prepared → Bool
is_filled (done (filled s pools)) = true
is_filled (done unimplemented) = false
is_filled aborted = false
is_filled undefined = false
is_filled running = false

-- The length of a provided buffer is given, or that of the group's pool.
length_known :
    (x : Context) (o : Option BufferPool) (zero_length : Bool) (n : ℕ) (f : ℕ → Sqe)
    → (is_some o || not zero_length) ≡ true
    → is_filled (keep_pools x ((if zero_length then pool_size o else done n) >>= λ m. done (f m)))
      ≡ true
length_known x o false n f h = refl
length_known x (some p) true n f h = refl
length_known x none true n f h = cc

-- The pool of a group that buffers are removed from is known.
count_known :
    (o : Option BufferPool) (f : ℕ → Sqe) (g : ℕ → List (ℤ × BufferPool))
    → is_some o ≡ true
    → is_filled (
        ◌>>=◌ {A = Sqe × List (ℤ × BufferPool)}
          (pool_count o >>= λ n. done (f n, g n))
          (λ p. done (filled p.0 p.1)))
      ≡ true
count_known (some p) f g h = refl
count_known none f g h = cc

-- The switch of `PrepareSqe` fills in the entry of a request that a `make_` function built, other
-- than a timeout's removal or update and a socket, where a request that removes buffers, or provides
-- buffers of length 0, has a pool for its group: the switch neither aborts, nor reads a member of the
-- union that is not the active one, nor falls through to the default case.
pub dispatch-Made :
    (x : Context) (r : IoRequest) (c : ℕ) (s : Sqe)
    → Made x r
    → is_filled (dispatch r.operation x r c s) ≡ true
unfolding dispatch accept cancel close connect epoll_ctl fadvise fallocate fgetxattr file_sync_range
    files_update fsetxattr fsync getxattr link_timeout linkat madvise makedirat msgring noop openat
    openat2 poll_add poll_remove provide_buffer read read_fixed readv recv recvmsg remove_buffer
    renameat send send_zc sendmsg sendmsg_zc setxattr shutdown socket splice statx symlinkat tee
    timeout unlinkat write write_fixed writev make_accept make_cancel make_close make_connect
    make_epoll_ctl make_fadvise make_fallocate make_fgetxattr make_files_update make_fsetxattr
    make_fsync make_getxattr make_link_timeout make_linkat make_madvise make_makedirat make_msgring
    make_noop make_openat make_openat2 make_poll_add make_poll_remove make_poll_update
    make_provide_buffer make_read make_read_fixed make_readv make_recv make_recvmsg
    make_remove_buffer make_renameat make_send make_sendmsg make_sendmsgzc make_sendzc make_setxattr
    make_shutdown make_splice make_statx make_symlinkat make_sync_filerange make_tee make_timeout
    make_unlinkat make_write make_write_fixed make_writev
dispatch-Made x r c s (Made.noop v) = ground arith
dispatch-Made x r c s (Made.provide_buffer buffer len nbufs gid bid v h) =
    length_known x (find_pool gid x.pools) (len == 0) len _ h
dispatch-Made x r c s (Made.remove_buffer nbufs gid v h) = count_known (find_pool gid x.pools) _ _ h
dispatch-Made x r c s _ = ground arith

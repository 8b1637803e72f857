-- ===== src/Sqe/Misc.antt =====
-- The handlers of iouring/io_uring.cc for path, timer, buffer and ring operations: `r` is the request, `c` the address of its
-- completion and `s` the entry from `GetSqe`.
use iouring_cc.Common.{ℕ, ◌==◌, ◌&&◌, ◌||◌, not, some, List, if◌then◌else◌}
use iouring_cc.Common.Int.{ℤ, pos, negsuc, eqb_ℤ, ltb_ℤ}
use iouring_cc.Common.Outcome.{Outcome, done, ◌>>=◌}
use iouring_cc.Time.{no_timespec, chrono_to_kts}
use iouring_cc.Pools.{BufferPool, find_pool, erase_pool, pool_size, pool_count}
use iouring_cc.Request.Payload.{IoRequest, invalid_socket}
use iouring_cc.Request.Members.{
  as_cancel, as_link_timeout, as_linkat, as_makedirat, as_msgring, as_noop, as_provide_buff,
  as_renameat, as_symlinkat, as_timeout, as_timeout_remove, as_unlinkat, as_xattr,
}
use iouring_cc.Sqe.Entry.{to_local, Prep, Sqe, prep, finish}

unfoldable pub noop : IoRequest → ℕ → Sqe → Outcome Sqe
unfolding prep finish as_noop
noop r c s = do _ ← as_noop r.payload; done (finish r c (prep Prep.nop s))

unfoldable pub timeout : IoRequest → ℕ → Sqe → Outcome Sqe
unfolding prep finish as_timeout
timeout r c s = do
  op ← as_timeout r.payload
  let ts = record no_timespec { tv_nsec = some op.timeout } in
      done (finish r c (prep (Prep.timeout (to_local ts) op.count op.flags) s))

unfoldable pub timeout_remove : IoRequest → ℕ → Sqe → Outcome Sqe
unfolding prep finish as_timeout_remove
timeout_remove r c s = do
  op ← as_timeout_remove r.payload
  let ts = record no_timespec { tv_nsec = some op.timeout } in
      if not (op.user_data == 0) && ltb_ℤ (pos 0) op.timeout
      then done (finish r c (prep (Prep.timeout_update (to_local ts) op.user_data op.flags) s))
      else done (finish r c (prep (Prep.timeout_remove op.user_data op.flags) s))

unfoldable pub link_timeout : IoRequest → ℕ → Sqe → Outcome Sqe
unfolding prep finish as_link_timeout chrono_to_kts
link_timeout r c s = do
  op ← as_link_timeout r.payload
  let ts = chrono_to_kts op.timeout in
      done (finish r c (prep (Prep.link_timeout (to_local ts) op.flags) s))

unfoldable pub renameat : IoRequest → ℕ → Sqe → Outcome Sqe
unfolding prep finish as_renameat
renameat r c s = do
  op ← as_renameat r.payload
  if eqb_ℤ op.olddirfd (negsuc 0) || eqb_ℤ op.newdirfd (negsuc 0)
      then done (finish r c (prep (Prep.rename op.oldpath op.newpath) s))
      else done (
          finish r c
            (prep (Prep.renameat op.olddirfd op.oldpath op.newdirfd op.newpath op.flags) s))

unfoldable pub symlinkat : IoRequest → ℕ → Sqe → Outcome Sqe
unfolding prep finish as_symlinkat
symlinkat r c s = do
  op ← as_symlinkat r.payload
  if eqb_ℤ op.newdirfd (negsuc 0)
      then done (finish r c (prep (Prep.symlink op.target op.linkpath) s))
      else done (finish r c (prep (Prep.symlinkat op.target op.newdirfd op.linkpath) s))

unfoldable pub linkat : IoRequest → ℕ → Sqe → Outcome Sqe
unfolding prep finish as_linkat
linkat r c s = do
  op ← as_linkat r.payload
  let s' =
        if eqb_ℤ op.olddirfd (negsuc 0) || eqb_ℤ op.newdirfd (negsuc 0)
        then prep (Prep.link op.oldpath op.newpath op.flags) s
        else s in
      done
        (finish r c (prep (Prep.linkat op.olddirfd op.oldpath op.newdirfd op.newpath op.flags) s'))

unfoldable pub unlinkat : IoRequest → ℕ → Sqe → Outcome Sqe
unfolding prep finish as_unlinkat
unlinkat r c s = do
  op ← as_unlinkat r.payload
  if eqb_ℤ op.dirfd (negsuc 0)
      then done (finish r c (prep (Prep.unlink op.path op.flags) s))
      else done (finish r c (prep (Prep.unlinkat op.dirfd op.path op.flags) s))

unfoldable pub makedirat : IoRequest → ℕ → Sqe → Outcome Sqe
unfolding prep finish as_makedirat
makedirat r c s = do
  op ← as_makedirat r.payload
  if eqb_ℤ op.dirfd (negsuc 0)
      then done (finish r c (prep (Prep.mkdir op.path op.mode) s))
      else done (finish r c (prep (Prep.mkdirat op.dirfd op.path op.mode) s))

unfoldable pub cancel : IoRequest → ℕ → Sqe → Outcome Sqe
unfolding prep finish as_cancel
cancel r c s = do
  op ← as_cancel r.payload
  done (
      finish r c (
        if not (op.user_data == 0)
        then prep (Prep.cancel op.user_data op.flags) s
        else if not (op.user_data_64 == 0)
        then prep (Prep.cancel64 op.user_data_64 op.flags) s
        else if not (eqb_ℤ op.fd invalid_socket)
        then prep (Prep.cancel_fd op.fd op.flags) s
        else s))

unfoldable pub fsetxattr : IoRequest → ℕ → Sqe → Outcome Sqe
unfolding prep finish as_xattr
fsetxattr r c s = do
  op ← as_xattr r.payload
  done (finish r c (prep (Prep.fsetxattr op.fd op.name op.value op.flags op.len) s))

unfoldable pub setxattr : IoRequest → ℕ → Sqe → Outcome Sqe
unfolding prep finish as_xattr
setxattr r c s = do
  op ← as_xattr r.payload
  done (finish r c (prep (Prep.setxattr op.name op.value op.path op.flags op.len) s))

unfoldable pub fgetxattr : IoRequest → ℕ → Sqe → Outcome Sqe
unfolding prep finish as_xattr
fgetxattr r c s = do
  op ← as_xattr r.payload
  done (finish r c (prep (Prep.fgetxattr op.fd op.name op.value op.len) s))

unfoldable pub getxattr : IoRequest → ℕ → Sqe → Outcome Sqe
unfolding prep finish as_xattr
getxattr r c s = do
  op ← as_xattr r.payload
  done (finish r c (prep (Prep.getxattr op.name op.value op.path op.len) s))

unfoldable pub msgring : IoRequest → ℕ → Sqe → Outcome Sqe
unfolding prep finish as_msgring
msgring r c s = do
  op ← as_msgring r.payload
  done (finish r c (prep (Prep.msg_ring op.fd op.data_32 op.data_64 op.flags) s))

-- With a length of 0 the buffer size of the group's pool is read through `find`, unchecked.
unfoldable pub provide_buffer : List (ℤ × BufferPool) → IoRequest → ℕ → Sqe → Outcome Sqe
unfolding prep finish as_provide_buff
provide_buffer pools r c s = do
  op ← as_provide_buff r.payload
  msg_len ← if op.len == 0 then pool_size (find_pool op.gid pools) else done op.len
  done (finish r c (prep (Prep.provide_buffers op.buffer msg_len op.nbufs op.gid op.bid) s))

-- The pool of the group goes if the number of buffers is 0 after it was looked up.
unfoldable pub remove_buffer :
    List (ℤ × BufferPool) → IoRequest → ℕ → Sqe → Outcome (Sqe × List (ℤ × BufferPool))
unfolding prep finish as_provide_buff
remove_buffer pools r c s = do
  op ← as_provide_buff r.payload
  count ← pool_count (find_pool op.gid pools)
  let nbufs = if op.nbufs == 0 then count else op.nbufs
  let s' = finish r c (prep (Prep.remove_buffers nbufs op.gid) s)
  done (s', if nbufs == 0 then erase_pool op.gid pools else pools)

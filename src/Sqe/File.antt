-- ===== src/Sqe/File.antt =====
-- The handlers of iouring/io_uring.cc for file operations: `r` is the request, `c` the address of its
-- completion and `s` the entry from `GetSqe`.
use iouring_cc.Common.{ℕ, ◌==◌, not, if◌then◌else◌}
use iouring_cc.Common.Int.{pos, eqb_ℤ, ltb_ℤ}
use iouring_cc.Common.Outcome.{Outcome, done, ◌>>=◌}
use iouring_cc.Files.Table.{Table, look_up, invalid_id}
use iouring_cc.Request.Flags.{fixed_file}
use iouring_cc.Request.Payload.{IoRequest, add_sqe_flag, invalid_fileindex}
use iouring_cc.Request.Members.{
  as_close, as_fadvise, as_fallocate, as_files_update, as_fsync, as_madvise, as_openat, as_openat2,
  as_read, as_read_fixed, as_readv, as_splice, as_statx, as_sync_filerange, as_tee, as_write,
  as_write_fixed, as_writev,
}
use iouring_cc.Sqe.Entry.{Prep, Sqe, prep, finish, set_buf_group}

unfoldable pub read_fixed : IoRequest → ℕ → Sqe → Outcome Sqe
unfolding prep finish as_read_fixed
read_fixed r c s = do
  op ← as_read_fixed r.payload
  done (finish r c (prep (Prep.read_fixed op.fd op.addr op.size op.offset op.index) s))

unfoldable pub readv : IoRequest → ℕ → Sqe → Outcome Sqe
unfolding prep finish as_readv
readv r c s = do
  op ← as_readv r.payload
  if op.rw_flags == 0
      then done (finish r c (prep (Prep.readv op.fd op.iov op.iov_len op.offset) s))
      else done (finish r c (prep (Prep.readv2 op.fd op.iov op.iov_len op.offset op.rw_flags) s))

unfoldable pub write : Table → IoRequest → ℕ → Sqe → Outcome Sqe
unfolding prep finish as_write look_up
write files r c s = do
  op ← as_write r.payload
  let new_fd = look_up op.fd files in
      let s' =
        if eqb_ℤ new_fd invalid_id
        then finish r c (prep (Prep.write op.fd op.addr op.size op.offset) s)
        else finish (add_sqe_flag fixed_file r) c
            (prep (Prep.write new_fd op.addr op.size op.offset) s) in
      done (s')

unfoldable pub write_fixed : IoRequest → ℕ → Sqe → Outcome Sqe
unfolding prep finish as_write_fixed
write_fixed r c s = do
  op ← as_write_fixed r.payload
  done (finish r c (prep (Prep.write_fixed op.fd op.addr op.size op.offset op.index) s))

unfoldable pub writev : IoRequest → ℕ → Sqe → Outcome Sqe
unfolding prep finish as_writev
writev r c s = do
  op ← as_writev r.payload
  if op.rw_flags == 0
      then done (finish r c (prep (Prep.writev op.fd op.iov op.iov_len op.offset) s))
      else done (finish r c (prep (Prep.writev2 op.fd op.iov op.iov_len op.offset op.rw_flags) s))

unfoldable pub read : Table → IoRequest → ℕ → Sqe → Outcome Sqe
unfolding prep finish as_read set_buf_group look_up
read files r c s = do
  op ← as_read r.payload
  let new_fd = look_up op.fd files in
      let s' =
        if eqb_ℤ new_fd invalid_id
        then finish r c (prep (Prep.read op.fd op.addr op.size op.offset) s)
        else finish (add_sqe_flag fixed_file r) c
            (prep (Prep.read new_fd op.addr op.size op.offset) s) in
      done (set_buf_group op.buf_gid s')

unfoldable pub fallocate : IoRequest → ℕ → Sqe → Outcome Sqe
unfolding prep finish as_fallocate
fallocate r c s = do
  op ← as_fallocate r.payload
  done (finish r c (prep (Prep.fallocate op.fd op.mode op.offset op.len) s))

unfoldable pub close : IoRequest → ℕ → Sqe → Outcome Sqe
unfolding prep finish as_close
close r c s = do
  op ← as_close r.payload
  done (
      finish r c (
        if ltb_ℤ (pos 0) op.fd
        then prep (Prep.close op.fd) s
        else if not (eqb_ℤ op.file_index invalid_fileindex)
        then prep (Prep.close_direct op.file_index) s
        else s))

unfoldable pub fsync : IoRequest → ℕ → Sqe → Outcome Sqe
unfolding prep finish as_fsync
fsync r c s = do op ← as_fsync r.payload; done (finish r c (prep (Prep.fsync op.fd op.flags) s))

unfoldable pub openat : IoRequest → ℕ → Sqe → Outcome Sqe
unfolding prep finish as_openat
openat r c s = do
  op ← as_openat r.payload
  if eqb_ℤ op.file_index invalid_fileindex
      then done (finish r c (prep (Prep.openat op.dirfd op.path_name op.flags op.mode) s))
      else done (
          finish r c
            (prep (Prep.openat_direct op.dirfd op.path_name op.flags op.mode op.file_index) s))

unfoldable pub openat2 : IoRequest → ℕ → Sqe → Outcome Sqe
unfolding prep finish as_openat2
openat2 r c s = do
  op ← as_openat2 r.payload
  if not (eqb_ℤ op.file_index invalid_fileindex)
      then done (finish r c (prep (Prep.openat2 op.dirfd op.path_name op.how) s))
      else done
          (finish r c (prep (Prep.openat2_direct op.dirfd op.path_name op.how op.file_index) s))

unfoldable pub statx : IoRequest → ℕ → Sqe → Outcome Sqe
unfolding prep finish as_statx
statx r c s = do
  op ← as_statx r.payload
  done (finish r c (prep (Prep.statx op.dirfd op.path_name op.flags op.mask op.statxbuf) s))

unfoldable pub splice : IoRequest → ℕ → Sqe → Outcome Sqe
unfolding prep finish as_splice
splice r c s = do
  op ← as_splice r.payload
  done (
      finish r c
        (prep (Prep.splice op.in_fd op.in_offset op.out_fd op.out_offset op.size op.flags) s))

unfoldable pub tee : IoRequest → ℕ → Sqe → Outcome Sqe
unfolding prep finish as_tee
tee r c s = do
  op ← as_tee r.payload
  done (finish r c (prep (Prep.tee op.in_fd op.out_fd op.size op.flags) s))

unfoldable pub file_sync_range : IoRequest → ℕ → Sqe → Outcome Sqe
unfolding prep finish as_sync_filerange
file_sync_range r c s = do
  op ← as_sync_filerange r.payload
  done (finish r c (prep (Prep.sync_file_range op.fd op.len op.offset op.flags) s))

unfoldable pub files_update : IoRequest → ℕ → Sqe → Outcome Sqe
unfolding prep finish as_files_update
files_update r c s = do
  op ← as_files_update r.payload
  done (finish r c (prep (Prep.files_update op.fds op.fds_len op.offset) s))

unfoldable pub fadvise : IoRequest → ℕ → Sqe → Outcome Sqe
unfolding prep finish as_fadvise
fadvise r c s = do
  op ← as_fadvise r.payload
  done (finish r c (prep (Prep.fadvise op.fd op.offset op.len op.advice) s))

unfoldable pub madvise : IoRequest → ℕ → Sqe → Outcome Sqe
unfolding prep finish as_madvise
madvise r c s = do
  op ← as_madvise r.payload
  done (finish r c (prep (Prep.madvise op.addr op.len op.advice) s))

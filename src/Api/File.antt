-- ===== src/Api/File.antt =====
-- The calls of iouring/io_uring_api.h on files.
use iouring_cc.Common.{ℕ, ◌==◌, ◌&&◌, if◌then◌else◌}
use iouring_cc.Common.Int.{ℤ}
use iouring_cc.Common.Outcome.{Outcome, aborted}
use iouring_cc.Request.Payload.{invalid_buff_gid}
use iouring_cc.Completion.{Kind, invalid_gid}
use iouring_cc.Submit.{Ring}
use iouring_cc.Api.{Caller, Client, submit_new}
use iouring_cc.Request.MakeFile.{
  make_close, make_fadvise, make_fallocate, make_files_update, make_fsync, make_madvise,
  make_openat, make_openat2, make_read, make_read_fixed, make_readv, make_splice, make_statx,
  make_sync_filerange, make_tee, make_write, make_write_fixed, make_writev,
}

module _ {R : Type 0} (sys : Ring R) (fuel junk : ℕ) (w : Caller) (s : Client R) where
  unfoldable pub read_vector : ℤ → ℕ → ℕ → ℕ → ℕ → Outcome (Client R)
  read_vector fd iovecs_data iovecs_size offset rw_flags =
      submit_new sys fuel junk w Kind.plain invalid_gid
        (make_readv fd offset iovecs_data iovecs_size rw_flags w.vars) s

  unfoldable pub write_vector : ℤ → ℕ → ℕ → ℕ → ℕ → Outcome (Client R)
  write_vector fd iovecs_data iovecs_size offset rw_flags =
      submit_new sys fuel junk w Kind.plain invalid_gid
        (make_writev fd offset iovecs_data iovecs_size rw_flags w.vars) s

  unfoldable pub fsync : ℤ → ℕ → Outcome (Client R)
  fsync fd flags = submit_new sys fuel junk w Kind.plain invalid_gid (make_fsync fd flags w.vars) s

  unfoldable pub read_fixed : ℤ → ℕ → ℕ → ℕ → ℤ → Outcome (Client R)
  read_fixed fd buf count offset buf_index =
      submit_new sys fuel junk w Kind.plain invalid_gid
        (make_read_fixed fd offset buf count buf_index w.vars) s

  unfoldable pub write_fixed : ℤ → ℕ → ℕ → ℕ → ℤ → Outcome (Client R)
  write_fixed fd buf count offset buf_index =
      submit_new sys fuel junk w Kind.plain invalid_gid
        (make_write_fixed fd offset buf count buf_index w.vars) s

  unfoldable pub file_sync_range : ℤ → ℕ → ℕ → ℕ → Outcome (Client R)
  file_sync_range fd len offset flags =
      submit_new sys fuel junk w Kind.plain invalid_gid
        (make_sync_filerange fd len offset flags w.vars) s

  unfoldable pub fallocate : ℤ → ℕ → ℕ → ℕ → Outcome (Client R)
  fallocate fd mode offset len =
      submit_new sys fuel junk w Kind.plain invalid_gid (make_fallocate fd mode offset len w.vars) s

  unfoldable pub openat : ℤ → ℕ → ℕ → ℕ → Outcome (Client R)
  openat dirfd pathname flags mode =
      submit_new sys fuel junk w Kind.plain invalid_gid
        (make_openat dirfd pathname flags mode w.vars) s

  unfoldable pub close : ℤ → Outcome (Client R)
  close fd = submit_new sys fuel junk w Kind.plain invalid_gid (make_close fd w.vars) s

  unfoldable pub files_update : ℕ → ℕ → ℕ → Outcome (Client R)
  files_update fds_data fds_size offset =
      submit_new sys fuel junk w Kind.plain invalid_gid
        (make_files_update fds_data fds_size offset w.vars) s

  unfoldable pub statx : ℤ → ℕ → ℕ → ℕ → ℕ → Outcome (Client R)
  statx dirfd pathname flags mask statxbuf =
      submit_new sys fuel junk w (Kind.statx pathname statxbuf) invalid_gid
        (make_statx dirfd pathname flags mask statxbuf w.vars) s

  unfoldable pub read : ℤ → ℕ → ℕ → ℕ → Outcome (Client R)
  read fd buf count offset =
      if buf == 0 && w.vars.buf_gid == invalid_buff_gid
      then aborted
      else submit_new sys fuel junk w Kind.plain invalid_gid (make_read fd offset buf count w.vars)
          s

  unfoldable pub write : ℤ → ℕ → ℕ → ℕ → Outcome (Client R)
  write fd buf count offset =
      submit_new sys fuel junk w Kind.plain invalid_gid (make_write fd offset buf count w.vars) s

  unfoldable pub fadvise : ℤ → ℕ → ℕ → ℤ → Outcome (Client R)
  fadvise fd offset len advice =
      submit_new sys fuel junk w Kind.plain invalid_gid (make_fadvise fd offset len advice w.vars) s

  unfoldable pub madvise : ℕ → ℕ → ℤ → Outcome (Client R)
  madvise addr len advice =
      submit_new sys fuel junk w Kind.plain invalid_gid (make_madvise addr len advice w.vars) s

  unfoldable pub openat2 : ℤ → ℕ → ℕ → ℕ → Outcome (Client R)
  openat2 dirfd pathname how flags =
      submit_new sys fuel junk w Kind.plain invalid_gid
        (make_openat2 dirfd pathname flags how w.vars) s

  unfoldable pub splice : ℤ → ℕ → ℤ → ℕ → ℕ → ℕ → Outcome (Client R)
  splice in_fd in_offset out_fd out_offset size flags =
      submit_new sys fuel junk w Kind.plain invalid_gid
        (make_splice in_fd in_offset out_fd out_offset size flags w.vars) s

  unfoldable pub tee : ℤ → ℤ → ℕ → ℕ → Outcome (Client R)
  tee in_fd out_fd size flags =
      submit_new sys fuel junk w Kind.plain invalid_gid (make_tee in_fd out_fd size flags w.vars) s

-- ===== src/Request/MakeFile.antt =====
-- The `make_` functions of iouring/io_request.h for file operations.
use iouring_cc.Common.{ℕ, ◌==◌, if◌then◌else◌}
use iouring_cc.Common.Int.{ℤ, eqb_ℤ}
use iouring_cc.Request.Operation.{Operation}
use iouring_cc.Request.Flags.{fixed_file, buffer_select}
use iouring_cc.Request.FileOps.{NoOp}
use iouring_cc.Request.Payload.{
  Payload, IoRequest, CommonVars, new_request, add_sqe_flag, invalid_fileindex, invalid_buff_gid,
}

unfoldable pub make_noop : CommonVars → IoRequest
make_noop v = new_request Operation.nop (Payload.noop NoOp.no_op) v

unfoldable pub make_readv : ℤ → ℕ → ℕ → ℕ → ℕ → CommonVars → IoRequest
make_readv fd offset iovecs_data iovecs_size rw_flags v =
    new_request Operation.readv
      (Payload.readv (record {
        fd = fd;
        offset = offset;
        iov = iovecs_data;
        iov_len = iovecs_size;
        rw_flags = rw_flags;
      }))
      v

unfoldable pub make_writev : ℤ → ℕ → ℕ → ℕ → ℕ → CommonVars → IoRequest
make_writev fd offset iovecs_data iovecs_size rw_flags v =
    new_request Operation.writev
      (Payload.writev (record {
        fd = fd;
        offset = offset;
        iov = iovecs_data;
        iov_len = iovecs_size;
        rw_flags = rw_flags;
      }))
      v

unfoldable pub make_fsync : ℤ → ℕ → CommonVars → IoRequest
make_fsync fd flags v =
    new_request Operation.fsync (Payload.fsync (record { fd = fd; flags = flags })) v

unfoldable pub make_read_fixed : ℤ → ℕ → ℕ → ℕ → ℤ → CommonVars → IoRequest
make_read_fixed fd offset address size buf_index v =
    new_request Operation.read_fixed
      (Payload.read_fixed
        (record { fd = fd; offset = offset; addr = address; size = size; index = buf_index }))
      v

unfoldable pub make_write_fixed : ℤ → ℕ → ℕ → ℕ → ℤ → CommonVars → IoRequest
make_write_fixed fd offset address size buf_index v =
    new_request Operation.write_fixed
      (Payload.write_fixed
        (record { fd = fd; offset = offset; addr = address; size = size; index = buf_index }))
      v

unfoldable pub make_sync_filerange : ℤ → ℕ → ℕ → ℕ → CommonVars → IoRequest
make_sync_filerange fd len offset flags v =
    new_request Operation.sync_file_range
      (Payload.sync_filerange (record { fd = fd; len = len; offset = offset; flags = flags })) v

unfoldable pub make_fallocate : ℤ → ℕ → ℕ → ℕ → CommonVars → IoRequest
make_fallocate fd mode offset len v =
    new_request Operation.fallocate
      (Payload.fallocate (record { fd = fd; mode = mode; offset = offset; len = len })) v

unfoldable pub make_openat : ℤ → ℕ → ℕ → ℕ → CommonVars → IoRequest
make_openat dirfd pathname flags mode v =
    let r =
      new_request Operation.openat
        (Payload.openat (record {
          dirfd = dirfd;
          path_name = pathname;
          flags = flags;
          mode = mode;
          file_index = v.file_index;
        }))
        v in
    if eqb_ℤ v.file_index invalid_fileindex then r else add_sqe_flag fixed_file r

unfoldable pub make_close : ℤ → CommonVars → IoRequest
make_close fd v =
    let r =
      new_request Operation.close (Payload.close (record { fd = fd; file_index = v.file_index }))
        v in
    if eqb_ℤ v.file_index invalid_fileindex then r else add_sqe_flag fixed_file r

unfoldable pub make_files_update : ℕ → ℕ → ℕ → CommonVars → IoRequest
make_files_update fds_data fds_size offset v =
    new_request Operation.files_update
      (Payload.files_update (record { fds = fds_data; fds_len = fds_size; offset = offset })) v

unfoldable pub make_statx : ℤ → ℕ → ℕ → ℕ → ℕ → CommonVars → IoRequest
make_statx dirfd pathname flags mask statxbuf v =
    new_request Operation.statx
      (Payload.statx (record {
        dirfd = dirfd;
        path_name = pathname;
        flags = flags;
        mask = mask;
        statxbuf = statxbuf;
      }))
      v

unfoldable pub make_read : ℤ → ℕ → ℕ → ℕ → CommonVars → IoRequest
make_read fd offset address size v =
    let r =
      new_request Operation.read
        (Payload.read
          (record { fd = fd; offset = offset; addr = address; size = size; buf_gid = v.buf_gid }))
        v in
    if v.buf_gid == invalid_buff_gid then r else add_sqe_flag buffer_select r

unfoldable pub make_write : ℤ → ℕ → ℕ → ℕ → CommonVars → IoRequest
make_write fd offset address size v =
    new_request Operation.write
      (Payload.write (record { fd = fd; offset = offset; addr = address; size = size })) v

unfoldable pub make_fadvise : ℤ → ℕ → ℕ → ℤ → CommonVars → IoRequest
make_fadvise fd offset len advice v =
    new_request Operation.fadvise
      (Payload.fadvise (record { fd = fd; offset = offset; len = len; advice = advice })) v

unfoldable pub make_madvise : ℕ → ℕ → ℤ → CommonVars → IoRequest
make_madvise addr len advice v =
    new_request Operation.madvise
      (Payload.madvise (record { addr = addr; len = len; advice = advice })) v

unfoldable pub make_openat2 : ℤ → ℕ → ℕ → ℕ → CommonVars → IoRequest
make_openat2 dirfd pathname flags how v =
    let r =
      new_request Operation.openat2
        (Payload.openat2 (record {
          dirfd = dirfd;
          path_name = pathname;
          flags = flags;
          how = how;
          file_index = v.file_index;
        }))
        v in
    if eqb_ℤ v.file_index invalid_fileindex then r else add_sqe_flag fixed_file r

unfoldable pub make_splice : ℤ → ℕ → ℤ → ℕ → ℕ → ℕ → CommonVars → IoRequest
make_splice in_fd in_offset out_fd out_offset size flags v =
    new_request Operation.splice
      (Payload.splice (record {
        in_fd = in_fd;
        in_offset = in_offset;
        out_fd = out_fd;
        out_offset = out_offset;
        size = size;
        flags = flags;
      }))
      v

unfoldable pub make_tee : ℤ → ℤ → ℕ → ℕ → CommonVars → IoRequest
make_tee in_fd out_fd size flags v =
    new_request Operation.tee
      (Payload.tee (record { in_fd = in_fd; out_fd = out_fd; size = size; flags = flags })) v

-- ===== src/Request/MakeMisc.antt =====
-- The `make_` functions of iouring/io_request.h for path, timer, buffer and ring operations.
use iouring_cc.Common.{ℕ}
use iouring_cc.Common.Int.{ℤ, pos, negsuc}
use iouring_cc.Request.Operation.{Operation}
use iouring_cc.Request.Payload.{Payload, IoRequest, CommonVars, new_request}

unfoldable pub make_timeout : ℤ → ℕ → ℕ → CommonVars → IoRequest
make_timeout timeout count flags v =
    new_request Operation.timeout
      (Payload.timeout (record { timeout = timeout; count = count; flags = flags })) v

unfoldable pub make_timeout_remove : ℕ → ℕ → CommonVars → IoRequest
make_timeout_remove user_data flags v =
    new_request Operation.timeout_remove
      (Payload.timeout_remove (record { timeout = pos 0; user_data = user_data; flags = flags })) v

unfoldable pub make_timeout_update : ℤ → ℕ → ℕ → CommonVars → IoRequest
make_timeout_update timeout user_data flags v =
    new_request Operation.timeout_remove
      (Payload.timeout_remove (record { timeout = timeout; user_data = user_data; flags = flags }))
      v

unfoldable pub make_cancel : ℕ → ℕ → ℤ → ℕ → CommonVars → IoRequest
make_cancel user_data user_data_64 fd flags v =
    new_request Operation.async_cancel
      (Payload.cancel
        (record { user_data = user_data; user_data_64 = user_data_64; fd = fd; flags = flags }))
      v

unfoldable pub make_link_timeout : ℤ → ℕ → CommonVars → IoRequest
make_link_timeout timeout flags v =
    new_request Operation.link_timeout
      (Payload.link_timeout (record { timeout = timeout; flags = flags })) v

unfoldable pub make_provide_buffer : ℕ → ℕ → ℕ → ℤ → ℕ → CommonVars → IoRequest
make_provide_buffer buffer len nbufs gid bid v =
    new_request Operation.provide_buffers
      (Payload.provide_buff
        (record { buffer = buffer; len = len; nbufs = nbufs; gid = gid; bid = bid }))
      v

unfoldable pub make_remove_buffer : ℕ → ℤ → CommonVars → IoRequest
make_remove_buffer nbufs gid v =
    new_request Operation.remove_buffers
      (Payload.provide_buff (record { buffer = 0; len = 0; nbufs = nbufs; gid = gid; bid = 0 })) v

unfoldable pub make_renameat : ℤ → ℕ → ℤ → ℕ → ℕ → CommonVars → IoRequest
make_renameat olddirfd oldpath newdirfd newpath flags v =
    new_request Operation.renameat
      (Payload.renameat (record {
        olddirfd = olddirfd;
        oldpath = oldpath;
        newdirfd = newdirfd;
        newpath = newpath;
        flags = flags;
      }))
      v

unfoldable pub make_unlinkat : ℤ → ℕ → ℕ → CommonVars → IoRequest
make_unlinkat dirfd path flags v =
    new_request Operation.unlinkat
      (Payload.unlinkat (record { dirfd = dirfd; path = path; flags = flags })) v

unfoldable pub make_makedirat : ℤ → ℕ → ℕ → CommonVars → IoRequest
make_makedirat dirfd path mode v =
    new_request Operation.mkdirat
      (Payload.makedirat (record { dirfd = dirfd; path = path; mode = mode })) v

unfoldable pub make_symlinkat : ℕ → ℤ → ℕ → CommonVars → IoRequest
make_symlinkat target newdirfd linkpath v =
    new_request Operation.symlinkat
      (Payload.symlinkat (record { target = target; newdirfd = newdirfd; linkpath = linkpath })) v

unfoldable pub make_linkat : ℤ → ℕ → ℤ → ℕ → ℕ → CommonVars → IoRequest
make_linkat olddirfd oldpath newdirfd newpath flags v =
    new_request Operation.linkat
      (Payload.linkat (record {
        olddirfd = olddirfd;
        oldpath = oldpath;
        newdirfd = newdirfd;
        newpath = newpath;
        flags = flags;
      }))
      v

unfoldable pub make_msgring : ℤ → ℕ → ℕ → ℕ → CommonVars → IoRequest
make_msgring fd data_32 data_64 flags v =
    new_request Operation.msg_ring
      (Payload.msgring (record { fd = fd; data_32 = data_32; data_64 = data_64; flags = flags })) v

unfoldable pub make_fsetxattr : ℤ → ℕ → ℕ → ℕ → ℕ → CommonVars → IoRequest
make_fsetxattr fd name value flags len v =
    new_request Operation.fsetxattr
      (Payload.xattr
        (record { fd = fd; path = 0; name = name; value = value; flags = flags; len = len }))
      v

unfoldable pub make_setxattr : ℕ → ℕ → ℕ → ℕ → ℕ → CommonVars → IoRequest
make_setxattr path name value flags len v =
    new_request Operation.setxattr
      (Payload.xattr (record {
        fd = negsuc 0;
        path = path;
        name = name;
        value = value;
        flags = flags;
        len = len;
      }))
      v

unfoldable pub make_fgetxattr : ℤ → ℕ → ℕ → ℕ → CommonVars → IoRequest
make_fgetxattr fd name value len v =
    new_request Operation.fgetxattr
      (Payload.xattr
        (record { fd = fd; path = 0; name = name; value = value; flags = 0; len = len }))
      v

unfoldable pub make_getxattr : ℕ → ℕ → ℕ → ℕ → CommonVars → IoRequest
make_getxattr path name value len v =
    new_request Operation.fgetxattr
      (Payload.xattr
        (record { fd = negsuc 0; path = path; name = name; value = value; flags = 0; len = len }))
      v

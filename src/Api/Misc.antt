-- ===== src/Api/Misc.antt =====
-- The other calls of iouring/io_uring_api.h: timeouts, cancellation, provided buffers, names and
-- attributes.
use iouring_cc.Common.{ℕ}
use iouring_cc.Common.Int.{ℤ}
use iouring_cc.Common.Outcome.{Outcome}
use iouring_cc.Request.Payload.{invalid_socket}
use iouring_cc.Completion.{Kind, invalid_gid}
use iouring_cc.Submit.{Ring}
use iouring_cc.Api.{Caller, Client, submit_new}
use iouring_cc.Request.MakeFile.{make_noop}
use iouring_cc.Request.MakeMisc.{
  make_cancel, make_fgetxattr, make_fsetxattr, make_getxattr, make_link_timeout, make_linkat,
  make_makedirat, make_msgring, make_provide_buffer, make_remove_buffer, make_renameat,
  make_setxattr, make_symlinkat, make_timeout, make_timeout_remove, make_timeout_update,
  make_unlinkat,
}

module _ {R : Type 0} (sys : Ring R) (fuel junk : ℕ) (w : Caller) (s : Client R) where
  unfoldable pub noop : Outcome (Client R)
  noop = submit_new sys fuel junk w Kind.plain invalid_gid (make_noop w.vars) s

  unfoldable pub timeout : ℤ → ℕ → ℕ → Outcome (Client R)
  timeout timeout_ns count flags =
      submit_new sys fuel junk w Kind.plain invalid_gid (make_timeout timeout_ns count flags w.vars)
        s

  unfoldable pub timeout_remove : ℕ → ℕ → Outcome (Client R)
  timeout_remove user_data flags =
      submit_new sys fuel junk w Kind.plain invalid_gid (make_timeout_remove user_data flags w.vars)
        s

  unfoldable pub timeout_update : ℤ → ℕ → ℕ → Outcome (Client R)
  timeout_update timeout_ns user_data flags =
      submit_new sys fuel junk w Kind.plain invalid_gid
        (make_timeout_update timeout_ns user_data flags w.vars) s

  unfoldable pub cancel : ℕ → ℕ → Outcome (Client R)
  cancel user_data flags =
      submit_new sys fuel junk w Kind.plain invalid_gid
        (make_cancel user_data 0 invalid_socket flags w.vars) s

  unfoldable pub cancel_64 : ℕ → ℕ → Outcome (Client R)
  cancel_64 user_data flags =
      submit_new sys fuel junk w Kind.plain invalid_gid
        (make_cancel 0 user_data invalid_socket flags w.vars) s

  unfoldable pub cancel_fd : ℤ → ℕ → Outcome (Client R)
  cancel_fd fd flags =
      submit_new sys fuel junk w Kind.plain invalid_gid (make_cancel 0 0 fd flags w.vars) s

  unfoldable pub link_timeout : ℤ → ℕ → Outcome (Client R)
  link_timeout timeout_ns flags =
      submit_new sys fuel junk w Kind.plain invalid_gid (make_link_timeout timeout_ns flags w.vars)
        s

  unfoldable pub provide_buffer : ℕ → ℕ → ℕ → ℤ → ℕ → Outcome (Client R)
  provide_buffer buffer len nbufs gid bid =
      submit_new sys fuel junk w Kind.plain invalid_gid
        (make_provide_buffer buffer len nbufs gid bid w.vars) s

  unfoldable pub remove_buffer : ℕ → ℤ → Outcome (Client R)
  remove_buffer nbufs gid =
      submit_new sys fuel junk w Kind.plain invalid_gid (make_remove_buffer nbufs gid w.vars) s

  unfoldable pub renameat : ℤ → ℕ → ℤ → ℕ → ℕ → Outcome (Client R)
  renameat olddirfd oldpath newdirfd newpath flags =
      submit_new sys fuel junk w Kind.plain invalid_gid
        (make_renameat olddirfd oldpath newdirfd newpath flags w.vars) s

  unfoldable pub unlinkat : ℤ → ℕ → ℕ → Outcome (Client R)
  unlinkat dirfd path flags =
      submit_new sys fuel junk w Kind.plain invalid_gid (make_unlinkat dirfd path flags w.vars) s

  unfoldable pub makedirat : ℤ → ℕ → ℕ → Outcome (Client R)
  makedirat dirfd path mode =
      submit_new sys fuel junk w Kind.plain invalid_gid (make_makedirat dirfd path mode w.vars) s

  unfoldable pub symlinkat : ℕ → ℤ → ℕ → Outcome (Client R)
  symlinkat target newdirfd linkpath =
      submit_new sys fuel junk w Kind.plain invalid_gid
        (make_symlinkat target newdirfd linkpath w.vars) s

  unfoldable pub linkat : ℤ → ℕ → ℤ → ℕ → ℕ → Outcome (Client R)
  linkat olddirfd oldpath newdirfd newpath flags =
      submit_new sys fuel junk w Kind.plain invalid_gid
        (make_linkat olddirfd oldpath newdirfd newpath flags w.vars) s

  unfoldable pub msg_ring : ℤ → ℕ → ℕ → ℕ → Outcome (Client R)
  msg_ring fd data_32 data_64 flags =
      submit_new sys fuel junk w Kind.plain invalid_gid
        (make_msgring fd data_32 data_64 flags w.vars) s

  unfoldable pub fsetxattr : ℤ → ℕ → ℕ → ℕ → ℕ → Outcome (Client R)
  fsetxattr fd name value flags len =
      submit_new sys fuel junk w Kind.plain invalid_gid
        (make_fsetxattr fd name value flags len w.vars) s

  unfoldable pub setxattr : ℕ → ℕ → ℕ → ℕ → ℕ → Outcome (Client R)
  setxattr path name value flags len =
      submit_new sys fuel junk w Kind.plain invalid_gid
        (make_setxattr path name value flags len w.vars) s

  unfoldable pub fgetxattr : ℤ → ℕ → ℕ → ℕ → Outcome (Client R)
  fgetxattr fd name value len =
      submit_new sys fuel junk w Kind.plain invalid_gid (make_fgetxattr fd name value len w.vars) s

  unfoldable pub getxattr : ℕ → ℕ → ℕ → ℕ → Outcome (Client R)
  getxattr path name value len =
      submit_new sys fuel junk w Kind.plain invalid_gid (make_getxattr path name value len w.vars) s

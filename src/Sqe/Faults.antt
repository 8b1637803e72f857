-- ===== src/Sqe/Faults.antt =====
-- What the handlers of iouring/io_uring.cc make of requests that they do not serve as they are named.
use iouring_cc.Common.{ℕ, ◌≡◌, refl, arith, Bool-cases, inl, inr, if◌then◌else◌}
use iouring_cc.Common.Int.{ℤ, negsuc, eqb_ℤ, eqb_ℤ_iff}
use iouring_cc.Common.Outcome.{done, undefined}
use iouring_cc.Request.Payload.{CommonVars, invalid_fileindex}
use iouring_cc.Request.MakeFile.{make_openat2}
use iouring_cc.Request.MakeNet.{make_socket, make_sendzc}
use iouring_cc.Request.MakeMisc.{make_getxattr, make_fgetxattr, make_linkat}
use iouring_cc.Sqe.Entry.{Sqe, Prep, prep, finish}
use iouring_cc.Sqe.File.{openat2}
use iouring_cc.Sqe.Net.{send_zc}
use iouring_cc.Sqe.Misc.{fgetxattr, linkat}
use iouring_cc.Sqe.Dispatch.{Context, dispatch, fill, keep_pools}

module _ (v : CommonVars) (x : Context) (c : ℕ) (s : Sqe) where
  -- The request that `MakeSocket` builds has the operation FGETXATTR, so that `PrepareSqe` reads the
  -- operands of an extended attribute, which are not the active member of the union: undefined
  -- behaviour, whatever the arguments.
  pub make_socket_undefined :
      (domain type protocol : ℤ) (flags : ℕ)
      → fill x (make_socket domain type protocol flags v) c s ≡ undefined
  unfolding make_socket dispatch fgetxattr
  make_socket_undefined domain type protocol flags = refl

  -- The request that `MakeGetXattr` builds for a path makes the entry of the request that
  -- `MakeFGetXattr` builds for the descriptor -1: the path is dropped.
  pub make_getxattr_drops_path :
      (path name value len : ℕ)
      → fill x (make_getxattr path name value len v) c s
        ≡ fill x (make_fgetxattr (negsuc 0) name value len v) c s
  unfolding make_getxattr make_fgetxattr dispatch fgetxattr finish prep
  make_getxattr_drops_path path name value len = refl

  module _ (fd : ℤ) (a b d e : ℕ) where
    -- Without an index, a zero-copy send is prepared for the fixed buffer of index -1, and an openat2
    -- for the direct descriptor of index -1; with an index, both are prepared without it.
    pub file_index_inverted :
        (fill x (make_sendzc fd a b d e v) c s
          ≡ keep_pools x (
              done (
                finish (make_sendzc fd a b d e v) c (
                  prep
                    (if eqb_ℤ v.file_index invalid_fileindex
                      then Prep.send_zc_fixed fd a b d e (negsuc 0)
                      else Prep.send_zc fd a b d e)
                    s))))
        × (fill x (make_openat2 fd a d e v) c s
            ≡ keep_pools x (
                done (
                  finish (make_openat2 fd a d e v) c (
                    prep
                      (if eqb_ℤ v.file_index invalid_fileindex
                        then Prep.openat2_direct fd a e (negsuc 0)
                        else Prep.openat2 fd a e)
                      s))))
    unfolding make_sendzc make_openat2 dispatch send_zc openat2
    file_index_inverted = elim (Bool-cases (eqb_ℤ v.file_index invalid_fileindex)) [
      | inl e ↦ (let i = (eqb_ℤ_iff v.file_index invalid_fileindex).0 e in ground arith)
      | inr e ↦ ground arith
    ]

  -- A link whose two directories are both the descriptor -1 is prepared as a `link`, which is then
  -- overwritten by the `linkat` from -1 to -1.
  pub linkat_overwrites_link :
      (oldpath newpath flags : ℕ)
      → fill x (make_linkat (negsuc 0) oldpath (negsuc 0) newpath flags v) c s
        ≡ keep_pools x (
            done (
              finish (make_linkat (negsuc 0) oldpath (negsuc 0) newpath flags v) c (
                prep
                  (Prep.linkat (negsuc 0) oldpath (negsuc 0) newpath flags)
                  (prep (Prep.link oldpath newpath flags) s))))
  unfolding make_linkat dispatch linkat finish prep
  linkat_overwrites_link oldpath newpath flags = refl

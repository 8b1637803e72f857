-- ===== src/Files/Register.antt =====
-- `RegisterFile`, `RegisterFiles`, `RegisterFilesExternal`, `UnregisterFile` and `UnregisterFiles`
-- of iouring/io_uring.cc. liburing's calls, `strerror` and `fmt::format` are the fields of `Kernel`.
-- `files_mutex_` makes each call of `RegisterFile` and `UnregisterFile` one step.
use Prim.Native.String.{String}
use iouring_cc.Common.{
  ℕ, suc, ◌==◌, Bool, true, false, not, List, [], ◌∷◌, if◌then◌else◌, length, take,
}
use iouring_cc.Common.Int.{ℤ, pos, negsuc, neg_ℤ, ltb_ℤ, eqb_ℤ}
use iouring_cc.Status.{
  Status, ok_status, is_ok, already_exists_error, resource_exhausted_error, not_found_error,
  errno_to_status,
}
use iouring_cc.Files.Table.{Table, invalid_id, look_up, add, remove, clean_up, size, capacity}

-- The calls return what liburing returns, and the kernel's next state.
pub record Kernel (K : Type 0) : Type 0 where
  -- `io_uring_register_files_update` of one slot.
  pub update_file : K → ℤ → ℤ → ℤ × K
  -- `io_uring_register_files_update` from an index on.
  pub update_files : K → ℤ → List ℤ → ℤ × K
  pub register_all : K → List ℤ → ℤ × K
  pub unregister_all : K → ℤ × K
  pub strerror : ℤ → String
  pub format_fd : String → ℤ → String

pub record Registry (K : Type 0) : Type 0 where
  pub table : Table
  pub kernel : K

module _ {K : Type 0} (sys : Kernel K) where
  -- `ret < 0` after a call of the kernel.
  abbrev pub kernel_status : ℤ → String → Status
  kernel_status ret message =
      if ltb_ℤ ret (pos 0) then errno_to_status sys.strerror (neg_ℤ ret) message else ok_status

  unfoldable pub register_file : ℤ → Registry K → Status × Registry K
  unfolding already_exists_error resource_exhausted_error
  register_file fd r =
      if not (eqb_ℤ (look_up fd r.table) invalid_id)
      then (already_exists_error (sys.format_fd "fd {} is already registered" fd), r)
      else if capacity r.table == size r.table
      then (resource_exhausted_error "No free index available", r)
      else let (index, t) = add fd r.table in
        let (ret, k) = sys.update_file r.kernel (pos index) fd in
        (kernel_status ret "Failed to register files to io_uring", record { table = t; kernel = k })

  unfoldable pub unregister_files : Registry K → Status × Registry K
  unregister_files r =
      let (ret, k) = sys.unregister_all r.kernel in
      if ltb_ℤ ret (pos 0)
      then (
        errno_to_status sys.strerror (neg_ℤ ret) "Failed to unregister files from io_uring",
        record { table = r.table; kernel = k },
      )
      else (ok_status, record { table = clean_up r.table; kernel = k })

  unfoldable pub unregister_file : ℤ → Registry K → Status × Registry K
  unfolding unregister_files
  unregister_file fd r =
      if size r.table == 0
      then unregister_files r
      else let index = look_up fd r.table in
        if eqb_ℤ index invalid_id
        then (not_found_error (sys.format_fd "fd {} is not registered" fd), r)
        else let (ret, k) = sys.update_file r.kernel index (negsuc 0) in
          (
            kernel_status ret "Failed to register files to io_uring",
            record { table = remove fd r.table; kernel = k },
          )

  -- The first loop of `RegisterFiles`: the last status, `unregister`, and `index`.
  unfoldable pub register_loop : List ℤ → ℕ → Registry K → Status × Bool × ℕ × Registry K
  register_loop [] index r = (ok_status, false, index, r)
  register_loop (fd ∷ fds) index r =
      let (res, r') = register_file fd r in
      elim (is_ok res) [ true ↦ register_loop fds (suc index) r' | false ↦ (res, true, index, r') ]

  -- The second loop: the statuses of `UnregisterFile` are dropped.
  unfoldable pub unregister_loop : List ℤ → Registry K → Registry K
  unregister_loop [] r = r
  unregister_loop (fd ∷ fds) r = unregister_loop fds (unregister_file fd r).1

  unfoldable pub register_files : List ℤ → Registry K → Status × Registry K
  register_files fds r =
      let (res, unregister, index, r') = register_loop fds 0 r in
      (res, if unregister then unregister_loop (take index fds) r' else r')

  -- The result is the number of files, or -errno.
  unfoldable pub register_files_external : List ℤ → ℤ → Bool → K → ℤ × K
  register_files_external fds index is_update k =
      if is_update
      then sys.update_files k index fds
      else let (result, k') = sys.register_all k fds in
        (if eqb_ℤ result (pos 0) then pos (length fds) else result, k')

-- ===== src/Files/Release.antt =====
-- Unregistering a file, and what registering and unregistering keep.
use iouring_cc.Common.{
  ℕ, ◌≡◌, ◌≢◌, ◌∙◌, inl, inr, refl, none, some, true, false, length, get_elem?, arith, Option-cases,
  ap, Bool-cases, List,
}
use native.Mathlib.Decide.{ℕ_discrete}
use iouring_cc.Common.Int.{ℤ, pos, negsuc, ltb_ℤ}
use iouring_cc.Status.{
  Status, StatusCode, is_ok, ok_status, code_of_is_ok, not_found_error, errno_failed,
}
use iouring_cc.Files.Table.{Table, invalid_id, find, size, clean_up}
use iouring_cc.Files.Entries.{find-cons_self, length-erase}
use iouring_cc.Files.Invariant.{
  IsValid, with_file, without_file, with_file-IsValid, without_file-IsValid, clean_up-IsValid,
}
use iouring_cc.Files.Update.{remove_held, look_up_found, look_up_missing, without_file-with_file}
use iouring_cc.Files.Register.{
  Kernel, Registry, kernel_status, register_file, unregister_file, unregister_files,
}
use iouring_cc.Files.Single.{Registered, known, full, accepted, refused, register_file-Registered}

-- The ends of `UnregisterFile`.
pub data Unregistered {K : Type 0} (sys : Kernel K) (fd : ℤ) (r : Registry K)
    (o : Status × Registry K) : Type 0 where
  empty_cleared :
      length r.table.fd_to_index ≡ 0
      → ltb_ℤ (sys.unregister_all r.kernel).0 (pos 0) ≡ false
      → o
        ≡ (ok_status, record { table = clean_up r.table; kernel = (sys.unregister_all r.kernel).1 })
      → Unregistered sys fd r o
  empty_refused :
      length r.table.fd_to_index ≡ 0
      → is_ok o.0 ≡ false
      → o.1 ≡ record { table = r.table; kernel = (sys.unregister_all r.kernel).1 }
      → Unregistered sys fd r o
  missing :
      length r.table.fd_to_index ≢ 0
      → find fd r.table.fd_to_index ≡ none
      → o.0.code ≡ StatusCode.not_found
      → o.1 ≡ r
      → Unregistered sys fd r o
  released :
      (i : ℕ)
      → find fd r.table.fd_to_index ≡ some i
      → o ≡ (
        kernel_status sys
            (sys.update_file r.kernel (pos i) (negsuc 0)).0
            "Failed to register files to io_uring",
        record {
          table = without_file fd i r.table;
          kernel = (sys.update_file r.kernel (pos i) (negsuc 0)).1;
        },
      )
      → Unregistered sys fd r o

length_of_find : (fd : ℤ) (i : ℕ) (m : List (ℤ × ℕ)) → find fd m ≡ some i → length m ≢ 0
length_of_find fd i m h = omega (arith, length-erase fd i m h)

module _ {K : Type 0} (sys : Kernel K) (fd : ℤ) (r : Registry K) where
  pub unregister_held :
      (i : ℕ)
      → find fd r.table.fd_to_index ≡ some i
      → unregister_file sys fd r ≡ (
        kernel_status sys
            (sys.update_file r.kernel (pos i) (negsuc 0)).0
            "Failed to register files to io_uring",
        record {
          table = without_file fd i r.table;
          kernel = (sys.update_file r.kernel (pos i) (negsuc 0)).1;
        },
      )
  unfolding unregister_file size
  unregister_held i h = ground (
    arith,
    look_up_found fd i r.table h,
    remove_held fd i r.table h,
    length_of_find fd i r.table.fd_to_index h,
  )

  unregister_absent :
      find fd r.table.fd_to_index ≡ none
      → length r.table.fd_to_index ≢ 0
      → unregister_file sys fd r ≡ (not_found_error (sys.format_fd "fd {} is not registered" fd), r)
  unfolding unregister_file size
  unregister_absent h ne = ground (arith, look_up_missing fd r.table h)

  unregister_missing :
      find fd r.table.fd_to_index ≡ none
      → length r.table.fd_to_index ≢ 0
      → Unregistered sys fd r (unregister_file sys fd r)
  unfolding not_found_error
  unregister_missing h ne =
      missing ne h (rw (unregister_absent h ne) refl) (rw (unregister_absent h ne) refl)

  unregister_empty :
      length r.table.fd_to_index ≡ 0 → unregister_file sys fd r ≡ unregister_files sys r
  unfolding unregister_file size
  unregister_empty e = ground arith

  unregister_all_cases :
      length r.table.fd_to_index ≡ 0 → Unregistered sys fd r (unregister_files sys r)
  unfolding unregister_files
  unregister_all_cases e = elim (Bool-cases (ltb_ℤ (sys.unregister_all r.kernel).0 (pos 0))) [
    | inl bad ↦
        empty_refused e
          (rw bad
            (errno_failed sys.strerror (sys.unregister_all r.kernel).0
              "Failed to unregister files from io_uring" bad).0)
          (rw bad refl)
    | inr good ↦ empty_cleared e good (rw good refl)
  ]

  -- `UnregisterFile` on an empty table unregisters the whole table with the kernel, and clears it
  -- unless the kernel fails. A descriptor that a table in use does not hold is NotFound and changes
  -- nothing. Otherwise the slot is released and the kernel is told so; the status says what it
  -- answered.
  pub unregister_file-Unregistered : Unregistered sys fd r (unregister_file sys fd r)
  unregister_file-Unregistered = elim (Option-cases (find fd r.table.fd_to_index)) [
    | inr (i, e) ↦ released i e (unregister_held i e)
    | inl e ↦ elim (ℕ_discrete (length r.table.fd_to_index) 0) [
      | yes z ↦ rw (unregister_empty z) (unregister_all_cases z)
      | no ne ↦ unregister_missing e ne
    ]
  ]

Registered-IsValid :
    {K : Type 0} {sys : Kernel K} {fd : ℤ} {r : Registry K} {o : Status × Registry K}
    → Registered sys fd r o
    → fd ≢ invalid_id
    → IsValid r.table
    → IsValid o.1.table
Registered-IsValid (known i f c e) ne v = rw e v
Registered-IsValid (full f s c e) ne v = rw e v
Registered-IsValid {fd = fd} {r = r} (accepted f i lt free k ok e) ne v =
    rw e (with_file-IsValid r.table v fd i ne f free)
Registered-IsValid {fd = fd} {r = r} (refused f i lt free k ok e) ne v =
    rw e (with_file-IsValid r.table v fd i ne f free)

Unregistered-IsValid :
    {K : Type 0} {sys : Kernel K} {fd : ℤ} {r : Registry K} {o : Status × Registry K}
    → Unregistered sys fd r o
    → IsValid r.table
    → IsValid o.1.table
Unregistered-IsValid {r = r} (empty_cleared z k e) v = rw e (clean_up-IsValid r.table)
Unregistered-IsValid (empty_refused z k e) v = rw e v
Unregistered-IsValid (missing z f c e) v = rw e v
Unregistered-IsValid {fd = fd} {r = r} (released i f e) v =
    rw e (without_file-IsValid r.table v fd i f)

module _ {K : Type 0} (sys : Kernel K) (fd : ℤ) (r : Registry K) where
  pub register_file-IsValid :
      fd ≢ invalid_id → IsValid r.table → IsValid (register_file sys fd r).1.table
  register_file-IsValid ne v = Registered-IsValid (register_file-Registered sys fd r v) ne v

  pub unregister_file-IsValid : IsValid r.table → IsValid (unregister_file sys fd r).1.table
  unregister_file-IsValid v = Unregistered-IsValid (unregister_file-Unregistered sys fd r) v

unregister-with_file :
    {K : Type 0} (sys : Kernel K) (fd : ℤ) (i : ℕ) (t : Table) (q : Registry K)
    → get_elem? t.free_ids i ≡ some invalid_id
    → q.table ≡ with_file fd i t
    → (unregister_file sys fd q).1.table ≡ t
unregister-with_file sys fd i t q free e =
    rw (unregister_held sys fd q i found)
      (ap (without_file fd i) e ∙ without_file-with_file fd i t free)
  where
    found : find fd q.table.fd_to_index ≡ some i
    found = ap (λ u. find fd u.fd_to_index) e ∙ find-cons_self fd i t.fd_to_index

restore-Registered :
    {K : Type 0} (sys : Kernel K) (fd : ℤ) (r : Registry K) (o : Status × Registry K)
    → Registered sys fd r o
    → is_ok o.0 ≡ true
    → (unregister_file sys fd o.1).1.table ≡ r.table
restore-Registered sys fd r o (known i f c e) h = absurd (cc (code_of_is_ok o.0 h, c))
restore-Registered sys fd r o (full f s c e) h = absurd (cc (code_of_is_ok o.0 h, c))
restore-Registered sys fd r o (accepted f i lt free k ok e) h =
    unregister-with_file sys fd i r.table o.1 free (ap (λ q. q.table) e)
restore-Registered sys fd r o (refused f i lt free k s e) h =
    unregister-with_file sys fd i r.table o.1 free (ap (λ q. q.table) e)

-- After a registration that succeeded, `UnregisterFile` of the same descriptor gives back the very
-- table that there was before, map and slots, whatever the kernel answers to it.
pub unregister_file-register_file :
    {K : Type 0} (sys : Kernel K) (fd : ℤ) (r : Registry K)
    → IsValid r.table
    → is_ok (register_file sys fd r).0 ≡ true
    → (unregister_file sys fd (register_file sys fd r).1).1.table ≡ r.table
unregister_file-register_file sys fd r v h =
    restore-Registered sys fd r (register_file sys fd r) (register_file-Registered sys fd r v) h

-- ===== src/Files/Single.antt =====
-- Registering and unregistering one file.
use iouring_cc.Common.{
  ℕ, ◌<◌, ◌≡◌, ◌≢◌, inl, inr, none, some, true, false, length, get_elem?, arith, Option-cases, ap,
  Bool-cases,
}
use native.Mathlib.Decide.{ℕ_discrete}
use iouring_cc.Common.Int.{ℤ, pos, ltb_ℤ, neg_ℤ}
use iouring_cc.Status.{Status, StatusCode, is_ok, is_ok-ok_status, errno_to_status}
use iouring_cc.Files.Table.{invalid_id, find, size, capacity}
use iouring_cc.Files.Slots.{used-le-length}
use iouring_cc.Files.Invariant.{IsValid, with_file}
use iouring_cc.Files.Update.{slot, slot_free, slot_lt, add_fresh, look_up_found, look_up_missing}
use iouring_cc.Files.Register.{Kernel, Registry, kernel_status, register_file}

-- The four ends of `RegisterFile`, each with its status and the state that it leaves.
pub data Registered {K : Type 0} (sys : Kernel K) (fd : ℤ) (r : Registry K)
    (o : Status × Registry K) : Type 0 where
  known :
      (i : ℕ)
      → find fd r.table.fd_to_index ≡ some i
      → o.0.code ≡ StatusCode.already_exists
      → o.1 ≡ r
      → Registered sys fd r o
  full :
      find fd r.table.fd_to_index ≡ none
      → length r.table.fd_to_index ≡ r.table.max_size
      → o.0.code ≡ StatusCode.resource_exhausted
      → o.1 ≡ r
      → Registered sys fd r o
  accepted :
      find fd r.table.fd_to_index ≡ none
      → (i : ℕ) → i < r.table.max_size
      → get_elem? r.table.free_ids i ≡ some invalid_id
      → ltb_ℤ (sys.update_file r.kernel (pos i) fd).0 (pos 0) ≡ false
      → is_ok o.0 ≡ true
      → o.1 ≡ record {
        table = with_file fd i r.table;
        kernel = (sys.update_file r.kernel (pos i) fd).1;
      }
      → Registered sys fd r o
  refused :
      find fd r.table.fd_to_index ≡ none
      → (i : ℕ) → i < r.table.max_size
      → get_elem? r.table.free_ids i ≡ some invalid_id
      → ltb_ℤ (sys.update_file r.kernel (pos i) fd).0 (pos 0) ≡ true
      → o.0
        ≡ errno_to_status sys.strerror
            (neg_ℤ (sys.update_file r.kernel (pos i) fd).0)
            "Failed to register files to io_uring"
      → o.1 ≡ record {
        table = with_file fd i r.table;
        kernel = (sys.update_file r.kernel (pos i) fd).1;
      }
      → Registered sys fd r o

module _ {K : Type 0} (sys : Kernel K) (fd : ℤ) (r : Registry K) where
  register_known :
      (i : ℕ) → find fd r.table.fd_to_index ≡ some i → Registered sys fd r (register_file sys fd r)
  unfolding register_file
  register_known i h =
      known i h (ground (arith, look_up_found fd i r.table h))
        (ground (arith, look_up_found fd i r.table h))

  register_full :
      find fd r.table.fd_to_index ≡ none
      → length r.table.fd_to_index ≡ r.table.max_size
      → Registered sys fd r (register_file sys fd r)
  unfolding register_file size capacity
  register_full h e =
      full h e (ground (arith, look_up_missing fd r.table h))
        (ground (arith, look_up_missing fd r.table h))

  module _ (h : find fd r.table.fd_to_index ≡ none)
      (ne : length r.table.fd_to_index ≢ r.table.max_size) where
    abbrev ret : ℤ
    ret = (sys.update_file r.kernel (pos (slot fd r.table)) fd).0

    register_fresh : register_file sys fd r ≡ (
      kernel_status sys ret "Failed to register files to io_uring",
      record {
        table = with_file fd (slot fd r.table) r.table;
        kernel = (sys.update_file r.kernel (pos (slot fd r.table)) fd).1;
      },
    )
    unfolding register_file size capacity
    register_fresh = ground (arith, look_up_missing fd r.table h, add_fresh fd r.table h)

    register_answered : IsValid r.table → Registered sys fd r (register_file sys fd r)
    register_answered v = elim (Bool-cases (ltb_ℤ ret (pos 0))) [
      | inl bad ↦
          refused h (slot fd r.table) lt free bad (rw (register_fresh, bad))
            (ap (λ o. o.1) register_fresh)
      | inr good ↦
          accepted h (slot fd r.table) lt free good (rw (register_fresh, good) is_ok-ok_status)
            (ap (λ o. o.1) register_fresh)
    ]
      where
        room : length r.table.fd_to_index < r.table.max_size
        room = omega (arith, v.sized, v.counted, used-le-length r.table.free_ids)

        lt : slot fd r.table < r.table.max_size
        lt = slot_lt fd r.table v room

        free : get_elem? r.table.free_ids (slot fd r.table) ≡ some invalid_id
        free = slot_free fd r.table v room

  -- `RegisterFile` on a valid table ends in one of four ways. A descriptor that the table holds is
  -- AlreadyExists and a full table is ResourceExhausted, and both leave the state as it was.
  -- Otherwise a free slot within the capacity takes the descriptor and the kernel is told of it;
  -- the status is Ok if the kernel does not answer with an error, and the status of that error if
  -- it does, but the table holds the descriptor in both cases.
  pub register_file-Registered : IsValid r.table → Registered sys fd r (register_file sys fd r)
  register_file-Registered v = elim (Option-cases (find fd r.table.fd_to_index)) [
    | inr (i, e) ↦ register_known i e
    | inl e ↦ elim (ℕ_discrete (length r.table.fd_to_index) r.table.max_size) [
      | yes all ↦ register_full e all
      | no some_left ↦ register_answered e some_left v
    ]
  ]

-- ===== src/Setup/Groups.antt =====
-- The buffers that `IoUring` of iouring/io_uring.cc provides to the kernel before it starts.
use Prim.Native.String.{String}
use iouring_cc.Common.{ℕ, ◌==◌, Bool, true, false, [], ◌∷◌, ◌++◌, Option, none, some, if◌then◌else◌}
use iouring_cc.Common.Int.{ℤ, pos, ltb_ℤ}
use iouring_cc.Common.Outcome.{Outcome, done, aborted, undefined, ◌>>=◌}
use iouring_cc.Status.{Status, ok_status, internal_error, already_exists_error, not_found_error}
use iouring_cc.Sqe.Entry.{Sqe, Prep, prep}
use iouring_cc.Pools.{BufferPool, new_pool, find_pool, erase_pool}
use iouring_cc.Submit.{Ring, Uring, get_sqe}

-- `wait_cqe` is `io_uring_wait_cqe` with the `res` of the entry that it gives, and `cqe_seen`; where
-- it fails, it gives no entry.
-- `format_gid` is `fmt::format`, and `format_none` what it makes of a placeholder without argument.
pub record Waits (R : Type 0) : Type 0 where
  pub wait_cqe : R → Option ℤ × R
  pub format_gid : String → ℤ → String
  pub format_none : String → String

-- `io_uring_prep_provide_buffers` of the null pointer.
abbrev pub with_entry {ℓ} : {A : Type ℓ} → Option Sqe → (Sqe → Outcome A) → Outcome A
with_entry none f = undefined
with_entry (some s) f = f s

-- The end of a pre-registration: the answer of the kernel.
abbrev pub provided_status : ℤ → Status
provided_status ret =
    if ltb_ℤ ret (pos 0) then internal_error "PrepareProvidedBuffer failed" else ok_status

module _ {R : Type 0} (sys : Ring R) (waits : Waits R) (fuel : ℕ) where
  -- The entry, put into the ring, submitted and answered.
  abbrev pub exchange : Sqe → Uring R → Option ℤ × Uring R
  exchange s u =
      let (ret, r) = waits.wait_cqe (sys.submit (sys.put_sqe s u.ring)).1 in
      (ret, record u { ring = r })

  -- `cqe->res`, where nothing tests that the wait has set `cqe`.
  abbrev pub read_result : Option ℤ × Uring R → Outcome (Status × Uring R)
  read_result (none, v) = undefined
  read_result (some ret, v) = done (provided_status ret, v)

  unfoldable pub submit_provided_buffer_first : ℕ → ℤ → ℕ → ℕ → Uring R → Outcome (Status × Uring R)
  submit_provided_buffer_first bufs group_id buffer_size buffer_count u =
      get_sqe sys fuel u >>= λ o. with_entry o.0 λ s.
        read_result
          (exchange (prep (Prep.provide_buffers bufs buffer_size buffer_count group_id 0) s) o.1)

  -- The pool stands in the map before the kernel is asked.
  abbrev pub with_pool : ℤ → BufferPool → Uring R → Uring R
  with_pool group_id p u = record u {
    engine = record u.engine { pools = u.engine.pools ++ ((group_id, p) ∷ []) };
  }

  abbrev pub has_pool : Option BufferPool → Bool
  has_pool none = false
  has_pool (some p) = true

  -- `PreparePreApprovedProvidedBufferFirst`, and `PrepareProvidedBufferFirst` with the memory that
  -- the pool allocates at `bufs`.
  unfoldable pub prepare_provided_buffer_first :
      ℤ → ℕ → ℕ → ℕ → Uring R → Outcome (Status × Uring R)
  unfolding submit_provided_buffer_first
  prepare_provided_buffer_first group_id bufs buffer_size buffer_count u =
      if has_pool (find_pool group_id u.engine.pools)
      then done
          (already_exists_error (waits.format_none "{} group_id buffer pool already exists"), u)
      else if buffer_count == 0
      then aborted
      else if buffer_size == 0
      then aborted
      else submit_provided_buffer_first bufs group_id buffer_size buffer_count
          (with_pool group_id (new_pool buffer_size buffer_count bufs) u)

  unfoldable pub erase_buffer_from_pool : ℤ → Uring R → Status × Uring R
  erase_buffer_from_pool gid u =
      if has_pool (find_pool gid u.engine.pools)
      then (
        ok_status,
        record u { engine = record u.engine { pools = erase_pool gid u.engine.pools } },
      )
      else (not_found_error (waits.format_gid "{} gid is not present in buffer pool" gid), u)

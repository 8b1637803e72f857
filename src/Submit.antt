-- ===== src/Submit.antt =====
-- The thread of `IoUring` of iouring/io_uring.cc: taking an entry of the submission ring, filling it
-- in, submitting to the kernel, and processing the completion ring. The calls of liburing are the
-- fields of `Ring`, with any state and any answers.
mod Tests
pub mod Retry
pub mod Batch
pub mod Entries
pub mod Thread
use Prim.Native.String.{String}
use iouring_cc.Common.{
  ℕ, zero, suc, ◌+◌, Bool, true, false, not, ◌&&◌, ◌==◌, List, length, min, Option, none, some,
  bit_and, bit_or, if◌then◌else◌,
}
use iouring_cc.Common.Int.{ℤ, pos, negsuc, ◌+ℤ◌, eqb_ℤ, ltb_ℤ}
use iouring_cc.Common.Outcome.{Outcome, done, aborted, running, ◌>>=◌}
use iouring_cc.Status.{
  Status, ok_status, errno_to_status, errno_to_status_code, from_args_details,
  resource_exhausted_error, unimplemented_error, is_unimplemented, is_resource_exhausted,
}
use iouring_cc.Files.Table.{Table}
use iouring_cc.Request.Flags.{io_link, io_hardlink}
use iouring_cc.Request.Payload.{IoRequest}
use iouring_cc.Sqe.Entry.{Sqe}
use iouring_cc.Sqe.Dispatch.{Prepared, filled, unimplemented, fill}
use iouring_cc.Completion.Entry.{Cqe}
use iouring_cc.Engine.{Engine, find_handler, handler_at, answer_with, handle_cqes}

-- `put_sqe` is the entry that was handed out last, as the handlers have left it.
pub record Ring (R : Type 0) : Type 0 where
  pub get_sqe : R → Option Sqe × R
  pub put_sqe : Sqe → R → R
  pub submit : R → ℤ × R
  pub wait_cqe_timeout : R → ℤ × R
  pub cq_ready : R → ℕ
  pub peek_batch_cqe : ℕ → R → List Cqe × R
  pub cq_advance : ℕ → R → R
  pub strerror : ℤ → String

-- `max_drain` is `max_cqe_to_drain_`, and the size of `cqes_`.
pub record Uring (R : Type 0) : Type 0 where
  pub ring : R
  pub files : Table
  pub engine : Engine
  pub linked_sqe : Bool
  pub stop_consumption : Bool
  pub max_drain : ℕ

-- EINTR, EBUSY and ETIME, negated.
abbrev pub minus_eintr : ℤ
minus_eintr = negsuc 3

abbrev pub minus_ebusy : ℤ
minus_ebusy = negsuc 15

abbrev pub minus_etime : ℤ
minus_etime = negsuc 61

-- `-1 * (int)StatusCode::kUnimplemented2`.
abbrev pub unimplemented_result : ℤ
unimplemented_result = negsuc 100

module _ {R : Type 0} (sys : Ring R) where
  -- The loop of `SubmitToKernel` while the kernel interrupts it.
  unfoldable pub submit_retry : ℕ → R → Outcome (ℤ × R)
  submit_retry zero r = running
  submit_retry (suc n) r =
      let rest = submit_retry n (sys.submit r).1 in
      if eqb_ℤ (sys.submit r).0 minus_eintr then rest else done (sys.submit r)

  -- What `SubmitToKernel` makes of the answer.
  unfoldable pub submitted : Uring R → ℤ → R → Outcome (Status × Uring R)
  submitted u res r =
      if ltb_ℤ res (pos 0)
      then (if eqb_ℤ res minus_ebusy
          then done (
            errno_to_status sys.strerror (pos 16) "Failure to submit io_uring, busy",
            record u { ring = r },
          )
          else aborted)
      else done (
        ok_status,
        record u { ring = r; engine = record u.engine { pending = u.engine.pending +ℤ res } },
      )

  unfoldable pub submit_to_kernel : ℕ → Uring R → Outcome (Status × Uring R)
  submit_to_kernel fuel u = submit_retry fuel u.ring >>= λ o. submitted u o.0 o.1

  -- `max_requests` as `DoProcessComplitionsRing` bounds it.
  abbrev pub batch_limit : ℕ → ℕ → ℕ
  batch_limit max_requests max_drain =
      if max_requests == 0 then max_drain else min max_requests max_drain

  -- The entries that are ready, up to the limit.
  unfoldable pub process_batch : ℕ → Uring R → R → Outcome (Status × Uring R)
  process_batch max_requests u r =
      let (cqes, r') =
        sys.peek_batch_cqe (min (sys.cq_ready r) (batch_limit max_requests u.max_drain)) r in
      handle_cqes cqes u.engine >>= λ e.
      done (ok_status, record u { ring = sys.cq_advance (length cqes) r'; engine = e })

  unfoldable pub do_process_completions_ring : ℕ → Uring R → Outcome (Status × Uring R)
  unfolding process_batch
  do_process_completions_ring max_requests u =
      let (ret, r) = sys.wait_cqe_timeout u.ring in
      if ltb_ℤ ret (pos 0)
      then (if not (eqb_ℤ ret minus_etime) && not (eqb_ℤ ret minus_ebusy)
          then done (
            from_args_details (errno_to_status_code ret)
                "io_uring_wait_cqe_timeout, return is not success" (sys.strerror ret),
            record u { ring = r },
          )
          else done (ok_status, record u { ring = r }))
      else process_batch max_requests u r

  unfoldable pub process_completions_ring : Uring R → Outcome (Status × Uring R)
  unfolding do_process_completions_ring
  process_completions_ring u =
      if not (ltb_ℤ (pos 0) u.engine.pending)
      then done (ok_status, u)
      else if u.stop_consumption
      then done (ok_status, u)
      else do_process_completions_ring 0 u

  -- The loop of `GetSqe` with so many tries after this one; the statuses are dropped.
  unfoldable pub get_sqe_loop : ℕ → ℕ → Uring R → Outcome (Option Sqe × Uring R)
  get_sqe_loop zero fuel u =
      let (entry, r) = sys.get_sqe u.ring in
      elim entry [
        | some s ↦ done (some s, record u { ring = r })
        | none ↦
            (submit_to_kernel fuel (record u { ring = r }) >>= λ o.
            process_completions_ring o.1 >>= λ q. done (none, q.1))
      ]
  get_sqe_loop (suc n) fuel u =
      let (entry, r) = sys.get_sqe u.ring in
      elim entry [
        | some s ↦ done (some s, record u { ring = r })
        | none ↦
            (submit_to_kernel fuel (record u { ring = r }) >>= λ o.
            process_completions_ring o.1 >>= λ q. get_sqe_loop n fuel q.1)
      ]

  -- `max_try` is 10.
  unfoldable pub get_sqe : ℕ → Uring R → Outcome (Option Sqe × Uring R)
  get_sqe fuel u = get_sqe_loop 9 fuel u

  -- `PrepareSqe` with the entry that `GetSqe` gave.
  unfoldable pub prepare_entry : IoRequest → ℕ → Option Sqe → Uring R → Outcome (Status × Uring R)
  prepare_entry req c none u =
      done (resource_exhausted_error "Not able to get free SQE element from uring", u)
  prepare_entry req c (some s) u =
      fill (record { files = u.files; pools = u.engine.pools }) req c s >>= λ p. elim p [
        | unimplemented ↦ done (unimplemented_error "Operation is not implemented", u)
        | filled s' pools ↦ done (
          ok_status,
          record u {
            ring = sys.put_sqe s' u.ring;
            engine = record u.engine { pools = pools };
            linked_sqe = not (bit_and s'.flags (bit_or io_link io_hardlink) == 0);
          },
        )
      ]

  unfoldable pub prepare_sqe : ℕ → IoRequest → ℕ → Uring R → Outcome (Status × Uring R)
  prepare_sqe fuel req c u = get_sqe fuel u >>= λ o. prepare_entry req c o.0 o.1

  -- `SubmitToKernelRing`. The entry that it makes up for an operation that is not implemented has
  -- flags that nothing sets: they are an argument.
  unfoldable pub submit_to_kernel_ring : ℕ → ℕ → IoRequest → ℕ → Uring R → Outcome (Bool × Uring R)
  submit_to_kernel_ring fuel junk req c u = prepare_sqe fuel req c u >>= λ o.
      if is_unimplemented o.0
      then (handler_at (find_handler c o.1.engine.handlers) >>= λ m.
          answer_with (record { user_data = c; res = unimplemented_result; flags = junk }) none m
            o.1.engine
          >>= λ e. done (true, record o.1 { engine = e }))
      else done (not (is_resource_exhausted o.0), o.1)

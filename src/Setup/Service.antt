-- ===== src/Setup/Service.antt =====
-- The other calls of `IoUring` of iouring/io_uring.cc.
use iouring_cc.Common.{ℕ, Bool, true, false, not, ◌∷◌, none, some, bit_or, if◌then◌else◌}
use iouring_cc.Common.Int.{ℤ, pos, negsuc, eqb_ℤ, ltb_ℤ}
use iouring_cc.Common.Outcome.{Outcome, done, aborted, ◌>>=◌}
use iouring_cc.Status.{Status, ok_status, internal_error, resource_exhausted_error}
use iouring_cc.Request.Flags.{io_link}
use iouring_cc.Files.Table.{clean_up}
use iouring_cc.Time.{msec_to_timespec}
use iouring_cc.Sqe.Entry.{to_local, Sqe, Prep, prep}
use iouring_cc.Completion.{Kind, invalid_gid}
use iouring_cc.Sink.{stop}
use iouring_cc.Submit.{Ring, Uring, get_sqe, submit_to_kernel, do_process_completions_ring}
use iouring_cc.Api.{Caller, Client, new_completion}
use iouring_cc.Setup.Construct.{Host}

unfoldable pub is_event_fd_registered : {R : Type 0} → Client R → Bool
is_event_fd_registered s = not (eqb_ℤ s.event_fd (negsuc 0))

-- The descriptor is not closed.
unfoldable pub unregister_event_fd : {R : Type 0} → Host R → Client R → Outcome (Client R)
unregister_event_fd host s =
    let (res, r) = host.unregister_eventfd s.uring.ring in
    if eqb_ℤ res (pos 0)
    then done (record s { uring = record s.uring { ring = r }; event_fd = negsuc 0 })
    else aborted

-- `UnregisterBuffers`, which drops the result; `io_uring_unregister_buffers` is an argument.
unfoldable pub unregister_buffers : {R : Type 0} → (R → ℤ × R) → Client R → Client R
unregister_buffers unregister s = record s {
  uring = record s.uring { ring = (unregister s.uring.ring).1 };
}

-- `close`, `Join` of the thread's pool and `io_uring_queue_exit` are an argument.
unfoldable pub destroy_ring : {R : Type 0} → (R → R) → Client R → Client R
destroy_ring exit s = record s {
  uring = record s.uring {
    ring = exit s.uring.ring;
    files = clean_up s.uring.files;
    stop_consumption = true;
  };
  sink = stop s.sink;
  event_fd = if ltb_ℤ (pos 0) s.event_fd then negsuc 0 else s.event_fd;
}

module _ {R : Type 0} (sys : Ring R) (fuel : ℕ) where
  unfoldable pub flush_submission_ring : Uring R → Outcome (Status × Uring R)
  flush_submission_ring u = submit_to_kernel sys fuel u

  -- `ProcessComplitionsRing`, which a caller uses without the thread; `eventfd_read` is an argument.
  unfoldable pub process_complitions_ring : (ℤ → R → ℤ × R) → Client R → Outcome (Status × Uring R)
  process_complitions_ring eventfd_read s =
      if not (ltb_ℤ (pos 0) s.event_fd)
      then aborted
      else if s.threaded
      then aborted
      else let (ret, r) = eventfd_read s.event_fd s.uring.ring in
        if ltb_ℤ ret (pos 0)
        then done (internal_error "Failed to read data from event_fd_", record s.uring { ring = r })
        else do_process_completions_ring sys 0 (record s.uring { ring = r })

  abbrev no_entry : Uring R → Status × Uring R
  no_entry u = (resource_exhausted_error "Not able to get free SQE element from uring", u)

  -- `LinkTimeoutTo`: the entry that is linked, the status, and the object. The entry of the timeout
  -- gets the address of a local `__kernel_timespec`.
  unfoldable pub link_timeout_to : ℕ → Sqe → Uring R → Outcome (Sqe × (Status × Uring R))
  link_timeout_to timeout sqe u = get_sqe sys fuel u >>= λ o. done (
    record sqe { flags = bit_or sqe.flags io_link },
    elim o.0 [
      | none ↦ no_entry o.1
      | some s ↦ (
        ok_status,
        record o.1 {
          ring =
              sys.put_sqe (prep (Prep.link_timeout (to_local (msec_to_timespec timeout)) 0) s)
                o.1.ring;
        },
      )
    ],
  )

  -- `Nop`, with a completion that no handler is registered for.
  unfoldable pub nop : Caller → Uring R → Outcome (Status × Uring R)
  nop w u = get_sqe sys fuel u >>= λ o. done (elim o.0 [
    | none ↦ no_entry o.1
    | some s ↦ (
      ok_status,
      record o.1 {
        ring = sys.put_sqe (record (prep Prep.nop s) { user_data = w.address }) o.1.ring;
        engine = record o.1.engine {
          handlers =
              (w.address, new_completion Kind.plain invalid_gid (record w { has_handler = false }))
              ∷ o.1.engine.handlers;
        };
      },
    )
  ])

-- ===== src/Submit/Thread.antt =====
-- One round of the loop of `IoUring::DoProcessIoRequests` of iouring/io_uring.cc, over `IoSink`.
use iouring_cc.Common.{ℕ, Bool, true, false, not, ◌&&◌, Option, none, some, if◌then◌else◌}
use iouring_cc.Common.Int.{ℤ, pos, ltb_ℤ}
use iouring_cc.Common.Outcome.{Outcome, done, aborted, undefined, running, ◌>>=◌}
use iouring_cc.Request.Payload.{IoRequest}
use iouring_cc.Sink.{Sink, drain}
use iouring_cc.Submit.{
  Ring, Uring, submit_to_kernel, submit_to_kernel_ring, process_completions_ring,
}

-- A request and the address of its completion.
abbrev pub Item : Type 0
Item = IoRequest × ℕ

-- `ended` is the return with CancelledError.
pub record Round (R : Type 0) : Type 0 where
  pub ended : Bool
  pub uring : Uring R
  pub sink : Sink Item

abbrev pub consumed {ℓ} : {U : Type ℓ} → Outcome (Bool × U) → Bool × Outcome U
consumed (done (b, u)) = (b, done u)
consumed aborted = (false, aborted)
consumed undefined = (false, undefined)
consumed running = (false, running)

module _ {R : Type 0} (sys : Ring R) (fuel junk : ℕ) where
  -- The function that `Drain` is given.
  unfoldable pub consume : Outcome (Uring R) → Item → Bool × Outcome (Uring R)
  consume (done u) a = consumed (submit_to_kernel_ring sys fuel junk a.0 a.1 u)
  consume aborted a = (false, aborted)
  consume undefined a = (false, undefined)
  consume running a = (false, running)

  -- The submission after `Drain`, unless the last entry is linked to the next.
  unfoldable pub flush : ℤ → Uring R → Outcome (Uring R)
  flush count u =
      if ltb_ℤ (pos 0) count && not u.linked_sqe
      then (submit_to_kernel sys fuel u >>= λ o. done o.1)
      else done u

  unfoldable pub finish_round : ℤ → Sink Item → Uring R → Outcome (Round R)
  finish_round count k u = flush count u >>= λ v.
      if ltb_ℤ count (pos 0)
      then done (record { ended = true; uring = v; sink = k })
      else (process_completions_ring sys v >>= λ o.
          done (record { ended = false; uring = o.1; sink = k }))

  abbrev pub after_drain : Option (ℤ × Outcome (Uring R) × Sink Item) → Option (Outcome (Round R))
  after_drain none = none
  after_drain (some (count, s, k)) = some (s >>= λ u. finish_round count k u)

  -- `none` while the thread waits.
  unfoldable pub round : (ℕ → Bool) → Uring R → Sink Item → Option (Outcome (Round R))
  round stop_at u k = after_drain (drain consume u.max_drain stop_at k u.engine.pending (done u))

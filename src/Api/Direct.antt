-- ===== src/Api/Direct.antt =====
-- Calls without the thread: the caller submits, and consumes the completions.
use iouring_cc.Common.{
  ℕ, ◌≡◌, ◌∙◌, true, false, not, ◌||◌, [], ◌∷◌, ◌++◌, none, some, if◌then◌else◌, arith,
}
use iouring_cc.Common.Int.{pos, ltb_ℤ}
use iouring_cc.Common.Outcome.{done, aborted}
use iouring_cc.Request.Payload.{IoRequest}
use iouring_cc.Completion.{Completion, more}
use iouring_cc.Engine.{find_handler, replaced}
use iouring_cc.Sink.{enqueue}
use iouring_cc.Submit.{Ring, Uring, get_sqe}
use iouring_cc.Submit.Entries.{submit_exhausted}
use iouring_cc.Api.{Caller, Client, submit_new, submit_io_request, set_exception}
use iouring_cc.Api.Calls.{Call, call}
use iouring_cc.Api.Contracts.{accepted}
use iouring_cc.Api.Submits.{refuses, submits, call-Submits}

module _ {R : Type 0} (sys : Ring R) (fuel junk : ℕ) where
  -- Without the thread, and when no entry of the ring gets free, the request is dropped and its
  -- future gets an exception. The completion, which had no answer, is gone, unless what its memory
  -- holds for the flags of an entry has the bit of a further entry, which then keeps it for good.
  pub submit_io_request_fails :
      (req : IoRequest) (c : ℕ) (s : Client R) (u1 : Uring R) (m : Completion)
      → s.threaded ≡ false
      → ltb_ℤ s.event_fd (pos 0) ≡ false
      → get_sqe sys fuel s.uring ≡ done (none, u1)
      → find_handler c u1.engine.handlers ≡ some m
      → m.answered ≡ false
      → submit_io_request sys fuel junk req c s
        ≡ done (record s {
          uring = record u1 {
            engine = record u1.engine {
              handlers =
                  replaced c
                    (if more m then some (record m { answered = true }) else none)
                    u1.engine.handlers;
            };
          };
          failed = s.failed ++ (c ∷ []);
        })
  unfolding submit_io_request set_exception
  submit_io_request_fails req c s u1 m t f g h a =
      let x = submit_exhausted sys fuel junk req c s.uring u1 g in ground arith

  -- A call aborts when its arguments do not pass its assertions, when the thread runs and the queue
  -- is stopped, and when there is neither the thread nor an event descriptor.
  pub call_aborts :
      (w : Caller) (s : Client R) (c : Call)
      → (not (accepted c w.vars)
          || (if s.threaded then s.sink.stopped else ltb_ℤ s.event_fd (pos 0)))
        ≡ true
      → call sys fuel junk w s c ≡ aborted
  unfolding submit_io_request submit_new enqueue
  call_aborts w s c f = elim (call-Submits sys fuel junk w s c) [
    | refuses a x ↦ x
    | submits a g ↦ g.submitted ∙ ground (arith, f, a)
  ]

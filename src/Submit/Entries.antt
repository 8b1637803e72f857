-- ===== src/Submit/Entries.antt =====
-- What becomes of a request that the thread submits.
use iouring_cc.Common.{
  ℕ, ◌==◌, ◌≡◌, refl, true, false, not, List, none, some, arith, bit_and, bit_or,
}
use iouring_cc.Common.Int.{ℤ}
use iouring_cc.Common.Outcome.{Outcome, done, aborted, undefined, running, ◌>>=◌}
use iouring_cc.Status.{
  ok_status, is_unimplemented, is_resource_exhausted, unimplemented_error, resource_exhausted_error,
}
use iouring_cc.Pools.{BufferPool}
use iouring_cc.Request.Flags.{io_link, io_hardlink}
use iouring_cc.Request.Payload.{IoRequest}
use iouring_cc.Sqe.Entry.{Sqe}
use iouring_cc.Sqe.Dispatch.{Context, Prepared, filled, unimplemented, fill}
use iouring_cc.Sqe.Carries.{Carries, dispatch-Carries}
use iouring_cc.Sqe.Made.{Made}
use iouring_cc.Sqe.Fills.{is_filled, dispatch-Made}
use iouring_cc.Engine.{Engine, find_handler, handler_at, answer_with}
use iouring_cc.Submit.{
  Ring, Uring, get_sqe, prepare_entry, prepare_sqe, submit_to_kernel_ring, unimplemented_result,
}

pub is_filled_cases :
    (x : Outcome Prepared)
    → is_filled x ≡ true
    → (s : Sqe) × (pools : List (ℤ × BufferPool)) × (x ≡ done (filled s pools))
is_filled_cases (done (filled s pools)) h = (s, pools, refl)
is_filled_cases (done unimplemented) h = cc
is_filled_cases aborted h = cc
is_filled_cases undefined h = cc
is_filled_cases running h = cc

module _ {R : Type 0} (sys : Ring R) (fuel junk : ℕ) (req : IoRequest) (c : ℕ)
    (u u1 : Uring R) where
  -- What the handlers read of the ring.
  abbrev pub context : Context
  context = record { files = u1.files; pools = u1.engine.pools }

  -- A request that a `make_` function built, other than a timeout's removal or update and a socket,
  -- and, where it removes buffers or provides buffers of length 0, with a pool for its group on the
  -- state after `GetSqe`, gets the entry that `GetSqe` has found: the entry is filled in with the
  -- completion and the request's flags, and stands in the ring, and the request counts as consumed.
  pub submit-Made :
      (s : Sqe)
      → get_sqe sys fuel u ≡ done (some s, u1)
      → Made context req
      → (s' : Sqe) × (pools : List (ℤ × BufferPool)) × Carries req c s'
        × (submit_to_kernel_ring sys fuel junk req c u
            ≡ done (
              true,
              record u1 {
                ring = sys.put_sqe s' u1.ring;
                engine = record u1.engine { pools = pools };
                linked_sqe = not (bit_and s'.flags (bit_or io_link io_hardlink) == 0);
              },
            ))
  unfolding submit_to_kernel_ring prepare_sqe prepare_entry ok_status is_unimplemented
      is_resource_exhausted
  submit-Made s g m =
      let (s', pools, e) =
        is_filled_cases (fill context req c s) (dispatch-Made context req c s m) in
      (s', pools, dispatch-Carries context req c s s' pools req.operation e, ground arith)

  -- When no entry gets free, the request counts as not consumed, and nothing is put into the ring.
  pub submit_exhausted :
      get_sqe sys fuel u ≡ done (none, u1)
      → submit_to_kernel_ring sys fuel junk req c u ≡ done (false, u1)
  unfolding submit_to_kernel_ring prepare_sqe prepare_entry resource_exhausted_error
      is_unimplemented is_resource_exhausted
  submit_exhausted g = ground arith

  -- A request that the switch does not know counts as consumed once its completion has been told of
  -- the code. The entry that was taken from the ring for it is neither filled in nor given back: the
  -- ring is as `GetSqe` left it, with an entry in it that holds what an earlier request left there.
  pub submit_unimplemented :
      (s : Sqe) (e : Engine)
      → get_sqe sys fuel u ≡ done (some s, u1)
      → fill context req c s ≡ done unimplemented
      → (handler_at (find_handler c u1.engine.handlers) >>= λ m.
          answer_with
            (record { user_data = c; res = unimplemented_result; flags = junk })
            none
            m
            u1.engine)
        ≡ done e
      → submit_to_kernel_ring sys fuel junk req c u ≡ done (true, record u1 { engine = e })
  unfolding submit_to_kernel_ring prepare_sqe prepare_entry unimplemented_error is_unimplemented
      is_resource_exhausted
  submit_unimplemented s e g f h = ground arith

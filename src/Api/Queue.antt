-- ===== src/Api/Queue.antt =====
-- Calls while the thread of `IoUring` runs.
use iouring_cc.Common.{
  ℕ, ◌≡◌, refl, ◌∙◌, true, false, not, ◌==◌, List, [], ◌∷◌, ◌++◌, some, bit_and, bit_or, arith,
}
use iouring_cc.Common.Int.{ℤ}
use iouring_cc.Common.Outcome.{done}
use iouring_cc.Request.Flags.{io_link, io_hardlink}
use iouring_cc.Request.Payload.{IoRequest}
use iouring_cc.Pools.{BufferPool}
use iouring_cc.Sqe.Entry.{Sqe}
use iouring_cc.Sqe.Carries.{Carries}
use iouring_cc.Completion.{Kind, Completion}
use iouring_cc.Engine.{find_handler}
use iouring_cc.Sink.{enqueue}
use iouring_cc.Submit.{Ring, Uring, get_sqe, submit_to_kernel_ring}
use iouring_cc.Submit.Entries.{submit-Made}
use iouring_cc.Api.{
  Caller, Client, MsgHdr, new_completion, with_completion, submit_new, submit_io_request,
}
use iouring_cc.Api.Calls.{Call, call}
use iouring_cc.Api.Contracts.{supported, accepted}
use iouring_cc.Api.Submits.{Posted, refuses, submits, call-Submits}

module _ {R : Type 0} (sys : Ring R) (fuel junk : ℕ) (w : Caller) (s : Client R)
    (threaded : s.threaded ≡ true) (open_sink : s.sink.stopped ≡ false) where
  -- The object after a submission while the thread runs.
  abbrev queued : Kind → ℤ → IoRequest → List (ℕ × MsgHdr) → Client R
  queued k gid req headers =
      record (with_completion sys fuel junk w k gid (record s { headers = headers })) {
        sink = record s.sink { pending = s.sink.pending ++ ((req, w.address) ∷ []) };
      }

  after_call :
      (c : Call) (g : Posted sys fuel junk w s c (call sys fuel junk w s c))
      → call sys fuel junk w s c ≡ done (queued g.kind g.gid g.request g.headers)
  unfolding submit_new submit_io_request enqueue
  after_call c g = g.submitted ∙ ground (arith, threaded, open_sink)

  posted :
      (c : Call) → accepted c w.vars ≡ true → Posted sys fuel junk w s c (call sys fuel junk w s c)
  posted c a = elim (call-Submits sys fuel junk w s c) [ refuses b x ↦ cc | submits b g ↦ g ]

  -- While the thread runs and the queue is not stopped, a call whose arguments pass its assertions
  -- returns. It has put one item behind those that are queued, which names the call's completion,
  -- and has not touched the ring. The completion is alive, with the handler, and its future has no
  -- value yet.
  pub call_queues :
      (c : Call)
      → accepted c w.vars ≡ true
      → (s' : Client R) × (req : IoRequest) × (m : Completion) × (call sys fuel junk w s c
          ≡ done s')
        × (s'.sink.pending ≡ s.sink.pending ++ ((req, w.address) ∷ []))
        × (s'.uring.ring ≡ s.uring.ring)
        × (find_handler w.address s'.uring.engine.handlers ≡ some m)
        × (m.has_callback ≡ w.has_handler)
        × (m.answered ≡ false)
  unfolding find_handler new_completion
  call_queues c a =
      let g = posted c a in
      (
        queued g.kind g.gid g.request g.headers,
        g.request,
        new_completion g.kind g.gid w,
        after_call c g,
        refl,
        refl,
        ground arith,
        refl,
        refl,
      )

  -- While the thread runs and the queue is not stopped, a call whose arguments pass its assertions
  -- queues an item. When the thread comes to this item, on whatever state, and finds a free entry
  -- in the ring, and the call is supported there, then the entry is filled in with the call's
  -- completion and the request's flags, and stands in the ring. Supported are all calls but the
  -- removal and the update of a timeout and `Socket`; `RemoveBuffer`, and `ProvideBuffer` of length
  -- 0, where the group has a pool on that state.
  pub call_reaches_ring :
      (c : Call) (u u1 : Uring R) (entry : Sqe)
      → accepted c w.vars ≡ true
      → get_sqe sys fuel u ≡ done (some entry, u1)
      → supported (record { files = u1.files; pools = u1.engine.pools }) c ≡ true
      → (s' : Client R) × (req : IoRequest) × (filled : Sqe) × (pools : List (ℤ × BufferPool))
        × (call sys fuel junk w s c ≡ done s')
        × (s'.sink.pending ≡ s.sink.pending ++ ((req, w.address) ∷ []))
        × Carries req w.address filled
        × (submit_to_kernel_ring sys fuel junk req w.address u
            ≡ done (
              true,
              record u1 {
                ring = sys.put_sqe filled u1.ring;
                engine = record u1.engine { pools = pools };
                linked_sqe = not (bit_and filled.flags (bit_or io_link io_hardlink) == 0);
              },
            ))
  call_reaches_ring c u u1 entry a free known =
      let g = posted c a in
      let (filled, pools, carries, taken) =
        submit-Made sys fuel junk g.request w.address u u1 entry free (g.built _ known) in
      (
        queued g.kind g.gid g.request g.headers,
        g.request,
        filled,
        pools,
        after_call c g,
        refl,
        carries,
        taken,
      )

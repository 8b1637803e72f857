-- ===== src/System/Steps.antt =====
-- The calls of many threads and the thread of `IoUring`, in any order. `Drain` holds the mutex of the
-- sink for its whole loop, so no request comes between; a call may come between `Drain` and the rest
-- of the round. What a call does but for the queue concerns its own new completion alone, so it
-- counts as one step.
use iouring_cc.Common.{ℕ, ◌≡◌, Bool, false, List, Option, none, some}
use iouring_cc.Common.Int.{ℤ}
use iouring_cc.Common.Outcome.{Outcome, done, ◌>>=◌}
use iouring_cc.Files.Table.{Table}
use iouring_cc.Pools.{BufferPool}
use iouring_cc.Sink.{Sink, drain, stop}
use iouring_cc.Submit.{Ring, Uring}
use iouring_cc.Submit.Thread.{Item, Round, consume, finish_round}
use iouring_cc.Api.{Caller, Client}
use iouring_cc.Api.Calls.{Call, call}
use iouring_cc.System.Calls.{Fresh}

-- The object, the count with which `Drain` has returned until the round has ended, and whether the
-- thread has ended.
pub record Program (R : Type 0) : Type 0 where
  pub client : Client R
  pub drained : Option ℤ
  pub ended : Bool

abbrev pub with_client : {R : Type 0} → Program R → Client R → Program R
with_client p s = record p { client = s }

-- What `Drain` leaves.
abbrev pub after_drain : {R : Type 0} → Program R → ℤ → Sink Item → Uring R → Program R
after_drain p count k u = record p {
  client = record p.client { uring = u; sink = k };
  drained = some count;
}

-- What a round leaves: the requests that were queued meanwhile are still there.
abbrev pub after_round : {R : Type 0} → Program R → Round R → Program R
after_round p y = record p {
  client = record p.client { uring = y.uring };
  drained = none;
  ended = y.ended;
}

module _ {R : Type 0} (sys : Ring R) where
  -- One step, and what comes of it. The call's completion is a new object; a file may be
  -- registered, and a group of buffers provided, at any time.
  pub data Step (p : Program R) : Outcome (Program R) → Type 0 where
    calls :
        (fuel junk : ℕ) (w : Caller) (c : Call)
        → Fresh w.address p.client.uring.engine
        → Step p (call sys fuel junk w p.client c >>= λ s. done (with_client p s))
    drains :
        (fuel junk : ℕ) (stop_at : ℕ → Bool) (count : ℤ) (m : Outcome (Uring R)) (k : Sink Item)
        → p.ended ≡ false
        → p.drained ≡ none
        → drain
            (consume sys fuel junk)
            p.client.uring.max_drain
            stop_at
            p.client.sink
            p.client.uring.engine.pending
            (done p.client.uring)
          ≡ some (count, m, k)
        → Step p (m >>= λ u. done (after_drain p count k u))
    finishes :
        (fuel junk : ℕ) (count : ℤ)
        → p.drained ≡ some count
        → Step p (
            finish_round sys fuel junk count p.client.sink p.client.uring >>= λ y.
            done (after_round p y))
    stops : Step p (done (with_client p (record p.client { sink = stop p.client.sink })))
    registers :
        (files : Table)
        → Step p (
            done
              (with_client p (record p.client { uring = record p.client.uring { files = files } })))
    provides :
        (pools : List (ℤ × BufferPool))
        → Step p (
            done (
              with_client p (record p.client {
                uring = record p.client.uring {
                  engine = record p.client.uring.engine { pools = pools };
                };
              })))

  -- What a program comes to.
  pub data Reaches (p : Program R) : Outcome (Program R) → Type 0 where
    here : Reaches p (done p)
    next : {q : Program R} {x : Outcome (Program R)} → Reaches p (done q) → Step q x → Reaches p x

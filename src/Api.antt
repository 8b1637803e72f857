-- ===== src/Api.antt =====
-- The calls of iouring/io_uring_api.h, and `IoUring::SubmitIoRequest` of iouring/io_uring.h, which
-- each of them ends in. The future that a call returns is known by the address of its completion,
-- which is also its cancel token.
pub mod File
pub mod Net
pub mod Misc
pub mod Calls
pub mod Contracts
pub mod Submits
pub mod Queue
pub mod Direct
mod Tests
use iouring_cc.Common.{
  ℕ, ◌-◌, ◌^◌, Bool, true, false, List, [], ◌∷◌, ◌++◌, none, some, ltb, if◌then◌else◌,
}
use iouring_cc.Common.Int.{ℤ, pos, negsuc, ltb_ℤ}
use iouring_cc.Common.Outcome.{Outcome, done, aborted, ◌>>=◌}
use iouring_cc.Request.Payload.{IoRequest, CommonVars}
use iouring_cc.Completion.{Kind, Completion, more}
use iouring_cc.Engine.{find_handler, replaced, handler_at}
use iouring_cc.Sink.{Sink, enqueue}
use iouring_cc.Submit.{Ring, Uring, submit_to_kernel_ring}
use iouring_cc.Submit.Thread.{Item}

-- `struct msghdr`, its pointers as addresses.
pub record MsgHdr : Type 0 where
  pub name : ℕ
  pub namelen : ℕ
  pub iov : ℕ
  pub iovlen : ℕ
  pub control : ℕ
  pub controllen : ℕ
  pub flags : ℕ

-- A call: the address that `std::make_unique` gives its completion, the address of `mh_` in it and
-- what the memory of `cqe_res_`, `cqe_flags_` and `buffer_info_.buf_bid_` holds, which no
-- constructor sets; whether the handler is a function; and `common_vars`.
pub record Caller : Type 0 where
  pub address : ℕ
  pub msg_hdr : ℕ
  pub left_res : ℤ
  pub left_flags : ℕ
  pub left_bid : ℕ
  pub has_handler : Bool
  pub vars : CommonVars

-- The `IoUring` object as a caller has it. `threaded` is `start_sub_consume_thread_`; `headers` are
-- the `mh_` of completions, by address; `failed` are the futures that got an exception.
pub record Client (R : Type 0) : Type 0 where
  pub uring : Uring R
  pub sink : Sink Item
  pub threaded : Bool
  pub event_fd : ℤ
  pub headers : List (ℕ × MsgHdr)
  pub failed : List ℕ

-- A `uint32_t` as a group number, which is an `int32_t`.
abbrev pub group : ℕ → ℤ
group n = if ltb n (2 ^ 31) then pos n else negsuc (2 ^ 32 - 1 - n)

-- The constructors of the five completions, and `RegisterCallback`.
unfoldable pub new_completion : Kind → ℤ → Caller → Completion
new_completion k gid w = record {
  kind = k;
  has_callback = w.has_handler;
  cqe_res = w.left_res;
  cqe_flags = w.left_flags;
  buf_gid = gid;
  buf_bid = 0;
  info_bid = w.left_bid;
  answered = false;
}

-- `RecvSendMsgCompletion(fd, iov)`.
unfoldable pub vector_header : ℕ → ℕ → MsgHdr
vector_header iov_data iov_size = record {
  name = 0;
  namelen = 0;
  iov = iov_data;
  iovlen = iov_size;
  control = 0;
  controllen = 0;
  flags = 0;
}

-- `mh_` of a new completion.
unfoldable pub with_header : {R : Type 0} → MsgHdr → Caller → Client R → Client R
with_header m w s = record s { headers = (w.msg_hdr, m) ∷ s.headers }

-- `SetException`, of any of the five; `set_exception` on a promise that has a value throws out of it.
unfoldable pub set_exception : {R : Type 0} → ℕ → Completion → Client R → Outcome (Client R)
unfolding more
set_exception c m s =
    if m.answered
    then aborted
    else done (record s {
      uring = record s.uring {
        engine = record s.uring.engine {
          handlers =
              replaced c (if more m then some (record m { answered = true }) else none)
                s.uring.engine.handlers;
        };
      };
      failed = s.failed ++ (c ∷ []);
    })

-- `SubmitIoRequest` where `SubmitToKernelRing` has returned.
abbrev pub submitted_or_failed : {R : Type 0} → ℕ → Bool → Client R → Outcome (Client R)
submitted_or_failed c true s = done s
submitted_or_failed c false s =
    handler_at (find_handler c s.uring.engine.handlers) >>= λ m. set_exception c m s

module _ {R : Type 0} (sys : Ring R) (fuel junk : ℕ) where
  unfoldable pub submit_io_request : IoRequest → ℕ → Client R → Outcome (Client R)
  submit_io_request req c s =
      if s.threaded
      then (enqueue (req, c) s.sink >>= λ k. done (record s { sink = k }))
      else if ltb_ℤ s.event_fd (pos 0)
      then aborted
      else (submit_to_kernel_ring sys fuel junk req c s.uring >>= λ o.
          submitted_or_failed c o.0 (record s { uring = o.1 }))

  -- The object after `std::make_unique` and `RegisterCallback`.
  abbrev pub with_completion : Caller → Kind → ℤ → Client R → Client R
  with_completion w k gid s = record s {
    uring = record s.uring {
      engine = record s.uring.engine {
        handlers = (w.address, new_completion k gid w) ∷ s.uring.engine.handlers;
      };
    };
  }

  -- How every call ends: a new completion with the handler, and its request submitted.
  unfoldable pub submit_new : Caller → Kind → ℤ → IoRequest → Client R → Outcome (Client R)
  submit_new w k gid req s = submit_io_request req w.address (with_completion w k gid s)

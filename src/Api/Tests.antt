-- ===== src/Api/Tests.antt =====
-- Calls at concrete inputs, on a ring with a free entry and on one without.
use iouring_cc.Common.{
  ℕ, suc, ◌≡◌, refl, true, false, not, ◌||◌, ◌==◌, List, [], ◌∷◌, none, some, bit_and, bit_or,
  if◌then◌else◌,
}
use iouring_cc.Common.Int.{ℤ, pos, negsuc, ◌+ℤ◌}
use iouring_cc.Common.Outcome.{done, aborted}
use iouring_cc.Files.Table.{new_table}
use iouring_cc.Pools.{BufferPool}
use iouring_cc.Request.Flags.{io_link, io_hardlink}
use iouring_cc.Request.Payload.{IoRequest, CommonVars, invalid_fileindex}
use iouring_cc.Request.MakeFile.{make_fsync}
use iouring_cc.Sqe.Entry.{Sqe}
use iouring_cc.Sqe.Carries.{Carries}
use iouring_cc.Completion.{Kind, Completion, more}
use iouring_cc.Engine.{find_handler, replaced}
use iouring_cc.Submit.{
  Ring, Uring, get_sqe, get_sqe_loop, submit_to_kernel, submit_retry, submitted,
  process_completions_ring, submit_to_kernel_ring,
}
use iouring_cc.Api.{Caller, Client, submit_io_request}
use iouring_cc.Api.Calls.{Call, call}
use iouring_cc.Api.Contracts.{accepted, supported}
use iouring_cc.Api.Queue.{call_queues, call_reaches_ring}
use iouring_cc.Api.Direct.{submit_io_request_fails, call_aborts}

abbrev blank : Sqe
blank = record { calls = []; user_data = 0; flags = 0; buf_group = 0 }

-- The state counts the submissions.
abbrev open_ring : Ring ℕ
open_ring = record {
  get_sqe = λ r. (some blank, r);
  put_sqe = λ s r. r;
  submit = λ r. (pos 0, suc r);
  wait_cqe_timeout = λ r. (negsuc 61, r);
  cq_ready = λ r. 0;
  peek_batch_cqe = λ n r. ([], r);
  cq_advance = λ n r. r;
  strerror = λ e. "";
}

abbrev full_ring : Ring ℕ
full_ring = record open_ring { get_sqe = λ r. (none, r) }

abbrev some_uring : Uring ℕ
some_uring = record {
  ring = 0;
  files = new_table 2;
  engine = record { handlers = []; pools = []; pending = pos 0; told = []; answers = [] };
  linked_sqe = false;
  stop_consumption = false;
  max_drain = 8;
}

abbrev some_vars : CommonVars
some_vars = record {
  sqe_flag = 0;
  op_flag = 0;
  multishot = false;
  buf_gid = 0;
  file_index = invalid_fileindex;
  ioprio = 0;
  direct_alloc = false;
}

abbrev some_caller : Caller
some_caller = record {
  address = 100;
  msg_hdr = 116;
  left_res = pos 7;
  left_flags = 0;
  left_bid = 0;
  has_handler = true;
  vars = some_vars;
}

abbrev threaded_client : Client ℕ
threaded_client = record {
  uring = some_uring;
  sink = record { pending = []; stopped = false };
  threaded = true;
  event_fd = negsuc 0;
  headers = [];
  failed = [];
}

abbrev read_call : Call
read_call = Call.read (pos 5) 4096 512 0

read_passes : accepted read_call some_vars ≡ true
unfolding accepted
read_passes = refl

call_queues_example :
    (s' : Client ℕ) × (req : IoRequest) × (m : Completion) × (call open_ring 5 0 some_caller
        threaded_client read_call
      ≡ done s')
    × (s'.sink.pending ≡ (req, 100) ∷ [])
    × (s'.uring.ring ≡ 0)
    × (find_handler 100 s'.uring.engine.handlers ≡ some m)
    × (m.has_callback ≡ true)
    × (m.answered ≡ false)
call_queues_example =
    call_queues open_ring 5 0 some_caller threaded_client refl refl read_call read_passes

read_known : supported (record { files = new_table 2; pools = [] }) read_call ≡ true
unfolding supported
read_known = refl

entry_free : get_sqe open_ring 5 some_uring ≡ done (some blank, some_uring)
unfolding get_sqe get_sqe_loop
entry_free = refl

call_reaches_ring_example :
    (s' : Client ℕ) × (req : IoRequest) × (filled : Sqe) × (pools : List (ℤ × BufferPool)) × (call
        open_ring 5 0 some_caller threaded_client read_call
      ≡ done s')
    × (s'.sink.pending ≡ (req, 100) ∷ [])
    × Carries req 100 filled
    × (submit_to_kernel_ring open_ring 5 0 req 100 some_uring
        ≡ done (
          true,
          record some_uring {
            ring = 0;
            engine = record some_uring.engine { pools = pools };
            linked_sqe = not (bit_and filled.flags (bit_or io_link io_hardlink) == 0);
          },
        ))
call_reaches_ring_example =
    call_reaches_ring open_ring 5 0 some_caller threaded_client refl refl read_call some_uring
      some_uring blank read_passes entry_free read_known

abbrev some_completion : Completion
some_completion = record {
  kind = Kind.plain;
  has_callback = true;
  cqe_res = pos 7;
  cqe_flags = 0;
  buf_gid = pos 0;
  buf_bid = 0;
  info_bid = 0;
  answered = false;
}

-- Without the thread, with a completion at 100.
abbrev direct_client : Client ℕ
direct_client = record threaded_client {
  uring = record some_uring {
    engine = record some_uring.engine { handlers = (100, some_completion) ∷ [] };
  };
  threaded = false;
  event_fd = pos 4;
}

abbrev direct_after : Uring ℕ
direct_after = record direct_client.uring { ring = 10 }

no_entry : get_sqe full_ring 5 direct_client.uring ≡ done (none, direct_after)
unfolding get_sqe get_sqe_loop submit_to_kernel submit_retry submitted process_completions_ring ◌+ℤ◌
no_entry = refl

completion_alive : find_handler 100 direct_after.engine.handlers ≡ some some_completion
unfolding find_handler
completion_alive = refl

submit_io_request_fails_example :
    submit_io_request full_ring 5 0 (make_fsync (pos 5) 0 some_vars) 100 direct_client
    ≡ done (record direct_client {
      uring = record direct_after {
        engine = record direct_after.engine {
          handlers =
              replaced 100
                (if more some_completion
                  then some (record some_completion { answered = true })
                  else none)
                direct_after.engine.handlers;
        };
      };
      failed = 100 ∷ [];
    })
submit_io_request_fails_example =
    submit_io_request_fails full_ring 5 0 (make_fsync (pos 5) 0 some_vars) 100 direct_client
      direct_after some_completion refl refl no_entry completion_alive refl

-- A receive call without a buffer and without a group.
abbrev recv_call : Call
recv_call = Call.recv (pos 5) 0 512 0

recv_refused : (not (accepted recv_call some_vars) || false) ≡ true
unfolding accepted
recv_refused = refl

call_aborts_example : call open_ring 5 0 some_caller threaded_client recv_call ≡ aborted
call_aborts_example = call_aborts open_ring 5 0 some_caller threaded_client recv_call recv_refused

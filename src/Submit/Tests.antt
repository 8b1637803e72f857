-- ===== src/Submit/Tests.antt =====
-- Submissions on a concrete ring, whose state counts the submissions: the kernel interrupts the
-- first one, and takes two entries then.
use iouring_cc.Common.{
  Bool, ℕ, suc, ◌==◌, ◌≤◌, ◌≡◌, refl, not, none, some, true, false, List, [], ◌∷◌, length, arith,
  bit_and, bit_or, if◌then◌else◌,
}
use iouring_cc.Common.Int.{ℤ, pos, negsuc, ◌+ℤ◌}
use iouring_cc.Common.Outcome.{done}
use iouring_cc.Status.{ok_status}
use iouring_cc.Files.Table.{new_table}
use iouring_cc.Pools.{BufferPool}
use iouring_cc.Request.Flags.{io_link, io_hardlink}
use iouring_cc.Request.Payload.{CommonVars, invalid_fileindex}
use iouring_cc.Request.MakeFile.{make_fsync}
use iouring_cc.Request.MakeMisc.{make_timeout_remove}
use iouring_cc.Sqe.Entry.{Sqe}
use iouring_cc.Sqe.Carries.{Carries}
use iouring_cc.Sqe.Made.{Made}
use iouring_cc.Completion.Entry.{Cqe}
use iouring_cc.Completion.{Completion, Kind, Answer, settle, complete, complete_with, more}
use iouring_cc.Engine.{
  Engine, find_handler, handle_cqe, handle_cqes, handle_with, answer_with, record_completed,
}
use iouring_cc.Submit.{
  Ring, Uring, get_sqe, get_sqe_loop, submit_to_kernel, submit_to_kernel_ring, process_batch,
  do_process_completions_ring, process_completions_ring, submit_retry, submitted,
}
use iouring_cc.Submit.Retry.{Submitted, submit_to_kernel-Submitted}
use iouring_cc.Submit.Batch.{Processed, do_process_completions_ring-Processed}
use iouring_cc.Sink.{Sink, Loop, drain, drain_loop, closed_result}
use iouring_cc.Submit.Thread.{Item, Round, consume, round, flush, finish_round}
use iouring_cc.Submit.Entries.{submit-Made}

abbrev ten_bytes : Cqe
ten_bytes = record { user_data = 100; res = pos 10; flags = 0 }

abbrev blank : Sqe
blank = record { calls = []; user_data = 0; flags = 0; buf_group = 0 }

abbrev open_ring : Ring ℕ
open_ring = record {
  get_sqe = λ r. (some blank, r);
  put_sqe = λ s r. r;
  submit = λ r. (if r == 0 then negsuc 3 else pos 2, suc r);
  wait_cqe_timeout = λ r. (pos 0, r);
  cq_ready = λ r. 1;
  peek_batch_cqe = λ n r. (if n == 0 then [] else ten_bytes ∷ [], r);
  cq_advance = λ n r. r;
  strerror = λ e. "";
}

-- A ring whose entries are all taken.
abbrev full_ring : Ring ℕ
full_ring = record open_ring { get_sqe = λ r. (none, r) }

abbrev completion : Completion
completion = record {
  kind = Kind.plain;
  has_callback = false;
  cqe_res = pos 0;
  cqe_flags = 0;
  buf_gid = pos 0;
  buf_bid = 0;
  info_bid = 0;
  answered = false;
}

abbrev start : Uring ℕ
start = record {
  ring = 0;
  files = new_table 2;
  engine = record {
    handlers = (100, completion) ∷ [];
    pools = [];
    pending = pos 0;
    told = [];
    answers = [];
  };
  linked_sqe = false;
  stop_consumption = true;
  max_drain = 10;
}

submit_to_kernel-Submitted_example : Submitted open_ring start (submit_to_kernel open_ring 3 start)
submit_to_kernel-Submitted_example = submit_to_kernel-Submitted open_ring 3 start refl

bounded : (n : ℕ) (r : ℕ) → length (open_ring.peek_batch_cqe n r).0 ≤ n
bounded n r = grind arith

abbrev processed : Uring ℕ
processed = record start {
  engine = record {
    handlers = [];
    pools = [];
    pending = negsuc 0;
    told = [];
    answers = (100, Answer.result (pos 10)) ∷ [];
  };
}

do_process : do_process_completions_ring open_ring 0 start ≡ done (ok_status, processed)
unfolding do_process_completions_ring process_batch handle_cqes handle_cqe find_handler handle_with
    answer_with complete_with complete settle more record_completed ◌+ℤ◌
do_process = refl

do_process_completions_ring-Processed_example :
    Processed open_ring bounded 0 start (ok_status, processed)
do_process_completions_ring-Processed_example =
    do_process_completions_ring-Processed open_ring bounded 0 start (ok_status, processed)
      do_process

abbrev plain : CommonVars
plain = record {
  sqe_flag = 4;
  op_flag = 0;
  multishot = false;
  buf_gid = 0;
  file_index = invalid_fileindex;
  ioprio = 0;
  direct_alloc = false;
}

get_blank : get_sqe open_ring 3 start ≡ done (some blank, start)
unfolding get_sqe get_sqe_loop
get_blank = refl

submit-Made_example :
    (s' : Sqe) × (pools : List (ℤ × BufferPool)) × Carries (make_fsync (pos 5) 0 plain) 100 s'
    × (submit_to_kernel_ring open_ring 3 0 (make_fsync (pos 5) 0 plain) 100 start
        ≡ done (
          true,
          record start {
            ring = 0;
            engine = record start.engine { pools = pools };
            linked_sqe = not (bit_and s'.flags (bit_or io_link io_hardlink) == 0);
          },
        ))
submit-Made_example =
    submit-Made open_ring 3 0 (make_fsync (pos 5) 0 plain) 100 start start blank get_blank
      (Made.fsync (pos 5) 0 plain)

get_none :
    get_sqe full_ring 3 start
    ≡ done (none, record start { ring = 11; engine = record start.engine { pending = pos 20 } })
unfolding get_sqe get_sqe_loop submit_to_kernel submit_retry submitted process_completions_ring ◌+ℤ◌
get_none = refl

abbrev answered : Engine
answered = record {
  handlers = [];
  pools = [];
  pending = pos 0;
  told = [];
  answers = (100, Answer.result (negsuc 100)) ∷ [];
}

-- Two requests, the first of which is not implemented.
abbrev queued : Sink Item
queued = record {
  pending = (make_timeout_remove 88 0 plain, 100) ∷ (make_fsync (pos 5) 0 plain, 100) ∷ [];
  stopped = false;
}

abbrev never : ℕ → Bool
never n = false

abbrev ended : Round ℕ
ended = record {
  ended = false;
  uring = record start { engine = answered; linked_sqe = true };
  sink = record queued { pending = [] };
}

round_ends : round open_ring 3 0 never start queued ≡ some (done ended)
unfolding round drain drain_loop iouring_cc.Sink.is_empty consume submit_to_kernel_ring
    iouring_cc.Submit.prepare_sqe iouring_cc.Submit.prepare_entry get_sqe get_sqe_loop
    iouring_cc.Sqe.Dispatch.dispatch make_timeout_remove make_fsync iouring_cc.Sqe.File.fsync
    iouring_cc.Request.Members.as_fsync iouring_cc.Sqe.Entry.prep iouring_cc.Sqe.Entry.finish
    iouring_cc.Sqe.Entry.set_data iouring_cc.Sqe.Entry.set_flags find_handler answer_with
    complete_with complete settle more record_completed ok_status iouring_cc.Status.is_unimplemented
    iouring_cc.Status.is_resource_exhausted iouring_cc.Status.unimplemented_error flush finish_round
    process_completions_ring
round_ends = refl

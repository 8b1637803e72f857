-- ===== src/System/Tests.antt =====
-- One call on a small ring: the call, the drain and the end of the round.
use iouring_cc.Common.{◌+◌, ℕ, Bool, ◌≡◌, ◌≢◌, refl, true, false, [], ◌∷◌, none, some}
use mathlib.Core.List.{Sublist}
use iouring_cc.Common.Int.{◌+ℤ◌, pos}
use iouring_cc.Common.Outcome.{done, undefined}
use iouring_cc.Sqe.Entry.{prep, Sqe}
use iouring_cc.Sqe.Dispatch.{Context}
use iouring_cc.Submit.{
  Ring, Uring, get_sqe, get_sqe_loop, submit_to_kernel, submit_to_kernel_ring, process_batch,
  do_process_completions_ring, process_completions_ring, submit_retry, submitted,
}
use iouring_cc.Api.{Caller, Client, new_completion, submit_new, submit_io_request}
use iouring_cc.Api.Calls.{Call, call}
use iouring_cc.Request.MakeFile.{make_noop}
use iouring_cc.Status.{ok_status, is_ok}
use iouring_cc.Completion.{Kind, Answer, settle, complete, complete_with, more}
use iouring_cc.Sink.{new_sink, enqueue, drain, drain_loop}
use iouring_cc.Submit.Thread.{consume, flush, finish_round}
use iouring_cc.Engine.{
  Engine, find_handler, handle_cqe, handle_cqes, handle_with, answer_with, record_completed,
}
use iouring_cc.System.Alive.{Covers}
use iouring_cc.System.Batch.{Apart}
use iouring_cc.System.Safe.{queued, distinct}
use iouring_cc.Engine.Once.{answers_of}
use iouring_cc.System.Answers.{unanswered}
use iouring_cc.System.Conserved.{calls_at, calls_are_answers}
use iouring_cc.System.Order.{called_of, requests_in_order}
use iouring_cc.Completion.Future.{new_future, get}
use iouring_cc.System.Futures.{destroyed_future-get}
use iouring_cc.System.Steps.{Program, Step, Reaches}
use iouring_cc.System.Runs.{AllSupported, never_undefined, reached_alive}
use iouring_cc.System.SmallRing.{
  Small, small_ring, small_log, small_contract, holds, some_vars, some_caller, start,
  supported-noop,
}

abbrev never : ℕ → Bool
never n = false

abbrev with_engine : Engine → Program Small → Program Small
with_engine e p = record p {
  client = record p.client { uring = record p.client.uring { engine = e } };
}

-- The completion of the call is alive, and its request is queued.
abbrev called : Program Small
called = record start {
  client = record start.client {
    uring = record start.client.uring {
      engine = record start.client.uring.engine {
        handlers = (100, new_completion Kind.plain (pos 0) some_caller) ∷ [];
      };
    };
    sink = record { pending = (make_noop some_vars, 100) ∷ []; stopped = false };
  };
}

-- The request stands in the ring.
abbrev drained : Program Small
drained = record called {
  client = record called.client {
    uring = record called.client.uring { ring = (some 100, 100 ∷ []) };
    sink = record { pending = []; stopped = false };
  };
  drained = some (pos 1);
}

-- The completion has had its answer, and is gone.
abbrev answered : Program Small
answered = record start {
  client = record start.client {
    uring = record start.client.uring {
      ring = (none, 100 ∷ []);
      engine = record {
        handlers = [];
        pools = [];
        pending = pos 0;
        told = (100, pos 0) ∷ [];
        answers = (100, Answer.result (pos 0)) ∷ [];
      };
    };
  };
}

reaches_called : Reaches small_ring start (done called)
unfolding find_handler call iouring_cc.Api.Misc.noop submit_new submit_io_request enqueue
reaches_called = Reaches.next Reaches.here (Step.calls 5 0 some_caller Call.noop refl)

reaches_drained : Reaches small_ring start (done drained)
unfolding drain drain_loop iouring_cc.Sink.is_empty consume submit_to_kernel_ring
    iouring_cc.Submit.prepare_sqe iouring_cc.Submit.prepare_entry get_sqe get_sqe_loop
    iouring_cc.Sqe.Dispatch.dispatch make_noop iouring_cc.Sqe.Misc.noop iouring_cc.Sqe.Entry.prep
    iouring_cc.Sqe.Entry.finish new_completion iouring_cc.Sqe.Entry.set_data
    iouring_cc.Sqe.Entry.set_flags ok_status iouring_cc.Status.is_unimplemented
    iouring_cc.Status.is_resource_exhausted
reaches_drained =
    Reaches.next reaches_called
      (Step.drains 5 0 never (pos 1) (done drained.client.uring) drained.client.sink refl refl refl)

reaches_answered : Reaches small_ring start (done answered)
unfolding finish_round flush submit_to_kernel submit_retry submitted process_completions_ring
    do_process_completions_ring process_batch handle_cqes handle_cqe find_handler handle_with
    answer_with complete_with complete settle more record_completed new_completion ◌+ℤ◌
reaches_answered = Reaches.next reaches_drained (Step.finishes 5 0 (pos 1) refl)

drained_supported : AllSupported small_ring reaches_drained
unfolding reaches_drained reaches_called
drained_supported = ((refl, supported-noop), refl)

all_supported : AllSupported small_ring reaches_answered
unfolding reaches_answered
all_supported = (drained_supported, refl)

never_undefined_example : done answered ≢ undefined
never_undefined_example =
    never_undefined small_ring small_contract start refl refl (λ a. refl) refl (done answered)
      reaches_answered all_supported

reached_alive_example :
    Covers (holds (some 100)) drained.client.uring.engine
    × Covers (queued []) drained.client.uring.engine
    × Apart (holds (some 100)) (queued [])
    × (distinct [] ≡ true)
reached_alive_example =
    reached_alive small_ring small_contract start refl refl (λ a. refl) refl drained reaches_drained
      drained_supported

calls_are_answers_example :
    answers_of 100 answered.client.uring.engine.answers
      + unanswered 100 answered.client.uring.engine
    ≡ answers_of 100 start.client.uring.engine.answers
      + unanswered 100 start.client.uring.engine
      + calls_at small_ring 100 reaches_answered
calls_are_answers_example = calls_are_answers small_ring 100 start answered reaches_answered refl

requests_in_order_example : Sublist (100 ∷ []) (called_of small_ring small_log reaches_answered)
requests_in_order_example =
    requests_in_order small_ring small_log start answered reaches_answered refl

one_call : calls_at small_ring 100 reaches_answered ≡ 1
unfolding reaches_answered reaches_drained reaches_called
one_call = refl

start_empty :
    answers_of 100 start.client.uring.engine.answers + unanswered 100 start.client.uring.engine ≡ 0
unfolding find_handler
start_empty = refl

gone : find_handler 100 answered.client.uring.engine.handlers ≡ none
unfolding find_handler
gone = refl

destroyed_future-get_example :
    (x : Answer) × (get answered.client.uring.engine.answers (new_future 100)
      ≡ done (x, record { promise = none; cancel_token = 100 }))
destroyed_future-get_example =
    destroyed_future-get small_ring 100 start answered reaches_answered refl start_empty one_call
      gone

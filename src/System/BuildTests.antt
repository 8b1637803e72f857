-- ===== src/System/BuildTests.antt =====
-- An object that the constructor has built on the small ring, and a call.
use iouring_cc.Common.{◌≡◌, ◌≢◌, refl, arith, true, false, [], ◌∷◌, none, some}
use iouring_cc.Common.Int.{pos}
use iouring_cc.Common.Outcome.{done, undefined}
use iouring_cc.Files.Table.{new_table}
use iouring_cc.Sqe.Entry.{prep}
use iouring_cc.Submit.{get_sqe, get_sqe_loop}
use iouring_cc.Api.{Caller, Client, new_completion, submit_new, submit_io_request}
use iouring_cc.Api.Calls.{Call, call}
use iouring_cc.Request.MakeFile.{make_noop}
use iouring_cc.Status.{ok_status, is_ok}
use iouring_cc.Completion.{Kind}
use iouring_cc.Sink.{new_sink, enqueue}
use iouring_cc.Engine.{find_handler}
use iouring_cc.Setup.Params.{Params, new_params}
use iouring_cc.Setup.Groups.{Waits, prepare_provided_buffer_first, submit_provided_buffer_first}
use iouring_cc.Setup.Construct.{
  Host, construct, set_up, probe_all, probe_from, mark, register_slots, features_supported,
  ops_supported, prepare_memory, prepare_sizes, register_event_fd, register_iovecs,
}
use iouring_cc.Buffer.{returned}
use iouring_cc.Pools.{new_pool, find_pool}
use iouring_cc.System.Constructed.{begin, constructed_never_undefined}
use iouring_cc.System.Idle.{MemoryFits}
use iouring_cc.System.Steps.{Program, Step, Reaches}
use iouring_cc.System.Runs.{AllSupported}
use iouring_cc.System.SmallRing.{
  Small, small_ring, small_contract, some_vars, some_caller, start, supported-noop,
}

-- A system on which everything is supported, and which takes the buffers that it is given.
abbrev willing_host : Host Small
willing_host = record {
  queue_init = λ entries flags wq_fd r. (pos 0, r);
  get_probe = λ r. some ((0, true) ∷ []);
  opcode_supported = λ probe op. true;
  register_files = λ fds r. (pos 0, r);
  features = λ r. 0;
  eventfd = λ r. (pos 5, r);
  register_eventfd = λ fd r. (pos 0, r);
  unregister_eventfd = λ r. (pos 0, r);
  register_buffers = λ iovecs n r. (pos 0, r);
}

abbrev some_waits : Waits Small
some_waits = record {
  wait_cqe = λ r. (some (pos 0), (none, r.1));
  format_gid = λ m g. m;
  format_none = λ m. m;
}

abbrev some_params : Params
some_params = record new_params { provided_buffers = (pos 1, (16, 2)) ∷ [] }

abbrev built : Client Small
built = record start.client {
  uring = record start.client.uring {
    ring = (none, 0 ∷ []);
    files = new_table 0;
    engine = record start.client.uring.engine { pools = (pos 1, new_pool 16 2 4096) ∷ [] };
    max_drain = 10;
  };
  event_fd = pos 5;
}

construct_built :
    construct small_ring some_waits willing_host 5 1 (λ g. 4096) 0 some_params (none, [])
    ≡ done (returned built)
unfolding construct set_up probe_all probe_from mark register_slots features_supported ops_supported
    iouring_cc.Setup.Construct.all_supported prepare_memory prepare_sizes
    prepare_provided_buffer_first submit_provided_buffer_first get_sqe get_sqe_loop find_pool is_ok
    ok_status register_event_fd register_iovecs new_params new_pool new_sink new_table prep
    iouring_cc.Files.Table.capacity
construct_built = refl

abbrev built_called : Program Small
built_called = record (begin built) {
  client = record built {
    uring = record built.uring {
      engine = record built.uring.engine {
        handlers = (100, new_completion Kind.plain (pos 0) some_caller) ∷ [];
      };
    };
    sink = record { pending = (make_noop some_vars, 100) ∷ []; stopped = false };
  };
}

reaches_built_called : Reaches small_ring (begin built) (done built_called)
unfolding find_handler call iouring_cc.Api.Misc.noop submit_new submit_io_request enqueue
reaches_built_called = Reaches.next Reaches.here (Step.calls 5 0 some_caller Call.noop refl)

built_supported : AllSupported small_ring reaches_built_called
unfolding reaches_built_called
built_supported = (refl, supported-noop)

asks_for_thread : some_params.start_sub_consume_thread ≡ true
unfolding new_params
asks_for_thread = refl

no_memory : MemoryFits some_params.pre_allocate_provided_buffers
unfolding new_params
no_memory = refl

constructed_never_undefined_example : done built_called ≢ undefined
constructed_never_undefined_example =
    constructed_never_undefined small_ring some_waits 5 willing_host small_contract 1 (λ g. 4096) 0
      some_params (none, []) built construct_built (omega arith, refl) no_memory asks_for_thread
      (λ a. refl) (done built_called) reaches_built_called built_supported

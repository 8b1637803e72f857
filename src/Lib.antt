-- ===== src/Lib.antt =====
-- iouring_cc, a C++ library over liburing: the tables of registered files, the requests, the
-- entries of the submission queue that they become, the queue between the two, the thread that
-- submits the entries and hands their results to the completions, the calls that a program makes,
-- and a buffer.
--
-- The program's parts and how they interact. A call of iouring/io_uring_api.h allocates a
-- completion, builds a request with one of the `make_` functions of `IoRequest`
-- (iouring/io_request.h), and hands both to `SubmitIoRequest` (iouring/io_uring.h), which puts them
-- into the `IoSink` (iouring/io_sink.h), or submits at once when there is no thread. The thread of
-- `IoUring` (iouring/io_uring.cc) drains the sink, and for each request `PrepareSqe` takes an entry
-- of the ring and fills it in: its switch calls the handler of the request's operation, which reads
-- the operands out of the request's union and calls an `io_uring_prep_` function of liburing. Reads
-- and writes look their descriptor up in the table of registered files, an
-- `IoUringFileFdContainer`, which the calls of `RegisterFile` and `UnregisterFile` change. Buffers
-- that the kernel chooses from come in `BufferPool`s (iouring/buffer_pool.h), found by their group.
--
-- Which file models which part:
--   Common     names of the library that the others share, Boolean tests, lists and integers over
--              the native natural numbers, and `Outcome`: a value, an assertion that has failed
--              (`aborted`), undefined behaviour, or a loop that is out of fuel (`running`).
--              Assertions are those of a debug build. Safely: what holds of the value of an
--              `Outcome`, if it has one.
--   Status     iouring/status.h, `StatusCode` and `Status`.
--   Files      Table: `IoUringFileFdContainer` of iouring/io_uring.h. The `std::map` is a list of
--              pairs with one entry for each key. Register: `RegisterFile`, `RegisterFiles`,
--              `RegisterFilesExternal`, `UnregisterFile` and `UnregisterFiles` of
--              iouring/io_uring.cc. The kernel is any state with any answers (`Kernel`), so a
--              theorem holds whatever it answers. Entries, Slots, Invariant, Update: the invariant
--              of the table. Single, Release, Batch, Atomic, History: the calls, one by one, in
--              one batch, and in any sequence. Faults: where the calls depart from what is
--              expected.
--   Request    iouring/io_request.h: Operation, the operands (FileOps, NetOps, MiscOps), the flags,
--              the request with its union (Payload), the accessors `As` (Members), and the `make_`
--              functions (MakeFile, MakeNet, MakeMisc). The union is a sum type: reading a member
--              that is not active is `undefined`. Pointers are numbers.
--   Time       the conversions to `__kernel_timespec` of iouring/io_uring_utils.h.
--   Pools      `BufferPool`, and the map of the pools by group. A pointer that `Get` computes beyond
--              the memory of the pool is `undefined`. Bounds and Sound: pools whose buffers lie
--              within their memory.
--   Sqe        iouring/io_uring.cc: Entry, the entry with the calls of liburing that were made on
--              it; File, Net and Misc, the handlers; Dispatch, the switch of `PrepareSqe`.
--              Carries, Made, Fills, Once and Slots: what the entries hold. Sound: the pools after it. Faults: what becomes
--              of requests that are not served as they are named.
--   Sink       `IoSink`. What consumes the requests is a function with a state, and the readings of
--              the flag that `Stop` writes without the lock are an arbitrary sequence.
--   Completion iouring/io_completion.h: `CompleteWith` and the five classes. The value of a
--              promise is an `Answer`, handed over once; `set_value` on a promise that has its
--              value is `aborted`. Future: `IoFuture`.
--   Engine     `HandleCqe` of iouring/io_uring.cc and the loop over a batch. The completions that
--              are alive are a list by address, and naming one that is gone is `undefined`.
--              Counts, Once, Multishot and Deliver: what a batch does to the count of the pending
--              submissions and to the completions that it names.
--   Submit     iouring/io_uring.cc: `GetSqe`, `SubmitToKernel`, `PrepareSqe`, `SubmitToKernelRing`
--              and the processing of the completion ring. liburing's ring is any state with any
--              answers (`Ring`). Thread: one round of `DoProcessIoRequests`, which joins them to
--              the sink. Retry, Batch and Entries: what these calls do.
--   Buffer     iouring/buffer.h. Memory: blocks of bytes, which `new`, `delete`, `memcpy` and
--              `memmove` work on; a bad access is `undefined`. Valid, Move, Calls and Writes: what
--              a buffer holds, and what each call does to it. Refine: sequences of calls as
--              operations on a sequence of bytes. Faults: copies, and a buffer appended to itself.
--   Setup      Params: `IoUringParams` of iouring/io_uring.h. Groups, Construct and Service: the
--              constructor of `IoUring` in iouring/io_uring.cc, what it calls, and the remaining
--              calls. The system is any state with any answers (`Host`, `Waits`). Settings, Maps
--              and Builder: sequences of calls on the parameters. Bits and
--              Power: `round_up_power_of_two` of iouring/io_uring_utils.h. Stats and Counted: `IouringStats`.
--   Api        `SubmitIoRequest` of iouring/io_uring.h, and the calls of iouring/io_uring_api.h,
--              in File, Net and Misc. The address that a completion gets, and what the memory of
--              the fields that no constructor sets holds, are arguments. Calls: the calls as one
--              type. Contracts: what their assertions ask for. Submits: what each call submits.
--              Queue: calls while the thread runs, up to the ring. Direct: calls without the
--              thread, and failures.
--   System     the parts together: the calls of many threads and the rounds of the thread of
--              `IoUring`, in any order, as a step relation (Steps). Contract: what liburing and
--              the kernel promise of the rings. Alive, Batch, Fillable, Safe, Calls and
--              Runs: which completions are alive. Kept, Rings and Thread: what an invariant needs
--              for the thread to keep it. Answers and Conserved: how calls and answers add up.
--              Order: the order of the requests in the ring. Futures: the future of a call. Idle,
--              Started and Constructed: what the constructor leaves, and the runs from there on.
--              SmallRing: a ring for the tests.
--   Utils      Deferred and Once: iouring/defer.h. Retry: `syscall_retry` and `panic_on_err` of
--              iouring/io_uring_utils.h.
--
-- Bounds. Sizes of 32 bits, microseconds and milliseconds of 64 bits, the 8 bits of an entry's
-- flags and the 16 bits of its buffer group wrap, and the wrap-around is written out. Descriptors
-- and slots are integers without a bound: nothing is computed with them but comparisons. The only
-- loops with fuel are those of `SubmitToKernel` and `syscall_retry`, which go on while the kernel
-- interrupts them: fuel for more calls than are interrupted in a row is enough. `GetSqe` tries ten
-- times, and every other loop walks a list that gets shorter or counts to a bound. The sizes of a
-- `Buffer` have 64 bits, and what `append` adds to them wraps. Allocations do not fail.
--
-- Steps. `Drain` holds the mutex of the sink for its whole loop, so that no call comes in the
-- middle of it; between it and the rest of a round there may be any number of calls. A call's own
-- completion and its request are its own until the request is queued, so a call is one step. What a
-- callback calls is not a step inside of a round: a callback that makes a call from within `Drain`
-- locks the mutex a second time.
--
-- Calls. The runs of System are of any calls but four: the removal and the update of a timeout,
-- which the switch of `PrepareSqe` does not know, so that the kernel is given an entry with stale
-- contents; `Socket`, whose handler reads a member of the union that is not active; and
-- `ProvideBuffer` of length 0, which reads through an end iterator where the group has no pool.
--
-- Not modelled: what the kernel reads through the addresses of local timespecs (`LocalPointer`) that
-- the handlers of timeouts hand to liburing, after these handlers have returned; `PollUpdate` of
-- iouring/io_uring_api.h, whose body does not compile; and the thread pool, a copy of a library. The
-- tests, the examples, the profiling glue and the build files are no part of the program's logic.
pub mod Common
pub mod Status
pub mod Files
pub mod Request
pub mod Time
pub mod Pools
pub mod Sqe
pub mod Sink
pub mod Completion
pub mod Engine
pub mod Submit
pub mod Buffer
pub mod Api
pub mod Setup
pub mod System
pub mod Utils

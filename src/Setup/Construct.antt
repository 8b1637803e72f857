-- ===== src/Setup/Construct.antt =====
-- The constructor of `IoUring` in iouring/io_uring.cc, and what it calls of the class. `thrown` is
-- the exception of `panic`.
use iouring_cc.Common.{
  ℕ, zero, suc, ◌-◌, ◌^◌, ◌==◌, ◌&&◌, Bool, true, false, not, List, [], ◌∷◌, replicate, Option,
  none, some, bit_and, if◌then◌else◌,
}
use iouring_cc.Common.Int.{ℤ, pos, negsuc, eqb_ℤ, ltb_ℤ}
use iouring_cc.Common.Outcome.{Outcome, done, aborted, undefined, ◌>>=◌}
use iouring_cc.Status.{is_ok}
use iouring_cc.Request.Operation.{Operation}
use iouring_cc.Files.Table.{Table, new_table, invalid_id, capacity}
use iouring_cc.Pools.{BufferPool}
use iouring_cc.Sink.{new_sink}
use iouring_cc.Submit.{Ring, Uring}
use iouring_cc.Submit.Thread.{Item}
use iouring_cc.Buffer.{Throws, returned, thrown}
use iouring_cc.Api.{Client}
use iouring_cc.Setup.Params.{Params}
use iouring_cc.Setup.Groups.{Waits, prepare_provided_buffer_first}

-- The calls of liburing and of the system that set the ring up. A probe is the array `ops`: the
-- number of each operation, and whether it has the flag IO_URING_OP_SUPPORTED.
pub record Host (R : Type 0) : Type 0 where
  pub queue_init : ℕ → ℕ → ℕ → R → ℤ × R
  pub get_probe : R → Option (List (ℕ × Bool))
  pub opcode_supported : List (ℕ × Bool) → Operation → Bool
  pub register_files : List ℤ → R → ℤ × R
  pub features : R → ℕ
  pub eventfd : R → ℤ × R
  pub register_eventfd : ℤ → R → ℤ × R
  pub unregister_eventfd : R → ℤ × R
  pub register_buffers : ℕ → ℕ → R → ℤ × R

-- `probe_ops_[i] = true`.
unfoldable pub mark : ℕ → List Bool → Outcome (List Bool)
mark i [] = undefined
mark zero (b ∷ bs) = done (true ∷ bs)
mark (suc i) (b ∷ bs) = mark i bs >>= λ cs. done (b ∷ cs)

-- `probe_fn`, from the place `i` of the array on: what is marked is the place, not the operation.
unfoldable pub probe_from : ℕ → ℕ → List (ℕ × Bool) → List Bool → Outcome (List Bool)
probe_from opcode i [] marks = done marks
probe_from opcode i ((op, supported) ∷ ops) marks =
    let rest = probe_from opcode (suc i) ops marks in
    if op == opcode && supported then mark i marks else rest

-- The loop over the operations below `op_last`.
unfoldable pub probe_all : ℕ → ℕ → List (ℕ × Bool) → List Bool → Outcome (List Bool)
probe_all zero i ops marks = done marks
probe_all (suc n) i ops marks = probe_from i 0 ops marks >>= λ cs. probe_all n (suc i) ops cs

-- The test of `FeaturesSupported`; `features` is a `uint32_t`.
unfoldable pub features_supported : ℕ → ℕ → Bool
features_supported features required = bit_and (2 ^ 32 - 1 - features) required == 0

unfoldable pub all_supported : (Operation → Bool) → List Operation → Bool
all_supported f [] = true
all_supported f (op ∷ ops) = if f op then all_supported f ops else false

-- `OpsSupported`, whose probe nothing tests.
unfoldable pub ops_supported : {R : Type 0} → Host R → List Operation → R → Outcome Bool
ops_supported host required_ops r = elim (host.get_probe r) [
  | none ↦ undefined
  | some probe ↦ done (all_supported (host.opcode_supported probe) required_ops)
]

module _ {R : Type 0} (sys : Ring R) (waits : Waits R) (host : Host R) (fuel : ℕ) where
  unfoldable pub register_event_fd : Client R → Outcome (Client R)
  register_event_fd s =
      if not (eqb_ℤ s.event_fd (negsuc 0))
      then aborted
      else let (fd, r) = host.eventfd s.uring.ring in
        let (res, r') = host.register_eventfd fd r in
        if eqb_ℤ res (pos 0) && ltb_ℤ (pos 0) fd
        then done (record s { uring = record s.uring { ring = r' }; event_fd = fd })
        else aborted

  -- A group whose buffers the caller, or the pool at the address that is given, has allocated.
  abbrev pub prepare : ℤ → ℕ → ℕ → ℕ → Uring R → Outcome (Uring R)
  prepare gid bufs size count u =
      prepare_provided_buffer_first sys waits fuel gid bufs size count u >>= λ o.
      if is_ok o.0 then done o.1 else aborted

  unfoldable pub prepare_memory : List (ℤ × BufferPool) → Uring R → Outcome (Uring R)
  prepare_memory [] u = done u
  prepare_memory ((gid, p) ∷ rest) u =
      prepare gid p.base p.buffer_size p.buffer_count u >>= λ v. prepare_memory rest v

  -- `allocated` is where the pool of a group allocates its memory.
  unfoldable pub prepare_sizes : (ℤ → ℕ) → List (ℤ × (ℕ × ℕ)) → Uring R → Outcome (Uring R)
  prepare_sizes allocated [] u = done u
  prepare_sizes allocated ((gid, (size, count)) ∷ rest) u =
      prepare gid (allocated gid) size count u >>= λ v. prepare_sizes allocated rest v

  -- `io_uring_register_files` of a table without files.
  unfoldable pub register_slots : Table → R → Outcome R
  register_slots t r =
      if capacity t == 0
      then done r
      else let (ret, r') = host.register_files (replicate (capacity t) invalid_id) r in
        if eqb_ℤ ret (pos 0) then done r' else aborted

  -- `RegisterBuffers` and its `panic_on_err`; ETIME is let through.
  unfoldable pub register_iovecs : ℕ × ℕ → Client R → Throws (Client R)
  register_iovecs (iovecs, nr_iovecs) s =
      if iovecs == 0
      then returned s
      else let (ret, r) = host.register_buffers iovecs nr_iovecs s.uring.ring in
        if ltb_ℤ ret (pos 0) && not (eqb_ℤ ret (negsuc 61))
        then thrown
        else returned (record s { uring = record s.uring { ring = r } })

  -- The members that the constructor's initializers set.
  abbrev pub initial : Params → R → Client R
  initial p r = record {
    uring = record {
      ring = r;
      files = new_table p.max_fd_slots;
      engine = record { handlers = []; pools = []; pending = pos 0; told = []; answers = [] };
      linked_sqe = false;
      stop_consumption = false;
      max_drain = p.max_cqe_to_drain;
    };
    sink = new_sink Item;
    threaded = p.start_sub_consume_thread;
    event_fd = negsuc 0;
    headers = [];
    failed = [];
  }

  -- The constructor once there is a ring and its probe.
  unfoldable pub set_up : ℕ → (ℤ → ℕ) → Params → List (ℕ × Bool) → R → Outcome (Throws (Client R))
  set_up op_last allocated p probe r =
      probe_all op_last 0 probe (replicate op_last false) >>= λ marks.
      register_slots (new_table p.max_fd_slots) r >>= λ r'.
      (if features_supported (host.features r') p.features_needed
        then ops_supported host p.required_ops r'
        else aborted)
      >>= λ known.
          (if known
            then prepare_memory p.pre_allocate_provided_buffers (initial p r').uring
            else aborted)
          >>= λ u. prepare_sizes allocated p.provided_buffers u >>= λ v.
              (if p.register_event_fd
                then register_event_fd (record (initial p r') { uring = v })
                else done (record (initial p r') { uring = v }))
              >>= λ s. done (register_iovecs p.registered_buffers s)

  -- `op_last` is `IORING_OP_LAST`; the marks of the probe are read by nothing. The thread that
  -- `start_sub_consume_thread_` asks for starts after this.
  unfoldable pub construct : ℕ → (ℤ → ℕ) → ℕ → Params → R → Outcome (Throws (Client R))
  construct op_last allocated wq_fd p r0 =
      let (ret, r) = host.queue_init p.cq_entries p.flag wq_fd r0 in
      if ltb_ℤ ret (pos 0) then aborted else elim (host.get_probe r) [
        | none ↦ aborted
        | some probe ↦ set_up op_last allocated p probe r
      ]

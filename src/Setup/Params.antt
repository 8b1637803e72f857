-- ===== src/Setup/Params.antt =====
-- `IoUringParams` of iouring/io_uring.h, and `round_up_power_of_two` of iouring/io_uring_utils.h.
-- A `std::map` by group is a list of pairs in the order of the groups, with one entry for each.
use iouring_cc.Common.{
  ℕ, ◌+◌, ◌-◌, ◌/◌, ◌%◌, ◌^◌, ◌==◌, Bool, true, false, ltb, List, [], ◌∷◌, ◌++◌, bit_or,
  if◌then◌else◌,
}
use iouring_cc.Common.Int.{ℤ, pos, negsuc, eqb_ℤ, ltb_ℤ}
use iouring_cc.Common.Outcome.{Outcome, done, aborted}
use iouring_cc.Request.Operation.{Operation}
use iouring_cc.Pools.{BufferPool, new_pool}
use iouring_cc.Completion.{invalid_gid}
use iouring_cc.Time.{Timespec, usec_to_timespec}

unfoldable pub round_up_power_of_two : ℕ → ℕ
round_up_power_of_two num =
    if num == 0
    then 0
    else let n0 = num - 1 in
      let n1 = bit_or n0 (n0 / 2 ^ 1) in
      let n2 = bit_or n1 (n1 / 2 ^ 2) in
      let n3 = bit_or n2 (n2 / 2 ^ 4) in
      let n4 = bit_or n3 (n3 / 2 ^ 8) in let n5 = bit_or n4 (n4 / 2 ^ 16) in (n5 + 1) % 2 ^ 32

-- `IORING_SETUP_IOPOLL`, `IORING_SETUP_SQPOLL`, `IORING_SETUP_CQSIZE` and `IORING_SETUP_ATTACH_WQ`.
abbrev pub setup_iopoll : ℕ
setup_iopoll = 1

abbrev pub setup_sqpoll : ℕ
setup_sqpoll = 2

abbrev pub setup_cqsize : ℕ
setup_cqsize = 8

abbrev pub setup_attach_wq : ℕ
setup_attach_wq = 32

-- `IORING_FEAT_FAST_POLL`.
abbrev pub feat_fast_poll : ℕ
feat_fast_poll = 32

-- `registered_buffers` is the address of the `iovec`s, and their number.
pub record Params : Type 0 where
  pub flag : ℕ
  pub cqe_wait_timeout : Timespec
  pub max_fd_slots : ℕ
  pub cq_entries : ℕ
  pub wq_attach_fd : ℤ
  pub start_sub_consume_thread : Bool
  pub register_event_fd : Bool
  pub max_cqe_to_drain : ℕ
  pub features_needed : ℕ
  pub required_ops : List Operation
  pub provided_buffers : List (ℤ × (ℕ × ℕ))
  pub pre_allocate_provided_buffers : List (ℤ × BufferPool)
  pub registered_buffers : ℕ × ℕ

unfoldable pub new_params : Params
unfolding usec_to_timespec
new_params = record {
  flag = 0;
  cqe_wait_timeout = usec_to_timespec 0;
  max_fd_slots = 0;
  cq_entries = 64;
  wq_attach_fd = negsuc 0;
  start_sub_consume_thread = true;
  register_event_fd = true;
  max_cqe_to_drain = 10;
  features_needed = 0;
  required_ops =
      Operation.poll_add ∷ Operation.poll_remove ∷ Operation.readv ∷ Operation.writev
      ∷ Operation.fsync ∷ Operation.sendmsg ∷ Operation.recvmsg ∷ Operation.accept
      ∷ Operation.connect ∷ Operation.read ∷ Operation.write ∷ Operation.send ∷ Operation.recv
      ∷ Operation.epoll_ctl ∷ [];
  provided_buffers = [];
  pre_allocate_provided_buffers = [];
  registered_buffers = (0, 0);
}

unfoldable pub set_io_poll : Params → Params
set_io_poll p = record p { flag = bit_or p.flag setup_iopoll }

unfoldable pub set_sq_poll : Params → Params
set_sq_poll p = record p { flag = bit_or p.flag setup_sqpoll }

unfoldable pub set_flag : ℕ → Params → Params
set_flag flag p = record p { flag = flag }

unfoldable pub set_cqe_wait_timeout : ℕ → Params → Params
set_cqe_wait_timeout cq_wait_timeout_us p = record p {
  cqe_wait_timeout = usec_to_timespec cq_wait_timeout_us;
}

unfoldable pub set_max_fd_slots : ℕ → Params → Params
set_max_fd_slots max_fd_slots p = record p { max_fd_slots = max_fd_slots }

unfoldable pub set_cqe_entries : ℕ → Params → Params
set_cqe_entries entries p =
    let rounded = round_up_power_of_two entries in
    record p {
      cq_entries = rounded;
      flag = if ltb 0 rounded then bit_or p.flag setup_cqsize else p.flag;
    }

unfoldable pub set_attach_wq_fd : ℤ → Params → Params
set_attach_wq_fd fd p =
    if ltb_ℤ fd (pos 0)
    then p
    else record p { wq_attach_fd = fd; flag = bit_or p.flag setup_attach_wq }

unfoldable pub enable_sub_consume_thread : Params → Params
enable_sub_consume_thread p = record p { start_sub_consume_thread = true }

unfoldable pub disable_sub_consume_thread : Params → Params
disable_sub_consume_thread p = record p { start_sub_consume_thread = false }

unfoldable pub set_register_event_fd : Bool → Params → Params
set_register_event_fd value p = record p { register_event_fd = value }

unfoldable pub set_max_cqe_drain : ℕ → Params → Params
set_max_cqe_drain max_cqe p = record p { max_cqe_to_drain = max_cqe }

unfoldable pub should_support_feat_fast_poll : Params → Params
should_support_feat_fast_poll p = record p {
  features_needed = bit_or p.features_needed feat_fast_poll;
}

unfoldable pub should_support_op_provide_buffers : Params → Params
should_support_op_provide_buffers p = record p {
  required_ops = p.required_ops ++ (Operation.provide_buffers ∷ []);
}

-- `find` of a map is not its end.
unfoldable pub has_group : {V : Type 0} → ℤ → List (ℤ × V) → Bool
has_group gid [] = false
has_group gid ((g, v) ∷ rest) = if eqb_ℤ g gid then true else has_group gid rest

unfoldable pub erase_group : {V : Type 0} → ℤ → List (ℤ × V) → List (ℤ × V)
erase_group gid [] = []
erase_group gid ((g, v) ∷ rest) = if eqb_ℤ g gid then rest else (g, v) ∷ erase_group gid rest

-- `emplace` of a group that the map has not.
unfoldable pub emplace_group : {V : Type 0} → ℤ → V → List (ℤ × V) → List (ℤ × V)
emplace_group gid x [] = (gid, x) ∷ []
emplace_group gid x ((g, v) ∷ rest) =
    if ltb_ℤ gid g then (gid, x) ∷ (g, v) ∷ rest else (g, v) ∷ emplace_group gid x rest

-- `AddProvidedBuffer(gid, buffer_size, buffer_count)`.
unfoldable pub add_provided_buffer : ℤ → ℕ → ℕ → Params → Outcome Params
add_provided_buffer gid buffer_size buffer_count p =
    if eqb_ℤ gid invalid_gid
    then aborted
    else done (record p {
      provided_buffers =
          emplace_group gid (buffer_size, buffer_count)
            (if has_group gid p.provided_buffers
              then erase_group gid p.provided_buffers
              else p.provided_buffers);
    })

-- `AddProvidedBuffer(gid, buffer_size, buffer_count, bufs)`.
unfoldable pub add_provided_memory : ℤ → ℕ → ℕ → ℕ → Params → Outcome Params
add_provided_memory gid buffer_size buffer_count bufs p =
    if eqb_ℤ gid invalid_gid
    then aborted
    else if has_group gid p.pre_allocate_provided_buffers
    then aborted
    else done (record p {
      pre_allocate_provided_buffers =
          emplace_group gid (new_pool buffer_size buffer_count bufs)
            p.pre_allocate_provided_buffers;
    })

unfoldable pub register_buffers : ℕ → ℕ → Params → Outcome Params
register_buffers iovecs nr_iovecs p =
    if iovecs == 0
    then aborted
    else if nr_iovecs == 0
    then aborted
    else done (record p { registered_buffers = (iovecs, nr_iovecs) })

-- ===== src/Completion.antt =====
-- iouring/io_completion.h: `IoCompletion` and its five final classes. The promise's value is what a
-- caller's future gets; it is handed over as an `Answer`. `set_value` on a promise that has a value
-- throws out of a `noexcept` function, which ends the process. Callbacks are the caller's code: what
-- is recorded is the result that they are called with.
pub mod Entry
pub mod Future
use iouring_cc.Common.{
  ℕ, ◌/◌, ◌%◌, ◌^◌, Bool, true, false, not, ◌&&◌, ◌==◌, Option, none, some, if◌then◌else◌,
}
use iouring_cc.Common.Int.{ℤ, pos, negsuc, pos_part, neg_part, eqb_ℤ, ltb_ℤ}
use iouring_cc.Common.Outcome.{Outcome, done, aborted, undefined, ◌>>=◌}
use iouring_cc.Request.Flags.{cqe_buffer, cqe_more}
use iouring_cc.Completion.Entry.{Cqe, flag_set, buffer_id}

-- `DefaultCompletion`, `RecvSendMsgCompletion`, `StatxCompletion` with its two pointers,
-- `RwProvidedBufferCompletion` and `SocketCompletion`.
pub data Kind : Type 0 where
  plain recv_send_msg rw_provided_buffer socket : Kind
  statx : ℕ → ℕ → Kind

-- The value of the promise. `info` is a `BufferInfo`: the buffer, its size, its group and its
-- identifier.
pub data Answer : Type 0 where
  result : ℤ → Answer
  statx_result : ℤ → ℕ → ℕ → Answer
  info : Option ℕ → ℤ → ℤ → ℕ → Answer

-- `answered` says whether the promise has its value. `info_bid` is `buffer_info_.buf_bid_`, which
-- nothing sets before the first completion entry with a buffer.
pub record Completion : Type 0 where
  pub kind : Kind
  pub has_callback : Bool
  pub cqe_res : ℤ
  pub cqe_flags : ℕ
  pub buf_gid : ℤ
  pub buf_bid : ℕ
  pub info_bid : ℕ
  pub answered : Bool

-- `IOURING_INVALID_BUFF_GID`.
abbrev pub invalid_gid : ℤ
invalid_gid = pos 0

-- `IoCompletion::More`.
unfoldable pub more : Completion → Bool
more m = flag_set m.cqe_flags cqe_more

-- What `Complete` does: the result that a callback is called with, the value of the promise, and
-- the object, unless it has deleted itself.
pub record Completed : Type 0 where
  pub told : Option ℤ
  pub answer : Answer
  pub left : Option Completion

-- The end of each `Complete`: the callback, the promise, and the deletion.
unfoldable pub settle : Cqe → Answer → Completion → Outcome Completed
unfolding more
settle cqe a m =
    if m.answered
    then aborted
    else done (record {
      told = if m.has_callback then some cqe.res else none;
      answer = a;
      left = if more m then some (record m { answered = true }) else none;
    })

-- `buffer_info_.buf_bid_` after the first test of `RwProvidedBufferCompletion::Complete`.
abbrev pub with_info_bid : Cqe → Completion → Completion
with_info_bid cqe m =
    if flag_set cqe.flags cqe_buffer then record m { info_bid = buffer_id cqe } else m

unfoldable pub is_none : Option ℕ → Bool
is_none none = true
is_none (some b) = false

-- `RwProvidedBufferCompletion::Complete`; 105 is ENOBUFS.
unfoldable pub complete_provided : Cqe → Option ℕ → Completion → Outcome Completed
unfolding settle is_none
complete_provided cqe buffer m =
    if flag_set cqe.flags cqe_buffer && (is_none buffer && ltb_ℤ (pos 0) cqe.res)
    then aborted
    else if eqb_ℤ cqe.res (negsuc 104)
    then aborted
    else settle cqe (info buffer cqe.res m.buf_gid (with_info_bid cqe m).info_bid)
        (with_info_bid cqe m)

-- `DefaultCompletion::Complete`, `RecvSendMsgCompletion::Complete`, `SocketCompletion::Complete` and
-- `StatxCompletion::Complete`.
abbrev pub complete_default : Cqe → Completion → Outcome Completed
complete_default cqe m = settle cqe (result cqe.res) m

abbrev pub complete_recv_send_msg : Cqe → Completion → Outcome Completed
complete_recv_send_msg cqe m = settle cqe (result cqe.res) m

abbrev pub complete_socket : Cqe → Completion → Outcome Completed
complete_socket cqe m = settle cqe (result cqe.res) m

abbrev pub complete_statx : ℕ → ℕ → Cqe → Completion → Outcome Completed
complete_statx path buf cqe m = settle cqe (statx_result cqe.res path buf) m

-- The virtual `Complete`.
unfoldable pub complete : Kind → Cqe → Option ℕ → Completion → Outcome Completed
unfolding settle complete_provided
complete plain cqe buffer m = complete_default cqe m
complete recv_send_msg cqe buffer m = complete_recv_send_msg cqe m
complete rw_provided_buffer cqe buffer m = complete_provided cqe buffer m
complete socket cqe buffer m = complete_socket cqe m
complete (statx path buf) cqe buffer m = complete_statx path buf cqe m

-- `Bid`, which `RwProvidedBufferCompletion` overrides.
unfoldable pub bid : Completion → ℕ
bid m = elim m.kind [
  | plain ↦ m.buf_bid
  | recv_send_msg ↦ m.buf_bid
  | rw_provided_buffer ↦ m.info_bid
  | socket ↦ m.buf_bid
  | statx path buf ↦ m.buf_bid
]

-- What `CompleteWith` stores before it calls `Complete`.
abbrev pub noted : Cqe → Completion → Completion
noted cqe m = record m {
  cqe_res = cqe.res;
  cqe_flags = cqe.flags;
  buf_bid =
      if not (eqb_ℤ m.buf_gid invalid_gid) && flag_set cqe.flags cqe_buffer
      then buffer_id cqe
      else m.buf_bid;
}

unfoldable pub complete_with : Cqe → Option ℕ → Completion → Outcome Completed
unfolding complete
complete_with cqe buffer m = complete m.kind cqe buffer (noted cqe m)

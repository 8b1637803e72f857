-- ===== src/Setup/Settings.antt =====
-- The calls of `IoUringParams` of iouring/io_uring.h as one type.
use iouring_cc.Common.{ℕ, ◌==◌, ◌&&◌, ◌||◌, Bool, true, false, not, List, [], ◌∷◌}
use iouring_cc.Common.Int.{ℤ, eqb_ℤ}
use iouring_cc.Common.Outcome.{Outcome, done, ◌>>=◌}
use iouring_cc.Completion.{invalid_gid}
use iouring_cc.Setup.Params.{
  Params, set_io_poll, set_sq_poll, set_flag, set_cqe_wait_timeout, set_max_fd_slots,
  set_cqe_entries, set_attach_wq_fd, enable_sub_consume_thread, disable_sub_consume_thread,
  set_register_event_fd, set_max_cqe_drain, should_support_feat_fast_poll,
  should_support_op_provide_buffers, add_provided_buffer, add_provided_memory, register_buffers,
}

-- A call of `IoUringParams`.
pub data Setting : Type 0 where
  io_poll sq_poll enable_thread disable_thread fast_poll provide_op : Setting
  flags wait_timeout fd_slots entries drain : ℕ → Setting
  wq_fd : ℤ → Setting
  event_fd : Bool → Setting
  sizes : ℤ → ℕ → ℕ → Setting
  memory : ℤ → ℕ → ℕ → ℕ → Setting
  vectors : ℕ → ℕ → Setting

unfoldable pub apply : Setting → Params → Outcome Params
apply io_poll p = done (set_io_poll p)
apply sq_poll p = done (set_sq_poll p)
apply enable_thread p = done (enable_sub_consume_thread p)
apply disable_thread p = done (disable_sub_consume_thread p)
apply fast_poll p = done (should_support_feat_fast_poll p)
apply provide_op p = done (should_support_op_provide_buffers p)
apply (flags n) p = done (set_flag n p)
apply (wait_timeout n) p = done (set_cqe_wait_timeout n p)
apply (fd_slots n) p = done (set_max_fd_slots n p)
apply (entries n) p = done (set_cqe_entries n p)
apply (drain n) p = done (set_max_cqe_drain n p)
apply (wq_fd fd) p = done (set_attach_wq_fd fd p)
apply (event_fd b) p = done (set_register_event_fd b p)
apply (sizes gid size count) p = add_provided_buffer gid size count p
apply (memory gid size count bufs) p = add_provided_memory gid size count bufs p
apply (vectors iovecs n) p = register_buffers iovecs n p

unfoldable pub apply_all : List Setting → Params → Outcome Params
apply_all [] p = done p
apply_all (x ∷ xs) p = apply x p >>= λ q. apply_all xs q

-- The groups that have been given memory, after a call.
abbrev pub given : Setting → List ℤ → List ℤ
given io_poll gs = gs
given sq_poll gs = gs
given enable_thread gs = gs
given disable_thread gs = gs
given fast_poll gs = gs
given provide_op gs = gs
given (flags n) gs = gs
given (wait_timeout n) gs = gs
given (fd_slots n) gs = gs
given (entries n) gs = gs
given (drain n) gs = gs
given (wq_fd fd) gs = gs
given (event_fd b) gs = gs
given (sizes gid size count) gs = gs
given (memory gid size count bufs) gs = gid ∷ gs
given (vectors iovecs n) gs = gs

abbrev pub elem : ℤ → List ℤ → Bool
elem g [] = false
elem g (h ∷ hs) = eqb_ℤ h g || elem g hs

-- Groups are not the invalid one, none gets memory twice, and vectors are neither null nor none.
abbrev pub sensible : Setting → List ℤ → Bool
sensible io_poll gs = true
sensible sq_poll gs = true
sensible enable_thread gs = true
sensible disable_thread gs = true
sensible fast_poll gs = true
sensible provide_op gs = true
sensible (flags n) gs = true
sensible (wait_timeout n) gs = true
sensible (fd_slots n) gs = true
sensible (entries n) gs = true
sensible (drain n) gs = true
sensible (wq_fd fd) gs = true
sensible (event_fd b) gs = true
sensible (sizes gid size count) gs = not (eqb_ℤ gid invalid_gid)
sensible (memory gid size count bufs) gs = not (eqb_ℤ gid invalid_gid) && not (elem gid gs)
sensible (vectors iovecs n) gs = not (iovecs == 0) && not (n == 0)

abbrev pub all_sensible : List Setting → List ℤ → Bool
all_sensible [] gs = true
all_sensible (x ∷ xs) gs = sensible x gs && all_sensible xs (given x gs)

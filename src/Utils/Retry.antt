-- ===== src/Utils/Retry.antt =====
-- The retry of system calls and the panic of iouring/io_uring_utils.h.
use iouring_cc.Common.{
  ℕ, zero, suc, ◌+◌, ◌==◌, ◌&&◌, ◌≡◌, ap, not, Bool, true, false, arith, if◌then◌else◌,
}
use iouring_cc.Common.Int.{neg_part, ℤ, pos, negsuc, eqb_ℤ, ltb_ℤ}
use iouring_cc.Common.Outcome.{Outcome, done, running}

-- EINTR, and ETIME negated.
abbrev eintr : ℕ
eintr = 4

abbrev minus_etime : ℤ
minus_etime = negsuc 61

-- What a system call leaves: its result, `errno`, and the state.
pub record Answered (S : Type 0) : Type 0 where
  pub result : ℤ
  pub errno : ℕ
  pub state : S

-- `panic` throws a `std::system_error` with the error number.
pub data Checked : Type 0 where
  returned panicked : ℤ → Checked

-- `operator|`.
unfoldable pub panic_on_err : Bool → ℕ → ℤ → Checked
panic_on_err use_errno errno ret =
    if ltb_ℤ ret (pos 0)
    then (if use_errno
        then panicked (pos errno)
        else if not (eqb_ℤ ret minus_etime)
        then panicked (pos (neg_part ret))
        else returned ret)
    else returned ret

module _ {S : Type 0} (op : S → Answered S) where
  -- The system call was interrupted.
  abbrev pub interrupted : S → Bool
  interrupted s = eqb_ℤ (op s).result (negsuc 0) && ((op s).errno == eintr)

  -- `syscall_retry`, with fuel for so many calls.
  unfoldable pub syscall_retry : ℕ → S → Outcome (Answered S)
  syscall_retry zero s = running
  syscall_retry (suc n) s =
      let rest = syscall_retry n (op s).state in if interrupted s then rest else done (op s)

  -- The state after so many calls.
  abbrev pub after : ℕ → S → S
  after zero s = s
  after (suc n) s = after n (op s).state

  -- The first so many calls are all interrupted.
  abbrev pub interrupted_first : ℕ → S → Bool
  interrupted_first zero s = true
  interrupted_first (suc n) s = interrupted s && interrupted_first n (op s).state

  -- If a system call is interrupted so many times in a row, and then is not, and there is fuel for
  -- one call more, the retry makes exactly that many calls and one, and gives what the last one
  -- gave.
  pub syscall_retry-after :
      (n m : ℕ) (s : S)
      → interrupted_first n s ≡ true
      → interrupted (after n s) ≡ false
      → syscall_retry (suc (n + m)) s ≡ done (op (after n s))
  unfolding syscall_retry
  syscall_retry-after zero m s h k = ground (arith, k)
  syscall_retry-after (suc n) m s h k =
      let fuel : suc n + m ≡ suc (n + m) = omega arith in
      ground (
        arith,
        ap (λ x. syscall_retry x (op s).state) fuel,
        syscall_retry-after n m (op s).state (ground (arith, h)) k,
      )

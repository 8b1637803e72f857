-- ===== src/System/Contract.antt =====
-- What liburing and the kernel promise of the completion ring: an entry names a submission that is
-- under way, or is one of liburing's own, and no entry names a submission after the one that does not
-- announce more.
use iouring_cc.Common.{ℕ, ◌==◌, ◌&&◌, ◌||◌, ◌≡◌, Bool, true, not, List, [], ◌∷◌, length, none, some}
use iouring_cc.Request.Flags.{cqe_more}
use iouring_cc.Sqe.Entry.{Sqe}
use iouring_cc.Completion.Entry.{Cqe, flag_set}
use iouring_cc.Engine.{udata_timeout}
use iouring_cc.Submit.{Ring}

-- A set of the values of `user_data`.
abbrev pub Tokens : Type 0
Tokens = ℕ → Bool

-- An entry of liburing's own timeouts, or one that no completion was set for.
abbrev pub unnamed : ℕ → Bool
unnamed a = a == udata_timeout || a == 0

-- What is under way after an entry.
abbrev pub retire : Cqe → Tokens → Tokens
retire c known a = known a && (not (a == c.user_data) || flag_set c.flags cqe_more)

abbrev pub retire_all : List Cqe → Tokens → Tokens
retire_all [] known = known
retire_all (c ∷ cs) known = retire_all cs (retire c known)

-- Each entry names what is under way when it comes.
abbrev pub named : List Cqe → Tokens → Bool
named [] known = true
named (c ∷ cs) known = (unnamed c.user_data || known c.user_data) && named cs (retire c known)

-- `known` are the submissions that entries may still come for. An entry of the submission ring that
-- has been handed out counts from when it is put, with the `user_data` that it then has; an entry of
-- the completion ring, until the ring has advanced past it.
pub record Contract {R : Type 0} (sys : Ring R) : Type 0 where
  pub known : R → Tokens
  pub put_keeps :
      (r r' : R) (s s' : Sqe) (a : ℕ)
      → sys.get_sqe r ≡ (some s, r')
      → known (sys.put_sqe s' r') a ≡ true
      → (s'.user_data == a || known r a) ≡ true
  pub full_keeps :
      (r r' : R) (a : ℕ) → sys.get_sqe r ≡ (none, r') → known r' a ≡ true → known r a ≡ true
  pub submit_keeps : (r : R) (a : ℕ) → known (sys.submit r).1 a ≡ true → known r a ≡ true
  pub wait_keeps : (r : R) (a : ℕ) → known (sys.wait_cqe_timeout r).1 a ≡ true → known r a ≡ true
  pub peek_named : (n : ℕ) (r : R) → named (sys.peek_batch_cqe n r).0 (known r) ≡ true
  pub advance_retires :
      (n : ℕ) (r : R) (a : ℕ)
      → known (sys.cq_advance (length (sys.peek_batch_cqe n r).0) (sys.peek_batch_cqe n r).1) a
        ≡ true
      → retire_all (sys.peek_batch_cqe n r).0 (known r) a ≡ true

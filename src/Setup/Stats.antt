-- ===== src/Setup/Stats.antt =====
-- `IouringStats` of iouring/io_uring.h and iouring/io_uring.cc: how often each operation and each
-- flag of an entry was seen. Nothing calls `UpdateSqeStats`.
use iouring_cc.Common.{
  ℕ, zero, suc, ◌+◌, ◌%◌, ◌^◌, ◌==◌, List, none, some, replicate, get_elem?, set, bit_and,
  if◌then◌else◌,
}
use iouring_cc.Common.Outcome.{Outcome, done, undefined, ◌>>=◌}

pub record IouringStats : Type 0 where
  pub sqe_flags : List ℕ
  pub ops : List ℕ

-- `IORING_OP_LAST` is liburing's.
unfoldable pub new_stats : ℕ → IouringStats
new_stats op_last = record { sqe_flags = replicate 8 0; ops = replicate op_last 0 }

-- `ops_[opcode]++`, on numbers of 32 bits.
abbrev pub counted_at : ℕ → List ℕ → Outcome (List ℕ)
counted_at i xs = elim (get_elem? xs i) [
  | none ↦ undefined
  | some n ↦ done (set xs i ((n + 1) % 2 ^ 32))
]

-- The loop over the flags that are left, from the i-th bit.
unfoldable pub count_flags : ℕ → ℕ → ℕ → List ℕ → Outcome (List ℕ)
count_flags zero i flags xs = done xs
count_flags (suc n) i flags xs =
    if bit_and flags (2 ^ i) == 0
    then count_flags n (i + 1) flags xs
    else do ys ← counted_at i xs; count_flags n (i + 1) flags ys

unfoldable pub update_sqe_stats : ℕ → ℕ → IouringStats → Outcome IouringStats
update_sqe_stats opcode flags s = do
  ops ← counted_at opcode s.ops
  sqe_flags ← count_flags 8 0 flags s.sqe_flags
  done (record { sqe_flags = sqe_flags; ops = ops })

-- `UpdateCqeStats` ignores its argument.
unfoldable pub update_cqe_stats : IouringStats → IouringStats
update_cqe_stats s = s

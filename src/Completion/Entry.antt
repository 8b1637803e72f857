-- ===== src/Completion/Entry.antt =====
-- The completion queue entry that liburing hands over, and what the program reads of its flags.
use iouring_cc.Common.{ℕ, ◌/◌, ◌%◌, ◌^◌, Bool, not, ◌==◌, bit_and}
use iouring_cc.Common.Int.{ℤ}

pub record Cqe : Type 0 where
  pub user_data : ℕ
  pub res : ℤ
  pub flags : ℕ

abbrev pub flag_set : ℕ → ℕ → Bool
flag_set flags bit = not (bit_and flags bit == 0)

-- `cqe->flags >> 16`.
abbrev pub buffer_id : Cqe → ℕ
buffer_id cqe = cqe.flags / 2 ^ 16 % 2 ^ 16

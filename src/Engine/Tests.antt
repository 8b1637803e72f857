-- ===== src/Engine/Tests.antt =====
-- Completion entries on a concrete ring: the completion at 100 has no group, the one at 200 reads into
-- the buffers of group 3.
use iouring_cc.Common.{◌+◌, ◌*◌, ◌≤◌, ◌≡◌, refl, some, true, false, [], ◌∷◌, arith}
use iouring_cc.Common.Int.{pos, negsuc, ◌+ℤ◌}
use iouring_cc.Common.Outcome.{done, aborted}
use iouring_cc.Pools.{new_pool, find_pool}
use iouring_cc.Completion.Entry.{Cqe}
use iouring_cc.Completion.{Completion, Kind, Answer, info, settle, complete, complete_with, more}
use iouring_cc.Engine.{
  Engine, find_handler, handle_cqe, handle_cqes, handle_with, answer_with, record_completed,
}
use iouring_cc.Engine.Counts.{answered_count, handle_cqes-pending}
use iouring_cc.Engine.Once.{answers_of, handle_cqes_once}
use iouring_cc.Engine.Multishot.{second_entry_aborts}
use iouring_cc.Engine.Deliver.{entry_with_buffer}

abbrev plain_completion : Completion
plain_completion = record {
  kind = Kind.plain;
  has_callback = true;
  cqe_res = pos 0;
  cqe_flags = 0;
  buf_gid = pos 0;
  buf_bid = 0;
  info_bid = 0;
  answered = false;
}

abbrev reader : Completion
reader = record plain_completion { kind = Kind.rw_provided_buffer; buf_gid = pos 3 }

abbrev waiting : Engine
waiting = record {
  handlers = (100, plain_completion) ∷ (200, reader) ∷ [];
  pools = (pos 3, new_pool 64 4 1000) ∷ [];
  pending = pos 2;
  told = [];
  answers = [];
}

abbrev ten_bytes : Cqe
ten_bytes = record { user_data = 100; res = pos 10; flags = 0 }

abbrev after_ten : Engine
after_ten = record {
  handlers = (200, reader) ∷ [];
  pools = (pos 3, new_pool 64 4 1000) ∷ [];
  pending = pos 1;
  told = (100, pos 10) ∷ [];
  answers = (100, Answer.result (pos 10)) ∷ [];
}

handled : handle_cqes (ten_bytes ∷ []) waiting ≡ done after_ten
unfolding handle_cqes handle_cqe find_handler handle_with answer_with complete_with complete settle
    more record_completed ◌+ℤ◌
handled = refl

handle_cqes-pending_example : pos 1 +ℤ pos (answered_count (ten_bytes ∷ [])) ≡ pos 2
handle_cqes-pending_example = handle_cqes-pending (ten_bytes ∷ []) waiting after_ten handled

handle_cqes_once_example : answers_of 100 after_ten.answers ≤ answers_of 100 waiting.answers + 1
handle_cqes_once_example = handle_cqes_once 100 (ten_bytes ∷ []) waiting after_ten handled

find_plain : find_handler 100 waiting.handlers ≡ some plain_completion
unfolding find_handler
find_plain = refl

find_reader : find_handler 200 waiting.handlers ≡ some reader
unfolding find_handler
find_reader = refl

find_three : find_pool (pos 3) waiting.pools ≡ some (new_pool 64 4 1000)
unfolding find_pool
find_three = refl

second_entry_aborts_example :
    handle_cqes (record ten_bytes { flags = 2 } ∷ ten_bytes ∷ []) waiting ≡ aborted
second_entry_aborts_example =
    second_entry_aborts 100 (record ten_bytes { flags = 2 }) ten_bytes [] waiting plain_completion
      refl refl refl refl find_plain refl refl

-- A read that failed has no buffer; 104 is ECONNRESET.
abbrev reset : Cqe
reset = record { user_data = 200; res = negsuc 103; flags = 0 }

-- The buffer 2, with 33 bytes.
abbrev filled_two : Cqe
filled_two = record { user_data = 200; res = pos 33; flags = 131_073 }

entry_with_buffer_example :
    (handle_cqe filled_two waiting
      ≡ done (record waiting {
        pending = pos 2 +ℤ negsuc 0;
        handlers = (100, plain_completion) ∷ [];
        told = (200, pos 33) ∷ [];
        answers = (200, info (some (1000 + 2 * 64)) (pos 33) (pos 3) 2) ∷ [];
      }))
    × (2 * 64 + 64 ≤ (new_pool 64 4 1000).bytes)
entry_with_buffer_example =
    entry_with_buffer filled_two waiting reader refl refl find_reader refl 64 4 1000 (omega arith)
      find_three (omega arith) (omega arith) refl refl refl refl refl

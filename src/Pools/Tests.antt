-- ===== src/Pools/Tests.antt =====
-- A concrete pool.
use iouring_cc.Common.{ℕ, ◌+◌, ◌≤◌, ◌≡◌, refl, arith}
use iouring_cc.Common.Outcome.{done, aborted}
use iouring_cc.Pools.{BufferPool, new_pool, get_buffer}
use iouring_cc.Pools.Bounds.{get_buffer_apart}

abbrev pool : BufferPool
pool = record { buffer_count = 4; buffer_size = 64; base = 1000; bytes = 256 }

third : get_buffer (new_pool 64 4 1000) 2 ≡ done 1128
unfolding get_buffer new_pool
third = refl

beyond : get_buffer (new_pool 64 4 1000) 4 ≡ aborted
unfolding get_buffer new_pool
beyond = refl

get_buffer_apart_example :
    (a : ℕ) × (b : ℕ) × (get_buffer (new_pool 64 4 1000) 1 ≡ done a)
    × (get_buffer (new_pool 64 4 1000) 3 ≡ done b)
    × (1000 ≤ a)
    × (a + 64 ≤ b)
    × (b + 64 ≤ 1000 + (new_pool 64 4 1000).bytes)
get_buffer_apart_example = get_buffer_apart 64 4 1000 1 3 (omega arith) (omega arith) (omega arith)

-- ===== src/Pools/Bounds.antt =====
-- The buffers of a pool: inside its memory, and apart from one another.
use iouring_cc.Common.{ℕ, ◌+◌, ◌*◌, ◌^◌, ◌<◌, ◌≤◌, ◌≡◌, arith}
use iouring_cc.Common.Outcome.{done}
use iouring_cc.Pools.{new_pool, get_buffer}

pub product_le : (a b c : ℕ) → a < b → a * c + c ≤ b * c
product_le a b c h = grind arith

-- In a pool whose total size fits in 32 bits, the buffer of an identifier below the count starts at
-- its multiple of the buffer size, and lies within the pool's memory.
pub get_buffer-new_pool :
    (size count base id : ℕ)
    → count * size < 2 ^ 32
    → id < count
    → (get_buffer (new_pool size count base) id ≡ done (base + id * size))
      × (id * size + size ≤ (new_pool size count base).bytes)
unfolding get_buffer new_pool
get_buffer-new_pool size count base id fits lt = ground (arith, product_le id count size lt)

-- In a pool whose total size fits in 32 bits, the buffers of two identifiers below the count, in
-- order, are apart from one another, and both lie within the pool's memory.
pub get_buffer_apart :
    (size count base i j : ℕ)
    → count * size < 2 ^ 32
    → i < j
    → j < count
    → (a : ℕ) × (b : ℕ) × (get_buffer (new_pool size count base) i ≡ done a)
      × (get_buffer (new_pool size count base) j ≡ done b)
      × (base ≤ a)
      × (a + size ≤ b)
      × (b + size ≤ base + (new_pool size count base).bytes)
get_buffer_apart size count base i j fits lt below = (
  base + i * size,
  base + j * size,
  (get_buffer-new_pool size count base i fits (omega (arith, lt, below))).0,
  (get_buffer-new_pool size count base j fits below).0,
  omega arith,
  omega (arith, product_le i j size lt),
  omega (arith, (get_buffer-new_pool size count base j fits below).1),
)

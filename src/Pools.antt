-- ===== src/Pools.antt =====
-- `BufferPool` of iouring/buffer_pool.h, and the map of the pools by group of iouring/io_uring.h.
-- Sizes and offsets are of type `uint32_t`, and wrap.
pub mod Bounds
pub mod Sound
mod Tests
use iouring_cc.Common.{
  ℕ, ◌+◌, ◌*◌, ◌%◌, ◌^◌, Option, none, some, List, [], ◌∷◌, if◌then◌else◌, leb, ltb,
}
use iouring_cc.Common.Int.{ℤ, eqb_ℤ}
use iouring_cc.Common.Outcome.{Outcome, done, aborted, undefined}

-- `base` is the address of the pool's bytes, of which there are `bytes`.
pub record BufferPool : Type 0 where
  pub buffer_count : ℕ
  pub buffer_size : ℕ
  pub base : ℕ
  pub bytes : ℕ

-- Both constructors: the memory is allocated, or handed in, at `base`.
unfoldable pub new_pool : ℕ → ℕ → ℕ → BufferPool
new_pool buffer_size buffer_count base = record {
  buffer_count = buffer_count;
  buffer_size = buffer_size;
  base = base;
  bytes = buffer_count * buffer_size % 2 ^ 32;
}

-- `BufferPool::Get`. The offset, which wraps, is added to the pointer to the pool's bytes: this is
-- undefined where it leads beyond their end.
unfoldable pub get_buffer : BufferPool → ℕ → Outcome ℕ
get_buffer p id =
    if leb p.buffer_count id
    then aborted
    else if ltb p.bytes (id * p.buffer_size % 2 ^ 32)
    then undefined
    else done (p.base + id * p.buffer_size % 2 ^ 32)

unfoldable pub find_pool : ℤ → List (ℤ × BufferPool) → Option BufferPool
find_pool gid [] = none
find_pool gid ((g, p) ∷ ps) = if eqb_ℤ g gid then some p else find_pool gid ps

unfoldable pub erase_pool : ℤ → List (ℤ × BufferPool) → List (ℤ × BufferPool)
erase_pool gid [] = []
erase_pool gid ((g, p) ∷ ps) = if eqb_ℤ g gid then ps else (g, p) ∷ erase_pool gid ps

-- `it->second->Size()` where nothing tests `it`.
abbrev pub pool_size : Option BufferPool → Outcome ℕ
pool_size none = undefined
pool_size (some p) = done p.buffer_size

-- `it->second->Count()` after the assertion that `it` is no end iterator.
abbrev pub pool_count : Option BufferPool → Outcome ℕ
pool_count none = aborted
pool_count (some p) = done p.buffer_count

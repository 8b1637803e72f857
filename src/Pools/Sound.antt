-- ===== src/Pools/Sound.antt =====
-- Pools whose buffers lie within their memory.
use iouring_cc.Common.{
  ℕ, ◌*◌, ◌%◌, ◌^◌, ◌<◌, ◌≤◌, ◌≡◌, refl, some, List, [], ◌∷◌, ◌++◌, arith, leb, ltb, true, false,
  Bool-cases, inl, inr,
}
use iouring_cc.Common.Int.{ℤ, eqb_ℤ}
use iouring_cc.Common.Safely.{Safely, Ends-if}
use iouring_cc.Pools.{BufferPool, new_pool, get_buffer, find_pool, erase_pool}
use iouring_cc.Pools.Bounds.{product_le}

-- The pool has memory for all its buffers.
abbrev pub Sound : BufferPool → Type 0
Sound p = p.buffer_count * p.buffer_size ≤ p.bytes

abbrev pub SoundPools : List (ℤ × BufferPool) → Type 0
SoundPools [] = true ≡ true
SoundPools ((g, p) ∷ ps) = Sound p × SoundPools ps

-- A pool whose total size does not wrap has the memory.
pub new_pool-Sound :
    (size count base : ℕ) → count * size < 2 ^ 32 → Sound (new_pool size count base)
unfolding new_pool
new_pool-Sound size count base h = ground arith

-- No identifier leads out of the memory of such a pool.
pub get_buffer-Sound :
    (p : BufferPool) (id : ℕ) → Sound p → Safely (λ a. true ≡ true) (get_buffer p id)
unfolding get_buffer
get_buffer-Sound p id h =
    Ends-if false (λ a. true ≡ true) (leb p.buffer_count id) _ _ (λ x. refl)
      (λ x.
        Ends-if false (λ a. true ≡ true) (ltb p.bytes (id * p.buffer_size % 2 ^ 32)) _ _
          (λ y. absurd (ground (arith, product_le id p.buffer_count p.buffer_size))) (λ y. refl))

pub find_pool-Sound :
    (g : ℤ) (ps : List (ℤ × BufferPool)) (p : BufferPool)
    → SoundPools ps
    → find_pool g ps ≡ some p
    → Sound p
unfolding find_pool
find_pool-Sound g [] p s e = cc
find_pool-Sound g ((h, q) ∷ ps) p s e = elim (Bool-cases (eqb_ℤ h g)) [
  | inl t ↦ ground (arith, s.0)
  | inr f ↦ find_pool-Sound g ps p s.1 (ground arith)
]

pub erase_pool-SoundPools :
    (g : ℤ) (ps : List (ℤ × BufferPool)) → SoundPools ps → SoundPools (erase_pool g ps)
unfolding erase_pool
erase_pool-SoundPools g [] s = s
erase_pool-SoundPools g ((h, q) ∷ ps) s = elim (Bool-cases (eqb_ℤ h g)) [
  | inl t ↦ rw t s.1
  | inr f ↦ rw f (s.0, erase_pool-SoundPools g ps s.1)
]

pub append-SoundPools :
    (ps : List (ℤ × BufferPool)) (g : ℤ) (p : BufferPool)
    → SoundPools ps
    → Sound p
    → SoundPools (ps ++ ((g, p) ∷ []))
append-SoundPools [] g p s h = (h, s)
append-SoundPools (q ∷ ps) g p s h = (s.0, append-SoundPools ps g p s.1 h)

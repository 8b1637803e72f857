-- ===== src/Buffer/Memory.antt =====
-- The memory that the buffers of iouring/buffer.h live in, with what they call of the language and of
-- the C library: `new T[]`, `delete[]`, `memcpy` and `memmove`. A block is what one allocation gave,
-- or a piece of the caller's memory. A byte that nothing was written to is `none`. Allocations do
-- not fail.
use iouring_cc.Common.{
  ℕ, suc, ◌+◌, ◌==◌, ◌&&◌, ltb, leb, List, ◌++◌, Option, none, some, if◌then◌else◌, length, take,
  drop, replicate,
}
use iouring_cc.Common.Outcome.{Outcome, done, undefined, ◌>>=◌}

abbrev pub Bytes : Type 0
Bytes = List (Option ℕ)

-- Blocks are numbered as they come.
pub record Heap : Type 0 where
  pub next : ℕ
  pub block : ℕ → Option Bytes

abbrev pub update : (ℕ → Option Bytes) → ℕ → Option Bytes → ℕ → Option Bytes
update f p v q = if p == q then v else f q

-- A block with contents, as a caller holds it.
abbrev pub place : Bytes → Heap → Heap
place bs h = record { next = suc h.next; block = update h.block h.next (some bs) }

-- `new T[n]`; its pointer is the `next` of before.
abbrev pub allocate : ℕ → Heap → Heap
allocate n h = place (replicate n none) h

abbrev freed : ℕ → Heap → Option Bytes → Outcome Heap
freed p h none = undefined
freed p h (some bs) = done (record h { block = update h.block p none })

-- `delete[]`.
unfoldable pub release : ℕ → Heap → Outcome Heap
release p h = freed p h (h.block p)

abbrev read_from : ℕ → ℕ → Option Bytes → Outcome Bytes
read_from off n none = undefined
read_from off n (some bs) =
    if leb (off + n) (length bs) then done (take n (drop off bs)) else undefined

unfoldable pub read_bytes : ℕ → ℕ → ℕ → Heap → Outcome Bytes
read_bytes p off n h = read_from off n (h.block p)

-- A block with some of its bytes written over.
abbrev pub patch : ℕ → Bytes → Bytes → Bytes
patch off xs bs = take off bs ++ (xs ++ drop (off + length xs) bs)

abbrev write_to : ℕ → ℕ → Bytes → Heap → Option Bytes → Outcome Heap
write_to p off xs h none = undefined
write_to p off xs h (some bs) =
    if leb (off + length xs) (length bs)
    then done (record h { block = update h.block p (some (patch off xs bs)) })
    else undefined

unfoldable pub write_bytes : ℕ → ℕ → Bytes → Heap → Outcome Heap
write_bytes p off xs h = write_to p off xs h (h.block p)

-- `memmove`, between blocks or inside one.
unfoldable pub move_bytes : ℕ → ℕ → ℕ → ℕ → ℕ → Heap → Outcome Heap
move_bytes p off q from n h = read_bytes q from n h >>= λ xs. write_bytes p off xs h

-- `memcpy`, which must not be given ranges that overlap.
unfoldable pub copy_bytes : ℕ → ℕ → ℕ → ℕ → ℕ → Heap → Outcome Heap
copy_bytes p off q from n h =
    if (p == q) && (ltb off (from + n) && ltb from (off + n))
    then undefined
    else move_bytes p off q from n h

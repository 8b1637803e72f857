-- ===== src/Buffer/Faults.antt =====
-- Copies of a buffer, and a buffer appended to itself.
use iouring_cc.Common.{
  ℕ, ◌+◌, ◌≤◌, ◌<◌, ◌≡◌, ◌==◌, ◌%◌, ◌^◌, ap, ◌∙◌, [], Option, none, true, false, if◌then◌else◌,
  arith, length, take, replicate, length-take, length-replicate,
}
use iouring_cc.Common.Outcome.{done, undefined, ◌>>=◌}
use iouring_cc.Buffer.Memory.{
  Bytes, Heap, place, release, read_bytes, write_bytes, move_bytes, copy_bytes, patch,
}
use iouring_cc.Buffer.{Buffer, resize, assign, append, append_buffer, copy_buffer}
use iouring_cc.Buffer.Valid.{IsValid, Source, take_all, length-patch}
use iouring_cc.Buffer.Move.{copied}

module _ (b : Buffer) (h : Heap) (v : IsValid b h) where
  -- The capacity is the original's; the memory is of the size only.
  copied_whole :
      copy_buffer b h
      ≡ done (
        record b { ptr = h.next; own_mem = false },
        place
            (if b.index == 0 then [] else patch 0 (take b.index v.bytes) (replicate b.index none))
            h,
      )
  unfolding copy_buffer
  copied_whole = ground (arith, copied b h v b.index b.index (omega arith) (omega arith))

  overrun :
      (p : ℕ) (xs bs : Bytes)
      → Source p xs b h
      → length bs < length xs
      → length xs ≤ b.capacity
      → assign p 0 (length xs) (record b { ptr = h.next; own_mem = false }) (place bs h) ≡ undefined
  unfolding assign copy_bytes move_bytes read_bytes write_bytes
  overrun p xs bs s more fits = ground (arith, s.held, s.before, take_all (length xs) xs)

  -- A buffer with fewer bytes than its capacity is copied, and the copy is assigned bytes from the
  -- caller's memory, more than were copied and no more than the capacity: the call writes beyond
  -- the end of the copy's memory.
  pub assign-copy_buffer :
      (p : ℕ) (xs : Bytes)
      → Source p xs b h
      → b.index < length xs
      → length xs ≤ b.capacity
      → (copy_buffer b h >>= λ c. assign p 0 (length xs) c.0 c.1) ≡ undefined
  unfolding assign copy_bytes move_bytes read_bytes write_bytes
  assign-copy_buffer p xs s more fits =
      ap (λ o. o >>= λ c. assign p 0 (length xs) c.0 c.1) copied_whole
      ∙ overrun p xs _ s
          (ground (
            arith,
            length-patch 0 (take b.index v.bytes) (replicate b.index none) (
                omega (
                  arith,
                  length-take b.index v.bytes,
                  length-replicate {A = Option ℕ} b.index none,
                )),
            length-replicate {A = Option ℕ} b.index none,
          ))
          fits

  -- When a buffer with bytes that are to be kept has no room for twice as many, appending it to itself
  -- reads the memory that has just been released.
  pub append_buffer_itself :
      b.own_mem ≡ true
      → 0 < b.index
      → b.capacity < b.index + b.index
      → b.index + b.index < 2 ^ 64
      → append_buffer b b h ≡ undefined
  unfolding append_buffer append resize release copy_bytes move_bytes read_bytes
  append_buffer_itself owned some_bytes full fits = ground (
    arith,
    v.mapped,
    v.known,
    copied b h v ((b.index + b.index) % 2 ^ 64) b.index (omega arith) (ground arith),
  )

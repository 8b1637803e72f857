-- ===== src/Buffer/Tests.antt =====
-- Buffers at concrete inputs.
use iouring_cc.Common.{ℕ, ◌≡◌, refl, List, [], ◌∷◌, none, some, true, false, Bool, arith}
use iouring_cc.Common.Outcome.{Outcome, done, ◌>>=◌}
use iouring_cc.Buffer.Memory.{Bytes, Heap, place, copy_bytes, move_bytes, read_bytes, write_bytes}
use iouring_cc.Buffer.{
  Buffer, returned, new_buffer, copy_memory, copy_assign, buffer_eq, copy_buffer, at, view_buffer,
}
use iouring_cc.Buffer.Valid.{IsValid, Source, contents}
use iouring_cc.Buffer.Refine.{Op, append_bytes, consume, grow, set_room, run, run-new_buffer}

abbrev no_memory : Heap
no_memory = record { next = 0; block = λ p. none }

abbrev some_bytes : Bytes
some_bytes = some 7 ∷ some 8 ∷ some 9 ∷ []

abbrev some_ops : List Op
some_ops =
    append_bytes some_bytes
    ∷ consume 1
    ∷ append_bytes some_bytes
    ∷ set_room 4 true
    ∷ grow 6 true
    ∷ []

run-new_buffer_example :
    (b' : Buffer) × (h' : Heap) × (run some_ops
        (new_buffer 2 no_memory).0
        (new_buffer 2 no_memory).1
      ≡ done (returned (b', h')))
    × (b'.capacity ≡ 6)
    × (contents b' h' ≡ some 8 ∷ some 9 ∷ some 7 ∷ some 8 ∷ [])
run-new_buffer_example = run-new_buffer 2 no_memory some_ops refl

-- A buffer of four bytes that holds one.
abbrev small : Buffer
small = record { capacity = 4; index = 1; ptr = 0; own_mem = true }

abbrev small_memory : Heap
small_memory = place some_bytes (place (some 5 ∷ none ∷ none ∷ none ∷ []) no_memory)

small-IsValid : IsValid small small_memory
small-IsValid = record {
  bytes = some 5 ∷ none ∷ none ∷ none ∷ [];
  mapped = refl;
  sized = omega arith;
  room = omega arith;
  known = omega arith;
}

bytes-Source : Source 1 some_bytes small small_memory
bytes-Source = record { held = refl; apart = λ q. omega (arith, q); before = omega arith }

-- A buffer that is full.
abbrev full_buffer : Buffer
full_buffer = record { capacity = 2; index = 2; ptr = 0; own_mem = true }

abbrev full_memory : Heap
full_memory = place (some 5 ∷ some 6 ∷ []) no_memory

full-IsValid : IsValid full_buffer full_memory
full-IsValid = record {
  bytes = some 5 ∷ some 6 ∷ [];
  mapped = refl;
  sized = omega arith;
  room = omega arith;
  known = omega arith;
}

-- Copied memory is equal to the original's view, and not to less of it.
compare_copy : ℕ → Outcome Bool
unfolding copy_memory view_buffer buffer_eq
compare_copy n =
    copy_memory 0 0 n (place some_bytes no_memory) >>= λ c. buffer_eq c.0 (view_buffer 0 3) c.1

copied_equal : compare_copy 3 ≡ done true
unfolding compare_copy copy_memory view_buffer buffer_eq copy_bytes move_bytes read_bytes
    write_bytes
copied_equal = refl

copied_less : compare_copy 2 ≡ done false
unfolding compare_copy copy_memory view_buffer buffer_eq copy_bytes move_bytes read_bytes
    write_bytes
copied_less = refl

-- Assignment releases what was held, since `own_mem_` is not exchanged.
assigned :
    (copy_assign full_buffer (view_buffer 1 3) (place some_bytes full_memory) >>= λ o. at 2 o.0 o.1)
    ≡ done (some 9 ∷ [])
unfolding copy_assign copy_buffer at view_buffer copy_bytes move_bytes read_bytes write_bytes
assigned = refl

-- ===== src/Buffer.antt =====
-- `Buffer` of iouring/buffer.h. A pointer into memory is a block and an offset; `ptr_` is the start of
-- its block. `thrown` is the `std::runtime_error` of a buffer that does not own its memory; it is
-- thrown before anything has changed.
pub mod Memory
pub mod Valid
pub mod Move
pub mod Calls
pub mod Writes
pub mod Refine
pub mod Faults
mod Tests
use iouring_cc.Common.{
  List, [], ◌∷◌, Option, none, some, ℕ, ◌+◌, ◌-◌, ◌%◌, ◌^◌, ◌==◌, ◌&&◌, ◌||◌, Bool, true, false,
  not, ltb, leb, min, if◌then◌else◌,
}
use iouring_cc.Common.Outcome.{Outcome, done, aborted, undefined, ◌>>=◌}
use iouring_cc.Buffer.Memory.{Bytes, Heap, allocate, release, read_bytes, move_bytes, copy_bytes}

pub record Buffer : Type 0 where
  pub capacity : ℕ
  pub index : ℕ
  pub ptr : ℕ
  pub own_mem : Bool

pub data Throws (A : Type 0) : Type 0 where
  returned : A → Throws A
  thrown : Throws A

-- What follows a call that may throw.
abbrev pub after {ℓ} :
    {A : Type 0} {B : Type ℓ} → Outcome (Throws A) → (A → Outcome B) → Outcome B → Outcome B
after (done (returned a)) f x = f a
after (done thrown) f x = x
after aborted f x = aborted
after undefined f x = undefined
after iouring_cc.Common.Outcome.running f x = iouring_cc.Common.Outcome.running

-- `Buffer(std::size_t capacity)`.
unfoldable pub new_buffer : ℕ → Heap → Buffer × Heap
new_buffer n h = (record { capacity = n; index = 0; ptr = h.next; own_mem = true }, allocate n h)

-- `Buffer(T *data, std::size_t length)`.
unfoldable pub view_buffer : ℕ → ℕ → Buffer
view_buffer p length = record { capacity = length; index = length; ptr = p; own_mem = false }

-- `Buffer(const T *ptr_mem, std::size_t length)`.
unfoldable pub copy_memory : ℕ → ℕ → ℕ → Heap → Outcome (Buffer × Heap)
copy_memory p off n h =
    (if n == 0 then done (allocate n h) else copy_bytes h.next 0 p off n (allocate n h)) >>= λ h'.
    done (record { capacity = n; index = n; ptr = h.next; own_mem = true }, h')

-- `Buffer(const Buffer &other)`.
unfoldable pub copy_buffer : Buffer → Heap → Outcome (Buffer × Heap)
copy_buffer other h =
    (if other.index == 0
      then done (allocate other.index h)
      else copy_bytes h.next 0 other.ptr 0 other.index (allocate other.index h))
    >>= λ h'. done (record other { ptr = h.next; own_mem = false }, h')

-- `~Buffer`.
unfoldable pub destroy : Buffer → Heap → Outcome Heap
destroy b h = if b.own_mem then release b.ptr h else done h

-- `swap` leaves `own_mem_` where it is.
unfoldable pub swap : Buffer → Buffer → Buffer × Buffer
swap b other = (record other { own_mem = b.own_mem }, record b { own_mem = other.own_mem })

-- `operator=` between two objects.
unfoldable pub copy_assign : Buffer → Buffer → Heap → Outcome (Buffer × Heap)
unfolding swap destroy
copy_assign b other h =
    copy_buffer other h >>= λ o. destroy (swap b o.0).1 o.1 >>= λ h'. done ((swap b o.0).0, h')

-- The end of a reallocation: the new block is the one before `next`.
abbrev pub moved : Buffer → ℕ → ℕ → ℕ → Heap → Outcome (Throws (Buffer × Heap))
moved b p new_capacity new_index h = release b.ptr h >>= λ h'.
    done (returned (record b { capacity = new_capacity; index = new_index; ptr = p }, h'))

unfoldable pub resize : ℕ → Bool → Buffer → Heap → Outcome (Throws (Buffer × Heap))
resize new_capacity preserve b h =
    if not b.own_mem
    then done thrown
    else if ltb b.capacity new_capacity
    then (if preserve
        then (copy_bytes h.next 0 b.ptr 0 b.index (allocate new_capacity h) >>= λ h'.
            moved b h.next new_capacity b.index h')
        else moved b h.next new_capacity 0 (allocate new_capacity h))
    else done (returned (b, h))

unfoldable pub set_capacity : ℕ → Bool → Buffer → Heap → Outcome (Throws (Buffer × Heap))
set_capacity new_capacity preserve b h =
    if not b.own_mem
    then done thrown
    else if not (new_capacity == b.capacity)
    then (if preserve
        then (copy_bytes h.next 0 b.ptr 0 (min b.index new_capacity) (allocate new_capacity h)
            >>= λ h'. moved b h.next new_capacity (min b.index new_capacity) h')
        else moved b h.next new_capacity 0 (allocate new_capacity h))
    else done (returned (b, h))

unfoldable pub assign : ℕ → ℕ → ℕ → Buffer → Heap → Outcome (Throws (Buffer × Heap))
assign p off sz b h =
    if sz == 0
    then done (returned (b, h))
    else after (if ltb b.capacity sz then resize sz false b h else done (returned (b, h)))
        (λ r. copy_bytes r.0.ptr 0 p off sz r.1 >>= λ h'.
          done (returned (record r.0 { index = sz }, h')))
        (done thrown)

unfoldable pub append : ℕ → ℕ → ℕ → Buffer → Heap → Outcome (Throws (Buffer × Heap))
append p off sz b h =
    if sz == 0
    then done (returned (b, h))
    else after (resize ((b.index + sz) % 2 ^ 64) true b h)
        (λ r. copy_bytes r.0.ptr r.0.index p off sz r.1 >>= λ h'.
          done (returned (record r.0 { index = (r.0.index + sz) % 2 ^ 64 }, h')))
        (done thrown)

-- `append(const Buffer &)`.
unfoldable pub append_buffer : Buffer → Buffer → Heap → Outcome (Throws (Buffer × Heap))
append_buffer buf b h = append buf.ptr 0 buf.index b h

unfoldable pub consumefront : ℕ → Buffer → Heap → Outcome (Buffer × Heap)
consumefront sz b h =
    if not (leb sz b.index)
    then aborted
    else (if ltb sz b.index then move_bytes b.ptr 0 b.ptr sz (b.index - sz) h else done h) >>= λ h'.
        done (record b { index = b.index - sz }, h')

unfoldable pub clear : Buffer → Buffer
clear b = record b { index = 0 }

unfoldable pub is_empty : Buffer → Bool
is_empty b = b.index == 0

-- `memcmp` and its comparison with 0, of as many bytes of each; bytes that nothing was written to
-- cannot be compared.
bytes_eq : Bytes → Bytes → Outcome Bool
bytes_eq [] [] = done true
bytes_eq [] (y ∷ ys) = undefined
bytes_eq (x ∷ xs) [] = undefined
bytes_eq (none ∷ xs) (y ∷ ys) = undefined
bytes_eq (some x ∷ xs) (none ∷ ys) = undefined
bytes_eq (some x ∷ xs) (some y ∷ ys) = bytes_eq xs ys >>= λ e. done ((x == y) && e)

-- `operator==` between two objects.
unfoldable pub buffer_eq : Buffer → Buffer → Heap → Outcome Bool
unfolding bytes_eq
buffer_eq b other h =
    if b.index == other.index
    then (read_bytes b.ptr 0 b.index h >>= λ xs.
        read_bytes other.ptr 0 other.index h >>= λ ys. bytes_eq xs ys)
    else done false

-- `operator[]`.
unfoldable pub at : ℕ → Buffer → Heap → Outcome Bytes
at i b h = if ltb i b.index then read_bytes b.ptr i 1 h else aborted

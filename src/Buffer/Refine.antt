-- ===== src/Buffer/Refine.antt =====
-- `Buffer` as the sequence of bytes that it holds.
use iouring_cc.Common.{
  ℕ, ◌+◌, ◌≡◌, ◌==◌, ◌&&◌, ◌^◌, refl, ap, ◌∙◌, max, List, [], ◌∷◌, ◌++◌, Option, none, true, Bool,
  if◌then◌else◌, leb, ltb, arith, length, take, drop, replicate, length-replicate,
}
use iouring_cc.Common.Outcome.{Outcome, done}
use iouring_cc.Buffer.Memory.{Bytes, Heap, place}
use iouring_cc.Buffer.{
  Buffer, Throws, returned, thrown, after, resize, set_capacity, assign, append, consumefront,
  clear, new_buffer,
}
use iouring_cc.Buffer.Valid.{contents}
use iouring_cc.Buffer.Move.{Holds, Gives, recast-Gives}
use iouring_cc.Buffer.Calls.{
  consumed, placed-Holds, placed-Source, resize-Gives, set_capacity-Gives, clear-Gives,
  consume-Gives,
}
use iouring_cc.Buffer.Writes.{assign-Gives, append-Gives}

-- The calls on a buffer. The bytes of `assign` and `append` are in memory of the caller's.
pub data Op : Type 0 where
  assign_bytes append_bytes : Bytes → Op
  consume : ℕ → Op
  clear_all : Op
  grow set_room : ℕ → Bool → Op

-- A capacity and the bytes held.
pub record Spec : Type 0 where
  pub room : ℕ
  pub held : Bytes

-- The number of bytes held is at most the capacity.
abbrev pub specify : Op → Spec → Spec
specify (assign_bytes xs) s =
    if length xs == 0 then s else record { room = max s.room (length xs); held = xs }
specify (append_bytes xs) s =
    if length xs == 0
    then s
    else record { room = max s.room (length s.held + length xs); held = s.held ++ xs }
specify (consume n) s = record s { held = drop n s.held }
specify clear_all s = record s { held = [] }
specify (grow n keep) s =
    if ltb s.room n then record { room = n; held = if keep then s.held else [] } else s
specify (set_room n keep) s =
    if n == s.room then s else record { room = n; held = if keep then take n s.held else [] }

-- What the calls ask for: no more is consumed than is held, and sizes fit in 64 bits.
abbrev pub allowed : Op → Spec → Bool
allowed (assign_bytes xs) s = true
allowed (append_bytes xs) s = ltb (length s.held + length xs) (2 ^ 64)
allowed (consume n) s = leb n (length s.held)
allowed clear_all s = true
allowed (grow n keep) s = true
allowed (set_room n keep) s = true

-- A call; the caller's bytes are placed in memory first.
unfoldable pub perform : Op → Buffer → Heap → Outcome (Throws (Buffer × Heap))
perform (assign_bytes xs) b h = assign h.next 0 (length xs) b (place xs h)
perform (append_bytes xs) b h = append h.next 0 (length xs) b (place xs h)
perform (consume n) b h = consumed (consumefront n b h)
perform clear_all b h = done (returned (clear b, h))
perform (grow n keep) b h = resize n keep b h
perform (set_room n keep) b h = set_capacity n keep b h

-- A buffer that owns its memory, over calls that are allowed one after the other.
abbrev pub Implements : Spec → Buffer → Heap → Type 0
Implements s b h = Holds s.room s.held b h

-- The call returns, and the buffer holds what the sequence of bytes does.
record Refined (s : Spec) (x : Outcome (Throws (Buffer × Heap))) : Type 0 where
  buffer : Buffer
  heap : Heap
  returns : x ≡ done (returned (buffer, heap))
  implements : Implements s buffer heap

refined :
    {cap : ℕ} {c : Bytes} {b : Buffer} {h : Heap} {x : Outcome (Throws (Buffer × Heap))} (s : Spec)
    → Gives cap c b h x
    → cap ≡ s.room
    → c ≡ s.held
    → Refined s x
refined s g p q =
    let k = recast-Gives g p q refl in
    record { buffer = k.buffer; heap = k.heap; returns = k.returns; implements = k.holds }

perform_refines :
    (op : Op) (s : Spec) (b : Buffer) (h : Heap)
    → Implements s b h
    → allowed op s ≡ true
    → Refined (specify op s) (perform op b h)
unfolding perform
perform_refines (assign_bytes xs) s b h g a =
    refined _
      (assign-Gives b (place xs h) s.room s.held (placed-Holds b h s.room s.held g xs) h.next xs
        (placed-Source b h s.room s.held g xs))
      (ground arith) (ground arith)
perform_refines (append_bytes xs) s b h g a =
    refined _
      (append-Gives b (place xs h) s.room s.held (placed-Holds b h s.room s.held g xs) h.next xs
        (placed-Source b h s.room s.held g xs) (ground arith))
      (ground arith) (ground arith)
perform_refines (consume n) s b h g a =
    refined _ (consume-Gives b h s.room s.held g n (ground arith)) refl refl
perform_refines clear_all s b h g a = refined _ (clear-Gives b h s.room s.held g) refl refl
perform_refines (grow n keep) s b h g a =
    refined _ (resize-Gives b h s.room s.held g n keep) (ground arith) (ground arith)
perform_refines (set_room n keep) s b h g a =
    refined _ (set_capacity-Gives b h s.room s.held g n keep) (ground arith) (ground arith)

unfoldable pub run : List Op → Buffer → Heap → Outcome (Throws (Buffer × Heap))
run [] b h = done (returned (b, h))
run (op ∷ ops) b h = after (perform op b h) (λ r. run ops r.0 r.1) (done thrown)

abbrev pub specify_all : List Op → Spec → Spec
specify_all [] s = s
specify_all (op ∷ ops) s = specify_all ops (specify op s)

abbrev pub all_allowed : List Op → Spec → Bool
all_allowed [] s = true
all_allowed (op ∷ ops) s = allowed op s && all_allowed ops (specify op s)

run_refines :
    (ops : List Op) (s : Spec) (b : Buffer) (h : Heap)
    → Implements s b h
    → all_allowed ops s ≡ true
    → Refined (specify_all ops s) (run ops b h)
unfolding run
run_refines [] s b h g a = record { buffer = b; heap = h; returns = refl; implements = g }
run_refines (op ∷ ops) s b h g a =
    let k = perform_refines op s b h g (ground arith) in
    let l = run_refines ops (specify op s) k.buffer k.heap k.implements (ground arith) in
    record {
      buffer = l.buffer;
      heap = l.heap;
      returns = ap (λ x. after x (λ r. run ops r.0 r.1) (done thrown)) k.returns ∙ l.returns;
      implements = l.implements;
    }

-- Any sequence of calls of `Assign` and `Append` of bytes, `Consumefront`, `Clear`, `Resize` and
-- `SetCapacity` on a new buffer of its own memory, where the bytes that are given lie in memory apart
-- from the buffer's, and where no call consumes more than there is or makes a size of 2^64, returns
-- without an exception and without a bad access, and the buffer has the capacity and holds the bytes
-- that the same calls give on a sequence of bytes. Calls that take another buffer, or the same one,
-- are not among them.
pub run-new_buffer :
    (n : ℕ) (h : Heap) (ops : List Op)
    → all_allowed ops (record { room = n; held = [] }) ≡ true
    → (b' : Buffer) × (h' : Heap) × (run ops (new_buffer n h).0 (new_buffer n h).1
        ≡ done (returned (b', h')))
      × (b'.capacity ≡ (specify_all ops (record { room = n; held = [] })).room)
      × (contents b' h' ≡ (specify_all ops (record { room = n; held = [] })).held)
unfolding new_buffer
run-new_buffer n h ops a =
    let k =
      run_refines ops (record { room = n; held = [] }) (new_buffer n h).0 (new_buffer n h).1 fresh
        a in
    (k.buffer, k.heap, k.returns, k.implements.capacity, k.implements.held)
  where
    fresh : Implements (record { room = n; held = [] }) (new_buffer n h).0 (new_buffer n h).1
    fresh = record {
      valid = record {
        bytes = replicate n none;
        mapped = ground arith;
        sized = omega arith;
        room = omega (arith, length-replicate {A = Option ℕ} n none);
        known = omega arith;
      };
      capacity = refl;
      held = ground arith;
      owned = refl;
    }

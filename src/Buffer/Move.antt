-- ===== src/Buffer/Move.antt =====
-- A buffer's bytes in a new block, and bytes written into its block.
use mathlib.Core.Path.{fun_ext}
use iouring_cc.Common.{
  ℕ, suc, ◌+◌, ◌≤◌, ◌≡◌, refl, ap, ◌∙◌, ◌++◌, Option, none, some, true, arith, length, take,
  replicate, length-take, length-replicate,
}
use iouring_cc.Common.Outcome.{Outcome, done, ◌>>=◌}
use iouring_cc.Buffer.Memory.{
  Bytes, Heap, update, place, allocate, release, read_bytes, write_bytes, move_bytes, copy_bytes,
  patch,
}
use iouring_cc.Buffer.{Buffer, Throws, returned, thrown, moved, after}
use iouring_cc.Buffer.Valid.{
  IsValid, contents, Source, take_all, take-take, take-patch, length-patch,
}

update-update :
    (f : ℕ → Option Bytes) (p : ℕ) (x y : Option Bytes) → update (update f p x) p y ≡ update f p y
update-update f p x y = fun_ext λ q. ground arith

-- A buffer that owns its memory, with its capacity and what it holds.
pub record Holds (cap : ℕ) (c : Bytes) (b : Buffer) (h : Heap) : Type 0 where
  pub valid : IsValid b h
  pub capacity : b.capacity ≡ cap
  pub held : contents b h ≡ c
  pub owned : b.own_mem ≡ true

-- The call returns, the buffer holds what is named, and the caller's blocks are as they were.
pub record Gives (cap : ℕ) (c : Bytes) (b : Buffer) (h : Heap)
    (x : Outcome (Throws (Buffer × Heap))) : Type 0 where
  pub buffer : Buffer
  pub heap : Heap
  pub returns : x ≡ done (returned (buffer, heap))
  pub holds : Holds cap c buffer heap
  pub source : (p : ℕ) (xs : Bytes) → Source p xs b h → Source p xs buffer heap

module _ (b : Buffer) (h : Heap) (v : IsValid b h) where
  -- The bytes that are copied into a new block.
  pub copied :
      (n k : ℕ)
      → k ≤ b.index
      → k ≤ n
      → copy_bytes h.next 0 b.ptr 0 k (allocate n h)
        ≡ done (place (patch 0 (take k v.bytes) (replicate n none)) h)
  unfolding copy_bytes move_bytes read_bytes write_bytes
  copied n k i l =
      ground (
        arith,
        v.mapped,
        v.known,
        v.sized,
        v.room,
        length-take k v.bytes,
        length-replicate {A = Option ℕ} n none,
      )
      ∙ ap (λ f. done (record { next = suc h.next; block = f }))
          (update-update h.block h.next (some (replicate n none))
            (some (patch 0 (take k v.bytes) (replicate n none))))

module _ (b : Buffer) (h : Heap) (v : IsValid b h) (owned : b.own_mem ≡ true) where
  -- The heap after a block with these bytes has come to replace the buffer's.
  abbrev after_move : Bytes → Heap
  after_move bs = record {
    next = suc h.next;
    block = update (update h.block h.next (some bs)) b.ptr none;
  }

  -- The new block holds these bytes; the buffer's is released.
  pub moved-Gives :
      (bs : Bytes) (n k : ℕ)
      → length bs ≡ n
      → k ≤ n
      → Gives n (take k bs) b h (moved b h.next n k (place bs h))
  unfolding release
  moved-Gives bs n k e le = record {
    buffer = record b { capacity = n; index = k; ptr = h.next };
    heap = after_move bs;
    returns = ground (arith, v.mapped, v.known);
    holds = record {
      valid = record {
        bytes = bs;
        mapped = ground (arith, v.known);
        sized = le;
        room = omega (arith, e);
        known = omega arith;
      };
      capacity = refl;
      held = ground (arith, v.known);
      owned = owned;
    };
    source = λ p xs s. record {
      held = ground (arith, s.held, s.apart, s.before);
      apart = λ q. omega (arith, s.before, q);
      before = omega (arith, s.before);
    };
  }

  -- A caller's bytes, copied into the block after a part of what the buffer holds.
  pub written-Gives :
      (off p : ℕ) (xs : Bytes)
      → Source p xs b h
      → off ≤ b.index
      → off + length xs ≤ b.capacity
      → Gives b.capacity (take off (contents b h) ++ xs) b h (
          copy_bytes b.ptr off p 0 (length xs) h >>= λ h'.
          done (returned (record b { index = off + length xs }, h')))
  unfolding copy_bytes move_bytes read_bytes write_bytes
  written-Gives off p xs s i l = record {
    buffer = record b { index = off + length xs };
    heap = record h { block = update h.block b.ptr (some (patch off xs v.bytes)) };
    returns = ground (arith, v.mapped, v.room, s.held, s.apart, take_all (length xs) xs);
    holds = record {
      valid = record {
        bytes = patch off xs v.bytes;
        mapped = ground arith;
        sized = l;
        room = omega (arith, v.room, length-patch off xs v.bytes);
        known = v.known;
      };
      capacity = refl;
      held = ground (
        arith,
        v.mapped,
        v.room,
        v.sized,
        take-patch off xs v.bytes,
        take-take off b.index v.bytes i,
      );
      owned = owned;
    };
    source = λ q ys t. record {
      held = ground (arith, t.held, t.apart);
      apart = t.apart;
      before = t.before;
    };
  }

pub same-Gives :
    (cap : ℕ) (c : Bytes) (b : Buffer) (h : Heap)
    → Holds cap c b h
    → Gives cap c b h (done (returned (b, h)))
same-Gives cap c b h g = record {
  buffer = b;
  heap = h;
  returns = refl;
  holds = g;
  source = λ p xs s. s;
}

-- A call after one that returns.
pub after-Gives :
    (cap cap' : ℕ) (c c' : Bytes) (b : Buffer) (h : Heap) (x : Outcome (Throws (Buffer × Heap)))
    (f : Buffer × Heap → Outcome (Throws (Buffer × Heap))) (g : Gives cap c b h x)
    → Gives cap' c' g.buffer g.heap (f (g.buffer, g.heap))
    → Gives cap' c' b h (after x f (done thrown))
after-Gives cap cap' c c' b h x f g k = record {
  buffer = k.buffer;
  heap = k.heap;
  returns = ap (λ y. after y f (done thrown)) g.returns ∙ k.returns;
  holds = k.holds;
  source = λ p xs s. k.source p xs (g.source p xs s);
}

-- The same call and the same bytes, under other names.
pub recast-Gives :
    {cap cap' : ℕ} {c c' : Bytes} {b : Buffer} {h : Heap} {x x' : Outcome (Throws (Buffer × Heap))}
    → Gives cap c b h x
    → cap ≡ cap'
    → c ≡ c'
    → x' ≡ x
    → Gives cap' c' b h x'
recast-Gives g p q r = record {
  buffer = g.buffer;
  heap = g.heap;
  returns = r ∙ g.returns;
  holds = record {
    valid = g.holds.valid;
    capacity = g.holds.capacity ∙ p;
    held = g.holds.held ∙ q;
    owned = g.holds.owned;
  };
  source = g.source;
}

module _ (b : Buffer) (h : Heap) (v : IsValid b h) (owned : b.own_mem ≡ true) where
  -- A reallocation that keeps a part of what the buffer holds.
  pub kept-Gives :
      (n k : ℕ)
      → k ≤ b.index
      → k ≤ n
      → Gives n
          (take k (contents b h))
          b
          h
          (copy_bytes h.next 0 b.ptr 0 k (allocate n h) >>= λ h'. moved b h.next n k h')
  kept-Gives n k i l =
      recast-Gives
        (moved-Gives b h v owned (patch 0 (take k v.bytes) (replicate n none)) n k
          (omega (
            arith,
            length-patch 0 (take k v.bytes) (replicate n none),
            length-replicate {A = Option ℕ} n none,
            length-take k v.bytes,
            v.sized,
            v.room,
          ))
          l)
        refl same_bytes (ap (λ o. o >>= λ h'. moved b h.next n k h') (copied b h v n k i l))
    where
      same_bytes : take k (patch 0 (take k v.bytes) (replicate n none)) ≡ take k (contents b h)
      same_bytes = ground (
        arith,
        v.mapped,
        v.sized,
        v.room,
        length-take k v.bytes,
        take-patch 0 (take k v.bytes) (replicate n none),
        take-take k b.index v.bytes i,
      )

-- ===== src/Buffer/Calls.antt =====
-- What each call does to the bytes that a buffer holds.
use iouring_cc.Common.{
  ℕ, zero, suc, ◌-◌, ◌≤◌, ◌≡◌, ◌==◌, refl, sym, ap, ◌∙◌, min, [], ◌∷◌, none, some, true, false,
  Bool, Bool-cases, inl, inr, if◌then◌else◌, leb, ltb, arith, length, take, drop, replicate,
  length-take, length-drop, length-replicate,
}
use iouring_cc.Common.Outcome.{Outcome, done, ◌>>=◌}
use iouring_cc.Buffer.Memory.{
  Bytes, Heap, update, place, read_bytes, write_bytes, move_bytes, patch,
}
use iouring_cc.Buffer.{Buffer, Throws, returned, resize, set_capacity, consumefront, clear}
use iouring_cc.Buffer.Valid.{Source, take_all, take-take, take-patch, length-patch}
use iouring_cc.Buffer.Move.{Holds, Gives, moved-Gives, same-Gives, recast-Gives, kept-Gives}

abbrev pub consumed : Outcome (Buffer × Heap) → Outcome (Throws (Buffer × Heap))
consumed x = x >>= λ o. done (returned o)

take-min : (n : ℕ) (xs : Bytes) → take (min (length xs) n) xs ≡ take n xs
take-min n xs = elim (Bool-cases (leb n (length xs))) [
  | inl l ↦ ap (λ k. take k xs) (ground arith)
  | inr l ↦
      ap (λ k. take k xs) (ground arith)
      ∙ (take_all (length xs) xs (omega arith) ∙ sym (take_all n xs (ground arith)))
]

drop-take : (n m : ℕ) (xs : Bytes) → drop n (take m xs) ≡ take (m - n) (drop n xs)
drop-take zero m xs = ap (λ k. take k xs) (omega arith)
drop-take (suc n) zero [] = sym (take_all (zero - suc n) [] (omega arith))
drop-take (suc n) zero (x ∷ xs) =
    ap (λ k. take k (drop n xs)) {x = 0} {y = zero - suc n} (omega arith)
drop-take (suc n) (suc m) [] = sym (take_all (suc m - suc n) [] (omega arith))
drop-take (suc n) (suc m) (x ∷ xs) = drop-take n m xs ∙ ap (λ k. take k (drop n xs)) (omega arith)

drop_all : (n : ℕ) (xs : Bytes) → length xs ≤ n → drop n xs ≡ []
drop_all zero [] h = refl
drop_all zero (x ∷ xs) h = absurd (omega arith)
drop_all (suc n) [] h = refl
drop_all (suc n) (x ∷ xs) h = drop_all n xs (omega arith)

module _ (b : Buffer) (h : Heap) (cap : ℕ) (c : Bytes) (g : Holds cap c b h) where
  pub index_of : length c ≡ b.index
  index_of =
      ap length (sym g.held)
      ∙ ground
          (arith, g.valid.mapped, length-take b.index g.valid.bytes, g.valid.sized, g.valid.room)

  -- A block placed by the caller changes nothing for the buffer.
  pub placed-Holds : (xs : Bytes) → Holds cap c b (place xs h)
  placed-Holds xs = record {
    valid = record {
      bytes = g.valid.bytes;
      mapped = ground (arith, g.valid.mapped, g.valid.known);
      sized = g.valid.sized;
      room = g.valid.room;
      known = omega (arith, g.valid.known);
    };
    capacity = g.capacity;
    held = ground (arith, g.held, g.valid.known);
    owned = g.owned;
  }

  pub placed-Source : (xs : Bytes) → Source h.next xs b (place xs h)
  placed-Source xs = record {
    held = ground arith;
    apart = λ e. omega (arith, g.valid.known, e);
    before = omega arith;
  }

  -- Whatever grows is kept whole, or dropped.
  pub resize-Gives :
      (n : ℕ) (keep : Bool)
      → Gives
          (if ltb cap n then n else cap)
          (if ltb cap n then (if keep then c else []) else c)
          b
          h
          (resize n keep b h)
  unfolding resize
  resize-Gives n true = elim (Bool-cases (ltb cap n)) [
    | inl l ↦
        recast-Gives
          (kept-Gives b h g.valid g.owned n b.index (omega arith)
            (ground (arith, g.valid.sized, g.capacity)))
          (ground arith)
          (ground (arith, g.valid.mapped, g.held, take-take b.index b.index g.valid.bytes))
          (ground (arith, g.owned, g.capacity))
    | inr l ↦
        recast-Gives (same-Gives cap c b h g) (ground arith) (ground arith)
          (ground (arith, g.owned, g.capacity))
  ]
  resize-Gives n false = elim (Bool-cases (ltb cap n)) [
    | inl l ↦
        recast-Gives
          (moved-Gives b h g.valid g.owned (replicate n none) n 0 (length-replicate n none)
            (omega arith))
          (ground arith) (ground arith) (ground (arith, g.owned, g.capacity))
    | inr l ↦
        recast-Gives (same-Gives cap c b h g) (ground arith) (ground arith)
          (ground (arith, g.owned, g.capacity))
  ]

  pub set_capacity-Gives :
      (n : ℕ) (keep : Bool)
      → Gives
          (if n == cap then cap else n)
          (if n == cap then c else (if keep then take n c else []))
          b
          h
          (set_capacity n keep b h)
  unfolding set_capacity
  set_capacity-Gives n true = elim (Bool-cases (n == cap)) [
    | inr l ↦
        recast-Gives (kept-Gives b h g.valid g.owned n (min b.index n) (omega arith) (omega arith))
          (ground arith) (ground (arith, g.held, index_of, take-min n c))
          (ground (arith, g.owned, g.capacity))
    | inl l ↦
        recast-Gives (same-Gives cap c b h g) (ground arith) (ground arith)
          (ground (arith, g.owned, g.capacity))
  ]
  set_capacity-Gives n false = elim (Bool-cases (n == cap)) [
    | inr l ↦
        recast-Gives
          (moved-Gives b h g.valid g.owned (replicate n none) n 0 (length-replicate n none)
            (omega arith))
          (ground arith) (ground arith) (ground (arith, g.owned, g.capacity))
    | inl l ↦
        recast-Gives (same-Gives cap c b h g) (ground arith) (ground arith)
          (ground (arith, g.owned, g.capacity))
  ]

  pub clear-Gives : Gives cap [] b h (done (returned (clear b, h)))
  unfolding clear
  clear-Gives = record {
    buffer = clear b;
    heap = h;
    returns = refl;
    holds = record {
      valid = record {
        bytes = g.valid.bytes;
        mapped = g.valid.mapped;
        sized = omega arith;
        room = g.valid.room;
        known = g.valid.known;
      };
      capacity = g.capacity;
      held = ground (arith, g.valid.mapped);
      owned = g.owned;
    };
    source = λ p xs s. record { held = s.held; apart = s.apart; before = s.before };
  }

  pub consume-Gives :
      (n : ℕ) → n ≤ length c → Gives cap (drop n c) b h (consumed (consumefront n b h))
  unfolding consumefront move_bytes read_bytes write_bytes clear
  consume-Gives n l = elim (Bool-cases (ltb n b.index)) [
    | inl t ↦ record {
      buffer = record b { index = b.index - n };
      heap = record h { block = update h.block b.ptr (some (patch 0 rest g.valid.bytes)) };
      returns = ground (arith, g.valid.mapped, g.valid.sized, g.valid.room, index_of, length_rest);
      holds = record {
        valid = record {
          bytes = patch 0 rest g.valid.bytes;
          mapped = ground arith;
          sized = omega (arith, g.valid.sized);
          room = omega (arith, g.valid.room, length-patch 0 rest g.valid.bytes, length_rest);
          known = g.valid.known;
        };
        capacity = g.capacity;
        held = ground (
          arith,
          length_rest,
          take-patch 0 rest g.valid.bytes,
          drop-take n b.index g.valid.bytes,
          g.held,
          g.valid.mapped,
        );
        owned = g.owned;
      };
      source = λ p xs s. record {
        held = ground (arith, s.held, s.apart);
        apart = s.apart;
        before = s.before;
      };
    }
    | inr t ↦ recast-Gives clear-Gives refl (sym (drop_all n c (ground (arith, index_of)))) (
        ground (arith, index_of)
        ∙ ap (λ k. done (returned (record b { index = k }, h))) {x = b.index - n} {y = 0}
            (ground (arith, index_of)))
  ]
    where
      rest : Bytes
      rest = take (b.index - n) (drop n g.valid.bytes)

      length_rest : length rest ≡ b.index - n
      length_rest = omega (
        arith,
        length-take (b.index - n) (drop n g.valid.bytes),
        length-drop n g.valid.bytes,
        g.valid.sized,
        g.valid.room,
      )

-- ===== src/Buffer/Writes.antt =====
-- `assign` and `append` of a buffer that owns its memory.
use iouring_cc.Common.{
  ℕ, ◌+◌, ◌<◌, ◌≡◌, ◌==◌, ◌%◌, ◌^◌, refl, ap, ◌∙◌, max, [], ◌++◌, true, false, Bool-cases, inl, inr,
  if◌then◌else◌, ltb, arith, length, take,
}
use iouring_cc.Common.Outcome.{done, ◌>>=◌}
use iouring_cc.Buffer.Memory.{Bytes, Heap, copy_bytes}
use iouring_cc.Buffer.{Buffer, returned, thrown, after, resize, assign, append}
use iouring_cc.Buffer.Valid.{contents, Source, take_all}
use iouring_cc.Buffer.Move.{Holds, Gives, written-Gives, same-Gives, after-Gives, recast-Gives}
use iouring_cc.Buffer.Calls.{index_of, resize-Gives}

module _ (b : Buffer) (h : Heap) (cap : ℕ) (c : Bytes) (g : Holds cap c b h) where
  -- Room for so many bytes, without what the buffer held.
  roomy :
      (n : ℕ)
      → Gives
          (max cap n)
          (if ltb cap n then [] else c)
          b
          h
          (if ltb b.capacity n then resize n false b h else done (returned (b, h)))
  roomy n = elim (Bool-cases (ltb cap n)) [
    | inl l ↦
        recast-Gives (resize-Gives b h cap c g n false) (ground arith) (ground arith)
          (ground (arith, g.capacity))
    | inr l ↦
        recast-Gives (same-Gives cap c b h g) (ground arith) (ground arith)
          (ground (arith, g.capacity))
  ]

  pub assign-Gives :
      (p : ℕ) (xs : Bytes)
      → Source p xs b h
      → Gives
          (if length xs == 0 then cap else max cap (length xs))
          (if length xs == 0 then c else xs)
          b
          h
          (assign p 0 (length xs) b h)
  unfolding assign
  assign-Gives p xs s = elim (Bool-cases (length xs == 0)) [
    | inl z ↦ recast-Gives (same-Gives cap c b h g) (ground arith) (ground arith) (ground arith)
    | inr z ↦ recast-Gives some_bytes (ground arith) (ground arith) (ground arith)
  ]
    where
      grown : Gives (max cap (length xs)) (if ltb cap (length xs) then [] else c) b h (
          if ltb b.capacity (length xs)
          then resize (length xs) false b h
          else done (returned (b, h)))
      grown = roomy (length xs)

      some_bytes : Gives (max cap (length xs)) xs b h (
          after
            (if ltb b.capacity (length xs)
              then resize (length xs) false b h
              else done (returned (b, h)))
            (λ r. copy_bytes r.0.ptr 0 p 0 (length xs) r.1 >>= λ h'.
              done (returned (record r.0 { index = length xs }, h')))
            (done thrown))
      some_bytes = after-Gives (max cap (length xs)) (max cap (length xs)) _ xs b h _ _ grown (
          recast-Gives
            (written-Gives grown.buffer grown.heap grown.holds.valid grown.holds.owned 0 p xs
              (grown.source p xs s) (omega arith) (omega (arith, grown.holds.capacity)))
            grown.holds.capacity refl
            (ap
              (λ k. copy_bytes grown.buffer.ptr 0 p 0 (length xs) grown.heap >>= λ h'.
                done (returned (record grown.buffer { index = k }, h')))
              {x = length xs} {y = 0 + length xs} (omega arith)))

-- Appending where there is a byte to append.
append_some :
    (b : Buffer) (h : Heap) (cap : ℕ) (c : Bytes) (g : Holds cap c b h) (p : ℕ) (xs : Bytes)
    → Source p xs b h
    → length c + length xs < 2 ^ 64
    → Gives (max cap (length c + length xs)) (c ++ xs) b h (
        after
          (resize ((b.index + length xs) % 2 ^ 64) true b h)
          (λ r. copy_bytes r.0.ptr r.0.index p 0 (length xs) r.1 >>= λ h'.
            done (returned (record r.0 { index = (r.0.index + length xs) % 2 ^ 64 }, h')))
          (done thrown))
append_some b h cap c g p xs s fits =
    after-Gives (max cap (length c + length xs)) (max cap (length c + length xs)) c (c ++ xs) b h _
      _ grown
      (recast-Gives
        (written-Gives grown.buffer grown.heap grown.holds.valid grown.holds.owned
          grown.buffer.index p xs (grown.source p xs s) (omega arith)
          (omega (arith, grown.holds.capacity, same_index)))
        grown.holds.capacity whole
        (ap
          (λ k. copy_bytes grown.buffer.ptr grown.buffer.index p 0 (length xs) grown.heap >>= λ h'.
            done (returned (record grown.buffer { index = k }, h')))
          {x = (grown.buffer.index + length xs) % 2 ^ 64} {y = grown.buffer.index + length xs}
          (omega (arith, same_index, fits))))
  where
    grown :
        Gives
          (max cap (length c + length xs))
          c
          b
          h
          (resize ((b.index + length xs) % 2 ^ 64) true b h)
    grown =
        recast-Gives (resize-Gives b h cap c g (length c + length xs) true) (ground arith)
          (ground arith)
          (ap (λ n. resize n true b h) {x = (b.index + length xs) % 2 ^ 64}
            {y = length c + length xs} (omega (arith, index_of b h cap c g, fits)))

    same_index : length c ≡ grown.buffer.index
    same_index = index_of grown.buffer grown.heap (max cap (length c + length xs)) c grown.holds

    whole : take grown.buffer.index (contents grown.buffer grown.heap) ++ xs ≡ c ++ xs
    whole =
        ap (λ l. take grown.buffer.index l ++ xs) grown.holds.held
        ∙ ap (λ l. l ++ xs) (take_all grown.buffer.index c (omega (arith, same_index)))

pub append-Gives :
    (b : Buffer) (h : Heap) (cap : ℕ) (c : Bytes) (g : Holds cap c b h) (p : ℕ) (xs : Bytes)
    → Source p xs b h
    → length c + length xs < 2 ^ 64
    → Gives
        (if length xs == 0 then cap else max cap (length c + length xs))
        (if length xs == 0 then c else c ++ xs)
        b
        h
        (append p 0 (length xs) b h)
unfolding append
append-Gives b h cap c g p xs s fits = elim (Bool-cases (length xs == 0)) [
  | inl z ↦ recast-Gives (same-Gives cap c b h g) (ground arith) (ground arith) (ground arith)
  | inr z ↦
      recast-Gives (append_some b h cap c g p xs s fits) (ground arith) (ground arith)
        (ground arith)
]

-- ===== src/Buffer/Valid.antt =====
-- The invariant of a buffer in memory, and what it holds.
use iouring_cc.Common.{
  ℕ, zero, suc, ◌+◌, ◌≤◌, ◌<◌, ◌≡◌, ◌≢◌, refl, ap, ◌∙◌, [], ◌∷◌, ◌++◌, Option, none, some, arith,
  length, take, drop, length-append, length-take, length-drop,
}
use iouring_cc.Buffer.Memory.{Bytes, Heap, patch}
use iouring_cc.Buffer.{Buffer}

-- The block has room for the capacity, and the capacity for the size; no block is numbered ahead.
pub record IsValid (b : Buffer) (h : Heap) : Type 0 where
  pub bytes : Bytes
  pub mapped : h.block b.ptr ≡ some bytes
  pub sized : b.index ≤ b.capacity
  pub room : b.capacity ≤ length bytes
  pub known : b.ptr < h.next

abbrev pub taken : ℕ → Option Bytes → Bytes
taken n none = []
taken n (some bs) = take n bs

-- The bytes that a buffer holds.
abbrev pub contents : Buffer → Heap → Bytes
contents b h = taken b.index (h.block b.ptr)

-- A caller's memory, apart from the buffer's.
pub record Source (p : ℕ) (xs : Bytes) (b : Buffer) (h : Heap) : Type 0 where
  pub held : h.block p ≡ some xs
  pub apart : p ≢ b.ptr
  pub before : p < h.next

pub take_all : (n : ℕ) (xs : Bytes) → length xs ≤ n → take n xs ≡ xs
take_all zero [] h = refl
take_all zero (x ∷ xs) h = absurd (omega arith)
take_all (suc n) [] h = refl
take_all (suc n) (x ∷ xs) h = ap (λ l. x ∷ l) (take_all n xs (omega arith))

pub take-append_le : (n : ℕ) (xs ys : Bytes) → n ≤ length xs → take n (xs ++ ys) ≡ take n xs
take-append_le zero xs ys h = refl
take-append_le (suc n) [] ys h = absurd (omega arith)
take-append_le (suc n) (x ∷ xs) ys h = ap (λ l. x ∷ l) (take-append_le n xs ys (omega arith))

pub take-append_exact :
    (n m : ℕ) (xs ys : Bytes) → n ≡ length xs + m → take n (xs ++ ys) ≡ xs ++ take m ys
take-append_exact n m [] ys h = ap (λ k. take k ys) (omega (arith, h))
take-append_exact zero m (x ∷ xs) ys h = absurd (omega (arith, h))
take-append_exact (suc n) m (x ∷ xs) ys h =
    ap (λ l. x ∷ l) (take-append_exact n m xs ys (omega (arith, h)))

pub take-take : (n m : ℕ) (xs : Bytes) → n ≤ m → take n (take m xs) ≡ take n xs
take-take zero m xs h = refl
take-take (suc n) zero xs h = absurd (omega arith)
take-take (suc n) (suc m) [] h = refl
take-take (suc n) (suc m) (x ∷ xs) h = ap (λ l. x ∷ l) (take-take n m xs (omega arith))

-- Writing after a prefix leaves the prefix, and the bytes written follow it.
pub take-patch :
    (off : ℕ) (xs bs : Bytes)
    → off ≤ length bs
    → take (off + length xs) (patch off xs bs) ≡ take off bs ++ xs
take-patch off xs bs h =
    take-append_exact (off + length xs) (length xs) (take off bs) (xs ++ drop (off + length xs) bs)
      (omega (arith, length-take off bs))
    ∙ ap (λ l. take off bs ++ l)
        (take-append_le (length xs) xs (drop (off + length xs) bs) (omega arith)
          ∙ take_all (length xs) xs (omega arith))

pub length-patch :
    (off : ℕ) (xs bs : Bytes) → off + length xs ≤ length bs → length (patch off xs bs) ≡ length bs
length-patch off xs bs h = omega (
  arith,
  length-append (take off bs) (xs ++ drop (off + length xs) bs),
  length-append xs (drop (off + length xs) bs),
  length-take off bs,
  length-drop (off + length xs) bs,
)

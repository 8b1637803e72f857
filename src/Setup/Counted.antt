-- ===== src/Setup/Counted.antt =====
-- The two vectors of `IouringStats`.
use iouring_cc.Common.{
  false, ℕ, zero, suc, ◌+◌, ◌%◌, ◌^◌, ◌==◌, ◌≤◌, ◌<◌, ◌≡◌, refl, ◌∙◌, List, [], ◌∷◌, length,
  length-set, some, arith, get_elem?, bit_and,
}
use iouring_cc.Common.Safely.{Safely, Ends->>=, Ends-weaken, Ends-if}
use iouring_cc.Setup.Stats.{IouringStats, counted_at, count_flags, update_sqe_stats}

-- As long as before.
abbrev AsLong : List ℕ → List ℕ → Type 0
AsLong xs ys = length ys ≡ length xs

found : (xs : List ℕ) (i : ℕ) → i < length xs → (n : ℕ) × (get_elem? xs i ≡ some n)
found [] i h = elim h [ ]
found (x ∷ xs) zero h = (x, refl)
found (x ∷ xs) (suc i) h = found xs i (omega arith)

counted_at-AsLong : (i : ℕ) (xs : List ℕ) → i < length xs → Safely (AsLong xs) (counted_at i xs)
counted_at-AsLong i xs h =
    let (n, e) = found xs i h in rw (e, counted_at) (length-set xs i ((n + 1) % 2 ^ 32))

count_flags-AsLong :
    (n i flags : ℕ) (xs : List ℕ)
    → i + n ≤ length xs
    → Safely (AsLong xs) (count_flags n i flags xs)
unfolding count_flags
count_flags-AsLong zero i flags xs h = refl
count_flags-AsLong (suc n) i flags xs h =
    Ends-if false (AsLong xs) (bit_and flags (2 ^ i) == 0) _ _
      (λ e. count_flags-AsLong n (i + 1) flags xs (omega arith))
      (λ e.
        Ends->>= false (AsLong xs) (AsLong xs) (counted_at i xs) _
          (counted_at-AsLong i xs (omega arith))
          (λ ys k.
            Ends-weaken false (AsLong ys) (AsLong xs) _
              (count_flags-AsLong n (i + 1) flags ys (omega arith)) (λ zs m. m ∙ k)))

-- The vectors have their lengths.
abbrev pub Sized : ℕ → IouringStats → Type 0
Sized op_last s = (length s.sqe_flags ≡ 8) × (length s.ops ≡ op_last)

-- With an operation that liburing knows, `UpdateSqeStats` writes within its vectors, whatever flags
-- the entry has, and leaves their lengths.
pub update_sqe_stats-Sized :
    (op_last opcode flags : ℕ) (s : IouringStats)
    → Sized op_last s
    → opcode < op_last
    → Safely (Sized op_last) (update_sqe_stats opcode flags s)
unfolding update_sqe_stats
update_sqe_stats-Sized op_last opcode flags s (f, o) h =
    Ends->>= false (AsLong s.ops) (Sized op_last) (counted_at opcode s.ops) _
      (counted_at-AsLong opcode s.ops (omega arith))
      (λ ops k.
        Ends->>= false (AsLong s.sqe_flags) (Sized op_last) (count_flags 8 0 flags s.sqe_flags) _
          (count_flags-AsLong 8 0 flags s.sqe_flags (omega arith)) (λ fs m. (m ∙ f, k ∙ o)))

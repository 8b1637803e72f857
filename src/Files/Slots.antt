-- ===== src/Files/Slots.antt =====
-- Laws of the slots of the file table.
use iouring_cc.Common.{
  ℕ, zero, suc, ◌≤◌, ◌<◌, ◌≡◌, refl, ap, ◌≢◌, some, List, [], ◌∷◌, if◌then◌else◌, length, get_elem?,
  set, replicate, arith,
}
use iouring_cc.Common.Int.{ℤ, eqb_ℤ, eqb_ℤ_iff}
use iouring_cc.Files.Table.{invalid_id, claim}

-- The number of slots that hold a descriptor.
pub used : List ℤ → ℕ
used [] = 0
used (x ∷ xs) = if eqb_ℤ x invalid_id then used xs else suc (used xs)

pub used-le-length : (xs : List ℤ) → used xs ≤ length xs
unfolding used
used-le-length [] = omega arith
used-le-length (x ∷ xs) = ground (arith, used-le-length xs)

pub used-replicate : (n : ℕ) → used (replicate n invalid_id) ≡ 0
unfolding used
used-replicate zero = refl
used-replicate (suc n) = used-replicate n

-- `Add` writes one slot, and no other.
pub claim-eq-set : (fd : ℤ) (xs : List ℤ) → (claim fd xs).1 ≡ set xs (claim fd xs).0 fd
unfolding claim
claim-eq-set fd [] = refl
claim-eq-set fd (x ∷ xs) = ground (arith, claim-eq-set fd xs)

-- While a slot is free `Add` finds one, and it is free.
pub claim-free :
    (fd : ℤ) (xs : List ℤ) → used xs < length xs → get_elem? xs (claim fd xs).0 ≡ some invalid_id
unfolding claim used
claim-free fd [] h = absurd (omega arith)
claim-free fd (x ∷ xs) h = ground (arith, eqb_ℤ_iff x invalid_id, claim-free fd xs)

-- Otherwise the index is the number of slots.
pub claim-full : (fd : ℤ) (xs : List ℤ) → used xs ≡ length xs → (claim fd xs).0 ≡ length xs
unfolding claim used
claim-full fd [] h = refl
claim-full fd (x ∷ xs) h = ground (arith, claim-full fd xs, used-le-length xs)

pub used-set_free :
    (xs : List ℤ) (i : ℕ) (fd : ℤ)
    → get_elem? xs i ≡ some invalid_id
    → fd ≢ invalid_id
    → used (set xs i fd) ≡ suc (used xs)
unfolding used
used-set_free [] i fd h n = ground arith
used-set_free (x ∷ xs) zero fd h n = ground (arith, eqb_ℤ_iff x invalid_id, eqb_ℤ_iff fd invalid_id)
used-set_free (x ∷ xs) (suc i) fd h n = ground (arith, used-set_free xs i fd h n)

pub used-set_invalid :
    (xs : List ℤ) (i : ℕ) (fd : ℤ)
    → get_elem? xs i ≡ some fd
    → fd ≢ invalid_id
    → used xs ≡ suc (used (set xs i invalid_id))
unfolding used
used-set_invalid [] i fd h n = ground arith
used-set_invalid (x ∷ xs) zero fd h n =
    ground (arith, eqb_ℤ_iff x invalid_id, eqb_ℤ_iff fd invalid_id)
used-set_invalid (x ∷ xs) (suc i) fd h n = ground (arith, used-set_invalid xs i fd h n)

pub set-set_back :
    (xs : List ℤ) (i : ℕ) (v w : ℤ) → get_elem? xs i ≡ some w → set (set xs i v) i w ≡ xs
set-set_back [] i v w h = refl
set-set_back (x ∷ xs) zero v w h = ground arith
set-set_back (x ∷ xs) (suc i) v w h = ap (λ ys. x ∷ ys) (set-set_back xs i v w h)

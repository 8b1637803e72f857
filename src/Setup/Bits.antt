-- ===== src/Setup/Bits.antt =====
-- Bits of the native natural numbers: `bit_or`, shifts, and runs of ones.
use Prim.Native.Nat.{digits, bit_or-bitwise}
use iouring_cc.Common.{
  ℕ, zero, suc, ◌+◌, ◌*◌, ◌/◌, ◌%◌, ◌^◌, ◌≤◌, ◌<◌, ◌≡◌, refl, ap, ◌∙◌, max, bit_or, arith,
}

or_digits : ℕ → ℕ → ℕ → ℕ
or_digits n a b = digits (λ b. b) max n a b

or_digits_fuel : (n m a b : ℕ) → a ≤ n → a ≤ m → or_digits n a b ≡ or_digits m a b
unfolding or_digits
or_digits_fuel zero zero a b p q = refl
or_digits_fuel zero (suc m) zero b p q = refl
or_digits_fuel zero (suc m) (suc a) b p q = absurd (omega arith)
or_digits_fuel (suc n) zero zero b p q = refl
or_digits_fuel (suc n) zero (suc a) b p q = absurd (omega arith)
or_digits_fuel (suc n) (suc m) zero b p q = refl
or_digits_fuel (suc n) (suc m) (suc a) b p q =
    omega (arith, or_digits_fuel n m (suc a / 2) (b / 2) (omega arith) (omega arith))

zero-bit_or : (b : ℕ) → bit_or 0 b ≡ b
zero-bit_or b = bit_or-bitwise 0 b

bit_or_step : (a b : ℕ) → bit_or a b ≡ bit_or (a / 2) (b / 2) * 2 + max (a % 2) (b % 2)
unfolding or_digits
bit_or_step zero b = omega (arith, zero-bit_or b, zero-bit_or (b / 2))
bit_or_step (suc a) b = omega (
  arith,
  bit_or-bitwise (suc a) b,
  bit_or-bitwise (suc a / 2) (b / 2),
  or_digits_fuel a (suc a / 2) (suc a / 2) (b / 2) (omega arith) (omega arith),
)

bit_or-half : (a b : ℕ) → bit_or a b / 2 ≡ bit_or (a / 2) (b / 2)
bit_or-half a b = omega (arith, bit_or_step a b)

-- A shift to the right, a number of ones, and ones behind a number.
unfoldable pub shift : ℕ → ℕ → ℕ
shift zero n = n
shift (suc t) n = shift t (n / 2)

unfoldable pub ones : ℕ → ℕ
ones zero = 0
ones (suc w) = ones w * 2 + 1

pub fill : ℕ → ℕ → ℕ
fill zero x = x
fill (suc w) x = fill w x * 2 + 1

pub shift-bit_or : (t a b : ℕ) → shift t (bit_or a b) ≡ bit_or (shift t a) (shift t b)
unfolding shift
shift-bit_or zero a b = refl
shift-bit_or (suc t) a b = ap (shift t) (bit_or-half a b) ∙ shift-bit_or t (a / 2) (b / 2)

pub shift-shift : (s t n : ℕ) → shift s (shift t n) ≡ shift (t + s) n
unfolding shift
shift-shift s zero n = ap (λ k. shift k n) {x = s} {y = 0 + s} (omega arith)
shift-shift s (suc t) n =
    shift-shift s t (n / 2) ∙ ap (λ k. shift k n) {x = suc (t + s)} {y = suc t + s} (omega arith)

pub shift-zero : (t : ℕ) → shift t 0 ≡ 0
unfolding shift
shift-zero zero = refl
shift-zero (suc t) = shift-zero t

pub shift-ones : (d k : ℕ) → shift d (ones (d + k)) ≡ ones k
unfolding shift ones
shift-ones zero k = ap ones {x = 0 + k} {y = k} (omega arith)
shift-ones (suc d) k =
    ap (λ m. shift d (ones m / 2)) {x = suc d + k} {y = suc (d + k)} (omega arith)
    ∙ ap (shift d) {x = (ones (d + k) * 2 + 1) / 2} {y = ones (d + k)} (omega arith)
    ∙ shift-ones d k

pub bit_or-zero : (n a : ℕ) → a ≤ n → bit_or a 0 ≡ a
bit_or-zero n zero l = refl
bit_or-zero zero (suc a) l = absurd (omega arith)
bit_or-zero (suc n) (suc a) l =
    omega (arith, bit_or_step (suc a) 0, bit_or-zero n (suc a / 2) (omega arith))

pub bit_or-ones : (w a : ℕ) → bit_or a (ones w) ≡ fill w (shift w a)
unfolding shift ones fill
bit_or-ones zero a = bit_or-zero a a (omega arith)
bit_or-ones (suc w) a = omega (
  arith,
  bit_or_step a (ones w * 2 + 1),
  ap (bit_or (a / 2)) {x = (ones w * 2 + 1) / 2} {y = ones w} (omega arith),
  bit_or-ones w (a / 2),
)

pub fill-ones : (w v : ℕ) → fill w (ones v) ≡ ones (w + v)
unfolding fill ones
fill-ones zero v = ap ones {x = v} {y = 0 + v} (omega arith)
fill-ones (suc w) v =
    ap (λ x. x * 2 + 1) (fill-ones w v) ∙ ap ones {x = suc (w + v)} {y = suc w + v} (omega arith)

pub below_bit_or : (n a b : ℕ) → a ≤ n → a ≤ bit_or a b
below_bit_or zero zero b l = omega arith
below_bit_or zero (suc a) b l = absurd (omega arith)
below_bit_or (suc n) zero b l = omega arith
below_bit_or (suc n) (suc a) b l =
    omega (arith, bit_or_step (suc a) b, below_bit_or n (suc a / 2) (b / 2) (omega arith))

pub ones-power : (k : ℕ) → ones k + 1 ≡ 2 ^ k
unfolding ones
ones-power zero = refl
ones-power (suc k) = omega (arith, ones-power k)

pub shift_small : (k n : ℕ) → n < 2 ^ k → shift k n ≡ 0
unfolding shift
shift_small zero n l = omega arith
shift_small (suc k) n l = shift_small k (n / 2) (omega arith)

pub shift_le : (t n : ℕ) → shift t n ≤ n
unfolding shift
shift_le zero n = omega arith
shift_le (suc t) n = omega (arith, shift_le t (n / 2))

-- ===== src/Setup/Power.antt =====
-- `round_up_power_of_two` of iouring/io_uring_utils.h fills the bits below the highest one.
use iouring_cc.Common.{
  ℕ, zero, suc, ◌+◌, ◌-◌, ◌*◌, ◌/◌, ◌%◌, ◌^◌, ◌≤◌, ◌<◌, ◌≡◌, ◌⊎◌, inl, inr, refl, sym, ap, ◌∙◌,
  subst, bit_or, arith, true, Bool-cases, ltb,
}
use iouring_cc.Setup.Params.{round_up_power_of_two}
use iouring_cc.Setup.Bits.{
  shift, ones, fill, shift-bit_or, shift-shift, shift-zero, shift-ones, bit_or-zero, bit_or-ones,
  fill-ones, below_bit_or, ones-power, shift_small, shift_le,
}

-- At least the highest `w` bits are set, or all are.
Top : ℕ → ℕ → Type 0
Top w n = ((t : ℕ) × (shift t n ≡ ones w)) ⊎ ((l : ℕ) × (n ≡ ones l))

highest : (n a : ℕ) → a ≤ n → 0 < a → (t : ℕ) × (shift t a ≡ 1)
unfolding shift
highest n zero l p = absurd (omega arith)
highest n (suc zero) l p = (0, refl)
highest zero (suc (suc a)) l p = absurd (omega arith)
highest (suc n) (suc (suc a)) l p =
    let (t, e) = highest n (suc (suc a) / 2) (omega arith) (omega arith) in (suc t, e)

shift-ones_all : (w l : ℕ) → shift w (ones l) ≡ ones (l - w)
unfolding shift ones
shift-ones_all zero l = ap ones {x = l} {y = l - 0} (omega arith)
shift-ones_all (suc w) zero = shift-zero (suc w) ∙ ap ones {x = 0} {y = 0 - suc w} (omega arith)
shift-ones_all (suc w) (suc l) =
    ap (shift w) {x = (ones l * 2 + 1) / 2} {y = ones l} (omega arith)
    ∙ shift-ones_all w l
    ∙ ap ones {x = l - w} {y = suc l - suc w} (omega arith)

bit_or-ones_below : (l k : ℕ) → k ≤ l → bit_or (ones l) (ones k) ≡ ones l
bit_or-ones_below l k h =
    bit_or-ones k (ones l)
    ∙ ap (fill k) (shift-ones_all k l)
    ∙ fill-ones k (l - k)
    ∙ ap ones {x = k + (l - k)} {y = l} (omega arith)

doubled-Top : (w n : ℕ) → Top w n → Top (w + w) (bit_or n (shift w n))
unfolding Top
doubled-Top w n (inl (t, e)) = elim (Bool-cases (ltb t w)) [
  | inr far ↦ inl (
    t - w,
    shift-bit_or (t - w) n (shift w n)
        ∙ ap (bit_or (shift (t - w) n)) (
            shift-shift (t - w) w n
            ∙ ap (λ k. shift k n) {x = w + (t - w)} {y = t} (ground arith)
            ∙ e)
        ∙ bit_or-ones w (shift (t - w) n)
        ∙ ap (fill w) (
            shift-shift w (t - w) n
            ∙ ap (λ k. shift k n) {x = t - w + w} {y = t} (ground arith)
            ∙ e)
        ∙ fill-ones w w,
  )
  | inl near ↦
      inr (t + w, ap (bit_or n) (low near) ∙ bit_or-ones t n ∙ ap (fill t) e ∙ fill-ones t w)
]
  where
    low : ltb t w ≡ true → shift w n ≡ ones t
    low near =
        ap (λ k. shift k n) {x = w} {y = t + (w - t)} (ground arith)
        ∙ sym (shift-shift (w - t) t n)
        ∙ ap (shift (w - t)) (e ∙ ap ones {x = w} {y = w - t + t} (ground arith))
        ∙ shift-ones (w - t) t
doubled-Top w n (inr (l, e)) = inr (
  l,
  ap (λ m. bit_or m (shift w m)) e
      ∙ ap (bit_or (ones l)) (shift-ones_all w l)
      ∙ bit_or-ones_below l (l - w) (omega arith),
)

-- What the first `w` bits of the number have become.
record Stage (n w m : ℕ) : Type 0 where
  top : Top w m
  bounded : (k : ℕ) → shift k n ≡ 0 → shift k m ≡ 0
  above : n ≤ m

first-Stage : (n : ℕ) → Stage n 1 n ⊎ (n ≡ 0)
unfolding Top ones
first-Stage zero = inr refl
first-Stage (suc n) = inl (record {
  top = inl (highest (suc n) (suc n) (omega arith) (omega arith));
  bounded = λ k e. e;
  above = omega arith;
})

next-Stage : (n w m x : ℕ) → x ≡ shift w m → Stage n w m → Stage n (w + w) (bit_or m x)
next-Stage n w m x e s = record {
  top = subst (λ y. Top (w + w) (bit_or m y)) (sym e) (doubled-Top w m s.top);
  bounded = λ k z.
      ap (λ y. shift k (bit_or m y)) e
      ∙ shift-bit_or k m (shift w m)
      ∙ ap (bit_or (shift k m)) (
          shift-shift k w m
          ∙ ap (λ j. shift j m) {x = w + k} {y = k + w} (omega arith)
          ∙ sym (shift-shift w k m)
          ∙ ap (shift w) (s.bounded k z)
          ∙ shift-zero w)
      ∙ bit_or-zero (shift k m) (shift k m) (omega arith)
      ∙ s.bounded k z;
  above = omega (arith, s.above, below_bit_or m m x (omega arith));
}

shift_none : (k m : ℕ) → shift k m ≡ 0 → m < 2 ^ k
unfolding shift
shift_none zero m e = omega (arith, e)
shift_none (suc k) m e = omega (arith, shift_none k (m / 2) e)

all_set : (m : ℕ) → Top 32 m → m < 2 ^ 32 → (l : ℕ) × (m ≡ ones l)
unfolding Top shift ones
all_set m (inr s) h = s
all_set m (inl (zero, e)) h = (32, e)
all_set m (inl (suc t, e)) h = absurd (omega (arith, e, shift_le t (m / 2), h))

-- The ones reach no higher than the highest bit.
no_higher : (n w m l : ℕ) → Stage n w m → m ≡ ones l → 2 ^ l < suc n + suc n
unfolding ones
no_higher n w m zero s e = omega arith
no_higher n w m (suc j) s e = elim (Bool-cases (ltb n (2 ^ j))) [
  | inl b ↦
      (let z = s.bounded j (shift_small j n (ground arith)) in
        let o = ap (shift j) (e ∙ ap ones {x = suc j} {y = j + 1} (omega arith)) ∙ shift-ones j 1 in
        absurd (omega (arith, z, o)))
  | inr b ↦ ground arith
]

-- The shifts of the code.
shift_one : (m : ℕ) → m / 2 ^ 1 ≡ shift 1 m
unfolding shift
shift_one m = refl

shift_two : (m : ℕ) → m / 2 ^ 2 ≡ shift 2 m
unfolding shift
shift_two m = omega arith

shift_four : (m : ℕ) → m / 2 ^ 4 ≡ shift 4 m
unfolding shift
shift_four m = omega arith

shift_eight : (m : ℕ) → m / 2 ^ 8 ≡ shift 8 m
unfolding shift
shift_eight m = omega arith

shift_sixteen : (m : ℕ) → m / 2 ^ 16 ≡ shift 16 m
unfolding shift
shift_sixteen m = omega arith

-- One step of the code.
abbrev smear : ℕ → ℕ → ℕ
smear w m = bit_or m (m / 2 ^ w)

smeared : ℕ → ℕ
smeared n = smear 16 (smear 8 (smear 4 (smear 2 (smear 1 n))))

smeared-Stage : (n : ℕ) → Stage n 1 n → Stage n 32 (smeared n)
unfolding smeared
smeared-Stage n s = next-Stage n 16 _ _ (shift_sixteen _) (
    next-Stage n 8 _ _ (shift_eight _) (
      next-Stage n 4 _ _ (shift_four _)
        (next-Stage n 2 _ _ (shift_two _) (next-Stage n 1 n _ (shift_one n) s))))

computed : (num : ℕ) → 0 < num → round_up_power_of_two num ≡ (smeared (num - 1) + 1) % 2 ^ 32
unfolding round_up_power_of_two smeared
computed num p = ground arith

rounded :
    (num : ℕ)
    → 0 < num
    → num < 2 ^ 32
    → Stage (num - 1) 1 (num - 1)
    → (l : ℕ) × (round_up_power_of_two num ≡ 2 ^ l % 2 ^ 32) × (num ≤ 2 ^ l) × (2 ^ l < num + num)
rounded num p h s0 =
    let s = smeared-Stage (num - 1) s0 in
    let m = smeared (num - 1) in
    let (l, e) =
      all_set m s.top (shift_none 32 m (s.bounded 32 (shift_small 32 (num - 1) (omega arith)))) in
    (
      l,
      computed num p ∙ ap (λ k. k % 2 ^ 32) (ap (λ k. k + 1) e ∙ ones-power l),
      omega (arith, s.above, e, ones-power l),
      omega (arith, no_higher (num - 1) 32 m l s e),
    )

-- Of a positive number of 32 bits the result is the least power of two that is not less than it, and
-- 0 where that power is 2^32.
pub round_up_power_of_two_least :
    (num : ℕ)
    → 0 < num
    → num < 2 ^ 32
    → (l : ℕ) × (round_up_power_of_two num ≡ 2 ^ l % 2 ^ 32) × (num ≤ 2 ^ l) × (2 ^ l < num + num)
unfolding round_up_power_of_two
round_up_power_of_two_least num p h = elim (first-Stage (num - 1)) [
  | inl s ↦ rounded num p h s
  | inr z ↦ (
    0,
    ap round_up_power_of_two {x = num} {y = 1} (omega (arith, z)),
    omega (arith, z),
    omega arith,
  )
]

-- ===== src/Files/Entries.antt =====
-- Laws of the map of the file table.
use iouring_cc.Common.{ℕ, suc, ◌≡◌, refl, ◌≢◌, none, some, List, [], ◌∷◌, length, arith}
use iouring_cc.Common.Int.{ℤ, eqb_ℤ_iff, eqb_ℤ_refl}
use iouring_cc.Files.Table.{find, erase}

-- No key occurs twice.
abbrev pub Distinct : List (ℤ × ℕ) → Type 0
Distinct [] = Unit {0}
Distinct ((k, i) ∷ m) = (find k m ≡ none) × Distinct m

pub find-cons_self : (fd : ℤ) (i : ℕ) (m : List (ℤ × ℕ)) → find fd ((fd, i) ∷ m) ≡ some i
unfolding find
find-cons_self fd i m = ground (arith, eqb_ℤ_refl fd)

pub find-cons_ne : (fd k : ℤ) (i : ℕ) (m : List (ℤ × ℕ)) → k ≢ fd → find fd ((k, i) ∷ m) ≡ find fd m
unfolding find
find-cons_ne fd k i m h = ground (arith, eqb_ℤ_iff k fd)

pub erase-cons_self : (fd : ℤ) (i : ℕ) (m : List (ℤ × ℕ)) → erase fd ((fd, i) ∷ m) ≡ m
unfolding erase
erase-cons_self fd i m = ground (arith, eqb_ℤ_refl fd)

pub erase-cons_ne :
    (fd k : ℤ) (i : ℕ) (m : List (ℤ × ℕ)) → k ≢ fd → erase fd ((k, i) ∷ m) ≡ (k, i) ∷ erase fd m
unfolding erase
erase-cons_ne fd k i m h = ground (arith, eqb_ℤ_iff k fd)

pub find-erase_self : (fd : ℤ) (m : List (ℤ × ℕ)) → Distinct m → find fd (erase fd m) ≡ none
unfolding find erase
find-erase_self fd [] d = refl
find-erase_self fd ((k, i) ∷ m) d = ground (arith, eqb_ℤ_iff k fd, find-erase_self fd m d.1)

pub find-erase_ne : (fd k : ℤ) (m : List (ℤ × ℕ)) → k ≢ fd → find k (erase fd m) ≡ find k m
unfolding find erase
find-erase_ne fd k [] h = refl
find-erase_ne fd k ((j, i) ∷ m) h =
    ground (arith, eqb_ℤ_iff j fd, eqb_ℤ_iff j k, find-erase_ne fd k m h)

pub erase_absent : (fd : ℤ) (m : List (ℤ × ℕ)) → find fd m ≡ none → erase fd m ≡ m
unfolding find erase
erase_absent fd [] h = refl
erase_absent fd ((k, i) ∷ m) h = ground (arith, eqb_ℤ_iff k fd, erase_absent fd m)

pub length-erase :
    (fd : ℤ) (i : ℕ) (m : List (ℤ × ℕ)) → find fd m ≡ some i → length m ≡ suc (length (erase fd m))
unfolding find erase
length-erase fd i [] h = ground arith
length-erase fd i ((k, j) ∷ m) h = ground (arith, eqb_ℤ_iff k fd, length-erase fd i m)

find-erase-none : (fd k : ℤ) (m : List (ℤ × ℕ)) → find k m ≡ none → find k (erase fd m) ≡ none
unfolding find erase
find-erase-none fd k [] h = refl
find-erase-none fd k ((j, i) ∷ m) h =
    ground (arith, eqb_ℤ_iff j fd, eqb_ℤ_iff j k, find-erase-none fd k m)

pub erase-Distinct : (fd : ℤ) (m : List (ℤ × ℕ)) → Distinct m → Distinct (erase fd m)
unfolding erase
erase-Distinct fd [] d = tt
erase-Distinct fd ((k, i) ∷ m) d =
    ground (arith, eqb_ℤ_iff k fd, erase-Distinct fd m d.1, find-erase-none fd k m d.0)

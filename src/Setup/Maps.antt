-- ===== src/Setup/Maps.antt =====
-- Maps by group with one entry for each.
use iouring_cc.Common.{
  ◌||◌, ◌≡◌, refl, sym, ◌∙◌, subst, Bool, true, false, List, [], ◌∷◌, arith, if◌then◌else◌,
  Bool-cases, inl, inr,
}
use iouring_cc.Common.Int.{ℤ, eqb_ℤ, ltb_ℤ, eqb_ℤ_iff}
use iouring_cc.Completion.{invalid_gid}
use iouring_cc.Setup.Params.{has_group, erase_group, emplace_group}

-- No group twice.
abbrev pub Distinct : {V : Type 0} → List (ℤ × V) → Type 0
Distinct [] = true ≡ true
Distinct ((g, v) ∷ rest) = (has_group g rest ≡ false) × Distinct rest

pub eqb_ℤ_sym_false : (a b : ℤ) → eqb_ℤ a b ≡ false → eqb_ℤ b a ≡ false
eqb_ℤ_sym_false a b e = elim (Bool-cases (eqb_ℤ b a)) [
  | inl t ↦ (let q = (eqb_ℤ_iff b a).0 t in let r = (eqb_ℤ_iff a b).1 (sym q) in cc)
  | inr f ↦ f
]

pub has_group-emplace_group :
    {V : Type 0} (h g : ℤ) (x : V) (l : List (ℤ × V))
    → has_group h (emplace_group g x l) ≡ (eqb_ℤ g h || has_group h l)
unfolding has_group emplace_group
has_group-emplace_group h g x [] = ground arith
has_group-emplace_group h g x ((k, v) ∷ rest) =
    let i = has_group-emplace_group h g x rest in ground arith

pub if-Distinct :
    {V : Type 0} (b : Bool) (l m : List (ℤ × V))
    → Distinct l
    → Distinct m
    → Distinct (if b then l else m)
if-Distinct true l m d e = d
if-Distinct false l m d e = e

-- The group at the front is another, and the rest has not the group either.
pub not_front :
    {V : Type 0} (g k : ℤ) (v : V) (rest : List (ℤ × V))
    → has_group g ((k, v) ∷ rest) ≡ false
    → (eqb_ℤ k g ≡ false) × (has_group g rest ≡ false)
unfolding has_group
not_front g k v rest n = elim (Bool-cases (eqb_ℤ k g)) [
  | inl t ↦ absurd (ground (arith, n))
  | inr f ↦ (f, ground (arith, n))
]

pub emplace_group-Distinct :
    {V : Type 0} (g : ℤ) (x : V) (l : List (ℤ × V))
    → has_group g l ≡ false
    → Distinct l
    → Distinct (emplace_group g x l)
unfolding emplace_group has_group
emplace_group-Distinct g x [] n d = (refl, refl)
emplace_group-Distinct g x ((k, v) ∷ rest) n d =
    let (other, absent) = not_front g k v rest n in
    if-Distinct (ltb_ℤ g k) _ _ (n, d)
      (
        has_group-emplace_group k g x rest
            ∙ (let f = eqb_ℤ_sym_false k g other in let a = d.0 in ground arith),
        emplace_group-Distinct g x rest absent d.1,
      )

pub has_group-erase_group :
    {V : Type 0} (h g : ℤ) (l : List (ℤ × V))
    → has_group h l ≡ false
    → has_group h (erase_group g l) ≡ false
unfolding has_group erase_group
has_group-erase_group h g [] n = refl
has_group-erase_group h g ((k, v) ∷ rest) n =
    let (other, absent) = not_front h k v rest n in
    let i = has_group-erase_group h g rest absent in ground arith

pub erase_group-Distinct :
    {V : Type 0} (g : ℤ) (l : List (ℤ × V)) → Distinct l → Distinct (erase_group g l)
unfolding erase_group
erase_group-Distinct g [] d = d
erase_group-Distinct g ((k, v) ∷ rest) d =
    if-Distinct (eqb_ℤ k g) _ _ d.1
      (has_group-erase_group k g rest d.0, erase_group-Distinct g rest d.1)

erased :
    {V : Type 0} (g : ℤ) (l : List (ℤ × V)) → Distinct l → has_group g (erase_group g l) ≡ false
unfolding has_group erase_group
erased g [] d = refl
erased g ((k, v) ∷ rest) d = elim (Bool-cases (eqb_ℤ k g)) [
  | inl t ↦
      (let a = subst (λ z. has_group z rest ≡ false) ((eqb_ℤ_iff k g).0 t) d.0 in ground arith)
  | inr f ↦ (let i = erased g rest d.1 in ground arith)
]

-- The map that a group is emplaced into.
abbrev pub cleared : {V : Type 0} → ℤ → List (ℤ × V) → List (ℤ × V)
cleared g l = if has_group g l then erase_group g l else l

pub cleared_of :
    {V : Type 0} (g : ℤ) (l : List (ℤ × V)) → Distinct l → has_group g (cleared g l) ≡ false
cleared_of g l d = elim (Bool-cases (has_group g l)) [
  | inl t ↦ (let e = erased g l d in ground arith)
  | inr f ↦ ground arith
]

pub cleared_keeps :
    {V : Type 0} (h g : ℤ) (l : List (ℤ × V))
    → has_group h l ≡ false
    → has_group h (cleared g l) ≡ false
cleared_keeps h g l n = let e = has_group-erase_group h g l n in ground arith

pub unnamed :
    {V : Type 0} (g : ℤ) (x : V) (l : List (ℤ × V))
    → eqb_ℤ g invalid_gid ≡ false
    → has_group invalid_gid l ≡ false
    → has_group invalid_gid (emplace_group g x l) ≡ false
unnamed g x l e n = has_group-emplace_group invalid_gid g x l ∙ ground arith

-- ===== src/Files/Invariant.antt =====
-- The representation invariant of the file table, kept by each of its operations.
use iouring_cc.Common.{
  ℕ, ◌≡◌, refl, sym, ◌∙◌, ◌≢◌, none, some, ◌∷◌, length, get_elem?, set, arith, length-set,
  length-replicate, get_elem?-set_self, get_elem?-set_ne, get_elem?-lt, get_elem?-replicate,
}
use iouring_cc.Common.Int.{ℤ, ℤ-discrete}
use native.Mathlib.Decide.{ℕ_discrete}
use iouring_cc.Files.Table.{Table, invalid_id, find, erase, new_table, clean_up}
use iouring_cc.Files.Entries.{
  Distinct, find-cons_self, find-cons_ne, find-erase_self, find-erase_ne, length-erase,
  erase-Distinct,
}
use iouring_cc.Files.Slots.{used, used-replicate, used-set_free, used-set_invalid}

-- The map and the slots are inverse to one another, and the number of entries is the number of
-- slots in use.
pub record IsValid (t : Table) : Type 0 where
  pub sized : length t.free_ids ≡ t.max_size
  pub counted : length t.fd_to_index ≡ used t.free_ids
  pub distinct : Distinct t.fd_to_index
  pub named : find invalid_id t.fd_to_index ≡ none
  pub placed : (fd : ℤ) (i : ℕ) → find fd t.fd_to_index ≡ some i → get_elem? t.free_ids i ≡ some fd
  pub mapped :
      (fd : ℤ) (i : ℕ)
      → fd ≢ invalid_id
      → get_elem? t.free_ids i ≡ some fd
      → find fd t.fd_to_index ≡ some i

pub new_table-IsValid : (n : ℕ) → IsValid (new_table n)
unfolding new_table find
new_table-IsValid n = record {
  sized = length-replicate n invalid_id;
  counted = sym (used-replicate n);
  distinct = tt;
  named = refl;
  placed = λ fd i h. ground arith;
  mapped = λ fd i ne h. absurd (ne (sym (get_elem?-replicate n i invalid_id h)));
}

pub clean_up-IsValid : (t : Table) → IsValid (clean_up t)
unfolding clean_up find
clean_up-IsValid t = record {
  sized = length-replicate t.max_size invalid_id;
  counted = sym (used-replicate t.max_size);
  distinct = tt;
  named = refl;
  placed = λ fd i h. ground arith;
  mapped = λ fd i ne h. absurd (ne (sym (get_elem?-replicate t.max_size i invalid_id h)));
}

-- A registered descriptor is no `INVALID_ID`.
pub find-ne-invalid :
    {t : Table} (fd : ℤ) (i : ℕ) → IsValid t → find fd t.fd_to_index ≡ some i → fd ≢ invalid_id
find-ne-invalid {t} fd i v h e = cc (v.named, h, e)

-- The table with one more descriptor, in a slot.
abbrev pub with_file : ℤ → ℕ → Table → Table
with_file fd i t = record t {
  fd_to_index = (fd, i) ∷ t.fd_to_index;
  free_ids = set t.free_ids i fd;
}

-- The table with a descriptor and its slot released.
abbrev pub without_file : ℤ → ℕ → Table → Table
without_file fd i t = record t {
  fd_to_index = erase fd t.fd_to_index;
  free_ids = set t.free_ids i invalid_id;
}

module _ (t : Table) (v : IsValid t) (fd : ℤ) (i : ℕ) where
  module _ (ne : fd ≢ invalid_id) (absent : find fd t.fd_to_index ≡ none)
      (free : get_elem? t.free_ids i ≡ some invalid_id) where
    placed_with :
        (k : ℤ) (j : ℕ)
        → find k ((fd, i) ∷ t.fd_to_index) ≡ some j
        → get_elem? (set t.free_ids i fd) j ≡ some k
    placed_with k j h = elim (ℤ-discrete fd k) [
      | yes e ↦ ground (
        arith,
        find-cons_self fd i t.fd_to_index,
        get_elem?-set_self t.free_ids i fd (get_elem?-lt t.free_ids i free),
      )
      | no n ↦ ground (
        arith,
        find-cons_ne k fd i t.fd_to_index n,
        v.placed k j,
        get_elem?-set_ne t.free_ids i j fd,
        find-ne-invalid k j v,
      )
    ]

    mapped_with :
        (k : ℤ) (j : ℕ)
        → k ≢ invalid_id
        → get_elem? (set t.free_ids i fd) j ≡ some k
        → find k ((fd, i) ∷ t.fd_to_index) ≡ some j
    mapped_with k j n h = elim (ℕ_discrete i j) [
      | yes e ↦ ground (
        arith,
        find-cons_self fd i t.fd_to_index,
        get_elem?-set_self t.free_ids i fd (get_elem?-lt t.free_ids i free),
      )
      | no p ↦ ground (
        arith,
        find-cons_ne k fd i t.fd_to_index,
        v.mapped k j n,
        get_elem?-set_ne t.free_ids i j fd p,
      )
    ]

    pub with_file-IsValid : IsValid (with_file fd i t)
    with_file-IsValid = record {
      sized = length-set t.free_ids i fd ∙ v.sized;
      counted = omega (arith, v.counted, used-set_free t.free_ids i fd free ne);
      distinct = (absent, v.distinct);
      named = find-cons_ne invalid_id fd i t.fd_to_index ne ∙ v.named;
      placed = placed_with;
      mapped = mapped_with;
    }

  module _ (held : find fd t.fd_to_index ≡ some i) where
    placed_without :
        (k : ℤ) (j : ℕ)
        → find k (erase fd t.fd_to_index) ≡ some j
        → get_elem? (set t.free_ids i invalid_id) j ≡ some k
    placed_without k j h = elim (ℤ-discrete k fd) [
      | yes e ↦ absurd (cc (find-erase_self fd t.fd_to_index v.distinct, e, h))
      | no n ↦ ground (
        arith,
        find-erase_ne fd k t.fd_to_index n,
        v.placed k j,
        v.placed fd i held,
        get_elem?-set_ne t.free_ids i j invalid_id,
      )
    ]

    mapped_without :
        (k : ℤ) (j : ℕ)
        → k ≢ invalid_id
        → get_elem? (set t.free_ids i invalid_id) j ≡ some k
        → find k (erase fd t.fd_to_index) ≡ some j
    mapped_without k j n h = elim (ℕ_discrete i j) [
      | yes e ↦ ground (
        arith,
        get_elem?-set_self t.free_ids i invalid_id (get_elem?-lt t.free_ids i (v.placed fd i held)),
      )
      | no p ↦ ground (
        arith,
        v.mapped k j n,
        find-erase_ne fd k t.fd_to_index,
        get_elem?-set_ne t.free_ids i j invalid_id p,
      )
    ]

    named_without : find invalid_id (erase fd t.fd_to_index) ≡ none
    named_without =
        find-erase_ne fd invalid_id t.fd_to_index (λ e. find-ne-invalid fd i v held (sym e))
        ∙ v.named

    pub without_file-IsValid : IsValid (without_file fd i t)
    without_file-IsValid = record {
      sized = length-set t.free_ids i invalid_id ∙ v.sized;
      counted = omega (
        arith,
        v.counted,
        length-erase fd i t.fd_to_index held,
        used-set_invalid t.free_ids i fd (v.placed fd i held) (find-ne-invalid fd i v held),
      );
      distinct = erase-Distinct fd t.fd_to_index v.distinct;
      named = named_without;
      placed = placed_without;
      mapped = mapped_without;
    }

-- ===== src/Files/Batch.antt =====
-- The table while `RegisterFiles` adds descriptors and takes them back.
use iouring_cc.Common.{
  ℕ, zero, suc, ◌≡◌, ◌≢◌, ◌∙◌, refl, sym, none, some, get_elem?, arith, ap, List, [], ◌∷◌, ◌++◌,
  set, subst, get_elem?-set_self, get_elem?-set_ne, get_elem?-lt,
}
use iouring_cc.Common.Int.{ℤ}
use iouring_cc.Files.Table.{Table, invalid_id, find}
use iouring_cc.Files.Entries.{find-cons_self, find-cons_ne, find-erase_ne, erase-cons_ne}
use iouring_cc.Files.Invariant.{with_file, without_file}
use iouring_cc.Files.Update.{without_file-with_file}
use iouring_cc.Files.Register.{Kernel, Registry, unregister_file, unregister_loop}
use iouring_cc.Files.Release.{unregister_held}

-- The second table is the first with the descriptors added in order, each in a free slot.
abbrev pub Grown : List ℤ → Table → Table → Type 0
Grown [] t u = u ≡ t
Grown (fd ∷ fds) t u =
    (i : ℕ) × (find fd t.fd_to_index ≡ none)
    × (get_elem? t.free_ids i ≡ some invalid_id)
    × (fd ≢ invalid_id)
    × Grown fds (with_file fd i t) u

-- No descriptor of a list is `INVALID_ID`.
abbrev pub Named : List ℤ → Type 0
Named [] = Unit {0}
Named (fd ∷ fds) = (fd ≢ invalid_id) × Named fds

set-set_comm :
    {A : Type 0} (xs : List A) (i j : ℕ) (v w : A)
    → i ≢ j
    → set (set xs i v) j w ≡ set (set xs j w) i v
set-set_comm [] i j v w n = refl
set-set_comm (x ∷ xs) zero zero v w n = absurd (n refl)
set-set_comm (x ∷ xs) zero (suc j) v w n = refl
set-set_comm (x ∷ xs) (suc i) zero v w n = refl
set-set_comm (x ∷ xs) (suc i) (suc j) v w n =
    ap (λ ys. x ∷ ys) (set-set_comm xs i j v w (λ e. n (ap suc e)))

-- Releasing one descriptor and adding another may change places.
without_file-with_file_comm :
    (fd k : ℤ) (i j : ℕ) (t : Table)
    → k ≢ fd
    → j ≢ i
    → without_file fd i (with_file k j t) ≡ with_file k j (without_file fd i t)
without_file-with_file_comm fd k i j t n m =
    ground (arith, erase-cons_ne fd k j t.fd_to_index n, set-set_comm t.free_ids j i k invalid_id m)

module _ (fd : ℤ) (i : ℕ) (ne : fd ≢ invalid_id) where
  find-Grown :
      (fds : List ℤ) (t u : Table)
      → find fd t.fd_to_index ≡ some i
      → Grown fds t u
      → find fd u.fd_to_index ≡ some i
  find-Grown [] t u h e = rw e h
  find-Grown (k ∷ fds) t u h (j, f, free, n, g) =
      find-Grown fds (with_file k j t) u (find-cons_ne fd k j t.fd_to_index (λ e. cc (h, f, e)) ∙ h)
        g

  without_file-Grown :
      (fds : List ℤ) (t u : Table)
      → find fd t.fd_to_index ≡ some i
      → get_elem? t.free_ids i ≡ some fd
      → Grown fds t u
      → Grown fds (without_file fd i t) (without_file fd i u)
  without_file-Grown [] t u h p e = rw e refl
  without_file-Grown (k ∷ fds) t u h p (j, f, free, n, g) = (
    j,
    find-erase_ne fd k t.fd_to_index apart ∙ f,
    get_elem?-set_ne t.free_ids i j invalid_id (λ e. slots (sym e)) ∙ free,
    n,
    subst (λ w. Grown fds w (without_file fd i u))
        (without_file-with_file_comm fd k i j t apart slots)
        (without_file-Grown fds (with_file k j t) u (find-cons_ne fd k j t.fd_to_index apart ∙ h)
          (get_elem?-set_ne t.free_ids j i k slots ∙ p) g),
  )
    where
      apart : k ≢ fd
      apart e = cc (h, f, e)

      slots : j ≢ i
      slots e = ne (cc (p, free, e))

-- `UnregisterFile` of the first descriptors that were added leaves the others.
pub unregister_loop-Grown :
    {K : Type 0} (sys : Kernel K) (xs ys : List ℤ) (t : Table) (q : Registry K)
    → Grown (xs ++ ys) t q.table
    → Grown ys t (unregister_loop sys xs q).table
unfolding unregister_loop
unregister_loop-Grown sys [] ys t q g = g
unregister_loop-Grown sys (fd ∷ xs) ys t q (i, f, free, n, g) =
    unregister_loop-Grown sys xs ys t (unregister_file sys fd q).1
      (rw (unregister_held sys fd q i found) rest)
  where
    here : find fd (with_file fd i t).fd_to_index ≡ some i
    here = find-cons_self fd i t.fd_to_index

    found : find fd q.table.fd_to_index ≡ some i
    found = find-Grown fd i n (xs ++ ys) (with_file fd i t) q.table here g

    rest : Grown (xs ++ ys) t (without_file fd i q.table)
    rest =
        subst (λ w. Grown (xs ++ ys) w (without_file fd i q.table))
          (without_file-with_file fd i t free)
          (without_file-Grown fd i n (xs ++ ys) (with_file fd i t) q.table here
            (get_elem?-set_self t.free_ids i fd (get_elem?-lt t.free_ids i free)) g)

-- ===== src/Files/Faults.antt =====
-- Where the registration of files departs from what its callers would expect.
use iouring_cc.Common.{
  ℕ, zero, suc, false, ◌<◌, ◌≡◌, ◌≢◌, ◌∙◌, refl, sym, ap, none, some, List, [], ◌∷◌, length,
  get_elem?, arith, set,
}
use iouring_cc.Common.Int.{ℤ, pos}
use iouring_cc.Status.{Status, StatusCode, is_ok}
use iouring_cc.Files.Table.{Table, invalid_id, find, look_up, claim, add}
use iouring_cc.Files.Entries.{find-cons_self, find-cons_ne}
use iouring_cc.Files.Invariant.{IsValid, with_file}
use iouring_cc.Files.Update.{slot, slot_free, look_up_found, add_fresh}
use iouring_cc.Files.Register.{Kernel, Registry, register_file}
use iouring_cc.Files.Release.{register_file-IsValid}
use iouring_cc.Files.Single.{Registered, known, full, accepted, refused, register_file-Registered}

-- A write of the value that stands there.
set_same : (xs : List ℤ) (i : ℕ) (v : ℤ) → get_elem? xs i ≡ some v → set xs i v ≡ xs
set_same [] i v h = refl
set_same (x ∷ xs) zero v h = ground arith
set_same (x ∷ xs) (suc i) v h = ap (λ ys. x ∷ ys) (set_same xs i v h)

-- The slot that `Add` takes does not depend on the descriptor.
claim_index : (fd gd : ℤ) (xs : List ℤ) → (claim fd xs).0 ≡ (claim gd xs).0
unfolding claim
claim_index fd gd [] = refl
claim_index fd gd (x ∷ xs) = ground (arith, claim_index fd gd xs)

module _ (t : Table) (fd : ℤ) (v : IsValid t) (room : length t.fd_to_index < t.max_size)
    (ne : fd ≢ invalid_id) (h : find fd t.fd_to_index ≡ none) where
  -- The table after `Add` of `INVALID_ID`.
  abbrev marked : Table
  marked = with_file invalid_id (slot invalid_id t) t

  marked_slots : marked.free_ids ≡ t.free_ids
  marked_slots = set_same t.free_ids (slot invalid_id t) invalid_id (slot_free invalid_id t v room)

  same_slot : slot fd marked ≡ slot invalid_id t
  same_slot = ap (λ xs. (claim fd xs).0) marked_slots ∙ claim_index fd invalid_id t.free_ids

  absent : find fd marked.fd_to_index ≡ none
  absent = find-cons_ne fd invalid_id (slot invalid_id t) t.fd_to_index (λ e. ne (sym e)) ∙ h

  added : (add fd (add invalid_id t).1).1 ≡ with_file fd (slot fd marked) marked
  added = rw (add_fresh invalid_id t v.named, add_fresh fd marked absent) refl

  found : find fd (with_file fd (slot fd marked) marked).fd_to_index ≡ some (slot invalid_id t)
  found = find-cons_self fd (slot fd marked) marked.fd_to_index ∙ ap some same_slot

  found_invalid :
      find invalid_id (with_file fd (slot fd marked) marked).fd_to_index ≡ some (slot invalid_id t)
  found_invalid =
      find-cons_ne invalid_id fd (slot fd marked) marked.fd_to_index ne
      ∙ find-cons_self invalid_id (slot invalid_id t) t.fd_to_index

  -- `Add` of `INVALID_ID` to a table with a free slot uses no slot up: the next new descriptor gets
  -- the same index, and both are then in the table with that index.
  pub add_invalid_shares :
      (look_up fd (add fd (add invalid_id t).1).1 ≡ pos (slot invalid_id t))
      × (look_up invalid_id (add fd (add invalid_id t).1).1 ≡ pos (slot invalid_id t))
  add_invalid_shares = (
    rw added (look_up_found fd (slot invalid_id t) (with_file fd (slot fd marked) marked) found),
    rw added (
        look_up_found invalid_id (slot invalid_id t) (with_file fd (slot fd marked) marked)
          found_invalid),
  )

known-Registered :
    {K : Type 0} {sys : Kernel K} {fd : ℤ} {r : Registry K} {o : Status × Registry K} (i : ℕ)
    → Registered sys fd r o
    → find fd r.table.fd_to_index ≡ some i
    → (o.0.code ≡ StatusCode.already_exists) × (o.1 ≡ r)
known-Registered i (known j f c e) h = (c, e)
known-Registered i (full f s c e) h = absurd (cc (f, h))
known-Registered i (accepted f j lt free k s e) h = absurd (cc (f, h))
known-Registered i (refused f j lt free k s e) h = absurd (cc (f, h))

kept-Registered :
    {K : Type 0} {sys : Kernel K} {fd : ℤ} {r : Registry K} {o : Status × Registry K}
    → Registered sys fd r o
    → find fd r.table.fd_to_index ≡ none
    → o.0.code ≢ StatusCode.resource_exhausted
    → (i : ℕ) × (find fd o.1.table.fd_to_index ≡ some i)
kept-Registered (known j f c e) h n = absurd (cc (f, h))
kept-Registered (full f s c e) h n = absurd (n c)
kept-Registered {fd = fd} {r = r} (accepted f j lt free k s e) h n =
    (j, rw e (find-cons_self fd j r.table.fd_to_index))
kept-Registered {fd = fd} {r = r} (refused f j lt free k s e) h n =
    (j, rw e (find-cons_self fd j r.table.fd_to_index))

-- When `RegisterFile` of a new descriptor fails because the kernel refuses it, the descriptor stays
-- in the table: the next `RegisterFile` of it is AlreadyExists and changes nothing, whatever the
-- kernel would answer then.
pub register_file_refused :
    {K : Type 0} (sys : Kernel K) (fd : ℤ) (r : Registry K)
    → fd ≢ invalid_id
    → IsValid r.table
    → find fd r.table.fd_to_index ≡ none
    → is_ok (register_file sys fd r).0 ≡ false
    → (register_file sys fd r).0.code ≢ StatusCode.resource_exhausted
    → ((register_file sys fd (register_file sys fd r).1).0.code ≡ StatusCode.already_exists)
      × ((register_file sys fd (register_file sys fd r).1).1 ≡ (register_file sys fd r).1)
register_file_refused sys fd r named v h bad ne =
    known-Registered kept.0
      (register_file-Registered sys fd (register_file sys fd r).1
        (register_file-IsValid sys fd r named v))
      kept.1
  where
    kept : (i : ℕ) × (find fd (register_file sys fd r).1.table.fd_to_index ≡ some i)
    kept = kept-Registered (register_file-Registered sys fd r v) h ne

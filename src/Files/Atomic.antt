-- ===== src/Files/Atomic.antt =====
-- `RegisterFiles`: all the files, or none of them but one that the kernel has refused.
use iouring_cc.Common.{
  ℕ, suc, ◌+◌, ◌≡◌, ◌≢◌, ◌⊎◌, ◌∙◌, inl, inr, refl, sym, none, some, true, false, length, get_elem?,
  arith, ap, Bool-cases, Bool, List, [], ◌∷◌, ◌++◌, take, subst,
}
use iouring_cc.Common.Int.{ℤ, pos, neg_ℤ}
use iouring_cc.Status.{
  Status, StatusCode, is_ok, is_ok-ok_status, code_of_is_ok, errno_failed, errno_to_status,
}
use iouring_cc.Files.Table.{Table, invalid_id, find}
use iouring_cc.Files.Invariant.{IsValid, with_file}
use iouring_cc.Files.Register.{
  Kernel, Registry, register_file, register_loop, unregister_loop, register_files,
}
use iouring_cc.Files.Single.{Registered, known, full, accepted, refused, register_file-Registered}
use iouring_cc.Files.Release.{register_file-IsValid}
use iouring_cc.Files.Batch.{Grown, Named, unregister_loop-Grown}

-- Why a registration failed, and the descriptors that it left in the table.
abbrev pub Refusal : List ℤ → Status → Type 0
Refusal [] s = (s.code ≡ StatusCode.already_exists) ⊎ (s.code ≡ StatusCode.resource_exhausted)
Refusal (fd ∷ fds) s =
    (fds ≡ []) × (s.code ≢ StatusCode.already_exists) × (s.code ≢ StatusCode.resource_exhausted)

abbrev Refused : Status → Type 0
Refused s =
    (is_ok s ≡ false)
    × (s.code ≢ StatusCode.already_exists)
    × (s.code ≢ StatusCode.resource_exhausted)

-- How the first loop of `RegisterFiles` ends: all the files are in, or those before one that failed
-- are, and that one too if it is the kernel that refused it.
data Loop {K : Type 0} (fds : List ℤ) (n : ℕ) (t : Table) (o : Status × Bool × ℕ × Registry K)
    : Type 0 where
  all_added : is_ok o.0 ≡ true → o.1 ≡ false → Grown fds t o.3.table → Loop fds n t o
  stopped :
      (xs ys zs : List ℤ)
      → fds ≡ xs ++ zs
      → is_ok o.0 ≡ false
      → o.1 ≡ true
      → o.2 ≡ n + length xs
      → Grown (xs ++ ys) t o.3.table
      → Refusal ys o.0
      → Loop fds n t o

not_ok : (s : Status) (c : StatusCode) → s.code ≡ c → c ≢ StatusCode.ok → is_ok s ≡ false
not_ok s c e n = elim (Bool-cases (is_ok s)) [
  | inl h ↦ absurd (n (sym e ∙ code_of_is_ok s h))
  | inr h ↦ h
]

extend-Loop :
    {K : Type 0} (fd : ℤ) (fds : List ℤ) (n i : ℕ) (t : Table) (o : Status × Bool × ℕ × Registry K)
    → find fd t.fd_to_index ≡ none
    → get_elem? t.free_ids i ≡ some invalid_id
    → fd ≢ invalid_id
    → Loop fds (suc n) (with_file fd i t) o
    → Loop (fd ∷ fds) n t o
extend-Loop fd fds n i t o f free ne (all_added k u g) = all_added k u (i, f, free, ne, g)
extend-Loop fd fds n i t o f free ne (stopped xs ys zs e k u c g why) =
    stopped (fd ∷ xs) ys zs (ap (λ l. fd ∷ l) e) k u (omega arith) (i, f, free, ne, g) why

module _ {K : Type 0} (sys : Kernel K) where
  register_loop_ok :
      (fd : ℤ) (fds : List ℤ) (n : ℕ) (r : Registry K)
      → is_ok (register_file sys fd r).0 ≡ true
      → register_loop sys (fd ∷ fds) n r ≡ register_loop sys fds (suc n) (register_file sys fd r).1
  unfolding register_loop
  register_loop_ok fd fds n r h = rw (h, register_loop) refl

  register_loop_fail :
      (fd : ℤ) (fds : List ℤ) (n : ℕ) (r : Registry K)
      → is_ok (register_file sys fd r).0 ≡ false
      → register_loop sys (fd ∷ fds) n r
        ≡ ((register_file sys fd r).0, true, n, (register_file sys fd r).1)
  unfolding register_loop
  register_loop_fail fd fds n r h = rw (h, register_loop) refl

  -- The loop stops at the descriptor that fails.
  stop-Loop :
      (fd : ℤ) (fds ys : List ℤ) (n : ℕ) (r : Registry K)
      → is_ok (register_file sys fd r).0 ≡ false
      → Grown ys r.table (register_file sys fd r).1.table
      → Refusal ys (register_file sys fd r).0
      → Loop (fd ∷ fds) n r.table (register_loop sys (fd ∷ fds) n r)
  stop-Loop fd fds ys n r h g why =
      rw (register_loop_fail fd fds n r h)
        (stopped [] ys (fd ∷ fds) refl h refl (omega arith) g why)

  go_on-Loop :
      (fd : ℤ) (fds : List ℤ) (n : ℕ) (r : Registry K)
      → fd ≢ invalid_id
      → Registered sys fd r (register_file sys fd r)
      → (is_ok (register_file sys fd r).0 ≡ true
          → Loop fds
              (suc n)
              (register_file sys fd r).1.table
              (register_loop sys fds (suc n) (register_file sys fd r).1))
      → Loop (fd ∷ fds) n r.table (register_loop sys (fd ∷ fds) n r)
  go_on-Loop fd fds n r ne (known i f c e) rest =
      stop-Loop fd fds [] n r
        (not_ok (register_file sys fd r).0 StatusCode.already_exists c (λ x. cc))
        (ap (λ q. q.table) e) (inl c)
  go_on-Loop fd fds n r ne (full f s c e) rest =
      stop-Loop fd fds [] n r
        (not_ok (register_file sys fd r).0 StatusCode.resource_exhausted c (λ x. cc))
        (ap (λ q. q.table) e) (inr c)
  go_on-Loop fd fds n r ne (accepted f i lt free k ok e) rest =
      rw (register_loop_ok fd fds n r ok) (
        extend-Loop fd fds n i r.table _ f free ne (
          subst
            (λ q.
              Loop fds (suc n) q.table (register_loop sys fds (suc n) (register_file sys fd r).1))
            e (rest ok)))
  go_on-Loop fd fds n r ne (refused f i lt free k s e) rest =
      stop-Loop fd fds (fd ∷ []) n r (rw s failed.0) (i, f, free, ne, ap (λ q. q.table) e)
        (refl, rw s failed.1, rw s failed.2)
    where
      failed : Refused (
          errno_to_status sys.strerror
            (neg_ℤ (sys.update_file r.kernel (pos i) fd).0)
            "Failed to register files to io_uring")
      failed =
          errno_failed sys.strerror (sys.update_file r.kernel (pos i) fd).0
            "Failed to register files to io_uring" k

  register_loop-Loop :
      (fds : List ℤ) (n : ℕ) (r : Registry K)
      → Named fds
      → IsValid r.table
      → Loop fds n r.table (register_loop sys fds n r)
  unfolding register_loop
  register_loop-Loop [] n r h v = all_added is_ok-ok_status refl refl
  register_loop-Loop (fd ∷ fds) n r h v =
      go_on-Loop fd fds n r h.0 (register_file-Registered sys fd r v) (λ k.
        register_loop-Loop fds (suc n) (register_file sys fd r).1 h.1
          (register_file-IsValid sys fd r h.0 v))

take-append : (xs zs : List ℤ) → take (length xs) (xs ++ zs) ≡ xs
take-append [] zs = refl
take-append (x ∷ xs) zs = ap (λ l. x ∷ l) (take-append xs zs)

-- What `RegisterFiles` leaves behind.
pub data Batch {K : Type 0} (fds : List ℤ) (t : Table) (o : Status × Registry K) : Type 0 where
  all_in : is_ok o.0 ≡ true → Grown fds t o.1.table → Batch fds t o
  none_in :
      (o.0.code ≡ StatusCode.already_exists) ⊎ (o.0.code ≡ StatusCode.resource_exhausted)
      → o.1.table ≡ t
      → Batch fds t o
  refused_in :
      (fd : ℤ) (i : ℕ)
      → is_ok o.0 ≡ false
      → o.0.code ≢ StatusCode.already_exists
      → o.0.code ≢ StatusCode.resource_exhausted
      → find fd t.fd_to_index ≡ none
      → get_elem? t.free_ids i ≡ some invalid_id
      → o.1.table ≡ with_file fd i t
      → Batch fds t o

module _ {K : Type 0} (sys : Kernel K) where
  register_files_stopped :
      (fds xs zs : List ℤ) (r : Registry K)
      → fds ≡ xs ++ zs
      → (register_loop sys fds 0 r).1 ≡ true
      → (register_loop sys fds 0 r).2 ≡ 0 + length xs
      → register_files sys fds r
        ≡ ((register_loop sys fds 0 r).0, unregister_loop sys xs (register_loop sys fds 0 r).3)
  unfolding register_files
  register_files_stopped fds xs zs r e u c = rw (u, prefix) refl
    where
      prefix : take (register_loop sys fds 0 r).2 fds ≡ xs
      prefix =
          ap (λ k. take k fds) (omega (arith, c)) ∙ (ap (take (length xs)) e ∙ take-append xs zs)

  finish-Batch :
      (fds : List ℤ) (r : Registry K)
      → Loop fds 0 r.table (register_loop sys fds 0 r)
      → Batch fds r.table (register_files sys fds r)
  unfolding register_files
  finish-Batch fds r (all_added k u g) = all_in k (rw u g)
  finish-Batch fds r (stopped xs [] zs e k u c g why) =
      rw (register_files_stopped fds xs zs r e u c)
        (none_in why (unregister_loop-Grown sys xs [] r.table (register_loop sys fds 0 r).3 g))
  finish-Batch fds r (stopped xs (fd ∷ ys) zs e k u c g why) =
      rw (register_files_stopped fds xs zs r e u c) (
        refused_in fd left.0 k why.1 why.2 left.1 left.2 (
          subst
            (λ l.
              Grown l (with_file fd left.0 r.table)
                (unregister_loop sys xs (register_loop sys fds 0 r).3).table)
            why.0 left.4))
    where
      left : Grown (fd ∷ ys) r.table (unregister_loop sys xs (register_loop sys fds 0 r).3).table
      left = unregister_loop-Grown sys xs (fd ∷ ys) r.table (register_loop sys fds 0 r).3 g

  -- `RegisterFiles` of descriptors other than -1, on a valid table, succeeds with each of them added
  -- in a free slot, in order, or fails with the table as it was, as AlreadyExists or
  -- ResourceExhausted, or fails with another code and with one more descriptor in the table, in a
  -- slot that was free: the one that the kernel refused.
  pub register_files-Batch :
      (fds : List ℤ) (r : Registry K)
      → Named fds
      → IsValid r.table
      → Batch fds r.table (register_files sys fds r)
  register_files-Batch fds r h v = finish-Batch fds r (register_loop-Loop sys fds 0 r h v)

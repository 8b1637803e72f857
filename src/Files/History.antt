-- ===== src/Files/History.antt =====
-- Any sequence of calls on a table that starts empty.
use iouring_cc.Common.{
  ℕ, suc, ◌<◌, ◌≡◌, ◌≢◌, some, Option-cases, Bool-cases, inl, inr, List, [], ◌∷◌, get_elem?,
  get_elem?-lt, arith, take,
}
use iouring_cc.Common.Int.{ℤ, pos, ltb_ℤ}
use iouring_cc.Status.{is_ok}
use iouring_cc.Files.Table.{Table, invalid_id, find, look_up, new_table, capacity}
use iouring_cc.Files.Invariant.{IsValid, new_table-IsValid, clean_up-IsValid}
use iouring_cc.Files.Update.{look_up_missing}
use iouring_cc.Files.Register.{
  Kernel, Registry, register_file, register_loop, unregister_loop, register_files, unregister_file,
  unregister_files,
}
use iouring_cc.Files.Release.{register_file-IsValid, unregister_file-IsValid}
use iouring_cc.Files.Batch.{Named}

pub data Call : Type 0 where
  register release : ℤ → Call
  register_all : List ℤ → Call
  release_all : Call

-- The call does not name `INVALID_ID` as a descriptor to register.
abbrev pub CallNamed : Call → Type 0
CallNamed (register fd) = fd ≢ invalid_id
CallNamed (release fd) = Unit {0}
CallNamed (register_all fds) = Named fds
CallNamed release_all = Unit {0}

abbrev pub AllNamed : List Call → Type 0
AllNamed [] = Unit {0}
AllNamed (c ∷ cs) = CallNamed c × AllNamed cs

module _ {K : Type 0} (sys : Kernel K) where
  unfoldable pub step : Call → Registry K → Registry K
  step (register fd) r = (register_file sys fd r).1
  step (release fd) r = (unregister_file sys fd r).1
  step (register_all fds) r = (register_files sys fds r).1
  step release_all r = (unregister_files sys r).1

  unfoldable pub run : List Call → Registry K → Registry K
  run [] r = r
  run (c ∷ cs) r = run cs (step c r)

  register_loop-IsValid :
      (fds : List ℤ) (n : ℕ) (r : Registry K)
      → Named fds
      → IsValid r.table
      → IsValid (register_loop sys fds n r).3.table
  unfolding register_loop
  register_loop-IsValid [] n r h v = v
  register_loop-IsValid (fd ∷ fds) n r h v = elim (Bool-cases (is_ok (register_file sys fd r).0)) [
    | inl e ↦
        rw (e, register_loop)
          (register_loop-IsValid fds (suc n) (register_file sys fd r).1 h.1
            (register_file-IsValid sys fd r h.0 v))
    | inr e ↦ rw (e, register_loop) (register_file-IsValid sys fd r h.0 v)
  ]

  unregister_loop-IsValid :
      (fds : List ℤ) (r : Registry K) → IsValid r.table → IsValid (unregister_loop sys fds r).table
  unfolding unregister_loop
  unregister_loop-IsValid [] r v = v
  unregister_loop-IsValid (fd ∷ fds) r v =
      unregister_loop-IsValid fds (unregister_file sys fd r).1 (unregister_file-IsValid sys fd r v)

  register_files-IsValid :
      (fds : List ℤ) (r : Registry K)
      → Named fds
      → IsValid r.table
      → IsValid (register_files sys fds r).1.table
  unfolding register_files
  register_files-IsValid fds r h v = elim (Bool-cases (register_loop sys fds 0 r).1) [
    | inl e ↦
        rw (e, register_files)
          (unregister_loop-IsValid (take (register_loop sys fds 0 r).2 fds)
            (register_loop sys fds 0 r).3 (register_loop-IsValid fds 0 r h v))
    | inr e ↦ rw (e, register_files) (register_loop-IsValid fds 0 r h v)
  ]

  unregister_files-IsValid :
      (r : Registry K) → IsValid r.table → IsValid (unregister_files sys r).1.table
  unfolding unregister_files
  unregister_files-IsValid r v = elim (Bool-cases (ltb_ℤ (sys.unregister_all r.kernel).0 (pos 0))) [
    | inl e ↦ rw (e, unregister_files) v
    | inr e ↦ rw (e, unregister_files) (clean_up-IsValid r.table)
  ]

  step-IsValid :
      (c : Call) (r : Registry K) → CallNamed c → IsValid r.table → IsValid (step c r).table
  unfolding step
  step-IsValid (register fd) r n v = register_file-IsValid sys fd r n v
  step-IsValid (release fd) r n v = unregister_file-IsValid sys fd r v
  step-IsValid (register_all fds) r n v = register_files-IsValid fds r n v
  step-IsValid release_all r n v = unregister_files-IsValid r v

  -- Any sequence of registrations and releases, of one file or of many, that registers no
  -- `INVALID_ID` keeps a valid table valid, whatever the kernel answers: the map and the slots stay
  -- inverse to one another, with as many entries as slots in use.
  pub run-IsValid :
      (cs : List Call) (r : Registry K) → AllNamed cs → IsValid r.table → IsValid (run cs r).table
  unfolding run
  run-IsValid [] r n v = v
  run-IsValid (c ∷ cs) r n v = run-IsValid cs (step c r) n.1 (step-IsValid c r n.0 v)

look_up_placed :
    (t : Table) (fd : ℤ) (i : ℕ)
    → IsValid t
    → look_up fd t ≡ pos i
    → (get_elem? t.free_ids i ≡ some fd) × (i < t.max_size)
unfolding look_up
look_up_placed t fd i v h = elim (Option-cases (find fd t.fd_to_index)) [
  | inl e ↦ absurd (cc (h, look_up_missing fd t e))
  | inr (j, e) ↦ ground (arith, v.placed fd j e, get_elem?-lt t.free_ids i {a = fd}, v.sized)
]

-- After any sequence of calls that registers no `INVALID_ID`, on a table that starts empty and with
-- any kernel, two descriptors with the same slot are the same, and the slot is below the capacity.
pub look_up-injective :
    {K : Type 0} (sys : Kernel K) (n : ℕ) (k : K) (cs : List Call) (fd gd : ℤ) (i : ℕ)
    → AllNamed cs
    → look_up fd (run sys cs (record { table = new_table n; kernel = k })).table ≡ pos i
    → look_up gd (run sys cs (record { table = new_table n; kernel = k })).table ≡ pos i
    → (fd ≡ gd) × (i < capacity (run sys cs (record { table = new_table n; kernel = k })).table)
unfolding capacity
look_up-injective {K} sys n k cs fd gd i names h g = (cc (one.0, two.0), one.1)
  where
    end : Registry K
    end = run sys cs (record { table = new_table n; kernel = k })

    v : IsValid end.table
    v = run-IsValid sys cs (record { table = new_table n; kernel = k }) names (new_table-IsValid n)

    one : (get_elem? end.table.free_ids i ≡ some fd) × (i < end.table.max_size)
    one = look_up_placed end.table fd i v h

    two : (get_elem? end.table.free_ids i ≡ some gd) × (i < end.table.max_size)
    two = look_up_placed end.table gd i v g

-- ===== src/Sqe/Slots.antt =====
-- Which file a read or a write of a descriptor names: what `Read` and `Write` of iouring/io_uring.cc
-- make of the table that `RegisterFile` and `UnregisterFile` leave.
use iouring_cc.Common.{ℕ, ◌≡◌, ◌<◌, ◌∙◌, List, [], ◌∷◌, none, some, true, length, arith, ap, refl}
use iouring_cc.Common.Int.{ℤ, pos}
use iouring_cc.Common.Outcome.{done}
use iouring_cc.Status.{Status, is_ok, code_of_is_ok}
use iouring_cc.Files.Table.{find, clean_up}
use iouring_cc.Files.Entries.{find-cons_self, find-erase_self}
use iouring_cc.Files.Invariant.{IsValid}
use iouring_cc.Files.Update.{look_up_found, look_up_missing}
use iouring_cc.Files.Register.{Kernel, Registry, register_file, unregister_file}
use iouring_cc.Files.Single.{Registered, known, full, accepted, refused, register_file-Registered}
use iouring_cc.Files.Release.{
  Unregistered, empty_cleared, empty_refused, missing, released, unregister_file-Unregistered,
}
use iouring_cc.Pools.{BufferPool}
use iouring_cc.Request.Flags.{fixed_file}
use iouring_cc.Request.Payload.{IoRequest, CommonVars, add_sqe_flag}
use iouring_cc.Request.MakeFile.{make_read}
use iouring_cc.Sqe.Entry.{Sqe, Prep, prep, finish, set_buf_group}
use iouring_cc.Sqe.File.{read}
use iouring_cc.Sqe.Dispatch.{Context, dispatch, fill, filled}

held_of_Registered :
    {K : Type 0} (sys : Kernel K) (fd : ℤ) (r : Registry K) (o : Status × Registry K)
    → Registered sys fd r o
    → is_ok o.0 ≡ true
    → (i : ℕ) × (i < r.table.max_size) × (find fd o.1.table.fd_to_index ≡ some i)
held_of_Registered sys fd r o (known i f c e) h = absurd (cc (code_of_is_ok o.0 h, c))
held_of_Registered sys fd r o (full f s c e) h = absurd (cc (code_of_is_ok o.0 h, c))
held_of_Registered sys fd r o (accepted f i lt free k ok e) h =
    (i, lt, ap (λ q. find fd q.table.fd_to_index) e ∙ find-cons_self fd i r.table.fd_to_index)
held_of_Registered sys fd r o (refused f i lt free k s e) h =
    (i, lt, ap (λ q. find fd q.table.fd_to_index) e ∙ find-cons_self fd i r.table.fd_to_index)

find_of_empty : (fd : ℤ) (m : List (ℤ × ℕ)) → length m ≡ 0 → find fd m ≡ none
unfolding find
find_of_empty fd [] h = refl
find_of_empty fd (e ∷ m) h = ground arith

absent_of_Unregistered :
    {K : Type 0} (sys : Kernel K) (fd : ℤ) (r : Registry K) (o : Status × Registry K)
    → Unregistered sys fd r o
    → IsValid r.table
    → find fd o.1.table.fd_to_index ≡ none
unfolding clean_up find
absent_of_Unregistered sys fd r o (empty_cleared z k e) v =
    ap (λ q. find fd q.1.table.fd_to_index) e
absent_of_Unregistered sys fd r o (empty_refused z k e) v =
    ap (λ q. find fd q.table.fd_to_index) e ∙ find_of_empty fd r.table.fd_to_index z
absent_of_Unregistered sys fd r o (missing z f c e) v = ap (λ q. find fd q.table.fd_to_index) e ∙ f
absent_of_Unregistered sys fd r o (released i f e) v =
    ap (λ q. find fd q.1.table.fd_to_index) e ∙ find-erase_self fd r.table.fd_to_index v.distinct

-- The entry of a read of a file, by its descriptor or its slot, with the flag that says which.
abbrev pub read_entry : IoRequest → ℕ → ℤ → ℕ → ℕ → ℕ → ℕ → Sqe → Sqe
read_entry r c fd offset address size gid s =
    set_buf_group gid (finish r c (prep (Prep.read fd address size offset) s))

module _ {K : Type 0} (sys : Kernel K) (fd : ℤ) (r : Registry K) (valid : IsValid r.table)
    (pools : List (ℤ × BufferPool)) (offset address size : ℕ) (v : CommonVars) (c : ℕ)
    (s : Sqe) where
  abbrev pub registered : Context
  registered = record { files = (register_file sys fd r).1.table; pools = pools }

  abbrev pub unregistered : Context
  unregistered = record { files = (unregister_file sys fd r).1.table; pools = pools }

  -- After a registration that succeeded, on a valid table, a read of the descriptor names a slot
  -- within the table's capacity instead, and has the flag `IOSQE_FIXED_FILE`.
  pub read_of_registered :
      is_ok (register_file sys fd r).0 ≡ true
      → (i : ℕ) × (i < r.table.max_size)
        × (fill registered (make_read fd offset address size v) c s
            ≡ done (
                filled
                  (read_entry
                    (add_sqe_flag fixed_file (make_read fd offset address size v))
                    c
                    (pos i)
                    offset
                    address
                    size
                    v.buf_gid
                    s)
                  pools))
  unfolding dispatch read make_read
  read_of_registered h =
      let (i, lt, e) =
        held_of_Registered sys fd r (register_file sys fd r)
          (register_file-Registered sys fd r valid) h in
      (i, lt, ground (arith, look_up_found fd i (register_file sys fd r).1.table e))

  -- After `UnregisterFile`, whatever its status, a read of the descriptor names the descriptor, and
  -- the request's flags are those that it had.
  pub read_of_unregistered :
      fill unregistered (make_read fd offset address size v) c s
      ≡ done (
          filled
            (read_entry (make_read fd offset address size v) c fd offset address size v.buf_gid s)
            pools)
  unfolding dispatch read make_read
  read_of_unregistered = ground (
    arith,
    look_up_missing fd (unregister_file sys fd r).1.table (
        absent_of_Unregistered sys fd r (unregister_file sys fd r)
          (unregister_file-Unregistered sys fd r) valid),
  )

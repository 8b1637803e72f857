-- ===== src/Files/Tests.antt =====
-- The file table on concrete calls. The kernel counts its calls, and refuses the descriptor 13.
use iouring_cc.Common.{
  ℕ, suc, ◌<◌, ◌≡◌, ◌≢◌, refl, none, true, false, List, [], ◌∷◌, length, arith, if◌then◌else◌,
}
use iouring_cc.Common.Int.{ℤ, pos, negsuc, eqb_ℤ}
use iouring_cc.Status.{Status, StatusCode, is_ok, ok_status}
use iouring_cc.Files.Table.{
  Table, invalid_id, find, erase, new_table, look_up, add, claim, capacity, size,
}
use iouring_cc.Files.Invariant.{IsValid, new_table-IsValid}
use iouring_cc.Files.Register.{
  Kernel, Registry, register_file, unregister_file, register_files, register_loop,
}
use iouring_cc.Files.Single.{Registered, register_file-Registered}
use iouring_cc.Files.Release.{
  Unregistered, unregister_file-Unregistered, unregister_file-register_file,
}
use iouring_cc.Files.Atomic.{Batch, register_files-Batch}
use iouring_cc.Files.History.{Call, AllNamed, run, step, run-IsValid, look_up-injective}

abbrev kernel : Kernel ℕ
kernel = record {
  update_file = λ k i fd. (if eqb_ℤ fd (pos 13) then negsuc 8 else pos 1, suc k);
  update_files = λ k i fds. (pos (length fds), suc k);
  register_all = λ k fds. (pos 0, suc k);
  unregister_all = λ k. (pos 0, suc k);
  strerror = λ e. "Bad file descriptor";
  format_fd = λ f fd. f;
}

-- A table of two slots.
abbrev two_slots : Registry ℕ
two_slots = record { table = new_table 2; kernel = 0 }

abbrev with_five : Registry ℕ
with_five = record {
  table = record {
    max_size = 2;
    fd_to_index = (pos 5, 0) ∷ [];
    free_ids = pos 5 ∷ invalid_id ∷ [];
  };
  kernel = 1;
}

register_five : register_file kernel (pos 5) two_slots ≡ (ok_status, with_five)
unfolding register_file look_up find add claim capacity size new_table
register_five = refl

abbrev script : List Call
script =
    Call.register (pos 5)
    ∷ Call.register (pos 7)
    ∷ Call.release (pos 5)
    ∷ Call.register_all (pos 9 ∷ [])
    ∷ []

run-script : (run kernel script two_slots).table ≡ record {
  max_size = 2;
  fd_to_index = (pos 9, 0) ∷ (pos 7, 1) ∷ [];
  free_ids = pos 9 ∷ pos 7 ∷ [];
}
unfolding run step register_file unregister_file register_files register_loop look_up find erase add
    claim capacity size new_table iouring_cc.Files.Table.remove is_ok ok_status
run-script = refl

registered : (pos 5 ≢ invalid_id) × (pos 7 ≢ invalid_id) × (pos 9 ≢ invalid_id)
registered = (ground arith, ground arith, ground arith)

named : AllNamed script
named = (registered.0, (registered.1, (tt, ((registered.2, tt), tt))))

run-IsValid_example : IsValid (run kernel script two_slots).table
run-IsValid_example = run-IsValid kernel script two_slots named (new_table-IsValid 2)

look_up_nine : look_up (pos 9) (run kernel script two_slots).table ≡ pos 0
unfolding look_up find
look_up_nine = rw run-script refl

look_up-injective_example : (pos 9 ≡ pos 9) × (0 < capacity (run kernel script two_slots).table)
look_up-injective_example =
    look_up-injective kernel 2 0 script (pos 9) (pos 9) 0 named look_up_nine look_up_nine

register_file-Registered_example :
    Registered kernel (pos 5) two_slots (register_file kernel (pos 5) two_slots)
register_file-Registered_example =
    register_file-Registered kernel (pos 5) two_slots (new_table-IsValid 2)

unregister_file-Unregistered_example :
    Unregistered kernel (pos 5) with_five (unregister_file kernel (pos 5) with_five)
unregister_file-Unregistered_example = unregister_file-Unregistered kernel (pos 5) with_five

register_files-Batch_example :
    Batch
      (pos 5 ∷ pos 13 ∷ [])
      (new_table 2)
      (register_files kernel (pos 5 ∷ pos 13 ∷ []) two_slots)
register_files-Batch_example =
    register_files-Batch kernel (pos 5 ∷ pos 13 ∷ []) two_slots (ground arith, (ground arith, tt))
      (new_table-IsValid 2)

register_five_ok : is_ok (register_file kernel (pos 5) two_slots).0 ≡ true
unfolding is_ok ok_status
register_five_ok = rw register_five refl

unregister_file-register_file_example :
    (unregister_file kernel (pos 5) (register_file kernel (pos 5) two_slots).1).1.table
    ≡ new_table 2
unregister_file-register_file_example =
    unregister_file-register_file kernel (pos 5) two_slots (new_table-IsValid 2) register_five_ok

absent : (fd : ℤ) → find fd (new_table 2).fd_to_index ≡ none
unfolding find new_table
absent fd = refl

register_thirteen :
    ((register_file kernel (pos 13) two_slots).0.code ≡ StatusCode.unknown)
    × (is_ok (register_file kernel (pos 13) two_slots).0 ≡ false)
unfolding register_file look_up find add claim capacity size new_table
    iouring_cc.Status.errno_to_status is_ok
register_thirteen = (refl, refl)

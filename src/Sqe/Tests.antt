-- ===== src/Sqe/Tests.antt =====
-- Requests on a concrete ring: a table of two slots, one pool, and a kernel that accepts every file.
use iouring_cc.Common.{ℕ, suc, ◌<◌, ◌≡◌, refl, some, true, false, List, [], ◌∷◌, length}
use iouring_cc.Common.Int.{ℤ, pos}
use iouring_cc.Common.Outcome.{done}
use iouring_cc.Status.{is_ok, ok_status}
use iouring_cc.Files.Table.{new_table, look_up, find, add, claim, capacity, size}
use iouring_cc.Files.Invariant.{new_table-IsValid}
use iouring_cc.Files.Register.{Kernel, Registry, register_file}
use iouring_cc.Pools.{BufferPool}
use iouring_cc.Request.Flags.{fixed_file}
use iouring_cc.Request.Operation.{Operation}
use iouring_cc.Request.Payload.{CommonVars, add_sqe_flag, invalid_fileindex}
use iouring_cc.Request.MakeFile.{make_read, make_fsync}
use iouring_cc.Request.MakeMisc.{make_remove_buffer}
use iouring_cc.Sqe.Entry.{Sqe, Prep, prep, finish}
use iouring_cc.Sqe.File.{fsync}
use iouring_cc.Sqe.Dispatch.{Context, dispatch, fill, filled}
use iouring_cc.Sqe.Carries.{Carries, dispatch-Carries}
use iouring_cc.Sqe.Made.{Made}
use iouring_cc.Sqe.Fills.{is_filled, dispatch-Made}
use iouring_cc.Sqe.Once.{earlier, dispatch_prepares_once}
use iouring_cc.Sqe.Slots.{read_entry, read_of_registered, read_of_unregistered}

abbrev kernel : Kernel ℕ
kernel = record {
  update_file = λ k i fd. (pos 1, suc k);
  update_files = λ k i fds. (pos (length fds), suc k);
  register_all = λ k fds. (pos 0, suc k);
  unregister_all = λ k. (pos 0, suc k);
  strerror = λ e. "";
  format_fd = λ f fd. f;
}

abbrev two_slots : Registry ℕ
two_slots = record { table = new_table 2; kernel = 0 }

abbrev pools : List (ℤ × BufferPool)
pools = (pos 3, record { buffer_count = 4; buffer_size = 64; base = 1000; bytes = 256 }) ∷ []

abbrev ring : Context
ring = record { files = new_table 2; pools = pools }

abbrev plain : CommonVars
plain = record {
  sqe_flag = 0;
  op_flag = 0;
  multishot = false;
  buf_gid = 0;
  file_index = invalid_fileindex;
  ioprio = 0;
  direct_alloc = false;
}

abbrev indexed : CommonVars
indexed = record plain { file_index = pos 2 }

abbrev blank : Sqe
blank = record { calls = []; user_data = 0; flags = 0; buf_group = 0 }

abbrev synced : Sqe
synced = record { calls = Prep.fsync (pos 5) 0 ∷ []; user_data = 77; flags = 0; buf_group = 0 }

dispatch-fsync :
    dispatch Operation.fsync ring (make_fsync (pos 5) 0 plain) 77 blank ≡ done (filled synced pools)
unfolding dispatch fsync make_fsync iouring_cc.Request.Members.as_fsync finish prep
    iouring_cc.Sqe.Entry.set_data iouring_cc.Sqe.Entry.set_flags
dispatch-fsync = refl

dispatch-Made_example :
    is_filled (
      dispatch
        (make_remove_buffer 2 (pos 3) plain).operation
        ring
        (make_remove_buffer 2 (pos 3) plain)
        77
        blank)
    ≡ true
unfolding iouring_cc.Pools.find_pool
dispatch-Made_example =
    dispatch-Made ring (make_remove_buffer 2 (pos 3) plain) 77 blank
      (Made.remove_buffer 2 (pos 3) plain refl)

dispatch-Carries_example : Carries (make_fsync (pos 5) 0 plain) 77 synced
dispatch-Carries_example =
    dispatch-Carries ring (make_fsync (pos 5) 0 plain) 77 blank synced pools Operation.fsync
      dispatch-fsync

dispatch_prepares_once_example : earlier synced.calls ≡ some []
dispatch_prepares_once_example =
    dispatch_prepares_once Operation.fsync ring (make_fsync (pos 5) 0 plain) 77 blank synced pools
      (λ e. cc e) (λ e. cc e) (λ e. cc e) dispatch-fsync

register_five_ok : is_ok (register_file kernel (pos 5) two_slots).0 ≡ true
unfolding register_file look_up find add claim capacity size new_table is_ok ok_status
register_five_ok = refl

read_of_registered_example :
    (i : ℕ) × (i < 2)
    × (fill
          (record { files = (register_file kernel (pos 5) two_slots).1.table; pools = pools })
          (make_read (pos 5) 0 4096 512 plain)
          77
          blank
        ≡ done (
            filled
              (read_entry
                (add_sqe_flag fixed_file (make_read (pos 5) 0 4096 512 plain))
                77
                (pos i)
                0
                4096
                512
                0
                blank)
              pools))
unfolding new_table
read_of_registered_example =
    read_of_registered kernel (pos 5) two_slots (new_table-IsValid 2) pools 0 4096 512 plain 77
      blank register_five_ok

read_of_unregistered_example :
    fill
      (record {
        files = (iouring_cc.Files.Register.unregister_file kernel (pos 5) two_slots).1.table;
        pools = pools;
      })
      (make_read (pos 5) 0 4096 512 plain)
      77
      blank
    ≡ done (
        filled
          (read_entry (make_read (pos 5) 0 4096 512 plain) 77 (pos 5) 0 4096 512 0 blank)
          pools)
read_of_unregistered_example =
    read_of_unregistered kernel (pos 5) two_slots (new_table-IsValid 2) pools 0 4096 512 plain 77
      blank

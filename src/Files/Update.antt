-- ===== src/Files/Update.antt =====
-- `Add` and `Remove` of the file table on each of their branches.
use iouring_cc.Common.{ℕ, ◌<◌, ◌≡◌, none, some, length, get_elem?, arith, get_elem?-lt}
use iouring_cc.Common.Int.{ℤ, pos}
use iouring_cc.Files.Table.{Table, invalid_id, find, claim, add, remove, look_up}
use iouring_cc.Files.Entries.{erase-cons_self}
use iouring_cc.Files.Slots.{claim-eq-set, claim-free, set-set_back}
use iouring_cc.Files.Invariant.{IsValid, with_file, without_file}

-- The slot that `Add` takes.
abbrev pub slot : ℤ → Table → ℕ
slot fd t = (claim fd t.free_ids).0

pub look_up_absent : (fd : ℤ) (t : Table) → look_up fd t ≡ invalid_id → find fd t.fd_to_index ≡ none
unfolding look_up
look_up_absent fd t h = ground arith

pub look_up_found :
    (fd : ℤ) (i : ℕ) (t : Table) → find fd t.fd_to_index ≡ some i → look_up fd t ≡ pos i
unfolding look_up
look_up_found fd i t h = ground arith

pub look_up_missing :
    (fd : ℤ) (t : Table) → find fd t.fd_to_index ≡ none → look_up fd t ≡ invalid_id
unfolding look_up
look_up_missing fd t h = ground arith

pub slot_free :
    (fd : ℤ) (t : Table)
    → IsValid t
    → length t.fd_to_index < t.max_size
    → get_elem? t.free_ids (slot fd t) ≡ some invalid_id
slot_free fd t v room = claim-free fd t.free_ids (omega (arith, v.sized, v.counted))

pub slot_lt :
    (fd : ℤ) (t : Table) → IsValid t → length t.fd_to_index < t.max_size → slot fd t < t.max_size
slot_lt fd t v room =
    omega (arith, v.sized, get_elem?-lt t.free_ids (slot fd t) (slot_free fd t v room))

-- `Add` of a new descriptor.
pub add_fresh :
    (fd : ℤ) (t : Table)
    → find fd t.fd_to_index ≡ none
    → add fd t ≡ (slot fd t, with_file fd (slot fd t) t)
unfolding add
add_fresh fd t h = ground (arith, claim-eq-set fd t.free_ids)

-- `Add` of a descriptor that the table holds.
pub add_known : (fd : ℤ) (i : ℕ) (t : Table) → find fd t.fd_to_index ≡ some i → add fd t ≡ (i, t)
unfolding add
add_known fd i t h = ground arith

pub remove_held :
    (fd : ℤ) (i : ℕ) (t : Table)
    → find fd t.fd_to_index ≡ some i
    → remove fd t ≡ without_file fd i t
unfolding remove
remove_held fd i t h = ground arith

pub remove_absent : (fd : ℤ) (t : Table) → find fd t.fd_to_index ≡ none → remove fd t ≡ t
unfolding remove
remove_absent fd t h = ground arith

-- Releasing what was just added gives the table back, slot for slot.
pub without_file-with_file :
    (fd : ℤ) (i : ℕ) (t : Table)
    → get_elem? t.free_ids i ≡ some invalid_id
    → without_file fd i (with_file fd i t) ≡ t
without_file-with_file fd i t free =
    ground (arith, erase-cons_self fd i t.fd_to_index, set-set_back t.free_ids i fd invalid_id free)

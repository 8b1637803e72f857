-- ===== src/Files/Table.antt =====
-- `IoUringFileFdContainer` of iouring/io_uring.h and iouring/io_uring.cc: the map from a file
-- descriptor to its slot, and the slots. `free_ids_` has `max_size_` entries from the constructor
-- and from `CleanUp` on, so the loops that count to `max_size_` walk the list.
use iouring_cc.Common.{
  ℕ, suc, Option, none, some, List, [], ◌∷◌, if◌then◌else◌, length, set, replicate,
}
use iouring_cc.Common.Int.{ℤ, pos, negsuc, eqb_ℤ}

-- `INVALID_ID`.
abbrev pub invalid_id : ℤ
invalid_id = negsuc 0

-- `std::map<int, int>::find`.
unfoldable pub find : ℤ → List (ℤ × ℕ) → Option ℕ
find fd [] = none
find fd ((k, i) ∷ m) = if eqb_ℤ k fd then some i else find fd m

-- `std::map<int, int>::erase` of the entry of a key.
unfoldable pub erase : ℤ → List (ℤ × ℕ) → List (ℤ × ℕ)
erase fd [] = []
erase fd ((k, i) ∷ m) = if eqb_ℤ k fd then m else (k, i) ∷ erase fd m

pub record Table : Type 0 where
  pub max_size : ℕ
  pub fd_to_index : List (ℤ × ℕ)
  pub free_ids : List ℤ

unfoldable pub new_table : ℕ → Table
new_table n = record { max_size = n; fd_to_index = []; free_ids = replicate n invalid_id }

abbrev pub index_or_invalid : Option ℕ → ℤ
index_or_invalid none = invalid_id
index_or_invalid (some i) = pos i

unfoldable pub look_up : ℤ → Table → ℤ
look_up fd t = index_or_invalid (find fd t.fd_to_index)

abbrev remove_at : ℤ → Table → Option ℕ → Table
remove_at fd t none = t
remove_at fd t (some i) = record t {
  fd_to_index = erase fd t.fd_to_index;
  free_ids = set t.free_ids i invalid_id;
}

unfoldable pub remove : ℤ → Table → Table
remove fd t = remove_at fd t (find fd t.fd_to_index)

-- The loop of `Add`: the first free slot takes the descriptor. Its index is `max_size_` if no slot
-- is free.
unfoldable pub claim : ℤ → List ℤ → ℕ × List ℤ
claim fd [] = (0, [])
claim fd (x ∷ xs) =
    let (i, ys) = claim fd xs in if eqb_ℤ x invalid_id then (0, fd ∷ xs) else (suc i, x ∷ ys)

abbrev add_at : ℤ → Table → Option ℕ → ℕ × Table
add_at fd t (some i) = (i, t)
add_at fd t none =
    let (i, ids) = claim fd t.free_ids in
    (i, record t { fd_to_index = (fd, i) ∷ t.fd_to_index; free_ids = ids })

unfoldable pub add : ℤ → Table → ℕ × Table
add fd t = add_at fd t (find fd t.fd_to_index)

unfoldable pub clean_up : Table → Table
clean_up t = record t { fd_to_index = []; free_ids = replicate t.max_size invalid_id }

unfoldable pub size : Table → ℕ
size t = length t.fd_to_index

unfoldable pub capacity : Table → ℕ
capacity t = t.max_size

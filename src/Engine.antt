-- ===== src/Engine.antt =====
-- `IoUring::HandleCqe` of iouring/io_uring.cc, and the loop over a batch of completion entries.
mod Tests
pub mod Counts
pub mod Once
pub mod Multishot
pub mod Deliver
use iouring_cc.Common.{ℕ, ◌/◌, ◌^◌, ◌==◌, List, [], ◌∷◌, ◌++◌, Option, none, some, if◌then◌else◌}
use iouring_cc.Common.Int.{ℤ, negsuc, ◌+ℤ◌, eqb_ℤ}
use iouring_cc.Common.Outcome.{Outcome, done, aborted, undefined, ◌>>=◌}
use iouring_cc.Request.Flags.{cqe_buffer}
use iouring_cc.Pools.{BufferPool, get_buffer, find_pool}
use iouring_cc.Completion.{Completion, Completed, Answer, complete_with, invalid_gid}
use iouring_cc.Completion.Entry.{Cqe, flag_set}

-- The completions that are alive, by their addresses; `submission_pending_count_`; the results that
-- callbacks were called with, and the values of the promises, each with the address of its completion, the first
-- one first.
pub record Engine : Type 0 where
  pub handlers : List (ℕ × Completion)
  pub pools : List (ℤ × BufferPool)
  pub pending : ℤ
  pub told : List (ℕ × ℤ)
  pub answers : List (ℕ × Answer)

-- `LIBURING_UDATA_TIMEOUT`.
abbrev pub udata_timeout : ℕ
udata_timeout = 18_446_744_073_709_551_615

unfoldable pub find_handler : ℕ → List (ℕ × Completion) → Option Completion
find_handler a [] = none
find_handler a ((b, m) ∷ hs) = if b == a then some m else find_handler a hs

-- The object at an address after `Complete`: what it has become, or its memory released.
abbrev pub replaced : ℕ → Option Completion → List (ℕ × Completion) → List (ℕ × Completion)
replaced a o [] = []
replaced a none ((b, m) ∷ hs) =
    let rest = replaced a none hs in if b == a then rest else (b, m) ∷ rest
replaced a (some n) ((b, m) ∷ hs) =
    let rest = replaced a (some n) hs in if b == a then (b, n) ∷ rest else (b, m) ∷ rest

abbrev pub told_as : ℕ → Option ℤ → List (ℕ × ℤ)
told_as a none = []
told_as a (some v) = (a, v) ∷ []

unfoldable pub record_completed : ℕ → Completed → Engine → Engine
record_completed a o e = record e {
  handlers = replaced a o.left e.handlers;
  told = e.told ++ told_as a o.told;
  answers = e.answers ++ ((a, o.answer) ∷ []);
}

-- `buffer_pools_.find(handler->Gid())` after its assertion.
abbrev pub pool_of : Option BufferPool → Outcome BufferPool
pool_of none = aborted
pool_of (some p) = done p

-- The address of a completion that is gone is dangling.
abbrev pub handler_at : Option Completion → Outcome Completion
handler_at none = undefined
handler_at (some m) = done m

-- `handler->CompleteWith`.
unfoldable pub answer_with : Cqe → Option ℕ → Completion → Engine → Outcome Engine
unfolding record_completed complete_with
answer_with cqe buffer m e = do
  o ← complete_with cqe buffer m
  done (record_completed cqe.user_data o e)

-- `HandleCqe` for a completion with a group, once the pool is found.
unfoldable pub handle_provided : Cqe → Completion → Engine → BufferPool → Outcome Engine
handle_provided cqe m e p =
    if flag_set cqe.flags cqe_buffer
    then (do buffer ← get_buffer p (cqe.flags / 2 ^ 16); answer_with cqe (some buffer) m e)
    else done e

-- `HandleCqe` for the completion that the entry names.
unfoldable pub handle_with : Cqe → Completion → Engine → Outcome Engine
handle_with cqe m e =
    if eqb_ℤ m.buf_gid invalid_gid
    then answer_with cqe none m e
    else (pool_of (find_pool m.buf_gid e.pools) >>= λ p. handle_provided cqe m e p)

unfoldable pub handle_cqe : Cqe → Engine → Outcome Engine
unfolding handle_with
handle_cqe cqe e =
    if cqe.user_data == udata_timeout
    then done e
    else let e' = record e { pending = e.pending +ℤ negsuc 0 } in
      if cqe.user_data == 0
      then done e'
      else (do m ← handler_at (find_handler cqe.user_data e.handlers); handle_with cqe m e')

-- The loop of `DoProcessComplitionsRing` over the entries that `io_uring_peek_batch_cqe` gave.
unfoldable pub handle_cqes : List Cqe → Engine → Outcome Engine
handle_cqes [] e = done e
handle_cqes (cqe ∷ rest) e = do e' ← handle_cqe cqe e; handle_cqes rest e'

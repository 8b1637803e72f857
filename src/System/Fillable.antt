-- ===== src/System/Fillable.antt =====
-- The requests whose entry the switch fills in, or at which an assertion fails, whatever pools of
-- buffers there are.
use iouring_cc.Common.{ℕ, ◌≡◌, refl, true, false, List, Option, none, some}
use iouring_cc.Common.Int.{ℤ}
use iouring_cc.Common.Outcome.{done, ◌>>=◌}
use iouring_cc.Common.Safely.{Safely}
use iouring_cc.Pools.{BufferPool, find_pool, pool_count}
use iouring_cc.Request.Payload.{IoRequest, CommonVars}
use iouring_cc.Request.MakeMisc.{make_remove_buffer}
use iouring_cc.Sqe.Entry.{Sqe}
use iouring_cc.Sqe.Misc.{remove_buffer}
use iouring_cc.Sqe.Dispatch.{Context, Prepared, filled, unimplemented, dispatch, fill}
use iouring_cc.Sqe.Made.{Made}
use iouring_cc.Sqe.Fills.{dispatch-Made}
use iouring_cc.Submit.Entries.{is_filled_cases}
use iouring_cc.Api.Calls.{Call}
use iouring_cc.Api.Contracts.{supported}

abbrev pub Filled : Prepared → Type 0
Filled (filled s pools) = true ≡ true
Filled unimplemented = true ≡ false

abbrev pub Fillable : IoRequest → Type 0
Fillable r = (y : Context) (c : ℕ) (s : Sqe) → Safely Filled (fill y r c s)

pub Made-Fillable : (r : IoRequest) → ((y : Context) → Made y r) → Fillable r
Made-Fillable r m y c s =
    let (s', pools, e) = is_filled_cases (fill y r c s) (dispatch-Made y r c s (m y)) in rw e refl

counted :
    (o : Option BufferPool) (f : ℕ → Sqe) (g : ℕ → List (ℤ × BufferPool))
    → Safely Filled (
        ◌>>=◌ {A = Sqe × List (ℤ × BufferPool)}
          (pool_count o >>= λ n. done (f n, g n))
          (λ p. done (filled p.0 p.1)))
counted (some p) f g = refl
counted none f g = refl

-- The removal of buffers is filled in, or the assertion that the group has a pool fails.
pub make_remove_buffer-Fillable :
    (nbufs : ℕ) (gid : ℤ) (v : CommonVars) → Fillable (make_remove_buffer nbufs gid v)
unfolding dispatch remove_buffer make_remove_buffer
make_remove_buffer-Fillable nbufs gid v y c s = counted (find_pool gid y.pools) _ _

-- The call is `RemoveBuffer`, or it is supported whatever pools there are by the time its request is
-- taken from the queue. Only the removal and the update of a timeout, `Socket`, and `ProvideBuffer`
-- of length 0 are neither.
abbrev pub Harmless : Call → Type 0
Harmless (Call.remove_buffer nbufs gid) = true ≡ true
Harmless c = (y : Context) → supported y c ≡ true

pub data IsRemoval : Call → Type 0 where
  removal : (nbufs : ℕ) (gid : ℤ) → IsRemoval (Call.remove_buffer nbufs gid)
  other : {c : Call} → (Harmless c → (y : Context) → supported y c ≡ true) → IsRemoval c

pub IsRemoval-cases : (c : Call) → IsRemoval c
IsRemoval-cases (Call.remove_buffer nbufs gid) = removal nbufs gid
IsRemoval-cases _ = other (λ h. h)

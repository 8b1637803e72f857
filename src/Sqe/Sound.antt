-- ===== src/Sqe/Sound.antt =====
-- The pools that the handlers leave: those that there were, but for one that `RemoveBuffer` erases.
use iouring_cc.Common.{ℕ, ◌==◌, ◌≡◌, refl, subst, Bool, true, false, List, if◌then◌else◌, arith}
use iouring_cc.Common.Int.{ℤ}
use iouring_cc.Common.Outcome.{done}
use iouring_cc.Common.Safely.{Ends, Ends->>=, Ends-done}
use iouring_cc.Pools.{BufferPool, find_pool, erase_pool, pool_count}
use iouring_cc.Pools.Sound.{SoundPools, erase_pool-SoundPools}
use iouring_cc.Request.Operation.{Operation}
use iouring_cc.Request.Payload.{IoRequest}
use iouring_cc.Request.Members.{as_provide_buff}
use iouring_cc.Sqe.Entry.{Sqe}
use iouring_cc.Sqe.Dispatch.{Context, Prepared, filled, unimplemented, dispatch}
use iouring_cc.Sqe.Misc.{remove_buffer}

erased_if :
    (b : Bool) (g : ℤ) (ps : List (ℤ × BufferPool))
    → SoundPools ps
    → SoundPools (if b then erase_pool g ps else ps)
erased_if true g ps s = erase_pool-SoundPools g ps s
erased_if false g ps s = s

remove_buffer-SoundPools :
    (ps : List (ℤ × BufferPool)) (r : IoRequest) (c : ℕ) (s : Sqe)
    → SoundPools ps
    → Ends true (λ o. SoundPools o.1) (remove_buffer ps r c s)
unfolding remove_buffer
remove_buffer-SoundPools ps r c s h =
    Ends->>= true (λ x. true ≡ true) (λ o. SoundPools o.1) (as_provide_buff r.payload) _
      (Ends-done _ (as_provide_buff r.payload) (λ x e. refl))
      (λ op t.
        Ends->>= true (λ x. true ≡ true) (λ o. SoundPools o.1) (pool_count (find_pool op.gid ps)) _
          (Ends-done _ (pool_count (find_pool op.gid ps)) (λ x e. refl))
          (λ count u. erased_if ((if op.nbufs == 0 then count else op.nbufs) == 0) op.gid ps h))

-- What the switch leaves.
abbrev SoundOf : Prepared → Type 0
SoundOf (filled s ps) = SoundPools ps
SoundOf unimplemented = true ≡ true

module _ (x : Context) (r : IoRequest) (c : ℕ) (s s' : Sqe) (pools : List (ℤ × BufferPool))
    (sound : SoundPools x.pools) where
  -- Where the buffers of every pool lie within its memory, they do so after the switch.
  pub dispatch-SoundPools :
      (op : Operation) → dispatch op x r c s ≡ done (filled s' pools) → SoundPools pools
  unfolding dispatch
  dispatch-SoundPools Operation.remove_buffers h = subst (Ends true (λ p. SoundOf p)) h (
      Ends->>= true (λ o. SoundPools o.1) SoundOf (remove_buffer x.pools r c s) _
        (remove_buffer-SoundPools x.pools r c s sound) (λ o t. t))
  dispatch-SoundPools _ h = subst SoundPools (ground arith) sound

-- ===== src/System/Safe.antt =====
-- The completions that an entry may come for, or that are queued, and what the thread of `IoUring`
-- does to them.
use iouring_cc.Common.{
  ap, ℕ, ◌==◌, ◌&&◌, ◌||◌, ◌≡◌, not, Bool, true, false, Bool-cases, inl, inr, List, [], ◌∷◌, length,
  some, arith,
}
use iouring_cc.Common.Int.{ℤ}
use iouring_cc.Common.Outcome.{done}
use iouring_cc.Common.Safely.{Safely, Safely-cases, Ends-weaken}
use native.Mathlib.Decide.{ℕ_discrete}
use iouring_cc.Files.Table.{Table}
use iouring_cc.Pools.{BufferPool}
use iouring_cc.Pools.Sound.{SoundPools}
use iouring_cc.Sqe.Sound.{dispatch-SoundPools}
use iouring_cc.Sqe.Carries.{dispatch-Carries}
use iouring_cc.System.Kept.{Kept, Prepares}
use iouring_cc.Engine.{Engine, handle_cqes}
use iouring_cc.Sqe.Entry.{Sqe}
use iouring_cc.Sqe.Dispatch.{Context, Prepared, filled, unimplemented, fill}
use iouring_cc.System.Fillable.{Filled, Fillable}
use iouring_cc.Submit.{Ring}
use iouring_cc.Submit.Thread.{Item}
use iouring_cc.System.Contract.{Contract, Tokens, retire_all}
use iouring_cc.System.Alive.{Covers}
use iouring_cc.System.Batch.{Apart, Apart-fewer, BothCovered, handle_cqes_safe, retire_all_known}

-- The completions that the items of the queue name.
abbrev pub queued : List Item → Tokens
queued [] a = false
queued (i ∷ items) a = i.1 == a || queued items a

-- No two items name the same completion.
abbrev pub distinct : List Item → Bool
distinct [] = true
distinct (i ∷ items) = not (queued items i.1) && distinct items

-- Every request is filled in when the thread comes to it, or an assertion fails.
abbrev pub AllFillable : List Item → Type 0
AllFillable [] = true ≡ true
AllFillable (i ∷ items) = Fillable i.0 × AllFillable items

module _ {R : Type 0} (sys : Ring R) (k : Contract sys) where
  -- What is under way and what is queued is alive, nothing is both, and the pools have memory for
  -- their buffers.
  pub record Safe (items : List Item) (r : R) (e : Engine) : Type 0 where
    pub alive_known : Covers (k.known r) e
    pub alive_queued : Covers (queued items) e
    pub apart : Apart (k.known r) (queued items)
    pub is_distinct : distinct items ≡ true
    pub all_fillable : AllFillable items
    pub sound_pools : SoundPools e.pools

  pub Safe-fewer :
      (items : List Item) (r r' : R) (e : Engine)
      → ((a : ℕ) → k.known r' a ≡ true → k.known r a ≡ true)
      → Safe items r e
      → Safe items r' e
  Safe-fewer items r r' e f s = record {
    alive_known = λ a h. s.alive_known a (f a h);
    alive_queued = s.alive_queued;
    apart = Apart-fewer (k.known r) (k.known r') (queued items) f s.apart;
    is_distinct = s.is_distinct;
    all_fillable = s.all_fillable;
    sound_pools = s.sound_pools;
  }

  -- A request that is out of the queue is safe there.
  drop_head :
      (i : Item) (items : List Item) (r : R) (e : Engine) → Safe (i ∷ items) r e → Safe items r e
  drop_head i items r e s = record {
    alive_known = s.alive_known;
    alive_queued = λ a h. s.alive_queued a (ground (arith, h));
    apart = λ a h. s.apart a (ground (arith, h));
    is_distinct = ground (arith, s.is_distinct);
    all_fillable = s.all_fillable.1;
    sound_pools = s.sound_pools;
  }

  module _ (i : Item) (items : List Item) (r r' : R) (e : Engine) (x y : Sqe)
      (pools : List (ℤ × BufferPool)) (g : sys.get_sqe r ≡ (some x, r')) (c : y.user_data ≡ i.1)
      (s : Safe (i ∷ items) r e) where
    put_known : (a : ℕ) → k.known (sys.put_sqe y r') a ≡ true → (i.1 == a || k.known r a) ≡ true
    put_known a h = ground (arith, c, k.put_keeps r r' x y a g h)

    put_alive : Covers (k.known (sys.put_sqe y r')) e
    put_alive a h = elim (Bool-cases (k.known r a)) [
      | inl t ↦ s.alive_known a t
      | inr n ↦ s.alive_queued a (ground (arith, put_known a h))
    ]

    head_once : queued items i.1 ≡ false
    head_once = ground (arith, s.is_distinct)

    put-Apart : Apart (k.known (sys.put_sqe y r')) (queued items)
    put-Apart a h = elim (Bool-cases (k.known (sys.put_sqe y r') a)) [
      | inr n ↦ ground (arith, s.apart a)
      | inl t ↦ elim (ℕ_discrete a i.1) [
        | yes q ↦ absurd (cc (h, ap (queued items) q, head_once))
        | no n ↦ ground (arith, s.apart a, put_known a t)
      ]
    ]

    -- The head of the queue goes into the ring.
    put_head : SoundPools pools → Safe items (sys.put_sqe y r') (record e { pools = pools })
    put_head sound = record {
      alive_known = put_alive;
      alive_queued = λ a h. s.alive_queued a (ground (arith, h));
      apart = put-Apart;
      is_distinct = ground (arith, s.is_distinct);
      all_fillable = s.all_fillable.1;
      sound_pools = sound;
    }

  batch-Safe :
      (items : List Item) (n : ℕ) (r : R) (e : Engine)
      → Safe items r e
      → Safely
          (Safe items
            (sys.cq_advance (length (sys.peek_batch_cqe n r).0) (sys.peek_batch_cqe n r).1))
          (handle_cqes (sys.peek_batch_cqe n r).0 e)
  batch-Safe items n r e s =
      let cqes = (sys.peek_batch_cqe n r).0 in
      Ends-weaken false (BothCovered (retire_all cqes (k.known r)) (queued items)) _ _
        (handle_cqes_safe cqes (k.known r) (queued items) e (k.peek_named n r) s.apart s.alive_known
          s.alive_queued s.sound_pools)
        (λ e' q. record {
          alive_known = λ a h. q.0 a (k.advance_retires n r a h);
          alive_queued = q.1;
          apart =
              Apart-fewer (k.known r) _ (queued items)
                (λ a h. retire_all_known cqes (k.known r) a (k.advance_retires n r a h)) s.apart;
          is_distinct = s.is_distinct;
          all_fillable = s.all_fillable;
          sound_pools = q.2;
        })

  -- Nothing depends on the count of pending submissions.
  same_count :
      (items : List Item) (r : R) (e : Engine) (n : ℤ)
      → Safe items r e
      → Safe items r (record e { pending = n })
  same_count items r e n s = record {
    alive_known = s.alive_known;
    alive_queued = s.alive_queued;
    apart = s.apart;
    is_distinct = s.is_distinct;
    all_fillable = s.all_fillable;
    sound_pools = s.sound_pools;
  }

  -- Other pools may take the place of those that there are.
  pub same_handlers :
      (items : List Item) (r : R) (e : Engine) (pools : List (ℤ × BufferPool))
      → SoundPools pools
      → Safe items r e
      → Safe items r (record e { pools = pools })
  same_handlers items r e pools sound s = record {
    alive_known = s.alive_known;
    alive_queued = s.alive_queued;
    apart = s.apart;
    is_distinct = s.is_distinct;
    all_fillable = s.all_fillable;
    sound_pools = sound;
  }

  filled-Safe :
      (i : Item) (items : List Item) (r r' : R) (e : Engine) (x : Sqe) (files : Table)
      (p : Prepared)
      → sys.get_sqe r ≡ (some x, r')
      → Safe (i ∷ items) r e
      → fill (record { files = files; pools = e.pools }) i.0 i.1 x ≡ done p
      → Filled p
      → Prepares sys false Safe items i r' e p
  filled-Safe i items r r' e x files unimplemented g s h f = cc
  filled-Safe i items r r' e x files (filled y pools) g s h f =
      let c : Context = record { files = files; pools = e.pools } in
      put_head i items r r' e x y pools g (dispatch-Carries c i.0 i.1 x y pools i.0.operation h).0 s
        (dispatch-SoundPools c i.0 i.1 x y pools s.sound_pools i.0.operation h)

  fill-Safe :
      (i : Item) (items : List Item) (r r' : R) (e : Engine) (x : Sqe) (files : Table)
      → sys.get_sqe r ≡ (some x, r')
      → Safe (i ∷ items) r e
      → Safely
          (Prepares sys false Safe items i r' e)
          (fill (record { files = files; pools = e.pools }) i.0 i.1 x)
  fill-Safe i items r r' e x files g s =
      let c : Context = record { files = files; pools = e.pools } in
      Safely-cases Filled (Prepares sys false Safe items i r' e) (fill c i.0 i.1 x)
        (s.all_fillable.0 c i.1 x) (λ p h f. filled-Safe i items r r' e x files p g s h f)

  pub Safe-kept : Kept sys false Safe
  Safe-kept = record {
    on_submit = λ items r e s. Safe-fewer items r _ e (λ a h. k.submit_keeps r a h) s;
    on_wait = λ items r e s. Safe-fewer items r _ e (λ a h. k.wait_keeps r a h) s;
    on_full = λ items r r' e g s. Safe-fewer items r r' e (λ a h. k.full_keeps r r' a g h) s;
    on_batch = batch-Safe;
    on_count = λ items r e n s. same_count items r e n s;
    on_drop = drop_head;
    on_fill = fill-Safe;
  }

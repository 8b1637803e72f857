-- ===== src/System/Idle.antt =====
-- The buffers that the constructor of `IoUring` provides, before there are calls.
use iouring_cc.Common.{
  ap, ◌∙◌, ◌*◌, ◌<◌, ◌^◌, ℕ, ◌==◌, ◌≡◌, refl, true, false, List, [], ◌∷◌, Option, none, some,
}
use iouring_cc.Common.Int.{ℤ}
use iouring_cc.Common.Outcome.{Outcome, done}
use iouring_cc.Common.Safely.{Ends, Ends->>=, Ends-if, Ends-weaken, Ends-done}
use iouring_cc.Status.{is_ok}
use iouring_cc.Completion.Entry.{Cqe}
use iouring_cc.Engine.{Engine, udata_timeout, find_handler, handler_at, handle_cqe, handle_cqes}
use iouring_cc.Sqe.Entry.{Sqe, Prep, prep}
use iouring_cc.Pools.Sound.{SoundPools, append-SoundPools, new_pool-Sound}
use iouring_cc.Sqe.Sound.{dispatch-SoundPools}
use iouring_cc.Pools.{BufferPool, new_pool, find_pool}
use iouring_cc.Sqe.Dispatch.{Prepared, filled, unimplemented, fill}
use iouring_cc.Submit.{Ring, Uring, get_sqe}
use iouring_cc.Submit.Thread.{Item}
use iouring_cc.System.Alive.{Any}
use iouring_cc.System.Kept.{Kept, Prepares}
use iouring_cc.System.Rings.{TakenAfter, get_sqe_keeps}
use iouring_cc.Setup.Construct.{Host, prepare, prepare_memory, prepare_sizes}
use iouring_cc.Setup.Groups.{
  with_entry, exchange, read_result, has_pool, with_pool, Waits, submit_provided_buffer_first,
  prepare_provided_buffer_first,
}

-- No completion is alive, no answer has been given, and the pools have memory for their buffers.
abbrev pub Idle : Engine → Type 0
Idle e = (e.handlers ≡ []) × (e.answers ≡ []) × SoundPools e.pools

-- The size of the buffers times their number fits in 32 bits, for every group.
abbrev pub SizesFit : List (ℤ × (ℕ × ℕ)) → Type 0
SizesFit [] = true ≡ true
SizesFit ((g, (size, count)) ∷ rest) = (count * size < 2 ^ 32) × SizesFit rest

abbrev pub MemoryFits : List (ℤ × BufferPool) → Type 0
MemoryFits [] = true ≡ true
MemoryFits ((g, p) ∷ rest) = (p.buffer_count * p.buffer_size < 2 ^ 32) × MemoryFits rest

abbrev Never : {A : Type 0} → A → Type 0
Never a = false ≡ true

pub Ends-Any : {A : Type 0} (m : Outcome A) → Ends true Any m
Ends-Any m = Ends-done Any m (λ a h. refl)

absent : (a : ℕ) (e : Engine) → Idle e → Ends true Never (handler_at (find_handler a e.handlers))
unfolding find_handler
absent a e i = rw i.0 refl

handle_cqe-Idle : (c : Cqe) (e : Engine) → Idle e → Ends true Idle (handle_cqe c e)
unfolding handle_cqe
handle_cqe-Idle c e i =
    Ends-if true Idle (c.user_data == udata_timeout) _ _ (λ x. i)
      (λ x.
        Ends-if true Idle (c.user_data == 0) _ _ (λ y. i)
          (λ y.
            Ends->>= true Never Idle (handler_at (find_handler c.user_data e.handlers)) _
              (absent c.user_data e i) (λ m n. absurd (cc n))))

handle_cqes-Idle : (cqes : List Cqe) (e : Engine) → Idle e → Ends true Idle (handle_cqes cqes e)
unfolding handle_cqes
handle_cqes-Idle [] e i = i
handle_cqes-Idle (c ∷ rest) e i =
    Ends->>= true Idle Idle (handle_cqe c e) _ (handle_cqe-Idle c e i)
      (λ e' j. handle_cqes-Idle rest e' j)

abbrev IdleRing : {R : Type 0} → List Item → R → Engine → Type 0
IdleRing items r e = Idle e

module _ {R : Type 0} (sys : Ring R) where
  Prepares-Idle :
      (i : Item) (items : List Item) (r : R) (e : Engine) (p : Prepared)
      → ((s : Sqe) (pools : List (ℤ × BufferPool)) → p ≡ filled s pools → SoundPools pools)
      → Idle e
      → Prepares sys true IdleRing items i r e p
  Prepares-Idle i items r e (filled s pools) f h = (h.0, h.1, f s pools refl)
  Prepares-Idle i items r e unimplemented f h = λ junk.
      Ends->>= true Never Idle (handler_at (find_handler i.1 e.handlers)) _ (absent i.1 e h)
        (λ m n. absurd (cc n))

  idle_kept : Kept sys true IdleRing
  idle_kept = record {
    on_submit = λ items r e s. s;
    on_wait = λ items r e s. s;
    on_full = λ items r r' e g s. s;
    on_batch = λ items n r e s. handle_cqes-Idle (sys.peek_batch_cqe n r).0 e s;
    on_count = λ items r e n s. s;
    on_drop = λ i items r e s. s;
    on_fill = λ i items r r' e x files g s.
        Ends-done (Prepares sys true IdleRing items i r' e)
          (fill (record { files = files; pools = e.pools }) i.0 i.1 x)
          (λ p h.
            Prepares-Idle i items r' e p
              (λ y pools q.
                dispatch-SoundPools (record { files = files; pools = e.pools }) i.0 i.1 x y pools
                  s.2 i.0.operation (h ∙ ap done q))
              s);
  }

  abbrev IdleAfter : {A : Type 0} → A × Uring R → Type 0
  IdleAfter x = Idle x.1.engine

  taken_idle :
      (o : Option Sqe × Uring R) → TakenAfter sys true IdleRing idle_kept [] o → IdleAfter o
  taken_idle (none, u) i = i
  taken_idle (some s, u) (r, g, i) = i

  get_sqe-Idle : (fuel : ℕ) (u : Uring R) → Idle u.engine → Ends true IdleAfter (get_sqe sys fuel u)
  get_sqe-Idle fuel u i =
      Ends-weaken true (TakenAfter sys true IdleRing idle_kept []) IdleAfter (get_sqe sys fuel u)
        (get_sqe_keeps sys true IdleRing idle_kept [] fuel u i) taken_idle

  module _ (waits : Waits R) (fuel : ℕ) where
    read_result-Idle :
        (o : Option ℤ × Uring R)
        → Idle o.1.engine
        → Ends true IdleAfter (read_result sys waits fuel o)
    read_result-Idle (none, v) i = refl
    read_result-Idle (some ret, v) i = i

    entry-Idle :
        (bufs : ℕ) (gid : ℤ) (size count : ℕ) (x : Option Sqe) (u : Uring R)
        → Idle u.engine
        → Ends true IdleAfter (
            with_entry x (λ s.
              read_result sys waits fuel
                (exchange sys waits fuel (prep (Prep.provide_buffers bufs size count gid 0) s) u)))
    entry-Idle bufs gid size count none u i = refl
    entry-Idle bufs gid size count (some s) u i =
        read_result-Idle
          (exchange sys waits fuel (prep (Prep.provide_buffers bufs size count gid 0) s) u) i

    submit_first-Idle :
        (bufs : ℕ) (gid : ℤ) (size count : ℕ) (u : Uring R)
        → Idle u.engine
        → Ends true IdleAfter (submit_provided_buffer_first sys waits fuel bufs gid size count u)
    unfolding submit_provided_buffer_first
    submit_first-Idle bufs gid size count u i =
        Ends->>= true IdleAfter IdleAfter (get_sqe sys fuel u) _ (get_sqe-Idle fuel u i)
          (λ o j. entry-Idle bufs gid size count o.0 o.1 j)

    prepare_first-Idle :
        (gid : ℤ) (bufs size count : ℕ) (u : Uring R)
        → count * size < 2 ^ 32
        → Idle u.engine
        → Ends true IdleAfter (prepare_provided_buffer_first sys waits fuel gid bufs size count u)
    unfolding prepare_provided_buffer_first
    prepare_first-Idle gid bufs size count u fits i =
        Ends-if true IdleAfter (has_pool sys waits fuel (find_pool gid u.engine.pools)) _ _ (λ x. i)
          (λ x.
            Ends-if true IdleAfter (count == 0) _ _ (λ y. refl)
              (λ y.
                Ends-if true IdleAfter (size == 0) _ _ (λ z. refl)
                  (λ z.
                    submit_first-Idle bufs gid size count
                      (with_pool sys waits fuel gid (new_pool size count bufs) u)
                      (
                        i.0,
                        i.1,
                        append-SoundPools u.engine.pools gid (new_pool size count bufs) i.2
                            (new_pool-Sound size count bufs fits),
                      ))))

    module _ (host : Host R) where
      prepare-Idle :
          (gid : ℤ) (bufs size count : ℕ) (u : Uring R)
          → count * size < 2 ^ 32
          → Idle u.engine
          → Ends true (λ v. Idle v.engine) (prepare sys waits host fuel gid bufs size count u)
      prepare-Idle gid bufs size count u fits i =
          Ends->>= true IdleAfter (λ v. Idle v.engine)
            (prepare_provided_buffer_first sys waits fuel gid bufs size count u) _
            (prepare_first-Idle gid bufs size count u fits i)
            (λ o j. Ends-if true (λ v. Idle v.engine) (is_ok o.0) _ _ (λ x. j) (λ x. refl))

      pub prepare_memory-Idle :
          (l : List (ℤ × BufferPool)) (u : Uring R)
          → MemoryFits l
          → Idle u.engine
          → Ends true (λ v. Idle v.engine) (prepare_memory sys waits host fuel l u)
      unfolding prepare_memory
      prepare_memory-Idle [] u fits i = i
      prepare_memory-Idle ((gid, p) ∷ rest) u fits i =
          Ends->>= true (λ v. Idle v.engine) (λ v. Idle v.engine)
            (prepare sys waits host fuel gid p.base p.buffer_size p.buffer_count u) _
            (prepare-Idle gid p.base p.buffer_size p.buffer_count u fits.0 i)
            (λ v j. prepare_memory-Idle rest v fits.1 j)

      pub prepare_sizes-Idle :
          (allocated : ℤ → ℕ) (l : List (ℤ × (ℕ × ℕ))) (u : Uring R)
          → SizesFit l
          → Idle u.engine
          → Ends true (λ v. Idle v.engine) (prepare_sizes sys waits host fuel allocated l u)
      unfolding prepare_sizes
      prepare_sizes-Idle allocated [] u fits i = i
      prepare_sizes-Idle allocated ((gid, (size, count)) ∷ rest) u fits i =
          Ends->>= true (λ v. Idle v.engine) (λ v. Idle v.engine)
            (prepare sys waits host fuel gid (allocated gid) size count u) _
            (prepare-Idle gid (allocated gid) size count u fits.0 i)
            (λ v j. prepare_sizes-Idle allocated rest v fits.1 j)

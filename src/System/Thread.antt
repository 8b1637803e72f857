-- ===== src/System/Thread.antt =====
-- The thread of `IoUring` keeps an invariant, from one round to the next.
use iouring_cc.Common.{
  ℕ, suc, ◌+◌, ◌==◌, ◌&&◌, ◌≡◌, refl, subst, sym, not, Bool, true, false, Bool-cases, inl, inr,
  List, [], ◌∷◌, Option, none, some, arith, leb, bit_and, bit_or,
}
use iouring_cc.Common.Int.{ℤ, pos, ltb_ℤ}
use iouring_cc.Common.Outcome.{Outcome, done, aborted, undefined, running, ◌>>=◌}
use iouring_cc.Common.Safely.{Ends, Ends->>=, Ends-if}
use iouring_cc.Status.{
  Status, ok_status, is_unimplemented, resource_exhausted_error, unimplemented_error,
}
use iouring_cc.Request.Flags.{io_link, io_hardlink}
use iouring_cc.Completion.{Completion}
use iouring_cc.Engine.{Engine, find_handler, handler_at}
use iouring_cc.Sqe.Entry.{Sqe}
use iouring_cc.Sqe.Dispatch.{Prepared, filled, unimplemented, fill}
use iouring_cc.Submit.{
  Ring, Uring, get_sqe, prepare_entry, prepare_sqe, submit_to_kernel_ring, submit_to_kernel,
  process_completions_ring,
}
use iouring_cc.Submit.Thread.{Item, Round, consumed, consume, flush, finish_round}
use iouring_cc.Sink.{Sink, drain_loop, drain}
use iouring_cc.System.Kept.{Kept, Prepares, refuse}
use iouring_cc.System.Rings.{
  After, TakenAfter, get_sqe_keeps, submit_to_kernel_keeps, process_completions_ring_keeps,
}

module _ {R : Type 0} (sys : Ring R) (ub : Bool) (I : List Item → R → Engine → Type 0)
    (k : Kept sys ub I) where
  -- The invariant after `PrepareSqe`, or after the answer to a request that it does not know.
  abbrev Settled : List Item → Item → Status × Uring R → Type 0
  Settled items i x =
      (is_unimplemented x.0 ≡ false → I items x.1.ring x.1.engine)
      × (is_unimplemented x.0 ≡ true
          → (junk : ℕ) → Ends ub (I items x.1.ring) (refuse i junk x.1.engine))

  filled_keeps :
      (i : Item) (items : List Item) (u : Uring R) (p : Prepared)
      → Prepares sys ub I items i u.ring u.engine p
      → Ends ub (Settled items i) (elim p [
        | unimplemented ↦ done (unimplemented_error "Operation is not implemented", u)
        | filled s' pools ↦ done (
          ok_status,
          record u {
            ring = sys.put_sqe s' u.ring;
            engine = record u.engine { pools = pools };
            linked_sqe = not (bit_and s'.flags (bit_or io_link io_hardlink) == 0);
          },
        )
      ])
  unfolding ok_status is_unimplemented unimplemented_error
  filled_keeps i items u (filled s pools) h = (λ x. h, λ x. cc)
  filled_keeps i items u unimplemented h = (λ x. cc, λ x. h)

  prepare_entry_keeps :
      (i : Item) (items : List Item) (x : Option Sqe) (u : Uring R)
      → TakenAfter sys ub I k (i ∷ items) (x, u)
      → Ends ub (Settled items i) (prepare_entry sys i.0 i.1 x u)
  unfolding prepare_entry is_unimplemented resource_exhausted_error
  prepare_entry_keeps i items none u s = (λ x. k.on_drop i items u.ring u.engine s, λ x. cc)
  prepare_entry_keeps i items (some b) u (r, g, s) =
      Ends->>= ub (Prepares sys ub I items i u.ring u.engine) (Settled items i) (fill _ i.0 i.1 b) _
        (k.on_fill i items r u.ring u.engine b u.files g s) (λ p h. filled_keeps i items u p h)

  refused_keeps :
      (items : List Item) (u : Uring R) (h : Outcome Completion) (f : Completion → Outcome Engine)
      → Ends ub (I items u.ring) (h >>= f)
      → Ends ub
          (After sys ub I k items)
          (h >>= λ m. f m >>= λ e. done (true, record u { engine = e }))
  refused_keeps items u (done m) f s =
      Ends->>= ub (I items u.ring) (After sys ub I k items) (f m) _ s (λ e t. t)
  refused_keeps items u aborted f s = refl
  refused_keeps items u undefined f s = s
  refused_keeps items u running f s = refl

  submit_ring_keeps :
      (i : Item) (items : List Item) (fuel junk : ℕ) (u : Uring R)
      → I (i ∷ items) u.ring u.engine
      → Ends ub (After sys ub I k items) (submit_to_kernel_ring sys fuel junk i.0 i.1 u)
  unfolding submit_to_kernel_ring prepare_sqe
  submit_ring_keeps i items fuel junk u s =
      Ends->>= ub (Settled items i) (After sys ub I k items) (prepare_sqe sys fuel i.0 i.1 u) _
        (Ends->>= ub (TakenAfter sys ub I k (i ∷ items)) (Settled items i) (get_sqe sys fuel u) _
          (get_sqe_keeps sys ub I k (i ∷ items) fuel u s)
          (λ o t. prepare_entry_keeps i items o.0 o.1 t))
        (λ o t.
          Ends-if ub (After sys ub I k items) (is_unimplemented o.0) _ _
            (λ x.
              refused_keeps items o.1 (handler_at (find_handler i.1 o.1.engine.handlers)) _
                (t.1 x junk))
            (λ x. t.0 x))

  -- The invariant holds of the state of `Drain`, if there is one.
  abbrev pub Held : List Item → Outcome (Uring R) → Type 0
  Held items = Ends ub (λ u. I items u.ring u.engine)

  consumed_keeps :
      (items : List Item) (m : Outcome (Bool × Uring R))
      → Ends ub (After sys ub I k items) m
      → Held items (consumed m).1
  consumed_keeps items (done x) s = s
  consumed_keeps items aborted s = refl
  consumed_keeps items undefined s = cc
  consumed_keeps items running s = refl

  module _ (fuel junk : ℕ) where
    consume_keeps :
        (i : Item) (items : List Item) (m : Outcome (Uring R))
        → Held (i ∷ items) m
        → Held items (consume sys fuel junk m i).1
    unfolding consume
    consume_keeps i items (done u) s =
        consumed_keeps items _ (submit_ring_keeps i items fuel junk u s)
    consume_keeps i items aborted s = refl
    consume_keeps i items undefined s = cc
    consume_keeps i items running s = refl

    drain_loop_keeps :
        (max : ℕ) (stop_at : ℕ → Bool) (items : List Item) (d : ℕ) (m : Outcome (Uring R)) (n : ℕ)
        → Held items m
        → Held
            (drain_loop (consume sys fuel junk) max stop_at items d m n).left
            (drain_loop (consume sys fuel junk) max stop_at items d m n).state
    unfolding drain_loop
    drain_loop_keeps max stop_at [] d m n s = s
    drain_loop_keeps max stop_at (i ∷ items) d m n s =
        let next = consume_keeps i items m s in
        elim (Bool-cases (stop_at n)) [
          | inl a ↦ rw (a, drain_loop) s
          | inr a ↦ elim (Bool-cases (consume sys fuel junk m i).0) [
            | inr b ↦ rw (a, b, drain_loop) next
            | inl b ↦ elim (Bool-cases (leb max (d + 1))) [
              | inl c ↦ rw (a, b, c, drain_loop) next
              | inr c ↦
                  rw (a, b, c, drain_loop)
                    (drain_loop_keeps max stop_at items (d + 1) (consume sys fuel junk m i).1
                      (suc n) next)
            ]
          ]
        ]

    pub drain_keeps :
        (max : ℕ) (stop_at : ℕ → Bool) (q q' : Sink Item) (pending count : ℤ)
        (m m' : Outcome (Uring R))
        → drain (consume sys fuel junk) max stop_at q pending m ≡ some (count, m', q')
        → Held q.pending m
        → Held q'.pending m'
    unfolding drain
    drain_keeps max stop_at q q' pending count m m' e s =
        let o = drain_loop (consume sys fuel junk) max stop_at q.pending 0 m 1 in
        let left : q'.pending ≡ o.left = ground arith in
        let state : m' ≡ o.state = ground arith in
        subst (λ l. Held l m') (sym left)
          (subst (Held o.left) (sym state) (drain_loop_keeps max stop_at q.pending 0 m 1 s))

    flush_keeps :
        (items : List Item) (count : ℤ) (u : Uring R)
        → I items u.ring u.engine
        → Held items (flush sys fuel junk count u)
    unfolding flush
    flush_keeps items count u s =
        Ends-if ub (λ u. I items u.ring u.engine) (ltb_ℤ (pos 0) count && not u.linked_sqe) _ _
          (λ x.
            Ends->>= ub (After sys ub I k items) (λ u. I items u.ring u.engine)
              (submit_to_kernel sys fuel u) _ (submit_to_kernel_keeps sys ub I k items fuel u s)
              (λ o p. p))
          (λ x. s)

    pub finish_keeps :
        (items : List Item) (count : ℤ) (q : Sink Item) (u : Uring R)
        → I items u.ring u.engine
        → Ends ub (λ y. I items y.uring.ring y.uring.engine) (finish_round sys fuel junk count q u)
    unfolding finish_round
    finish_keeps items count q u s =
        let Done : Round R → Type 0 = λ y. I items y.uring.ring y.uring.engine in
        Ends->>= ub (λ u. I items u.ring u.engine) Done (flush sys fuel junk count u) _
          (flush_keeps items count u s)
          (λ v p.
            Ends-if ub Done (ltb_ℤ count (pos 0)) _ _ (λ x. p)
              (λ x.
                Ends->>= ub (After sys ub I k items) Done (process_completions_ring sys v) _
                  (process_completions_ring_keeps sys ub I k items v p) (λ o t. t)))

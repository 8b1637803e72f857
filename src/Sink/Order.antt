-- ===== src/Sink/Order.antt =====
-- What `Drain` does with the queue: first in, first out, and at most one request lost.
use iouring_cc.Common.{
  ℕ, suc, ◌+◌, ◌≤◌, ◌<◌, ◌≡◌, ◌⊎◌, refl, ap, inl, inr, Bool, true, false, List, [], ◌∷◌, ◌++◌,
  length, arith, some, Bool-cases, leb,
}
use iouring_cc.Common.Int.{ℤ, pos}
use iouring_cc.Sink.{Sink, Loop, drain_loop, drain, closed_result}

module _ {A S : Type 0} (consume : S → A → Bool × S) where
  -- `consume` accepts the requests of a list one after the other, and takes the state along.
  abbrev pub Accepts : S → List A → S → Type 0
  Accepts s [] t = t ≡ s
  Accepts s (a ∷ rest) t = (u : S) × (consume s a ≡ (true, u)) × Accepts u rest t

  module _ (max_drain : ℕ) (stop_at : ℕ → Bool) where
    -- The loop over a queue has handed a prefix of it over, in order, and either the rest is still
    -- queued, or `consume` has refused the next request, which is then in no queue.
    pub data Drained (q : List A) (d : ℕ) (s : S) (o : Loop A S) : Type 0 where
      kept :
          (xs : List A)
          → q ≡ xs ++ o.left
          → Accepts s xs o.state
          → o.drained ≡ d + length xs
          → o.drained ≤ max_drain
          → Drained q d s o
      lost :
          (xs : List A) (a : A) (t : S)
          → q ≡ xs ++ (a ∷ o.left)
          → Accepts s xs t
          → consume t a ≡ (false, o.state)
          → o.drained ≡ d + length xs
          → o.drained ≤ max_drain
          → Drained q d s o

    extend-Drained :
        (a : A) (q : List A) (d : ℕ) (s u : S) (o : Loop A S)
        → consume s a ≡ (true, u)
        → Drained q (d + 1) u o
        → Drained (a ∷ q) d s o
    extend-Drained a q d s u o e (kept xs p acc c m) =
        kept (a ∷ xs) (ap (λ l. a ∷ l) p) (u, e, acc) (omega arith) m
    extend-Drained a q d s u o e (lost xs b t p acc r c m) =
        lost (a ∷ xs) b t (ap (λ l. a ∷ l) p) (u, e, acc) r (omega arith) m

    drain_loop-Drained :
        (q : List A) (d : ℕ) (s : S) (n : ℕ)
        → d < max_drain
        → Drained q d s (drain_loop consume max_drain stop_at q d s n)
    unfolding drain_loop
    drain_loop-Drained [] d s n h = kept [] refl refl (omega arith) (omega arith)
    drain_loop-Drained (a ∷ q) d s n h = elim (Bool-cases (stop_at n)) [
      | inl e ↦ rw (e, drain_loop) (kept [] refl refl (omega arith) (omega arith))
      | inr e ↦ elim (Bool-cases (consume s a).0) [
        | inr f ↦
            rw (e, f, drain_loop)
              (lost [] a s refl refl (ap (λ b. (b, (consume s a).1)) f) (omega arith) (omega arith))
        | inl t ↦ elim (Bool-cases (leb max_drain (d + 1))) [
          | inl m ↦
              rw (e, t, m, drain_loop)
                (kept (a ∷ []) refl ((consume s a).1, ap (λ b. (b, (consume s a).1)) t, refl)
                  (omega arith) (omega arith))
          | inr m ↦
              rw (e, t, m, drain_loop)
                (extend-Drained a q d s (consume s a).1 _ (ap (λ b. (b, (consume s a).1)) t)
                  (drain_loop-Drained q (d + 1) (consume s a).1 (suc n) (ground arith)))
        ]
      ]
    ]

    -- A `Drain` of a positive limit that returns has handed over, in order and with success, a prefix
    -- of the queue of at most the limit. What follows is still queued, but for the one request that
    -- `consume` has refused, if it has: that one is in no queue. The result is the length of the
    -- prefix, or `-kClosed`.
    pub drain-Drained :
        (k k' : Sink A) (pending_sqe n : ℤ) (s t : S)
        → 0 < max_drain
        → drain consume max_drain stop_at k pending_sqe s ≡ some (n, t, k')
        → (o : Loop A S) × Drained k.pending 0 s o
          × (t ≡ o.state)
          × (k'.pending ≡ o.left)
          × ((n ≡ closed_result) ⊎ (n ≡ pos o.drained))
    unfolding drain
    drain-Drained k k' pending_sqe n s t h e = (
      drain_loop consume max_drain stop_at k.pending 0 s 1,
      drain_loop-Drained k.pending 0 s 1 h,
      ground arith,
      ground arith,
      ground arith,
    )

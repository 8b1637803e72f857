-- ===== src/Submit/Batch.antt =====
-- `DoProcessComplitionsRing`: at most so many entries as `cqes_` has room for.
use iouring_cc.Common.{
  ℕ, ◌≤◌, ◌≡◌, refl, true, false, List, length, min, arith, Bool-cases, inl, inr,
}
use iouring_cc.Common.Int.{pos, ◌+ℤ◌, ltb_ℤ}
use iouring_cc.Common.Outcome.{Outcome, done, >>=-eq-done}
use iouring_cc.Status.{Status, ok_status}
use iouring_cc.Completion.Entry.{Cqe}
use iouring_cc.Engine.{Engine, handle_cqes}
use iouring_cc.Engine.Counts.{answered_count, handle_cqes-pending}
use iouring_cc.Submit.{Ring, Uring, batch_limit, process_batch, do_process_completions_ring}

module _ {R : Type 0} (sys : Ring R)
    (bounded : (n : ℕ) (r : R) → length (sys.peek_batch_cqe n r).0 ≤ n) where
  -- What a call that returns has done: nothing but wait, or the handling of a batch.
  pub data Processed (m : ℕ) (u : Uring R) (x : Status × Uring R) : Type 0 where
    waited :
        ltb_ℤ (sys.wait_cqe_timeout u.ring).0 (pos 0) ≡ true
        → x.1 ≡ record u { ring = (sys.wait_cqe_timeout u.ring).1 }
        → Processed m u x
    handled :
        (cqes : List Cqe) (e : Engine) (r : R)
        → ltb_ℤ (sys.wait_cqe_timeout u.ring).0 (pos 0) ≡ false
        → sys.peek_batch_cqe
            (min (sys.cq_ready (sys.wait_cqe_timeout u.ring).1) (batch_limit sys m u.max_drain))
            (sys.wait_cqe_timeout u.ring).1
          ≡ (cqes, r)
        → length cqes ≤ u.max_drain
        → handle_cqes cqes u.engine ≡ done e
        → e.pending +ℤ pos (answered_count cqes) ≡ u.engine.pending
        → x ≡ (ok_status, record u { ring = sys.cq_advance (length cqes) r; engine = e })
        → Processed m u x

  abbrev finish : Uring R → List Cqe → R → Engine → Outcome (Status × Uring R)
  finish u cqes r e =
      done (ok_status, record u { ring = sys.cq_advance (length cqes) r; engine = e })

  process_batch-Processed :
      (m : ℕ) (u : Uring R) (x : Status × Uring R)
      → ltb_ℤ (sys.wait_cqe_timeout u.ring).0 (pos 0) ≡ false
      → process_batch sys m u (sys.wait_cqe_timeout u.ring).1 ≡ done x
      → Processed m u x
  unfolding process_batch
  process_batch-Processed m u x w h =
      let r = (sys.wait_cqe_timeout u.ring).1 in
      let n = min (sys.cq_ready r) (batch_limit sys m u.max_drain) in
      let b = sys.peek_batch_cqe n r in
      let (e, p, q) = >>=-eq-done (handle_cqes b.0 u.engine) (λ e. finish u b.0 b.1 e) {b = x} h in
      handled b.0 e b.1 w refl (grind (arith, bounded n r)) p (handle_cqes-pending b.0 u.engine e p)
        (ground arith)

  -- If liburing hands over at most as many entries as it is asked for, a call that returns has waited
  -- for an entry. If the wait failed, nothing but the ring has changed. Otherwise the entries that
  -- the peek at the ring gave then, for as many as are ready up to the limit, were handed to their
  -- completions one after the other, the ring was advanced by their number, which is at most
  -- `max_cqe_to_drain_`, and those that answer submissions were taken off the count.
  pub do_process_completions_ring-Processed :
      (m : ℕ) (u : Uring R) (x : Status × Uring R)
      → do_process_completions_ring sys m u ≡ done x
      → Processed m u x
  unfolding do_process_completions_ring
  do_process_completions_ring-Processed m u x h =
      elim (Bool-cases (ltb_ℤ (sys.wait_cqe_timeout u.ring).0 (pos 0))) [
        | inl e ↦ waited e (ground arith)
        | inr e ↦ process_batch-Processed m u x e (ground arith)
      ]

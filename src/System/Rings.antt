-- ===== src/System/Rings.antt =====
-- The thread of `IoUring` on its rings keeps an invariant.
use iouring_cc.Common.{ℕ, suc, zero, ◌&&◌, ◌≡◌, refl, not, Bool, List, min, Option, none, some}
use iouring_cc.Common.Int.{ℤ, pos, ◌+ℤ◌, eqb_ℤ, ltb_ℤ}
use iouring_cc.Common.Outcome.{Outcome, done, ◌>>=◌}
use iouring_cc.Common.Safely.{Ends, Ends->>=, Ends-if}
use iouring_cc.Engine.{Engine, handle_cqes}
use iouring_cc.Sqe.Entry.{Sqe}
use iouring_cc.Submit.{
  Ring, Uring, minus_eintr, minus_ebusy, minus_etime, batch_limit, submit_retry, submitted,
  submit_to_kernel, process_batch, do_process_completions_ring, process_completions_ring,
  get_sqe_loop, get_sqe,
}
use iouring_cc.Submit.Thread.{Item}
use iouring_cc.System.Kept.{Kept}

module _ {R : Type 0} (sys : Ring R) (ub : Bool) (I : List Item → R → Engine → Type 0)
    (k : Kept sys ub I) where
  abbrev pub After : {A : Type 0} → List Item → A × Uring R → Type 0
  After items x = I items x.1.ring x.1.engine

  process_batch_keeps :
      (items : List Item) (m : ℕ) (u : Uring R) (r : R)
      → I items r u.engine
      → Ends ub (After items) (process_batch sys m u r)
  unfolding process_batch
  process_batch_keeps items m u r s =
      let n = min (sys.cq_ready r) (batch_limit sys m u.max_drain) in
      Ends->>= ub _ (After items) (handle_cqes (sys.peek_batch_cqe n r).0 u.engine) _
        (k.on_batch items n r u.engine s) (λ e q. q)

  do_process_keeps :
      (items : List Item) (m : ℕ) (u : Uring R)
      → I items u.ring u.engine
      → Ends ub (After items) (do_process_completions_ring sys m u)
  unfolding do_process_completions_ring
  do_process_keeps items m u s =
      let w = sys.wait_cqe_timeout u.ring in
      let after = k.on_wait items u.ring u.engine s in
      Ends-if ub (After items) (ltb_ℤ w.0 (pos 0)) _ _
        (λ x.
          Ends-if ub (After items) (not (eqb_ℤ w.0 minus_etime) && not (eqb_ℤ w.0 minus_ebusy)) _ _
            (λ y. after) (λ y. after))
        (λ x. process_batch_keeps items m u w.1 after)

  pub process_completions_ring_keeps :
      (items : List Item) (u : Uring R)
      → I items u.ring u.engine
      → Ends ub (After items) (process_completions_ring sys u)
  unfolding process_completions_ring
  process_completions_ring_keeps items u s =
      Ends-if ub (After items) (not (ltb_ℤ (pos 0) u.engine.pending)) _ _ (λ x. s)
        (λ x.
          Ends-if ub (After items) u.stop_consumption _ _ (λ y. s)
            (λ y. do_process_keeps items 0 u s))

  submit_retry_keeps :
      (items : List Item) (n : ℕ) (r : R) (e : Engine)
      → I items r e
      → Ends ub (λ o. I items o.1 e) (submit_retry sys n r)
  unfolding submit_retry
  submit_retry_keeps items zero r e s = refl
  submit_retry_keeps items (suc n) r e s =
      let after = k.on_submit items r e s in
      Ends-if ub (λ o. I items o.1 e) (eqb_ℤ (sys.submit r).0 minus_eintr) _ _
        (λ x. submit_retry_keeps items n (sys.submit r).1 e after) (λ x. after)

  submitted_keeps :
      (items : List Item) (u : Uring R) (res : ℤ) (r : R)
      → I items r u.engine
      → Ends ub (After items) (submitted sys u res r)
  unfolding submitted
  submitted_keeps items u res r s =
      Ends-if ub (After items) (ltb_ℤ res (pos 0)) _ _
        (λ x. Ends-if ub (After items) (eqb_ℤ res minus_ebusy) _ _ (λ y. s) (λ y. refl))
        (λ x. k.on_count items r u.engine (u.engine.pending +ℤ res) s)

  pub submit_to_kernel_keeps :
      (items : List Item) (n : ℕ) (u : Uring R)
      → I items u.ring u.engine
      → Ends ub (After items) (submit_to_kernel sys n u)
  unfolding submit_to_kernel
  submit_to_kernel_keeps items n u s =
      Ends->>= ub (λ o. I items o.1 u.engine) (After items) (submit_retry sys n u.ring) _
        (submit_retry_keeps items n u.ring u.engine s) (λ o q. submitted_keeps items u o.0 o.1 q)

  -- An entry of the submission ring was handed out where the invariant held.
  abbrev pub TakenAfter : List Item → Option Sqe × Uring R → Type 0
  TakenAfter items (none, u) = I items u.ring u.engine
  TakenAfter items (some s, u) = (r : R) × (sys.get_sqe r ≡ (some s, u.ring)) × I items r u.engine

  -- What `GetSqe` does when there is no free entry.
  abbrev refresh :
      ℕ → Uring R → (Uring R → Outcome (Option Sqe × Uring R)) → Outcome (Option Sqe × Uring R)
  refresh fuel u next =
      submit_to_kernel sys fuel u >>= λ o. process_completions_ring sys o.1 >>= λ q. next q.1

  refresh_keeps :
      (items : List Item) (fuel : ℕ) (u : Uring R) (next : Uring R → Outcome (Option Sqe × Uring R))
      → I items u.ring u.engine
      → ((v : Uring R) → I items v.ring v.engine → Ends ub (TakenAfter items) (next v))
      → Ends ub (TakenAfter items) (refresh fuel u next)
  refresh_keeps items fuel u next s f =
      Ends->>= ub (After items) (TakenAfter items) (submit_to_kernel sys fuel u) _
        (submit_to_kernel_keeps items fuel u s)
        (λ o p.
          Ends->>= ub (After items) (TakenAfter items) (process_completions_ring sys o.1) _
            (process_completions_ring_keeps items o.1 p) (λ q t. f q.1 t))

  try_keeps :
      (items : List Item) (fuel : ℕ) (u : Uring R) (next : Uring R → Outcome (Option Sqe × Uring R))
      (x : Option Sqe) (r : R)
      → sys.get_sqe u.ring ≡ (x, r)
      → I items u.ring u.engine
      → ((v : Uring R) → I items v.ring v.engine → Ends ub (TakenAfter items) (next v))
      → Ends ub (TakenAfter items) (elim x [
        | some s ↦ done (some s, record u { ring = r })
        | none ↦ refresh fuel (record u { ring = r }) next
      ])
  try_keeps items fuel u next (some e) r g s f = (u.ring, g, s)
  try_keeps items fuel u next none r g s f =
      refresh_keeps items fuel (record u { ring = r }) next (k.on_full items u.ring r u.engine g s)
        f

  get_sqe_loop_keeps :
      (items : List Item) (n fuel : ℕ) (u : Uring R)
      → I items u.ring u.engine
      → Ends ub (TakenAfter items) (get_sqe_loop sys n fuel u)
  unfolding get_sqe_loop
  get_sqe_loop_keeps items zero fuel u s =
      try_keeps items fuel u (λ v. done (none, v)) (sys.get_sqe u.ring).0 (sys.get_sqe u.ring).1
        refl s (λ v q. q)
  get_sqe_loop_keeps items (suc n) fuel u s =
      try_keeps items fuel u (get_sqe_loop sys n fuel) (sys.get_sqe u.ring).0 (sys.get_sqe u.ring).1
        refl s (λ v q. get_sqe_loop_keeps items n fuel v q)

  pub get_sqe_keeps :
      (items : List Item) (fuel : ℕ) (u : Uring R)
      → I items u.ring u.engine
      → Ends ub (TakenAfter items) (get_sqe sys fuel u)
  unfolding get_sqe
  get_sqe_keeps items fuel u s = get_sqe_loop_keeps items 9 fuel u s

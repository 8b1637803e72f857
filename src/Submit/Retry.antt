-- ===== src/Submit/Retry.antt =====
-- The loop of `SubmitToKernel` ends as soon as the kernel does not interrupt it.
use iouring_cc.Common.{
  ℕ, zero, suc, ◌≡◌, refl, subst, Bool, true, false, ◌&&◌, arith, Bool-cases, inl, inr,
}
use iouring_cc.Common.Int.{ℤ, pos, negsuc, ◌+ℤ◌, eqb_ℤ, eqb_ℤ_iff}
use iouring_cc.Common.Outcome.{Outcome, done, aborted}
use iouring_cc.Status.{Status, ok_status, is_ok, errno_to_status}
use iouring_cc.Submit.{
  Ring, Uring, minus_eintr, minus_ebusy, submit_retry, submitted, submit_to_kernel,
}

module _ {R : Type 0} (sys : Ring R) where
  -- So many submissions in a row are interrupted.
  abbrev pub interrupted : ℕ → R → Bool
  interrupted zero r = true
  interrupted (suc n) r = eqb_ℤ (sys.submit r).0 minus_eintr && interrupted n (sys.submit r).1

  -- The ring after so many submissions.
  abbrev pub ring_after : ℕ → R → R
  ring_after zero r = r
  ring_after (suc n) r = ring_after n (sys.submit r).1

  -- Interrupted submissions, and the answer of the first one that is not.
  pub record Answered (r : R) (res : ℤ) (r' : R) : Type 0 where
    pub tries : ℕ
    pub all_interrupted : interrupted tries r ≡ true
    pub answer : sys.submit (ring_after tries r) ≡ (res, r')
    pub is_answer : eqb_ℤ res minus_eintr ≡ false

  submit_retry-Answered :
      (n : ℕ) (r : R)
      → interrupted n r ≡ false
      → (o : ℤ × R) × (submit_retry sys n r ≡ done o) × Answered r o.0 o.1
  unfolding submit_retry
  submit_retry-Answered zero r h = cc
  submit_retry-Answered (suc n) r h = elim (Bool-cases (eqb_ℤ (sys.submit r).0 minus_eintr)) [
    | inl e ↦
        (let (o, p, q) = submit_retry-Answered n (sys.submit r).1 (ground arith) in
          (
            o,
            ground arith,
            record {
              tries = suc q.tries;
              all_interrupted = ground (arith, q.all_interrupted);
              answer = q.answer;
              is_answer = q.is_answer;
            },
          ))
    | inr e ↦ (
      sys.submit r,
      ground arith,
      record { tries = 0; all_interrupted = refl; answer = refl; is_answer = e },
    )
  ]

  -- The ends of `SubmitToKernel`, by the answer: a count, EBUSY, another error.
  pub data Submitted (u : Uring R) (x : Outcome (Status × Uring R)) : Type 0 where
    accepted :
        (n : ℕ) (r : R)
        → Answered u.ring (pos n) r
        → x
          ≡ done (
            ok_status,
            record u { ring = r; engine = record u.engine { pending = u.engine.pending +ℤ pos n } },
          )
        → Submitted u x
    busy :
        (s : Status) (r : R)
        → Answered u.ring minus_ebusy r
        → is_ok s ≡ false
        → x ≡ done (s, record u { ring = r })
        → Submitted u x
    refused :
        (n : ℕ) (r : R)
        → Answered u.ring (negsuc n) r
        → eqb_ℤ (negsuc n) minus_ebusy ≡ false
        → x ≡ aborted
        → Submitted u x

  submitted-Submitted :
      (u : Uring R) (res : ℤ) (r : R) → Answered u.ring res r → Submitted u (submitted sys u res r)
  unfolding submitted errno_to_status is_ok
  submitted-Submitted u (pos n) r a = accepted n r a (ground arith)
  submitted-Submitted u (negsuc n) r a = elim (Bool-cases (eqb_ℤ (negsuc n) minus_ebusy)) [
    | inl e ↦
        busy (errno_to_status sys.strerror (pos 16) "Failure to submit io_uring, busy") r
          (subst (λ z. Answered u.ring z r) ((eqb_ℤ_iff (negsuc n) minus_ebusy).0 e) a) refl
          (ground arith)
    | inr e ↦ refused n r a e (ground arith)
  ]

  -- With fuel for more submissions than the kernel interrupts in a row, `SubmitToKernel` submits
  -- until the kernel does not interrupt it, and acts on that answer. On a count it returns ok, adds
  -- the count to the pending submissions, and changes nothing else but the ring. On EBUSY it returns
  -- an error, and changes nothing but the ring. On any other error it aborts.
  pub submit_to_kernel-Submitted :
      (fuel : ℕ) (u : Uring R)
      → interrupted fuel u.ring ≡ false
      → Submitted u (submit_to_kernel sys fuel u)
  unfolding submit_to_kernel
  submit_to_kernel-Submitted fuel u h =
      let (o, p, q) = submit_retry-Answered fuel u.ring h in rw p (submitted-Submitted u o.0 o.1 q)

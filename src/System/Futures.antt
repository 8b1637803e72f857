-- ===== src/System/Futures.antt =====
-- The future of a call over a whole run.
use iouring_cc.Common.{
  ℕ, suc, ◌+◌, ◌==◌, ◌≡◌, ap, true, List, [], ◌∷◌, none, some, arith, if◌then◌else◌, Bool-cases,
  inl, inr,
}
use iouring_cc.Common.Outcome.{done}
use iouring_cc.Completion.{Answer}
use iouring_cc.Completion.Future.{new_future, answer_at, get}
use iouring_cc.Engine.{find_handler}
use iouring_cc.Engine.Once.{answers_of, spent}
use iouring_cc.Submit.{Ring}
use iouring_cc.System.Answers.{unanswered}
use iouring_cc.System.Conserved.{calls_at, calls_are_answers}
use iouring_cc.System.Steps.{Program, Reaches}

answers_of-answer_at :
    (a n : ℕ) (answers : List (ℕ × Answer))
    → answers_of a answers ≡ suc n
    → (x : Answer) × (answer_at a answers ≡ some x)
unfolding answer_at
answers_of-answer_at a n [] h = ground (arith, h)
answers_of-answer_at a n ((b, x) ∷ rest) h = elim (Bool-cases (b == a)) [
  | inl e ↦ (x, ground (arith, e))
  | inr e ↦
      (let (y, p) = answers_of-answer_at a n rest (ground (arith, h)) in (y, ground (arith, e, p)))
]

module _ {R : Type 0} (sys : Ring R) (a : ℕ) (p q : Program R) (r : Reaches sys p (done q)) where
  -- A call's future: if an object has started without a completion at the address and without an
  -- answer there, and there has been one call since whose completion is at the address, then as
  -- soon as this completion has been destroyed, `Get` of the call's future returns, with the
  -- answer.
  pub destroyed_future-get :
      p.client.threaded ≡ true
      → answers_of a p.client.uring.engine.answers + unanswered a p.client.uring.engine ≡ 0
      → calls_at sys a r ≡ 1
      → find_handler a q.client.uring.engine.handlers ≡ none
      → (x : Answer) × (get q.client.uring.engine.answers (new_future a)
          ≡ done (x, record { promise = none; cancel_token = a }))
  unfolding get new_future
  destroyed_future-get t start one gone =
      let answered : answers_of a q.client.uring.engine.answers ≡ 1 = omega (
        arith,
        calls_are_answers sys a p q r t,
        start,
        one,
        ap {B = ℕ} (λ o. if spent o then 0 else 1) gone,
      ) in
      let (x, h) = answers_of-answer_at a 0 q.client.uring.engine.answers answered in
      (x, ground (arith, h))

-- ===== src/System/Answers.antt =====
-- The answers at an address: those that have been given, and the one that is to come.
use iouring_cc.Common.{
  ℕ, ◌+◌, ◌≡◌, ◌∙◌, true, List, [], ◌∷◌, Option, none, some, arith, if◌then◌else◌,
}
use iouring_cc.Common.Outcome.{done, >>=-eq-done}
use iouring_cc.Common.Safely.{Ends-done}
use iouring_cc.Completion.{Completion}
use iouring_cc.Completion.Entry.{Cqe}
use iouring_cc.Engine.{Engine, find_handler, handler_at, answer_with, handle_cqe, handle_cqes}
use iouring_cc.Engine.Once.{
  answers_of, spent, Step, same, answered, handle_cqe-Step, answer_with-Step,
}
use iouring_cc.Sqe.Dispatch.{Prepared, filled, unimplemented, fill}
use iouring_cc.Submit.{Ring, unimplemented_result}
use iouring_cc.Submit.Thread.{Item}
use iouring_cc.System.Kept.{Kept, Prepares, refuse}

-- 1 if there is a completion at the address that has no answer yet.
abbrev pub unanswered : ℕ → Engine → ℕ
unanswered a e = if spent (find_handler a e.handlers) then 0 else 1

-- The answers at an address, and the one that is to come.
abbrev pub owed : ℕ → Engine → ℕ
owed a e = answers_of a e.answers + unanswered a e

Step-owed : (a : ℕ) (e e' : Engine) → Step a e e' → owed a e' ≡ owed a e
Step-owed a e e' (same p q) = ground (arith, p, q)
Step-owed a e e' (answered p q s) = ground (arith, p, q, s)

handle_cqes-owed :
    (a : ℕ) (cqes : List Cqe) (e e' : Engine) → handle_cqes cqes e ≡ done e' → owed a e' ≡ owed a e
unfolding handle_cqes
handle_cqes-owed a [] e e' h = ground arith
handle_cqes-owed a (c ∷ rest) e e' h =
    let (u, f, g) = >>=-eq-done (handle_cqe c e) (λ u. handle_cqes rest u) h in
    handle_cqes-owed a rest u e' g ∙ Step-owed a e u (handle_cqe-Step a c e u f)

handler_at-done : (o : Option Completion) (m : Completion) → handler_at o ≡ done m → o ≡ some m
handler_at-done none m h = cc
handler_at-done (some n) m h = ground arith

refuse-owed :
    (a : ℕ) (i : Item) (junk : ℕ) (e e' : Engine) → refuse i junk e ≡ done e' → owed a e' ≡ owed a e
refuse-owed a i junk e e' h =
    let c : Cqe = record { user_data = i.1; res = unimplemented_result; flags = junk } in
    let (m, f, g) =
      >>=-eq-done (handler_at (find_handler i.1 e.handlers)) (λ m. answer_with c none m e) h in
    Step-owed a e e'
      (answer_with-Step a c m e e' (handler_at-done (find_handler i.1 e.handlers) m f) none g)

-- So many answers have been given or are to come.
abbrev pub Owes : {R : Type 0} → ℕ → ℕ → List Item → R → Engine → Type 0
Owes a n items r e = owed a e ≡ n

module _ {R : Type 0} (sys : Ring R) (a n : ℕ) where
  Prepares-owed :
      (i : Item) (items : List Item) (r : R) (e : Engine) (p : Prepared)
      → owed a e ≡ n
      → Prepares sys true (Owes a n) items i r e p
  Prepares-owed i items r e (filled s pools) h = h
  Prepares-owed i items r e unimplemented h = λ junk.
      Ends-done (λ e'. owed a e' ≡ n) (refuse i junk e) (λ e' g. refuse-owed a i junk e e' g ∙ h)

  pub owed_kept : Kept sys true (Owes a n)
  owed_kept = record {
    on_submit = λ items r e s. s;
    on_wait = λ items r e s. s;
    on_full = λ items r r' e g s. s;
    on_batch = λ items m r e s.
        Ends-done (λ e'. owed a e' ≡ n) (handle_cqes (sys.peek_batch_cqe m r).0 e)
          (λ e' g. handle_cqes-owed a (sys.peek_batch_cqe m r).0 e e' g ∙ s);
    on_count = λ items r e m s. s;
    on_drop = λ i items r e s. s;
    on_fill = λ i items r r' e x files g s.
        Ends-done (Prepares sys true (Owes a n) items i r' e)
          (fill (record { files = files; pools = e.pools }) i.0 i.1 x)
          (λ p h. Prepares-owed i items r' e p s);
  }

-- ===== src/System/Conserved.antt =====
-- Over a whole run: the calls, and the answers that their completions get.
use iouring_cc.Common.{ap, ℕ, ◌+◌, ◌==◌, ◌≡◌, refl, Bool, true, false, Option, none, some, arith}
use native.Mathlib.Decide.{ℕ_discrete}
use iouring_cc.Common.Outcome.{Outcome, done}
use iouring_cc.Common.Safely.{Safely-Ends, Ends, Ends->>=, Ends-weaken}
use iouring_cc.Completion.{Completion}
use iouring_cc.Engine.{Engine, find_handler}
use iouring_cc.Engine.Once.{answers_of, spent}
use iouring_cc.Sink.{stop}
use iouring_cc.Submit.{Ring}
use iouring_cc.Api.{Caller, Client}
use iouring_cc.Api.Calls.{Call, call}
use iouring_cc.System.Thread.{drain_keeps, finish_keeps}
use iouring_cc.System.Alive.{is_some}
use iouring_cc.System.Calls.{Called, call-Called, Fresh, with_handler}
use iouring_cc.System.Answers.{owed, unanswered, Owes, owed_kept}
use iouring_cc.System.Steps.{
  Program, Step, Reaches, with_client, after_round, calls, drains, finishes, stops, registers,
  provides, here, next,
}

abbrev pub one_if : Bool → ℕ
one_if true = 1
one_if false = 0

missing-spent : (o : Option Completion) → is_some o ≡ false → spent o ≡ true
missing-spent none h = refl
missing-spent (some m) h = cc

Fresh-spent : (b : ℕ) (e : Engine) → Fresh b e → spent (find_handler b e.handlers) ≡ true
Fresh-spent b e f = missing-spent (find_handler b e.handlers) (ground (arith, f))

added_owed :
    (a b : ℕ) (m : Completion) (e : Engine)
    → Fresh b e
    → m.answered ≡ false
    → owed a (with_handler b m e) ≡ owed a e + one_if (b == a)
unfolding find_handler
added_owed a b m e f n = elim (ℕ_discrete b a) [
  | yes q ↦ ground (arith, Fresh-spent b e f, n, ap (λ x. find_handler x e.handlers) q)
  | no k ↦ ground (arith)
]

module _ {R : Type 0} (sys : Ring R) (a : ℕ) where
  -- The answers that are owed at the address have become so many more, and the thread still runs.
  abbrev Added : Client R → ℕ → Client R → Type 0
  Added s n s' = (owed a s'.uring.engine ≡ owed a s.uring.engine + n) × (s'.threaded ≡ true)

  Called-owed :
      (c : Call) (w : Caller) (s s' : Client R)
      → Fresh w.address s.uring.engine
      → Called c w s s'
      → Added s (one_if (w.address == a)) s'
  Called-owed c w s s' f h = (
    rw (h.added, h.named_by) (added_owed a w.address h.completion s.uring.engine f h.unanswered),
    h.is_threaded,
  )

  -- The calls in a step, and in a run, whose completions are at the address.
  abbrev pub calls_in : {p : Program R} {x : Outcome (Program R)} → Step sys p x → ℕ
  calls_in (calls fuel junk w c f) = one_if (w.address == a)
  calls_in (drains fuel junk stop_at count m k b c e) = 0
  calls_in (finishes fuel junk count e) = 0
  calls_in stops = 0
  calls_in (registers files) = 0
  calls_in (provides pools) = 0

  abbrev pub calls_at : {p : Program R} {x : Outcome (Program R)} → Reaches sys p x → ℕ
  calls_at here = 0
  calls_at (next r t) = calls_at r + calls_in t

  step_owed :
      (p : Program R) (x : Outcome (Program R)) (t : Step sys p x)
      → p.client.threaded ≡ true
      → Ends true (λ q. Added p.client (calls_in t) q.client) x
  unfolding stop
  step_owed p x (calls fuel junk w c f) h =
      Ends->>= true (Called c w p.client) _ _ (λ v. done (with_client p v))
        (Safely-Ends true (Called c w p.client) (call sys fuel junk w p.client c)
          (call-Called sys fuel junk c w p.client h))
        (λ v q. Called-owed c w p.client v f q)
  step_owed p x (drains fuel junk stop_at count m q b c e) h =
      Ends->>= true (λ u. Owes a (owed a p.client.uring.engine) q.pending u.ring u.engine) _ m _
        (drain_keeps sys true (Owes a (owed a p.client.uring.engine)) (owed_kept sys a _) fuel junk
          p.client.uring.max_drain stop_at p.client.sink q p.client.uring.engine.pending count
          (done p.client.uring) m e refl)
        (λ u k. (omega (arith, k), h))
  step_owed p x (finishes fuel junk count e) h =
      Ends->>= true
        (λ y.
          Owes a (owed a p.client.uring.engine) p.client.sink.pending y.uring.ring y.uring.engine)
        _ _ (λ y. done (after_round p y))
        (finish_keeps sys true (Owes a (owed a p.client.uring.engine)) (owed_kept sys a _) fuel junk
          p.client.sink.pending count p.client.sink p.client.uring refl)
        (λ u k. (omega (arith, k), h))
  step_owed p x stops h = (omega arith, h)
  step_owed p x (registers files) h = (omega arith, h)
  step_owed p x (provides pools) h = (omega arith, h)

  reaches_owed :
      (p : Program R) (x : Outcome (Program R)) (r : Reaches sys p x)
      → p.client.threaded ≡ true
      → Ends true (λ q. Added p.client (calls_at r) q.client) x
  reaches_owed p x here h = (omega arith, h)
  reaches_owed p x (next {q} r t) h =
      let (e, g) = reaches_owed p (done q) r h in
      Ends-weaken true _ _ x (step_owed q x t g) (λ u k. (omega (arith, k.0, e), k.1))

  -- Whatever the kernel does, and in whatever order calls and rounds come: at each address, the
  -- answers that have been given, and one that is to come if the completion there is alive and has
  -- none, are as many as they were at the start and the calls since whose completion is there. So
  -- no call is answered twice, and no completion is destroyed before its answer. The thread runs,
  -- and each call has a new object for its completion.
  pub calls_are_answers :
      (p q : Program R) (r : Reaches sys p (done q))
      → p.client.threaded ≡ true
      → answers_of a q.client.uring.engine.answers + unanswered a q.client.uring.engine
        ≡ answers_of a p.client.uring.engine.answers
          + unanswered a p.client.uring.engine
          + calls_at r
  calls_are_answers p q r h = (reaches_owed p (done q) r h).0

-- ===== src/System/Order.antt =====
-- The requests of a whole run, in the submission ring and in the queue, and their calls.
use iouring_cc.Common.{
  ℕ, ◌≡◌, refl, sym, ◌∙◌, ap, subst, true, List, [], ◌∷◌, ◌++◌, append_assoc, append-nil, length,
  Option, none, some,
}
use iouring_cc.Common.Outcome.{Outcome, done}
use iouring_cc.Common.Safely.{Safely-Ends, Ends, Ends->>=, Ends-done}
use mathlib.Core.List.{Sublist, sublist-cons_self}
use mathlib.Core.List.Sublist
use iouring_cc.Files.Table.{Table}
use iouring_cc.Engine.{Engine, handle_cqes}
use iouring_cc.Sqe.Entry.{Sqe}
use iouring_cc.Sqe.Dispatch.{Prepared, filled, unimplemented, fill}
use iouring_cc.Sqe.Carries.{dispatch-Carries}
use iouring_cc.Sink.{stop}
use iouring_cc.Submit.{Ring}
use iouring_cc.Submit.Thread.{Item}
use iouring_cc.Api.{Caller, Client}
use iouring_cc.Api.Calls.{Call, call}
use iouring_cc.System.Kept.{Kept, Prepares, refuse}
use iouring_cc.System.Thread.{drain_keeps, finish_keeps}
use iouring_cc.System.Calls.{Called, call-Called}
use iouring_cc.System.Steps.{
  Program, Step, Reaches, with_client, after_round, calls, drains, finishes, stops, registers,
  provides, here, next,
}

-- A log of the `user_data` that have been put into the submission ring, the first one first.
pub record Logged {R : Type 0} (sys : Ring R) : Type 0 where
  pub log : R → List ℕ
  pub log_get : (r : R) → log (sys.get_sqe r).1 ≡ log r
  pub log_put : (s : Sqe) (r : R) → log (sys.put_sqe s r) ≡ log r ++ (s.user_data ∷ [])
  pub log_submit : (r : R) → log (sys.submit r).1 ≡ log r
  pub log_wait : (r : R) → log (sys.wait_cqe_timeout r).1 ≡ log r
  pub log_batch :
      (n : ℕ) (r : R)
      → log (sys.cq_advance (length (sys.peek_batch_cqe n r).0) (sys.peek_batch_cqe n r).1) ≡ log r

abbrev pub addresses : List Item → List ℕ
addresses [] = []
addresses (i ∷ items) = i.1 ∷ addresses items

addresses-append :
    (items : List Item) (i : Item) → addresses (items ++ (i ∷ [])) ≡ addresses items ++ (i.1 ∷ [])
addresses-append [] i = refl
addresses-append (j ∷ items) i = ap (λ l. j.1 ∷ l) (addresses-append items i)

drop_middle : (xs ys zs : List ℕ) (a : ℕ) → Sublist (xs ++ (a ∷ ys)) zs → Sublist (xs ++ ys) zs
drop_middle xs ys zs a h =
    Sublist.trans (Sublist.append (Sublist.refl xs) (sublist-cons_self a ys)) h

module _ {R : Type 0} (sys : Ring R) (g : Logged sys) where
  -- What stands in the log and in the queue comes from the list, in its order.
  abbrev pub InOrder : List ℕ → List Item → R → Engine → Type 0
  InOrder l items r e = Sublist (g.log r ++ addresses items) l

  InOrder-same :
      (l : List ℕ) (items : List Item) (r r' : R) (e : Engine)
      → g.log r' ≡ g.log r
      → InOrder l items r e
      → InOrder l items r' e
  InOrder-same l items r r' e h s = subst (λ x. Sublist (x ++ addresses items) l) (sym h) s

  got : (r r' : R) (o : Option Sqe) → sys.get_sqe r ≡ (o, r') → g.log r' ≡ g.log r
  got r r' o h = sym (ap (λ x. g.log x.1) h) ∙ g.log_get r

  log_put_head :
      (i : Item) (r r' : R) (y : Sqe) (rest : List ℕ)
      → g.log r' ≡ g.log r
      → y.user_data ≡ i.1
      → g.log (sys.put_sqe y r') ++ rest ≡ g.log r ++ (i.1 ∷ rest)
  log_put_head i r r' y rest h c =
      rw (g.log_put y r', h, c) (append_assoc (g.log r) (i.1 ∷ []) rest)

  put-InOrder :
      (l : List ℕ) (i : Item) (items : List Item) (r r' : R) (e : Engine) (y : Sqe)
      → g.log r' ≡ g.log r
      → y.user_data ≡ i.1
      → InOrder l (i ∷ items) r e
      → InOrder l items (sys.put_sqe y r') e
  put-InOrder l i items r r' e y h c s =
      subst (λ x. Sublist x l) (sym (log_put_head i r r' y (addresses items) h c)) s

  Prepares-InOrder :
      (l : List ℕ) (i : Item) (items : List Item) (r r' : R) (e : Engine) (x : Sqe) (files : Table)
      (p : Prepared)
      → g.log r' ≡ g.log r
      → fill (record { files = files; pools = e.pools }) i.0 i.1 x ≡ done p
      → InOrder l (i ∷ items) r e
      → Prepares sys true (InOrder l) items i r' e p
  Prepares-InOrder l i items r r' e x files (filled y pools) h f s =
      put-InOrder l i items r r' e y h
        (dispatch-Carries (record { files = files; pools = e.pools }) i.0 i.1 x y pools
          i.0.operation f).0
        s
  Prepares-InOrder l i items r r' e x files unimplemented h f s = λ junk.
      Ends-done (InOrder l items r') (refuse i junk e)
        (λ e' q. InOrder-same l items r r' e h (drop_middle (g.log r) (addresses items) l i.1 s))

  InOrder-kept : (l : List ℕ) → Kept sys true (InOrder l)
  InOrder-kept l = record {
    on_submit = λ items r e s. InOrder-same l items r _ e (g.log_submit r) s;
    on_wait = λ items r e s. InOrder-same l items r _ e (g.log_wait r) s;
    on_full = λ items r r' e h s. InOrder-same l items r r' e (got r r' none h) s;
    on_batch = λ items n r e s.
        Ends-done _ (handle_cqes (sys.peek_batch_cqe n r).0 e)
          (λ e' h. InOrder-same l items r _ e (g.log_batch n r) s);
    on_count = λ items r e n s. s;
    on_drop = λ i items r e s. drop_middle (g.log r) (addresses items) l i.1 s;
    on_fill = λ i items r r' e x files h s.
        Ends-done (Prepares sys true (InOrder l) items i r' e)
          (fill (record { files = files; pools = e.pools }) i.0 i.1 x)
          (λ p f. Prepares-InOrder l i items r r' e x files p (got r r' (some x) h) f s);
  }

  -- The completions of the calls in a step, and in a run.
  abbrev pub called_in : {p : Program R} {x : Outcome (Program R)} → Step sys p x → List ℕ
  called_in (calls fuel junk w c f) = w.address ∷ []
  called_in (drains fuel junk stop_at count m k b c e) = []
  called_in (finishes fuel junk count e) = []
  called_in stops = []
  called_in (registers files) = []
  called_in (provides pools) = []

  abbrev pub called_of : {p : Program R} {x : Outcome (Program R)} → Reaches sys p x → List ℕ
  called_of here = []
  called_of (next r t) = called_of r ++ called_in t

  -- The order of an object's requests, while the thread runs.
  abbrev Ordered : List ℕ → Program R → Type 0
  Ordered l q =
      InOrder l q.client.sink.pending q.client.uring.ring q.client.uring.engine
      × (q.client.threaded ≡ true)

  -- With a call, a list of calls is longer by its completion.
  Called-InOrder :
      (l : List ℕ) (c : Call) (w : Caller) (s s' : Client R)
      → InOrder l s.sink.pending s.uring.ring s.uring.engine
      → Called c w s s'
      → InOrder (l ++ (w.address ∷ [])) s'.sink.pending s'.uring.ring s'.uring.engine
  Called-InOrder l c w s s' o h =
      rw (h.queued_last, h.same_ring, addresses-append s.sink.pending h.item, h.named_by)
        (subst (λ x. Sublist x (l ++ (w.address ∷ [])))
          (append_assoc (g.log s.uring.ring) (addresses s.sink.pending) (w.address ∷ []))
          (Sublist.append o (Sublist.refl (w.address ∷ []))))

  step_in_order :
      (l : List ℕ) (p : Program R) (x : Outcome (Program R)) (t : Step sys p x)
      → Ordered l p
      → Ends true (Ordered (l ++ called_in t)) x
  unfolding stop
  step_in_order l p x (calls fuel junk w c f) (o, h) =
      Ends->>= true (Called c w p.client) _ _ (λ v. done (with_client p v))
        (Safely-Ends true (Called c w p.client) (call sys fuel junk w p.client c)
          (call-Called sys fuel junk c w p.client h))
        (λ v q. (Called-InOrder l c w p.client v o q, q.is_threaded))
  step_in_order l p x (drains fuel junk stop_at count m q b c e) (o, h) =
      Ends->>= true (λ u. InOrder l q.pending u.ring u.engine) _ m _
        (drain_keeps sys true (InOrder l) (InOrder-kept l) fuel junk p.client.uring.max_drain
          stop_at p.client.sink q p.client.uring.engine.pending count (done p.client.uring) m e o)
        (λ u k. (rw (append-nil l) k, h))
  step_in_order l p x (finishes fuel junk count e) (o, h) =
      Ends->>= true (λ y. InOrder l p.client.sink.pending y.uring.ring y.uring.engine) _ _
        (λ y. done (after_round p y))
        (finish_keeps sys true (InOrder l) (InOrder-kept l) fuel junk p.client.sink.pending count
          p.client.sink p.client.uring o)
        (λ u k. (rw (append-nil l) k, h))
  step_in_order l p x stops (o, h) = (rw (append-nil l) o, h)
  step_in_order l p x (registers files) (o, h) = (rw (append-nil l) o, h)
  step_in_order l p x (provides pools) (o, h) = (rw (append-nil l) o, h)

  reaches_in_order :
      (l : List ℕ) (p : Program R) (x : Outcome (Program R)) (r : Reaches sys p x)
      → Ordered l p
      → Ends true (Ordered (l ++ called_of r)) x
  reaches_in_order l p x here o = (rw (append-nil l) o.0, o.1)
  reaches_in_order l p x (next {q} r t) o =
      subst (λ m. Ends true (Ordered m) x) (append_assoc l (called_of r) (called_in t))
        (step_in_order (l ++ called_of r) q x t (reaches_in_order l p (done q) r o))

  -- Whatever the kernel does, and in whatever order calls and rounds come: the requests that have
  -- been put into the submission ring, and after them those that are queued, stand in the order in
  -- which they were there or their calls came, each of them once. Some may be missing. The thread
  -- runs, and the ring keeps a log of what is put into it.
  pub requests_in_order :
      (p q : Program R) (r : Reaches sys p (done q))
      → p.client.threaded ≡ true
      → Sublist
          (g.log q.client.uring.ring ++ addresses q.client.sink.pending)
          ((g.log p.client.uring.ring ++ addresses p.client.sink.pending) ++ called_of r)
  requests_in_order p q r h =
      (reaches_in_order (g.log p.client.uring.ring ++ addresses p.client.sink.pending) p (done q) r
        (Sublist.refl _, h)).0

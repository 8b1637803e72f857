-- ===== src/System/Kept.antt =====
-- What an invariant of the queue, the rings and the completions has to be kept by, for every round
-- of the thread of `IoUring` to keep it.
use iouring_cc.Common.{ℕ, Bool, ◌≡◌, List, ◌∷◌, length, none, some}
use iouring_cc.Common.Int.{ℤ}
use iouring_cc.Common.Outcome.{Outcome, ◌>>=◌}
use iouring_cc.Common.Safely.{Ends}
use iouring_cc.Files.Table.{Table}
use iouring_cc.Engine.{Engine, handle_cqes, find_handler, handler_at, answer_with}
use iouring_cc.Sqe.Entry.{Sqe}
use iouring_cc.Sqe.Dispatch.{Prepared, filled, unimplemented, fill}
use iouring_cc.Submit.{Ring, unimplemented_result}
use iouring_cc.Submit.Thread.{Item}

-- The answer to a request that the switch does not know.
abbrev pub refuse : Item → ℕ → Engine → Outcome Engine
refuse i junk e = handler_at (find_handler i.1 e.handlers) >>= λ m.
    answer_with (record { user_data = i.1; res = unimplemented_result; flags = junk }) none m e

module _ {R : Type 0} (sys : Ring R) (ub : Bool) (I : List Item → R → Engine → Type 0) where
  -- The invariant after the switch of `PrepareSqe`: with the entry put, or the request refused.
  abbrev pub Prepares : List Item → Item → R → Engine → Prepared → Type 0
  Prepares items i r e (filled s pools) = I items (sys.put_sqe s r) (record e { pools = pools })
  Prepares items i r e unimplemented = (junk : ℕ) → Ends ub (I items r) (refuse i junk e)

  pub record Kept : Type 0 where
    pub on_submit :
        (items : List Item) (r : R) (e : Engine) → I items r e → I items (sys.submit r).1 e
    pub on_wait :
        (items : List Item) (r : R) (e : Engine)
        → I items r e
        → I items (sys.wait_cqe_timeout r).1 e
    pub on_full :
        (items : List Item) (r r' : R) (e : Engine)
        → sys.get_sqe r ≡ (none, r')
        → I items r e
        → I items r' e
    pub on_batch :
        (items : List Item) (n : ℕ) (r : R) (e : Engine)
        → I items r e
        → Ends ub
            (I items
              (sys.cq_advance (length (sys.peek_batch_cqe n r).0) (sys.peek_batch_cqe n r).1))
            (handle_cqes (sys.peek_batch_cqe n r).0 e)
    pub on_count :
        (items : List Item) (r : R) (e : Engine) (n : ℤ)
        → I items r e
        → I items r (record e { pending = n })
    pub on_drop :
        (i : Item) (items : List Item) (r : R) (e : Engine) → I (i ∷ items) r e → I items r e
    pub on_fill :
        (i : Item) (items : List Item) (r r' : R) (e : Engine) (x : Sqe) (files : Table)
        → sys.get_sqe r ≡ (some x, r')
        → I (i ∷ items) r e
        → Ends ub
            (Prepares items i r' e)
            (fill (record { files = files; pools = e.pools }) i.0 i.1 x)

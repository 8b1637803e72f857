-- ===== src/System/Calls.antt =====
-- A call while the thread of `IoUring` runs: the new completion and its request.
use iouring_cc.Common.{
  ℕ, ◌==◌, ◌||◌, ◌≡◌, refl, sym, subst, Bool, true, false, Bool-cases, inl, inr, List, [], ◌∷◌,
  ◌++◌, arith,
}
use native.Mathlib.Decide.{ℕ_discrete}
use iouring_cc.Common.Int.{ℤ}
use iouring_cc.Common.Safely.{Safely, Ends->>=, Ends-if, Ends-weaken}
use iouring_cc.Request.Payload.{IoRequest}
use iouring_cc.Completion.{Kind, Completion}
use iouring_cc.Engine.{Engine, find_handler}
use iouring_cc.Sqe.Dispatch.{Context}
use iouring_cc.Sink.{Sink, enqueue}
use iouring_cc.Submit.{Ring}
use iouring_cc.Submit.Thread.{Item}
use iouring_cc.Api.{Caller, Client, MsgHdr, new_completion, submit_new, submit_io_request}
use iouring_cc.Api.Calls.{Call, call}
use iouring_cc.Api.Contracts.{supported}
use iouring_cc.Api.Submits.{refuses, submits, call-Submits}
use iouring_cc.Completion.{invalid_gid}
use iouring_cc.Request.MakeMisc.{make_remove_buffer}
use iouring_cc.Api.Misc.{remove_buffer}
use iouring_cc.System.Fillable.{
  Fillable, Harmless, IsRemoval, removal, other, IsRemoval-cases, Made-Fillable,
  make_remove_buffer-Fillable,
}
use iouring_cc.System.Contract.{Contract, unnamed}
use iouring_cc.System.Alive.{alive, Covers}
use iouring_cc.System.Batch.{Apart}
use iouring_cc.System.Safe.{queued, distinct, AllFillable, Safe}

-- What the allocator promises of the address of a new object.
abbrev pub Fresh : ℕ → Engine → Type 0
Fresh a e = alive e a ≡ false

queued_append :
    (items : List Item) (i : Item) (a : ℕ)
    → queued (items ++ (i ∷ [])) a ≡ (queued items a || i.1 == a)
queued_append [] i a = ground arith
queued_append (j ∷ items) i a = ground (arith, queued_append items i a)

distinct_append :
    (items : List Item) (i : Item)
    → distinct items ≡ true
    → queued items i.1 ≡ false
    → distinct (items ++ (i ∷ [])) ≡ true
distinct_append [] i d n = ground arith
distinct_append (j ∷ items) i d n =
    ground (arith, queued_append items i j.1, distinct_append items i)

AllFillable-append :
    (items : List Item) (i : Item)
    → AllFillable items
    → Fillable i.0
    → AllFillable (items ++ (i ∷ []))
AllFillable-append [] i m f = (f, refl)
AllFillable-append (j ∷ items) i m f = (m.0, AllFillable-append items i m.1 f)

abbrev pub with_handler : ℕ → Completion → Engine → Engine
with_handler a m e = record e { handlers = (a, m) ∷ e.handlers }

added_alive :
    (a b : ℕ) (m : Completion) (e : Engine)
    → (alive e a || b == a) ≡ true
    → alive (with_handler b m e) a ≡ true
unfolding find_handler
added_alive a b m e h = ground (arith, h)

not_alive : (known : ℕ → Bool) (e : Engine) (a : ℕ) → Covers known e → Fresh a e → known a ≡ false
not_alive known e a cov f = elim (Bool-cases (known a)) [
  | inl t ↦ absurd (cc (cov a t, f))
  | inr n ↦ n
]

-- What a call leaves that returns while the thread runs: one item behind the queue, which names a new
-- completion without an answer, and the ring as it was.
pub record Called {R : Type 0} (c : Call) (w : Caller) (s s' : Client R) : Type 0 where
  pub item : Item
  pub completion : Completion
  pub named_by : item.1 ≡ w.address
  pub unanswered : completion.answered ≡ false
  pub fillable : Harmless c → Fillable item.0
  pub same_ring : s'.uring.ring ≡ s.uring.ring
  pub added : s'.uring.engine ≡ with_handler item.1 completion s.uring.engine
  pub queued_last : s'.sink.pending ≡ s.sink.pending ++ (item ∷ [])
  pub is_threaded : s'.threaded ≡ true

module _ {R : Type 0} (sys : Ring R) (fuel junk : ℕ) (c : Call) (w : Caller) (s : Client R)
    (threaded : s.threaded ≡ true) where
  submit_new-Called :
      (g : Kind) (gid : ℤ) (req : IoRequest) (headers : List (ℕ × MsgHdr))
      → (Harmless c → Fillable req)
      → Safely
          (Called c w s)
          (submit_new sys fuel junk w g gid req (record s { headers = headers }))
  unfolding submit_new submit_io_request enqueue new_completion
  submit_new-Called g gid req headers made =
      let i : Item = (req, w.address) in
      let Last : Sink Item → Type 0 = λ q. q.pending ≡ s.sink.pending ++ (i ∷ []) in
      Ends-if false (Called c w s) s.threaded _ _
        (λ t.
          Ends->>= false Last (Called c w s) (enqueue i s.sink) _
            (Ends-if false Last s.sink.stopped _ _ (λ x. refl) (λ x. refl))
            (λ q e. record {
              item = i;
              completion = new_completion g gid w;
              named_by = refl;
              unanswered = refl;
              fillable = made;
              same_ring = refl;
              added = refl;
              queued_last = e;
              is_threaded = t;
            }))
        (λ n. absurd (cc (n, threaded)))

  supported-Called :
      (Harmless c → (y : Context) → supported y c ≡ true)
      → Safely (Called c w s) (call sys fuel junk w s c)
  supported-Called known = elim (call-Submits sys fuel junk w s c) [
    | refuses b x ↦ subst (Safely (Called c w s)) (sym x) refl
    | submits b g ↦ subst (Safely (Called c w s)) (sym g.submitted) (
        submit_new-Called g.kind g.gid g.request g.headers
          (λ h. Made-Fillable g.request (λ y. g.built y (known h y))))
  ]

module _ {R : Type 0} (sys : Ring R) (fuel junk : ℕ) (w : Caller) (s : Client R)
    (threaded : s.threaded ≡ true) where
  removal-Called :
      (nbufs : ℕ) (gid : ℤ)
      → Safely
          (Called (Call.remove_buffer nbufs gid) w s)
          (call sys fuel junk w s (Call.remove_buffer nbufs gid))
  unfolding call remove_buffer
  removal-Called nbufs gid =
      submit_new-Called sys fuel junk (Call.remove_buffer nbufs gid) w s threaded Kind.plain
        invalid_gid (make_remove_buffer nbufs gid w.vars) s.headers
        (λ h. make_remove_buffer-Fillable nbufs gid w.vars)

  removal_or_not : (c : Call) → IsRemoval c → Safely (Called c w s) (call sys fuel junk w s c)
  removal_or_not _ (removal nbufs gid) = removal-Called nbufs gid
  removal_or_not c (other f) = supported-Called sys fuel junk c w s threaded f

module _ {R : Type 0} (sys : Ring R) (fuel junk : ℕ) (c : Call) (w : Caller) (s : Client R)
    (threaded : s.threaded ≡ true) where
  -- While the thread runs, a call returns so, or an assertion fails.
  pub call-Called : Safely (Called c w s) (call sys fuel junk w s c)
  call-Called = removal_or_not sys fuel junk w s threaded c (IsRemoval-cases c)

module _ {R : Type 0} (sys : Ring R) (k : Contract sys) where
  new_apart :
      (r : R) (e : Engine) (a b : ℕ)
      → Fresh b e
      → Covers (k.known r) e
      → a ≡ b
      → (unnamed a || k.known r a) ≡ false
  new_apart r e a b f cov q =
      subst (λ x. (unnamed x || k.known r x) ≡ false) (sym q)
        (ground (arith, not_alive (k.known r) e b cov f, f))

  added-Apart :
      (items : List Item) (r : R) (e : Engine) (i : Item)
      → Fresh i.1 e
      → Safe sys k items r e
      → Apart (k.known r) (queued (items ++ (i ∷ [])))
  added-Apart items r e i f s a h = elim (ℕ_discrete a i.1) [
    | yes q ↦ new_apart r e a i.1 f s.alive_known q
    | no n ↦ s.apart a (ground (arith, h, queued_append items i a))
  ]

  -- A new completion behind the queue.
  pub add-Safe :
      (items : List Item) (r : R) (e : Engine) (m : Completion) (i : Item)
      → Fresh i.1 e
      → Fillable i.0
      → Safe sys k items r e
      → Safe sys k (items ++ (i ∷ [])) r (with_handler i.1 m e)
  add-Safe items r e m i f made s = record {
    alive_known = λ a h. added_alive a i.1 m e (ground (arith, s.alive_known a h));
    alive_queued =
        λ a h. added_alive a i.1 m e (ground (arith, s.alive_queued a, queued_append items i a));
    apart = added-Apart items r e i f s;
    is_distinct =
        distinct_append items i s.is_distinct (not_alive (queued items) e i.1 s.alive_queued f);
    all_fillable = AllFillable-append items i s.all_fillable made;
    sound_pools = s.sound_pools;
  }

  -- The state of the whole object is safe, while the thread runs.
  pub record SafeClient (s : Client R) : Type 0 where
    pub safe : Safe sys k s.sink.pending s.uring.ring s.uring.engine
    pub is_threaded : s.threaded ≡ true

  module _ (w : Caller) (c : Call) (s s' : Client R) (known : Harmless c) (ok : SafeClient s)
      (f : Fresh w.address s.uring.engine) (h : Called c w s s') where
    called-Safe : Safe sys k s'.sink.pending s'.uring.ring s'.uring.engine
    called-Safe =
        rw (h.queued_last, h.same_ring, h.added)
          (add-Safe s.sink.pending s.uring.ring s.uring.engine h.completion h.item
            (subst (λ a. Fresh a s.uring.engine) (sym h.named_by) f) (h.fillable known) ok.safe)

  pub call_safe :
      (fuel junk : ℕ) (w : Caller) (c : Call) (s : Client R)
      → Harmless c
      → SafeClient s
      → Fresh w.address s.uring.engine
      → Safely SafeClient (call sys fuel junk w s c)
  call_safe fuel junk w c s known ok f =
      Ends-weaken false (Called c w s) SafeClient (call sys fuel junk w s c)
        (call-Called sys fuel junk c w s ok.is_threaded)
        (λ s' h. record { safe = called-Safe w c s s' known ok f h; is_threaded = h.is_threaded })

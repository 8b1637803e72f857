-- ===== src/System/Started.antt =====
-- What the constructor of `IoUring` leaves.
use iouring_cc.Common.{
  ℕ, ◌==◌, ◌≡◌, refl, subst, ◌&&◌, not, Bool, true, false, List, [], replicate, Option, none, some,
  if◌then◌else◌,
}
use iouring_cc.Common.Int.{ℤ, pos, negsuc, eqb_ℤ, ltb_ℤ}
use iouring_cc.Common.Outcome.{done, aborted, ◌>>=◌}
use iouring_cc.Common.Safely.{Ends, Ends->>=, Ends-if}
use iouring_cc.Submit.{Ring, Uring}
use iouring_cc.Files.Table.{new_table}
use iouring_cc.Sink.{new_sink}
use iouring_cc.Buffer.{Throws, returned, thrown}
use iouring_cc.Api.{Client}
use iouring_cc.Setup.Params.{Params}
use iouring_cc.System.Alive.{Any}
use iouring_cc.Setup.Construct.{
  Host, probe_all, register_slots, features_supported, ops_supported, initial, register_event_fd,
  register_iovecs, set_up, construct, prepare_memory, prepare_sizes,
}
use iouring_cc.Setup.Groups.{Waits}
use iouring_cc.System.Idle.{
  SizesFit, MemoryFits, Idle, Ends-Any, prepare_memory-Idle, prepare_sizes-Idle,
}

module _ {R : Type 0} (sys : Ring R) (waits : Waits R) (fuel : ℕ) (host : Host R) where
  -- What the constructor leaves, unless it throws.
  pub record Fit (p : Params) (s : Client R) : Type 0 where
    pub is_idle : Idle s.uring.engine
    pub none_queued : s.sink.pending ≡ []
    pub is_open : s.sink.stopped ≡ false
    pub is_threaded : s.threaded ≡ p.start_sub_consume_thread

  abbrev pub FitIfReturned : Params → Throws (Client R) → Type 0
  FitIfReturned p thrown = true ≡ true
  FitIfReturned p (returned s) = Fit p s

  initial-Fit :
      (p : Params) (r : R) (v : Uring R)
      → Idle v.engine
      → Fit p (record (initial sys waits host fuel p r) { uring = v })
  unfolding new_sink
  initial-Fit p r v i = record {
    is_idle = i;
    none_queued = refl;
    is_open = refl;
    is_threaded = refl;
  }

  same-Fit :
      (p : Params) (s : Client R) (r : R) (fd : ℤ)
      → Fit p s
      → Fit p (record s { uring = record s.uring { ring = r }; event_fd = fd })
  same-Fit p s r fd f = record {
    is_idle = f.is_idle;
    none_queued = f.none_queued;
    is_open = f.is_open;
    is_threaded = f.is_threaded;
  }

  opened :
      (p : Params) (good : Bool) (x : Client R)
      → Fit p x
      → Ends true (Fit p) (if good then done x else aborted)
  opened p true x f = f
  opened p false x f = refl

  register_event_fd-Fit :
      (p : Params) (s : Client R)
      → Fit p s
      → Ends true (Fit p) (register_event_fd sys waits host fuel s)
  unfolding register_event_fd
  register_event_fd-Fit p s f =
      Ends-if true (Fit p) (not (eqb_ℤ s.event_fd (negsuc 0))) _ _ (λ x. refl)
        (λ x.
          let fd = host.eventfd s.uring.ring in
          let res = host.register_eventfd fd.0 fd.1 in
          opened p (eqb_ℤ res.0 (pos 0) && ltb_ℤ (pos 0) fd.0) _ (same-Fit p s res.1 fd.0 f))

  returned_if :
      (p : Params) (none_given refused : Bool) (x y : Client R)
      → Fit p x
      → Fit p y
      → FitIfReturned p (if none_given then returned x else if refused then thrown else returned y)
  returned_if p true refused x y f g = f
  returned_if p false true x y f g = refl
  returned_if p false false x y f g = g

  register_iovecs-Fit :
      (p : Params) (x : ℕ × ℕ) (s : Client R)
      → Fit p s
      → FitIfReturned p (register_iovecs sys waits host fuel x s)
  unfolding register_iovecs
  register_iovecs-Fit p (iovecs, n) s f =
      let res = host.register_buffers iovecs n s.uring.ring in
      returned_if p (iovecs == 0) (ltb_ℤ res.0 (pos 0) && not (eqb_ℤ res.0 (negsuc 61))) s
        (record s { uring = record s.uring { ring = res.1 } }) f (same-Fit p s res.1 s.event_fd f)

  -- The total size of every group of buffers fits in 32 bits.
  abbrev pub Fits : Params → Type 0
  Fits p = SizesFit p.provided_buffers × MemoryFits p.pre_allocate_provided_buffers

  known-Idle :
      (known : Bool) (p : Params) (fits : Fits p) (r : R)
      → Ends true
          (λ v. Idle v.engine)
          (if known
            then prepare_memory sys waits host fuel p.pre_allocate_provided_buffers
                (initial sys waits host fuel p r).uring
            else aborted)
  known-Idle known p fits r =
      Ends-if true (λ v. Idle v.engine) known _ _
        (λ x.
          prepare_memory-Idle sys waits fuel host p.pre_allocate_provided_buffers
            (initial sys waits host fuel p r).uring fits.1 (refl, refl, refl))
        (λ x. refl)

  -- From the pools on.
  provided_fit :
      (allocated : ℤ → ℕ) (p : Params) (fits : Fits p) (r : R) (u : Uring R)
      → Idle u.engine
      → Ends true (FitIfReturned p) (
          prepare_sizes sys waits host fuel allocated p.provided_buffers u >>= λ v.
          (if p.register_event_fd
            then register_event_fd sys waits host fuel
                (record (initial sys waits host fuel p r) { uring = v })
            else done (record (initial sys waits host fuel p r) { uring = v }))
          >>= λ s. done (register_iovecs sys waits host fuel p.registered_buffers s))
  provided_fit allocated p fits r u i =
      Ends->>= true (λ v. Idle v.engine) (FitIfReturned p)
        (prepare_sizes sys waits host fuel allocated p.provided_buffers u) _
        (prepare_sizes-Idle sys waits fuel host allocated p.provided_buffers u fits.0 i)
        (λ v j.
          Ends->>= true (Fit p) (FitIfReturned p)
            (if p.register_event_fd
              then register_event_fd sys waits host fuel
                  (record (initial sys waits host fuel p r) { uring = v })
              else done (record (initial sys waits host fuel p r) { uring = v }))
            _
            (Ends-if true (Fit p) p.register_event_fd _ _
              (λ x. register_event_fd-Fit p _ (initial-Fit p r v j)) (λ x. initial-Fit p r v j))
            (λ s f. register_iovecs-Fit p p.registered_buffers s f))

  supported_fit :
      (allocated : ℤ → ℕ) (p : Params) (fits : Fits p) (r : R)
      → Ends true (FitIfReturned p) (
          (if features_supported (host.features r) p.features_needed
            then ops_supported host p.required_ops r
            else aborted)
          >>= λ known.
              (if known
                then prepare_memory sys waits host fuel p.pre_allocate_provided_buffers
                    (initial sys waits host fuel p r).uring
                else aborted)
              >>= λ u. prepare_sizes sys waits host fuel allocated p.provided_buffers u >>= λ v.
                  (if p.register_event_fd
                    then register_event_fd sys waits host fuel
                        (record (initial sys waits host fuel p r) { uring = v })
                    else done (record (initial sys waits host fuel p r) { uring = v }))
                  >>= λ s. done (register_iovecs sys waits host fuel p.registered_buffers s))
  supported_fit allocated p fits r =
      let known =
        if features_supported (host.features r) p.features_needed
        then ops_supported host p.required_ops r
        else aborted in
      Ends->>= true Any (FitIfReturned p) known _ (Ends-Any known) (λ k n.
        Ends->>= true (λ v. Idle v.engine) (FitIfReturned p)
          (if k
            then prepare_memory sys waits host fuel p.pre_allocate_provided_buffers
                (initial sys waits host fuel p r).uring
            else aborted)
          _ (known-Idle k p fits r) (λ u i. provided_fit allocated p fits r u i))

  set_up_fit :
      (op_last : ℕ) (allocated : ℤ → ℕ) (p : Params) (fits : Fits p) (probe : List (ℕ × Bool))
      (r : R)
      → Ends true (FitIfReturned p) (set_up sys waits host fuel op_last allocated p probe r)
  unfolding set_up
  set_up_fit op_last allocated p fits probe r =
      let marks = probe_all op_last 0 probe (replicate op_last false) in
      let slots = register_slots sys waits host fuel (new_table p.max_fd_slots) r in
      Ends->>= true Any (FitIfReturned p) marks _ (Ends-Any marks) (λ m n.
        Ends->>= true Any (FitIfReturned p) slots _ (Ends-Any slots)
          (λ r' n. supported_fit allocated p fits r'))

  probed_fit :
      (op_last : ℕ) (allocated : ℤ → ℕ) (p : Params) (fits : Fits p) (o : Option (List (ℕ × Bool)))
      (r : R)
      → Ends true (FitIfReturned p) (elim o [
        | none ↦ aborted
        | some probe ↦ set_up sys waits host fuel op_last allocated p probe r
      ])
  probed_fit op_last allocated p fits none r = refl
  probed_fit op_last allocated p fits (some probe) r = set_up_fit op_last allocated p fits probe r

  construct_fit :
      (op_last : ℕ) (allocated : ℤ → ℕ) (wq_fd : ℕ) (p : Params) (fits : Fits p) (r : R)
      → Ends true (FitIfReturned p) (construct sys waits host fuel op_last allocated wq_fd p r)
  unfolding construct
  construct_fit op_last allocated wq_fd p fits r =
      let ring = host.queue_init p.cq_entries p.flag wq_fd r in
      Ends-if true (FitIfReturned p) (ltb_ℤ ring.0 (pos 0)) _ _ (λ x. refl)
        (λ x. probed_fit op_last allocated p fits (host.get_probe ring.1) ring.1)

  -- Where the size of each group times its number fits in 32 bits, an object that the constructor
  -- returns has no completion, no answer and nothing queued, its
  -- queue is open, and the thread runs if it was asked for.
  pub construct-Fit :
      (op_last : ℕ) (allocated : ℤ → ℕ) (wq_fd : ℕ) (p : Params) (fits : Fits p) (r : R)
      (s : Client R)
      → construct sys waits host fuel op_last allocated wq_fd p r ≡ done (returned s)
      → Fit p s
  construct-Fit op_last allocated wq_fd p fits r s h =
      subst (Ends true (FitIfReturned p)) h (construct_fit op_last allocated wq_fd p fits r)

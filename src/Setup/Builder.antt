-- ===== src/Setup/Builder.antt =====
-- Sequences of the calls of `IoUringParams`.
use iouring_cc.Common.{
  ◌||◌, ◌≡◌, refl, sym, ap, ◌∙◌, subst, true, false, List, [], ◌∷◌, arith, Bool-cases, inl, inr,
}
use iouring_cc.Common.Int.{ℤ, eqb_ℤ}
use iouring_cc.Common.Outcome.{Outcome, done, aborted, ◌>>=◌}
use iouring_cc.Pools.{new_pool}
use iouring_cc.Completion.{invalid_gid}
use iouring_cc.Setup.Params.{
  Params, new_params, set_io_poll, set_sq_poll, set_flag, set_cqe_wait_timeout, set_max_fd_slots,
  set_cqe_entries, set_attach_wq_fd, enable_sub_consume_thread, disable_sub_consume_thread,
  set_register_event_fd, set_max_cqe_drain, should_support_feat_fast_poll,
  should_support_op_provide_buffers, has_group, emplace_group, add_provided_buffer,
  add_provided_memory, register_buffers,
}
use iouring_cc.Setup.Maps.{
  Distinct, has_group-emplace_group, if-Distinct, emplace_group-Distinct, erase_group-Distinct,
  cleared, cleared_of, cleared_keeps, unnamed,
}
use iouring_cc.Setup.Settings.{
  Setting, io_poll, sq_poll, enable_thread, disable_thread, fast_poll, provide_op, flags,
  wait_timeout, fd_slots, entries, drain, wq_fd, event_fd, sizes, memory, vectors, apply, apply_all,
  given, elem, sensible, all_sensible,
}

-- Neither map has a group twice, or the invalid group.
pub record IsValid (p : Params) : Type 0 where
  pub sizes_distinct : Distinct p.provided_buffers
  pub sizes_named : has_group invalid_gid p.provided_buffers ≡ false
  pub memory_distinct : Distinct p.pre_allocate_provided_buffers
  pub memory_named : has_group invalid_gid p.pre_allocate_provided_buffers ≡ false

-- The map of memory has the groups that are named.
Holds : Params → List ℤ → Type 0
Holds p gs = IsValid p × ((g : ℤ) → has_group g p.pre_allocate_provided_buffers ≡ elem g gs)

Leaves : Outcome Params → List ℤ → Type 0
unfolding Holds
Leaves x gs = (q : Params) × (x ≡ done q) × Holds q gs

-- A call that keeps both maps.
kept :
    (p q : Params) (gs : List ℤ)
    → q.provided_buffers ≡ p.provided_buffers
    → q.pre_allocate_provided_buffers ≡ p.pre_allocate_provided_buffers
    → Holds p gs
    → Holds q gs
unfolding Holds
kept p q gs e f (v, l) = (
  record {
    sizes_distinct = subst Distinct (sym e) v.sizes_distinct;
    sizes_named = subst (λ m. has_group invalid_gid m ≡ false) (sym e) v.sizes_named;
    memory_distinct = subst Distinct (sym f) v.memory_distinct;
    memory_named = subst (λ m. has_group invalid_gid m ≡ false) (sym f) v.memory_named;
  },
  λ g. ap (has_group g) f ∙ l g,
)

done_kept :
    (p q : Params) (gs : List ℤ)
    → q.provided_buffers ≡ p.provided_buffers
    → q.pre_allocate_provided_buffers ≡ p.pre_allocate_provided_buffers
    → Holds p gs
    → Leaves (done q) gs
unfolding Leaves
done_kept p q gs e f h = (q, refl, kept p q gs e f h)

apply-Leaves :
    (x : Setting) (p : Params) (gs : List ℤ)
    → Holds p gs
    → sensible x gs ≡ true
    → Leaves (apply x p) (given x gs)
unfolding apply Holds Leaves set_io_poll set_sq_poll enable_sub_consume_thread
    disable_sub_consume_thread should_support_feat_fast_poll should_support_op_provide_buffers
    set_flag set_cqe_wait_timeout set_max_fd_slots set_cqe_entries set_max_cqe_drain
    set_attach_wq_fd set_register_event_fd register_buffers add_provided_buffer add_provided_memory
apply-Leaves io_poll p gs h o = done_kept p _ gs refl refl h
apply-Leaves sq_poll p gs h o = done_kept p _ gs refl refl h
apply-Leaves enable_thread p gs h o = done_kept p _ gs refl refl h
apply-Leaves disable_thread p gs h o = done_kept p _ gs refl refl h
apply-Leaves fast_poll p gs h o = done_kept p _ gs refl refl h
apply-Leaves provide_op p gs h o = done_kept p _ gs refl refl h
apply-Leaves (flags n) p gs h o = done_kept p _ gs refl refl h
apply-Leaves (wait_timeout n) p gs h o = done_kept p _ gs refl refl h
apply-Leaves (fd_slots n) p gs h o = done_kept p _ gs refl refl h
apply-Leaves (entries n) p gs h o = done_kept p _ gs refl refl h
apply-Leaves (drain n) p gs h o = done_kept p _ gs refl refl h
apply-Leaves (wq_fd fd) p gs h o = done_kept p _ gs (ground arith) (ground arith) h
apply-Leaves (event_fd b) p gs h o = done_kept p _ gs refl refl h
apply-Leaves (vectors iovecs n) p gs h o =
    (record p { registered_buffers = (iovecs, n) }, ground arith, kept p _ gs refl refl h)
apply-Leaves (sizes gid size count) p gs h o = (
  record p { provided_buffers = emplace_group gid (size, count) (cleared gid p.provided_buffers) },
  ground arith,
  (
    record {
      sizes_distinct =
          emplace_group-Distinct gid (size, count) (cleared gid p.provided_buffers)
            (cleared_of gid p.provided_buffers h.0.sizes_distinct)
            (if-Distinct (has_group gid p.provided_buffers) _ _
              (erase_group-Distinct gid p.provided_buffers h.0.sizes_distinct) h.0.sizes_distinct);
      sizes_named =
          unnamed gid (size, count) (cleared gid p.provided_buffers) (ground arith)
            (cleared_keeps invalid_gid gid p.provided_buffers h.0.sizes_named);
      memory_distinct = h.0.memory_distinct;
      memory_named = h.0.memory_named;
    },
    h.1,
  ),
)
apply-Leaves (memory gid size count bufs) p gs h o =
    let absent = h.1 gid in
    let pool = new_pool size count bufs in
    (
      record p {
        pre_allocate_provided_buffers = emplace_group gid pool p.pre_allocate_provided_buffers;
      },
      ground arith,
      (
        record {
          sizes_distinct = h.0.sizes_distinct;
          sizes_named = h.0.sizes_named;
          memory_distinct =
              emplace_group-Distinct gid pool p.pre_allocate_provided_buffers (ground arith)
                h.0.memory_distinct;
          memory_named =
              unnamed gid pool p.pre_allocate_provided_buffers (ground arith) h.0.memory_named;
        },
        λ g.
            has_group-emplace_group g gid pool p.pre_allocate_provided_buffers
            ∙ ap (λ b. eqb_ℤ gid g || b) (h.1 g),
      ),
    )

apply-aborts :
    (x : Setting) (p : Params) (gs : List ℤ)
    → Holds p gs
    → sensible x gs ≡ false
    → apply x p ≡ aborted
unfolding apply Holds register_buffers add_provided_buffer add_provided_memory
apply-aborts (vectors iovecs n) p gs h o = ground arith
apply-aborts (sizes gid size count) p gs h o = ground arith
apply-aborts (memory gid size count bufs) p gs h o = (let absent = h.1 gid in ground arith)
apply-aborts _ p gs h o = cc

-- The ends of a sequence of calls.
pub data Ended (xs : List Setting) (gs : List ℤ) (x : Outcome Params) : Type 0 where
  returns : (q : Params) → all_sensible xs gs ≡ true → x ≡ done q → IsValid q → Ended xs gs x
  fails : all_sensible xs gs ≡ false → x ≡ aborted → Ended xs gs x

extended :
    (x : Setting) (xs : List Setting) (gs : List ℤ) (p q : Params)
    → sensible x gs ≡ true
    → apply x p ≡ done q
    → Ended xs (given x gs) (apply_all xs q)
    → Ended (x ∷ xs) gs (apply x p >>= λ r. apply_all xs r)
extended x xs gs p q o e (returns r a f v) =
    returns r (ground arith) (ap (λ m. m >>= λ t. apply_all xs t) e ∙ f) v
extended x xs gs p q o e (fails a f) =
    fails (ground arith) (ap (λ m. m >>= λ t. apply_all xs t) e ∙ f)

apply_all_on-Ended :
    (xs : List Setting) (p : Params) (gs : List ℤ) → Holds p gs → Ended xs gs (apply_all xs p)
unfolding apply_all Holds Leaves
apply_all_on-Ended [] p gs h = returns p refl refl h.0
apply_all_on-Ended (x ∷ xs) p gs h = elim (Bool-cases (sensible x gs)) [
  | inl o ↦
      (let (q, e, g) = apply-Leaves x p gs h o in
        extended x xs gs p q o e (apply_all_on-Ended xs q (given x gs) g))
  | inr o ↦ fails (ground arith) (ap (λ m. m >>= λ q. apply_all xs q) (apply-aborts x p gs h o))
]

-- Any sequence of calls on new parameters either returns or fails an assertion, and fails one exactly
-- if it gives the invalid group to `AddProvidedBuffer`, in either form, gives memory to a group that
-- has been given memory before, or registers vectors that are null or none. If it returns, neither of
-- the two maps has a group twice or the invalid group.
pub apply_all-Ended : (xs : List Setting) → Ended xs [] (apply_all xs new_params)
unfolding new_params has_group Holds
apply_all-Ended xs = apply_all_on-Ended xs new_params [] (
  record { sizes_distinct = refl; sizes_named = refl; memory_distinct = refl; memory_named = refl },
  λ g. refl,
)

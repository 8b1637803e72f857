-- ===== src/System/Runs.antt =====
-- Runs of the calls and the thread of `IoUring`, and undefined behaviour.
use iouring_cc.Common.{ℕ, ◌≡◌, ◌≢◌, refl, sym, subst, [], true, false}
use iouring_cc.Common.Outcome.{Outcome, done, undefined}
use iouring_cc.Common.Safely.{Safely, Ends->>=, not_undefined}
use iouring_cc.Pools.Sound.{SoundPools}
use iouring_cc.Sink.{stop}
use iouring_cc.Submit.{Ring}
use iouring_cc.System.Fillable.{Harmless}
use iouring_cc.System.Contract.{Contract}
use iouring_cc.System.Safe.{queued, distinct, AllFillable, Safe, Safe-kept, same_handlers}
use iouring_cc.System.Alive.{Covers}
use iouring_cc.System.Batch.{Apart}
use iouring_cc.System.Thread.{drain_keeps, finish_keeps}
use iouring_cc.System.Calls.{SafeClient, call_safe}
use iouring_cc.System.Steps.{
  Program, Step, Reaches, with_client, after_round, calls, drains, finishes, stops, registers,
  provides, here, next,
}

module _ {R : Type 0} (sys : Ring R) where
  -- The call of a step, and every call of a run, is any but the removal and the update of a timeout,
  -- `Socket`, and `ProvideBuffer` of length 0; and pools that are provided have memory for their
  -- buffers.
  abbrev pub Supports : {p : Program R} {x : Outcome (Program R)} → Step sys p x → Type 0
  Supports (calls fuel junk w c f) = Harmless c
  Supports (drains fuel junk stop_at count m k b c e) = true ≡ true
  Supports (finishes fuel junk count e) = true ≡ true
  Supports stops = true ≡ true
  Supports (registers files) = true ≡ true
  Supports (provides pools) = SoundPools pools

  abbrev pub AllSupported : {p : Program R} {x : Outcome (Program R)} → Reaches sys p x → Type 0
  AllSupported here = true ≡ true
  AllSupported (next r t) = AllSupported r × Supports t

module _ {R : Type 0} (sys : Ring R) (k : Contract sys) where
  -- Every completion that an entry may come for, or that is queued, is alive.
  pub SafeProgram : Program R → Type 0
  SafeProgram p = SafeClient sys k p.client

  step_safe :
      (p : Program R) (x : Outcome (Program R)) (t : Step sys p x)
      → Supports sys t
      → SafeProgram p
      → Safely SafeProgram x
  unfolding SafeProgram stop
  step_safe p x (calls fuel junk w c f) known s =
      Ends->>= false (SafeClient sys k) SafeProgram _ (λ v. done (with_client p v))
        (call_safe sys k fuel junk w c p.client known s f) (λ v q. q)
  step_safe p x (drains fuel junk stop_at count m q a b e) known s =
      Ends->>= false (λ u. Safe sys k q.pending u.ring u.engine) SafeProgram m _
        (drain_keeps sys false (Safe sys k) (Safe-kept sys k) fuel junk p.client.uring.max_drain
          stop_at p.client.sink q p.client.uring.engine.pending count (done p.client.uring) m e
          s.safe)
        (λ u t. record { safe = t; is_threaded = s.is_threaded })
  step_safe p x (finishes fuel junk count e) known s =
      Ends->>= false (λ y. Safe sys k p.client.sink.pending y.uring.ring y.uring.engine) SafeProgram
        _ (λ y. done (after_round p y))
        (finish_keeps sys false (Safe sys k) (Safe-kept sys k) fuel junk p.client.sink.pending count
          p.client.sink p.client.uring s.safe)
        (λ y t. record { safe = t; is_threaded = s.is_threaded })
  step_safe p x stops known s = record { safe = s.safe; is_threaded = s.is_threaded }
  step_safe p x (registers files) known s = record { safe = s.safe; is_threaded = s.is_threaded }
  step_safe p x (provides pools) known s = record {
    safe =
        same_handlers sys k p.client.sink.pending p.client.uring.ring p.client.uring.engine pools
          known s.safe;
    is_threaded = s.is_threaded;
  }

  reaches_safe :
      (p : Program R) (x : Outcome (Program R)) (r : Reaches sys p x)
      → AllSupported sys r
      → SafeProgram p
      → Safely SafeProgram x
  reaches_safe p x here known s = s
  reaches_safe p x (next {q} r t) known s =
      step_safe q x t known.1 (reaches_safe p (done q) r known.0 s)

  module _ (p : Program R) (threaded : p.client.threaded ≡ true)
      (nothing_queued : p.client.sink.pending ≡ [])
      (nothing_known : (a : ℕ) → k.known p.client.uring.ring a ≡ false)
      (sound : SoundPools p.client.uring.engine.pools) where
    nothing_queued_at : (a : ℕ) → queued p.client.sink.pending a ≡ false
    nothing_queued_at a = rw nothing_queued refl

    start_safe : SafeProgram p
    unfolding SafeProgram
    start_safe = record {
      safe = record {
        alive_known = λ a h. absurd (cc (h, nothing_known a));
        alive_queued = λ a h. absurd (cc (h, nothing_queued_at a));
        apart = λ a h. absurd (cc (h, nothing_queued_at a));
        is_distinct = rw nothing_queued refl;
        all_fillable = subst AllFillable (sym nothing_queued) refl;
        sound_pools = sound;
      };
      is_threaded = threaded;
    }

    -- While the thread of an object runs that started with nothing queued, nothing under way, and the
    -- buffers of every pool within its memory, no order of calls and rounds comes to undefined
    -- behaviour: no entry, be it of a batch or of a single request, comes for a completion that is
    -- gone, no handler reads a member of a union that is not the active one, and no buffer lies
    -- outside its pool. The calls of the run are any but the removal and the update of a timeout,
    -- `Socket`, and `ProvideBuffer` of length 0; pools that are provided meanwhile have memory for
    -- their buffers, the addresses of the calls' completions are new, and liburing keeps its
    -- contract. What the kernel reads of the local timespecs that the handlers of timeouts point to
    -- is not covered.
    pub never_undefined :
        (x : Outcome (Program R)) (r : Reaches sys p x) → AllSupported sys r → x ≢ undefined
    never_undefined x r known = not_undefined SafeProgram x (reaches_safe p x r known start_safe)

    -- While the thread of an object runs that started with nothing queued, nothing under way, and the
    -- buffers of every pool within its memory: in each state that calls and rounds lead to, in
    -- whatever order, every completion that an entry may come for, and every one that is queued, is
    -- alive; no completion is both under way and queued, and none is queued twice. The calls of the
    -- run are any but the removal and the update of a timeout, `Socket`, and `ProvideBuffer` of
    -- length 0; pools that are provided meanwhile have memory for their buffers, the addresses of the
    -- calls' completions are new, and liburing keeps its contract.
    pub reached_alive :
        (q : Program R) (r : Reaches sys p (done q))
        → AllSupported sys r
        → Covers (k.known q.client.uring.ring) q.client.uring.engine
          × Covers (queued q.client.sink.pending) q.client.uring.engine
          × Apart (k.known q.client.uring.ring) (queued q.client.sink.pending)
          × (distinct q.client.sink.pending ≡ true)
    unfolding SafeProgram
    reached_alive q r known =
        let s = reaches_safe p (done q) r known start_safe in
        (s.safe.alive_known, s.safe.alive_queued, s.safe.apart, s.safe.is_distinct)

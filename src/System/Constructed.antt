-- ===== src/System/Constructed.antt =====
-- Runs from the constructor of `IoUring` on.
use iouring_cc.Common.{ℕ, ◌≡◌, ◌≢◌, ◌∙◌, true, false, none}
use iouring_cc.Common.Int.{ℤ}
use iouring_cc.Common.Outcome.{Outcome, done, undefined}
use iouring_cc.Submit.{Ring}
use iouring_cc.Buffer.{returned}
use iouring_cc.Api.{Client}
use iouring_cc.Setup.Params.{Params}
use iouring_cc.Setup.Construct.{Host, construct}
use iouring_cc.Setup.Groups.{Waits}
use iouring_cc.System.Contract.{Contract}
use iouring_cc.System.Idle.{SizesFit, MemoryFits}
use iouring_cc.System.Steps.{Program, Reaches}
use iouring_cc.System.Runs.{AllSupported, never_undefined}
use iouring_cc.System.Started.{construct-Fit}

-- The object with the thread of `ProcessIoRequests` at its start.
abbrev pub begin : {R : Type 0} → Client R → Program R
begin s = record { client = s; drained = none; ended = false }

module _ {R : Type 0} (sys : Ring R) (waits : Waits R) (fuel : ℕ) (host : Host R)
    (k : Contract sys) where
  -- An object that the constructor returns, with its thread and with nothing under way in the ring,
  -- where the size of each group of buffers times their number fits in 32 bits: in no order of calls
  -- and rounds does it come to undefined behaviour. The calls of the run are any but the removal and
  -- the update of a timeout, `Socket`, and `ProvideBuffer` of length 0; pools that are
  -- provided meanwhile have memory for their buffers, the addresses of the calls' completions are
  -- new, and liburing keeps its contract. What the kernel reads of the local
  -- timespecs that the handlers of timeouts point to is not covered.
  pub constructed_never_undefined :
      (op_last : ℕ) (allocated : ℤ → ℕ) (wq_fd : ℕ) (p : Params) (r : R) (s : Client R)
      → construct sys waits host fuel op_last allocated wq_fd p r ≡ done (returned s)
      → SizesFit p.provided_buffers
      → MemoryFits p.pre_allocate_provided_buffers
      → p.start_sub_consume_thread ≡ true
      → ((a : ℕ) → k.known s.uring.ring a ≡ false)
      → (x : Outcome (Program R)) (t : Reaches sys (begin s) x) → AllSupported sys t
      → x ≢ undefined
  constructed_never_undefined op_last allocated wq_fd p r s h sizes memory thread nothing x t
        known =
      let f = construct-Fit sys waits fuel host op_last allocated wq_fd p (sizes, memory) r s h in
      never_undefined sys k (begin s) (f.is_threaded ∙ thread) f.none_queued nothing f.is_idle.2 x t
        known

-- ===== src/System/SmallRing.antt =====
-- A ring that has one entry for submissions, with what it promises and its log, for the tests.
use iouring_cc.Common.{
  ◌++◌, ℕ, Bool, ◌||◌, ap, ◌∙◌, length, ◌==◌, ◌≡◌, refl, true, false, List, [], ◌∷◌, Bool-cases,
  inl, inr, Option, none, some, arith, if◌then◌else◌,
}
use iouring_cc.Common.Int.{pos, negsuc}
use iouring_cc.Sqe.Entry.{Sqe}
use iouring_cc.Completion.Entry.{Cqe}
use iouring_cc.Submit.{Ring}
use iouring_cc.System.Contract.{Contract, Tokens, named, retire_all}
use iouring_cc.System.Order.{Logged}
use iouring_cc.Request.Payload.{CommonVars, invalid_fileindex}
use iouring_cc.Files.Table.{new_table}
use iouring_cc.Sqe.Dispatch.{Context}
use iouring_cc.Api.{Caller}
use iouring_cc.Api.Calls.{Call}
use iouring_cc.Api.Contracts.{supported}
use iouring_cc.System.Steps.{Program}

abbrev blank : Sqe
blank = record { calls = []; user_data = 0; flags = 0; buf_group = 0 }

abbrev answer_to : Option ℕ → List Cqe
answer_to none = []
answer_to (some a) = record { user_data = a; res = pos 0; flags = 0 } ∷ []

-- The entry is free, or holds the `user_data` of what is under way.
abbrev take_entry : Option ℕ → Option Sqe × Option ℕ
take_entry none = (some blank, none)
take_entry (some a) = (none, some a)

-- With a log of the `user_data` that have been put.
abbrev pub Small : Type 0
Small = Option ℕ × List ℕ

abbrev pub small_ring : Ring Small
small_ring = record {
  get_sqe = λ r. ((take_entry r.0).0, ((take_entry r.0).1, r.1));
  put_sqe = λ s r. (some s.user_data, r.1 ++ (s.user_data ∷ []));
  submit = λ r. (pos 1, r);
  wait_cqe_timeout = λ r. (pos 0, r);
  cq_ready = λ r. 1;
  peek_batch_cqe = λ n r. (if n == 0 then [] else answer_to r.0, r);
  cq_advance = λ n r. (if n == 0 then r.0 else none, r.1);
  strerror = λ e. "";
}

abbrev pub small_log : Logged small_ring
small_log = record {
  log = λ r. r.1;
  log_get = λ r. refl;
  log_put = λ s r. refl;
  log_submit = λ r. refl;
  log_wait = λ r. refl;
  log_batch = λ n r. refl;
}

abbrev pub holds : Option ℕ → Tokens
holds none a = false
holds (some b) a = b == a

pub put_keeps :
    (s : Sqe) (other : Bool) (a : ℕ)
    → holds (some s.user_data) a ≡ true
    → (s.user_data == a || other) ≡ true
put_keeps s other a h = ground (arith, h)

pub full_keeps :
    (r : Option ℕ) (l : List ℕ) (r' : Small) (a : ℕ)
    → small_ring.get_sqe (r, l) ≡ (none, r')
    → holds r'.0 a ≡ true
    → holds r a ≡ true
full_keeps none l r' a g h = cc
full_keeps (some b) l r' a g h = ap (λ x. holds x.1.0 a) g ∙ h

pub peek_named :
    (n : ℕ) (r : Option ℕ) → named (if n == 0 then [] else answer_to r) (holds r) ≡ true
peek_named n none = ground arith
peek_named n (some b) = ground arith

pub advance_retires :
    (n : ℕ) (r : Option ℕ) (a : ℕ)
    → holds (if length (if n == 0 then [] else answer_to r) == 0 then r else none) a ≡ true
    → retire_all (if n == 0 then [] else answer_to r) (holds r) a ≡ true
advance_retires n none a h = ground (arith, h)
advance_retires n (some b) a h = elim (Bool-cases (n == 0)) [
  | inl z ↦ rw z (ground (arith, h))
  | inr z ↦ ground (arith, h)
]

abbrev pub small_contract : Contract small_ring
small_contract = record {
  known = λ r. holds r.0;
  put_keeps = λ r r' s s' a g h. put_keeps s' (holds r.0 a) a h;
  full_keeps = λ r r' a g h. full_keeps r.0 r.1 r' a g h;
  submit_keeps = λ r a h. h;
  wait_keeps = λ r a h. h;
  peek_named = λ n r. peek_named n r.0;
  advance_retires = λ n r a h. advance_retires n r.0 a h;
}

abbrev pub some_vars : CommonVars
some_vars = record {
  sqe_flag = 0;
  op_flag = 0;
  multishot = false;
  buf_gid = 0;
  file_index = invalid_fileindex;
  ioprio = 0;
  direct_alloc = false;
}

abbrev pub some_caller : Caller
some_caller = record {
  address = 100;
  msg_hdr = 116;
  left_res = pos 7;
  left_flags = 0;
  left_bid = 0;
  has_handler = true;
  vars = some_vars;
}

abbrev pub start : Program Small
start = record {
  client = record {
    uring = record {
      ring = (none, []);
      files = new_table 2;
      engine = record { handlers = []; pools = []; pending = pos 0; told = []; answers = [] };
      linked_sqe = false;
      stop_consumption = false;
      max_drain = 8;
    };
    sink = record { pending = []; stopped = false };
    threaded = true;
    event_fd = negsuc 0;
    headers = [];
    failed = [];
  };
  drained = none;
  ended = false;
}

pub supported-noop : (y : Context) → supported y Call.noop ≡ true
unfolding supported
supported-noop y = refl

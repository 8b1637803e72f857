-- ===== src/Completion/Future.antt =====
-- `IoFuture` of iouring/io_completion.h: the future of a completion's promise, which stays when the
-- completion is gone, and the completion's address as the token that cancels its operation. The
-- values that promises have got are the answers, with the addresses of their completions.
use iouring_cc.Common.{ℕ, ◌==◌, List, [], ◌∷◌, Option, none, some, if◌then◌else◌}
use iouring_cc.Common.Outcome.{Outcome, done, undefined, running}
use iouring_cc.Completion.{Answer}

-- `promise` says whose promise the future shares a state with; a future that has given its value, or
-- that was moved from, has none.
pub record IoFuture : Type 0 where
  pub promise : Option ℕ
  pub cancel_token : ℕ

-- `IoFuture(std::future<T> &&, void *)` of `completion->GetFuture()` and the completion.
unfoldable pub new_future : ℕ → IoFuture
new_future completion = record { promise = some completion; cancel_token = completion }

-- `IoFuture(IoFuture &&)`: the new future, and the other one.
unfoldable pub move_future : IoFuture → IoFuture × IoFuture
move_future other = (other, record { promise = none; cancel_token = 0 })

unfoldable pub answer_at : ℕ → List (ℕ × Answer) → Option Answer
answer_at a [] = none
answer_at a ((b, x) ∷ rest) = if b == a then some x else answer_at a rest

-- `Get` waits, which is `running`, until the promise has its value. The future then has no state any
-- more, and `get` of such a future is undefined.
unfoldable pub get : List (ℕ × Answer) → IoFuture → Outcome (Answer × IoFuture)
get answers f = elim f.promise [
  | none ↦ undefined
  | some a ↦ elim (answer_at a answers) [
    | none ↦ running
    | some x ↦ done (x, record f { promise = none })
  ]
]

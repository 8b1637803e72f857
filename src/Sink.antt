-- ===== src/Sink.antt =====
-- `IoSink` of iouring/io_sink.h: the queue of requests that wait for the submission ring. An item is
-- a request with its completion. `Stop` writes `stop_` without the mutex, so each reading of it in
-- `Drain` has a value of its own: `stop_at n` is the n-th.
pub mod Order
mod Tests
use iouring_cc.Common.{
  ℕ, suc, ◌+◌, Bool, true, false, not, ◌||◌, List, [], ◌∷◌, ◌++◌, if◌then◌else◌, leb, Option, none,
  some,
}
use iouring_cc.Common.Int.{ℤ, pos, negsuc, ltb_ℤ}
use iouring_cc.Common.Outcome.{Outcome, done, aborted}

pub record Sink (A : Type 0) : Type 0 where
  pub pending : List A
  pub stopped : Bool

unfoldable pub new_sink : (A : Type 0) → Sink A
new_sink A = record { pending = []; stopped = false }

unfoldable pub enqueue : {A : Type 0} → A → Sink A → Outcome (Sink A)
enqueue a k = if k.stopped then aborted else done (record k { pending = k.pending ++ (a ∷ []) })

unfoldable pub stop : {A : Type 0} → Sink A → Sink A
stop k = record k { stopped = true }

unfoldable pub is_empty : {A : Type 0} → List A → Bool
is_empty [] = true
is_empty (a ∷ rest) = false

-- `-StatusCode::kClosed`.
abbrev pub closed_result : ℤ
closed_result = negsuc 99

-- The drained count, the state of `consume`, the queue that is left, and the readings of `stop_`.
pub record Loop (A S : Type 0) : Type 0 where
  pub drained : ℕ
  pub state : S
  pub left : List A
  pub reads : ℕ

module _ {A S : Type 0} (consume : S → A → Bool × S) (max_drain : ℕ) (stop_at : ℕ → Bool) where
  -- The `while` loop of `Drain`.
  unfoldable pub drain_loop : List A → ℕ → S → ℕ → Loop A S
  drain_loop [] d s n = record { drained = d; state = s; left = []; reads = suc n }
  drain_loop (a ∷ rest) d s n =
      let result = consume s a in
      elim (stop_at n) [
        | true ↦ record { drained = d; state = s; left = a ∷ rest; reads = suc n }
        | false ↦ elim result.0 [
          | false ↦ record { drained = d; state = result.1; left = rest; reads = suc n }
          | true ↦ elim (leb max_drain (d + 1)) [
            | true ↦ record { drained = d + 1; state = result.1; left = rest; reads = suc n }
            | false ↦ drain_loop rest (d + 1) result.1 (suc n)
          ]
        ]
      ]

  -- `none` while the condition variable waits; the first reading of `stop_` is its predicate's.
  unfoldable pub drain : Sink A → ℤ → S → Option (ℤ × S × Sink A)
  unfolding drain_loop is_empty
  drain k pending_sqe s =
      if stop_at 0 || (not (is_empty k.pending) || ltb_ℤ (pos 0) pending_sqe)
      then (let o = drain_loop k.pending 0 s 1 in
          some (
            if stop_at o.reads then closed_result else pos o.drained,
            o.state,
            record k { pending = o.left },
          ))
      else none

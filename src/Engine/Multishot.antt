-- ===== src/Engine/Multishot.antt =====
-- What becomes of a completion with several entries.
use iouring_cc.Common.{
  ℕ, ◌==◌, ◌≡◌, inl, inr, refl, ◌∙◌, Bool, Option, none, some, true, false, List, [], ◌∷◌, arith,
  if◌then◌else◌, Bool-cases,
}
use iouring_cc.Common.Int.{negsuc, ◌+ℤ◌}
use iouring_cc.Common.Outcome.{Outcome, done, aborted, ◌>>=◌}
use iouring_cc.Request.Flags.{cqe_more}
use iouring_cc.Completion.Entry.{Cqe, flag_set}
use iouring_cc.Completion.{
  Completion, Completed, Answer, Kind, plain, recv_send_msg, rw_provided_buffer, socket, statx,
  more, settle, complete, complete_provided, complete_with, noted, with_info_bid, invalid_gid,
}
use iouring_cc.Engine.{
  Engine, udata_timeout, find_handler, replaced, handle_cqe, handle_cqes, handle_with, answer_with,
  record_completed,
}

complete-answered :
    (k : Kind) (c : Cqe) (b : Option ℕ) (m : Completion)
    → m.answered ≡ true
    → complete k c b m ≡ aborted
unfolding complete complete_provided settle
complete-answered plain c b m h = ground arith
complete-answered recv_send_msg c b m h = ground arith
complete-answered rw_provided_buffer c b m h = ground arith
complete-answered socket c b m h = ground arith
complete-answered (statx p q) c b m h = ground arith

-- The process ends, or the object stays, with its answer and its group.
data Stays (m : Completion) (x : Outcome Completed) : Type 0 where
  ended : x ≡ aborted → Stays m x
  stays :
      (o : Completed) (n : Completion)
      → x ≡ done o
      → o.left ≡ some n
      → n.answered ≡ true
      → n.buf_gid ≡ m.buf_gid
      → Stays m x

settle-Stays : (c : Cqe) (x : Answer) (m : Completion) → more m ≡ true → Stays m (settle c x m)
unfolding settle
settle-Stays c x m h = elim (Bool-cases m.answered) [
  | inl a ↦ ended (ground arith)
  | inr a ↦
      stays
        (record {
          told = if m.has_callback then some c.res else none;
          answer = x;
          left = some (record m { answered = true });
        })
        (record m { answered = true }) (ground arith) refl refl refl
]

guarded-Stays :
    (m : Completion) (b : Bool) (x : Outcome Completed)
    → Stays m x
    → Stays m (if b then aborted else x)
guarded-Stays m true x s = ended refl
guarded-Stays m false x s = s

regrouped-Stays :
    (m n : Completion) (x : Outcome Completed) → n.buf_gid ≡ m.buf_gid → Stays n x → Stays m x
regrouped-Stays m n x h (ended e) = ended e
regrouped-Stays m n x h (stays o u e l a g) = stays o u e l a (g ∙ h)

-- The tests that `RwProvidedBufferCompletion::Complete` adds only end the process.
provided-Stays :
    (c : Cqe) (b : Option ℕ) (m : Completion) → more m ≡ true → Stays m (complete_provided c b m)
unfolding complete_provided
provided-Stays c b m h = guarded-Stays m _ _ (
    guarded-Stays m _ _ (
      regrouped-Stays m (with_info_bid c m) _ (ground arith)
        (settle-Stays c _ (with_info_bid c m) (ground arith))))

complete-Stays :
    (k : Kind) (c : Cqe) (b : Option ℕ) (m : Completion)
    → more m ≡ true
    → Stays m (complete k c b m)
unfolding complete
complete-Stays plain c b m h = settle-Stays c _ m h
complete-Stays recv_send_msg c b m h = settle-Stays c _ m h
complete-Stays rw_provided_buffer c b m h = provided-Stays c b m h
complete-Stays socket c b m h = settle-Stays c _ m h
complete-Stays (statx p q) c b m h = settle-Stays c _ m h

find-replaced-some :
    (a : ℕ) (n m : Completion) (hs : List (ℕ × Completion))
    → find_handler a hs ≡ some m
    → find_handler a (replaced a (some n) hs) ≡ some n
unfolding find_handler
find-replaced-some a n m [] h = cc
find-replaced-some a n m ((b, u) ∷ hs) h = ground (arith, find-replaced-some a n m hs)

module _ (a : ℕ) (c1 c2 : Cqe) (rest : List Cqe) (e : Engine) (m : Completion)
    (first : c1.user_data ≡ a) (second : c2.user_data ≡ a)
    (submitted : (a == udata_timeout) ≡ false) (named : (a == 0) ≡ false)
    (found : find_handler a e.handlers ≡ some m) where
  handle_cqe_found :
      (c : Cqe) (u : Engine) (n : Completion)
      → c.user_data ≡ a
      → find_handler a u.handlers ≡ some n
      → n.buf_gid ≡ invalid_gid
      → handle_cqe c u ≡ answer_with c none n (record u { pending = u.pending +ℤ negsuc 0 })
  unfolding handle_cqe handle_with
  handle_cqe_found c u n p f g = ground arith

  answered_aborts :
      (u : Engine) (n : Completion)
      → find_handler a u.handlers ≡ some n
      → n.buf_gid ≡ invalid_gid
      → n.answered ≡ true
      → handle_cqe c2 u ≡ aborted
  unfolding answer_with complete_with
  answered_aborts u n f g s =
      handle_cqe_found c2 u n second f g
      ∙ ground (arith, complete-answered n.kind c2 none (noted c2 n) s)

  then_aborts :
      m.buf_gid ≡ invalid_gid
      → Stays m (complete m.kind c1 none (noted c1 m))
      → (handle_cqe c1 e >>= λ u. handle_cqe c2 u) ≡ aborted
  unfolding answer_with complete_with record_completed
  then_aborts g (ended q) = ground (arith, handle_cqe_found c1 e m first found g)
  then_aborts g (stays o n q l s k) =
      rw (handle_cqe_found c1 e m first found g, q)
        (answered_aborts
          (record_completed c1.user_data o (record e { pending = e.pending +ℤ negsuc 0 })) n
          (ground (arith, find-replaced-some a n m e.handlers found)) (k ∙ g) s)

  -- When an entry of a completion without a buffer group announces more entries, the next entry of the
  -- same completion ends the process: the promise already has its value. A multishot request is
  -- answered once.
  pub second_entry_aborts :
      m.buf_gid ≡ invalid_gid
      → flag_set c1.flags cqe_more ≡ true
      → handle_cqes (c1 ∷ c2 ∷ rest) e ≡ aborted
  unfolding handle_cqes more
  second_entry_aborts g more_set = ground (
    arith,
    then_aborts g (
        regrouped-Stays m (noted c1 m) (complete m.kind c1 none (noted c1 m)) refl
          (complete-Stays m.kind c1 none (noted c1 m) more_set)),
  )

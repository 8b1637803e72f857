-- ===== src/Engine/Once.antt =====
-- How often a completion is answered: the promise of a completion takes one value.
use iouring_cc.Common.{
  ℕ, suc, ◌+◌, ◌/◌, ◌^◌, ◌≤◌, ◌==◌, ◌≡◌, ◌≢◌, inl, inr, refl, subst, Bool-cases, ◌∙◌, Option, none,
  some, Bool, true, false, List, [], ◌∷◌, ◌++◌, arith, if◌then◌else◌,
}
use native.Mathlib.Decide.{ℕ_discrete}
use iouring_cc.Common.Int.{ℤ, negsuc, ◌+ℤ◌, eqb_ℤ}
use iouring_cc.Common.Outcome.{done, >>=-eq-done}
use iouring_cc.Completion.Entry.{Cqe, flag_set}
use iouring_cc.Completion.{
  Completion, Completed, Kind, Answer, plain, recv_send_msg, rw_provided_buffer, socket, statx,
  settle, complete, complete_provided, complete_with, invalid_gid,
}
use iouring_cc.Pools.{BufferPool, find_pool, get_buffer}
use iouring_cc.Request.Flags.{cqe_buffer}
use iouring_cc.Engine.{
  handler_at, pool_of, answer_with, handle_provided, Engine, udata_timeout, find_handler, replaced,
  handle_cqe, handle_cqes, handle_with, record_completed,
}

-- How many answers of a list are those of an address.
abbrev pub answers_of : ℕ → List (ℕ × Answer) → ℕ
answers_of a [] = 0
answers_of a ((b, x) ∷ rest) = let n = answers_of a rest in if b == a then suc n else n

answers_of-append :
    (a : ℕ) (xs ys : List (ℕ × Answer))
    → answers_of a (xs ++ ys) ≡ answers_of a xs + answers_of a ys
answers_of-append a [] ys = omega arith
answers_of-append a ((b, x) ∷ xs) ys = ground (arith, answers_of-append a xs ys)

-- The completion at an address, if there is one, has its answer.
abbrev pub spent : Option Completion → Bool
spent none = true
spent (some m) = m.answered

settle-spent :
    (c : Cqe) (x : Answer) (m : Completion) (o : Completed)
    → settle c x m ≡ done o
    → (m.answered ≡ false) × (spent o.left ≡ true)
unfolding settle
settle-spent c x m o h = ground arith

complete-spent :
    (k : Kind) (c : Cqe) (b : Option ℕ) (m : Completion) (o : Completed)
    → complete k c b m ≡ done o
    → (m.answered ≡ false) × (spent o.left ≡ true)
unfolding complete complete_provided settle
complete-spent plain c b m o h = ground arith
complete-spent recv_send_msg c b m o h = ground arith
complete-spent rw_provided_buffer c b m o h = ground arith
complete-spent socket c b m o h = ground arith
complete-spent (statx p q) c b m o h = ground arith

find-replaced :
    (a : ℕ) (o : Option Completion) (hs : List (ℕ × Completion))
    → spent o ≡ true
    → spent (find_handler a (replaced a o hs)) ≡ true
unfolding find_handler
find-replaced a o [] s = refl
find-replaced a none ((b, m) ∷ hs) s = ground (arith, find-replaced a none hs s)
find-replaced a (some n) ((b, m) ∷ hs) s = ground (arith, find-replaced a (some n) hs s)

pub find-replaced_ne :
    (a b : ℕ) (o : Option Completion) (hs : List (ℕ × Completion))
    → a ≢ b
    → find_handler a (replaced b o hs) ≡ find_handler a hs
unfolding find_handler
find-replaced_ne a b o [] n = refl
find-replaced_ne a b none ((k, m) ∷ hs) n = ground (arith, find-replaced_ne a b none hs n)
find-replaced_ne a b (some u) ((k, m) ∷ hs) n = ground (arith, find-replaced_ne a b (some u) hs n)

-- What one entry does for an address: nothing, or its one answer.
pub data Step (a : ℕ) (e e' : Engine) : Type 0 where
  same :
      find_handler a e'.handlers ≡ find_handler a e.handlers
      → answers_of a e'.answers ≡ answers_of a e.answers
      → Step a e e'
  answered :
      spent (find_handler a e.handlers) ≡ false
      → spent (find_handler a e'.handlers) ≡ true
      → answers_of a e'.answers ≡ suc (answers_of a e.answers)
      → Step a e e'

recorded-Step :
    (a k : ℕ) (o : Completed) (m : Completion) (e : Engine)
    → find_handler k e.handlers ≡ some m
    → (m.answered ≡ false) × (spent o.left ≡ true)
    → Step a e (record_completed k o e)
unfolding record_completed
recorded-Step a k o m e f s = elim (ℕ_discrete k a) [
  | yes h ↦
      answered (ground arith) (ground (arith, find-replaced k o.left e.handlers s.1))
        (ground (arith, answers_of-append a e.answers ((k, o.answer) ∷ [])))
  | no n ↦
      same (ground (arith, find-replaced_ne a k o.left e.handlers))
        (ground (arith, answers_of-append a e.answers ((k, o.answer) ∷ [])))
]

module _ (a : ℕ) (c : Cqe) (m : Completion) (e e' : Engine)
    (f : find_handler c.user_data e.handlers ≡ some m) where
  pub answer_with-Step : (b : Option ℕ) → answer_with c b m e ≡ done e' → Step a e e'
  unfolding answer_with complete_with
  answer_with-Step b h =
      let (o, p, q) =
        >>=-eq-done (complete_with c b m) (λ o. done (record_completed c.user_data o e)) h in
      subst (Step a e) (ground arith)
        (recorded-Step a c.user_data o m e f (complete-spent m.kind c b _ o p))

  handle_provided-Step : (p : BufferPool) → handle_provided c m e p ≡ done e' → Step a e e'
  unfolding handle_provided
  handle_provided-Step p h = elim (Bool-cases (flag_set c.flags cqe_buffer)) [
    | inl b ↦
        (let (x, u, k) =
            >>=-eq-done (get_buffer p (c.flags / 2 ^ 16)) (λ x. answer_with c (some x) m e) {b = e'}
              (ground arith) in
          answer_with-Step (some x) k)
    | inr b ↦ same (ground arith) (ground arith)
  ]

  handle_with-Step : handle_with c m e ≡ done e' → Step a e e'
  unfolding handle_with
  handle_with-Step h = elim (Bool-cases (eqb_ℤ m.buf_gid invalid_gid)) [
    | inl g ↦ answer_with-Step none (ground arith)
    | inr g ↦
        (let (p, u, k) =
            >>=-eq-done (pool_of (find_pool m.buf_gid e.pools)) (λ p. handle_provided c m e p)
              {b = e'} (ground arith) in
          handle_provided-Step p k)
  ]

Step-pending : (a : ℕ) (e e' : Engine) (n : ℤ) → Step a (record e { pending = n }) e' → Step a e e'
Step-pending a e e' n (same p q) = same p q
Step-pending a e e' n (answered p q s) = answered p q s

pub handle_cqe-Step : (a : ℕ) (c : Cqe) (e e' : Engine) → handle_cqe c e ≡ done e' → Step a e e'
unfolding handle_cqe
handle_cqe-Step a c e e' h = elim (Bool-cases (c.user_data == udata_timeout)) [
  | inl t ↦ same (ground arith) (ground arith)
  | inr t ↦ elim (Bool-cases (c.user_data == 0)) [
    | inl z ↦ same (ground arith) (ground arith)
    | inr z ↦
        (let e1 = record e { pending = e.pending +ℤ negsuc 0 } in
          let (m, f, k) =
            >>=-eq-done (handler_at (find_handler c.user_data e.handlers)) (λ m. handle_with c m e1)
              {b = e'} (ground arith) in
          Step-pending a e e' (e.pending +ℤ negsuc 0)
            (handle_with-Step a c m e1 e' (ground arith) k))
  ]
]

spent-Step :
    (a : ℕ) (e e' : Engine)
    → Step a e e'
    → spent (find_handler a e.handlers) ≡ true
    → (spent (find_handler a e'.handlers) ≡ true)
      × (answers_of a e'.answers ≡ answers_of a e.answers)
spent-Step a e e' (same p q) s = (ground arith, q)
spent-Step a e e' (answered p q n) s = cc

handle_cqes-spent :
    (a : ℕ) (cqes : List Cqe) (e e' : Engine)
    → spent (find_handler a e.handlers) ≡ true
    → handle_cqes cqes e ≡ done e'
    → answers_of a e'.answers ≡ answers_of a e.answers
unfolding handle_cqes
handle_cqes-spent a [] e e' s h = ground arith
handle_cqes-spent a (c ∷ rest) e e' s h =
    let (u, f, g) = >>=-eq-done (handle_cqe c e) (λ u. handle_cqes rest u) h in
    let (s', q) = spent-Step a e u (handle_cqe-Step a c e u f) s in
    handle_cqes-spent a rest u e' s' g ∙ q

-- However many entries of a batch name one completion, a batch that is handled to its end gives it
-- at most one answer.
pub handle_cqes_once :
    (a : ℕ) (cqes : List Cqe) (e e' : Engine)
    → handle_cqes cqes e ≡ done e'
    → answers_of a e'.answers ≤ answers_of a e.answers + 1
unfolding handle_cqes
handle_cqes_once a [] e e' h = ground arith
handle_cqes_once a (c ∷ rest) e e' h =
    let (u, f, g) = >>=-eq-done (handle_cqe c e) (λ u. handle_cqes rest u) h in
    elim (handle_cqe-Step a c e u f) [
      | same p q ↦ omega (arith, handle_cqes_once a rest u e' g)
      | answered p q n ↦ omega (arith, handle_cqes-spent a rest u e' q g)
    ]

-- ===== src/System/Alive.antt =====
-- Which completions are alive after an entry of the completion ring, and after a batch.
use iouring_cc.Common.{
  ℕ, ◌/◌, ◌^◌, ◌==◌, ◌&&◌, ◌||◌, ◌≡◌, refl, sym, subst, ap, Bool, true, false, not, List, [], ◌∷◌,
  Option, none, some, arith,
}
use native.Mathlib.Decide.{ℕ_discrete}
use iouring_cc.Common.Int.{eqb_ℤ, ltb_ℤ, ◌+ℤ◌, pos, negsuc}
use iouring_cc.Common.Outcome.{aborted}
use iouring_cc.Common.Safely.{Safely, Ends->>=, Ends-if}
use iouring_cc.Request.Flags.{cqe_more, cqe_buffer}
use iouring_cc.Pools.Sound.{Sound, SoundPools, find_pool-Sound, get_buffer-Sound}
use iouring_cc.Pools.{BufferPool, get_buffer, find_pool}
use iouring_cc.Completion.{
  Completion, Completed, Kind, Answer, is_none, with_info_bid, plain, recv_send_msg,
  rw_provided_buffer, socket, statx, more, settle, complete, complete_provided, complete_with,
  invalid_gid, noted,
}
use iouring_cc.Completion.Entry.{Cqe, flag_set}
use iouring_cc.Engine.{
  Engine, udata_timeout, find_handler, replaced, handler_at, pool_of, answer_with, record_completed,
  handle_provided, handle_with, handle_cqe,
}
use iouring_cc.Engine.Once.{find-replaced_ne}
use iouring_cc.System.Contract.{Tokens, unnamed, retire}

abbrev pub is_some : {A : Type 0} → Option A → Bool
is_some none = false
is_some (some a) = true

abbrev pub alive : Engine → ℕ → Bool
alive e a = unnamed a || is_some (find_handler a e.handlers)

-- The object is left where the entry announces more.
abbrev LeftAs : Cqe → Completed → Type 0
LeftAs c o = is_some o.left ≡ flag_set c.flags cqe_more

settle_left :
    (c : Cqe) (x : Answer) (m : Completion)
    → m.cqe_flags ≡ c.flags
    → Safely (LeftAs c) (settle c x m)
unfolding settle more
settle_left c x m e = Ends-if false (LeftAs c) m.answered _ _ (λ a. refl) (λ a. ground (arith, e))

with_info_bid-cqe_flags :
    (c : Cqe) (m : Completion) → m.cqe_flags ≡ c.flags → (with_info_bid c m).cqe_flags ≡ c.flags
with_info_bid-cqe_flags c m e = ground (arith, e)

provided_left :
    (c : Cqe) (b : Option ℕ) (m : Completion)
    → m.cqe_flags ≡ c.flags
    → Safely (LeftAs c) (complete_provided c b m)
unfolding complete_provided
provided_left c b m e =
    Ends-if false (LeftAs c) (flag_set c.flags cqe_buffer && (is_none b && ltb_ℤ (pos 0) c.res))
      aborted _ (λ x. refl)
      (λ x.
        Ends-if false (LeftAs c) (eqb_ℤ c.res (negsuc 104)) aborted _ (λ y. refl)
          (λ y. settle_left c _ (with_info_bid c m) (with_info_bid-cqe_flags c m e)))

complete_left :
    (k : Kind) (c : Cqe) (b : Option ℕ) (m : Completion)
    → m.cqe_flags ≡ c.flags
    → Safely (LeftAs c) (complete k c b m)
unfolding complete
complete_left plain c b m e = settle_left c _ m e
complete_left recv_send_msg c b m e = settle_left c _ m e
complete_left socket c b m e = settle_left c _ m e
complete_left (statx p q) c b m e = settle_left c _ m e
complete_left rw_provided_buffer c b m e = provided_left c b m e

find-replaced-some :
    (a : ℕ) (n : Completion) (hs : List (ℕ × Completion))
    → is_some (find_handler a (replaced a (some n) hs)) ≡ is_some (find_handler a hs)
unfolding find_handler
find-replaced-some a n [] = refl
find-replaced-some a n ((b, m) ∷ hs) = ground (arith, find-replaced-some a n hs)

-- Whatever was alive is alive, but for what the entry was the last one of, and the pools are the
-- same.
pub Keeps : Cqe → Engine → Engine → Type 0
Keeps c e e' =
    ((a : ℕ) → alive e a ≡ true → retire c (alive e) a ≡ true → alive e' a ≡ true)
    × (e'.pools ≡ e.pools)

replaced_keeps :
    (c : Cqe) (e : Engine) (x : Option Completion)
    → is_some x ≡ flag_set c.flags cqe_more
    → (a : ℕ) → alive e a ≡ true
    → retire c (alive e) a ≡ true
    → (unnamed a || is_some (find_handler a (replaced c.user_data x e.handlers))) ≡ true
replaced_keeps c e none l a h k = elim (ℕ_discrete a c.user_data) [
  | no n ↦ ground (arith, find-replaced_ne a c.user_data none e.handlers n)
  | yes q ↦ ground (arith)
]
replaced_keeps c e (some m) l a h k = elim (ℕ_discrete a c.user_data) [
  | no n ↦ ground (arith, find-replaced_ne a c.user_data (some m) e.handlers n)
  | yes q ↦ ground (arith, find-replaced-some a m e.handlers)
]

recorded-Keeps :
    (c : Cqe) (e : Engine) (o : Completed)
    → LeftAs c o
    → Keeps c e (record_completed c.user_data o e)
unfolding record_completed Keeps
recorded-Keeps c e o l = (λ a h k. replaced_keeps c e o.left l a h k, refl)

answer-Keeps :
    (c : Cqe) (b : Option ℕ) (m : Completion) (e : Engine)
    → Safely (Keeps c e) (answer_with c b m e)
unfolding answer_with complete_with
answer-Keeps c b m e =
    Ends->>= false (LeftAs c) (Keeps c e) _ _ (complete_left m.kind c b (noted c m) refl)
      (λ o l. recorded-Keeps c e o l)

same-Keeps : (c : Cqe) (e : Engine) → Keeps c e e
unfolding Keeps
same-Keeps c e = (λ a h k. h, refl)

-- Nothing is known of the value.
abbrev pub Any : {A : Type 0} → A → Type 0
Any a = true ≡ true

pool_of-Sound :
    (o : Option BufferPool) → ((p : BufferPool) → o ≡ some p → Sound p) → Safely Sound (pool_of o)
pool_of-Sound none f = refl
pool_of-Sound (some p) f = f p refl

provided-Keeps :
    (c : Cqe) (m : Completion) (e : Engine) (p : BufferPool)
    → Sound p
    → Safely (Keeps c e) (handle_provided c m e p)
unfolding handle_provided
provided-Keeps c m e p s =
    Ends-if false (Keeps c e) (flag_set c.flags cqe_buffer) _ _
      (λ x.
        Ends->>= false Any (Keeps c e) (get_buffer p (c.flags / 2 ^ 16)) _
          (get_buffer-Sound p (c.flags / 2 ^ 16) s) (λ b t. answer-Keeps c (some b) m e))
      (λ x. same-Keeps c e)

handle_with-Keeps :
    (c : Cqe) (m : Completion) (e : Engine)
    → SoundPools e.pools
    → Safely (Keeps c e) (handle_with c m e)
unfolding handle_with
handle_with-Keeps c m e s =
    Ends-if false (Keeps c e) (eqb_ℤ m.buf_gid invalid_gid) _ _ (λ x. answer-Keeps c none m e)
      (λ x.
        Ends->>= false Sound (Keeps c e) (pool_of (find_pool m.buf_gid e.pools)) _
          (pool_of-Sound (find_pool m.buf_gid e.pools)
            (λ p q. find_pool-Sound m.buf_gid e.pools p s q))
          (λ p t. provided-Keeps c m e p t))

handler_at-Any : (o : Option Completion) → is_some o ≡ true → Safely Any (handler_at o)
handler_at-Any none h = cc
handler_at-Any (some m) h = refl

abbrev counted : Engine → Engine
counted e = record e { pending = e.pending +ℤ negsuc 0 }

-- An entry for what is alive reaches no object that is gone, and where the pools have memory for
-- their buffers, no buffer outside of them.
pub handle_cqe-Keeps :
    (c : Cqe) (e : Engine)
    → alive e c.user_data ≡ true
    → SoundPools e.pools
    → Safely (Keeps c e) (handle_cqe c e)
unfolding handle_cqe Keeps
handle_cqe-Keeps c e l s =
    Ends-if false (Keeps c e) (c.user_data == udata_timeout) _ _ (λ x. same-Keeps c e)
      (λ x.
        Ends-if false (Keeps c e) (c.user_data == 0) _ _ (λ y. same-Keeps c e)
          (λ y.
            Ends->>= false Any (Keeps c e) (handler_at (find_handler c.user_data e.handlers)) _
              (handler_at-Any (find_handler c.user_data e.handlers) (ground arith))
              (λ m t. handle_with-Keeps c m (counted e) s)))

-- Whatever is in the set is alive.
abbrev pub Covers : Tokens → Engine → Type 0
Covers known e = (a : ℕ) → known a ≡ true → alive e a ≡ true

pub retired :
    (known : Tokens) (c : Cqe) (a : ℕ)
    → retire c known a ≡ true
    → (known a ≡ true) × ((not (a == c.user_data) || flag_set c.flags cqe_more) ≡ true)
retired known c a h = (ground arith, ground arith)

pub Keeps-Covers :
    (c : Cqe) (e e' : Engine) (known : Tokens)
    → Keeps c e e'
    → Covers known e
    → Covers (retire c known) e'
unfolding Keeps
Keeps-Covers c e e' known k cov a h =
    let l = cov a (retired known c a h).0 in k.0 a l (ground (arith, retired known c a h))

pub Keeps-SoundPools :
    (c : Cqe) (e e' : Engine) → Keeps c e e' → SoundPools e.pools → SoundPools e'.pools
unfolding Keeps
Keeps-SoundPools c e e' k s = subst SoundPools (sym k.1) s

pub Keeps-apart :
    (c : Cqe) (e e' : Engine) (others : Tokens)
    → Keeps c e e'
    → others c.user_data ≡ false
    → Covers others e
    → Covers others e'
unfolding Keeps
Keeps-apart c e e' others k n cov a h = elim (ℕ_discrete a c.user_data) [
  | no q ↦ k.0 a (cov a h) (ground (arith, cov a h))
  | yes q ↦ absurd (cc (h, n, ap others q))
]

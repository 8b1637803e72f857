-- ===== src/System/Batch.antt =====
-- A batch of entries of the completion ring, and the completions that are alive after it.
use iouring_cc.Common.{ℕ, ◌||◌, ◌≡◌, true, false, Bool-cases, inl, inr, List, [], ◌∷◌, arith}
use iouring_cc.Common.Safely.{Safely, Ends->>=}
use iouring_cc.Completion.Entry.{Cqe}
use iouring_cc.Engine.{Engine, handle_cqe, handle_cqes}
use iouring_cc.Pools.Sound.{SoundPools}
use iouring_cc.System.Contract.{Tokens, unnamed, named, retire, retire_all}
use iouring_cc.System.Alive.{
  retired, alive, Covers, Keeps, Keeps-Covers, Keeps-apart, Keeps-SoundPools, handle_cqe-Keeps,
}

-- The two sets have no address in common, and the second one only addresses of completions.
abbrev pub Apart : Tokens → Tokens → Type 0
Apart known others = (a : ℕ) → others a ≡ true → (unnamed a || known a) ≡ false

named_alive :
    (c : Cqe) (cs : List Cqe) (e : Engine) (known : Tokens)
    → named (c ∷ cs) known ≡ true
    → Covers known e
    → alive e c.user_data ≡ true
named_alive c cs e known n cov = ground (arith, cov c.user_data)

named-Apart :
    (c : Cqe) (cs : List Cqe) (known others : Tokens)
    → named (c ∷ cs) known ≡ true
    → Apart known others
    → others c.user_data ≡ false
named-Apart c cs known others n p = elim (Bool-cases (others c.user_data)) [
  | inl h ↦ ground (arith, p c.user_data h)
  | inr h ↦ h
]

retire-Apart :
    (c : Cqe) (known others : Tokens) → Apart known others → Apart (retire c known) others
retire-Apart c known others p a h = ground (arith, p a h)

-- What is under way after a batch is alive, and so is all that is apart from it; the pools have
-- memory for their buffers.
abbrev pub BothCovered : Tokens → Tokens → Engine → Type 0
BothCovered known others e = Covers known e × Covers others e × SoundPools e.pools

pub handle_cqes_safe :
    (cs : List Cqe) (known others : Tokens) (e : Engine)
    → named cs known ≡ true
    → Apart known others
    → Covers known e
    → Covers others e
    → SoundPools e.pools
    → Safely (BothCovered (retire_all cs known) others) (handle_cqes cs e)
unfolding handle_cqes
handle_cqes_safe [] known others e n p k q s = (k, q, s)
handle_cqes_safe (c ∷ cs) known others e n p k q sound =
    Ends->>= false (Keeps c e) (BothCovered (retire_all (c ∷ cs) known) others) (handle_cqe c e) _
      (handle_cqe-Keeps c e (named_alive c cs e known n k) sound)
      (λ e' s.
        handle_cqes_safe cs (retire c known) others e' (ground arith)
          (retire-Apart c known others p) (Keeps-Covers c e e' known s k)
          (Keeps-apart c e e' others s (named-Apart c cs known others n p) q)
          (Keeps-SoundPools c e e' s sound))

pub retire_all_known :
    (cs : List Cqe) (known : Tokens) (a : ℕ) → retire_all cs known a ≡ true → known a ≡ true
retire_all_known [] known a h = h
retire_all_known (c ∷ cs) known a h =
    (retired known c a (retire_all_known cs (retire c known) a h)).0

pub Apart-fewer :
    (known known' others : Tokens)
    → ((a : ℕ) → known' a ≡ true → known a ≡ true)
    → Apart known others
    → Apart known' others
Apart-fewer known known' others f p a h = elim (Bool-cases (known' a)) [
  | inl t ↦ ground (arith, p a h, f a t)
  | inr n ↦ ground (arith, p a h)
]

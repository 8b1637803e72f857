-- ===== src/Engine/Counts.antt =====
-- The count of the submissions that are pending, over a batch of completion entries.
use iouring_cc.Common.{ℕ, suc, ◌==◌, ◌≡◌, List, [], ◌∷◌, arith, if◌then◌else◌}
use iouring_cc.Common.Int.{pos, negsuc, ◌+ℤ◌}
use iouring_cc.Common.Outcome.{done, >>=-eq-done}
use iouring_cc.Completion.Entry.{Cqe}
use iouring_cc.Engine.{
  Engine, udata_timeout, handle_cqe, handle_cqes, handle_with, handle_provided, answer_with,
  record_completed,
}

-- The entries of a batch that are answers to submissions: all but those of internal timeouts.
abbrev pub answered_count : List Cqe → ℕ
answered_count [] = 0
answered_count (cqe ∷ rest) =
    let n = answered_count rest in if cqe.user_data == udata_timeout then n else suc n

handle_cqe-pending :
    (cqe : Cqe) (e e' : Engine)
    → handle_cqe cqe e ≡ done e'
    → e'.pending ≡ (if cqe.user_data == udata_timeout then e.pending else e.pending +ℤ negsuc 0)
unfolding handle_cqe handle_with handle_provided answer_with record_completed
handle_cqe-pending cqe e e' h = ground arith

-- A batch that is handled to its end has taken one off the count of pending submissions for each of
-- its entries, but for those of internal timeouts.
pub handle_cqes-pending :
    (cqes : List Cqe) (e e' : Engine)
    → handle_cqes cqes e ≡ done e'
    → e'.pending +ℤ pos (answered_count cqes) ≡ e.pending
unfolding handle_cqes ◌+ℤ◌
handle_cqes-pending [] e e' h = ground arith
handle_cqes-pending (cqe ∷ rest) e e' h =
    let (m, f, g) = >>=-eq-done (handle_cqe cqe e) (λ u. handle_cqes rest u) h in
    ground (arith, handle_cqe-pending cqe e m f, handle_cqes-pending rest m e' g)

-- ===== src/Sink/Tests.antt =====
-- The queue on concrete requests. `consume` keeps the requests and refuses the request 0.
use iouring_cc.Common.{
  ℕ, ◌≡◌, ◌⊎◌, refl, some, if◌then◌else◌, Bool, false, not, ◌==◌, List, [], ◌∷◌, ◌++◌, arith,
}
use iouring_cc.Common.Int.{pos}
use iouring_cc.Sink.{Sink, Loop, drain, drain_loop, closed_result}
use iouring_cc.Sink.Order.{Drained, drain-Drained}

abbrev consume : List ℕ → ℕ → Bool × List ℕ
consume taken a = (not (a == 0), if a == 0 then taken else taken ++ (a ∷ []))

abbrev never : ℕ → Bool
never n = false

abbrev queued : Sink ℕ
queued = record { pending = 4 ∷ 0 ∷ 6 ∷ []; stopped = false }

drain_refused :
    drain consume 8 never queued (pos 0) []
    ≡ some (pos 1, 4 ∷ [], record queued { pending = 6 ∷ [] })
unfolding drain drain_loop
drain_refused = refl

drain-Drained_example :
    (o : Loop ℕ (List ℕ)) × Drained consume 8 never queued.pending 0 [] o
    × (4 ∷ [] ≡ o.state)
    × (6 ∷ [] ≡ o.left)
    × ((pos 1 ≡ closed_result) ⊎ (pos 1 ≡ pos o.drained))
drain-Drained_example =
    drain-Drained consume 8 never queued (record queued { pending = 6 ∷ [] }) (pos 0) (pos 1) []
      (4 ∷ []) (omega arith) drain_refused

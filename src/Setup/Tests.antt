-- ===== src/Setup/Tests.antt =====
-- Parameters and a set-up at concrete inputs.
use iouring_cc.Common.{ℕ, ◌+◌, ◌^◌, ◌%◌, ◌≤◌, ◌<◌, ◌≡◌, refl, true, false, List, [], ◌∷◌, arith}
use iouring_cc.Common.Int.{pos}
use iouring_cc.Common.Outcome.{done}
use iouring_cc.Setup.Params.{new_params, round_up_power_of_two}
use iouring_cc.Setup.Construct.{probe_all, probe_from, mark}
use iouring_cc.Setup.Settings.{Setting, sizes, memory, entries, drain, apply_all}
use iouring_cc.Setup.Builder.{Ended, apply_all-Ended}
use iouring_cc.Setup.Power.{round_up_power_of_two_least}

-- Powers of two stay, and what is too large becomes 0.
five_up : round_up_power_of_two 5 ≡ 8
unfolding round_up_power_of_two
five_up = refl

eight_up : round_up_power_of_two 8 ≡ 8
unfolding round_up_power_of_two
eight_up = refl

too_large_up : round_up_power_of_two 2_147_483_649 ≡ 0
unfolding round_up_power_of_two
too_large_up = refl

round_up_power_of_two_least_example :
    (l : ℕ) × (round_up_power_of_two 100 ≡ 2 ^ l % 2 ^ 32) × (100 ≤ 2 ^ l) × (2 ^ l < 100 + 100)
round_up_power_of_two_least_example = round_up_power_of_two_least 100 (omega arith) (omega arith)

-- An operation that is not at its own place in the array marks the place it is at.
probed :
    probe_all 3 0 ((0, true) ∷ (2, true) ∷ (1, false) ∷ []) (false ∷ false ∷ false ∷ [])
    ≡ done (true ∷ true ∷ false ∷ [])
unfolding probe_all probe_from mark
probed = refl

abbrev some_settings : List Setting
some_settings =
    sizes (pos 2) 512 8
    ∷ entries 100
    ∷ memory (pos 2) 64 4 4096
    ∷ sizes (pos 2) 256 8
    ∷ drain 4
    ∷ []

apply_all-Ended_example : Ended some_settings [] (apply_all some_settings new_params)
apply_all-Ended_example = apply_all-Ended some_settings

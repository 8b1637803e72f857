-- ===== src/Utils/Tests.antt =====
-- A system call that is interrupted once, and an object that is moved, assigned to and left.
use iouring_cc.Common.{ℕ, suc, ◌==◌, ◌+◌, ◌≡◌, refl, true, List, [], ◌∷◌, none, some, if◌then◌else◌}
use iouring_cc.Common.Int.{pos, negsuc}
use iouring_cc.Common.Outcome.{done}
use iouring_cc.Utils.Deferred.{
  Scope, Use, use_all, use_action, assign_action, new_action, move_action, destroy_action,
}
use iouring_cc.Utils.Once.{due, defers_of, use_all-due}
use iouring_cc.Utils.Retry.{Answered, syscall_retry, syscall_retry-after}

-- The state counts the calls.
abbrev close_twice : ℕ → Answered ℕ
close_twice n = record { result = if n == 0 then negsuc 0 else pos 0; errno = 4; state = suc n }

syscall_retry-after_example :
    syscall_retry close_twice 6 0 ≡ done (record { result = pos 0; errno = 4; state = 2 })
syscall_retry-after_example = syscall_retry-after close_twice 1 4 0 refl refl

abbrev some_uses : List Use
some_uses = Use.defer 7 ∷ Use.move 0 ∷ Use.defer 8 ∷ Use.assign 2 1 ∷ Use.leave 0 ∷ Use.leave 2 ∷ []

abbrev none_yet : Scope
none_yet = record { actions = []; ran = [] }

-- The assignment has run 8, and the end of the object that was assigned has run 7.
abbrev at_end : Scope
at_end = record {
  actions = none ∷ some (record { func = 7; cancelled = true }) ∷ none ∷ [];
  ran = 8 ∷ 7 ∷ [];
}

uses_end : use_all some_uses none_yet ≡ done at_end
unfolding use_all use_action assign_action new_action move_action destroy_action
uses_end = refl

use_all-due_example : due 7 at_end ≡ due 7 none_yet + defers_of 7 some_uses
use_all-due_example = use_all-due 7 some_uses none_yet at_end refl uses_end

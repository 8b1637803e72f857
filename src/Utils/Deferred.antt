-- ===== src/Utils/Deferred.antt =====
-- iouring/defer.h: `DeferredAction`, a function that the destructor calls. A function is a number;
-- the objects are slots of a list, and what the functions did is the list of those that ran, the
-- first one first. Using an object that is not there is undefined behaviour.
use iouring_cc.Common.{
  ℕ, Bool, true, false, ◌==◌, List, [], ◌∷◌, ◌++◌, Option, none, some, if◌then◌else◌, get_elem?,
  set,
}
use iouring_cc.Common.Outcome.{Outcome, done, undefined, ◌>>=◌}

pub record DeferredAction : Type 0 where
  pub func : ℕ
  pub cancelled : Bool

-- The objects, with `none` for one that is destroyed, and the functions that ran.
pub record Scope : Type 0 where
  pub actions : List (Option DeferredAction)
  pub ran : List ℕ

-- `DeferredAction(Func &&)`.
unfoldable pub new_action : ℕ → DeferredAction
new_action f = record { func = f; cancelled = false }

-- `DeferredAction(DeferredAction &&)`: the new object, and the other one.
unfoldable pub move_action : DeferredAction → DeferredAction × DeferredAction
move_action other =
    (record { func = other.func; cancelled = other.cancelled }, record other { cancelled = true })

-- `~DeferredAction`.
unfoldable pub destroy_action : DeferredAction → List ℕ → List ℕ
destroy_action d ran = if d.cancelled then ran else ran ++ (d.func ∷ [])

-- `Cancel`.
unfoldable pub cancel_action : DeferredAction → DeferredAction
cancel_action d = record d { cancelled = true }

abbrev pub action_at : Option (Option DeferredAction) → Outcome DeferredAction
action_at none = undefined
action_at (some none) = undefined
action_at (some (some d)) = done d

-- The object in a slot.
abbrev pub object : ℕ → Scope → Outcome DeferredAction
object i s = action_at (get_elem? s.actions i)

abbrev pub put : ℕ → Option DeferredAction → Scope → Scope
put i d s = record s { actions = set s.actions i d }

-- `operator=`: the object is destroyed, which runs its function, and made anew from the other one.
unfoldable pub assign_action : ℕ → ℕ → Scope → Outcome Scope
assign_action i j s =
    if i == j
    then done s
    else (object i s >>= λ d. object j s >>= λ other. done (record {
      actions = set (set s.actions i (some (move_action other).0)) j (some (move_action other).1);
      ran = destroy_action d s.ran;
    }))

-- What a program does with such objects: it defers a function, makes an object from another one,
-- assigns an object, cancels one, or leaves its scope.
pub data Use : Type 0 where
  defer move cancel leave : ℕ → Use
  assign : ℕ → ℕ → Use

unfoldable pub use_action : Use → Scope → Outcome Scope
unfolding move_action destroy_action assign_action new_action cancel_action
use_action (defer f) s = done (record s { actions = s.actions ++ (some (new_action f) ∷ []) })
use_action (move j) s = object j s >>= λ d. done (record s {
  actions = set s.actions j (some (move_action d).1) ++ (some (move_action d).0 ∷ []);
})
use_action (cancel i) s = object i s >>= λ d. done (put i (some (cancel_action d)) s)
use_action (leave i) s = object i s >>= λ d.
    done (record { actions = set s.actions i none; ran = destroy_action d s.ran })
use_action (assign i j) s = assign_action i j s

unfoldable pub use_all : List Use → Scope → Outcome Scope
use_all [] s = done s
use_all (u ∷ us) s = use_action u s >>= λ t. use_all us t

-- ===== src/Utils/Once.antt =====
-- How often the functions of `DeferredAction` objects run.
use iouring_cc.Common.{
  ℕ, zero, suc, ◌+◌, ◌==◌, ◌≡◌, ◌≢◌, refl, ◌∙◌, ap, Bool, true, false, List, [], ◌∷◌, ◌++◌, Option,
  none, some, arith, if◌then◌else◌, get_elem?, set, get_elem?-set_ne,
}
use native.Mathlib.Decide.{ℕ_discrete}
use iouring_cc.Common.Outcome.{done, ◌>>=◌, >>=-eq-done}
use iouring_cc.Utils.Deferred.{
  DeferredAction, Scope, new_action, move_action, destroy_action, action_at, object, assign_action,
  Use, use_action, use_all,
}

abbrev pub one_if : Bool → ℕ
one_if true = 1
one_if false = 0

-- How often a function has run.
abbrev pub runs_of : ℕ → List ℕ → ℕ
runs_of f [] = 0
runs_of f (g ∷ ran) = one_if (g == f) + runs_of f ran

-- 1 if the function is still to run when the object is destroyed.
abbrev pub armed_by : ℕ → Option DeferredAction → ℕ
armed_by f none = 0
armed_by f (some d) = if d.cancelled then 0 else one_if (d.func == f)

abbrev pub armed : ℕ → List (Option DeferredAction) → ℕ
armed f [] = 0
armed f (x ∷ xs) = armed_by f x + armed f xs

runs_of-append :
    (f g : ℕ) (ran : List ℕ) → runs_of f (ran ++ (g ∷ [])) ≡ runs_of f ran + one_if (g == f)
runs_of-append f g [] = omega arith
runs_of-append f g (h ∷ ran) = omega (arith, runs_of-append f g ran)

armed-append :
    (f : ℕ) (xs : List (Option DeferredAction)) (x : Option DeferredAction)
    → armed f (xs ++ (x ∷ [])) ≡ armed f xs + armed_by f x
armed-append f [] x = omega arith
armed-append f (y ∷ xs) x = omega (arith, armed-append f xs x)

abbrev armed_at : ℕ → Option (Option DeferredAction) → ℕ
armed_at f none = 0
armed_at f (some x) = armed_by f x

armed-set :
    (f : ℕ) (xs : List (Option DeferredAction)) (i : ℕ) (x y : Option DeferredAction)
    → get_elem? xs i ≡ some y
    → armed f (set xs i x) + armed_by f y ≡ armed f xs + armed_by f x
armed-set f [] i x y h = cc
armed-set f (z ∷ xs) zero x y h = omega (arith, ap (armed_at f) h)
armed-set f (z ∷ xs) (suc i) x y h = omega (arith, armed-set f xs i x y h)

action_at-done :
    (x : Option (Option DeferredAction)) (d : DeferredAction)
    → action_at x ≡ done d
    → x ≡ some (some d)
action_at-done none d h = cc
action_at-done (some none) d h = cc
action_at-done (some (some e)) d h = ground arith

-- How often a function has run, or is still to run.
abbrev pub due : ℕ → Scope → ℕ
due f s = runs_of f s.ran + armed f s.actions

destroy_action-runs_of :
    (f : ℕ) (d : DeferredAction) (ran : List ℕ)
    → runs_of f (destroy_action d ran) ≡ runs_of f ran + armed_by f (some d)
unfolding destroy_action
destroy_action-runs_of f d ran = ground (arith, runs_of-append f d.func ran)

move_action-armed_by :
    (f : ℕ) (d : DeferredAction)
    → (armed_by f (some (move_action d).0) ≡ armed_by f (some d))
      × (armed_by f (some (move_action d).1) ≡ 0)
unfolding move_action
move_action-armed_by f d = (refl, refl)

done_due : (f : ℕ) (s' t : Scope) → done t ≡ done s' → due f s' ≡ due f t
done_due f s' t v = ground (arith, v)

-- What `operator=` leaves.
abbrev assigned : ℕ → ℕ → Scope → DeferredAction → DeferredAction → Scope
assigned i j s d other = record {
  actions = set (set s.actions i (some (move_action other).0)) j (some (move_action other).1);
  ran = destroy_action d s.ran;
}

assigned-due :
    (f i j : ℕ) (s : Scope) (d other : DeferredAction)
    → i ≢ j
    → get_elem? s.actions i ≡ some (some d)
    → get_elem? s.actions j ≡ some (some other)
    → due f (assigned i j s d other) ≡ due f s
assigned-due f i j s d other n p q =
    let new = some (move_action other).0 in
    let still = get_elem?-set_ne s.actions i j new n ∙ q in
    omega (
      arith,
      armed-set f s.actions i new (some d) p,
      armed-set f (set s.actions i new) j (some (move_action other).1) (some other) still,
      (move_action-armed_by f other).0,
      (move_action-armed_by f other).1,
      destroy_action-runs_of f d s.ran,
    )

assign_action-due : (f i j : ℕ) (s s' : Scope) → assign_action i j s ≡ done s' → due f s' ≡ due f s
unfolding assign_action
assign_action-due f i j s s' h = elim (ℕ_discrete i j) [
  | yes q ↦ ground (arith, h)
  | no n ↦
      (let (d, p, q) =
          >>=-eq-done (object i s) (λ d. object j s >>= λ o. done (assigned i j s d o)) {b = s'}
            (ground (arith, h)) in
        let (o, u, v) = >>=-eq-done (object j s) (λ o. done (assigned i j s d o)) {b = s'} q in
        done_due f s' (assigned i j s d o) v
        ∙ assigned-due f i j s d o n (action_at-done _ d p) (action_at-done _ o u))
]

-- How often a function is deferred.
abbrev pub defers_of : ℕ → List Use → ℕ
defers_of f [] = 0
defers_of f (Use.defer g ∷ us) = one_if (g == f) + defers_of f us
defers_of f (Use.move j ∷ us) = defers_of f us
defers_of f (Use.cancel i ∷ us) = defers_of f us
defers_of f (Use.leave i ∷ us) = defers_of f us
defers_of f (Use.assign i j ∷ us) = defers_of f us

-- Nothing is cancelled.
abbrev pub keeps_all : List Use → Bool
keeps_all [] = true
keeps_all (Use.defer g ∷ us) = keeps_all us
keeps_all (Use.move j ∷ us) = keeps_all us
keeps_all (Use.cancel i ∷ us) = false
keeps_all (Use.leave i ∷ us) = keeps_all us
keeps_all (Use.assign i j ∷ us) = keeps_all us

abbrev deferred : ℕ → Scope → Scope
deferred g s = record s { actions = s.actions ++ (some (new_action g) ∷ []) }

abbrev moved : ℕ → Scope → DeferredAction → Scope
moved j s d = record s {
  actions = set s.actions j (some (move_action d).1) ++ (some (move_action d).0 ∷ []);
}

abbrev left : ℕ → Scope → DeferredAction → Scope
left i s d = record { actions = set s.actions i none; ran = destroy_action d s.ran }

deferred-due : (f g : ℕ) (s : Scope) → due f (deferred g s) ≡ due f s + one_if (g == f)
unfolding new_action
deferred-due f g s = omega (arith, armed-append f s.actions (some (new_action g)))

moved-due :
    (f j : ℕ) (s : Scope) (d : DeferredAction)
    → get_elem? s.actions j ≡ some (some d)
    → due f (moved j s d) ≡ due f s
moved-due f j s d p = omega (
  arith,
  armed-append f (set s.actions j (some (move_action d).1)) (some (move_action d).0),
  armed-set f s.actions j (some (move_action d).1) (some d) p,
  (move_action-armed_by f d).0,
  (move_action-armed_by f d).1,
)

left-due :
    (f i : ℕ) (s : Scope) (d : DeferredAction)
    → get_elem? s.actions i ≡ some (some d)
    → due f (left i s d) ≡ due f s
left-due f i s d p =
    omega (arith, armed-set f s.actions i none (some d) p, destroy_action-runs_of f d s.ran)

use_action-due :
    (f : ℕ) (u : Use) (s s' : Scope)
    → keeps_all (u ∷ []) ≡ true
    → use_action u s ≡ done s'
    → due f s' ≡ due f s + defers_of f (u ∷ [])
unfolding use_action
use_action-due f (Use.defer g) s s' k h =
    omega (arith, done_due f s' (deferred g s) h, deferred-due f g s)
use_action-due f (Use.move j) s s' k h =
    let (d, p, q) = >>=-eq-done (object j s) (λ d. done (moved j s d)) {b = s'} h in
    omega (arith, done_due f s' (moved j s d) q, moved-due f j s d (action_at-done _ d p))
use_action-due f (Use.cancel i) s s' k h = cc
use_action-due f (Use.leave i) s s' k h =
    let (d, p, q) = >>=-eq-done (object i s) (λ d. done (left i s d)) {b = s'} h in
    omega (arith, done_due f s' (left i s d) q, left-due f i s d (action_at-done _ d p))
use_action-due f (Use.assign i j) s s' k h = omega (arith, assign_action-due f i j s s' h)

keeps_all-cons :
    (u : Use) (us : List Use)
    → keeps_all (u ∷ us) ≡ true
    → (keeps_all (u ∷ []) ≡ true) × (keeps_all us ≡ true)
keeps_all-cons (Use.defer g) us k = (refl, k)
keeps_all-cons (Use.move j) us k = (refl, k)
keeps_all-cons (Use.cancel i) us k = cc
keeps_all-cons (Use.leave i) us k = (refl, k)
keeps_all-cons (Use.assign i j) us k = (refl, k)

defers_of-cons :
    (f : ℕ) (u : Use) (us : List Use) → defers_of f (u ∷ us) ≡ defers_of f (u ∷ []) + defers_of f us
defers_of-cons f (Use.defer g) us = omega arith
defers_of-cons f (Use.move j) us = omega arith
defers_of-cons f (Use.cancel i) us = omega arith
defers_of-cons f (Use.leave i) us = omega arith
defers_of-cons f (Use.assign i j) us = omega arith

-- Where nothing is cancelled, whatever a program does with objects that are there: a function has
-- run, or is still to run when the object that holds it is destroyed, as often as it was deferred.
-- So each deferral is for one run, however often the object is moved and assigned.
pub use_all-due :
    (f : ℕ) (us : List Use) (s s' : Scope)
    → keeps_all us ≡ true
    → use_all us s ≡ done s'
    → due f s' ≡ due f s + defers_of f us
unfolding use_all
use_all-due f [] s s' k h = ground (arith, h)
use_all-due f (u ∷ us) s s' k h =
    let (t, p, q) = >>=-eq-done (use_action u s) (λ t. use_all us t) {b = s'} h in
    let (k1, k2) = keeps_all-cons u us k in
    omega (arith, use_all-due f us t s' k2 q, use_action-due f u s t k1 p, defers_of-cons f u us)

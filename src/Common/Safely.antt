-- ===== src/Common/Safely.antt =====
-- What holds of the value if a call returns. `Safely` also says that it has no undefined behaviour.
use mathlib.Core.Path.{◌≡◌, refl}
use mathlib.Core.Logic.{◌≢◌}
use mathlib.Core.Bool.{Bool, true, false}
use iouring_cc.Common.Tests.{if◌then◌else◌}
use iouring_cc.Common.Outcome.{Outcome, done, aborted, undefined, running, ◌>>=◌}

-- The flag says whether undefined behaviour counts as an end.
abbrev pub Ends {ℓ} : {A : Type ℓ} → Bool → (A → Type 0) → Outcome A → Type 0
Ends ub P (done a) = P a
Ends ub P aborted = true ≡ true
Ends ub P undefined = ub ≡ true
Ends ub P running = true ≡ true

abbrev pub Safely {ℓ} : {A : Type ℓ} → (A → Type 0) → Outcome A → Type 0
Safely P m = Ends false P m

pub Ends->>= {ℓ κ} :
    {A : Type ℓ} {B : Type κ} (ub : Bool) (P : A → Type 0) (Q : B → Type 0) (m : Outcome A)
    (f : A → Outcome B)
    → Ends ub P m
    → ((a : A) → P a → Ends ub Q (f a))
    → Ends ub Q (m >>= f)
Ends->>= ub P Q (done a) f p g = g a p
Ends->>= ub P Q aborted f p g = refl
Ends->>= ub P Q undefined f p g = p
Ends->>= ub P Q running f p g = refl

pub Ends-weaken {ℓ} :
    {A : Type ℓ} (ub : Bool) (P Q : A → Type 0) (m : Outcome A)
    → Ends ub P m
    → ((a : A) → P a → Q a)
    → Ends ub Q m
Ends-weaken ub P Q (done a) p g = g a p
Ends-weaken ub P Q aborted p g = refl
Ends-weaken ub P Q undefined p g = p
Ends-weaken ub P Q running p g = refl

pub Ends-if {ℓ} :
    {A : Type ℓ} (ub : Bool) (P : A → Type 0) (b : Bool) (x y : Outcome A)
    → (b ≡ true → Ends ub P x)
    → (b ≡ false → Ends ub P y)
    → Ends ub P (if b then x else y)
Ends-if ub P true x y f g = f refl
Ends-if ub P false x y f g = g refl

pub not_undefined {ℓ} : {A : Type ℓ} (P : A → Type 0) (m : Outcome A) → Safely P m → m ≢ undefined
not_undefined P (done a) p e = cc
not_undefined P aborted p e = cc
not_undefined P undefined p e = cc
not_undefined P running p e = cc

-- Of a call that may have undefined behaviour: what holds of every value that it can return.
pub Ends-done {ℓ} :
    {A : Type ℓ} (P : A → Type 0) (m : Outcome A) → ((a : A) → m ≡ done a → P a) → Ends true P m
Ends-done P (done a) f = f a refl
Ends-done P aborted f = refl
Ends-done P undefined f = refl
Ends-done P running f = refl

-- What is known of the value, and what follows from it for the value that is returned.
pub Safely-cases {ℓ} :
    {A : Type ℓ} (P Q : A → Type 0) (m : Outcome A)
    → Safely P m
    → ((a : A) → m ≡ done a → P a → Q a)
    → Safely Q m
Safely-cases P Q (done a) p f = f a refl p
Safely-cases P Q aborted p f = refl
Safely-cases P Q undefined p f = p
Safely-cases P Q running p f = refl

pub Safely-Ends {ℓ} :
    {A : Type ℓ} (ub : Bool) (P : A → Type 0) (m : Outcome A) → Safely P m → Ends ub P m
Safely-Ends ub P (done a) p = p
Safely-Ends ub P aborted p = refl
Safely-Ends ub P undefined p = cc
Safely-Ends ub P running p = refl

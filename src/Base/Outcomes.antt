-- ===== src/Base/Outcomes.antt =====
-- What holds of the result of a computation that can fail.
use c_network_tools.Base.Tests.{◌>>=◌, if◌then◌else◌}
use mathlib.Core.Path.{◌≡◌, refl, subst}
use mathlib.Core.Bool.{Bool, true, false}
use mathlib.Core.Option.{Option, none, some}

-- The property holds of the result, if there is one.
abbrev pub Holds {ℓ} : {A : Type ℓ} → (A → Type 0) → Option A → Type 0
Holds P none = Unit
Holds P (some r) = P r

pub Holds-some {ℓ} :
    {A : Type ℓ} (P : A → Type 0) (o : Option A) (r : A) → o ≡ some r → Holds P o → P r
Holds-some P o r e h = subst (Holds P) e h

pub Holds-bind {ℓ κ} :
    {A : Type ℓ} {B : Type κ} (P : B → Type 0) (o : Option A) (f : A → Option B)
    → ((a : A) → o ≡ some a → Holds P (f a))
    → Holds P (o >>= f)
Holds-bind P none f h = tt
Holds-bind P (some a) f h = h a refl

-- With what holds of the first result.
pub Holds-then {ℓ κ} :
    {A : Type ℓ} {B : Type κ} (P : A → Type 0) (Q : B → Type 0) (o : Option A) (f : A → Option B)
    → Holds P o
    → ((a : A) → P a → Holds Q (f a))
    → Holds Q (o >>= f)
Holds-then P Q none f k h = tt
Holds-then P Q (some a) f k h = h a k

pub Holds-if {ℓ} :
    {A : Type ℓ} (P : A → Type 0) (b : Bool) (x y : Option A)
    → (b ≡ true → Holds P x)
    → (b ≡ false → Holds P y)
    → Holds P (if b then x else y)
Holds-if P true x y h k = h refl
Holds-if P false x y h k = k refl

pub Holds-map {ℓ} :
    {A : Type ℓ} (P Q : A → Type 0) (o : Option A) → ((r : A) → P r → Q r) → Holds P o → Holds Q o
Holds-map P Q none f h = tt
Holds-map P Q (some r) f h = f r h

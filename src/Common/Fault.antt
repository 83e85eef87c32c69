-- ===== src/Common/Fault.antt =====
-- Code that may fault: `none` is an access outside the memory that the code owns, a failed ASSERT
-- or a PANIC.
use mathlib.Core.Path.{◌≡◌, refl}
use mathlib.Core.Bool.{Bool, true, false}
use gogoos.Common.Tests.{if◌then◌else◌}
use mathlib.Core.Logic.{◌⊎◌, inl, inr}
use mathlib.Core.Option.{Option, none, some}

infixl 5 ◌>>=◌ ◌>>◌
abbrev pub ◌>>=◌ {ℓ κ} : {A : Type ℓ} {B : Type κ} → Option A → (A → Option B) → Option B
none >>= f = none
some a >>= f = f a

abbrev pub ◌>>◌ {ℓ} : {B : Type ℓ} → Option (Unit {0}) → Option B → Option B
m >> k = m >>= λ _. k

-- `ASSERT(b)`
abbrev pub assert : Bool → Option (Unit {0})
assert true = some tt
assert false = none

pub >>=-eq-some {ℓ κ} :
    {A : Type ℓ} {B : Type κ} (m : Option A) (f : A → Option B) {b : B}
    → (m >>= f) ≡ some b
    → (a : A) × (m ≡ some a) × (f a ≡ some b)
>>=-eq-some (some a) f h = (a, refl, h)
>>=-eq-some none f h = cc

pub assert-eq-some {ℓ} :
    {A : Type ℓ} (b : Bool) (m : Option A) {a : A}
    → (assert b >> m) ≡ some a
    → (b ≡ true) × (m ≡ some a)
assert-eq-some true m h = (refl, h)
assert-eq-some false m h = cc

pub if-cases {ℓ} :
    {A : Type ℓ} (b : Bool) (m n : A) {a : A}
    → (if b then m else n) ≡ a
    → ((b ≡ true) × (m ≡ a)) ⊎ ((b ≡ false) × (n ≡ a))
if-cases true m n h = inl (refl, h)
if-cases false m n h = inr (refl, h)

-- ===== src/Prelude/Optional.antt =====
-- Do blocks of values that may be missing.
use mathlib.Core.Path.{◌≡◌, refl}
use mathlib.Core.Bool.{Bool, true, false}
use mathlib.Core.Option.{Option, none, some}

infixl 5 ◌>>=◌
abbrev pub ◌>>=◌ {a b} : {A : Type a} → Option A → {B : Type b} → (A → Option B) → Option B
none >>= next = none
some value >>= next = next value

infixl 5 ◌>>◌
abbrev pub ◌>>◌ {ℓ} : Option (Unit {0}) → {A : Type ℓ} → Option A → Option A
checked >> next = checked >>= (λ done. next)

abbrev pub require : Bool → Option (Unit {0})
require true = some tt
require false = none

-- What is there had all its parts.
pub >>=-some {a b} :
    {A : Type a} {B : Type b} (first : Option A) (next : A → Option B) {result : B}
    → (first >>= next) ≡ some result
    → (value : A) × (first ≡ some value) × (next value ≡ some result)
>>=-some none next e = cc
>>=-some (some value) next e = (value, refl, e)

pub require-true {ℓ} :
    {A : Type ℓ} (test : Bool) (next : Option A) {result : A}
    → (require test >> next) ≡ some result
    → (test ≡ true) × (next ≡ some result)
require-true true next e = (refl, e)
require-true false next e = cc

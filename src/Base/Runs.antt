-- ===== src/Base/Runs.antt =====
-- What running a piece of C code comes to.
use mathlib.Core.Path.{◌≡◌, refl}
use mathlib.Core.Bool.{Bool, true, false}
use mathlib.Core.Option.{Option, none, some}

-- `fault` is undefined behaviour: an access out of range, after a free or through NULL.
-- `exit` is a call of exit with a failure. `no_fuel` is a loop that has not ended within the fuel given.
pub data Exec {ℓ} (A : Type ℓ) : Type ℓ where
  done : A → Exec A
  exit fault no_fuel : Exec A

infixl 5 ◌>>=◌ ◌>>◌
abbrev pub ◌>>=◌ {ℓ κ} : {A : Type ℓ} {B : Type κ} → Exec A → (A → Exec B) → Exec B
done a >>= k = k a
exit >>= k = exit
fault >>= k = fault
no_fuel >>= k = no_fuel

abbrev pub ◌>>◌ {ℓ} : {B : Type ℓ} → Exec (Unit {0}) → Exec B → Exec B
m >> k = m >>= λ _. k

-- A read that must be in range.
abbrev pub must {ℓ} : {A : Type ℓ} → Option A → Exec A
must none = fault
must (some a) = done a

-- Undefined unless the test holds.
abbrev pub require : Bool → Exec (Unit {0})
require true = done tt
require false = fault

pub >>=-eq-done {ℓ κ} :
    {A : Type ℓ} {B : Type κ} (m : Exec A) (k : A → Exec B) {b : B}
    → (m >>= k) ≡ done b
    → (a : A) × (m ≡ done a) × (k a ≡ done b)
>>=-eq-done (done a) k h = (a, refl, h)
>>=-eq-done exit k h = cc
>>=-eq-done fault k h = cc
>>=-eq-done no_fuel k h = cc

pub must-eq-done {ℓ} : {A : Type ℓ} (o : Option A) {a : A} → must o ≡ done a → o ≡ some a
must-eq-done none h = cc
must-eq-done (some a) h = cc

pub done_injective {ℓ} : {A : Type ℓ} {a b : A} → done a ≡ done b → a ≡ b
done_injective h = cc

pub >>=-assoc {ℓ κ μ} :
    {A : Type ℓ} {B : Type κ} {C : Type μ} (m : Exec A) (f : A → Exec B) (g : B → Exec C)
    → (m >>= f >>= g) ≡ (m >>= λ a. f a >>= g)
>>=-assoc (done a) f g = refl
>>=-assoc exit f g = refl
>>=-assoc fault f g = refl
>>=-assoc no_fuel f g = refl

pub >>=_congr {ℓ κ} :
    {A : Type ℓ} {B : Type κ} (m : Exec A) {f g : A → Exec B}
    → ((a : A) → f a ≡ g a)
    → (m >>= f) ≡ (m >>= g)
>>=_congr (done a) h = h a
>>=_congr exit h = refl
>>=_congr fault h = refl
>>=_congr no_fuel h = refl

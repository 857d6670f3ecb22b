-- ===== src/Prelude/Options.antt =====
-- Fallible code as chains of options, and maps as functions on numbers.
use Prim.Native.Nat.{ℕ, ◌<◌}
use native.Mathlib.Omega.{arith}
use mathlib.Core.Path.{◌≡◌, refl}
use mathlib.Core.Bool.{Bool, true, false}
use mathlib.Core.Option.{Option, none, some}
use helesta.Prelude.Tests.{◌==◌, if◌then◌else◌}
use mathlib.Core.Logic.{◌≢◌}

infixl 1 ◌>>=◌ ◌>>◌
abbrev pub ◌>>=◌ {ℓ κ} : {A : Type ℓ} {B : Type κ} → Option A → (A → Option B) → Option B
none >>= f = none
some a >>= f = f a

abbrev pub ◌>>◌ {ℓ} : {B : Type ℓ} → Option (Unit {0}) → Option B → Option B
o >> p = o >>= λ _. p

-- A failed assertion ends the program.
abbrev pub require : Bool → Option (Unit {0})
require true = some tt
require false = none

abbrev pub update {ℓ} : {A : Type ℓ} → (ℕ → A) → ℕ → A → ℕ → A
update f k v j = if j == k then v else f j

-- Inversion of a chain that came to an end.
pub >>=-eq-some {ℓ κ} :
    {A : Type ℓ} {B : Type κ} (o : Option A) (f : A → Option B) {b : B}
    → (o >>= f) ≡ some b
    → (a : A) × (o ≡ some a) × (f a ≡ some b)
>>=-eq-some none f h = cc
>>=-eq-some (some a) f h = (a, refl, h)

module _ {ℓ} {A : Type ℓ} (f : ℕ → A) where
  pub update_self : (k : ℕ) (v : A) → update f k v k ≡ v
  update_self k v = ground arith

  pub update_lt : (k : ℕ) (v : A) (x : ℕ) → x < k → update f k v x ≡ f x
  update_lt k v x h = ground arith

  pub update_ne : (k : ℕ) (v : A) (x : ℕ) → x ≢ k → update f k v x ≡ f x
  update_ne k v x h = ground arith

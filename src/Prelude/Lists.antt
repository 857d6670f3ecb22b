-- ===== src/Prelude/Lists.antt =====
-- Lists measured and indexed by native numbers, under the library's names.
use Prim.Native.Nat.{ℕ, zero, suc, ◌+◌, ◌<◌}
use mathlib.Core.Path.{◌≡◌, refl, ap, subst}
use mathlib.Core.Logic.{◌↔◌}
use mathlib.Core.Bool.{Bool, false, ◌||◌}
use mathlib.Core.List.{List, [], ◌∷◌, ◌++◌}
use mathlib.Core.Option.{Option, none, some}
use helesta.Prelude.Tests.{◌==◌, if◌then◌else◌}
use native.Mathlib.Omega.{arith}

module _ {ℓ} {A : Type ℓ} where
  abbrev pub length : List A → ℕ
  length [] = 0
  length (x ∷ xs) = suc (length xs)

  abbrev pub get_elem? : List A → ℕ → Option A
  get_elem? [] i = none
  get_elem? (x ∷ xs) zero = some x
  get_elem? (x ∷ xs) (suc i) = get_elem? xs i

  pub length-append : (xs ys : List A) → length (xs ++ ys) ≡ length xs + length ys
  length-append [] ys = omega arith
  length-append (x ∷ xs) ys = omega (arith, length-append xs ys)

  abbrev pub reverse : List A → List A
  reverse [] = []
  reverse (x ∷ xs) = reverse xs ++ (x ∷ [])

  pub length-reverse : (xs : List A) → length (reverse xs) ≡ length xs
  length-reverse [] = refl
  length-reverse (x ∷ xs) = omega (arith, length-append (reverse xs) (x ∷ []), length-reverse xs)

abbrev pub has : List ℕ → ℕ → Bool
has [] n = false
has (x ∷ xs) n = (n == x) || has xs n

abbrev pub set_at : {A : Type 0} → List A → ℕ → A → List A
set_at [] i x = []
set_at (y ∷ ys) zero x = x ∷ ys
set_at (y ∷ ys) (suc i) x = y ∷ set_at ys i x

abbrev pub All : {A : Type 0} → (A → Type 0) → List A → Type 0
All P [] = Unit {0}
All P (x ∷ xs) = P x × All P xs

pub All-map :
    {A : Type 0} (P Q : A → Type 0) (xs : List A) → ((x : A) → P x → Q x) → All P xs → All Q xs
All-map P Q [] f h = tt
All-map P Q (x ∷ xs) f (p, h) = (f x p, All-map P Q xs f h)

pub All-append :
    {A : Type 0} (P : A → Type 0) (xs ys : List A) → All P (xs ++ ys) ↔ (All P xs × All P ys)
All-append P [] ys = ((λ h. (tt, h)), (λ (_, h). h))
All-append P (x ∷ xs) ys =
    let i = All-append P xs ys in
    ((λ (p, h). let (a, b) = i.0 h in ((p, a), b)), (λ ((p, a), b). (p, i.1 (a, b))))

pub All-at :
    {A : Type 0} (P : A → Type 0) (xs : List A) (i : ℕ) (x : A)
    → All P xs
    → get_elem? xs i ≡ some x
    → P x
All-at P [] i x h e = cc
All-at P (y ∷ xs) zero x (p, h) e = let q : y ≡ x = ground arith in subst P q p
All-at P (y ∷ xs) (suc i) x (p, h) e = All-at P xs i x h e

pub length-set_at : {A : Type 0} (ts : List A) (i : ℕ) (x : A) → length (set_at ts i x) ≡ length ts
length-set_at [] i x = refl
length-set_at (t ∷ ts) zero x = refl
length-set_at (t ∷ ts) (suc i) x = ap suc (length-set_at ts i x)

pub get_elem?-set_at :
    {A : Type 0} (ts : List A) (i j : ℕ) (x : A)
    → i < length ts
    → get_elem? (set_at ts i x) j ≡ (if j == i then some x else get_elem? ts j)
get_elem?-set_at [] i j x h = absurd (omega arith)
get_elem?-set_at (t ∷ ts) zero zero x h = refl
get_elem?-set_at (t ∷ ts) zero (suc j) x h = ground arith
get_elem?-set_at (t ∷ ts) (suc i) zero x h = ground arith
get_elem?-set_at (t ∷ ts) (suc i) (suc j) x h = ground (arith, get_elem?-set_at ts i j x)

pub in_range : {A : Type 0} (ts : List A) (i : ℕ) (t : A) → get_elem? ts i ≡ some t → i < length ts
in_range [] i t h = cc
in_range (u ∷ ts) zero t h = omega arith
in_range (u ∷ ts) (suc i) t h = omega (arith, in_range ts i t h)

pub found : {A : Type 0} (ts : List A) (i : ℕ) → i < length ts → (t : A) × (get_elem? ts i ≡ some t)
found [] i h = absurd (omega arith)
found (t ∷ ts) zero h = (t, refl)
found (t ∷ ts) (suc i) h = found ts i (omega arith)

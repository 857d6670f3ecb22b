-- ===== src/Opt/RegMap.antt =====
-- `std::map<Reg, int32_t>` as the passes use it: the entries in the order of their keys.
use helesta.Prelude.{
  ℕ, suc, ◌+◌, ◌*◌, ◌≤◌, ◌≡◌, ◌≢◌, List, [], ◌∷◌, ltb, ◌==◌, if◌then◌else◌, arith,
}

abbrev pub RegMap : Type 0
RegMap = List (ℕ × ℕ)

-- `m[x]`, which reads 0 where `x` has no entry.
unfoldable pub at : ℕ → RegMap → ℕ
at x [] = 0
at x ((y, w) ∷ m) = if ltb x y then 0 else if x == y then w else at x m

unfoldable pub assign : ℕ → ℕ → RegMap → RegMap
assign x v [] = (x, v) ∷ []
assign x v ((y, w) ∷ m) =
    if ltb x y then (x, v) ∷ (y, w) ∷ m else if x == y then (x, v) ∷ m else (y, w) ∷ assign x v m

unfoldable pub erase : ℕ → RegMap → RegMap
erase x [] = []
erase x ((y, w) ∷ m) = if ltb x y then (y, w) ∷ m else if x == y then m else (y, w) ∷ erase x m

-- The linear form that a map of coefficients stands for.
unfoldable pub total : (ℕ → ℕ) → RegMap → ℕ
total env [] = 0
total env ((x, a) ∷ m) = a * env x + total env m

-- Keys rise strictly, from `lo` on, and no coefficient is 0.
abbrev pub IsSortedFrom : ℕ → RegMap → Type 0
IsSortedFrom lo [] = Unit {0}
IsSortedFrom lo ((x, a) ∷ m) = (lo ≤ x) × (a ≢ 0) × IsSortedFrom (suc x) m

pub total-assign :
    (env : ℕ → ℕ) (x v : ℕ) (m : RegMap)
    → total env (assign x v m) + at x m * env x ≡ total env m + v * env x
unfolding total assign at
total-assign env x v [] = omega arith
total-assign env x v ((y, w) ∷ m) = ground (arith, total-assign env x v m)

pub total-erase :
    (env : ℕ → ℕ) (x : ℕ) (m : RegMap) → total env (erase x m) + at x m * env x ≡ total env m
unfolding total erase at
total-erase env x [] = omega arith
total-erase env x ((y, w) ∷ m) = ground (arith, total-erase env x m)

pub assign-IsSortedFrom :
    (lo x v : ℕ) (m : RegMap) → lo ≤ x → v ≢ 0 → IsSortedFrom lo m → IsSortedFrom lo (assign x v m)
unfolding assign
assign-IsSortedFrom lo x v [] h nz s = (h, nz, tt)
assign-IsSortedFrom lo x v ((y, w) ∷ m) h nz s = ground (arith, assign-IsSortedFrom (suc y) x v m)

IsSortedFrom-weaken : (lo hi : ℕ) (m : RegMap) → lo ≤ hi → IsSortedFrom hi m → IsSortedFrom lo m
IsSortedFrom-weaken lo hi [] h s = tt
IsSortedFrom-weaken lo hi ((y, w) ∷ m) h s = (omega arith, s.1, s.2)

pub at-assign_self : (x v : ℕ) (m : RegMap) → at x (assign x v m) ≡ v
unfolding at assign
at-assign_self x v [] = ground arith
at-assign_self x v ((y, w) ∷ m) = ground (arith, at-assign_self x v m)

pub erase-assign : (x v : ℕ) (m : RegMap) → erase x (assign x v m) ≡ erase x m
unfolding erase assign
erase-assign x v [] = ground arith
erase-assign x v ((y, w) ∷ m) = ground (arith, erase-assign x v m)

pub erase-IsSortedFrom : (lo x : ℕ) (m : RegMap) → IsSortedFrom lo m → IsSortedFrom lo (erase x m)
unfolding erase
erase-IsSortedFrom lo x [] s = tt
erase-IsSortedFrom lo x ((y, w) ∷ m) s =
    ground (arith, erase-IsSortedFrom (suc y) x m, IsSortedFrom-weaken lo (suc y) m)

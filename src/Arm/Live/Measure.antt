-- ===== src/Arm/Live/Measure.antt =====
-- How far the loop of `calc_live` of src/arm/program.cpp is from its end.
use helesta.Prelude.{
  ℕ, zero, suc, ◌+◌, ◌*◌, ◌≤◌, ◌<◌, ◌≡◌, true, false, List, [], ◌∷◌, ◌==◌, if◌then◌else◌, length,
  Bool-cases, inl, inr, arith,
}
use helesta.Arm.Inst.{Reg, same_reg}
use helesta.Arm.Inst.Reads.{has_reg}
use helesta.Arm.Live.Transfer.{has_reg-same}

-- The registers of a list that a set lacks.
abbrev pub missing : List Reg → List Reg → ℕ
missing xs [] = 0
missing xs (q ∷ qs) = (if has_reg xs q then 0 else 1) + missing xs qs

pub missing_le : (r : Reg) (xs qs : List Reg) → missing (r ∷ xs) qs ≤ missing xs qs
missing_le r xs [] = omega arith
missing_le r xs (q ∷ qs) = ground (arith, missing_le r xs qs)

pub missing_lt :
    (r : Reg) (xs qs : List Reg)
    → has_reg qs r ≡ true
    → has_reg xs r ≡ false
    → missing (r ∷ xs) qs < missing xs qs
missing_lt r xs [] h k = cc
missing_lt r xs (q ∷ qs) h k = elim (Bool-cases (same_reg q r)) [
  | inl e ↦
      let same = has_reg-same xs q r e in
      let one = has_reg-same (r ∷ xs) q r e in let le = missing_le r xs qs in ground arith
  | inr e ↦ let le = missing_lt r xs qs (ground arith) k in ground arith
]

pub missing_all : (xs qs : List Reg) → missing xs qs ≤ length qs
missing_all xs [] = omega arith
missing_all xs (q ∷ qs) = ground (arith, missing_all xs qs)

abbrev pub sum : ℕ → (ℕ → ℕ) → ℕ
sum zero f = 0
sum (suc n) f = f n + sum n f

pub sum_bound : (n c : ℕ) (f : ℕ → ℕ) → ((i : ℕ) → f i ≤ c) → sum n f ≤ n * c
sum_bound zero c f h = omega arith
sum_bound (suc n) c f h =
    let a = sum_bound n c f h in
    let b = h n in let e : suc n * c ≡ c + n * c = omega arith in omega arith

pub sum_le : (n : ℕ) (f g : ℕ → ℕ) → ((i : ℕ) → f i ≤ g i) → sum n f ≤ sum n g
sum_le zero f g h = omega arith
sum_le (suc n) f g h = omega (arith, h n, sum_le n f g h)

pub sum_lt : (n p : ℕ) (f g : ℕ → ℕ) → ((i : ℕ) → f i ≤ g i) → p < n → f p < g p → sum n f < sum n g
sum_lt zero p f g h l lt = absurd (omega arith)
sum_lt (suc n) p f g h l lt = elim (Bool-cases (p == n)) [
  | inl e ↦ let le = sum_le n f g h in ground arith
  | inr e ↦ let rest = sum_lt n p f g h (ground arith) lt in omega (arith, h n)
]

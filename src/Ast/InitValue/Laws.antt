-- ===== src/Ast/InitValue/Laws.antt =====
-- Constant evaluation (src/ast/init_value.cpp) against exact integer arithmetic.
use helesta.Prelude.{
  ℕ, zero, suc, ◌-◌, ◌^◌, ◌≡◌, ◌≢◌, refl, false, ◌⊎◌, inl, inr, Option, none, some, arith,
  Bool-cases, ◌||◌, ◌==◌, ==_iff,
}
use helesta.Prelude.Int.{ℤ, pos, negsuc, ◌+ℤ◌, ◌-ℤ◌, ◌*ℤ◌, ltb_ℤ, tdiv, tmod}
use helesta.Prelude.Word.{IsWord, Int32Range, signed, of_int}
use helesta.Prelude.Word.Signed.{signed-of_int}
use helesta.Ir.Scalar.{FloatUnit}
use helesta.Ast.InitValue.{
  out_of_bound, division_by_zero, Result, ok, fail, CompileTimeValueAny, int, Bop, check_and_return,
  eval_bop,
}
use helesta.Ast.InitValue.Bop.{add, sub, mul, div, modulo}

-- The mathematical result of an arithmetic operator, where it has one.
abbrev pub exact : Bop → ℤ → ℤ → Option ℤ
exact add x y = some (x +ℤ y)
exact sub x y = some (x -ℤ y)
exact mul x y = some (x *ℤ y)
exact div x (pos zero) = none
exact div x y = some (tdiv x y)
exact modulo x (pos zero) = none
exact modulo x y = some (tmod x y)
exact _ x y = none

-- The exact result, in range, is the value; out of range, or missing, it is the error.
abbrev pub Meets : Option ℤ → Result CompileTimeValueAny → Type 0
Meets none r = r ≡ fail division_by_zero
Meets (some z) r =
    (Int32Range z × (r ≡ ok (int (of_int z))) × (signed (of_int z) ≡ z))
    ⊎ (¬ Int32Range z × (r ≡ fail out_of_bound))

check-Meets : (z : ℤ) → Meets (some z) (check_and_return z)
unfolding check_and_return
check-Meets z = elim (Bool-cases (ltb_ℤ z (negsuc (2 ^ 31 - 1)) || ltb_ℤ (pos (2 ^ 31 - 1)) z)) [
  | inl out ↦ inr (λ h. ground arith, rw out)
  | inr fits ↦
      let range : Int32Range z = (ground arith, ground arith) in
      inl (range, rw fits, signed-of_int z range)
]

exact-div : (x y : ℤ) → y ≢ pos 0 → exact div x y ≡ some (tdiv x y)
exact-div x (pos zero) h = absurd (h refl)
exact-div x (pos (suc n)) h = refl
exact-div x (negsuc n) h = refl

exact-modulo : (x y : ℤ) → y ≢ pos 0 → exact modulo x y ≡ some (tmod x y)
exact-modulo x (pos zero) h = absurd (h refl)
exact-modulo x (pos (suc n)) h = refl
exact-modulo x (negsuc n) h = refl

signed_ne : (b : ℕ) → IsWord b → (b == 0) ≡ false → signed b ≢ pos 0
signed_ne b w h e = ground arith

abbrev pub IsArith : Bop → Type 0
IsArith add = Unit {0}
IsArith sub = Unit {0}
IsArith mul = Unit {0}
IsArith div = Unit {0}
IsArith modulo = Unit {0}
IsArith _ = ⊥

module _ (m : FloatUnit) where
  -- On two integer constants the arithmetic operators give the exact result where it fits 32 bits,
  -- the error out_of_bound where it does not, and division_by_zero where the divisor is 0.
  pub eval_bop-Meets :
      (op : Bop) (a b : ℕ)
      → IsArith op
      → IsWord b
      → Meets (exact op (signed a) (signed b)) (eval_bop m op (int a) (int b))
  unfolding eval_bop
  eval_bop-Meets add a b i w = check-Meets _
  eval_bop-Meets sub a b i w = check-Meets _
  eval_bop-Meets mul a b i w = check-Meets _
  eval_bop-Meets div a b i w = elim (Bool-cases (b == 0)) [
    | inl z ↦ rw ((==_iff b 0).0 z) refl
    | inr nz ↦ rw (nz, exact-div (signed a) (signed b) (signed_ne b w nz)) (check-Meets _)
  ]
  eval_bop-Meets modulo a b i w = elim (Bool-cases (b == 0)) [
    | inl z ↦ rw ((==_iff b 0).0 z) refl
    | inr nz ↦ rw (nz, exact-modulo (signed a) (signed b) (signed_ne b w nz)) (check-Meets _)
  ]
  eval_bop-Meets _ a b i w = absurd i

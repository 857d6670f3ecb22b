-- ===== src/Ast/InitValue/Run.antt =====
-- Constant evaluation (src/ast/init_value.cpp) against the operators of the IR as they are run.
use helesta.Prelude.{
  ℕ, ◌≡◌, ◌≢◌, refl, sym, ap, ap₂, ◌∙◌, ◌&&◌, inl, inr, some, arith, Bool-cases, ◌==◌,
}
use helesta.Prelude.Int.{ℤ, pos, ◌-ℤ◌, tdiv, tmod}
use helesta.Prelude.Word.{IsWord, signed, of_int, add32, sub32, mul32, neg32}
use helesta.Prelude.Word.Signed.{of_int-signed, of_int-+ℤ, of_int--ℤ, of_int-*ℤ, neg32_lem}
use helesta.Ir.Scalar.{FloatUnit, compute_binary, int_min, minus_one, mod_int}
use helesta.Ir.Scalar.{BinaryCompute}
use helesta.Ast.InitValue.{
  ok, CompileTimeValueAny, int, check_and_return, int_bop, int_uop, Bop, Uop,
}

check-ok : (z : ℤ) {v : CompileTimeValueAny} → check_and_return z ≡ ok v → v ≡ int (of_int z)
unfolding check_and_return
check-ok z h = ground arith

check_big :
    {v : CompileTimeValueAny} → check_and_return (tdiv (signed int_min) (signed minus_one)) ≢ ok v
unfolding check_and_return tdiv
check_big h = cc

module _ (m : FloatUnit) (a b : ℕ) (wa : IsWord a) (wb : IsWord b) {v : CompileTimeValueAny} where
  pub run_add : int_bop Bop.add a b ≡ ok v → v ≡ int (add32 a b)
  unfolding int_bop
  run_add h =
      check-ok _ h ∙ ap int (of_int-+ℤ _ _ ∙ ap₂ add32 (of_int-signed a wa) (of_int-signed b wb))

  pub run_sub : int_bop Bop.sub a b ≡ ok v → v ≡ int (sub32 a b)
  unfolding int_bop
  run_sub h =
      check-ok _ h ∙ ap int (of_int--ℤ _ _ ∙ ap₂ sub32 (of_int-signed a wa) (of_int-signed b wb))

  pub run_mul : int_bop Bop.mul a b ≡ ok v → v ≡ int (mul32 a b)
  unfolding int_bop
  run_mul h =
      check-ok _ h ∙ ap int (of_int-*ℤ _ _ ∙ ap₂ mul32 (of_int-signed a wa) (of_int-signed b wb))

  pub run_div :
      int_bop Bop.div a b ≡ ok v
      → compute_binary m BinaryCompute.div a b ≡ some (of_int (tdiv (signed a) (signed b)))
        × (v ≡ int (of_int (tdiv (signed a) (signed b))))
  unfolding int_bop compute_binary
  run_div h = elim (Bool-cases (b == 0)) [
    | inl z ↦ absurd (ground arith)
    | inr nz ↦
        let checked : check_and_return (tdiv (signed a) (signed b)) ≡ ok v = ground arith in
        elim (Bool-cases (a == int_min && b == minus_one)) [
          | inl trap ↦
              let ea : int_min ≡ a = ground arith in
              let eb : minus_one ≡ b = ground arith in
              absurd (
                check_big
                  (ap₂ (λ x y. check_and_return (tdiv (signed x) (signed y))) ea eb ∙ checked))
          | inr fits ↦ (rw (nz, fits) refl, check-ok _ checked)
        ]
  ]

  pub run_modulo :
      ¬ ((a ≡ int_min) × (b ≡ minus_one))
      → int_bop Bop.modulo a b ≡ ok v
      → compute_binary m BinaryCompute.modulo a b ≡ some (of_int (tmod (signed a) (signed b)))
        × (v ≡ int (of_int (tmod (signed a) (signed b))))
  unfolding int_bop compute_binary mod_int
  run_modulo safe h = elim (Bool-cases (b == 0)) [
    | inl z ↦ absurd (ground arith)
    | inr nz ↦
        let checked : check_and_return (tmod (signed a) (signed b)) ≡ ok v = ground arith in
        elim (Bool-cases (a == int_min && b == minus_one)) [
          | inl trap ↦ absurd (safe (ground arith, ground arith))
          | inr fits ↦ (rw (nz, fits) refl, check-ok _ checked)
        ]
  ]

pub run_neg :
    (a : ℕ) {v : CompileTimeValueAny} → IsWord a → int_uop Uop.neg a ≡ ok v → v ≡ int (neg32 a)
unfolding int_uop neg32
run_neg a {v} wa h = elim (Bool-cases (a == int_min)) [
  | inl e ↦ ground arith
  | inr ne ↦
      let checked : check_and_return (pos 0 -ℤ signed a) ≡ ok v = ground arith in
      check-ok _ checked ∙ ap int (sym (neg32_lem a wa))
]

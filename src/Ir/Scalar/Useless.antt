-- ===== src/Ir/Scalar/Useless.antt =====
-- `is_useless_compute` of src/ir/scalar.hpp, for operations with one known operand, against what the
-- operations compute.
use helesta.Prelude.{ℕ, ◌≡◌, true, none, some, arith}
use native.Mathlib.Nat.{div-one, mul-one, one-mul}
use helesta.Prelude.Int.{ℤ, pos, negsuc, tdiv}
use helesta.Prelude.Word.{IsWord, signed, add32, sub32, mul32}
use helesta.Prelude.Word.Signed.{of_int-signed}
use helesta.Ir.Scalar.{
  FloatUnit, BinaryCompute, int, float, zero_f, minus_zero_f, is_useless_binary, compute_binary,
}
use helesta.Ir.Scalar.BinaryCompute.{add, sub, mul, div, fadd}

tdiv-one : (z : ℤ) → tdiv z (pos 1) ≡ z
unfolding tdiv
tdiv-one (pos n) = ground (arith, div-one n)
tdiv-one (negsuc n) = ground arith

-- What the documented arithmetic of IEEE 754 says of the two zeros.
pub record HasSignedZeros (m : FloatUnit) : Type 0 where
  pub zeros_equal : m.equal zero_f minus_zero_f ≡ true
  pub zero_plus : m.plus zero_f minus_zero_f ≡ zero_f

module _ (m : FloatUnit) where
  -- With one integer constant as an operand, an operation that the test calls useless gives the
  -- other operand.
  pub useless_sound :
      (op : BinaryCompute) (c x : ℕ)
      → IsWord x
      → (is_useless_binary m op (some (int c)) none ≡ true → compute_binary m op c x ≡ some x)
        × (is_useless_binary m op none (some (int c)) ≡ true → compute_binary m op x c ≡ some x)
  unfolding is_useless_binary compute_binary add32 sub32 mul32
  useless_sound add c x w = (λ h. ground arith, λ h. ground arith)
  useless_sound sub c x w = (λ h. ground arith, λ h. ground arith)
  useless_sound mul c x w = (λ h. ground (arith, one-mul x), λ h. ground (arith, mul-one x))
  useless_sound div c x w = (λ h. cc, λ h. ground (arith, tdiv-one (signed x), of_int-signed x w))
  useless_sound _ c x w = (λ h. cc, λ h. cc)

  -- Where the float unit takes the two zeros for equal and their sum is +0.0, the test calls FADD with the constant
  -- +0.0 useless, yet +0.0 plus -0.0 is +0.0: not every operand is kept.
  pub useless_fadd_unsound :
      HasSignedZeros m
      → (is_useless_binary m fadd (some (float zero_f)) none ≡ true)
        × (compute_binary m fadd zero_f minus_zero_f ≡ some zero_f)
        × (¬ ((x : ℕ) → compute_binary m fadd zero_f x ≡ some x))
  unfolding is_useless_binary compute_binary
  useless_fadd_unsound z = (
    ground (arith, z.zeros_equal),
    ground (arith, z.zero_plus),
    λ keeps. ground (arith, z.zero_plus, keeps minus_zero_f),
  )

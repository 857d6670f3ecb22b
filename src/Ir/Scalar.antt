-- ===== src/Ir/Scalar.antt =====
-- src/ir/scalar.hpp: the scalars of the IR, its operators, and the two evaluators of them: the
-- typed one, by which the passes fold constants, and the typeless one, by which the IR is run.
-- A scalar is its 32 bits. `none` stands for a failed assertion, a bare `throw`, and an integer
-- division that the machine traps.
pub mod Laws
pub mod Useless
pub mod Tests
use helesta.Prelude.{
  ℕ, ◌*◌, ◌%◌, ◌^◌, Bool, true, false, not, ◌&&◌, ◌||◌, Option, none, some, ltb, ◌==◌,
  if◌then◌else◌,
}
use mathlib.Core.Option
use helesta.Prelude.Int.{tdiv, tmod}
use helesta.Prelude.Word.{signed, of_int, add32, sub32, mul32, neg32, of_bool, ltb_signed}

-- The host's `float` operations on bit patterns, and what it does with a shift by 32 or more.
pub record FloatUnit : Type 0 where
  pub plus : ℕ → ℕ → ℕ
  pub minus : ℕ → ℕ → ℕ
  pub times : ℕ → ℕ → ℕ
  pub over : ℕ → ℕ → ℕ
  pub lt : ℕ → ℕ → Bool
  pub le : ℕ → ℕ → Bool
  pub equal : ℕ → ℕ → Bool
  pub negate : ℕ → ℕ
  pub to_int : ℕ → ℕ
  pub from_int : ℕ → ℕ
  pub double_low : ℕ → ℕ
  pub double_high : ℕ → ℕ
  pub int_double_low : ℕ → ℕ
  pub int_double_high : ℕ → ℕ
  pub wide_shift : ℕ → ℕ → ℕ

pub data UnaryCompute : Type 0 where
  lnot neg id fneg f2i i2f f2d0 f2d1 : UnaryCompute

-- `modulo` is the source's MOD.
pub data BinaryCompute : Type 0 where
  add sub mul div less leq eq neq modulo shl fadd fsub fmul fdiv fless fleq feq fneq : BinaryCompute

-- `typed_scalar_t`; its bits alone are a `typeless_scalar_t`.
pub data TypedScalar : Type 0 where
  int : ℕ → TypedScalar
  float : ℕ → TypedScalar

abbrev pub bits : TypedScalar → ℕ
bits (int w) = w
bits (float w) = w

abbrev pub zero_f : ℕ
zero_f = 0

abbrev pub minus_zero_f : ℕ
minus_zero_f = 0x80000000

abbrev pub one_f : ℕ
one_f = 0x3f800000

abbrev pub int_min : ℕ
int_min = 0x80000000

abbrev pub minus_one : ℕ
minus_one = 0xffffffff

unfoldable pub is_useless_unary : UnaryCompute → Bool
is_useless_unary id = true
is_useless_unary _ = false

unfoldable pub is_commutable_compute : BinaryCompute → Bool
is_commutable_compute add = true
is_commutable_compute fadd = true
is_commutable_compute mul = true
is_commutable_compute fmul = true
is_commutable_compute eq = true
is_commutable_compute feq = true
is_commutable_compute neq = true
is_commutable_compute fneq = true
is_commutable_compute _ = false

-- `/` and `%` of C++ on `int`: they trap where the quotient does not exist or does not fit.
unfoldable pub div_int : ℕ → ℕ → Option ℕ
div_int a b =
    if b == 0 || (a == int_min && b == minus_one)
    then none
    else some (of_int (tdiv (signed a) (signed b)))

unfoldable pub mod_int : ℕ → ℕ → Option ℕ
mod_int a b =
    if b == 0 || (a == int_min && b == minus_one)
    then none
    else some (of_int (tmod (signed a) (signed b)))

module _ (m : FloatUnit) where
  -- `s == typed_scalar_t(c)`: the same alternative, and equal as C++ compares it.
  unfoldable pub equals : Option TypedScalar → TypedScalar → Bool
  equals (some (int a)) (int b) = a == b
  equals (some (float a)) (float b) = m.equal a b
  equals _ _ = false

  unfoldable pub is_useless_binary : BinaryCompute → Option TypedScalar → Option TypedScalar → Bool
  unfolding equals
  is_useless_binary add s1 s2 = equals s1 (int 0) || equals s2 (int 0)
  is_useless_binary fadd s1 s2 = equals s1 (float minus_zero_f) || equals s2 (float minus_zero_f)
  is_useless_binary sub s1 s2 = equals s2 (int 0)
  is_useless_binary fsub s1 s2 = equals s2 (float zero_f)
  is_useless_binary mul s1 s2 = equals s1 (int 1) || equals s2 (int 1)
  is_useless_binary fmul s1 s2 = equals s1 (float one_f) || equals s2 (float one_f)
  is_useless_binary div s1 s2 = equals s2 (int 1)
  is_useless_binary fdiv s1 s2 = equals s2 (float one_f)
  is_useless_binary _ s1 s2 = false

  -- `typed_compute` at `Scalar = int32_t` and at `Scalar = float`.
  unfoldable pub typed_compute_int1 : UnaryCompute → ℕ → TypedScalar
  typed_compute_int1 lnot s1 = int (of_bool (s1 == 0))
  typed_compute_int1 neg s1 = int (neg32 s1)
  typed_compute_int1 id s1 = int s1
  typed_compute_int1 fneg s1 = int (neg32 s1)
  typed_compute_int1 f2i s1 = int s1
  typed_compute_int1 i2f s1 = float (m.from_int s1)
  typed_compute_int1 f2d0 s1 = float (m.int_double_low s1)
  typed_compute_int1 f2d1 s1 = float (m.int_double_high s1)

  unfoldable pub typed_compute_float1 : UnaryCompute → ℕ → TypedScalar
  typed_compute_float1 lnot s1 = int (of_bool (m.equal s1 zero_f))
  typed_compute_float1 neg s1 = float (m.negate s1)
  typed_compute_float1 id s1 = float s1
  typed_compute_float1 fneg s1 = float (m.negate s1)
  typed_compute_float1 f2i s1 = int (m.to_int s1)
  typed_compute_float1 i2f s1 = float s1
  typed_compute_float1 f2d0 s1 = float (m.double_low s1)
  typed_compute_float1 f2d1 s1 = float (m.double_high s1)

  unfoldable pub typed_compute_unary : UnaryCompute → TypedScalar → TypedScalar
  unfolding typed_compute_int1 typed_compute_float1
  typed_compute_unary op (int s1) = typed_compute_int1 op s1
  typed_compute_unary op (float s1) = typed_compute_float1 op s1

  unfoldable pub typed_compute_int2 : BinaryCompute → ℕ → ℕ → Option TypedScalar
  unfolding div_int mod_int
  typed_compute_int2 add s1 s2 = some (int (add32 s1 s2))
  typed_compute_int2 sub s1 s2 = some (int (sub32 s1 s2))
  typed_compute_int2 mul s1 s2 = some (int (mul32 s1 s2))
  typed_compute_int2 div s1 s2 = Option.map int (div_int s1 s2)
  typed_compute_int2 less s1 s2 = some (int (of_bool (ltb_signed s1 s2)))
  typed_compute_int2 leq s1 s2 = some (int (of_bool (not (ltb_signed s2 s1))))
  typed_compute_int2 eq s1 s2 = some (int (of_bool (s1 == s2)))
  typed_compute_int2 neq s1 s2 = some (int (of_bool (not (s1 == s2))))
  typed_compute_int2 modulo s1 s2 = Option.map int (mod_int s1 s2)
  typed_compute_int2 shl s1 s2 = none
  typed_compute_int2 fadd s1 s2 = some (int (add32 s1 s2))
  typed_compute_int2 fsub s1 s2 = some (int (sub32 s1 s2))
  typed_compute_int2 fmul s1 s2 = some (int (mul32 s1 s2))
  typed_compute_int2 fdiv s1 s2 = Option.map int (div_int s1 s2)
  typed_compute_int2 fless s1 s2 = some (int (of_bool (ltb_signed s1 s2)))
  typed_compute_int2 fleq s1 s2 = some (int (of_bool (not (ltb_signed s2 s1))))
  typed_compute_int2 feq s1 s2 = some (int (of_bool (s1 == s2)))
  typed_compute_int2 fneq s1 s2 = some (int (of_bool (not (s1 == s2))))

  unfoldable pub typed_compute_float2 : BinaryCompute → ℕ → ℕ → Option TypedScalar
  typed_compute_float2 add s1 s2 = some (float (m.plus s1 s2))
  typed_compute_float2 sub s1 s2 = some (float (m.minus s1 s2))
  typed_compute_float2 mul s1 s2 = some (float (m.times s1 s2))
  typed_compute_float2 div s1 s2 = some (float (m.over s1 s2))
  typed_compute_float2 less s1 s2 = some (int (of_bool (m.lt s1 s2)))
  typed_compute_float2 leq s1 s2 = some (int (of_bool (m.le s1 s2)))
  typed_compute_float2 eq s1 s2 = some (int (of_bool (m.equal s1 s2)))
  typed_compute_float2 neq s1 s2 = some (int (of_bool (not (m.equal s1 s2))))
  typed_compute_float2 modulo s1 s2 = none
  typed_compute_float2 shl s1 s2 = none
  typed_compute_float2 fadd s1 s2 = some (float (m.plus s1 s2))
  typed_compute_float2 fsub s1 s2 = some (float (m.minus s1 s2))
  typed_compute_float2 fmul s1 s2 = some (float (m.times s1 s2))
  typed_compute_float2 fdiv s1 s2 = some (float (m.over s1 s2))
  typed_compute_float2 fless s1 s2 = some (int (of_bool (m.lt s1 s2)))
  typed_compute_float2 fleq s1 s2 = some (int (of_bool (m.le s1 s2)))
  typed_compute_float2 feq s1 s2 = some (int (of_bool (m.equal s1 s2)))
  typed_compute_float2 fneq s1 s2 = some (int (of_bool (not (m.equal s1 s2))))

  unfoldable pub typed_compute_binary :
      BinaryCompute → TypedScalar → TypedScalar → Option TypedScalar
  unfolding typed_compute_int2 typed_compute_float2
  typed_compute_binary op (int s1) (int s2) = typed_compute_int2 op s1 s2
  typed_compute_binary op (float s1) (float s2) = typed_compute_float2 op s1 s2
  typed_compute_binary op _ _ = none

  -- `compute` on `typeless_scalar_t`, by which `exec` runs the instructions.
  unfoldable pub compute_binary : BinaryCompute → ℕ → ℕ → Option ℕ
  unfolding mod_int
  compute_binary add i1 i2 = some (add32 i1 i2)
  compute_binary sub i1 i2 = some (sub32 i1 i2)
  compute_binary mul i1 i2 = some (mul32 i1 i2)
  compute_binary div i1 i2 = some (
      if not (i2 == 0) && not (i1 == int_min && i2 == minus_one)
      then of_int (tdiv (signed i1) (signed i2))
      else 0)
  compute_binary less i1 i2 = some (of_bool (ltb_signed i1 i2))
  compute_binary leq i1 i2 = some (of_bool (not (ltb_signed i2 i1)))
  compute_binary eq i1 i2 = some (of_bool (i1 == i2))
  compute_binary neq i1 i2 = some (of_bool (not (i1 == i2)))
  compute_binary modulo i1 i2 = if not (i2 == 0) then mod_int i1 i2 else some 0
  compute_binary shl i1 i2 = some (if ltb i2 32 then i1 * 2 ^ i2 % 2 ^ 32 else m.wide_shift i1 i2)
  compute_binary fadd f1 f2 = some (m.plus f1 f2)
  compute_binary fsub f1 f2 = some (m.minus f1 f2)
  compute_binary fmul f1 f2 = some (m.times f1 f2)
  compute_binary fdiv f1 f2 = some (m.over f1 f2)
  compute_binary fless f1 f2 = some (of_bool (m.lt f1 f2))
  compute_binary fleq f1 f2 = some (of_bool (m.le f1 f2))
  compute_binary feq f1 f2 = some (of_bool (m.equal f1 f2))
  compute_binary fneq f1 f2 = some (of_bool (not (m.equal f1 f2)))

  -- Both members `f0` and `f1` of the union lie at its start, over the low half of the double.
  unfoldable pub compute_unary : UnaryCompute → ℕ → ℕ
  compute_unary lnot i1 = of_bool (i1 == 0)
  compute_unary neg i1 = neg32 i1
  compute_unary id i1 = i1
  compute_unary fneg f1 = m.negate f1
  compute_unary f2i f1 = m.to_int f1
  compute_unary i2f i1 = m.from_int i1
  compute_unary f2d0 f1 = m.double_low f1
  compute_unary f2d1 f1 = m.double_low f1

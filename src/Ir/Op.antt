-- ===== src/Ir/Op.antt =====
-- `UnaryOp` and `BinaryOp` of src/ir/ir.hpp: an operator by the type of its operands.
use helesta.Prelude.{Option, none, some}
use helesta.Ir.Scalar.{UnaryCompute, BinaryCompute}
use helesta.Ir.Scalar.UnaryCompute.{lnot, neg, id, fneg, f2i, i2f, f2d0, f2d1}
use helesta.Ir.Scalar.BinaryCompute.{
  add, sub, mul, div, less, leq, eq, neq, fadd, fsub, fmul, fdiv, fless, fleq, feq, fneq,
}

-- src/common/common.hpp
pub data ScalarType : Type 0 where
  void int float char : ScalarType

unfoldable pub unary_input_type : UnaryCompute → ScalarType
unary_input_type fneg = float
unary_input_type f2i = float
unary_input_type f2d0 = float
unary_input_type f2d1 = float
unary_input_type _ = int

unfoldable pub unary_ret_type : UnaryCompute → ScalarType
unary_ret_type fneg = float
unary_ret_type i2f = float
unary_ret_type f2d0 = float
unary_ret_type f2d1 = float
unary_ret_type _ = int

unfoldable pub binary_ret_type : BinaryCompute → ScalarType
binary_ret_type fadd = float
binary_ret_type fsub = float
binary_ret_type fmul = float
binary_ret_type fdiv = float
binary_ret_type _ = int

unfoldable pub binary_input_type : BinaryCompute → ScalarType
unfolding binary_ret_type
binary_input_type fless = float
binary_input_type fleq = float
binary_input_type feq = float
binary_input_type fneq = float
binary_input_type op = binary_ret_type op

-- The constructors that take an operand type; `none` is a failed assertion.
unfoldable pub unary_op : ScalarType → UnaryCompute → Option UnaryCompute
unary_op int lnot = some lnot
unary_op int neg = some neg
unary_op int id = some id
unary_op float neg = some fneg
unary_op _ _ = none

unfoldable pub binary_op : ScalarType → BinaryCompute → Option BinaryCompute
binary_op int fadd = none
binary_op int fsub = none
binary_op int fmul = none
binary_op int fdiv = none
binary_op int op = some op
binary_op float add = some fadd
binary_op float sub = some fsub
binary_op float mul = some fmul
binary_op float div = some fdiv
binary_op float less = some fless
binary_op float leq = some fleq
binary_op float eq = some feq
binary_op float neq = some fneq
binary_op _ _ = none

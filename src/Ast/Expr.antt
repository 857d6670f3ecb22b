-- ===== src/Ast/Expr.antt =====
-- The arithmetic, relational and equality expressions of src/ast/ast_visitor.cpp, which the visitor
-- reads in two modes: in one it computes a constant (Const), in the other it emits IR (Lower).
-- Literals stand for themselves; names, calls, arrays, && and || are not in this model.
pub mod Const
pub mod Lower
pub mod Converts
pub mod Agree
pub mod Bang
pub mod Correct
pub mod Tests
use helesta.Prelude.{ℕ, Bool, true, false}
use helesta.Ir.Scalar.{BinaryCompute}
use helesta.Ast.InitValue.{CompileTimeValueAny, Bop}

-- `+ - !`, and `* / % + - < > <= >= == !=`.
pub data Sign : Type 0 where
  plus minus bang : Sign

pub data Operator : Type 0 where
  times over percent plus minus lt gt le ge eq ne : Operator

pub data Expr : Type 0 where
  number : CompileTimeValueAny → Expr
  unary : Sign → Expr → Expr
  binary : Operator → Expr → Expr → Expr

-- `opt` and `rev` of visitRelExp, and the operators of the other visitors.
abbrev pub opt : Operator → BinaryCompute
opt times = BinaryCompute.mul
opt over = BinaryCompute.div
opt percent = BinaryCompute.modulo
opt plus = BinaryCompute.add
opt minus = BinaryCompute.sub
opt lt = BinaryCompute.less
opt gt = BinaryCompute.less
opt le = BinaryCompute.leq
opt ge = BinaryCompute.leq
opt eq = BinaryCompute.eq
opt ne = BinaryCompute.neq

abbrev pub rev : Operator → Bool
rev gt = true
rev ge = true
rev _ = false

-- Whether the result is an `Int` whatever the operands are.
abbrev pub is_test : Operator → Bool
is_test lt = true
is_test gt = true
is_test le = true
is_test ge = true
is_test eq = true
is_test ne = true
is_test _ = false

-- The operator of src/ast/init_value.cpp that the visitor calls at compile time.
abbrev pub bop : Operator → Bop
bop times = Bop.mul
bop over = Bop.div
bop percent = Bop.modulo
bop plus = Bop.add
bop minus = Bop.sub
bop lt = Bop.less
bop gt = Bop.less
bop le = Bop.leq
bop ge = Bop.leq
bop eq = Bop.eq
bop ne = Bop.neq

-- ===== src/Ast/Expr/Lower.antt =====
-- The normal mode of src/ast/ast_visitor.cpp: the instructions that it pushes on the current block,
-- in order, and the register that holds the value. The number passed along is `max_reg_id`.
use helesta.Prelude.{
  ℕ, suc, Bool, true, false, Option, none, some, List, [], ◌∷◌, ◌++◌, ◌>>=◌, ◌||◌, if◌then◌else◌,
}
use helesta.Ir.Scalar.{UnaryCompute}
use helesta.Ir.Op.{ScalarType, unary_op, binary_op}
use helesta.Ir.Exec.{Instr}
use helesta.Ast.InitValue.{CompileTimeValueAny, int, float}
use helesta.Ast.Expr.{Sign, Operator, Expr, number, unary, binary, opt, rev, is_test}

-- `IRValue` of a scalar that is no left value.
pub record IrValue : Type 0 where
  pub type : ScalarType
  pub reg : ℕ

pub record Emitted : Type 0 where
  pub value : IrValue
  pub max_reg_id : ℕ
  pub instrs : List Instr

abbrev pub is_float_type : ScalarType → Bool
is_float_type ScalarType.float = true
is_float_type _ = false

abbrev pub join : ScalarType → ScalarType → ScalarType
join a b = if is_float_type a || is_float_type b then ScalarType.float else ScalarType.int

-- `get_value(type, value)`: the value, converted where its type is another.
unfoldable pub get_value : ScalarType → IrValue → ℕ → Option Emitted
get_value ScalarType.int (v) n = elim v.type [
  | ScalarType.int ↦ some (record { value = v; max_reg_id = n; instrs = [] })
  | _ ↦ some (record {
    value = record { type = ScalarType.int; reg = suc n };
    max_reg_id = suc n;
    instrs = Instr.unary_op (suc n) v.reg UnaryCompute.f2i ∷ [];
  })
]
get_value ScalarType.float v n = elim v.type [
  | ScalarType.float ↦ some (record { value = v; max_reg_id = n; instrs = [] })
  | _ ↦ some (record {
    value = record { type = ScalarType.float; reg = suc n };
    max_reg_id = suc n;
    instrs = Instr.unary_op (suc n) v.reg UnaryCompute.i2f ∷ [];
  })
]
get_value _ v n = none

abbrev pub emit_unary : ScalarType → UnaryCompute → ℕ → ℕ → Option Emitted
emit_unary type op r n = do
  o ← unary_op type op
  some (record {
    value = record { type = type; reg = suc n };
    max_reg_id = suc n;
    instrs = Instr.unary_op (suc n) r o ∷ [];
  })

unfoldable pub lower_sign : Sign → ScalarType → ℕ → ℕ → Option Emitted
lower_sign Sign.minus type r n = emit_unary type UnaryCompute.neg r n
lower_sign Sign.bang type r n = emit_unary type UnaryCompute.lnot r n
lower_sign Sign.plus type r n =
    some (record { value = record { type = type; reg = r }; max_reg_id = n; instrs = [] })

abbrev pub sign_type : Sign → ScalarType → ScalarType
sign_type Sign.bang type = ScalarType.int
sign_type _ type = type

unfoldable pub lower_operator : Operator → ScalarType → ℕ → ℕ → ℕ → Option Emitted
lower_operator op type a b n = do
  o ← binary_op type (opt op)
  some (record {
    value = record { type = if is_test op then ScalarType.int else type; reg = suc n };
    max_reg_id = suc n;
    instrs = (if rev op then Instr.binary_op (suc n) b a o else Instr.binary_op (suc n) a b o) ∷ [];
  })

abbrev pub literal_type : CompileTimeValueAny → ScalarType
literal_type (int w) = ScalarType.int
literal_type (float w) = ScalarType.float

abbrev pub word : CompileTimeValueAny → ℕ
word (int w) = w
word (float w) = w

unfoldable pub lower : Expr → ℕ → Option Emitted
unfolding get_value lower_sign lower_operator
lower (number v) n = some (record {
  value = record { type = literal_type v; reg = suc n };
  max_reg_id = suc n;
  instrs = Instr.load_const (literal_type v) (suc n) (word v) ∷ [];
})
lower (unary op e) n = do
  rhs ← lower e n
  let type = sign_type op rhs.value.type
  r ← get_value type rhs.value rhs.max_reg_id
  res ← lower_sign op type r.value.reg r.max_reg_id
  some (record res { instrs = rhs.instrs ++ (r.instrs ++ res.instrs) })
lower (binary op l r) n = do
  lhs ← lower l n
  rhs ← lower r lhs.max_reg_id
  let type = join lhs.value.type rhs.value.type
  a ← get_value type lhs.value rhs.max_reg_id
  b ← get_value type rhs.value a.max_reg_id
  res ← lower_operator op type a.value.reg b.value.reg b.max_reg_id
  some
      (record res { instrs = lhs.instrs ++ (rhs.instrs ++ (a.instrs ++ (b.instrs ++ res.instrs))) })

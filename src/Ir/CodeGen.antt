-- ===== src/Ir/CodeGen.antt =====
-- `CodeGen` of src/ir/ir.hpp, by which the passes emit instructions into new registers.
pub mod Run
use helesta.Prelude.{ℕ, suc, Option, none, some, List, [], ◌∷◌, ◌++◌, ◌==◌, if◌then◌else◌}
use helesta.Ir.Op.{ScalarType}
use helesta.Ir.Scalar.{UnaryCompute, BinaryCompute}
use helesta.Ir.Exec.{Instr}
use helesta.Ir.Instr.{dest, with_dest}

-- The instructions so far, and `max_reg_id` of the function.
pub record CodeGen : Type 0 where
  pub instrs : List Instr
  pub max_reg_id : ℕ

-- A new register, and the instruction that writes it.
unfoldable pub emit : (ℕ → Instr) → CodeGen → ℕ × CodeGen
emit make cg =
    let r = suc cg.max_reg_id in (r, record { instrs = cg.instrs ++ (make r ∷ []); max_reg_id = r })

unfoldable pub lc : ℕ → CodeGen → ℕ × CodeGen
unfolding emit
lc v = emit (λ r. Instr.load_const ScalarType.int r v)

unfoldable pub negate : ℕ → CodeGen → ℕ × CodeGen
unfolding emit
negate a = emit (λ r. Instr.unary_op r a UnaryCompute.neg)

unfoldable pub apply : BinaryCompute → ℕ → ℕ → CodeGen → ℕ × CodeGen
unfolding emit
apply op a b = emit (λ r. Instr.binary_op r a b op)

-- `set_last_def(a)` of the register `r`: the last instruction writes `r` in place of `a`. Where it
-- writes another register the source returns all the same, and nothing writes `r`.
unfoldable pub redirect : ℕ → ℕ → List Instr → List Instr
redirect r a [] = Instr.unary_op r a UnaryCompute.id ∷ []
redirect r a (i ∷ []) = elim (dest i) [
  | some d ↦ (if d == a then with_dest r i else i) ∷ []
  | none ↦ i ∷ Instr.unary_op r a UnaryCompute.id ∷ []
]
redirect r a (i ∷ j ∷ is) = i ∷ redirect r a (j ∷ is)

unfoldable pub set_last_def : ℕ → ℕ → CodeGen → CodeGen
unfolding redirect
set_last_def r a cg = record cg { instrs = redirect r a cg.instrs }

-- ===== src/Opt/AddExpr/GenIr/Tests.antt =====
-- The code for a small linear form.
use helesta.Prelude.{ℕ, ◌%◌, ◌≤◌, ◌≡◌, refl, true, false, none, some, [], ◌∷◌, arith}
use mathlib.Core.Option
use helesta.Prelude.Word.{IsWord}
use helesta.Ir.Op.{ScalarType}
use helesta.Ir.Scalar.{BinaryCompute}
use helesta.Ir.Scalar.Tests.{toy}
use helesta.Ir.Exec.{Env, State, Instr}
use helesta.Ir.CodeGen.{CodeGen, emit, lc, negate, apply, redirect, set_last_def}
use helesta.Ir.Instr.{dest, with_dest}
use helesta.Prelude.Word.{neg32}
use helesta.Opt.AddExpr.{AddExpr, value}
use helesta.Opt.AddExpr.GenIr.{
  gen_ir, gen_groups, gen_group, group, emplace, positive_first, exchange, add_members, add_member,
  scale, add_sum, start_sum, final_sum,
}
use helesta.Opt.AddExpr.GenIr.Correct.{Sets, gen_ir_correct}

abbrev env : Env
env = record {
  unit = toy;
  args = [];
  sp = 0;
  mem_limit = 4096;
  max_reg_id = 100;
  enable_phi = true;
}

abbrev start : State
start = record {
  regs = λ r. r % 100;
  mem = λ _. 0;
  instr_cnt = 0;
  mem_r_cnt = 0;
  mem_w_cnt = 0;
  jump_cnt = 0;
}

start_words : (r : ℕ) → IsWord (start.regs r)
start_words r = omega arith

-- 7 - 3 r1 + 3 r2 + r4
abbrev form : AddExpr
form = record { c = 7; bad = false; cs = (1, 0xfffffffd) ∷ (2, 3) ∷ (4, 1) ∷ [] }

form-gen_ir :
    Option.map (λ (cg : CodeGen). cg.instrs) (gen_ir form 3 4)
    ≡ some (
        Instr.load_const ScalarType.int 5 7
        ∷ Instr.binary_op 6 5 4 BinaryCompute.add
        ∷ Instr.binary_op 7 2 1 BinaryCompute.sub
        ∷ Instr.load_const ScalarType.int 8 3
        ∷ Instr.binary_op 9 7 8 BinaryCompute.mul
        ∷ Instr.binary_op 3 6 9 BinaryCompute.add
        ∷ [])
unfolding gen_ir gen_groups gen_group group emplace positive_first exchange add_members add_member
    scale add_sum start_sum final_sum emit lc negate apply redirect set_last_def dest with_dest
    neg32
form-gen_ir = refl

gen_ir_correct_example :
    (cg : CodeGen) × (gen_ir form 3 4 ≡ some cg)
    × (cg.max_reg_id ≤ 100
        → Sets env (λ _. none) 0 start 4 start_words cg.instrs 3 (value start.regs form))
gen_ir_correct_example =
    gen_ir_correct env (λ _. none) 0 start 4 start_words form 3 (omega arith) (omega arith)
      (omega arith) (omega arith) (omega arith)

-- ===== src/Ast/Expr/Tests.antt =====
-- Constant expressions, evaluated and lowered.
use helesta.Prelude.{ℕ, ◌≤◌, ◌≡◌, refl, true, none, some, List, [], ◌∷◌, ◌++◌, arith}
use mathlib.Core.Option
use helesta.Prelude.Int.{tdiv, ◌-ℤ◌, ◌+ℤ◌}
use helesta.Prelude.Word.{add32, mul32}
use helesta.Ir.Op.{ScalarType}
use helesta.Ir.Scalar.{BinaryCompute, compute_binary}
use helesta.Ir.Scalar.Tests.{toy, toy-IsWide}
use helesta.Ir.Exec.{Env, State, Instr, steps, run}
use helesta.Ast.InitValue.{ok, fail, int, float, eval_bop, eval_uop, out_of_bound}
use helesta.Ast.Expr.{Sign, Operator, Expr, number, unary, binary}
use helesta.Ast.Expr.Const.{const_value}
use helesta.Ast.Expr.Lower.{Emitted, lower, literal_type, word}
use helesta.Ast.Expr.Correct.{IsPlain, lower_correct}
use helesta.Ast.Expr.Bang.{bang_float_differs}

abbrev env : Env
env = record {
  unit = toy;
  args = [];
  sp = 0;
  mem_limit = 4096;
  max_reg_id = 100;
  enable_phi = true;
}

-- (7 - 10) / 2 > -2
abbrev sample : Expr
sample =
    binary Operator.gt
      (binary Operator.over (binary Operator.minus (number (int 7)) (number (int 10)))
        (number (int 2)))
      (unary Sign.minus (number (int 2)))

const-sample : const_value toy sample ≡ ok (int 1)
unfolding const_value eval_bop eval_uop tdiv ◌-ℤ◌
const-sample = refl

const_overflow :
    const_value toy (binary Operator.plus (number (int 0x7fffffff)) (number (int 1)))
    ≡ fail out_of_bound
unfolding const_value eval_bop ◌+ℤ◌
const_overflow = refl

sample-IsPlain : IsPlain toy sample
sample-IsPlain = omega arith

lower_correct_example :
    (out : Emitted) × (lower sample 3 ≡ some out)
    × (out.value.type ≡ literal_type (int 1))
    × ((s : State) (rest : List Instr)
        → out.max_reg_id ≤ 100
        → (t : State) × (steps env (λ _. none) 0 (out.instrs ++ rest) s
            ≡ steps env (λ _. none) 0 rest t)
          × (t.regs out.value.reg ≡ word (int 1))
          × ((r : ℕ) → r ≤ 3 → t.regs r ≡ s.regs r))
lower_correct_example =
    lower_correct env (λ _. none) 0 toy-IsWide sample (int 1) 3 sample-IsPlain const-sample

abbrev blank : State
blank = record {
  regs = λ _. 0;
  mem = λ _. 0;
  instr_cnt = 0;
  mem_r_cnt = 0;
  mem_w_cnt = 0;
  jump_cnt = 0;
}

-- The block that `return 2 * 3 + 1` becomes, run from its first register on.
return_block : List Instr
return_block =
    Instr.load_const ScalarType.int 1 2
    ∷ Instr.load_const ScalarType.int 2 3
    ∷ Instr.binary_op 3 1 2 BinaryCompute.mul
    ∷ Instr.load_const ScalarType.int 4 1
    ∷ Instr.binary_op 5 3 4 BinaryCompute.add
    ∷ Instr.return 5
    ∷ []

run_return : Option.map (λ (p : ℕ × State). p.0) (run env (return_block ∷ []) 5 9 0 blank) ≡ some 7
unfolding run return_block compute_binary add32 mul32
run_return = refl

bang_float_differs_example :
    (const_value toy (unary Sign.bang (number (float 0x3f000000))) ≡ ok (int 0))
    × ((out : Emitted) × (lower (unary Sign.bang (number (float 0x3f000000))) 0 ≡ some out)
        × ((s : State) (rest : List Instr)
            → out.max_reg_id ≤ 100
            → (t : State) × (steps env (λ _. none) 0 (out.instrs ++ rest) s
                ≡ steps env (λ _. none) 0 rest t)
              × (t.regs out.value.reg ≡ 1)))
bang_float_differs_example = bang_float_differs env (λ _. none) 0 0x3f000000 0 refl refl

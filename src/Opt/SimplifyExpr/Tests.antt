-- ===== src/Opt/SimplifyExpr/Tests.antt =====
-- A block with a sum, a product by a constant and a product of two registers.
use helesta.Prelude.{
  ℕ, ◌≡◌, true, ◌≤◌, refl, false, Option, none, some, List, [], ◌∷◌, arith, update, sym, subst,
  Bool-cases, inl, inr, ◌==◌, ==_iff,
}
use helesta.Prelude.Word.{IsWord, add32, mul32}
use helesta.Ir.Op.{ScalarType}
use helesta.Ir.Scalar.{BinaryCompute, compute_binary}
use helesta.Ir.Scalar.Tests.{toy}
use helesta.Ir.Exec.{Instr, Env, State}
use helesta.Ir.CodeGen.{CodeGen}
use helesta.Opt.AddExpr.GenIr.{gen_ir}
use helesta.Opt.AddExpr.GenIr.Correct.{Sets}
use helesta.Opt.SimplifyExpr.Replace.{replace_correct}
use helesta.Opt.AddExpr.{fresh, set_mul, value, bump, add_reg, add_terms, add_expr}
use helesta.Opt.RegMap.{at, assign, erase}
use helesta.Ir.Instr.{dest, uses}
use helesta.Opt.SimplifyExpr.{
  Expr, Exprs, product, visit_all, visit, visit_new, visit_operator, operand_sizes, linear,
  get_operand, with_operands, with_operand, atom,
}
use helesta.Opt.SimplifyExpr.Forms.{Holds, Block, product_bad}
use helesta.Opt.SimplifyExpr.Sound.{visit_all_sound}

-- r1 is an argument, r2 = 3, r3 = r1 * r2, r4 = r3 + r1
abbrev block : List Instr
block =
    Instr.load_arg 1 0
    ∷ Instr.load_const ScalarType.int 2 3
    ∷ Instr.binary_op 3 1 2 BinaryCompute.mul
    ∷ Instr.binary_op 4 3 1 BinaryCompute.add
    ∷ []

abbrev defs : ℕ → Option Instr
defs =
    update
      (update
        (update (update (λ _. none) 1 (some (Instr.load_arg 1 0))) 2
          (some (Instr.load_const ScalarType.int 2 3)))
        3 (some (Instr.binary_op 3 1 2 BinaryCompute.mul)))
      4 (some (Instr.binary_op 4 3 1 BinaryCompute.add))

-- The argument is 10.
abbrev env : ℕ → ℕ
env = update (update (update (update (λ _. 0) 1 10) 2 3) 3 30) 4 40

abbrev once : ℕ → ℕ
once _ = 1

env-IsWord : (r : ℕ) → IsWord (env r)
env-IsWord r = ground arith

abbrev Right : (ℕ → Option Instr) → Type 0
Right f = (r : ℕ) (i : Instr) → f r ≡ some i → (dest i ≡ some r) × Holds toy env i

Right-update :
    (f : ℕ → Option Instr) (k : ℕ) (v : Instr)
    → Right f
    → (dest v ≡ some k)
    → Holds toy env v
    → Right (update f k (some v))
Right-update f k v g e o r i h = elim (Bool-cases (r == k)) [
  | inl p ↦
      let q : v ≡ i = ground arith in
      let t : k ≡ r = sym ((==_iff r k).0 p) in
      (subst (λ x. dest i ≡ some x) t (subst (λ x. dest x ≡ some k) q e), subst (Holds toy env) q o)
  | inr ne ↦ g r i (rw ne at h)
]

defs-Right : Right defs
unfolding dest compute_binary mul32 add32
defs-Right =
    Right-update _ 4 _
      (Right-update _ 3 _ (Right-update _ 2 _ (Right-update _ 1 _ (λ r i h. cc) refl tt) refl refl)
        refl refl)
      refl refl

block-Block : Block toy env block
unfolding compute_binary mul32 add32
block-Block =
    ((tt, tt), ((refl, tt), ((refl, ((λ p. cc), (λ p. cc))), ((refl, ((λ p. cc), (λ p. cc))), tt))))

abbrev found : Exprs
found = elim (visit_all defs once block (λ _. none)) [ none ↦ λ _. none | some es ↦ es ]

visit_all_sound_example : value env (record { c = 0; bad = false; cs = (1, 4) ∷ [] }) ≡ 40
unfolding visit_all visit dest visit_new visit_operator operand_sizes uses linear get_operand
    with_operands with_operand product add_expr add_reg bump add32 at assign set_mul add_terms erase
    atom mul32
visit_all_sound_example =
    visit_all_sound toy env env-IsWord defs once defs-Right block found 4
      (record { tree_size = 3; add = record { c = 0; bad = false; cs = (1, 4) ∷ [] } }) block-Block
      refl refl refl

product_bad_example :
    (product 3 1 (record fresh { cs = (1, 1) ∷ [] }) (record fresh { cs = (2, 1) ∷ [] })).add.bad
    ≡ (set_mul fresh (record fresh { cs = (1, 1) ∷ [] }) (record fresh { cs = (2, 1) ∷ [] })).bad
product_bad_example =
    product_bad 3 1 (record fresh { cs = (1, 1) ∷ [] }) (record fresh { cs = (2, 1) ∷ [] })

abbrev running : Env
running = record {
  unit = toy;
  args = [];
  sp = 0;
  mem_limit = 4096;
  max_reg_id = 100;
  enable_phi = true;
}

abbrev state : State
state = record {
  regs = env;
  mem = λ _. 0;
  instr_cnt = 0;
  mem_r_cnt = 0;
  mem_w_cnt = 0;
  jump_cnt = 0;
}

abbrev four_times : Expr
four_times = record { tree_size = 3; add = record { c = 0; bad = false; cs = (1, 4) ∷ [] } }

replace_correct_example :
    (cg : CodeGen) × (gen_ir four_times.add 4 4 ≡ some cg)
    × (cg.max_reg_id ≤ 100 → Sets running (λ _. none) 0 state 4 env-IsWord cg.instrs 4 40)
unfolding visit_all visit dest visit_new visit_operator operand_sizes uses linear get_operand
    with_operands with_operand product add_expr add_reg bump add32 at assign set_mul add_terms erase
    atom mul32
replace_correct_example =
    replace_correct running (λ _. none) 0 state 4 env-IsWord env env-IsWord defs once defs-Right
      block found 4 four_times block-Block refl refl refl (refl, tt) (omega arith) (omega arith)
      (omega arith) (omega arith) (omega arith)

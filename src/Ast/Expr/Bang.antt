-- ===== src/Ast/Expr/Bang.antt =====
-- `!` on a float in the two modes of src/ast/ast_visitor.cpp: the normal mode converts to `int` first,
-- the compile-time mode compares with zero.
use helesta.Prelude.{
  ℕ, suc, ◌≤◌, ◌≡◌, refl, ap, ◌∙◌, false, Option, some, List, ◌++◌, arith, update_self,
}
use helesta.Ir.Scalar.{UnaryCompute, compute_unary, zero_f}
use helesta.Ir.Op.{ScalarType, unary_op}
use helesta.Ir.Exec.{Env, State, Instr, steps}
use helesta.Ir.Exec.Lines.{wrote, Line-load_const, Line-unary_op, Line-append, steps-Line}
use helesta.Ast.InitValue.{ok, int, float, eval_uop}
use helesta.Ast.Expr.{Sign, number, unary}
use helesta.Ast.Expr.Const.{const_value}
use helesta.Ast.Expr.Lower.{Emitted, lower}
use helesta.Ast.Expr.Converts.{is_reg_of}

module _ (e : Env) (tmps : ℕ → Option ℕ) (cur : ℕ) where
  -- For a float that is not zero but converts to the integer 0, such as 0.5, the two modes differ on
  -- `!`: the constant is 0, and the code that is emitted leaves 1 in the register of its value.
  pub bang_float_differs :
      (w n : ℕ)
      → e.unit.equal w zero_f ≡ false
      → e.unit.to_int w ≡ 0
      → (const_value e.unit (unary Sign.bang (number (float w))) ≡ ok (int 0))
        × ((out : Emitted) × (lower (unary Sign.bang (number (float w))) n ≡ some out)
            × ((s : State) (rest : List Instr)
                → out.max_reg_id ≤ e.max_reg_id
                → (t : State) × (steps e tmps cur (out.instrs ++ rest) s ≡ steps e tmps cur rest t)
                  × (t.regs out.value.reg ≡ 1)))
  unfolding const_value eval_uop lower unary_op compute_unary
  bang_float_differs w n nonzero trunc = (
    rw nonzero refl,
    (
      _,
      refl,
      λ s rest m.
          let r1 = suc n in
          let r2 = suc (suc n) in
          let r3 = suc (suc (suc n)) in
          let s1 = wrote s r1 w in
          let s2 = wrote s1 r2 (compute_unary e.unit UnaryCompute.f2i (s1.regs r1)) in
          let s3 = wrote s2 r3 (compute_unary e.unit UnaryCompute.lnot (s2.regs r2)) in
          let ok1 = is_reg_of e tmps cur r1 (omega arith) (omega arith) in
          let ok2 = is_reg_of e tmps cur r2 (omega arith) (omega arith) in
          let ok3 = is_reg_of e tmps cur r3 (omega arith) m in
          let e1 : s1.regs r1 ≡ w = update_self s.regs r1 w in
          let e2 : s2.regs r2 ≡ 0 = update_self s1.regs r2 _ ∙ ap e.unit.to_int e1 ∙ trunc in
          (
            s3,
            steps-Line e tmps cur rest (
                Line-append e tmps cur (Line-load_const e tmps cur ScalarType.float r1 w s ok1) (
                  Line-append e tmps cur
                    (Line-unary_op e tmps cur r2 r1 UnaryCompute.f2i s1 ok2 ok1)
                    (Line-unary_op e tmps cur r3 r2 UnaryCompute.lnot s2 ok3 ok2))),
            update_self s2.regs r3 _ ∙ ap (λ t. compute_unary e.unit UnaryCompute.lnot t) e2,
          ),
    ),
  )

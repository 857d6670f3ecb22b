-- ===== src/Opt/AddExpr/GenIr/Sums.antt =====
-- The code of `genIR` (src/ir/opt/simplify_expr.cpp) that multiplies the members of a group and adds
-- them to the sum so far, run from a state.
use native.Mathlib.Nat.{mul_comm}
use helesta.Prelude.{
  ℕ, suc, ◌+◌, ◌*◌, ◌≤◌, ◌≡◌, ◌⊎◌, inl, inr, refl, ap, ◌∙◌, Option, none, some, ◌==◌, ==_iff,
  Bool-cases, arith,
}
use helesta.Prelude.Word.{IsWord, add32, mul32}
use helesta.Prelude.Word.Modular.{◌≈◌}
use helesta.Ir.Scalar.{BinaryCompute, compute_binary}
use helesta.Ir.Exec.{Env, State}
use helesta.Ir.CodeGen.{CodeGen, emit, lc, apply}
use helesta.Ir.CodeGen.Run.{Step, lc_lem, apply_lem}
use helesta.Opt.AddExpr.GenIr.{scale, add_sum}
use helesta.Opt.AddExpr.GenIr.Members.{Ready, Ends, Leaves, Ready-after, chain, Leaves-emit}

pub max-scale : (a x : ℕ) (cg : CodeGen) → cg.max_reg_id ≤ (scale a x cg).1.max_reg_id
unfolding scale lc apply emit
max-scale a x cg = ground arith

pub max-add_sum :
    (sum : Option ℕ) (y : ℕ) (cg : CodeGen) → cg.max_reg_id ≤ (add_sum sum y cg).1.max_reg_id
unfolding add_sum apply emit
max-add_sum none y cg = omega arith
max-add_sum (some z) y cg = omega arith

module _ (e : Env) (tmps : ℕ → Option ℕ) (cur : ℕ) (s : State) (n : ℕ)
    (words : (r : ℕ) → IsWord (s.regs r)) where
  abbrev pub Found : CodeGen → CodeGen → State → ℕ → ℕ → Type 0
  Found = Leaves e tmps cur s n words

  product_lem :
      (a x v : ℕ) (cg0 cg : CodeGen) (t : State)
      → Ready e tmps cur s n words cg0 t
      → Found cg0 cg t x v
      → suc (suc cg.max_reg_id) ≤ e.max_reg_id
      → Found cg0
          (apply BinaryCompute.mul x (lc a cg).0 (lc a cg).1).1
          t
          (apply BinaryCompute.mul x (lc a cg).0 (lc a cg).1).0
          (mul32 v a)
  unfolding compute_binary lc emit
  product_lem a x v cg0 cg t r l h =
      let ready = Ready-after e tmps cur s n words r l.step in
      let (k, _) = lc_lem e tmps cur s a cg l.step.after ready.runs (omega arith) in
      let both : Step e tmps cur s cg0 (lc a cg).1 t (lc a cg).0 a =
        chain e tmps cur s n words l.step k in
      let kept : k.after.regs x ≡ v = k.kept x l.step.high ∙ l.step.result in
      let w : mul32 (k.after.regs x) (k.after.regs (suc cg.max_reg_id)) ≡ mul32 v a =
        ap (λ t. mul32 t (k.after.regs (suc cg.max_reg_id))) kept ∙ ap (mul32 v) k.result in
      (Leaves-emit e tmps cur s n words r both
        (apply_lem e tmps cur s BinaryCompute.mul x (suc cg.max_reg_id) (mul32 v a) (lc a cg).1
          k.after k.runs h l.step.low (omega (arith, l.step.high)) (omega arith) (omega arith)
          (ap some w))
        (unfold mul32 in omega arith)).0

  pub scale_lem :
      (a x v : ℕ) (cg0 cg : CodeGen) (t : State)
      → Ready e tmps cur s n words cg0 t
      → Found cg0 cg t x v
      → (scale a x cg).1.max_reg_id ≤ e.max_reg_id
      → (w : ℕ) × (w ≈ a * v) × Found cg0 (scale a x cg).1 t (scale a x cg).0 w
  unfolding scale
  scale_lem a x v cg0 cg t r l h = elim (Bool-cases (a == 1)) [
    | inl q ↦
        let one : a ≡ 1 = (==_iff a 1).0 q in
        let m : a * v ≡ 1 * v = ap (λ t. t * v) one in rw (scale, q) (v, omega arith, l)
    | inr q ↦
        let room : suc (suc cg.max_reg_id) ≤ e.max_reg_id =
          unfold lc apply emit in rw (scale, q) at h in
        let w : mul32 v a ≈ a * v = unfold mul32 in omega (arith, mul_comm v a) in
        rw (scale, q) (mul32 v a, w, product_lem a x v cg0 cg t r l room)
  ]

  -- The sum before a group: none yet, or in a register.
  abbrev pub Summed : Option ℕ → CodeGen → State → ℕ → Type 0
  Summed none cg t v = v ≡ 0
  Summed (some a) cg t v = (1 ≤ a) × (a ≤ cg.max_reg_id) × (t.regs a ≡ v)

  pub add_sum_lem :
      (sum : Option ℕ) (y u v : ℕ) (cg0 cg : CodeGen) (t : State)
      → Ready e tmps cur s n words cg0 t
      → Summed sum cg0 t u
      → Found cg0 cg t y v
      → (add_sum sum y cg).1.max_reg_id ≤ e.max_reg_id
      → (w : ℕ) × (w ≈ u + v)
        × Found cg0 (add_sum sum y cg).1 t (add_sum sum y cg).0 w
        × ((sum ≡ none) ⊎ Ends e tmps cur s n words (add_sum sum y cg).1 (add_sum sum y cg).0 w)
  unfolding add_sum compute_binary
  add_sum_lem none y u v cg0 cg t r z l h = (v, omega arith, l, inl refl)
  add_sum_lem (some a) y u v cg0 cg t r (la, ha, ra) l h =
      let ready = Ready-after e tmps cur s n words r l.step in
      let room : suc cg.max_reg_id ≤ e.max_reg_id = unfold apply emit in h in
      let kept : l.step.after.regs a ≡ u = l.step.kept a ha ∙ ra in
      let w = add32 u v in
      let q : add32 (l.step.after.regs a) (l.step.after.regs y) ≡ w =
        ap (λ t. add32 t (l.step.after.regs y)) kept ∙ ap (add32 u) l.step.result in
      let (k, ends) =
        Leaves-emit e tmps cur s n words r l.step
          (apply_lem e tmps cur s BinaryCompute.add a y w cg l.step.after ready.runs room la
            (omega (arith, l.step.grows)) l.step.low l.step.high (ap some q))
          (unfold add32 in omega arith) in
      (w, unfold add32 in omega arith, k, inr ends)

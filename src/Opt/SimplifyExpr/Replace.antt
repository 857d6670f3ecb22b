-- ===== src/Opt/SimplifyExpr/Replace.antt =====
-- The replacement of src/ir/opt/simplify_expr.cpp: the code of `genIR` for the form that `getExpr` stores
-- for a register, in place of the instruction that writes it.
use helesta.Prelude.{
  ℕ, ◌+◌, ◌*◌, ◌%◌, ◌^◌, ◌≤◌, ◌≡◌, ap, ap₂, refl, subst, ◌∙◌, false, Option, none, some, List, [],
  ◌∷◌,
}
use helesta.Prelude.Word.{IsWord}
use helesta.Ir.Exec.{Instr, Env, State}
use helesta.Ir.Instr.{dest}
use helesta.Ir.CodeGen.{CodeGen}
use helesta.Opt.RegMap.{RegMap, total}
use helesta.Opt.AddExpr.{value}
use helesta.Opt.AddExpr.GenIr.{gen_ir}
use helesta.Opt.AddExpr.GenIr.Groups.{Words, InRange}
use helesta.Opt.AddExpr.GenIr.Correct.{Sets, gen_ir_correct}
use helesta.Opt.SimplifyExpr.{Expr, Exprs, visit_all}
use helesta.Opt.SimplifyExpr.Forms.{Holds, Block}
use helesta.Opt.SimplifyExpr.Sound.{visit_all_sound}

-- The two valuations give the registers of the form the same values.
abbrev pub Agree : (ℕ → ℕ) → (ℕ → ℕ) → RegMap → Type 0
Agree f g [] = Unit {0}
Agree f g ((x, _) ∷ cs) = (f x ≡ g x) × Agree f g cs

total-Agree : (f g : ℕ → ℕ) (cs : RegMap) → Agree f g cs → total f cs ≡ total g cs
unfolding total
total-Agree f g [] h = refl
total-Agree f g ((x, a) ∷ cs) (p, h) = ap₂ (λ u v. a * u + v) p (total-Agree f g cs h)

-- Where `visit_all` stores for the register `r` a form that has not gone bad, whose constant and coefficients are
-- words, and whose registers and `r` are from 1 to `n`, `gen_ir` gives code. If its new registers are not above
-- `max_reg_id`, then that code, run from a state in which the registers of the form have the values of a valuation,
-- gives `r` the value it has in the valuation and changes no other register up to `n`. The state and the valuation
-- are by words, the instructions of the block hold in the valuation, none of its operators reads the register it
-- writes, and `defs` gives instructions that write their registers and hold.
pub replace_correct :
    (e : Env) (tmps : ℕ → Option ℕ) (cur : ℕ) (s : State) (n : ℕ)
    → (words : (r : ℕ) → IsWord (s.regs r)) → (env : ℕ → ℕ) → ((r : ℕ) → IsWord (env r))
    → (defs : ℕ → Option Instr) (use_count : ℕ → ℕ)
    → ((r : ℕ) (i : Instr) → defs r ≡ some i → (dest i ≡ some r) × Holds e.unit env i)
    → (is : List Instr) (es : Exprs) (r : ℕ) (w : Expr) → Block e.unit env is
    → visit_all defs use_count is (λ _. none) ≡ some es
    → es r ≡ some w
    → w.add.bad ≡ false
    → Agree s.regs env w.add.cs
    → IsWord w.add.c
    → Words w.add.cs
    → InRange n w.add.cs
    → 1 ≤ r
    → r ≤ n
    → (cg : CodeGen) × (gen_ir w.add r n ≡ some cg)
      × (cg.max_reg_id ≤ e.max_reg_id → Sets e tmps cur s n words cg.instrs r (env r))
unfolding value
replace_correct e tmps cur s n words env env_words defs use_count right is es r w b h k good agree
      wc ws named lr hr =
    let sound : value env w.add ≡ env r =
      visit_all_sound e.unit env env_words defs use_count right is es r w b h k good in
    let same : value s.regs w.add ≡ value env w.add =
      ap (λ t. (w.add.c + t) % 2 ^ 32) (total-Agree s.regs env w.add.cs agree) in
    let (cg, q, runs) = gen_ir_correct e tmps cur s n words w.add r wc ws named lr hr in
    (cg, q, λ room. subst (Sets e tmps cur s n words cg.instrs r) (same ∙ sound) (runs room))

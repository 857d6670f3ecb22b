-- ===== src/Ast/Expr/Correct.antt =====
-- The instructions that src/ast/ast_visitor.cpp emits for a constant expression, run, against the
-- constant.
mod Parts
use helesta.Prelude.{
  ℕ, if◌then◌else◌, ◌⊎◌, update_self, update_lt, suc, ◌≤◌, ◌≡◌, refl, sym, ap, subst, ◌∙◌, false,
  Option, none, some, List, ◌++◌, arith, ◌>>=◌, inl, inr,
}
use helesta.Prelude.Word.{IsWord}
use helesta.Ir.Scalar.{FloatUnit, int_min, minus_one}
use helesta.Ir.Scalar.Laws.{IsWide}
use helesta.Ir.Op.{ScalarType}
use helesta.Ir.Exec.{Env, State, Instr, steps}
use helesta.Ir.Exec.Lines.{wrote, Line-load_const, steps-Line}
use helesta.Ast.InitValue.{
  Result, ok, fail, CompileTimeValueAny, int, float, is_float, value_int, value_float, eval_bop,
}
use helesta.Ast.Expr.{Sign, Operator, Expr, number, unary, binary, rev, bop}
use helesta.Ast.Expr.Const.{const_value, const_sign, >>=-eq-ok}
use helesta.Ast.Expr.Lower.{IrValue, Emitted, lower, get_value, literal_type, word, join}
use helesta.Ast.Expr.Converts.{
  Leaves, IsPlaced, Gets, get_value-Gets, is_reg_of, Leaves-then, convert,
}
use Parts.{Signs, sign-Signs, Operates, operator-Operates}

module _ (m : FloatUnit) where
  -- `!` stands on integers only, and `%` does not meet the operands at which the host traps.
  abbrev pub IsPlain : Expr → Type 0
  IsPlain (number v) = IsWord (word v)
  IsPlain (unary Sign.bang x) =
      IsPlain x × ((v : CompileTimeValueAny) → const_value m x ≡ ok v → is_float v ≡ false)
  IsPlain (unary _ x) = IsPlain x
  IsPlain (binary Operator.percent l r) =
      IsPlain l
      × IsPlain r
      × ¬ ((const_value m l ≡ ok (int int_min)) × (const_value m r ≡ ok (int minus_one)))
  IsPlain (binary _ l r) = IsPlain l × IsPlain r

IsPlain-unary :
    (m : FloatUnit) (op : Sign) (x : Expr)
    → IsPlain m (unary op x)
    → IsPlain m x
      × ((op ≡ Sign.bang) → (v : CompileTimeValueAny) → const_value m x ≡ ok v → is_float v ≡ false)
IsPlain-unary m Sign.plus x p = (p, λ b. cc)
IsPlain-unary m Sign.minus x p = (p, λ b. cc)
IsPlain-unary m Sign.bang x p = (p.0, λ b. p.1)

IsPlain-binary :
    (m : FloatUnit) (op : Operator) (l r : Expr)
    → IsPlain m (binary op l r)
    → IsPlain m l
      × IsPlain m r
      × ((op ≡ Operator.percent)
          → ¬ ((const_value m l ≡ ok (int int_min)) × (const_value m r ≡ ok (int minus_one))))
IsPlain-binary m Operator.percent l r p = (p.0, p.1, λ o. p.2)
IsPlain-binary m Operator.plus l r p = (p.0, p.1, λ o. cc)
IsPlain-binary m _ l r p = (p.0, p.1, λ o. cc)

scalar :
    (u : CompileTimeValueAny)
    → (literal_type u ≡ ScalarType.int) ⊎ (literal_type u ≡ ScalarType.float)
scalar (int w) = inl refl
scalar (float w) = inr refl

joined :
    (u w : CompileTimeValueAny)
    → let type = join (literal_type u) (literal_type w) in
      (type ≡ ScalarType.int) ⊎ (type ≡ ScalarType.float)
joined (int a) (int b) = inl refl
joined (int a) (float b) = inr refl
joined (float a) (int b) = inr refl
joined (float a) (float b) = inr refl

module _ (e : Env) (tmps : ℕ → Option ℕ) (cur : ℕ) (wide : IsWide e.unit) where
  -- The visitor emits code for `x` that leaves the bits of `v` in the register it names.
  pub record Lowered (x : Expr) (v : CompileTimeValueAny) (n : ℕ) : Type 0 where
    pub out : Emitted
    pub emits : lower x n ≡ some out
    pub placed : IsPlaced e tmps cur n out
    pub typed : out.value.type ≡ literal_type v
    pub fits : IsWord (word v)
    pub runs :
        (s : State)
        → out.max_reg_id ≤ e.max_reg_id
        → Leaves e tmps cur n out.instrs out.value.reg (word v) s

  convert_self : (u : CompileTimeValueAny) → word (convert e tmps cur (literal_type u) u) ≡ word u
  unfolding value_int value_float
  convert_self (int w) = refl
  convert_self (float w) = refl

  number-Lowered : (v : CompileTimeValueAny) (n : ℕ) → IsWord (word v) → Lowered (number v) v n
  unfolding lower
  number-Lowered v n w = record {
    out = _;
    emits = refl;
    placed = record { grows = omega arith; above = omega arith; below = omega arith };
    typed = refl;
    fits = w;
    runs = λ s m. record {
      after = wrote s (suc n) (word v);
      line =
          Line-load_const e tmps cur (literal_type v) (suc n) (word v) s
            (is_reg_of e tmps cur (suc n) (omega arith) m);
      result = update_self s.regs (suc n) (word v);
      kept = λ y hy. update_lt s.regs (suc n) (word v) y (omega arith);
    };
  }

  unary-Lowered :
      (op : Sign) (x : Expr) (u v : CompileTimeValueAny) (n : ℕ)
      → Lowered x u n
      → ((op ≡ Sign.bang) → is_float u ≡ false)
      → const_sign e.unit op u ≡ ok v
      → Lowered (unary op x) v n
  unfolding lower
  unary-Lowered op x u v n rhs plain h =
      let p = rhs.placed in
      let g : Gets e tmps cur (literal_type u) u rhs.out.value rhs.out.max_reg_id =
        get_value-Gets e tmps cur rhs.out.max_reg_id rhs.out.value u (literal_type u) (scalar u)
          rhs.typed p.above p.below in
      let q = g.placed in
      let k : Signs e tmps cur wide op u v g.out.value.reg g.out.max_reg_id =
        sign-Signs e tmps cur wide op u v g.out.value.reg g.out.max_reg_id q.above q.below rhs.fits
          plain h in
      let z = k.placed in
      record {
        out = record k.out { instrs = rhs.out.instrs ++ (g.out.instrs ++ k.out.instrs) };
        emits = simp (rhs.emits, rhs.typed, k.same_type, g.emits, k.emits);
        placed = record { grows = omega arith; above = z.above; below = z.below };
        typed = k.typed;
        fits = k.fits;
        runs = λ s m.
            let l = rhs.runs s (omega arith) in
            let j = g.runs l.after (omega arith) l.result in
            let i = k.runs j.after m (j.result ∙ convert_self u) in
            Leaves-then e tmps cur p.grows l (Leaves-then e tmps cur q.grows j i);
      }

  binary-Lowered :
      (op : Operator) (x y : Expr) (u w v : CompileTimeValueAny) (n : ℕ)
      → (lhs : Lowered x u n) → Lowered y w lhs.out.max_reg_id
      → ((op ≡ Operator.percent) → ¬ ((u ≡ int int_min) × (w ≡ int minus_one)))
      → (if rev op then eval_bop e.unit (bop op) w u else eval_bop e.unit (bop op) u w) ≡ ok v
      → Lowered (binary op x y) v n
  unfolding lower
  binary-Lowered op x y u w v n lhs rhs safe h =
      let type = join (literal_type u) (literal_type w) in
      let p = lhs.placed in
      let q = rhs.placed in
      let a : Gets e tmps cur type u lhs.out.value rhs.out.max_reg_id =
        get_value-Gets e tmps cur rhs.out.max_reg_id lhs.out.value u type (joined u w) lhs.typed
          p.above (omega arith) in
      let r = a.placed in
      let b : Gets e tmps cur type w rhs.out.value a.out.max_reg_id =
        get_value-Gets e tmps cur a.out.max_reg_id rhs.out.value w type (joined u w) rhs.typed
          q.above (omega arith) in
      let t = b.placed in
      let k : Operates e tmps cur wide op type u w v a.out.value.reg b.out.value.reg
          b.out.max_reg_id =
        operator-Operates e tmps cur wide op u w v a.out.value.reg b.out.value.reg b.out.max_reg_id
          r.above t.above (omega arith) t.below lhs.fits rhs.fits safe h in
      let z = k.placed in
      record {
        out = record k.out {
          instrs =
              lhs.out.instrs
              ++ (rhs.out.instrs ++ (a.out.instrs ++ (b.out.instrs ++ k.out.instrs)));
        };
        emits = simp (lhs.emits, rhs.emits, lhs.typed, rhs.typed, a.emits, b.emits, k.emits);
        placed = record { grows = omega arith; above = z.above; below = z.below };
        typed = k.typed;
        fits = k.fits;
        runs = λ s m.
            let l1 = lhs.runs s (omega arith) in
            let l2 = rhs.runs l1.after (omega arith) in
            let l3 = a.runs l2.after (omega arith) (l2.kept _ p.below ∙ l1.result) in
            let l4 = b.runs l3.after (omega arith) (l3.kept _ q.below ∙ l2.result) in
            let l5 = k.runs l4.after m (l4.kept _ r.below ∙ l3.result) l4.result in
            Leaves-then e tmps cur p.grows l1 (
              Leaves-then e tmps cur q.grows l2
                (Leaves-then e tmps cur r.grows l3 (Leaves-then e tmps cur t.grows l4 l5)));
      }

  pub lower-Lowered :
      (x : Expr) (v : CompileTimeValueAny) (n : ℕ)
      → IsPlain e.unit x
      → const_value e.unit x ≡ ok v
      → Lowered x v n
  unfolding const_value
  lower-Lowered (number w) v n plain h =
      let t : w ≡ v = ground arith in
      subst (λ y. Lowered (number w) y n) t (number-Lowered w n plain)
  lower-Lowered (unary op x) v n plain h =
      let (u, hu, hv) = >>=-eq-ok (const_value e.unit x) _ h in
      let p = IsPlain-unary e.unit op x plain in
      unary-Lowered op x u v n (lower-Lowered x u n p.0 hu) (λ b. p.1 b u hu) hv
  lower-Lowered (binary op x y) v n plain h =
      let (u, hu, hr) = >>=-eq-ok (const_value e.unit x) _ h in
      let (w, hw, hv) = >>=-eq-ok (const_value e.unit y) _ hr in
      let p = IsPlain-binary e.unit op x y plain in
      let lhs = lower-Lowered x u n p.0 hu in
      binary-Lowered op x y u w v n lhs (lower-Lowered y w lhs.out.max_reg_id p.1 hw)
        (λ o t. p.2 o (hu ∙ ap ok t.0, hw ∙ ap ok t.1)) hv

  -- A constant expression has the value that its code computes: where the compile-time mode gives
  -- `v` for `x`, the normal mode emits code for `x`, whose value has the type of `v`, and any block
  -- that starts with that code goes on behind it with the bits of `v` in the register of the value
  -- and with the registers that were in use before unchanged. It is assumed that the float unit
  -- gives 32 bits, that literals are 32 bits, that `!` is applied to integers only, that `%` is not
  -- applied to INT_MIN and -1, and that the function has the registers that the code names.
  pub lower_correct :
      (x : Expr) (v : CompileTimeValueAny) (n : ℕ)
      → IsPlain e.unit x
      → const_value e.unit x ≡ ok v
      → (out : Emitted) × (lower x n ≡ some out)
        × (out.value.type ≡ literal_type v)
        × ((s : State) (rest : List Instr)
            → out.max_reg_id ≤ e.max_reg_id
            → (t : State) × (steps e tmps cur (out.instrs ++ rest) s ≡ steps e tmps cur rest t)
              × (t.regs out.value.reg ≡ word v)
              × ((r : ℕ) → r ≤ n → t.regs r ≡ s.regs r))
  lower_correct x v n plain h =
      let k = lower-Lowered x v n plain h in
      (
        k.out,
        k.emits,
        k.typed,
        λ s rest m.
            let l = k.runs s m in (l.after, steps-Line e tmps cur rest l.line, l.result, l.kept),
      )

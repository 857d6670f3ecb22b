-- ===== src/Ast/Expr/Correct/Parts.antt =====
-- The instruction that an operator adds behind its converted operands.
use helesta.Prelude.{
  ℕ, suc, ◌≤◌, ◌≡◌, refl, sym, ap, subst, ◌==◌, ◌≢◌, ◌∙◌, true, false, Option, some, [], ◌∷◌, arith,
  update_self, update_lt, inl, inr, Bool-cases, if◌then◌else◌,
}
use helesta.Prelude.Word.{IsWord, neg32, of_bool}
use helesta.Ir.Scalar.{
  int_min, minus_one, UnaryCompute, BinaryCompute, compute_unary, compute_binary,
}
use helesta.Ir.Scalar.Laws.{IsWide}
use helesta.Ir.Op.{ScalarType, unary_op}
use helesta.Ir.Exec.{Instr, Env, State}
use helesta.Ir.Exec.Lines.{done, wrote, Line-unary_op, Line-binary_op}
use helesta.Ast.InitValue.{
  ok, CompileTimeValueAny, int, float, is_float, eval_uop, eval_bop, value_int, value_float,
}
use helesta.Ast.InitValue.Run.{run_neg}
use helesta.Ast.Expr.{Sign, Operator, rev, is_test, bop}
use helesta.Ast.Expr.Const.{const_sign}
use helesta.Ast.Expr.Lower.{
  Emitted, lower_sign, lower_operator, emit_unary, sign_type, literal_type, word, join,
}
use helesta.Ast.Expr.Converts.{Leaves, IsPlaced, is_reg_of, convert}
use helesta.Ast.Expr.Agree.{Same, int_Same, float_Same, TrapsRem}

neg32-IsWord : (a : ℕ) → IsWord (neg32 a)
unfolding neg32
neg32-IsWord a = omega arith

rev_ne : (op : Operator) → rev op ≡ true → op ≢ Operator.percent
rev_ne op r h = ground arith

no_trap :
    (op : Operator) (a b : ℕ)
    → ((op ≡ Operator.percent) → ¬ ((int a ≡ int int_min) × (int b ≡ int minus_one)))
    → ¬ TrapsRem op a b
no_trap Operator.percent a b safe h = safe refl (ap int h.0, ap int h.1)
no_trap Operator.plus a b safe h = h
no_trap _ a b safe h = h

module _ (e : Env) (tmps : ℕ → Option ℕ) (cur : ℕ) (wide : IsWide e.unit) where
  -- What a sign emits for a register that holds `x`, where the constant is `v`.
  pub record Signs (op : Sign) (x v : CompileTimeValueAny) (r n : ℕ) : Type 0 where
    pub out : Emitted
    pub emits : lower_sign op (literal_type x) r n ≡ some out
    pub same_type : sign_type op (literal_type x) ≡ literal_type x
    pub placed : IsPlaced e tmps cur n out
    pub typed : out.value.type ≡ literal_type v
    pub fits : IsWord (word v)
    pub runs :
        (s : State)
        → out.max_reg_id ≤ e.max_reg_id
        → s.regs r ≡ word x
        → Leaves e tmps cur n out.instrs out.value.reg (word v) s

  module _ (x v : CompileTimeValueAny) (r n : ℕ) (lo : 1 ≤ r) (hi : r ≤ n) where
    emitted :
        (op : Sign) (code code' : UnaryCompute)
        → lower_sign op (literal_type x) r n ≡ emit_unary (literal_type x) code r n
        → unary_op (literal_type x) code ≡ some code'
        → sign_type op (literal_type x) ≡ literal_type x
        → literal_type x ≡ literal_type v
        → IsWord (word v)
        → compute_unary e.unit code' (word x) ≡ word v
        → Signs op x v r n
    emitted op code code' l u st t f c = record {
      out = record {
        value = record { type = literal_type x; reg = suc n };
        max_reg_id = suc n;
        instrs = Instr.unary_op (suc n) r code' ∷ [];
      };
      emits = l ∙ rw u refl;
      same_type = st;
      placed = record { grows = omega arith; above = omega arith; below = omega arith };
      typed = t;
      fits = f;
      runs = λ s m hs. record {
        after = wrote s (suc n) (compute_unary e.unit code' (s.regs r));
        line =
            Line-unary_op e tmps cur (suc n) r code' s
              (is_reg_of e tmps cur (suc n) (omega arith) m)
              (is_reg_of e tmps cur r lo (omega arith));
        result = update_self s.regs (suc n) _ ∙ ap (λ t. compute_unary e.unit code' t) hs ∙ c;
        kept = λ y hy. update_lt s.regs (suc n) _ y (omega arith);
      };
    }

  pub sign-Signs :
      (op : Sign) (x v : CompileTimeValueAny) (r n : ℕ)
      → 1 ≤ r
      → r ≤ n
      → IsWord (word x)
      → ((op ≡ Sign.bang) → is_float x ≡ false)
      → const_sign e.unit op x ≡ ok v
      → Signs op x v r n
  unfolding lower_sign const_sign eval_uop compute_unary unary_op
  sign-Signs Sign.plus x v r n lo hi wx plain h =
      let t : x ≡ v = ground arith in
      record {
        out = record {
          value = record { type = literal_type x; reg = r };
          max_reg_id = n;
          instrs = [];
        };
        emits = refl;
        same_type = refl;
        placed = record { grows = omega arith; above = lo; below = hi };
        typed = ap literal_type t;
        fits = subst (λ y. IsWord (word y)) t wx;
        runs = λ s m hs. record {
          after = s;
          line = done;
          result = hs ∙ ap word t;
          kept = λ y hy. refl;
        };
      }
  sign-Signs Sign.minus (int a) v r n lo hi wx plain h =
      let t : v ≡ int (neg32 a) = run_neg a wx h in
      emitted (int a) v r n lo hi Sign.minus UnaryCompute.neg UnaryCompute.neg refl refl refl
        (ap literal_type (sym t)) (subst (λ y. IsWord (word y)) (sym t) (neg32-IsWord a))
        (ap word (sym t))
  sign-Signs Sign.minus (float a) v r n lo hi wx plain h =
      let t : float (e.unit.negate a) ≡ v = ground arith in
      emitted (float a) v r n lo hi Sign.minus UnaryCompute.neg UnaryCompute.fneg refl refl refl
        (ap literal_type t) (subst (λ y. IsWord (word y)) t (wide.negate_word a)) (ap word t)
  sign-Signs Sign.bang (int a) v r n lo hi wx plain h =
      let t : int (of_bool (a == 0)) ≡ v = ground arith in
      emitted (int a) v r n lo hi Sign.bang UnaryCompute.lnot UnaryCompute.lnot refl refl refl
        (ap literal_type t) (subst (λ y. IsWord (word y)) t (ground arith)) (ap word t)
  sign-Signs Sign.bang (float a) v r n lo hi wx plain h = absurd (ground (arith, plain refl))

  -- What an operator emits for two registers that hold operands of one type.
  pub record Operates (op : Operator) (type : ScalarType) (x y v : CompileTimeValueAny) (a b n : ℕ)
      : Type 0 where
    pub out : Emitted
    pub emits : lower_operator op type a b n ≡ some out
    pub placed : IsPlaced e tmps cur n out
    pub typed : out.value.type ≡ literal_type v
    pub fits : IsWord (word v)
    pub runs :
        (s : State)
        → out.max_reg_id ≤ e.max_reg_id
        → s.regs a ≡ word (convert e tmps cur type x)
        → s.regs b ≡ word (convert e tmps cur type y)
        → Leaves e tmps cur n out.instrs out.value.reg (word v) s

  module _ (op : Operator) (a b n : ℕ) (la : 1 ≤ a) (lb : 1 ≤ b) (ha : a ≤ n) (hb : b ≤ n) where
    runs_binary :
        (code : BinaryCompute) (c d w : ℕ) (s : State)
        → 1 ≤ c
        → c ≤ n
        → 1 ≤ d
        → d ≤ n
        → suc n ≤ e.max_reg_id
        → compute_binary e.unit code (s.regs c) (s.regs d) ≡ some w
        → Leaves e tmps cur n (Instr.binary_op (suc n) c d code ∷ []) (suc n) w s
    runs_binary code c d w s lc hc ld hd m k = record {
      after = wrote s (suc n) w;
      line =
          Line-binary_op e tmps cur (suc n) c d w code s
            (is_reg_of e tmps cur (suc n) (omega arith) m) (is_reg_of e tmps cur c lc (omega arith))
            (is_reg_of e tmps cur d ld (omega arith)) k;
      result = update_self s.regs (suc n) w;
      kept = λ y hy. update_lt s.regs (suc n) w y (omega arith);
    }

    -- The operands in the order in which the operator takes them.
    operates :
        (type : ScalarType) (x y v : CompileTimeValueAny)
        → (rev op ≡ false
            → Same e.unit type op
                (word (convert e tmps cur type x))
                (word (convert e tmps cur type y))
                v)
        → (rev op ≡ true
            → Same e.unit type op
                (word (convert e tmps cur type y))
                (word (convert e tmps cur type x))
                v)
        → Operates op type x y v a b n
    unfolding lower_operator
    operates type x y v direct swapped = elim (Bool-cases (rev op)) [
      | inl r ↦
          let k = swapped r in
          record {
            out = record {
              value = record { type = if is_test op then ScalarType.int else type; reg = suc n };
              max_reg_id = suc n;
              instrs = Instr.binary_op (suc n) b a k.code ∷ [];
            };
            emits = rw (k.emitted, r) refl;
            placed = record { grows = omega arith; above = omega arith; below = omega arith };
            typed = sym k.typed;
            fits = k.fits;
            runs = λ s m hx hy.
                runs_binary k.code b a (word v) s lb hb la ha m (rw (hx, hy) k.computed);
          }
      | inr r ↦
          let k = direct r in
          record {
            out = record {
              value = record { type = if is_test op then ScalarType.int else type; reg = suc n };
              max_reg_id = suc n;
              instrs = Instr.binary_op (suc n) a b k.code ∷ [];
            };
            emits = rw (k.emitted, r) refl;
            placed = record { grows = omega arith; above = omega arith; below = omega arith };
            typed = sym k.typed;
            fits = k.fits;
            runs = λ s m hx hy.
                runs_binary k.code a b (word v) s la ha lb hb m (rw (hx, hy) k.computed);
          }
    ]

  -- Both operands brought to the common type, as both modes do it.
  eval-Same :
      (op : Operator) (x y v : CompileTimeValueAny)
      → IsWord (word x)
      → IsWord (word y)
      → ((op ≡ Operator.percent) → ¬ ((x ≡ int int_min) × (y ≡ int minus_one)))
      → eval_bop e.unit (bop op) x y ≡ ok v
      → let type = join (literal_type x) (literal_type y) in
        Same e.unit type op (word (convert e tmps cur type x)) (word (convert e tmps cur type y)) v
  unfolding eval_bop value_int value_float
  eval-Same op (int a) (int b) v wx wy safe h = int_Same e.unit op a b wx wy (no_trap op a b safe) h
  eval-Same op (int a) (float b) v wx wy safe h = float_Same e.unit wide op _ _ h
  eval-Same op (float a) (int b) v wx wy safe h = float_Same e.unit wide op _ _ h
  eval-Same op (float a) (float b) v wx wy safe h = float_Same e.unit wide op _ _ h

  eval-Same_swapped :
      (op : Operator) (x y v : CompileTimeValueAny)
      → IsWord (word x)
      → IsWord (word y)
      → op ≢ Operator.percent
      → eval_bop e.unit (bop op) y x ≡ ok v
      → let type = join (literal_type x) (literal_type y) in
        Same e.unit type op (word (convert e tmps cur type y)) (word (convert e tmps cur type x)) v
  eval-Same_swapped op (int a) (int b) v wx wy ne h =
      eval-Same op (int b) (int a) v wy wx (λ p. absurd (ne p)) h
  eval-Same_swapped op (int a) (float b) v wx wy ne h =
      eval-Same op (float b) (int a) v wy wx (λ p. absurd (ne p)) h
  eval-Same_swapped op (float a) (int b) v wx wy ne h =
      eval-Same op (int b) (float a) v wy wx (λ p. absurd (ne p)) h
  eval-Same_swapped op (float a) (float b) v wx wy ne h =
      eval-Same op (float b) (float a) v wy wx (λ p. absurd (ne p)) h

  pub operator-Operates :
      (op : Operator) (x y v : CompileTimeValueAny) (a b n : ℕ)
      → 1 ≤ a
      → 1 ≤ b
      → a ≤ n
      → b ≤ n
      → IsWord (word x)
      → IsWord (word y)
      → ((op ≡ Operator.percent) → ¬ ((x ≡ int int_min) × (y ≡ int minus_one)))
      → (if rev op then eval_bop e.unit (bop op) y x else eval_bop e.unit (bop op) x y) ≡ ok v
      → Operates op (join (literal_type x) (literal_type y)) x y v a b n
  operator-Operates op x y v a b n la lb ha hb wx wy safe h =
      operates op a b n la lb ha hb _ x y v (λ r. eval-Same op x y v wx wy safe (rw r at h))
        (λ r. eval-Same_swapped op x y v wx wy (rev_ne op r) (rw r at h))

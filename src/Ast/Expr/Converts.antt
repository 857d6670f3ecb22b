-- ===== src/Ast/Expr/Converts.antt =====
-- `get_value` of src/ast/ast_visitor.cpp against `value<Scalar>` of src/ast/init_value.cpp.
use helesta.Prelude.{
  ℕ, suc, ◌≤◌, ◌≡◌, refl, sym, ap, ◌∙◌, update_self, update_lt, true, Option, some, ◌⊎◌, List, [],
  ◌∷◌, ◌++◌, arith,
}
use helesta.Ir.Scalar.{UnaryCompute, compute_unary}
use helesta.Ir.Op.{ScalarType}
use helesta.Ir.Exec.{Instr, Env, State, is_reg}
use helesta.Ir.Exec.Lines.{Line, done, wrote, Line-unary_op, Line-append}
use helesta.Ast.InitValue.{CompileTimeValueAny, int, float, value_int, value_float}
use helesta.Ast.Expr.Lower.{IrValue, Emitted, get_value, literal_type, word}

module _ (e : Env) (tmps : ℕ → Option ℕ) (cur : ℕ) where
  -- Run from `s`, the instructions leave `w` in the register and the registers up to `n` alone.
  pub record Leaves (n : ℕ) (is : List Instr) (reg w : ℕ) (s : State) : Type 0 where
    pub after : State
    pub line : Line e tmps cur is s after
    pub result : after.regs reg ≡ w
    pub kept : (x : ℕ) → x ≤ n → after.regs x ≡ s.regs x

  -- The register of `o` lies between the first and the last that are in use.
  pub record IsPlaced (n : ℕ) (o : Emitted) : Type 0 where
    pub grows : n ≤ o.max_reg_id
    pub above : 1 ≤ o.value.reg
    pub below : o.value.reg ≤ o.max_reg_id

  pub is_reg_of : (x : ℕ) → 1 ≤ x → x ≤ e.max_reg_id → is_reg e x ≡ true
  is_reg_of x a b = ground arith

  abbrev pub convert : ScalarType → CompileTimeValueAny → CompileTimeValueAny
  convert ScalarType.float v = float (value_float e.unit v)
  convert _ v = int (value_int e.unit v)

  -- What `get_value` emits for a value at a scalar type.
  pub record Gets (type : ScalarType) (v : CompileTimeValueAny) (r : IrValue) (n : ℕ) : Type 0 where
    pub out : Emitted
    pub emits : get_value type r n ≡ some out
    pub placed : IsPlaced n out
    pub typed : out.value.type ≡ type
    pub runs :
        (s : State)
        → out.max_reg_id ≤ e.max_reg_id
        → s.regs r.reg ≡ word v
        → Leaves n out.instrs out.value.reg (word (convert type v)) s

  keeps :
      (n : ℕ) (r : IrValue) (v : CompileTimeValueAny) (type : ScalarType)
      → type ≡ r.type
      → 1 ≤ r.reg
      → r.reg ≤ n
      → word (convert type v) ≡ word v
      → get_value type r n ≡ some (record { value = r; max_reg_id = n; instrs = [] })
      → Gets type v r n
  keeps n r v type t lo hi w h = record {
    out = record { value = r; max_reg_id = n; instrs = [] };
    emits = h;
    placed = record { grows = omega arith; above = lo; below = hi };
    typed = sym t;
    runs = λ s m hs. record { after = s; line = done; result = hs ∙ sym w; kept = λ x hx. refl };
  }

  converts :
      (n : ℕ) (r : IrValue) (v : CompileTimeValueAny) (type : ScalarType) (op : UnaryCompute)
      → 1 ≤ r.reg
      → r.reg ≤ n
      → compute_unary e.unit op (word v) ≡ word (convert type v)
      → get_value type r n
        ≡ some (record {
          value = record { type = type; reg = suc n };
          max_reg_id = suc n;
          instrs = Instr.unary_op (suc n) r.reg op ∷ [];
        })
      → Gets type v r n
  converts n r v type op lo hi w h = record {
    out = _;
    emits = h;
    placed = record { grows = omega arith; above = omega arith; below = omega arith };
    typed = refl;
    runs = λ s m hs. record {
      after = wrote s (suc n) (compute_unary e.unit op (s.regs r.reg));
      line =
          Line-unary_op e tmps cur (suc n) r.reg op s (is_reg_of (suc n) (omega arith) m)
            (is_reg_of r.reg lo (omega arith));
      result = update_self s.regs (suc n) _ ∙ ap (λ t. compute_unary e.unit op t) hs ∙ w;
      kept = λ x hx. update_lt s.regs (suc n) _ x (omega arith);
    };
  }

  pub get_value-Gets :
      (n : ℕ) (r : IrValue) (v : CompileTimeValueAny) (type : ScalarType)
      → (type ≡ ScalarType.int) ⊎ (type ≡ ScalarType.float)
      → r.type ≡ literal_type v
      → 1 ≤ r.reg
      → r.reg ≤ n
      → Gets type v r n
  unfolding get_value value_int value_float compute_unary
  get_value-Gets n r (int w) ScalarType.int t h lo hi =
      keeps n r (int w) ScalarType.int (sym h) lo hi refl (simp (h, get_value))
  get_value-Gets n r (float w) ScalarType.int t h lo hi =
      converts n r (float w) ScalarType.int UnaryCompute.f2i lo hi refl (simp (h, get_value))
  get_value-Gets n r (int w) ScalarType.float t h lo hi =
      converts n r (int w) ScalarType.float UnaryCompute.i2f lo hi refl (simp (h, get_value))
  get_value-Gets n r (float w) ScalarType.float t h lo hi =
      keeps n r (float w) ScalarType.float (sym h) lo hi refl (simp (h, get_value))
  get_value-Gets n r v ScalarType.void t h lo hi = absurd (ground arith)
  get_value-Gets n r v ScalarType.char t h lo hi = absurd (ground arith)

  -- One stretch of instructions behind another.
  pub Leaves-then :
      {n n' : ℕ} {is js : List Instr} {r w q u : ℕ} {s : State}
      → n ≤ n'
      → (l : Leaves n is r w s) → Leaves n' js q u l.after
      → Leaves n (is ++ js) q u s
  Leaves-then h l k = record {
    after = k.after;
    line = Line-append e tmps cur l.line k.line;
    result = k.result;
    kept = λ x hx. k.kept x (omega arith) ∙ l.kept x hx;
  }

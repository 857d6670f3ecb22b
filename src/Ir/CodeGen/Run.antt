-- ===== src/Ir/CodeGen/Run.antt =====
-- What the instructions that `CodeGen` (src/ir/ir.hpp) emits leave in the registers.
use helesta.Prelude.{
  ℕ, suc, ◌≤◌, ◌≡◌, refl, sym, ap, subst, ◌∙◌, true, Option, some, List, [], ◌∷◌, ◌++◌, arith,
  update_self, update_lt, ◌==◌, ==_iff,
}
use helesta.Ir.Op.{ScalarType}
use helesta.Ir.Scalar.{UnaryCompute, BinaryCompute, compute_unary, compute_binary}
use helesta.Ir.Exec.{Instr, Env, State, is_reg}
use helesta.Ir.Exec.Lines.{Line, wrote, Line-append, Line-load_const, Line-unary_op, Line-binary_op}
use helesta.Ir.Instr.{dest, with_dest}
use helesta.Ir.CodeGen.{CodeGen, emit, lc, negate, apply, redirect, set_last_def}

module _ (e : Env) (tmps : ℕ → Option ℕ) (cur : ℕ) (s : State) where
  -- The instructions so far lead to `t`.
  abbrev pub Runs : CodeGen → State → Type 0
  Runs cg t = Line e tmps cur cg.instrs s t

  -- The last instruction writes `v`, which does not depend on the register it writes, here `a`.
  pub record LastDef (cg : CodeGen) (before : State) (a v : ℕ) : Type 0 where
    pub front : List Instr
    pub make : ℕ → Instr
    pub shape : cg.instrs ≡ front ++ (make a ∷ [])
    pub line : Line e tmps cur front s before
    pub writes :
        (d : ℕ) → is_reg e d ≡ true → Line e tmps cur (make d ∷ []) before (wrote before d v)
    pub dest_of : (d : ℕ) → dest (make d) ≡ some d
    pub redirects : (r d : ℕ) → with_dest r (make d) ≡ make r

  -- From `t` the code of `cg` goes on to code that leaves `v` in `a`, and keeps what was there.
  pub record Step (cg cg' : CodeGen) (t : State) (a v : ℕ) : Type 0 where
    pub after : State
    pub runs : Runs cg' after
    pub result : after.regs a ≡ v
    pub kept : (x : ℕ) → x ≤ cg.max_reg_id → after.regs x ≡ t.regs x
    pub grows : cg.max_reg_id ≤ cg'.max_reg_id
    pub low : 1 ≤ a
    pub high : a ≤ cg'.max_reg_id

  new-is_reg : (n : ℕ) → suc n ≤ e.max_reg_id → is_reg e (suc n) ≡ true
  new-is_reg n h = ground arith

  pub old-is_reg : (n : ℕ) → 1 ≤ n → n ≤ e.max_reg_id → is_reg e n ≡ true
  old-is_reg n l h = ground arith

  -- What an instruction does in `t`, whichever register it writes.
  abbrev Writes : (ℕ → Instr) → State → ℕ → Type 0
  Writes make t v = (d : ℕ) → is_reg e d ≡ true → Line e tmps cur (make d ∷ []) t (wrote t d v)

  abbrev pub Emitted : CodeGen → State → ℕ × CodeGen → ℕ → Type 0
  Emitted cg t out v = Step cg out.1 t out.0 v × LastDef out.1 t out.0 v

  emit_lem :
      (make : ℕ → Instr) (cg : CodeGen) (t : State) (v : ℕ)
      → Runs cg t
      → suc cg.max_reg_id ≤ e.max_reg_id
      → Writes make t v
      → ((d : ℕ) → dest (make d) ≡ some d)
      → ((r d : ℕ) → with_dest r (make d) ≡ make r)
      → Emitted cg t (emit make cg) v
  unfolding emit
  emit_lem make cg t v r h w d k =
      let n = suc cg.max_reg_id in
      (
        record {
          after = wrote t n v;
          runs = Line-append e tmps cur r (w n (new-is_reg cg.max_reg_id h));
          result = update_self t.regs n v;
          kept = λ x hx. update_lt t.regs n v x (omega arith);
          grows = omega arith;
          low = omega arith;
          high = omega arith;
        },
        record {
          front = cg.instrs;
          make = make;
          shape = refl;
          line = r;
          writes = w;
          dest_of = d;
          redirects = k;
        },
      )

  pub lc_lem :
      (v : ℕ) (cg : CodeGen) (t : State)
      → Runs cg t
      → suc cg.max_reg_id ≤ e.max_reg_id
      → Emitted cg t (lc v cg) v
  unfolding lc dest with_dest
  lc_lem v cg t r h =
      emit_lem (λ d. Instr.load_const ScalarType.int d v) cg t v r h
        (λ d hd. Line-load_const e tmps cur ScalarType.int d v t hd) (λ d. refl) (λ r d. refl)

  pub negate_lem :
      (a : ℕ) (cg : CodeGen) (t : State)
      → Runs cg t
      → suc cg.max_reg_id ≤ e.max_reg_id
      → 1 ≤ a
      → a ≤ cg.max_reg_id
      → Emitted cg t (negate a cg) (compute_unary e.unit UnaryCompute.neg (t.regs a))
  unfolding negate dest with_dest
  negate_lem a cg t r h la ha =
      let ra : is_reg e a ≡ true = old-is_reg a la (omega arith) in
      emit_lem (λ d. Instr.unary_op d a UnaryCompute.neg) cg t _ r h
        (λ d hd. Line-unary_op e tmps cur d a UnaryCompute.neg t hd ra) (λ d. refl) (λ r d. refl)

  pub apply_lem :
      (op : BinaryCompute) (a b v : ℕ) (cg : CodeGen) (t : State)
      → Runs cg t
      → suc cg.max_reg_id ≤ e.max_reg_id
      → 1 ≤ a
      → a ≤ cg.max_reg_id
      → 1 ≤ b
      → b ≤ cg.max_reg_id
      → compute_binary e.unit op (t.regs a) (t.regs b) ≡ some v
      → Emitted cg t (apply op a b cg) v
  unfolding apply dest with_dest
  apply_lem op a b v cg t r h la ha lb hb c =
      let ra : is_reg e a ≡ true = old-is_reg a la (omega arith) in
      let rb : is_reg e b ≡ true = old-is_reg b lb (omega arith) in
      emit_lem (λ d. Instr.binary_op d a b op) cg t v r h
        (λ d hd. Line-binary_op e tmps cur d a b v op t hd ra rb c) (λ d. refl) (λ r d. refl)

  redirect_last :
      (front : List Instr) (i j : Instr) (r a : ℕ)
      → dest i ≡ some a
      → with_dest r i ≡ j
      → redirect r a (front ++ (i ∷ [])) ≡ front ++ (j ∷ [])
  unfolding redirect
  redirect_last [] i j r a d k =
      let same : a == a ≡ true = (==_iff a a).1 refl in rw (redirect, d, same) (ap (λ x. x ∷ []) k)
  redirect_last (f ∷ []) i j r a d k = ap (λ is. f ∷ is) (redirect_last [] i j r a d k)
  redirect_last (f ∷ g ∷ fs) i j r a d k = ap (λ is. f ∷ is) (redirect_last (g ∷ fs) i j r a d k)

  pub set_last_def_lem :
      (cg : CodeGen) (before : State) (r a v : ℕ) (l : LastDef cg before a v)
      → is_reg e r ≡ true
      → Runs (set_last_def r a cg) (wrote before r v)
  unfolding set_last_def
  set_last_def_lem cg before r a v l h =
      let q : redirect r a cg.instrs ≡ l.front ++ (l.make r ∷ []) =
        ap (redirect r a) l.shape
        ∙ redirect_last l.front (l.make a) (l.make r) r a (l.dest_of a) (l.redirects r a) in
      subst (λ is. Line e tmps cur is s (wrote before r v)) (sym q)
        (Line-append e tmps cur l.line (l.writes r h))

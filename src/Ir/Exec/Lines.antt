-- ===== src/Ir/Exec/Lines.antt =====
-- Straight-line stretches of a block: instructions that run through and go on to the next.
use helesta.Prelude.{ℕ, ◌+◌, ◌≡◌, refl, Option, some, true, List, [], ◌∷◌, ◌++◌, update}
use helesta.Ir.Scalar.{compute_unary, compute_binary, UnaryCompute, BinaryCompute}
use helesta.Ir.Op.{ScalarType}
use helesta.Ir.Exec.{Instr, load_const, unary_op, binary_op, Env, State, next, step, steps, is_reg}

abbrev pub ticked : State → State
ticked s = record s { instr_cnt = s.instr_cnt + 1 }

-- The state after one instruction that writes `v` to `d`.
abbrev pub wrote : State → ℕ → ℕ → State
wrote s d v = record s { regs = update s.regs d v; instr_cnt = s.instr_cnt + 1 }

module _ (e : Env) (tmps : ℕ → Option ℕ) (cur : ℕ) where
  -- From `s` the instructions run through to `t`.
  pub data Line : List Instr → State → State → Type 0 where
    done : {s : State} → Line [] s s
    then_ :
        {i : Instr} {is : List Instr} {s t u : State}
        → step e tmps cur i (ticked s) ≡ some (next t)
        → Line is t u
        → Line (i ∷ is) s u

  pub Line-append :
      {is js : List Instr} {s t u : State} → Line is s t → Line js t u → Line (is ++ js) s u
  Line-append done k = k
  Line-append (then_ h l) k = then_ h (Line-append l k)

  -- `steps` goes through a line and on to what stands behind it.
  pub steps-Line :
      {is : List Instr} {s t : State} (rest : List Instr)
      → Line is s t
      → steps e tmps cur (is ++ rest) s ≡ steps e tmps cur rest t
  unfolding steps
  steps-Line rest done = refl
  steps-Line rest (then_ h l) = rw h (steps-Line rest l)

  pub Line-load_const :
      (t : ScalarType) (d v : ℕ) (s : State)
      → is_reg e d ≡ true
      → Line (load_const t d v ∷ []) s (wrote s d v)
  unfolding step
  Line-load_const t d v s hd = then_ (rw hd) done

  pub Line-unary_op :
      (d a : ℕ) (op : UnaryCompute) (s : State)
      → is_reg e d ≡ true
      → is_reg e a ≡ true
      → Line (unary_op d a op ∷ []) s (wrote s d (compute_unary e.unit op (s.regs a)))
  unfolding step
  Line-unary_op d a op s hd ha = then_ (rw (ha, hd)) done

  pub Line-binary_op :
      (d a b v : ℕ) (op : BinaryCompute) (s : State)
      → is_reg e d ≡ true
      → is_reg e a ≡ true
      → is_reg e b ≡ true
      → compute_binary e.unit op (s.regs a) (s.regs b) ≡ some v
      → Line (binary_op d a b op ∷ []) s (wrote s d v)
  unfolding step
  Line-binary_op d a b v op s hd ha hb hv = then_ (rw (ha, hb, hv, hd)) done

-- ===== src/Opt/UnusedDef/Sets.antt =====
-- What an instruction that writes a register changes in a run of src/ir/ir.cpp.
use helesta.Prelude.{
  ℕ, ◌+◌, ◌/◌, ◌≡◌, ◌≢◌, inl, inr, refl, subst, Bool, true, false, Option, none, some,
  if◌then◌else◌, get_elem?, update, update_ne, ◌>>=◌, >>=-eq-some, Bool-cases, arith,
}
use helesta.Ir.Exec.{
  Instr, Env, State, Outcome, next, is_reg, write_reg, read_reg, is_addr, read_mem, address,
  next_reg, step,
}
use helesta.Ir.Scalar.{compute_binary}
use helesta.Ir.Instr.{dest}

module _ (e : Env) where
  -- A step that ends in the next instruction and changes one register and no memory.
  abbrev pub Sets : State → ℕ → Outcome → Type 0
  Sets s d o =
      (t : State) × (o ≡ next t) × (t.mem ≡ s.mem) × ((r : ℕ) → r ≢ d → t.regs r ≡ s.regs r)

  next-Sets : (s : State) (d v : ℕ) (o : Outcome) → next_reg e s d v ≡ some o → Sets s d o
  unfolding next_reg write_reg
  next-Sets s d v o q = elim (Bool-cases (is_reg e d)) [
    | inl k ↦ (
      record s { regs = update s.regs d v },
      ground arith,
      refl,
      λ r ne. update_ne s.regs d v r ne,
    )
    | inr k ↦ absurd (ground arith)
  ]

  load-Sets :
      (s : State) (d a : ℕ) (o : Outcome)
      → (read_mem e s a >>= λ p. next_reg e p.1 d p.0) ≡ some o
      → Sets s d o
  unfolding read_mem
  load-Sets s d a o q = elim (Bool-cases (is_addr e a)) [
    | inl k ↦
        let s' : State = record s { mem_r_cnt = s.mem_r_cnt + 1 } in
        next-Sets s' d (s.mem (a / 4)) o (rw k at q)
    | inr k ↦ absurd (ground arith)
  ]

  phi-Sets :
      (s : State) (d : ℕ) (o : Outcome) (enabled : Bool) (v : Option ℕ)
      → (if enabled then (v >>= λ x. next_reg e s d x) else none) ≡ some o
      → Sets s d o
  phi-Sets s d o false v q = cc
  phi-Sets s d o true none q = cc
  phi-Sets s d o true (some v) q = next-Sets s d v o q

  renamed : (s : State) (x d : ℕ) (o : Outcome) → some x ≡ some d → Sets s x o → Sets s d o
  renamed s x d o k h = let same : x ≡ d = ground arith in subst (λ z. Sets s z o) same h

  -- What an instruction that writes a register does.
  pub step-Sets :
      (T : ℕ → Option ℕ) (cur : ℕ) (i : Instr) (s : State) (d : ℕ) (o : Outcome)
      → dest i ≡ some d
      → step e T cur i s ≡ some o
      → Sets s d o
  unfolding step dest
  step-Sets T cur (Instr.load_addr x g n) s d o k q = renamed s x d o k (next-Sets s x _ o q)
  step-Sets T cur (Instr.load_const _ x v) s d o k q = renamed s x d o k (next-Sets s x v o q)
  step-Sets T cur (Instr.load_arg x i) s d o k q =
      let (v, p, q1) = >>=-eq-some (get_elem? e.args i) _ q in
      renamed s x d o k (next-Sets s x v o q1)
  step-Sets T cur (Instr.unary_op x a op) s d o k q =
      let (v, p, q1) = >>=-eq-some (read_reg e s a) _ q in renamed s x d o k (next-Sets s x _ o q1)
  step-Sets T cur (Instr.binary_op x a b op) s d o k q =
      let (v, p, q1) = >>=-eq-some (read_reg e s a) _ q in
      let (w, p1, q2) = >>=-eq-some (read_reg e s b) _ q1 in
      let (y, p2, q3) = >>=-eq-some (compute_binary e.unit op v w) _ q2 in
      renamed s x d o k (next-Sets s x y o q3)
  step-Sets T cur (Instr.array_index x a b n) s d o k q =
      let (v, p, q1) = >>=-eq-some (read_reg e s a) _ q in
      let (w, p1, q2) = >>=-eq-some (read_reg e s b) _ q1 in
      renamed s x d o k (next-Sets s x _ o q2)
  step-Sets T cur (Instr.load x a n i) s d o k q =
      let (v, p, q1) = >>=-eq-some (address e s a n i) _ q in
      renamed s x d o k (load-Sets s x v o q1)
  step-Sets T cur (Instr.phi x us) s d o k q =
      renamed s x d o k (phi-Sets s x o e.enable_phi (T x) q)
  step-Sets T cur (Instr.store _ _ _ _) s d o k q = cc
  step-Sets T cur (Instr.jump _) s d o k q = cc
  step-Sets T cur (Instr.branch _ _ _) s d o k q = cc
  step-Sets T cur (Instr.return _) s d o k q = cc

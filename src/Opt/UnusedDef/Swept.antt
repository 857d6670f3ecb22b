-- ===== src/Opt/UnusedDef/Swept.antt =====
-- What a run of src/ir/ir.cpp keeps where instructions are removed whose results are not live.
use helesta.Prelude.{
  ℕ, ◌+◌, ◌/◌, ◌≡◌, inl, inr, refl, sym, ap, subst, Bool, true, false, Option, none, some, List, [],
  ◌∷◌, ◌==◌, All, if◌then◌else◌, get_elem?, update, ◌>>=◌, >>=-eq-some, Bool-cases, arith,
}
use mathlib.Core.Option
use helesta.Ir.Exec.{
  Instr, Env, State, Outcome, next, goto, returned, is_reg, write_reg, read_reg, is_addr, write_mem,
  read_mem, address, next_reg, leave, step,
}
use helesta.Ir.Scalar.{compute_binary}
use helesta.Ir.Instr.{dest, offset_use, uses}

module _ (Live : ℕ → Type 0) where
  -- What may be asked of a kept instruction and of a removed one.
  abbrev pub Fits : Bool → Instr → Type 0
  Fits true i = All Live (uses i) × ((d : ℕ) → dest i ≡ some d → Live d)
  Fits false i = (d : ℕ) × (dest i ≡ some d) × ¬ Live d

  -- The second list is the first one less some instructions.
  pub data Swept : List Instr → List Instr → Type 0 where
    done : Swept [] []
    keep : {i : Instr} {is js : List Instr} → Fits true i → Swept is js → Swept (i ∷ is) (i ∷ js)
    drop : {i : Instr} {is js : List Instr} → Fits false i → Swept is js → Swept (i ∷ is) js

  abbrev pub SweptBlocks : List (List Instr) → List (List Instr) → Type 0
  SweptBlocks bs cs =
      (k : ℕ) (is : List Instr)
      → get_elem? bs k ≡ some is
      → (js : List Instr) × (get_elem? cs k ≡ some js) × Swept is js

  -- The same memory and the same values of the live registers.
  pub record Same (s t : State) : Type 0 where
    pub mem : s.mem ≡ t.mem
    pub regs : (r : ℕ) → Live r → s.regs r ≡ t.regs r

  abbrev pub SameOutcome : Outcome → Outcome → Type 0
  SameOutcome (next s) (next t) = Same s t
  SameOutcome (goto b s) (goto c t) = (b ≡ c) × Same s t
  SameOutcome (returned v s) (returned w t) = (v ≡ w) × Same s t
  SameOutcome _ _ = ⊥

  module _ (e : Env) where
    pub next-Same :
        (s t : State) (d v : ℕ) (o : Outcome)
        → Same s t
        → next_reg e s d v ≡ some o
        → (o' : Outcome) × (next_reg e t d v ≡ some o') × SameOutcome o o'
    unfolding next_reg write_reg
    next-Same s t d v o h q = elim (Bool-cases (is_reg e d)) [
      | inl k ↦
          let p : next (record s { regs = update s.regs d v }) ≡ o = ground arith in
          (
            next (record t { regs = update t.regs d v }),
            rw k refl,
            subst (λ x. SameOutcome x (next (record t { regs = update t.regs d v }))) p
                (record { mem = h.mem; regs = λ r l. ground (arith, h.regs r l) }),
          )
      | inr k ↦ absurd (ground arith)
    ]

    pub read-Same :
        (s t : State) (x a : ℕ)
        → Same s t
        → Live x
        → read_reg e s x ≡ some a
        → read_reg e t x ≡ some a
    unfolding read_reg
    read-Same s t x a h l q = ground (arith, h.regs x l)

    address-Same :
        (s t : State) (b o : ℕ) (i : Option ℕ) (a : ℕ)
        → Same s t
        → Live b
        → All Live (offset_use i)
        → address e s b o i ≡ some a
        → address e t b o i ≡ some a
    unfolding address
    address-Same s t b o none a h l ls q =
        let (x, p, q1) = >>=-eq-some (read_reg e s b) _ q in rw (read-Same s t b x h l p) q1
    address-Same s t b o (some r) a h l (lr, ls) q =
        let (x, p, q1) = >>=-eq-some (read_reg e s b) _ q in
        let (y, p1, q2) = >>=-eq-some (read_reg e s r) _ q1 in
        rw (read-Same s t b x h l p, read-Same s t r y h lr p1) q2

    leave-Same :
        (s t : State) (cur b : ℕ) → Same s t → SameOutcome (leave e s cur b) (leave e t cur b)
    unfolding leave
    leave-Same s t cur b h = (refl, counted (cur + 1 == b))
      where
        counted :
            (c : Bool)
            → Same
                (if c then s else record s { jump_cnt = s.jump_cnt + 1 })
                (if c then t else record t { jump_cnt = t.jump_cnt + 1 })
        counted true = h
        counted false = record { mem = h.mem; regs = h.regs }

    abbrev pub Follows : Option Outcome → Outcome → Type 0
    Follows r o = (o' : Outcome) × (r ≡ some o') × SameOutcome o o'

    leave-Follows :
        (s t : State) (cur b : ℕ) (o : Outcome)
        → Same s t
        → some (leave e s cur b) ≡ some o
        → Follows (some (leave e t cur b)) o
    leave-Follows s t cur b o h q =
        let p : leave e s cur b ≡ o = ground arith in
        (
          leave e t cur b,
          refl,
          subst (λ x. SameOutcome x (leave e t cur b)) p (leave-Same s t cur b h),
        )

    load-Follows :
        (s t : State) (d a : ℕ) (o : Outcome)
        → Same s t
        → (read_mem e s a >>= λ p. next_reg e p.1 d p.0) ≡ some o
        → Follows (read_mem e t a >>= λ p. next_reg e p.1 d p.0) o
    unfolding read_mem
    load-Follows s t d a o h q = elim (Bool-cases (is_addr e a)) [
      | inl k ↦
          let v : s.mem (a / 4) ≡ t.mem (a / 4) = ap (λ m. m (a / 4)) h.mem in
          let s' : State = record s { mem_r_cnt = s.mem_r_cnt + 1 } in
          let t' : State = record t { mem_r_cnt = t.mem_r_cnt + 1 } in
          let here : next_reg e s' d (s.mem (a / 4)) ≡ some o = rw k at q in
          let (o', p, so) =
            next-Same s' t' d (s.mem (a / 4)) o (record { mem = h.mem; regs = h.regs }) here in
          (o', rw (read_mem, k, sym v) p, so)
      | inr k ↦ absurd (ground arith)
    ]

    store-Follows :
        (s t : State) (a v : ℕ) (o : Outcome)
        → Same s t
        → Option.map next (write_mem e s a v) ≡ some o
        → Follows (Option.map next (write_mem e t a v)) o
    unfolding write_mem
    store-Follows s t a v o h q = elim (Bool-cases (is_addr e a)) [
      | inl k ↦
          let s' : State = record s { mem = update s.mem (a / 4) v; mem_w_cnt = s.mem_w_cnt + 1 } in
          let t' : State = record t { mem = update t.mem (a / 4) v; mem_w_cnt = t.mem_w_cnt + 1 } in
          let here : some (next s') ≡ some o = rw k at q in
          let same : next s' ≡ o = ground arith in
          (
            next t',
            rw (write_mem, k) refl,
            subst (λ x. SameOutcome x (next t')) same
                (record { mem = ap (λ m. update m (a / 4) v) h.mem; regs = h.regs }),
          )
      | inr k ↦ absurd (ground arith)
    ]

    phi-Follows :
        (s t : State) (d : ℕ) (o : Outcome) (enabled : Bool) (v v' : Option ℕ)
        → Same s t
        → v ≡ v'
        → (if enabled then (v >>= λ x. next_reg e s d x) else none) ≡ some o
        → Follows (if enabled then (v' >>= λ x. next_reg e t d x) else none) o
    phi-Follows s t d o false v v' h p q = cc
    phi-Follows s t d o true none v' h p q = cc
    phi-Follows s t d o true (some v) v' h p q =
        let (o', r, so) = next-Same s t d v o h q in (o', rw (sym p) r, so)

    -- A kept instruction does the same.
    pub step-Same :
        (T T' : ℕ → Option ℕ) (cur : ℕ) (i : Instr) (s t : State) (o : Outcome)
        → Fits true i
        → ((d : ℕ) → Live d → T d ≡ T' d)
        → Same s t
        → step e T cur i s ≡ some o
        → Follows (step e T' cur i t) o
    unfolding step uses dest
    step-Same T T' cur (Instr.load_addr d g n) s t o f ts h q = next-Same s t d _ o h q
    step-Same T T' cur (Instr.load_const _ d v) s t o f ts h q = next-Same s t d v o h q
    step-Same T T' cur (Instr.load_arg d i) s t o f ts h q =
        let (v, p, q1) = >>=-eq-some (get_elem? e.args i) _ q in
        let (o', r, so) = next-Same s t d v o h q1 in (o', rw p r, so)
    step-Same T T' cur (Instr.unary_op d a op) s t o ((la, _), _) ts h q =
        let (v, p, q1) = >>=-eq-some (read_reg e s a) _ q in
        let (o', r, so) = next-Same s t d _ o h q1 in (o', rw (read-Same s t a v h la p) r, so)
    step-Same T T' cur (Instr.binary_op d a b op) s t o ((la, (lb, _)), _) ts h q =
        let (v, p, q1) = >>=-eq-some (read_reg e s a) _ q in
        let (w, p1, q2) = >>=-eq-some (read_reg e s b) _ q1 in
        let (x, p2, q3) = >>=-eq-some (compute_binary e.unit op v w) _ q2 in
        let (o', r, so) = next-Same s t d x o h q3 in
        (o', rw (read-Same s t a v h la p, read-Same s t b w h lb p1, p2) r, so)
    step-Same T T' cur (Instr.array_index d a b n) s t o ((la, (lb, _)), _) ts h q =
        let (v, p, q1) = >>=-eq-some (read_reg e s a) _ q in
        let (w, p1, q2) = >>=-eq-some (read_reg e s b) _ q1 in
        let (o', r, so) = next-Same s t d _ o h q2 in
        (o', rw (read-Same s t a v h la p, read-Same s t b w h lb p1) r, so)
    step-Same T T' cur (Instr.load d a n i) s t o ((la, li), _) ts h q =
        let (v, p, q1) = >>=-eq-some (address e s a n i) _ q in
        let (o', r, so) = load-Follows s t d v o h q1 in
        (o', rw (address-Same s t a n i v h la li p) r, so)
    step-Same T T' cur (Instr.store a x n i) s t o ((la, (lx, li)), _) ts h q =
        let (v, p, q1) = >>=-eq-some (address e s a n i) _ q in
        let (w, p1, q2) = >>=-eq-some (read_reg e s x) _ q1 in
        let (o', r, so) = store-Follows s t v w o h q2 in
        (o', rw (address-Same s t a n i v h la li p, read-Same s t x w h lx p1) r, so)
    step-Same T T' cur (Instr.phi d us) s t o (_, ld) ts h q =
        phi-Follows s t d o e.enable_phi (T d) (T' d) h (ts d (ld d refl)) q
    step-Same T T' cur (Instr.jump b) s t o f ts h q = leave-Follows s t cur b o h q
    step-Same T T' cur (Instr.branch c b1 b0) s t o ((lc, _), _) ts h q =
        let (v, p, q1) = >>=-eq-some (read_reg e s c) _ q in
        let (o', r, so) = leave-Follows s t cur _ o h q1 in
        (o', rw (read-Same s t c v h lc p) r, so)
    step-Same T T' cur (Instr.return x) s t o ((lx, _), _) ts h q =
        let (v, p, q1) = >>=-eq-some (read_reg e s x) _ q in
        let same : returned v (record s { jump_cnt = s.jump_cnt + 2 }) ≡ o = ground arith in
        let end : Outcome = returned v (record t { jump_cnt = t.jump_cnt + 2 }) in
        (
          end,
          rw (read-Same s t x v h lx p) refl,
          subst (λ z. SameOutcome z end) same (refl, record { mem = h.mem; regs = h.regs }),
        )

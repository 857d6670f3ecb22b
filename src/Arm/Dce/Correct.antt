-- ===== src/Arm/Dce/Correct.antt =====
-- A machine for the instructions of src/arm/inst.hpp, and what the code that `dce` of src/arm/opt/dce.cpp leaves does
-- on it.
use helesta.Prelude.{
  ◌≡◌, ◌⊎◌, inl, inr, refl, sym, ap, ◌∙◌, Bool, true, false, not, ◌&&◌, ◌||◌, List, [], ◌∷◌, All,
  if◌then◌else◌, Bool-cases, arith,
}
use helesta.Arm.Cond.{InstCond}
use helesta.Arm.Inst.{Reg, FRegType, Arith, Form, Inst}
use helesta.Arm.Inst.Sets.{def_reg, use_reg, use_cpsr, change_cpsr, side_effect}
use helesta.Arm.Inst.Reads.{has_reg, keeps, keeps_lem, use_cond}
use helesta.Arm.Dce.{RegSet, tracked, update_live, writes_used, Kept, dce}
use helesta.Arm.Dce.Live.{update_live-stays, update_live-reads, writes_used_lem}

abbrev pub unconditional : Form → Inst
unconditional m = record { cond = InstCond.always; form = m }

-- The two conversions to double are left out: they also write the registers of `d8`.
abbrev pub to_double : Form → Bool
to_double (Form.arith (Arith.f_reg FRegType.f2d0 d a)) = true
to_double (Form.arith (Arith.f_reg FRegType.f2d1 d a)) = true
to_double _ = false

module _ (Val Flags Mem : Type 0) where
  -- `mem` is all that is neither a register nor a flag.
  pub record State : Type 0 where
    pub regs : Reg → Val
    pub flags : Flags
    pub mem : Mem

  -- Two states that agree on all that an instruction reads.
  pub record Reads (m : Form) (s t : State) : Type 0 where
    pub used : (q : Reg) → has_reg (use_reg (unconditional m)) q ≡ true → s.regs q ≡ t.regs q
    pub fixed : (q : Reg) → tracked q ≡ false → s.regs q ≡ t.regs q
    pub mem : s.mem ≡ t.mem

  -- Two states that agree on the live registers, on those that are never allocated and on the memory, and on the
  -- flags where these are read.
  pub record Agree (live : RegSet) (cpsr : Bool) (s t : State) : Type 0 where
    pub lives : (q : Reg) → live q ≡ true → s.regs q ≡ t.regs q
    pub fixed : (q : Reg) → tracked q ≡ false → s.regs q ≡ t.regs q
    pub mem : s.mem ≡ t.mem
    pub flags : cpsr ≡ true → s.flags ≡ t.flags

  -- What the assembler's manual says of an instruction without a condition: it writes and reads what the lists say,
  -- and the registers that are never allocated.
  pub record IsMachine (holds : InstCond → Flags → Bool) (effect : Form → State → State)
      : Type 0 where
    pub always_holds : (f : Flags) → holds InstCond.always f ≡ true
    pub keeps_regs :
        (m : Form) (s : State) (q : Reg)
        → to_double m ≡ false
        → has_reg (def_reg (unconditional m)) q ≡ false
        → (tracked q ≡ true) ⊎ (side_effect m ≡ false)
        → (effect m s).regs q ≡ s.regs q
    pub keeps_flags : (m : Form) (s : State) → change_cpsr m ≡ false → (effect m s).flags ≡ s.flags
    pub keeps_mem : (m : Form) (s : State) → side_effect m ≡ false → (effect m s).mem ≡ s.mem
    pub same_regs :
        (m : Form) (s t : State)
        → Reads m s t
        → (q : Reg) → (has_reg (def_reg (unconditional m)) q ≡ true) ⊎ (tracked q ≡ false)
        → (effect m s).regs q ≡ (effect m t).regs q
    pub same_flags :
        (m : Form) (s t : State)
        → Reads m s t
        → change_cpsr m ≡ true
        → (effect m s).flags ≡ (effect m t).flags
    pub same_mem : (m : Form) (s t : State) → Reads m s t → (effect m s).mem ≡ (effect m t).mem

  -- An instruction that keeps to its lists under its condition.
  abbrev pub IsRegular : Inst → Type 0
  IsRegular i = (to_double i.form ≡ false) × ((use_cpsr i.cond ≡ false) ⊎ (keeps i.form ≡ true))

  module _ (holds : InstCond → Flags → Bool) (effect : Form → State → State) where
    abbrev pub step : Inst → State → State
    step i s = if holds i.cond s.flags then effect i.form s else s

    -- The instructions of a block in their order.
    unfoldable pub execute : List Inst → State → State
    execute [] s = s
    execute (i ∷ is) s = execute is (step i s)

    module _ (machine : IsMachine holds effect) where
      module _ (i : Inst) (live : RegSet) (cpsr : Bool) (s t : State) (reg : IsRegular i) where
        abbrev Before : Type 0
        Before =
            Agree (update_live i live) ((cpsr && not (change_cpsr i.form)) || use_cpsr i.cond) s t

        reads : Before → Reads i.form s t
        reads a = record {
          used = λ q h. elim (Bool-cases (tracked q)) [
            | inl k ↦ a.lives q (update_live-reads i live q k (use_cond i.form i.cond q h))
            | inr k ↦ a.fixed q k
          ];
          fixed = a.fixed;
          mem = a.mem;
        }

        carried_out : Before → Agree live cpsr (effect i.form s) (effect i.form t)
        unfolding def_reg
        carried_out a = record {
          lives = λ q l. elim (Bool-cases (has_reg (def_reg i) q)) [
            | inl d ↦ machine.same_regs i.form s t (reads a) q (inl d)
            | inr d ↦ elim (Bool-cases (tracked q)) [
              | inl k ↦
                  machine.keeps_regs i.form s q reg.0 d (inl k)
                  ∙ a.lives q (update_live-stays i live q d l)
                  ∙ sym (machine.keeps_regs i.form t q reg.0 d (inl k))
              | inr k ↦ machine.same_regs i.form s t (reads a) q (inr k)
            ]
          ];
          fixed = λ q k. machine.same_regs i.form s t (reads a) q (inr k);
          mem = machine.same_mem i.form s t (reads a);
          flags = λ c. elim (Bool-cases (change_cpsr i.form)) [
            | inl k ↦ machine.same_flags i.form s t (reads a) k
            | inr k ↦
                machine.keeps_flags i.form s k
                ∙ a.flags (ground arith)
                ∙ sym (machine.keeps_flags i.form t k)
          ];
        }

        skipped : use_cpsr i.cond ≡ true → Before → Agree live cpsr s t
        skipped c a = record {
          lives = λ q l. elim (Bool-cases (has_reg (def_reg i) q)) [
            | inl d ↦ elim (Bool-cases (tracked q)) [
              | inl k ↦
                  a.lives q
                    (update_live-reads i live q k (keeps_lem i.form i.cond q c (kept reg.1) d))
              | inr k ↦ a.fixed q k
            ]
            | inr d ↦ a.lives q (update_live-stays i live q d l)
          ];
          fixed = a.fixed;
          mem = a.mem;
          flags = λ _. a.flags (ground arith);
        }
          where
            kept : (use_cpsr i.cond ≡ false) ⊎ (keeps i.form ≡ true) → keeps i.form ≡ true
            kept (inl n) = cc
            kept (inr k) = k

        kept_step : Before → Agree live cpsr (step i s) (step i t)
        kept_step a = elim (Bool-cases (use_cpsr i.cond)) [
          | inl c ↦
              let same : s.flags ≡ t.flags = a.flags (ground arith) in
              let e : holds i.cond s.flags ≡ holds i.cond t.flags = ap (holds i.cond) same in
              elim (Bool-cases (holds i.cond s.flags)) [
                | inl h ↦
                    let h' : holds i.cond t.flags ≡ true = sym e ∙ h in rw (h, h') (carried_out a)
                | inr h ↦
                    let h' : holds i.cond t.flags ≡ false = sym e ∙ h in rw (h, h') (skipped c a)
              ]
          | inr c ↦
              let h = always i.cond s.flags c in
              let h' = always i.cond t.flags c in rw (h, h') (carried_out a)
        ]
          where
            always : (c : InstCond) (f : Flags) → use_cpsr c ≡ false → holds c f ≡ true
            always InstCond.always f h = machine.always_holds f
            always InstCond.eq f h = cc
            always InstCond.ne f h = cc
            always InstCond.ge f h = cc
            always InstCond.gt f h = cc
            always InstCond.le f h = cc
            always InstCond.lt f h = cc

        dropped_step :
            ((side_effect i.form || (change_cpsr i.form && cpsr)) || writes_used (def_reg i) live)
              ≡ false
            → Agree live cpsr s t
            → Agree live cpsr (step i s) t
        unfolding def_reg
        dropped_step unused a = elim (Bool-cases (holds i.cond s.flags)) [
          | inr h ↦ rw h a
          | inl h ↦
              let pure : side_effect i.form ≡ false = ground arith in
              let unread : writes_used (def_reg i) live ≡ false = ground arith in
              rw h (record {
                lives = λ q l.
                    let other : has_reg (def_reg i) q ≡ false =
                      elim (Bool-cases (has_reg (def_reg i) q)) [
                        | inl d ↦
                            let (_, n) = writes_used_lem (def_reg i) live q unread d in
                            absurd (ground arith)
                        | inr d ↦ d
                      ] in
                    machine.keeps_regs i.form s q reg.0 other (inr pure) ∙ a.lives q l;
                fixed = λ q k.
                    let other : has_reg (def_reg i) q ≡ false =
                      elim (Bool-cases (has_reg (def_reg i) q)) [
                        | inl d ↦
                            let (n, _) = writes_used_lem (def_reg i) live q unread d in
                            absurd (ground arith)
                        | inr d ↦ d
                      ] in
                    machine.keeps_regs i.form s q reg.0 other (inr pure) ∙ a.fixed q k;
                mem = machine.keeps_mem i.form s pure ∙ a.mem;
                flags = λ c. machine.keeps_flags i.form s (ground arith) ∙ a.flags c;
              })
        ]

      -- From states that agree on what `dce` finds live at the start of a block, the block and what `dce` leaves of it
      -- end in states that agree on the registers that are live at its end, on those that are never allocated and on
      -- the memory.
      pub dce_lem :
          (live_out : RegSet) (insts : List Inst)
          → All IsRegular insts
          → (s t : State) → Agree (dce live_out insts).live (dce live_out insts).cpsr s t
          → Agree live_out false (execute insts s) (execute (dce live_out insts).insts t)
      unfolding dce execute
      dce_lem live_out [] reg s t a = a
      dce_lem live_out (i ∷ is) (r, reg) s t a =
          go (dce live_out is) (dce_lem live_out is reg)
            ((side_effect i.form || (change_cpsr i.form && (dce live_out is).cpsr))
              || writes_used (def_reg i) (dce live_out is).live)
            refl a
        where
          go :
              (k : Kept)
              → ((s t : State)
                  → Agree k.live k.cpsr s t
                  → Agree live_out false (execute is s) (execute k.insts t))
              → (used : Bool)
              → ((side_effect i.form || (change_cpsr i.form && k.cpsr))
                  || writes_used (def_reg i) k.live)
                ≡ used
              → let k' : Kept =
                  (if used
                    then record {
                      insts = i ∷ k.insts;
                      live = update_live i k.live;
                      cpsr = (k.cpsr && not (change_cpsr i.form)) || use_cpsr i.cond;
                    }
                    else k) in
                Agree k'.live k'.cpsr s t
                → Agree live_out false (execute is (step i s)) (execute k'.insts t)
          go k rest true u a = rest (step i s) (step i t) (kept_step i k.live k.cpsr s t r a)
          go k rest false u a = rest (step i s) t (dropped_step i k.live k.cpsr s t r u a)

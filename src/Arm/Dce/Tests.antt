-- ===== src/Arm/Dce/Tests.antt =====
-- A block and what src/arm/opt/dce.cpp leaves of it, on a machine of numbers.
use helesta.Prelude.{
  ℕ, zero, suc, ◌<◌, has, length, some, ◌+◌, ◌≡◌, ◌⊎◌, inl, inr, refl, ap₂, Bool, true, false, not,
  ◌==◌, List, [], ◌∷◌, All, if◌then◌else◌, arith,
}
use helesta.Arm.Cond.{InstCond}
use helesta.Arm.Inst.{
  Reg, int_reg, Arith, Constant, MoveType, Memory, Control, CmpType, RegImmType, Form, Inst,
}
use helesta.Arm.Inst.Sets.{def_reg, use_reg, change_cpsr, side_effect}
use helesta.Arm.Inst.Reads.{has_reg}
use helesta.Arm.Inst.Renamed.{same_reg_refl}
use helesta.Arm.Dce.{tracked}
use helesta.Arm.Dce.Correct.{State, IsMachine, Reads, Agree, IsRegular, unconditional}
use helesta.Arm.Dce.Func.{dce_func}
use helesta.Arm.Dce.Walks.{flags_read, IsWalk, end_of, run_walk, dce_func_lem}
use helesta.Arm.Live.{Block, Lives, block_at, calc_live}
use helesta.Arm.Live.Correct.{in_edge}

abbrev Numbers : Type 0
Numbers = State ℕ ℕ ℕ

abbrev total : (Reg → ℕ) → List Reg → ℕ
total f [] = 0
total f (r ∷ rs) = f r + total f rs

total_same :
    (f g : Reg → ℕ) (rs : List Reg)
    → ((q : Reg) → has_reg rs q ≡ true → f q ≡ g q)
    → total f rs ≡ total g rs
total_same f g [] h = refl
total_same f g (r ∷ rs) h =
    ap₂ (λ n m. n + m) (h r (let k = same_reg_refl r in ground arith))
      (total_same f g rs (λ q k. h q (ground arith)))

abbrev holds : InstCond → ℕ → Bool
holds InstCond.always f = true
holds InstCond.eq f = f == 0
holds _ f = not (f == 0)

abbrev effect : Form → Numbers → Numbers
effect m s = record {
  regs = λ q.
      if has_reg (def_reg (unconditional m)) q
      then total s.regs (use_reg (unconditional m))
      else s.regs q;
  flags = if change_cpsr m then total s.regs (use_reg (unconditional m)) else s.flags;
  mem = if side_effect m then s.mem + total s.regs (use_reg (unconditional m)) else s.mem;
}

effect-IsMachine : IsMachine ℕ ℕ ℕ holds effect
effect-IsMachine = record {
  always_holds = λ f. refl;
  keeps_regs = λ m s q d h k. rw h refl;
  keeps_flags = λ m s h. rw h refl;
  keeps_mem = λ m s h. rw h refl;
  same_regs = λ m s t r q h. same m s t r q h (has_reg (def_reg (unconditional m)) q) refl;
  same_flags = λ m s t r h. let e = sums m s t r in rw h e;
  same_mem =
      λ m s t r. let e = sums m s t r in ap₂ (λ a n. if side_effect m then a + n else a) r.mem e;
}
  where
    sums :
        (m : Form) (s t : Numbers)
        → Reads ℕ ℕ ℕ m s t
        → total s.regs (use_reg (unconditional m)) ≡ total t.regs (use_reg (unconditional m))
    sums m s t r = total_same s.regs t.regs (use_reg (unconditional m)) r.used

    same :
        (m : Form) (s t : Numbers)
        → Reads ℕ ℕ ℕ m s t
        → (q : Reg) → (has_reg (def_reg (unconditional m)) q ≡ true) ⊎ (tracked q ≡ false)
        → (b : Bool) → has_reg (def_reg (unconditional m)) q ≡ b
        → (effect m s).regs q ≡ (effect m t).regs q
    same m s t r q h true e = rw e (sums m s t r)
    same m s t r q (inl h) false e = cc
    same m s t r q (inr h) false e = rw e (r.fixed q h)

abbrev plain : Form → Inst
plain m = record { cond = InstCond.always; form = m }

-- The second sum and the comparison behind it are dead, and the first comparison is not.
abbrev block : List Inst
block =
    plain (Form.constant (Constant.move_imm MoveType.mov (int_reg 20) 7))
    ∷ plain (Form.control (Control.reg_imm_cmp CmpType.cmp (int_reg 20) 3))
    ∷ record { cond = InstCond.eq; form = Form.arith (Arith.move_reg (int_reg 21) (int_reg 20)) }
    ∷ plain (Form.arith (Arith.reg_imm RegImmType.add (int_reg 22) (int_reg 20) 1))
    ∷ plain (Form.control (Control.reg_imm_cmp CmpType.cmp (int_reg 22) 3))
    ∷ plain (Form.memory (Memory.store (int_reg 21) (int_reg 13) 4))
    ∷ []

abbrev blocks : List Block
blocks =
    record {
      insts = plain (Form.constant (Constant.move_imm MoveType.mov (int_reg 21) 5)) ∷ [];
      in_edge = [];
    }
    ∷ record { insts = block; in_edge = 0 ∷ 1 ∷ [] }
    ∷ []

blocks_range : (b p : ℕ) → has (in_edge blocks b) p ≡ true → p < length blocks
blocks_range zero p h = cc
blocks_range (suc zero) p h = ground arith
blocks_range (suc (suc b)) p h = cc

blocks-IsRegular : (b : ℕ) → All (IsRegular ℕ ℕ ℕ) (block_at blocks b).insts
blocks-IsRegular zero = ((refl, inl refl), tt)
blocks-IsRegular (suc zero) = (
  (refl, inl refl),
  (
    (refl, inl refl),
    ((refl, inr refl), ((refl, inl refl), ((refl, inl refl), ((refl, inl refl), tt)))),
  ),
)
blocks-IsRegular (suc (suc b)) = tt

blocks_quiet : (b : ℕ) → flags_read (block_at blocks b).insts ≡ false
unfolding change_cpsr
blocks_quiet zero = refl
blocks_quiet (suc zero) = refl
blocks_quiet (suc (suc b)) = refl

dce_func_lem_example :
    (l : Lives) × (after : List Block) × (calc_live blocks ≡ some l)
    × (dce_func blocks ≡ some after)
    × ((b : ℕ) (cs : List ℕ) (s t : Numbers)
        → IsWalk (in_edge blocks) b cs
        → Agree ℕ ℕ ℕ (has_reg (l.live_in b)) false s t
        → Agree ℕ ℕ ℕ
            (has_reg (l.live_out (end_of b cs)))
            false
            (run_walk ℕ ℕ ℕ holds effect blocks b cs s)
            (run_walk ℕ ℕ ℕ holds effect after b cs t))
dce_func_lem_example =
    dce_func_lem ℕ ℕ ℕ holds effect effect-IsMachine blocks blocks-IsRegular blocks_quiet
      blocks_range

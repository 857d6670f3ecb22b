-- ===== src/Arm/Interference/Tests.antt =====
-- The registers of a loop.
use helesta.Prelude.{
  ℕ, zero, suc, ◌==◌, ◌<◌, ◌≡◌, true, false, some, List, [], ◌∷◌, has, length, arith,
}
use helesta.Arm.Cond.{InstCond}
use helesta.Arm.Inst.{int_reg, Arith, Constant, MoveType, RegImmType, Control, CmpType, Form, Inst}
use helesta.Arm.Inst.Sets.{def_reg, use_reg}
use helesta.Arm.Coloring.{Allocation}
use helesta.Arm.Coloring.Spill.{Ends}
use helesta.Arm.Coloring.Correct.{Occurs}
use helesta.Arm.Live.{Block, Lives, calc_live}
use helesta.Arm.Live.Correct.{in_edge}
use helesta.Arm.Interference.{occurs_in, registers_of, allocate}
use helesta.Arm.Interference.Correct.{Separates, allocate_lem}

abbrev plain : Form → Inst
plain m = record { cond = InstCond.always; form = m }

-- A register is set, then another one is counted up to it.
abbrev blocks : List Block
blocks =
    record {
      insts =
          plain (Form.constant (Constant.move_imm MoveType.mov (int_reg 20) 7))
          ∷ plain (Form.constant (Constant.move_imm MoveType.mov (int_reg 21) 0))
          ∷ [];
      in_edge = [];
    }
    ∷ record {
      insts =
          plain (Form.arith (Arith.reg_imm RegImmType.add (int_reg 21) (int_reg 21) 1))
          ∷ plain (Form.control (Control.reg_reg_cmp CmpType.cmp (int_reg 21) (int_reg 20)))
          ∷ [];
      in_edge = 0 ∷ 1 ∷ [];
    }
    ∷ []

blocks_range : (b p : ℕ) → has (in_edge blocks b) p ≡ true → p < length blocks
blocks_range zero p h = cc
blocks_range (suc zero) p h = ground arith
blocks_range (suc (suc b)) p h = cc

blocks_small : (v : ℕ) → occurs_in false blocks v ≡ true → v < 22
unfolding occurs_in def_reg use_reg
blocks_small v h = ground arith

allocate_lem_example :
    (l : Lives) × (r : Allocation) × (calc_live blocks ≡ some l)
    × (allocate false (λ u. u == 21) (λ u. u == 20) blocks 22 ≡ some r)
    × Ends
        (λ u. u == 21)
        (Separates false blocks l)
        (Occurs (registers_of false) (occurs_in false blocks) 22)
        r
allocate_lem_example =
    allocate_lem false blocks 22 blocks_range blocks_small (λ u. u == 21) (λ u. u == 20)
      (omega arith)

-- ===== src/Arm/Live/Tests.antt =====
-- The live registers of a loop.
use helesta.Prelude.{ℕ, zero, suc, ◌≡◌, ◌<◌, true, some, List, [], ◌∷◌, has, length, arith}
use helesta.Arm.Cond.{InstCond}
use helesta.Arm.Inst.{
  Reg, int_reg, Arith, Constant, MoveType, RegImmType, Control, CmpType, Form, Inst,
}
use helesta.Arm.Inst.Reads.{has_reg}
use helesta.Arm.Dce.{RegSet}
use helesta.Arm.Live.{Block, Lives, calc_live}
use helesta.Arm.Live.Correct.{Solves, in_edge, calc_live_lem}

abbrev plain : Form → Inst
plain m = record { cond = InstCond.always; form = m }

-- A register is set, then another one is counted up to it.
abbrev blocks : List Block
blocks =
    record {
      insts =
          plain (Form.constant (Constant.move_imm MoveType.mov (int_reg 20) 7))
          ∷ plain (Form.constant (Constant.move_imm MoveType.mov (int_reg 21) 0))
          ∷ [];
      in_edge = [];
    }
    ∷ record {
      insts =
          plain (Form.arith (Arith.reg_imm RegImmType.add (int_reg 21) (int_reg 21) 1))
          ∷ plain (Form.control (Control.reg_reg_cmp CmpType.cmp (int_reg 21) (int_reg 20)))
          ∷ [];
      in_edge = 0 ∷ 1 ∷ [];
    }
    ∷ []

blocks_range : (b p : ℕ) → has (in_edge blocks b) p ≡ true → p < length blocks
blocks_range zero p h = cc
blocks_range (suc zero) p h = ground arith
blocks_range (suc (suc b)) p h = cc

calc_live_lem_example :
    (s : Lives) × (calc_live blocks ≡ some s)
    × Solves blocks (λ b. has_reg (s.live_in b)) (λ b. has_reg (s.live_out b))
    × ((p : ℕ) (r : Reg)
        → has_reg (s.live_out p) r ≡ true
        → (b : ℕ) × (has (in_edge blocks b) p ≡ true) × (has_reg (s.live_in b) r ≡ true))
    × ((ins outs : ℕ → RegSet)
        → Solves blocks ins outs
        → (b : ℕ) (r : Reg) → has_reg (s.live_in b) r ≡ true
        → ins b r ≡ true)
calc_live_lem_example = calc_live_lem blocks blocks_range

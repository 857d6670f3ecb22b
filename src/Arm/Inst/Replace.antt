-- ===== src/Arm/Inst/Replace.antt =====
-- `Inst::replace_reg` of src/arm/inst.hpp, with `regs` of each instruction.
use helesta.Prelude.{some, if◌then◌else◌, map}
use helesta.Arm.Inst.{Reg, same_reg, Arith, Constant, Memory, Control, Form, Inst}

abbrev pub renamed : Reg → Reg → Reg → Reg
renamed before after r = if same_reg r before then after else r

-- An assignment to each of `regs`.
module _ (f : Reg → Reg) where
  unfoldable pub arith_map : Arith → Arith
  arith_map (Arith.reg_reg op d a b s) = Arith.reg_reg op (f d) (f a) (f b) s
  arith_map (Arith.f_reg_reg op d a b) = Arith.f_reg_reg op (f d) (f a) (f b)
  arith_map (Arith.ml op d a b c) = Arith.ml op (f d) (f a) (f b) (f c)
  arith_map (Arith.smull d e a b) = Arith.smull (f d) (f e) (f a) (f b)
  arith_map (Arith.reg_imm op d a n) = Arith.reg_imm op (f d) (f a) n
  arith_map (Arith.move_reg d a) = Arith.move_reg (f d) (f a)
  arith_map (Arith.f_reg op d a) = Arith.f_reg op (f d) (f a)
  arith_map (Arith.shift_inst d a s) = Arith.shift_inst (f d) (f a) s

  unfoldable pub constant_map : Constant → Constant
  constant_map (Constant.move_imm op d n) = Constant.move_imm op (f d) n
  constant_map (Constant.move_w d n) = Constant.move_w (f d) n
  constant_map (Constant.move_t d n) = Constant.move_t (f d) n
  constant_map (Constant.load_symbol_addr_lower16 d n) = Constant.load_symbol_addr_lower16 (f d) n
  constant_map (Constant.load_symbol_addr_upper16 d n) = Constant.load_symbol_addr_upper16 (f d) n

  unfoldable pub memory_map : Memory → Memory
  memory_map (Memory.load d a n) = Memory.load (f d) (f a) n
  memory_map (Memory.store r a n) = Memory.store (f r) (f a) n
  memory_map (Memory.complex_load d a o s) = Memory.complex_load (f d) (f a) (f o) s
  memory_map (Memory.complex_store r a o s) = Memory.complex_store (f r) (f a) (f o) s
  memory_map (Memory.load_stack d n p) = Memory.load_stack (f d) n p
  memory_map (Memory.store_stack r n p) = Memory.store_stack (f r) n p
  memory_map (Memory.push rs) = Memory.push (map f rs)
  memory_map (Memory.change_sp n) = Memory.change_sp n
  memory_map (Memory.load_stack_addr d n p) = Memory.load_stack_addr (f d) n p
  memory_map (Memory.load_stack_offset d n p) = Memory.load_stack_offset (f d) n p

  unfoldable pub control_map : Control → Control
  control_map (Control.reg_reg_cmp op a b) = Control.reg_reg_cmp op (f a) (f b)
  control_map (Control.f_reg_reg_cmp a b) = Control.f_reg_reg_cmp (f a) (f b)
  control_map (Control.reg_imm_cmp op a n) = Control.reg_imm_cmp op (f a) n
  control_map (Control.simd (some r) v) = Control.simd (some (f r)) v
  control_map c = c

unfoldable pub replace_reg : Reg → Reg → Inst → Inst
unfolding arith_map constant_map memory_map control_map
replace_reg before after i = record i {
  form = elim i.form [
    | Form.arith a ↦ Form.arith (arith_map (renamed before after) a)
    | Form.constant c ↦ Form.constant (constant_map (renamed before after) c)
    | Form.memory m ↦ Form.memory (memory_map (renamed before after) m)
    | Form.control c ↦ Form.control (control_map (renamed before after) c)
  ];
}

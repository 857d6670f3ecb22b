-- ===== src/Arm/Inst/Sets.antt =====
-- The registers that the instructions of src/arm/inst.hpp write and read, and their other effects.
use helesta.Prelude.{
  ℕ, zero, suc, ◌+◌, Bool, true, false, none, some, List, [], ◌∷◌, ◌++◌, if◌then◌else◌,
}
use helesta.Ir.Op.{ScalarType}
use helesta.Arm.Cond.{InstCond}
use helesta.Arm.Coloring.{RegisterUsage, int_registers, float_registers, is_caller_save}
use helesta.Arm.Inst.{Reg, int_reg, float_reg, Arith, Constant, Memory, Control, Form, Inst}

-- `cond != Always`, which is `use_cpsr`.
abbrev pub use_cpsr : InstCond → Bool
use_cpsr InstCond.always = false
use_cpsr _ = true

-- What the instructions write.
unfoldable pub arith_def : Arith → List Reg
arith_def (Arith.reg_reg op d a b s) = d ∷ []
arith_def (Arith.f_reg_reg op d a b) = d ∷ []
arith_def (Arith.ml op d a b c) = d ∷ []
arith_def (Arith.smull d e a b) = d ∷ e ∷ []
arith_def (Arith.reg_imm op d a n) = d ∷ []
arith_def (Arith.move_reg d a) = d ∷ []
arith_def (Arith.f_reg op d a) = d ∷ []
arith_def (Arith.shift_inst d a s) = d ∷ []

abbrev pub constant_dst : Constant → Reg
constant_dst (Constant.move_imm op d n) = d
constant_dst (Constant.move_w d n) = d
constant_dst (Constant.move_t d n) = d
constant_dst (Constant.load_symbol_addr_lower16 d n) = d
constant_dst (Constant.load_symbol_addr_upper16 d n) = d

unfoldable pub memory_def : Memory → List Reg
memory_def (Memory.load d a n) = d ∷ []
memory_def (Memory.complex_load d a o s) = d ∷ []
memory_def (Memory.load_stack d n p) = d ∷ []
memory_def (Memory.load_stack_addr d n p) = d ∷ []
memory_def (Memory.load_stack_offset d n p) = d ∷ []
memory_def _ = []

-- The registers from `j` on that a call may change.
abbrev pub caller_saves : Bool → ℕ → List RegisterUsage → List Reg
caller_saves f j [] = []
caller_saves f j (u ∷ us) =
    let rest = caller_saves f (j + 1) us in
    if is_caller_save u then record { id = j; is_float = f } ∷ rest else rest

abbrev pub call_def : List Reg
call_def =
    caller_saves false 0 int_registers.register_usage
    ++ (caller_saves true 0 float_registers.register_usage ++ (int_reg 14 ∷ []))

unfoldable pub control_def : Control → List Reg
control_def (Control.simd src true) = int_reg 0 ∷ []
control_def (Control.func_call f n m) = call_def
control_def _ = []

unfoldable pub def_reg : Inst → List Reg
unfolding arith_def memory_def control_def
def_reg i = elim i.form [
  | Form.arith a ↦ arith_def a
  | Form.constant c ↦ constant_dst c ∷ []
  | Form.memory m ↦ memory_def m
  | Form.control c ↦ control_def c
]

-- What they read, under a condition or not.
unfoldable pub arith_use : Bool → Arith → List Reg
arith_use k (Arith.reg_reg op d a b s) = if k then d ∷ a ∷ b ∷ [] else a ∷ b ∷ []
arith_use k (Arith.f_reg_reg op d a b) = if k then d ∷ a ∷ b ∷ [] else a ∷ b ∷ []
arith_use k (Arith.ml op d a b c) = if k then d ∷ a ∷ b ∷ c ∷ [] else a ∷ b ∷ c ∷ []
arith_use k (Arith.smull d e a b) = if k then d ∷ e ∷ a ∷ b ∷ [] else a ∷ b ∷ []
arith_use k (Arith.reg_imm op d a n) = if k then d ∷ a ∷ [] else a ∷ []
arith_use k (Arith.move_reg d a) = if k then d ∷ a ∷ [] else a ∷ []
arith_use k (Arith.f_reg op d a) = a ∷ []
arith_use k (Arith.shift_inst d a s) = if k then d ∷ a ∷ [] else a ∷ []

unfoldable pub constant_use : Bool → Constant → List Reg
constant_use k (Constant.move_imm op d n) = if k then d ∷ [] else []
constant_use k (Constant.move_w d n) = if k then d ∷ [] else []
constant_use k (Constant.move_t d n) = d ∷ []
constant_use k (Constant.load_symbol_addr_lower16 d n) = if k then d ∷ [] else []
constant_use k (Constant.load_symbol_addr_upper16 d n) = d ∷ []

unfoldable pub memory_use : Bool → Memory → List Reg
memory_use k (Memory.load d a n) = if k then a ∷ d ∷ [] else a ∷ []
memory_use k (Memory.store r a n) = r ∷ a ∷ []
memory_use k (Memory.complex_load d a o s) = if k then a ∷ o ∷ d ∷ [] else a ∷ o ∷ []
memory_use k (Memory.complex_store r a o s) = r ∷ a ∷ o ∷ []
memory_use k (Memory.load_stack d n p) = if k then d ∷ [] else []
memory_use k (Memory.store_stack r n p) = r ∷ []
memory_use k (Memory.push rs) = rs
memory_use k (Memory.change_sp n) = []
memory_use k (Memory.load_stack_addr d n p) = if k then d ∷ [] else []
memory_use k (Memory.load_stack_offset d n p) = if k then d ∷ [] else []

abbrev pub argument_registers : Bool → List Reg
argument_registers f =
    record { id = 0; is_float = f }
    ∷ record { id = 1; is_float = f }
    ∷ record { id = 2; is_float = f }
    ∷ record { id = 3; is_float = f }
    ∷ []

abbrev pub first : ℕ → List Reg → List Reg
first zero rs = []
first (suc n) [] = []
first (suc n) (r ∷ rs) = r ∷ first n rs

-- The registers of the arguments that are passed in registers.
abbrev pub arguments : Bool → ℕ → List Reg
arguments f n = first n (argument_registers f)

unfoldable pub control_use : Bool → Control → List Reg
control_use k (Control.reg_reg_cmp op a b) = a ∷ b ∷ []
control_use k (Control.f_reg_reg_cmp a b) = a ∷ b ∷ []
control_use k (Control.reg_imm_cmp op a n) = a ∷ []
control_use k (Control.simd (some r) v) = r ∷ []
control_use k (Control.simd none v) = []
control_use k (Control.branch b) = []
control_use k (Control.func_call f n m) =
    if k then call_def else arguments false n ++ arguments true m
control_use k (Control.return ScalarType.int) = int_reg 0 ∷ []
control_use k (Control.return ScalarType.float) = float_reg 0 ∷ []
control_use k (Control.return _) = []

unfoldable pub use_reg : Inst → List Reg
unfolding arith_use constant_use memory_use control_use
use_reg i = elim i.form [
  | Form.arith a ↦ arith_use (use_cpsr i.cond) a
  | Form.constant c ↦ constant_use (use_cpsr i.cond) c
  | Form.memory m ↦ memory_use (use_cpsr i.cond) m
  | Form.control c ↦ control_use (use_cpsr i.cond) c
]

-- What changes the flags, and what does more than to write registers and flags.
unfoldable pub change_cpsr : Form → Bool
change_cpsr (Form.control (Control.reg_reg_cmp op a b)) = true
change_cpsr (Form.control (Control.f_reg_reg_cmp a b)) = true
change_cpsr (Form.control (Control.reg_imm_cmp op a n)) = true
change_cpsr (Form.control (Control.func_call f n m)) = true
change_cpsr _ = false

unfoldable pub side_effect : Form → Bool
side_effect (Form.memory (Memory.store r a n)) = true
side_effect (Form.memory (Memory.complex_store r a o s)) = true
side_effect (Form.memory (Memory.store_stack r n p)) = true
side_effect (Form.memory (Memory.push rs)) = true
side_effect (Form.memory (Memory.change_sp n)) = true
side_effect (Form.control (Control.simd r v)) = true
side_effect (Form.control (Control.branch b)) = true
side_effect (Form.control (Control.func_call f n m)) = true
side_effect (Form.control (Control.return t)) = true
side_effect _ = false

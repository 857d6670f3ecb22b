-- ===== src/Arm/Inst.antt =====
-- `Reg` of src/arm/block.hpp and the instructions of src/arm/inst.hpp: what they read and write. The other objects
-- that instructions point to are numbers.
pub mod Sets
pub mod Replace
pub mod Renamed
pub mod Reads
pub mod Tests
use helesta.Prelude.{
  ℕ, Bool, true, false, not, ◌&&◌, ◌||◌, Option, none, some, List, [], ◌∷◌, ◌==◌, leb,
  if◌then◌else◌, get_elem?, map,
}
use helesta.Ir.Op.{ScalarType}
use helesta.Arm.Cond.{InstCond}
use helesta.Arm.Coloring.{RegisterUsage, RegConvention, int_registers, float_registers, allocable}

-- A register is of type float or of type int.
pub record Reg : Type 0 where
  pub id : ℕ
  pub is_float : Bool

abbrev pub int_reg : ℕ → Reg
int_reg n = record { id = n; is_float = false }

abbrev pub float_reg : ℕ → Reg
float_reg n = record { id = n; is_float = true }

abbrev pub same_type : Bool → Bool → Bool
same_type true b = b
same_type false b = not b

abbrev pub same_reg : Reg → Reg → Bool
same_reg a b = same_type a.is_float b.is_float && (a.id == b.id)

abbrev pub convention : Reg → RegConvention
convention r = if r.is_float then float_registers else int_registers

abbrev pub is_pseudo : Reg → Bool
is_pseudo r = leb (convention r).count r.id

abbrev pub is_machine : Reg → Bool
is_machine r = not (is_pseudo r)

abbrev pub is_allocable : Reg → Bool
is_allocable r = elim (get_elem? (convention r).register_usage r.id) [
  | none ↦ false
  | some u ↦ allocable u
]

pub data ShiftType : Type 0 where
  lsl lsr asr ror : ShiftType

pub record Shift : Type 0 where
  pub type : ShiftType
  pub w : ℕ

pub data RegRegType : Type 0 where
  add sub mul div rev_sub modulo and : RegRegType

pub data FRegRegType : Type 0 where
  add sub mul div : FRegRegType

pub data MlType : Type 0 where
  mla mls : MlType

pub data RegImmType : Type 0 where
  add sub rev_sub lsl lsr asr bic : RegImmType

pub data FRegType : Type 0 where
  neg i2f f2i f2d0 f2d1 : FRegType

-- From `RegRegInst` to `ShiftInst`.
pub data Arith : Type 0 where
  reg_reg : RegRegType → Reg → Reg → Reg → Shift → Arith
  f_reg_reg : FRegRegType → Reg → Reg → Reg → Arith
  ml : MlType → Reg → Reg → Reg → Reg → Arith
  smull : Reg → Reg → Reg → Reg → Arith
  reg_imm : RegImmType → Reg → Reg → ℕ → Arith
  move_reg : Reg → Reg → Arith
  f_reg : FRegType → Reg → Reg → Arith
  shift_inst : Reg → Reg → Shift → Arith

pub data MoveType : Type 0 where
  mov mvn : MoveType

-- From `MoveImm` to `LoadSymbolAddrUpper16`.
pub data Constant : Type 0 where
  move_imm : MoveType → Reg → ℕ → Constant
  move_w move_t load_symbol_addr_lower16 load_symbol_addr_upper16 : Reg → ℕ → Constant

-- From `Load` to `LoadStackOffset`.
pub data Memory : Type 0 where
  load store : Reg → Reg → ℕ → Memory
  complex_load complex_store : Reg → Reg → Reg → Shift → Memory
  load_stack store_stack : Reg → ℕ → ℕ → Memory
  push : List Reg → Memory
  change_sp : ℕ → Memory
  load_stack_addr load_stack_offset : Reg → ℕ → ℕ → Memory

pub data CmpType : Type 0 where
  cmp cmn : CmpType

-- From `RegRegCmp` to `Return`. Of the instruction behind `SIMD`, only whether it is a `VDUP_32` counts here.
pub data Control : Type 0 where
  reg_reg_cmp : CmpType → Reg → Reg → Control
  f_reg_reg_cmp : Reg → Reg → Control
  reg_imm_cmp : CmpType → Reg → ℕ → Control
  simd : Option Reg → Bool → Control
  branch : ℕ → Control
  func_call : ℕ → ℕ → ℕ → Control
  return : ScalarType → Control

pub data Form : Type 0 where
  arith : Arith → Form
  constant : Constant → Form
  memory : Memory → Form
  control : Control → Form

pub record Inst : Type 0 where
  pub cond : InstCond
  pub form : Form
